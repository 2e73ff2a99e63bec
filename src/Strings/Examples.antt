-- ===== src/Strings/Examples.antt =====
-- The functions on strings at concrete inputs.
use imgeditor.Common.{ℕ, ◌≡◌, refl, Bool, List, [], ◌∷◌, ◌++◌, ◌==◌}
use imgeditor.Common.{some, pos, minus_one, arith}
use imgeditor.Strings.Replace.{
  Replaced, strip, skipped, found_here, strstr, replace_found, replace_loop,
  string_replace_in_buffer,
}
use imgeditor.Strings.Replacing.{Ended, string_replace_in_buffer-Ended}
use imgeditor.Strings.{string_remove_eol_space, eol_loop}
use imgeditor.Strings.Trim.{Spaces, EndsPlain, remove_eol-EndsPlain}

abbrev is_blank : ℕ → Bool
is_blank c = c == 32

abbrev padded : List ℕ
padded = 32 ∷ b'a' ∷ 32 ∷ []

remove_eol-EndsPlain_example :
    (tail : List ℕ) × (padded ≡ string_remove_eol_space is_blank padded ++ tail)
    × Spaces is_blank tail
    × EndsPlain is_blank (string_remove_eol_space is_blank padded)
remove_eol-EndsPlain_example = remove_eol-EndsPlain is_blank padded

padded_removed : string_remove_eol_space is_blank padded ≡ 32 ∷ b'a' ∷ []
unfolding string_remove_eol_space eol_loop
padded_removed = refl

-- In "a--b--" the token "--" becomes "+", and the buffer holds what the string needs.
abbrev dashes : List ℕ
dashes = b'a' ∷ b'-' ∷ b'-' ∷ b'b' ∷ b'-' ∷ b'-' ∷ []

string_replace_in_buffer-Ended_example :
    (R : Replaced) × (string_replace_in_buffer 16 (b'-' ∷ b'-' ∷ []) (b'+' ∷ []) dashes ≡ some R)
    × Ended 16 (b'-' ∷ b'-' ∷ []) (b'+' ∷ []) dashes R
string_replace_in_buffer-Ended_example =
    string_replace_in_buffer-Ended 16 (b'-' ∷ b'-' ∷ []) (b'+' ∷ []) dashes (omega arith)
      (omega arith)

dashes_replaced :
    string_replace_in_buffer 16 (b'-' ∷ b'-' ∷ []) (b'+' ∷ []) dashes
    ≡ some (Replaced.returned (b'a' ∷ b'+' ∷ b'b' ∷ b'+' ∷ []) (pos 0))
unfolding string_replace_in_buffer replace_loop replace_found strstr found_here skipped strip
dashes_replaced = refl

-- The test of the room looks at what is in front of the token only: "-bcdefg" fills a buffer of eight
-- bytes, and replacing "-" by "xyz" needs ten.
abbrev dash_first : List ℕ
dash_first = b'-' ∷ b'b' ∷ b'c' ∷ b'd' ∷ b'e' ∷ b'f' ∷ b'g' ∷ []

dash_overflow :
    string_replace_in_buffer 8 (b'-' ∷ []) (b'x' ∷ b'y' ∷ b'z' ∷ []) dash_first
    ≡ some Replaced.out_of_bounds
unfolding string_replace_in_buffer replace_loop replace_found strstr found_here skipped strip
dash_overflow = refl

-- The same in a buffer of three bytes, whose string is the token: refused.
dash_refused :
    string_replace_in_buffer 3 (b'-' ∷ []) (b'x' ∷ b'y' ∷ b'z' ∷ []) (b'-' ∷ [])
    ≡ some (Replaced.returned (b'-' ∷ []) minus_one)
unfolding string_replace_in_buffer replace_loop replace_found strstr found_here skipped strip
dash_refused = refl

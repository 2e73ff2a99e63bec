-- ===== src/Strings/Replace.antt =====
-- `string_replace_in_buffer` of string_helper.c. The buffer, of `bufsz` bytes, is the string in it,
-- without the zero at its end.
use imgeditor.Common.{ℕ, zero, suc, ◌+◌, ◌-◌}
use imgeditor.Common.{Option, none, some, ltb, leb, ◌==◌, if◌then◌else◌}
use imgeditor.Common.{List, [], ◌∷◌, ◌++◌, length, ℤ, pos, minus_one}

-- What stands behind the token at the start of a string.
unfoldable pub strip : List ℕ → List ℕ → Option (List ℕ)
strip [] s = some s
strip (t ∷ token) [] = none
strip (t ∷ token) (c ∷ s) = let rest = strip token s in if t == c then rest else none

-- `strstr`: what stands in front of the first token of a string and behind it.
abbrev pub Found : Type 0
Found = Option (List ℕ × List ℕ)

unfoldable pub skipped : ℕ → Found → Found
skipped c none = none
skipped c (some (pre, post)) = some (c ∷ pre, post)

unfoldable pub found_here : Option (List ℕ) → Found → Found
found_here none later = later
found_here (some post) later = some ([], post)

unfoldable pub strstr : List ℕ → List ℕ → Found
strstr [] token = found_here (strip token []) none
strstr (c ∷ s) token =
    let later = strstr s token in found_here (strip token (c ∷ s)) (skipped c later)

-- A return with the string that is left, or a write behind the buffer, which C leaves undefined.
pub data Replaced : Type 0 where
  returned : List ℕ → ℤ → Replaced
  out_of_bounds : Replaced

module _ (bufsz : ℕ) (token to : List ℕ) where
  -- `done` is in front of `s`, which is looked through. `none` is a loop that does not end. The last
  -- byte that a round writes is the zero behind the string.
  unfoldable pub replace_found :
      List ℕ → List ℕ → Found → (List ℕ → List ℕ → Option Replaced) → Option Replaced
  replace_found done s none loop = some (Replaced.returned (done ++ s) (pos 0))
  replace_found done s (some (pre, post)) loop =
      let used = length done + length pre in
      let rest = loop (done ++ (pre ++ to)) post in
      let moved =
        if ltb bufsz (used + length to + length post + 1)
        then some Replaced.out_of_bounds
        else rest in
      if leb (length to) (length token)
      then moved
      else if leb bufsz (length to - length token + used + 1)
      then some (Replaced.returned (done ++ s) minus_one)
      else moved

  unfoldable pub replace_loop : ℕ → List ℕ → List ℕ → Option Replaced
  replace_loop zero done s = none
  replace_loop (suc fuel) done s =
      replace_found done s (strstr s token) (λ done' s'. replace_loop fuel done' s')

  -- A round passes a token, so one round more than the string is long is enough for one that is not empty.
  unfoldable pub string_replace_in_buffer : List ℕ → Option Replaced
  string_replace_in_buffer buffer = replace_loop (length buffer + 1) [] buffer

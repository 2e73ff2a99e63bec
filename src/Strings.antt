-- ===== src/Strings.antt =====
-- string_helper.h: the functions on C strings. A string is the list of its bytes before the zero.
-- `isspace` is the C library's test.
pub mod Trim
pub mod Replace
pub mod Search
pub mod Replacing
mod Examples
use imgeditor.Common.{
  ℕ, zero, suc, ◌+◌, Bool, true, false, List, [], ◌∷◌, get_or, length, take, ◌==◌, if◌then◌else◌,
}

unfoldable pub string_count_char : List ℕ → ℕ → ℕ
string_count_char [] c = 0
string_count_char (x ∷ xs) c = let n = string_count_char xs c in if x == c then n + 1 else n

module _ (isspace : ℕ → Bool) where
  unfoldable pub string_count_space : List ℕ → ℕ
  string_count_space [] = 0
  string_count_space (x ∷ xs) = let n = string_count_space xs in if isspace x then n + 1 else n

  unfoldable pub string_skip_head_space : List ℕ → List ℕ
  string_skip_head_space [] = []
  string_skip_head_space (x ∷ xs) =
      let rest = string_skip_head_space xs in if isspace x then rest else x ∷ xs

  -- The loop that moves `p` down: `n` bytes are left, the last of them at `p`.
  unfoldable pub eol_loop : ℕ → List ℕ → ℕ
  eol_loop zero s = 0
  eol_loop (suc n) s = let less = eol_loop n s in if isspace (get_or s n 0) then less else suc n

  -- The zero is written behind the bytes that are left.
  unfoldable pub string_remove_eol_space : List ℕ → List ℕ
  string_remove_eol_space [] = []
  string_remove_eol_space (x ∷ xs) = take (eol_loop (length (x ∷ xs)) (x ∷ xs)) (x ∷ xs)

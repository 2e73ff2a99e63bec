-- ===== src/Strings/Replacing.antt =====
-- `string_replace_in_buffer` of string_helper.c replaces the tokens from left to right, and how it ends.
use imgeditor.Common.{
  ℕ, zero, suc, ◌+◌, ◌-◌, ◌≤◌, ◌<◌, ◌≡◌, ◌≢◌, refl, ◌∙◌, ap, arith, inl, inr, ◌⊎◌,
}
use imgeditor.Common.{none, some, false, Bool-cases, ltb, leb}
use imgeditor.Common.{List, [], ◌++◌, length, length-append, pos, minus_one}
use imgeditor.Strings.Replace.{
  strstr, Replaced, replace_found, replace_loop, string_replace_in_buffer,
}
use imgeditor.Strings.Search.{strstr-IsFirst}

-- The first token of `s` has `pre` in front of it and `post` behind it.
pub record IsFirst (token s pre post : List ℕ) : Type 0 where
  pub whole : s ≡ pre ++ (token ++ post)
  pub first : (pre' post' : List ℕ) → s ≡ pre' ++ (token ++ post') → length pre ≤ length pre'

module _ (bufsz : ℕ) (token to : List ℕ) where
  -- The size that the test of the room looks at: what is in front of the token, with the growth.
  abbrev pub looked_at : List ℕ → List ℕ → ℕ
  looked_at done pre = length to - length token + (length done + length pre) + 1

  -- The bytes that the buffer needs for the string with the token replaced, and its zero.
  abbrev pub needed : List ℕ → List ℕ → List ℕ → ℕ
  needed done pre post = length done + length pre + length to + length post + 1

  -- The buffer holds `done ++ s` when tokens of `buffer` have been replaced one by one from the left,
  -- those in `done`, each of them with a room that the test allows and in which the string fits.
  pub data Progress (buffer : List ℕ) : List ℕ → List ℕ → Type 0 where
    untouched : Progress buffer [] buffer
    one_more :
        {done s : List ℕ} (pre post : List ℕ)
        → Progress buffer done s
        → IsFirst token s pre post
        → (length to ≤ length token) ⊎ (looked_at done pre < bufsz)
        → needed done pre post ≤ bufsz
        → Progress buffer (done ++ (pre ++ to)) post

  -- How the replacement ends: with no token left; refused, at a token for which the test leaves no
  -- room; or in a write behind the buffer, at a token that the test allows and that has no room.
  pub data Ended (buffer : List ℕ) : Replaced → Type 0 where
    all_replaced :
        {done s : List ℕ}
        → Progress buffer done s
        → ((pre post : List ℕ) → s ≢ pre ++ (token ++ post))
        → length done + length s < bufsz
        → Ended buffer (Replaced.returned (done ++ s) (pos 0))
    refused :
        {done s : List ℕ} (pre post : List ℕ)
        → Progress buffer done s
        → IsFirst token s pre post
        → length token < length to
        → bufsz ≤ looked_at done pre
        → Ended buffer (Replaced.returned (done ++ s) minus_one)
    overrun :
        {done s : List ℕ} (pre post : List ℕ)
        → Progress buffer done s
        → IsFirst token s pre post
        → length token < length to
        → looked_at done pre < bufsz
        → bufsz < needed done pre post
        → Ended buffer Replaced.out_of_bounds

  loop-none :
      (fuel : ℕ) (done s : List ℕ)
      → strstr s token ≡ none
      → replace_loop bufsz token to (suc fuel) done s ≡ some (Replaced.returned (done ++ s) (pos 0))
  unfolding replace_loop replace_found
  loop-none fuel done s e =
      ap (λ f. replace_found bufsz token to done s f (replace_loop bufsz token to fuel)) e

  -- The three things that a round on a token does.
  loop-found :
      (fuel : ℕ) (done s pre post : List ℕ)
      → strstr s token ≡ some (pre, post)
      → length done + length s < bufsz
      → length s ≡ length pre + (length token + length post)
      → ((replace_loop bufsz token to (suc fuel) done s
            ≡ replace_loop bufsz token to fuel (done ++ (pre ++ to)) post)
          × ((length to ≤ length token) ⊎ (looked_at done pre < bufsz))
          × (needed done pre post ≤ bufsz))
        ⊎ (((replace_loop bufsz token to (suc fuel) done s
                ≡ some (Replaced.returned (done ++ s) minus_one))
              × (length token < length to)
              × (bufsz ≤ looked_at done pre))
            ⊎ ((replace_loop bufsz token to (suc fuel) done s ≡ some Replaced.out_of_bounds)
                × (length token < length to)
                × (looked_at done pre < bufsz)
                × (bufsz < needed done pre post)))
  unfolding replace_loop replace_found
  loop-found fuel done s pre post e held size =
      let loop = replace_loop bufsz token to fuel in
      let step = ap (λ f. replace_found bufsz token to done s f loop) e in
      elim (Bool-cases (leb (length to) (length token))) [
        | inl shorter ↦
            let fits : ltb bufsz (needed done pre post) ≡ false = ground (arith, held, size) in
            inl (step ∙ rw (shorter, fits) refl, inl (ground arith), ground arith)
        | inr longer ↦ elim (Bool-cases (leb bufsz (looked_at done pre))) [
          | inl full ↦ inr (inl (step ∙ rw (longer, full) refl, ground arith, ground arith))
          | inr room ↦ elim (Bool-cases (ltb bufsz (needed done pre post))) [
            | inl over ↦ inr (
                inr (step ∙ rw (longer, room, over) refl, ground arith, ground arith, ground arith))
            | inr fits ↦ inl (step ∙ rw (longer, room, fits) refl, inr (ground arith), ground arith)
          ]
        ]
      ]

  loop-Ended :
      (fuel : ℕ) (buffer done s : List ℕ)
      → 0 < length token
      → length s < fuel
      → length done + length s < bufsz
      → Progress buffer done s
      → (R : Replaced) × (replace_loop bufsz token to fuel done s ≡ some R) × Ended buffer R
  loop-Ended zero buffer done s some_bytes enough held so_far = absurd (omega arith)
  loop-Ended (suc fuel) buffer done s some_bytes enough held so_far =
      elim (strstr-IsFirst token s some_bytes) [
        | inl (gone, nowhere) ↦ (
          Replaced.returned (done ++ s) (pos 0),
          loop-none fuel done s gone,
          Ended.all_replaced so_far nowhere held,
        )
        | inr (pre, post, found, whole, first) ↦
            let is_first : IsFirst token s pre post = record { whole = whole; first = first } in
            let size' = length-append token post in
            let size : length s ≡ length pre + (length token + length post) =
              omega (arith, ap length whole, length-append pre (token ++ post), size') in
            elim (loop-found fuel done s pre post found held size) [
              | inl (step, room, fits) ↦
                  let done_size = length-append done (pre ++ to) in
                  let done_size' = length-append pre to in
                  let (R, run, ended) =
                    loop-Ended fuel buffer (done ++ (pre ++ to)) post some_bytes
                      (omega (arith, size)) (omega (arith, fits, done_size, done_size'))
                      (Progress.one_more pre post so_far is_first room fits) in
                  (R, step ∙ run, ended)
              | inr (inl (failed, longer, full)) ↦ (
                Replaced.returned (done ++ s) minus_one,
                failed,
                Ended.refused pre post so_far is_first longer full,
              )
              | inr (inr (failed, longer, room, over)) ↦ (
                Replaced.out_of_bounds,
                failed,
                Ended.overrun pre post so_far is_first longer room over,
              )
            ]
      ]

  -- For a token that is not empty and a buffer that holds its string, string_replace_in_buffer ends.
  -- It returns 0 with every token replaced, from left to right, and the string still in the buffer;
  -- or it returns -1 with the tokens in front of one replaced, for which its test, of the growth and
  -- what is in front of it, leaves no room; or it writes behind the buffer, at a token that the test
  -- allows and for which the string gets too long. The last two need a `to` that is longer than the
  -- token.
  pub string_replace_in_buffer-Ended :
      (buffer : List ℕ)
      → 0 < length token
      → length buffer < bufsz
      → (R : Replaced) × (string_replace_in_buffer bufsz token to buffer ≡ some R) × Ended buffer R
  unfolding string_replace_in_buffer
  string_replace_in_buffer-Ended buffer some_bytes held =
      loop-Ended (length buffer + 1) buffer [] buffer some_bytes (omega arith) (omega arith)
        Progress.untouched

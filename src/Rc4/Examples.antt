-- ===== src/Rc4/Examples.antt =====
-- The cipher of rc4.c at one key and text.
use imgeditor.Common.{ℕ, ◌≡◌, refl, get_or, List, [], ◌∷◌}
use imgeditor.Rc4.{rc4_encode, fill_loop, mix_loop, stream_loop, swap}
use imgeditor.Rc4.Standard.{keystream}
use imgeditor.Rc4.Encode.{xored, rc4_encode-xored}

abbrev text : List ℕ
text = 1 ∷ 2 ∷ 255 ∷ []

abbrev key : List ℕ
key = 1 ∷ 2 ∷ 3 ∷ 4 ∷ 5 ∷ 6 ∷ 7 ∷ 8 ∷ 9 ∷ 10 ∷ 11 ∷ 12 ∷ 13 ∷ 14 ∷ 15 ∷ 16 ∷ []

rc4_encode-xored_example : rc4_encode text key ≡ xored (keystream (λ x. get_or key x 0)) 0 text
rc4_encode-xored_example = rc4_encode-xored text key refl

-- The first bytes of the stream of this key, as RFC 6229 gives them.
first_bytes : rc4_encode (0 ∷ 0 ∷ 0 ∷ 0 ∷ []) key ≡ 0x9a ∷ 0xc7 ∷ 0xcc ∷ 0x9a ∷ []
unfolding rc4_encode fill_loop mix_loop stream_loop swap
first_bytes = refl

-- ===== src/Rc4/Encode.antt =====
-- `rc4_encode` of rc4.c is the RC4 of its key.
use imgeditor.Common.{ℕ, zero, suc, ◌+◌, ◌%◌, ◌<◌, ◌≡◌, refl, ◌∙◌, ap, ap₂, arith, bit_xor}
use imgeditor.Common.{List, [], ◌∷◌, get_or, replicate, length, length-replicate}
use imgeditor.Rc4.{swap, fill_loop, mix_loop, stream_loop, rc4_encode}
use imgeditor.Rc4.Standard.{
  Holds, Filled, exchange, schedule, stream, keystream, swap-Holds, fill_loop-Filled,
}
use mathlib.Core.Path.{subst}

mix_loop-Holds :
    (key : ℕ → ℕ) (left i j : ℕ) (s k : List ℕ)
    → left + i ≡ 256
    → ((x : ℕ) → x < 256 → get_or k x 0 ≡ key (x % 16))
    → Holds s (schedule key i).0
    → j ≡ (schedule key i).1
    → Holds (mix_loop left i j k s) (schedule key 256).0
unfolding mix_loop
mix_loop-Holds key zero i j s k rounds keyed held index =
    let all : i ≡ 256 = omega arith in subst (λ n. Holds s (schedule key n).0) all held
mix_loop-Holds key (suc left) i j s k rounds keyed held index =
    let j' = (j + get_or s i 0 + get_or k i 0) % 256 in
    let same : j' ≡ (schedule key (suc i)).1 =
      unfold schedule in
      ap₂ (λ a b. (a + b) % 256) (ap₂ ◌+◌ index (held.at i (omega arith)))
        (keyed i (omega arith)) in
    let swapped : Holds (swap s i j') (schedule key (suc i)).0 =
      unfold schedule in
      subst (λ n. Holds (swap s i j') (exchange (schedule key i).0 i n)) same
        (swap-Holds s (schedule key i).0 i j' held (omega arith) (omega arith)) in
    let next : suc i ≡ i + 1 = omega arith in
    mix_loop-Holds key left (i + 1) j' (swap s i j') k (omega arith) keyed
      (subst (λ n. Holds (swap s i j') (schedule key n).0) next swapped)
      (subst (λ n. j' ≡ (schedule key n).1) next same)

-- The bytes from index `n` on, each with the byte of a stream at its index added.
unfoldable pub xored : (ℕ → ℕ) → ℕ → List ℕ → List ℕ
xored k n [] = []
xored k n (byte ∷ rest) = bit_xor byte (k n) ∷ xored k (n + 1) rest

-- The byte that a round takes out of its array.
byte_taken :
    (s : List ℕ) (perm : ℕ → ℕ) (a b a' b' : ℕ)
    → Holds s perm
    → a < 256
    → b < 256
    → a ≡ a'
    → b ≡ b'
    → get_or s ((get_or s a 0 + get_or s b 0 % 256) % 256) 0 ≡ perm ((perm a' + perm b') % 256)
byte_taken s perm a b a' b' held in_a in_b same_a same_b =
    let at_a : get_or s a 0 ≡ perm a' = held.at a in_a ∙ ap perm same_a in
    let at_b : get_or s b 0 ≡ perm b' = held.at b in_b ∙ ap perm same_b in
    let index : (get_or s a 0 + get_or s b 0 % 256) % 256 ≡ (perm a' + perm b') % 256 =
      rw (at_a, at_b) (omega arith) in
    held.at ((get_or s a 0 + get_or s b 0 % 256) % 256) (omega arith) ∙ ap perm index

stream_loop-xored :
    (key : ℕ → ℕ) (n i j : ℕ) (s buf : List ℕ)
    → i ≡ n % 256
    → j ≡ (stream (schedule key 256).0 n).1
    → Holds s (stream (schedule key 256).0 n).0
    → stream_loop i j s buf ≡ xored (keystream key) n buf
unfolding stream_loop xored
stream_loop-xored key n i j s [] place index held = refl
stream_loop-xored key n i j s (byte ∷ rest) place index held =
    let start = (schedule key 256).0 in
    let perm = (stream start n).0 in
    let i' = (i + 1) % 256 in
    let j' = (j + get_or s i' 0) % 256 in
    let s' = swap s i' j' in
    let place' : i' ≡ (n + 1) % 256 = omega (arith, place) in
    let index' : j' ≡ (stream start (suc n)).1 =
      unfold stream in
      ap₂ (λ a b. (a + b) % 256) index (held.at i' (omega arith) ∙ ap perm place') in
    let swapped : Holds s' (stream start (suc n)).0 =
      unfold stream in
      subst (λ m. Holds s' (exchange perm m (stream start (suc n)).1)) place'
        (subst (λ m. Holds s' (exchange perm i' m)) index'
          (swap-Holds s perm i' j' held (omega arith) (omega arith))) in
    let next : suc n ≡ n + 1 = omega arith in
    let held' : Holds s' (stream start (n + 1)).0 =
      subst (λ m. Holds s' (stream start m).0) next swapped in
    let index'' : j' ≡ (stream start (n + 1)).1 =
      subst (λ m. j' ≡ (stream start m).1) next index' in
    let taken : get_or s' ((get_or s' i' 0 + get_or s' j' 0 % 256) % 256) 0 ≡ keystream key n =
      unfold keystream in
      byte_taken s' (stream start (n + 1)).0 i' j' ((n + 1) % 256) (stream start (n + 1)).1 held'
        (omega arith) (omega arith) place' index'' in
    ap₂ (λ b bs. bit_xor byte b ∷ bs) taken
      (stream_loop-xored key (n + 1) i' j' s' rest place' index'' held')

nothing-Filled : (key : List ℕ) → Filled key 0 (replicate 256 0) (replicate 256 0)
nothing-Filled key = record {
  sized = length-replicate {A = ℕ} 256 0;
  sized_key = length-replicate {A = ℕ} 256 0;
  at = λ x below. absurd (omega arith);
  key_at = λ x below. absurd (omega arith);
}

-- rc4_encode adds to the byte of the buffer at each index the byte at that index of the RC4 stream of
-- the sixteen bytes of the key, and changes nothing else.
pub rc4_encode-xored :
    (buf key : List ℕ)
    → length key ≡ 16
    → rc4_encode buf key ≡ xored (keystream (λ x. get_or key x 0)) 0 buf
unfolding rc4_encode
rc4_encode-xored buf key sixteen =
    let key' : ℕ → ℕ = λ x. get_or key x 0 in
    let filled : Filled key 256 (fill_loop 256 0 0 key (replicate 256 0) (replicate 256 0)).0
        (fill_loop 256 0 0 key (replicate 256 0) (replicate 256 0)).1 =
      fill_loop-Filled 256 0 0 key _ _ (omega arith) refl (nothing-Filled key) in
    let started : Holds (fill_loop 256 0 0 key (replicate 256 0) (replicate 256 0)).0
        (schedule key' 0).0 =
      unfold schedule in record { sized = filled.sized; at = filled.at } in
    let mixed =
      mix_loop-Holds key' 256 0 0 _ _ (omega arith) filled.key_at started
        (unfold schedule in refl) in
    stream_loop-xored key' 0 0 0 _ buf refl (unfold stream in refl) (unfold stream in mixed)

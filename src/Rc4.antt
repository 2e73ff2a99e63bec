-- ===== src/Rc4.antt =====
-- rc4.c: the stream cipher. `s` and `k` are the two arrays of 256 bytes; `i` and `j` stay below 256,
-- so they fit `unsigned short`, and no index leaves an array.
pub mod Standard
pub mod Encode
mod Examples
use imgeditor.Common.{
  ℕ, zero, suc, ◌+◌, ◌%◌, ◌^◌, bit_and, bit_xor, List, [], ◌∷◌, get_or, set, replicate,
}

-- `temp = s[i]; s[i] = s[j]; s[j] = temp`
unfoldable pub swap : List ℕ → ℕ → ℕ → List ℕ
swap s i j = set (set s i (get_or s j 0)) j (get_or s i 0)

-- The first loop fills both arrays, from index `i` and key index `j`.
unfoldable pub fill_loop : ℕ → ℕ → ℕ → List ℕ → List ℕ → List ℕ → List ℕ × List ℕ
fill_loop zero i j key s k = (s, k)
fill_loop (suc left) i j key s k =
    let j' = bit_and j 0x0f in
    fill_loop left (i + 1) (j' + 1) key (set s i (i % 2 ^ 8)) (set k i (get_or key j' 0))

-- The second loop mixes the key in.
unfoldable pub mix_loop : ℕ → ℕ → ℕ → List ℕ → List ℕ → List ℕ
mix_loop zero i j k s = s
mix_loop (suc left) i j k s =
    let j' = (j + get_or s i 0 + get_or k i 0) % 256 in mix_loop left (i + 1) j' k (swap s i j')

-- The third loop, over the bytes of the buffer.
unfoldable pub stream_loop : ℕ → ℕ → List ℕ → List ℕ → List ℕ
stream_loop i j s [] = []
stream_loop i j s (byte ∷ rest) =
    let i' = (i + 1) % 256 in
    let j' = (j + get_or s i' 0) % 256 in
    let s' = swap s i' j' in
    let t = (get_or s' i' 0 + get_or s' j' 0 % 256) % 256 in
    bit_xor byte (get_or s' t 0) ∷ stream_loop i' j' s' rest

unfoldable pub rc4_encode : List ℕ → List ℕ → List ℕ
rc4_encode buf key =
    let (s, k) = fill_loop 256 0 0 key (replicate 256 0) (replicate 256 0) in
    stream_loop 0 0 (mix_loop 256 0 0 k s) buf

-- ===== src/Rc4/Standard.antt =====
-- RC4 as it is defined on permutations, and the arrays of rc4.c that hold one.
use imgeditor.Common.{ℕ, zero, suc, ◌+◌, ◌%◌, ◌^◌, ◌<◌, ◌≡◌, refl, ◌∙◌, ap, sym, arith, bit_and}
use imgeditor.Common.{List, get_or, set, length, length-set}
use imgeditor.Common.{
  get_or-set_self, get_or-set_ne, ==_iff, Bool-cases, false, ◌≢◌, ◌/◌, bit_and_step, bit_and-zero,
  ◌==◌, if◌then◌else◌, inl, inr, eq-or-ne,
}
use mathlib.Core.Path.{subst}
use imgeditor.Rc4.{swap, fill_loop}

-- A permutation with the values at two places exchanged.
unfoldable pub exchange : (ℕ → ℕ) → ℕ → ℕ → ℕ → ℕ
exchange perm a b x = if x == a then perm b else if x == b then perm a else perm x

-- The permutation and the index `j` after `n` rounds of the key schedule, from the identity.
unfoldable pub schedule : (ℕ → ℕ) → ℕ → (ℕ → ℕ) × ℕ
schedule key zero = (λ x. x, 0)
schedule key (suc n) =
    let (perm, j) = schedule key n in
    let j' = (j + perm n + key (n % 16)) % 256 in (exchange perm n j', j')

-- The permutation and the index `j` after `n` bytes of the stream.
unfoldable pub stream : (ℕ → ℕ) → ℕ → (ℕ → ℕ) × ℕ
stream start zero = (start, 0)
stream start (suc n) =
    let (perm, j) = stream start n in
    let j' = (j + perm ((n + 1) % 256)) % 256 in (exchange perm ((n + 1) % 256) j', j')

-- The byte of the stream at index `n`.
unfoldable pub keystream : (ℕ → ℕ) → ℕ → ℕ
keystream key n =
    let (perm, j) = stream (schedule key 256).0 (n + 1) in
    perm ((perm ((n + 1) % 256) + perm j) % 256)

-- An array of 256 elements that holds a permutation.
pub record Holds (s : List ℕ) (perm : ℕ → ℕ) : Type 0 where
  pub sized : length s ≡ 256
  pub at : (x : ℕ) → x < 256 → get_or s x 0 ≡ perm x

exchange_first : (perm : ℕ → ℕ) (a b : ℕ) → exchange perm a b a ≡ perm b
unfolding exchange
exchange_first perm a b = rw ((==_iff a a).1 refl) refl

exchange_second : (perm : ℕ → ℕ) (a b : ℕ) → exchange perm a b b ≡ perm a
unfolding exchange
exchange_second perm a b = elim (Bool-cases (b == a)) [
  | inl same ↦ rw same (ap perm ((==_iff b a).0 same))
  | inr other ↦ rw (other, (==_iff b b).1 refl) refl
]

exchange_other : (perm : ℕ → ℕ) (a b x : ℕ) → x ≢ a → x ≢ b → exchange perm a b x ≡ perm x
unfolding exchange
exchange_other perm a b x not_a not_b =
    let at_a : (x == a) ≡ false = grind (arith, ==_iff x a, not_a) in
    let at_b : (x == b) ≡ false = grind (arith, ==_iff x b, not_b) in rw (at_a, at_b) refl

module _ (s : List ℕ) (a b : ℕ) where
  swap_second : b < length s → get_or (swap s a b) b 0 ≡ get_or s a 0
  unfolding swap
  swap_second lt =
      get_or-set_self (set s a (get_or s b 0)) b (get_or s a 0) 0
        (omega (arith, length-set s a (get_or s b 0)))

  swap_first : a < length s → b < length s → get_or (swap s a b) a 0 ≡ get_or s b 0
  unfolding swap
  swap_first in_a in_b = elim (eq-or-ne b a) [
    | inl same ↦ rw same (
        get_or-set_self (set s a (get_or s a 0)) a (get_or s a 0) 0
          (omega (arith, length-set s a (get_or s a 0))))
    | inr other ↦
        get_or-set_ne (set s a (get_or s b 0)) b a (get_or s a 0) 0 (λ e. omega (arith, e))
        ∙ get_or-set_self s a (get_or s b 0) 0 in_a
  ]

  swap_other : (x : ℕ) → x ≢ a → x ≢ b → get_or (swap s a b) x 0 ≡ get_or s x 0
  unfolding swap
  swap_other x not_a not_b =
      get_or-set_ne (set s a (get_or s b 0)) b x (get_or s a 0) 0 (λ e. not_b (sym e))
      ∙ get_or-set_ne s a x (get_or s b 0) 0 (λ e. not_a (sym e))

  length-swap : length (swap s a b) ≡ length s
  unfolding swap
  length-swap = length-set (set s a (get_or s b 0)) b (get_or s a 0) ∙ length-set s a (get_or s b 0)

pub swap-Holds :
    (s : List ℕ) (perm : ℕ → ℕ) (a b : ℕ)
    → Holds s perm
    → a < 256
    → b < 256
    → Holds (swap s a b) (exchange perm a b)
swap-Holds s perm a b held in_a in_b = record {
  sized = length-swap s a b ∙ held.sized;
  at = λ x lt. elim (eq-or-ne x b) [
    | inl at_b ↦ rw at_b (
        swap_second s a b (omega (arith, held.sized))
        ∙ held.at a in_a
        ∙ sym (exchange_second perm a b))
    | inr not_b ↦ elim (eq-or-ne x a) [
      | inl at_a ↦ rw at_a (
          swap_first s a b (omega (arith, held.sized)) (omega (arith, held.sized))
          ∙ held.at b in_b
          ∙ sym (exchange_first perm a b))
      | inr not_a ↦
          let other_a : x ≢ a = λ e. omega (arith, e) in
          let other_b : x ≢ b = λ e. omega (arith, e) in
          swap_other s a b x other_a other_b
          ∙ held.at x lt
          ∙ sym (exchange_other perm a b x other_a other_b)
    ]
  ];
}

-- The arrays after `i` rounds of the filling loop.
pub record Filled (key : List ℕ) (i : ℕ) (s k : List ℕ) : Type 0 where
  pub sized : length s ≡ 256
  pub sized_key : length k ≡ 256
  pub at : (x : ℕ) → x < i → get_or s x 0 ≡ x
  pub key_at : (x : ℕ) → x < i → get_or k x 0 ≡ get_or key (x % 16) 0

Filled-next :
    (key : List ℕ) (i : ℕ) (s k : List ℕ)
    → Filled key i s k
    → i < 256
    → Filled key (i + 1) (set s i (i % 2 ^ 8)) (set k i (get_or key (i % 16) 0))
Filled-next key i s k f lt = record {
  sized = length-set s i (i % 2 ^ 8) ∙ f.sized;
  sized_key = length-set k i (get_or key (i % 16) 0) ∙ f.sized_key;
  at = λ x below. elim (eq-or-ne x i) [
    | inl now ↦ rw now (get_or-set_self s i (i % 2 ^ 8) 0 (omega (arith, f.sized)) ∙ omega arith)
    | inr before ↦ get_or-set_ne s i x (i % 2 ^ 8) 0 (λ e. omega (arith, e)) ∙ f.at x (omega arith)
  ];
  key_at = λ x below. elim (eq-or-ne x i) [
    | inl now ↦ rw now (get_or-set_self k i (get_or key (i % 16) 0) 0 (omega (arith, f.sized_key)))
    | inr before ↦
        get_or-set_ne k i x (get_or key (i % 16) 0) 0 (λ e. omega (arith, e))
        ∙ f.key_at x (omega arith)
  ];
}

low_four : (n : ℕ) → bit_and n 0x0f ≡ n % 16
low_four n = omega (
  arith,
  bit_and_step n 15,
  bit_and_step (n / 2) 7,
  bit_and_step (n / 2 / 2) 3,
  bit_and_step (n / 2 / 2 / 2) 1,
  bit_and-zero (n / 2 / 2 / 2 / 2),
)

pub fill_loop-Filled :
    (left i j : ℕ) (key s k : List ℕ)
    → left + i ≡ 256
    → j % 16 ≡ i % 16
    → Filled key i s k
    → Filled key 256 (fill_loop left i j key s k).0 (fill_loop left i j key s k).1
unfolding fill_loop
fill_loop-Filled zero i j key s k rounds index f =
    let all : i ≡ 256 = omega arith in subst (λ n. Filled key n s k) all f
fill_loop-Filled (suc left) i j key s k rounds index f =
    let j' : bit_and j 0x0f ≡ i % 16 = low_four j ∙ index in
    let next : (bit_and j 0x0f + 1) % 16 ≡ (i + 1) % 16 = omega (arith, j') in
    fill_loop-Filled left (i + 1) (bit_and j 0x0f + 1) key _ _ (omega arith) next (
      subst (λ m. Filled key (i + 1) (set s i (i % 2 ^ 8)) (set k i (get_or key m 0))) (sym j')
        (Filled-next key i s k f (omega arith)))

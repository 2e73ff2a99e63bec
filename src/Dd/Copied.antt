-- ===== src/Dd/Copied.antt =====
-- The copy of dd.c is complete when the source has the bytes and the target takes them.
use imgeditor.Common.{
  ℕ, zero, suc, ◌+◌, ◌-◌, ◌^◌, ◌≤◌, ◌<◌, ◌≡◌, refl, ◌∙◌, ap, ap₂, sym, arith, inl, inr, ◌⊎◌,
}
use imgeditor.Common.{true, false, Option, none, some, ==_iff, ltb, ◌==◌, if◌then◌else◌}
use imgeditor.Common.{List, [], ◌∷◌, ◌++◌, length, take, drop, length-append}
use imgeditor.Dd.{
  Source, Target, Writes, Copy, Round, dd_max_bufsz, fetch, bufscan, counted, wrote, after_write,
  put, scanned, after_read, dd_round, dd_loop, dd64,
}
use imgeditor.Dd.Segment.{segment, length-segment, segment-add, segment-zeros}
use mathlib.Core.List.{append_assoc, append-nil}

pub take-append : (xs ys : List ℕ) (n : ℕ) → length xs ≡ n → take n (xs ++ ys) ≡ xs
take-append [] ys zero e = refl
take-append [] ys (suc n) e = absurd (omega arith)
take-append (x ∷ xs) ys zero e = absurd (omega arith)
take-append (x ∷ xs) ys (suc n) e = ap (λ r. x ∷ r) (take-append xs ys n (omega arith))

abbrev pub concat : List (List ℕ) → List ℕ
concat [] = []
concat (p ∷ ps) = p ++ concat ps

-- Consecutive writes from a position on.
abbrev pub placed : ℕ → List (List ℕ) → Writes
placed off [] = []
placed off (p ∷ ps) = (off, p) ∷ placed (off + length p) ps

-- The source has the bytes `content` below `limit`.
abbrev pub Supplies : Option Source → (ℕ → ℕ) → ℕ → Type 0
Supplies src content limit =
    (at n : ℕ) → 0 < n → at + n ≤ limit → fetch src at n ≡ some (segment content at n)

-- The target takes every write whole.
abbrev pub Accepts : Option Target → Type 0
Accepts none = Unit
Accepts (some write) = (at : ℕ) (bs : List ℕ) → write at bs ≡ some (length bs)

-- The writes of a copy: none without a target.
abbrev pub placed_to : Option Target → ℕ → List (List ℕ) → Writes
placed_to none off ps = []
placed_to (some write) off ps = placed off ps

module _ {S : Type 0} (scan : Option (List ℕ → S → List ℕ × S)) where
  -- The scanner over the pieces, in turn.
  abbrev pub scan_all : List (List ℕ) → S → List (List ℕ) × S
  scan_all [] s = ([], s)
  scan_all (p ∷ ps) s = (
    (bufscan scan p s).0 ∷ (scan_all ps (bufscan scan p s).1).0,
    (scan_all ps (bufscan scan p s).1).1,
  )

  -- `c'` is `c` after the pieces.
  pub record Copied (dst : Option Target) (c : Copy S) (pieces : List (List ℕ)) (c' : Copy S)
      : Type 0 where
    pub copied : c'.copied ≡ c.copied + length (concat pieces)
    pub state : c'.state ≡ (scan_all pieces c.state).1
    pub writes : c'.writes ≡ c.writes ++ placed_to dst c.dst_pos (scan_all pieces c.state).0

  -- One round, with the piece that it copies.
  record Stepped (dst : Option Target) (c : Copy S) (piece : List ℕ) (c' : Copy S) : Type 0 where
    sz : c'.sz ≡ c.sz - length piece
    src_pos : c'.src_pos ≡ c.src_pos + length piece
    copied : c'.copied ≡ c.copied + length piece
    state : c'.state ≡ (bufscan scan piece c.state).1
    writes : c'.writes ≡ c.writes ++ placed_to dst c.dst_pos ((bufscan scan piece c.state).0 ∷ [])
    next_at :
        (qs : List (List ℕ))
        → placed_to dst c'.dst_pos qs
          ≡ placed_to dst (c.dst_pos + length (bufscan scan piece c.state).0) qs

  module _ (in_place : (b : List ℕ) (s : S) → length (bufscan scan b s).0 ≡ length b) where
    after_write-whole :
        (lensrc : ℕ) (out : List ℕ) (c : Copy S)
        → length out ≡ lensrc
        → after_write scan lensrc out c (some (length out))
          ≡ Round.go_on (wrote scan (length out) out c lensrc)
    unfolding after_write
    after_write-whole lensrc out c e =
        let same : (length out == lensrc) ≡ true = (==_iff (length out) lensrc).1 e in rw same refl

    put-whole :
        (write : Target) (lensrc : ℕ) (out rest : List ℕ) (c : Copy S)
        → Accepts (some write)
        → length out ≡ lensrc
        → c.buffer ≡ out ++ rest
        → put scan (some write) lensrc c ≡ Round.go_on (wrote scan (length out) out c lensrc)
    unfolding put
    put-whole write lensrc out rest c accepts e held =
        let shown = ap (take lensrc) held ∙ take-append out rest lensrc e in
        ap (λ o. after_write scan lensrc o c (write c.dst_pos o)) shown
        ∙ ap (after_write scan lensrc out c) (accepts c.dst_pos out)
        ∙ after_write-whole lensrc out c e

    -- What a round makes of the variables.
    after_round : Option Target → ℕ → List ℕ → Copy S → Copy S
    after_round none n piece c = counted scan n (scanned scan n c piece)
    after_round (some write) n piece c =
        wrote scan (length (bufscan scan piece c.state).0) (bufscan scan piece c.state).0
          (scanned scan n c piece) n

    scanned-buffer :
        (n : ℕ) (c : Copy S) (piece : List ℕ)
        → length piece ≡ n
        → (scanned scan n c piece).buffer
          ≡ (bufscan scan piece c.state).0 ++ drop n (piece ++ drop (length piece) c.buffer)
    unfolding scanned
    scanned-buffer n c piece e =
        ap (λ b. (bufscan scan b c.state).0 ++ drop n (piece ++ drop (length piece) c.buffer))
          (take-append piece (drop (length piece) c.buffer) n e)

    round-whole :
        (dst : Option Target) (n : ℕ) (piece : List ℕ) (c : Copy S)
        → Accepts dst
        → length piece ≡ n
        → put scan dst n (scanned scan n c piece) ≡ Round.go_on (after_round dst n piece c)
    unfolding after_round put
    round-whole none n piece c accepts e = refl
    round-whole (some write) n piece c accepts e =
        put-whole write n (bufscan scan piece c.state).0
          (drop n (piece ++ drop (length piece) c.buffer)) (scanned scan n c piece) accepts
          (in_place piece c.state ∙ e) (scanned-buffer n c piece e)

    after_round-Stepped :
        (dst : Option Target) (n : ℕ) (piece : List ℕ) (c : Copy S)
        → length piece ≡ n
        → n ≤ c.sz
        → c.sz < 2 ^ 64
        → Stepped dst c piece (after_round dst n piece c)
    unfolding after_round counted wrote scanned
    after_round-Stepped none n piece c e fits word = record {
      sz = omega arith;
      src_pos = refl;
      copied = omega arith;
      state =
          ap (λ b. (bufscan scan b c.state).1)
            (take-append piece (drop (length piece) c.buffer) n e);
      writes = sym (append-nil c.writes);
      next_at = λ qs. refl;
    }
    after_round-Stepped (some write) n piece c e fits word = record {
      sz = omega arith;
      src_pos = refl;
      copied = omega arith;
      state =
          ap (λ b. (bufscan scan b c.state).1)
            (take-append piece (drop (length piece) c.buffer) n e);
      writes = refl;
      next_at = λ qs. refl;
    }

    buster : ℕ → ℕ
    buster sz = if ltb sz dd_max_bufsz then sz else dd_max_bufsz

    buster_bounds : (sz : ℕ) → 0 < sz → (0 < buster sz) × (buster sz ≤ sz)
    unfolding buster
    buster_bounds sz h = ground arith

    module _ (src : Option Source) (dst : Option Target) (content : ℕ → ℕ) (limit : ℕ)
        (supplies : Supplies src content limit) (accepts : Accepts dst) where
      round-Stepped :
          (c : Copy S)
          → 0 < c.sz
          → c.sz < 2 ^ 64
          → c.src_pos + c.sz ≤ limit
          → (c' : Copy S) × (dd_round scan src dst c ≡ Round.go_on c')
            × Stepped dst c (segment content c.src_pos (buster c.sz)) c'
      unfolding dd_round buster after_read
      round-Stepped c more word room =
          let n = buster c.sz in
          let (n_pos, n_fits) = buster_bounds c.sz more in
          let piece = segment content c.src_pos n in
          let sized = length-segment content c.src_pos n in
          (
            after_round dst n piece c,
            ap (after_read scan dst n c) (supplies c.src_pos n n_pos (omega arith))
                ∙ ap (λ m. put scan dst m (scanned scan n c piece)) sized
                ∙ round-whole dst n piece c accepts sized,
            after_round-Stepped dst n piece c sized n_fits word,
          )

      eq-or-lt : (n : ℕ) → (n ≡ 0) ⊎ (0 < n)
      eq-or-lt n = ground arith

      nothing_placed :
          (d : Option Target) (c : Copy S) → c.writes ++ placed_to d c.dst_pos [] ≡ c.writes
      nothing_placed none c = append-nil c.writes
      nothing_placed (some write) c = append-nil c.writes

      loop-stop :
          (fuel : ℕ) (c : Copy S) → (c.sz == 0) ≡ true → dd_loop scan (suc fuel) src dst c ≡ some c
      unfolding dd_loop
      loop-stop fuel c e = rw (dd_loop, e) refl

      loop-round :
          (fuel : ℕ) (c c' : Copy S)
          → (c.sz == 0) ≡ false
          → dd_round scan src dst c ≡ Round.go_on c'
          → dd_loop scan (suc fuel) src dst c ≡ dd_loop scan fuel src dst c'
      unfolding dd_loop
      loop-round fuel c c' e call = rw (dd_loop, e, call) refl

      Copied-cons :
          (c c1 c2 : Copy S) (p : List ℕ) (ps : List (List ℕ))
          → Stepped dst c p c1
          → Copied dst c1 ps c2
          → Copied dst c (p ∷ ps) c2
      Copied-cons c c1 c2 p ps one more = record {
        copied = omega (arith, one.copied, more.copied, length-append p (concat ps));
        state = more.state ∙ ap (λ s. (scan_all ps s).1) one.state;
        writes =
            more.writes
            ∙ ap₂ (λ ws qs. ws ++ qs) one.writes
                (one.next_at (scan_all ps c1.state).0
                  ∙ ap
                      (λ s.
                        placed_to dst (c.dst_pos + length (bufscan scan p c.state).0)
                          (scan_all ps s).0)
                      one.state)
            ∙ append_assoc c.writes _ _
            ∙ ap (λ r. c.writes ++ r) (joined dst);
      }
        where
          joined :
              (d : Option Target)
              → placed_to d c.dst_pos ((bufscan scan p c.state).0 ∷ [])
                  ++ placed_to d
                      (c.dst_pos + length (bufscan scan p c.state).0)
                      (scan_all ps (bufscan scan p c.state).1).0
                ≡ placed_to d c.dst_pos (scan_all (p ∷ ps) c.state).0
          joined none = refl
          joined (some write) = refl

      pub loop-Copied :
          (fuel : ℕ) (c : Copy S)
          → c.sz < fuel
          → c.sz < 2 ^ 64
          → c.src_pos + c.sz ≤ limit
          → (c' : Copy S) × (pieces : List (List ℕ)) × (dd_loop scan fuel src dst c ≡ some c')
            × (concat pieces ≡ segment content c.src_pos c.sz)
            × Copied dst c pieces c'
      loop-Copied zero c enough word room = absurd (omega arith)
      loop-Copied (suc fuel) c enough word room = elim (eq-or-lt c.sz) [
        | inl none_left ↦ (
          c,
          [],
          loop-stop fuel c (rw none_left refl),
          rw none_left refl,
          record { copied = omega arith; state = refl; writes = sym (nothing_placed dst c) },
        )
        | inr more ↦
            let n = buster c.sz in
            let (n_pos, n_fits) = buster_bounds c.sz more in
            let piece = segment content c.src_pos n in
            let sized = length-segment content c.src_pos n in
            let (c1, call, one) = round-Stepped c more word room in
            let (c2, ps, rest, whole, copied) =
              loop-Copied fuel c1 (omega (arith, one.sz)) (omega (arith, one.sz))
                (omega (arith, one.sz, one.src_pos)) in
            (
              c2,
              piece ∷ ps,
              loop-round fuel c c1 (ground arith) call ∙ rest,
              ap (λ r. piece ++ r)
                    (whole
                      ∙ ap₂ (segment content) (one.src_pos ∙ ap (λ k. c.src_pos + k) sized) one.sz)
                  ∙ sym (segment-add content c.src_pos n (c.sz - length piece))
                  ∙ ap (segment content c.src_pos) (omega arith),
              Copied-cons c c1 c2 piece ps one copied,
            )
      ]

-- At least one of the descriptors is open.
abbrev pub Opened : Option Source → Option Target → Type 0
Opened none none = ⊥
Opened none (some write) = Unit
Opened (some read) dst = Unit

module _ {S : Type 0} (scan : Option (List ℕ → S → List ℕ × S))
    (in_place : (b : List ℕ) (s : S) → length (bufscan scan b s).0 ≡ length b) where
  -- With memory, at least one open descriptor and a count below 2^64, when every read of the source
  -- gives all the bytes it is asked for, the target (if there is one) takes every write whole, and the
  -- scanner keeps the length of what it is shown, dd64 returns the whole count. It shows the scanner
  -- the bytes of the source, which are zeros if there is none, in consecutive pieces, and writes what
  -- the scanner makes of them at consecutive positions.
  pub dd64-Copied :
      (src : Option Source) (dst : Option Target) (content : ℕ → ℕ) (buffer : List ℕ)
      (offt_src offt_dst sz : ℕ) (s : S)
      → Opened src dst
      → Supplies src content (offt_src + sz)
      → Accepts dst
      → sz < 2 ^ 64
      → (c : Copy S) × (pieces : List (List ℕ)) × (dd64 scan
            (some buffer)
            src
            dst
            offt_src
            offt_dst
            sz
            s
          ≡ some c)
        × (concat pieces ≡ segment content offt_src sz)
        × (c.copied ≡ sz)
        × (c.state ≡ (scan_all scan pieces s).1)
        × (c.writes ≡ placed_to dst offt_dst (scan_all scan pieces s).0)
  unfolding dd64
  dd64-Copied src dst content buffer offt_src offt_dst sz s opened supplies accepts word =
      let start : Copy S = record {
        sz = sz;
        copied = 0;
        src_pos = offt_src;
        dst_pos = offt_dst;
        buffer = buffer;
        writes = [];
        state = s;
      } in
      let (c, ps, run, whole, copied) =
        loop-Copied scan in_place src dst content (offt_src + sz) supplies accepts (sz + 1) start
          (omega arith) word (omega arith) in
      let size = ap length whole ∙ length-segment content offt_src sz in
      (
        c,
        ps,
        starts src dst opened ∙ run,
        whole,
        omega (arith, copied.copied, size),
        copied.state,
        copied.writes,
      )
    where
      starts :
          (src : Option Source) (dst : Option Target)
          → Opened src dst
          → dd64 scan (some buffer) src dst offt_src offt_dst sz s
            ≡ dd_loop scan (sz + 1) src dst (record {
              sz = sz;
              copied = 0;
              src_pos = offt_src;
              dst_pos = offt_dst;
              buffer = buffer;
              writes = [];
              state = s;
            })
      starts none none h = absurd h
      starts none (some write) h = refl
      starts (some read) dst h = refl

-- Without a scanner the pieces are written as they are read.
pub scan_all-none :
    {S : Type 0} (pieces : List (List ℕ)) (s : S) → (scan_all none pieces s).0 ≡ pieces
unfolding bufscan
scan_all-none [] s = refl
scan_all-none (p ∷ ps) s = ap (λ r. p ∷ r) (scan_all-none ps s)

pub bufscan-none : {S : Type 0} (b : List ℕ) (s : S) → length (bufscan none b s).0 ≡ length b
unfolding bufscan
bufscan-none b s = refl

-- The source of zeros, and a file that is read whole.
pub Supplies-zeros : (limit : ℕ) → Supplies none (λ i. 0) limit
unfolding fetch
Supplies-zeros limit at n more room = ap some (sym (segment-zeros at n))

pub Supplies-file :
    (read : Source) (content : ℕ → ℕ) (limit : ℕ)
    → ((at n : ℕ) → at + n ≤ limit → read at n ≡ some (segment content at n))
    → Supplies (some read) content limit
unfolding fetch
Supplies-file read content limit reads at zero more room = absurd (omega arith)
Supplies-file read content limit reads at (suc n) more room = rw (reads at (suc n) room) refl

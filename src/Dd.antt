-- ===== src/Dd.antt =====
-- dd.c: the copy of a stretch of a file through a buffer of 1 MiB.
-- A source descriptor is its `read` at a position: `none` for an error, the empty list for the end
-- of the file. A target descriptor is the count that its `write` returns, `none` for an error. A
-- negative descriptor is `none`. Positions count from the start of the file, as `fileseek` does; the
-- result has the writes that were made, in order. `bufscan` may change the buffer.
pub mod Segment
pub mod Copied
pub mod Overlay
mod Examples
use imgeditor.Common.{ℕ, zero, suc, ◌+◌, ◌-◌, ◌*◌, ◌%◌, ◌^◌, Bool, true, false, Option, none, some}
use imgeditor.Common.{
  List, [], ◌∷◌, ◌++◌, length, take, drop, replicate, ltb, leb, ◌==◌, if◌then◌else◌,
}

abbrev pub Source : Type 0
Source = ℕ → ℕ → Option (List ℕ)

abbrev pub Target : Type 0
Target = ℕ → List ℕ → Option ℕ

abbrev pub Writes : Type 0
Writes = List (ℕ × List ℕ)

abbrev pub dd_max_bufsz : ℕ
dd_max_bufsz = 1 * 2 ^ 20

-- The variables of `dd64`, with the positions of the two descriptors and the scanner's data.
pub record Copy (S : Type 0) : Type 0 where
  pub sz : ℕ
  pub copied : ℕ
  pub src_pos : ℕ
  pub dst_pos : ℕ
  pub buffer : List ℕ
  pub writes : Writes
  pub state : S

-- One round of the loop goes on or breaks out of it.
pub data Round (S : Type 0) : Type 0 where
  go_on : Copy S → Round S
  break_out : Copy S → Round S

-- What is read: zeros, or bytes of the source; `none` for the end of the file and for an error.
unfoldable pub fetch : Option Source → ℕ → ℕ → Option (List ℕ)
fetch none at n = some (replicate n 0)
fetch (some read) at n = elim (read at n) [
  | none ↦ none
  | some [] ↦ none
  | some (x ∷ xs) ↦ some (x ∷ xs)
]

module _ {S : Type 0} (scan : Option (List ℕ → S → List ℕ × S)) where
  unfoldable pub bufscan : List ℕ → S → List ℕ × S
  bufscan buf s = elim scan [ none ↦ (buf, s) | some f ↦ f buf s ]

  unfoldable pub counted : ℕ → Copy S → Copy S
  counted lensrc c = record c { copied = c.copied + lensrc; sz = (c.sz + 2 ^ 64 - lensrc) % 2 ^ 64 }

  unfoldable pub wrote : ℕ → List ℕ → Copy S → ℕ → Copy S
  wrote n out c lensrc = record (counted lensrc c) {
    dst_pos = c.dst_pos + n;
    writes = c.writes ++ (c.dst_pos, out) ∷ [];
  }

  -- What follows the write of `lensrc` bytes, by what it returns.
  unfoldable pub after_write : ℕ → List ℕ → Copy S → Option ℕ → Round S
  after_write lensrc out c none = Round.break_out c
  after_write lensrc out c (some n) =
      if n == lensrc
      then Round.go_on (wrote n out c lensrc)
      else Round.break_out
          (record c { dst_pos = c.dst_pos + n; writes = c.writes ++ (c.dst_pos, take n out) ∷ [] })

  unfoldable pub put : Option Target → ℕ → Copy S → Round S
  put none lensrc c = Round.go_on (counted lensrc c)
  put (some write) lensrc c =
      let out = take lensrc c.buffer in after_write lensrc out c (write c.dst_pos out)

  -- The buffer after a read of `bytes`, of which the scanner is shown `sz_buster`.
  unfoldable pub scanned : ℕ → Copy S → List ℕ → Copy S
  scanned sz_buster c bytes =
      let buffer = bytes ++ drop (length bytes) c.buffer in
      let (shown, s) = bufscan (take sz_buster buffer) c.state in
      record c {
        src_pos = c.src_pos + length bytes;
        buffer = shown ++ drop sz_buster buffer;
        state = s;
      }

  unfoldable pub after_read : Option Target → ℕ → Copy S → Option (List ℕ) → Round S
  after_read dst sz_buster c none = Round.break_out c
  after_read dst sz_buster c (some bytes) = put dst (length bytes) (scanned sz_buster c bytes)

  unfoldable pub dd_round : Option Source → Option Target → Copy S → Round S
  dd_round src dst c =
      let sz_buster = if ltb c.sz dd_max_bufsz then c.sz else dd_max_bufsz in
      after_read dst sz_buster c (fetch src c.src_pos sz_buster)

  -- A round reads at least a byte, so one round more than there are bytes is enough.
  unfoldable pub dd_loop : ℕ → Option Source → Option Target → Copy S → Option (Copy S)
  dd_loop zero src dst c = none
  dd_loop (suc fuel) src dst c = elim (c.sz == 0) [
    | true ↦ some c
    | false ↦ elim (dd_round src dst c) [
      | Round.break_out c' ↦ some c'
      | Round.go_on c' ↦ dd_loop fuel src dst c'
    ]
  ]

  -- `buffer` is what `malloc` gives, `none` for NULL.
  unfoldable pub dd64 :
      Option (List ℕ) → Option Source → Option Target → ℕ → ℕ → ℕ → S → Option (Copy S)
  dd64 buffer src dst offt_src offt_dst sz s =
      let start = λ (b : List ℕ).
        let c : Copy S = record {
          sz = sz;
          copied = 0;
          src_pos = offt_src;
          dst_pos = offt_dst;
          buffer = b;
          writes = [];
          state = s;
        } in
        c in
      elim buffer [
        | none ↦ some (start [])
        | some b ↦ elim src [
          | some read ↦ dd_loop (sz + 1) (some read) dst (start b)
          | none ↦ elim dst [
            | none ↦ some (start b)
            | some write ↦ dd_loop (sz + 1) none (some write) (start b)
          ]
        ]
      ]

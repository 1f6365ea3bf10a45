-- ===== src/Stream/Cursor/Lines/Whole.antt =====
-- That `ReadLine` of stream/cursor.go reads the line that the bytes hold, however parts divide them.
use edge_observer.Prelude.{
  ◌⊎◌, ℕ, zero, suc, ◌+◌, ◌-◌, ◌≤◌, ◌<◌, ◌≡◌, ◌≢◌, refl, sym, ap, ◌∙◌, Bool, true, false, not, List,
  [], ◌∷◌, Option, none, some, ◌==◌, leb, if◌then◌else◌, add64, sub64, length, length-append, arith,
  Bool-cases, inl, inr,
}
use edge_observer.Http1.Parser.Scan.Reference.{LineRead, ended, too_long, open_, read_bytes}
use edge_observer.Stream.Parts.{Part, gap_none}
use edge_observer.Stream.Carried.{Covers-le}
use edge_observer.Stream.{Stream}
use edge_observer.Stream.Cursor.Standing.{Stands, Found, part-some, moved-Stands}
use edge_observer.Stream.Cursor.Peeks.{unbroken-none, Found-unbroken, past-unbroken}
use edge_observer.Stream.Cursor.{Cursor, Fault, short, gap, at_end, remaining}
use edge_observer.Stream.Cursor.Lines.{
  LineOutcome, line_bytes, line_failed, line_too_long, chunk, line_loop, read_line,
}
use edge_observer.Stream.Cursor.Lines.Chunks.{
  piece, fault_at, line_at, behind_chunk, read_bytes-used, length-chunk, piece-chunk, then_chunk,
  chunk_small,
}

-- What a cursor and the outcome of its line are to be.
Reads : ℕ → Cursor → List ℕ → Bool → Cursor × LineOutcome → Type 0
Reads max c line cr r =
    (r.0.pos, r.1)
    ≡ line_at c.stream.end_ (c.pos + length (piece c)) (read_bytes max line cr c.pos (piece c))

-- One round, with `r` what the bytes of the part found make of the line.
round-Reads :
    (max : ℕ) (c : Cursor) (f : Found c) (line : List ℕ) (cr : Bool)
    (next : Cursor → List ℕ → Bool → Cursor × LineOutcome) (r : LineRead)
    → Stands c
    → f.here.gap ≡ gap_none
    → ((l : List ℕ) (cr' : Bool)
        → Reads max (behind_chunk c f) l cr' (next (behind_chunk c f) l cr'))
    → read_bytes max line cr 0 (chunk c f.here) ≡ r
    → Reads max c line cr (elim r as (λ _. Cursor × LineOutcome) [
      | ended n l ↦ (record c { idx = f.idx; pos = add64 c.pos n }, line_bytes l)
      | too_long n ↦ (record c { idx = f.idx; pos = add64 c.pos n }, line_too_long)
      | open_ l cr' ↦
          next (record c { idx = f.idx; pos = add64 c.pos (length (chunk c f.here)) }) l cr'
    ])
unfolding Reads
round-Reads max c f line cr next (ended n l) v g later e =
    let some_of : n ≤ length (chunk c f.here) =
      omega (arith, rw e at (read_bytes-used max 0 line cr (chunk c f.here))) in
    ap (λ (k : ℕ). (k, line_bytes l)) (chunk_small c f n v g some_of)
    ∙ sym
        (ap (line_at c.stream.end_ (c.pos + length (piece c))) (then_chunk max c f line cr _ v g e))
round-Reads max c f line cr next (too_long n) v g later e =
    let some_of : n ≤ length (chunk c f.here) =
      omega (arith, rw e at (read_bytes-used max 0 line cr (chunk c f.here))) in
    ap (λ (k : ℕ). (k, line_too_long)) (chunk_small c f n v g some_of)
    ∙ sym
        (ap (line_at c.stream.end_ (c.pos + length (piece c))) (then_chunk max c f line cr _ v g e))
round-Reads max c f line cr next (open_ l cr') v g later e =
    let xs = chunk c f.here in
    let d = behind_chunk c f in
    let no_wrap = chunk_small c f (length xs) v g (omega arith) in
    let last : d.pos + length (piece d) ≡ c.pos + length (piece c) =
      omega
        (arith, length-append xs (piece d), ap (λ (k : List ℕ). length k) (piece-chunk c f v g)) in
    rw no_wrap (
      later l cr'
      ∙ ap (λ (k : ℕ). line_at c.stream.end_ k (read_bytes max l cr' d.pos (piece d))) last
      ∙ sym (
          ap (line_at c.stream.end_ (c.pos + length (piece c)))
            (then_chunk max c f line cr _ v g e)))

-- One round of the loop, on the part found.
line_loop-suc :
    (fuel max : ℕ) (c : Cursor) (f : Found c) (line : List ℕ) (cr : Bool)
    → at_end c ≡ false
    → line_loop (suc fuel) max c line cr ≡ (
        if not (f.here.gap == gap_none)
        then (record c { idx = f.idx }, line_failed gap)
        else elim (read_bytes max line cr 0 (chunk c f.here)) as (λ _. Cursor × LineOutcome) [
          | ended n l ↦ (record c { idx = f.idx; pos = add64 c.pos n }, line_bytes l)
          | too_long n ↦ (record c { idx = f.idx; pos = add64 c.pos n }, line_too_long)
          | open_ l cr' ↦
              line_loop fuel max
                (record c { idx = f.idx; pos = add64 c.pos (length (chunk c f.here)) })
                l
                cr'
        ])
unfolding line_loop
line_loop-suc fuel max c f line cr some_left =
    let round : Cursor × Option Part → Cursor × LineOutcome = λ s.
      elim s.1 as (λ _. Cursor × LineOutcome) [
        | none ↦ (s.0, line_failed short)
        | some p ↦
            if not (p.gap == gap_none)
            then (s.0, line_failed gap)
            else elim (read_bytes max line cr 0 (chunk c p)) [
              | ended n l ↦ (record (s.0) { pos = add64 c.pos n }, line_bytes l)
              | too_long n ↦ (record (s.0) { pos = add64 c.pos n }, line_too_long)
              | open_ l cr' ↦
                  line_loop fuel max (record (s.0) { pos = add64 c.pos (length (chunk c p)) }) l cr'
            ]
      ] in
    rw some_left (ap round f.found)

-- Where nothing is carried at the cursor, a line that is open there stays so.
nothing-Reads :
    (max : ℕ) (c d : Cursor) (line : List ℕ) (cr : Bool) (fault : Fault)
    → piece c ≡ []
    → d.pos ≡ c.pos
    → fault_at c.stream.end_ c.pos ≡ fault
    → Reads max c line cr (d, line_failed fault)
unfolding Reads read_bytes
nothing-Reads max c d line cr fault e at_ same =
    let here : c.pos ≡ c.pos + 0 = omega arith in
    ap (λ (k : ℕ). (k, line_failed fault)) at_
    ∙ ap (λ (k : Fault). (c.pos, line_failed k)) (sym same)
    ∙ ap (λ (k : ℕ). line_at c.stream.end_ k (open_ line cr)) here
    ∙ ap
        (λ (bs : List ℕ).
          line_at c.stream.end_ (c.pos + length bs) (read_bytes max line cr c.pos bs))
        (sym e)

hole_piece : (c : Cursor) (f : Found c) → f.here.gap ≢ gap_none → piece c ≡ []
hole_piece c f g =
    sym (Found-unbroken c f c.pos (c.stream.end_ - c.pos) (omega arith))
    ∙ unbroken-none (f.here ∷ f.rest) c.pos (c.stream.end_ - c.pos) (ground (arith, f.high))

at_end-cases :
    (c : Cursor)
    → Stands c
    → ((at_end c ≡ true) × (c.pos ≡ c.stream.end_)) ⊎ ((at_end c ≡ false) × (c.pos < c.stream.end_))
unfolding at_end remaining sub64
at_end-cases c v = elim (Bool-cases (leb c.stream.end_ c.pos)) [
  | inl past ↦ inl (ground arith, ground (arith, v.within))
  | inr within ↦ inr (ground (arith, v.within, v.small), ground arith)
]

-- What `line_loop` does once it has a part.
found-Reads :
    (fuel max : ℕ) (c : Cursor) (f : Found c) (line : List ℕ) (cr : Bool)
    → Stands c
    → at_end c ≡ false
    → c.pos < c.stream.end_
    → ((d : Cursor) (l : List ℕ) (cr' : Bool)
        → Stands d
        → d.stream ≡ c.stream
        → c.pos < d.pos
        → Reads max d l cr' (line_loop fuel max d l cr'))
    → Reads max c line cr (line_loop (suc fuel) max c line cr)
found-Reads fuel max c f line cr v more within later =
    rw (line_loop-suc fuel max c f line cr more) (elim (Bool-cases (f.here.gap == gap_none)) [
      | inr hole ↦ rw hole (
          nothing-Reads max c (record c { idx = f.idx }) line cr gap (hole_piece c f (ground arith))
            refl (ground arith))
      | inl some_bytes ↦
          let g : f.here.gap ≡ gap_none = ground arith in
          let size = length-chunk c f v g in
          rw some_bytes (
            round-Reads max c f line cr (line_loop fuel max)
              (read_bytes max line cr 0 (chunk c f.here)) v g
              (λ l cr'.
                later (behind_chunk c f) l cr'
                  (moved-Stands c f (c.pos + length (chunk c f.here)) v (omega arith)
                    (omega (arith, size.0, Covers-le _ _ f.rest f.covers.2)))
                  refl (omega (arith, size.0, f.high)))
              refl)
    ])

line_loop-Reads :
    (fuel max : ℕ) (c : Cursor) (line : List ℕ) (cr : Bool)
    → Stands c
    → c.stream.end_ < c.pos + fuel
    → Reads max c line cr (line_loop fuel max c line cr)
unfolding line_loop
line_loop-Reads zero max c line cr v enough = absurd (omega (arith, enough, v.within))
line_loop-Reads (suc fuel) max c line cr v enough = elim (at_end-cases c v) [
  | inl over ↦ rw (over.0) (
      nothing-Reads max c c line cr short (past-unbroken c _ v (omega (arith, over.1))) refl
        (ground (arith, over.1)))
  | inr more ↦
      found-Reads fuel max c (part-some c v more.1) line cr v more.0 more.1 (λ d l cr' w same on.
        line_loop-Reads fuel max d l cr' w
          (omega (arith, on, ap (λ (s : Stream). s.end_) same, enough)))
]

-- `ReadLine` of a cursor that stands inside of its stream, with any bound: the line is the one that
-- the bytes carried in one piece from there on hold, however the parts divide them, and the cursor
-- stands behind its end, or where it got too long; where the piece ends before the line does, the
-- cursor stands at the end of the piece, and the read is short at the end of the stream and fails at
-- a gap elsewhere.
pub read_line-line_at :
    (max : ℕ) (c : Cursor)
    → Stands c
    → let (d, outcome) = read_line max c in
      (d.pos, outcome)
      ≡ line_at c.stream.end_ (c.pos + length (piece c)) (read_bytes max [] false c.pos (piece c))
unfolding read_line Reads remaining sub64
read_line-line_at max c v =
    line_loop-Reads (remaining c + 1) max c [] false v (ground (arith, v.within, v.small))

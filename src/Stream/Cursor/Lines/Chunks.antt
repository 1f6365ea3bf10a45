-- ===== src/Stream/Cursor/Lines/Chunks.antt =====
-- What the bytes of one part make of a line, and what follows of them.
use edge_observer.Prelude.{
  ℕ, zero, suc, ◌+◌, ◌-◌, ◌≤◌, ◌≡◌, refl, sym, ap, ◌∙◌, Bool, true, false, List, [], ◌∷◌, ◌++◌,
  ◌==◌, if◌then◌else◌, add64, sub64, add64-eq, sub64-eq, take, drop, length, length-drop, arith,
}
use edge_observer.Http1.Parser.Scan.Reference.{
  LineRead, ended, too_long, open_, with_cr, read_bytes,
}
use edge_observer.Stream.Parts.{gap_none}
use edge_observer.Stream.Carried.{Covers-le}
use edge_observer.Stream.Cursor.Standing.{Stands, Found}
use edge_observer.Stream.Cursor.Peeks.{unbroken, unbroken-bytes, Found-unbroken, full_size}
use edge_observer.Stream.Cursor.{Cursor, Fault, short, gap}
use edge_observer.Stream.Cursor.Lines.{LineOutcome, line_bytes, line_failed, line_too_long, chunk}

-- The same line, with the bytes counted from `a` on.
abbrev pub shifted : ℕ → LineRead → LineRead
shifted a (ended n l) = ended (a + n) l
shifted a (too_long n) = too_long (a + n)
shifted a (open_ l cr) = open_ l cr

read_bytes-shifted :
    (max a i : ℕ) (line : List ℕ) (cr : Bool) (bs : List ℕ)
    → read_bytes max line cr (a + i) bs ≡ shifted a (read_bytes max line cr i bs)
unfolding read_bytes
read_bytes-shifted max a i line cr [] = refl
read_bytes-shifted max a i line cr (b ∷ bs) =
    let next : a + i + 1 ≡ a + (i + 1) = omega arith in
    let held = read_bytes-shifted max a (i + 1) (with_cr line cr) true bs in
    let on = read_bytes-shifted max a (i + 1) (with_cr line cr ++ (b ∷ [])) false bs in
    rw next (ground (arith, held, on))

-- The line goes on in the bytes that follow.
abbrev pub resumed : ℕ → ℕ → LineRead → List ℕ → LineRead
resumed max i (ended n l) ys = ended n l
resumed max i (too_long n) ys = too_long n
resumed max i (open_ l cr) ys = read_bytes max l cr i ys

read_bytes-append :
    (max i : ℕ) (line : List ℕ) (cr : Bool) (xs ys : List ℕ)
    → read_bytes max line cr i (xs ++ ys)
      ≡ resumed max (i + length xs) (read_bytes max line cr i xs) ys
unfolding read_bytes
read_bytes-append max i line cr [] ys =
    let e : i ≡ i + 0 = omega arith in ap (λ (k : ℕ). read_bytes max line cr k ys) e
read_bytes-append max i line cr (b ∷ xs) ys =
    let next : i + suc (length xs) ≡ i + 1 + length xs = omega arith in
    let held = read_bytes-append max (i + 1) (with_cr line cr) true xs ys in
    let on = read_bytes-append max (i + 1) (with_cr line cr ++ (b ∷ [])) false xs ys in
    rw next (ground (arith, held, on))

-- The end of the bytes carried in one piece from the cursor on, and what a line that is open there
-- fails with.
abbrev pub piece : Cursor → List ℕ
piece c = unbroken c.stream.parts c.pos (c.stream.end_ - c.pos)

abbrev pub fault_at : ℕ → ℕ → Fault
fault_at end_ o = if o == end_ then short else gap

-- Where a line stands, its bytes counted from the start of the stream, if the bytes carried in one
-- piece end at `o`.
abbrev pub line_at : ℕ → ℕ → LineRead → ℕ × LineOutcome
line_at end_ o (ended n l) = (n, line_bytes l)
line_at end_ o (too_long n) = (n, line_too_long)
line_at end_ o (open_ l cr) = (o, line_failed (fault_at end_ o))

-- How many bytes of `o` in all it took.
abbrev pub used : ℕ → LineRead → ℕ
used o (ended n l) = n
used o (too_long n) = n
used o (open_ l cr) = o

pub read_bytes-used :
    (max i : ℕ) (line : List ℕ) (cr : Bool) (bs : List ℕ)
    → used (i + length bs) (read_bytes max line cr i bs) ≤ i + length bs
unfolding read_bytes
read_bytes-used max i line cr [] = omega arith
read_bytes-used max i line cr (b ∷ bs) =
    let next : i + suc (length bs) ≡ i + 1 + length bs = omega arith in
    let held = read_bytes-used max (i + 1) (with_cr line cr) true bs in
    let on = read_bytes-used max (i + 1) (with_cr line cr ++ (b ∷ [])) false bs in
    rw next (ground (arith, held, on))

take-all : (n : ℕ) (xs : List ℕ) → length xs ≤ n → take n xs ≡ xs
take-all zero [] h = refl
take-all zero (x ∷ xs) h = absurd (omega (arith, h))
take-all (suc n) [] h = refl
take-all (suc n) (x ∷ xs) h = ap (λ (l : List ℕ). x ∷ l) (take-all n xs (omega (arith, h)))

pub length-chunk :
    (c : Cursor) (f : Found c)
    → Stands c
    → f.here.gap ≡ gap_none
    → (c.pos + length (chunk c f.here) ≡ f.here.offset + f.here.size)
      × (chunk c f.here ≡ drop (c.pos - f.here.offset) f.here.bytes)
unfolding chunk
length-chunk c f v g =
    let inside : sub64 c.pos f.here.offset ≡ c.pos - f.here.offset =
      sub64-eq c.pos f.here.offset f.low (omega (arith, v.within, v.small)) in
    (
      omega (
        arith,
        length-drop (sub64 c.pos f.here.offset) f.here.bytes,
        full_size f.here f.covers.1 g,
        f.low,
        f.high,
        inside,
      ),
      ap (λ (k : ℕ). drop k f.here.bytes) inside,
    )

-- The cursor behind the bytes of the part found.
abbrev pub behind_chunk : (c : Cursor) → Found c → Cursor
behind_chunk c f = record c { idx = f.idx; pos = c.pos + length (chunk c f.here) }

pub piece-chunk :
    (c : Cursor) (f : Found c)
    → Stands c
    → f.here.gap ≡ gap_none
    → piece c ≡ chunk c f.here ++ piece (behind_chunk c f)
piece-chunk c f v g =
    let xs = chunk c f.here in
    let t = length xs in
    let size = length-chunk c f v g in
    let within = Covers-le _ _ f.rest f.covers.2 in
    let m = c.stream.end_ - (c.pos + t) in
    let all : t + m ≡ c.stream.end_ - c.pos = omega (arith, size.0, within) in
    sym (Found-unbroken c f c.pos (c.stream.end_ - c.pos) (omega arith))
    ∙ ap (unbroken (f.here ∷ f.rest) c.pos) (sym all)
    ∙ unbroken-bytes f.here f.rest t m c.pos f.covers.1 g f.low (omega (arith, size.0))
    ∙ ap (λ (l : List ℕ). take t l ++ unbroken (f.here ∷ f.rest) (c.pos + t) m) (sym size.1)
    ∙ ap (λ (l : List ℕ). l ++ unbroken (f.here ∷ f.rest) (c.pos + t) m)
        (take-all t xs (omega arith))
    ∙ ap (λ (l : List ℕ). xs ++ l) (Found-unbroken c f (c.pos + t) m (omega arith))

-- What the line is, once the bytes of the part found have been read.
resumed-chunk :
    (max : ℕ) (c : Cursor) (f : Found c) (line : List ℕ) (cr : Bool)
    → Stands c
    → f.here.gap ≡ gap_none
    → read_bytes max line cr c.pos (piece c)
      ≡ resumed max
          (c.pos + length (chunk c f.here))
          (shifted c.pos (read_bytes max line cr 0 (chunk c f.here)))
          (piece (behind_chunk c f))
resumed-chunk max c f line cr v g =
    let xs = chunk c f.here in
    let ys = piece (behind_chunk c f) in
    let start : c.pos ≡ c.pos + 0 = omega arith in
    ap (read_bytes max line cr c.pos) (piece-chunk c f v g)
    ∙ read_bytes-append max c.pos line cr xs ys
    ∙ ap (λ (r : LineRead). resumed max (c.pos + length xs) r ys)
        (ap (λ (k : ℕ). read_bytes max line cr k xs) start
          ∙ read_bytes-shifted max c.pos 0 line cr xs)

-- What the line is, where `r` is what those bytes make of it.
pub then_chunk :
    (max : ℕ) (c : Cursor) (f : Found c) (line : List ℕ) (cr : Bool) (r : LineRead)
    → Stands c
    → f.here.gap ≡ gap_none
    → read_bytes max line cr 0 (chunk c f.here) ≡ r
    → read_bytes max line cr c.pos (piece c)
      ≡ resumed max (c.pos + length (chunk c f.here)) (shifted c.pos r) (piece (behind_chunk c f))
then_chunk max c f line cr r v g e =
    resumed-chunk max c f line cr v g
    ∙ ap
        (λ (k : LineRead).
          resumed max (c.pos + length (chunk c f.here)) (shifted c.pos k)
            (piece (behind_chunk c f)))
        e

-- The offsets used of the part found do not wrap.
pub chunk_small :
    (c : Cursor) (f : Found c) (n : ℕ)
    → Stands c
    → f.here.gap ≡ gap_none
    → n ≤ length (chunk c f.here)
    → add64 c.pos n ≡ c.pos + n
chunk_small c f n v g h =
    let size = length-chunk c f v g in
    add64-eq c.pos n (omega (arith, size.0, h, v.small, Covers-le _ _ f.rest f.covers.2))

-- ===== src/Stream/Cover.antt =====
-- The parts of a stream cover its extent, each passes its check, and bytes and holes add up.
use edge_observer.Prelude.{
  ℕ, ◌+◌, ◌≤◌, ◌<◌, ◌≡◌, ◌≢◌, refl, false, List, [], ◌∷◌, none, arith, ◌==◌, if◌then◌else◌, add64,
  sub64, add64-eq, sub64-eq, u64_mod, length, length-drop, drop,
}
use edge_observer.Fragment.{Record, StreamKey, end_of}
use edge_observer.Stream.Parts.{
  Part, gap_none, gap_missing, gap_truncated, validate, join, append_part, append,
}
use edge_observer.Stream.{
  Placing, kept_of, noted, place_missing, place_bytes, place_truncated, place, place_all,
  placing_from, one_with_duplicates, bytes_of, stream_bytes, stream_gaps,
}

-- The parts run from offset `a` to offset `b` with no overlap and no space, and each is usable.
abbrev pub Covers : ℕ → List Part → ℕ → Type 0
Covers a [] b = a ≡ b
Covers a (p ∷ ps) b = (p.offset ≡ a) × (validate p ≡ none) × Covers (a + p.size) ps b

-- A record that keeps no more than was transferred, and ends within the uint64 offsets.
pub record Fits (r : Record) : Type 0 where
  pub kept : kept_of r ≤ r.size
  pub ends : r.offset + r.size < u64_mod

abbrev pub AllFit : List (ℕ × Record) → Type 0
AllFit [] = Unit {0}
AllFit (x ∷ rs) = Fits x.1 × AllFit rs

pub append_part-Covers :
    (a b : ℕ) (ps : List Part) (p : Part)
    → Covers a ps b
    → p.offset ≡ b
    → validate p ≡ none
    → Covers a (append_part ps p) (b + p.size)
unfolding append_part join validate add64
append_part-Covers a b [] p c o v = ground arith
append_part-Covers a b (q ∷ []) p c o v = ground arith
append_part-Covers a b (q ∷ r ∷ ps) p c o v =
    (c.0, c.1, append_part-Covers (a + q.size) b (r ∷ ps) p c.2 o v)

append-Covers :
    (a b d : ℕ) (ps : List Part) (p : Part)
    → Covers a ps b
    → p.offset ≡ b
    → p.size ≢ 0
    → validate p ≡ none
    → b + p.size ≡ d
    → Covers a (append ps p) d
unfolding append
append-Covers a b d ps p c o n v e =
    let some_offsets : (p.size == 0) ≡ false = ground arith in
    rw some_offsets (rw (← e) (append_part-Covers a b ps p c o v))

-- What the loop keeps: the parts cover `a` up to `next`, which is an offset.
pub record Placed (a : ℕ) (s : Placing) : Type 0 where
  pub covers : Covers a s.parts s.next
  pub within : s.next < u64_mod

module _ (a : ℕ) (r : Record) (s : Placing) (v : Placed a s) (f : Fits r) where
  pub noted-Placed : Placed a (noted s r)
  unfolding noted
  noted-Placed = ground arith

  pub missing-Placed : Placed a (place_missing r s) × (r.offset ≤ (place_missing r s).next)
  unfolding place_missing validate
  missing-Placed =
      let gap : Part = record {
        offset = s.next;
        size = sub64 r.offset s.next;
        gap = gap_missing;
        bytes = [];
      } in
      ground (
        arith,
        v.covers,
        f.ends,
        sub64-eq r.offset s.next,
        append-Covers a s.next r.offset s.parts gap v.covers,
      )

  pub bytes-Placed : r.offset ≤ s.next → Placed a (place_bytes r s)
  unfolding place_bytes validate
  bytes-Placed h =
      let skip = sub64 s.next r.offset in
      let part : Part = record {
        offset = s.next;
        size = sub64 (kept_of r) skip;
        gap = gap_none;
        bytes = drop skip r.payload;
      } in
      ground (
        arith,
        f.ends,
        f.kept,
        sub64-eq s.next r.offset,
        sub64-eq (kept_of r) skip,
        add64-eq r.offset (kept_of r),
        length-drop skip r.payload,
        append-Covers a s.next (r.offset + kept_of r) s.parts part v.covers,
      )

  pub truncated-Placed : Placed a (place_truncated r s)
  unfolding place_truncated validate end_of
  truncated-Placed =
      let gap : Part = record {
        offset = s.next;
        size = sub64 (end_of r) s.next;
        gap = gap_truncated;
        bytes = [];
      } in
      ground (
        arith,
        f.ends,
        add64-eq r.offset r.size,
        sub64-eq (r.offset + r.size) s.next,
        append-Covers a s.next (r.offset + r.size) s.parts gap v.covers,
      )

pub place-Placed :
    (a i : ℕ) (r : Record) (s : Placing) → Placed a s → Fits r → Placed a (place s (i, r))
unfolding place
place-Placed a i r s v f =
    let n = noted-Placed a r s v f in
    let m = missing-Placed a r (noted s r) n f in
    let b = bytes-Placed a r (place_missing r (noted s r)) m.0 f m.1 in
    let t = truncated-Placed a r (place_bytes r (place_missing r (noted s r))) b f in
    ground (arith, n.covers, n.within, t.covers, t.within)

place_all-Placed :
    (a : ℕ) (rs : List (ℕ × Record)) (s : Placing)
    → Placed a s
    → AllFit rs
    → Placed a (place_all s rs)
unfolding place_all
place_all-Placed a [] s v f = v
place_all-Placed a ((i, r) ∷ rs) s v f =
    place_all-Placed a rs (place s (i, r)) (place-Placed a i r s v f.0) f.1

-- How many bytes the parts carry, and how many offsets their holes have.
abbrev pub carried : List Part → ℕ
carried [] = 0
carried (p ∷ ps) = length p.bytes + carried ps

abbrev pub holed : List Part → ℕ
holed [] = 0
holed (p ∷ ps) = (if p.gap == gap_none then 0 else p.size) + holed ps

Covers-bytes_of :
    (a b : ℕ) (ps : List Part)
    → Covers a ps b
    → b < u64_mod
    → (a + bytes_of ps + holed ps ≡ b) × (bytes_of ps ≡ carried ps)
unfolding bytes_of validate
Covers-bytes_of a b [] c h = omega arith
Covers-bytes_of a b (p ∷ ps) c h =
    let rest = Covers-bytes_of (a + p.size) b ps c.2 h in
    ground (arith, rest, add64-eq p.size (bytes_of ps))

-- For records that keep no more than they transferred and end within the uint64 offsets, in any
-- order: the parts of the assembled stream cover its extent with no overlap and no space, each
-- passes `Part.Validate`, the extent does not wrap, `Bytes` is the number of bytes carried, `Gaps`
-- the number of offsets in holes, and together they are the extent.
pub one_with_duplicates-Covers :
    (k : StreamKey) (rs : List (ℕ × Record))
    → AllFit rs
    → let s = (one_with_duplicates k rs).0 in
      Covers s.start s.parts s.end_
      × (s.end_ < u64_mod)
      × (stream_bytes s ≡ carried s.parts)
      × (stream_gaps s ≡ holed s.parts)
      × (s.start + stream_bytes s + stream_gaps s ≡ s.end_)
unfolding one_with_duplicates stream_bytes stream_gaps bytes_of sub64
one_with_duplicates-Covers k [] f = (refl, omega arith, refl, omega arith, omega arith)
one_with_duplicates-Covers k ((i, r) ∷ rs) f =
    let start : Placed r.offset (placing_from r.offset) = ground (arith, f.0.ends) in
    let v = place_all-Placed r.offset ((i, r) ∷ rs) (placing_from r.offset) start f in
    let s = place_all (placing_from r.offset) ((i, r) ∷ rs) in
    let sums = Covers-bytes_of r.offset s.next s.parts v.covers v.within in
    (v.covers, v.within, sums.1, ground (arith, sums, v.within), ground (arith, sums, v.within))

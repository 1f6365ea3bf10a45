-- ===== src/Stream/Carried.antt =====
-- Whose bytes a stream carries: each is a record's own, and none where records agree is another's.
use edge_observer.Prelude.{
  ℕ, ◌+◌, ◌-◌, ◌≤◌, ◌<◌, ◌≡◌, ◌≢◌, refl, false, ◌&&◌, List, [], ◌∷◌, Option, none, arith, ◌==◌, ltb,
  leb, if◌then◌else◌, add64, sub64, add64-eq, sub64-eq, u64_mod, length-drop, drop, get_elem?,
  get_elem?-drop, get_elem?-past,
}
use edge_observer.Fragment.{Record, StreamKey, end_of}
use edge_observer.Stream.Parts.{
  Part, gap_none, gap_missing, gap_truncated, validate, join, append_part, append,
}
use edge_observer.Stream.{
  Placing, kept_of, noted, place_missing, place_bytes, place_truncated, place, place_all,
  placing_from, one_with_duplicates,
}
use edge_observer.Stream.Cover.{
  Covers, Fits, AllFit, Placed, noted-Placed, missing-Placed, bytes-Placed, place-Placed,
}

-- The byte that a part, a stream's parts or a record has at an offset.
abbrev pub part_byte : Part → ℕ → Option ℕ
part_byte p o =
    if leb p.offset o && ltb o (p.offset + p.size) && p.gap == gap_none
    then get_elem? p.bytes (o - p.offset)
    else none

abbrev pub byte_at : List Part → ℕ → Option ℕ
byte_at [] o = none
byte_at (p ∷ ps) o = if ltb o (p.offset + p.size) then part_byte p o else byte_at ps o

abbrev pub record_byte : Record → ℕ → Option ℕ
record_byte r o = if leb r.offset o then get_elem? r.payload (o - r.offset) else none

byte_at-below : (a b o : ℕ) (ps : List Part) → Covers a ps b → o < a → byte_at ps o ≡ none
byte_at-below a b o [] c h = refl
byte_at-below a b o (p ∷ ps) c h = ground arith

pub Covers-le : (a b : ℕ) (ps : List Part) → Covers a ps b → a ≤ b
Covers-le a b [] c = omega arith
Covers-le a b (p ∷ ps) c = omega (arith, Covers-le (a + p.size) b ps c.2)

byte_at-append_part :
    (a b o : ℕ) (ps : List Part) (p : Part)
    → Covers a ps b
    → p.offset ≡ b
    → validate p ≡ none
    → byte_at (append_part ps p) o ≡ (if ltb o b then byte_at ps o else part_byte p o)
unfolding append_part join validate add64
byte_at-append_part a b o [] p c e v = ground arith
byte_at-append_part a b o (q ∷ []) p c e v = ground arith
byte_at-append_part a b o (q ∷ r ∷ ps) p c e v = ground (
  arith,
  byte_at-append_part (a + q.size) b o (r ∷ ps) p c.2 e v,
  Covers-le (a + q.size) b (r ∷ ps) c.2,
)

byte_at-append :
    (a b o : ℕ) (ps : List Part) (p : Part)
    → Covers a ps b
    → p.offset ≡ b
    → p.size ≢ 0
    → validate p ≡ none
    → byte_at (append ps p) o ≡ (if ltb o b then byte_at ps o else part_byte p o)
unfolding append
byte_at-append a b o ps p c e n v =
    let some_offsets : (p.size == 0) ≡ false = ground arith in
    rw some_offsets (byte_at-append_part a b o ps p c e v)

pub byte_at-above : (a b o : ℕ) (ps : List Part) → Covers a ps b → b ≤ o → byte_at ps o ≡ none
byte_at-above a b o [] c h = refl
byte_at-above a b o (p ∷ ps) c h =
    ground (arith, byte_at-above (a + p.size) b o ps c.2 h, Covers-le (a + p.size) b ps c.2)

module _ (a o : ℕ) (r : Record) (s : Placing) (v : Placed a s) (f : Fits r) where
  byte_at-place_missing : byte_at (place_missing r s).parts o ≡ byte_at s.parts o
  unfolding place_missing validate
  byte_at-place_missing =
      let gap : Part = record {
        offset = s.next;
        size = sub64 r.offset s.next;
        gap = gap_missing;
        bytes = [];
      } in
      ground (
        arith,
        f.ends,
        sub64-eq r.offset s.next,
        byte_at-append a s.next o s.parts gap v.covers,
        byte_at-above a s.next o s.parts v.covers,
      )

  byte_at-place_truncated : byte_at (place_truncated r s).parts o ≡ byte_at s.parts o
  unfolding place_truncated validate end_of
  byte_at-place_truncated =
      let gap : Part = record {
        offset = s.next;
        size = sub64 (end_of r) s.next;
        gap = gap_truncated;
        bytes = [];
      } in
      ground (
        arith,
        f.ends,
        add64-eq r.offset r.size,
        sub64-eq (r.offset + r.size) s.next,
        byte_at-append a s.next o s.parts gap v.covers,
        byte_at-above a s.next o s.parts v.covers,
      )

  byte_at-place_bytes :
      r.offset ≤ s.next
      → byte_at (place_bytes r s).parts o
        ≡ (if ltb o s.next then byte_at s.parts o else record_byte r o)
  unfolding place_bytes validate
  byte_at-place_bytes h =
      let skip = sub64 s.next r.offset in
      let part : Part = record {
        offset = s.next;
        size = sub64 (kept_of r) skip;
        gap = gap_none;
        bytes = drop skip r.payload;
      } in
      ground (
        arith,
        f.ends,
        f.kept,
        sub64-eq s.next r.offset,
        sub64-eq (kept_of r) skip,
        add64-eq r.offset (kept_of r),
        length-drop skip r.payload,
        byte_at-append a s.next o s.parts part v.covers,
        byte_at-above a s.next o s.parts v.covers,
        get_elem?-drop skip r.payload (o - s.next),
        get_elem?-past r.payload (o - r.offset),
      )

pub noted_lem :
    (r : Record) (s : Placing) → ((noted s r).parts ≡ s.parts) × ((noted s r).next ≡ s.next)
unfolding noted
noted_lem r s = ground arith

-- The stages move `next` to the record's end, or leave it further on.
pub place-next :
    (i : ℕ) (r : Record) (s : Placing)
    → Fits r
    → s.next < u64_mod
    → (place s (i, r)).next ≡ (if ltb s.next (r.offset + r.size) then r.offset + r.size else s.next)
unfolding place place_missing place_bytes place_truncated end_of
place-next i r s f h =
    ground (
      arith,
      f.ends,
      f.kept,
      add64-eq r.offset r.size,
      add64-eq r.offset (kept_of r),
      noted_lem r s,
    )

missing-next :
    (r : Record) (s : Placing)
    → (place_missing r s).next ≡ (if ltb s.next r.offset then r.offset else s.next)
unfolding place_missing
missing-next r s = ground arith

-- A record's bytes are placed from `next` on, and nothing that stands below `next` changes.
pub byte_at-place :
    (a i o : ℕ) (r : Record) (s : Placing)
    → Placed a s
    → Fits r
    → byte_at (place s (i, r)).parts o
      ≡ (if ltb o s.next then byte_at s.parts o else record_byte r o)
unfolding place end_of
byte_at-place a i o r s v f =
    let n = noted-Placed a r s v f in
    let m = missing-Placed a r (noted s r) n f in
    let b = bytes-Placed a r (place_missing r (noted s r)) m.0 f m.1 in
    ground (
      arith,
      f.ends,
      f.kept,
      add64-eq r.offset r.size,
      noted_lem r s,
      missing-next r (noted s r),
      byte_at-place_truncated a o r (place_bytes r (place_missing r (noted s r))) b f,
      byte_at-place_bytes a o r (place_missing r (noted s r)) m.0 f m.1,
      byte_at-place_missing a o r (noted s r) n f,
      byte_at-above a s.next o s.parts v.covers,
      get_elem?-past r.payload (o - r.offset),
    )

-- The byte at `o` of the first record that ends past `o`.
pub first_byte : List (ℕ × Record) → ℕ → Option ℕ
first_byte [] o = none
first_byte ((i, r) ∷ rs) o = if ltb o (r.offset + r.size) then record_byte r o else first_byte rs o

pub byte_at-place_all :
    (a o : ℕ) (rs : List (ℕ × Record)) (s : Placing)
    → Placed a s
    → AllFit rs
    → byte_at (place_all s rs).parts o
      ≡ (if ltb o s.next then byte_at s.parts o else first_byte rs o)
unfolding place_all first_byte
byte_at-place_all a o [] s v f = ground (arith, byte_at-above a s.next o s.parts v.covers)
byte_at-place_all a o ((i, r) ∷ rs) s v f = ground (
  arith,
  byte_at-place_all a o rs (place s (i, r)) (place-Placed a i r s v f.0) f.1,
  byte_at-place a i o r s v f.0,
  place-next i r s f.0 v.within,
)

-- For records that keep no more than they transferred and end within the uint64 offsets, in any
-- order: the assembled stream carries, at every offset from its start, the byte of the first record
-- that ends past that offset, and none where that record kept none there.
pub one_with_duplicates-first_byte :
    (k : StreamKey) (i : ℕ) (r : Record) (rs : List (ℕ × Record)) (o : ℕ)
    → AllFit ((i, r) ∷ rs)
    → r.offset ≤ o
    → byte_at (one_with_duplicates k ((i, r) ∷ rs)).0.parts o ≡ first_byte ((i, r) ∷ rs) o
unfolding one_with_duplicates
one_with_duplicates-first_byte k i r rs o f h =
    let start : Placed r.offset (placing_from r.offset) = ground (arith, f.0.ends) in
    ground (arith, byte_at-place_all r.offset o ((i, r) ∷ rs) (placing_from r.offset) start f)

-- ===== src/Stream.antt =====
-- stream/stream.go: one direction of one connection reassembled from its fragments.
-- `Parts` has the parts and their check, `Assemble` the buckets and their order, `Cursor` the reader
-- of stream/cursor.go. Offsets and lengths are uint64 and wrap. A part's bytes alias the record's
-- payload; nothing here writes through them, so that they are values.
pub mod Parts
pub mod Cover
pub mod Carried
pub mod Agreement
pub mod Assemble
pub mod Cursor
mod Tests
use edge_observer.Prelude.{
  ℕ, ◌+◌, Bool, true, false, not, ◌&&◌, ◌||◌, List, [], ◌∷◌, ◌++◌, Option, none, some, ◌==◌, ltb,
  leb, if◌then◌else◌, add64, sub64, length, take, drop, min,
}
use edge_observer.Fragment.{Record, StreamKey, end_of}
use Parts.{Part, gap_none, gap_missing, gap_truncated, append, agrees_at}

-- `Conflict`.
pub record Conflict : Type 0 where
  pub offset : ℕ
  pub size : ℕ

-- `Duplicate`; its index is the record's position in the input.
pub record Duplicate : Type 0 where
  pub index : ℕ
  pub offset : ℕ
  pub size : ℕ
  pub agrees : Bool

-- `Stream`.
pub record Stream : Type 0 where
  pub key : StreamKey
  pub parts : List Part
  pub start : ℕ
  pub end_ : ℕ
  pub conflicts : List Conflict

-- The variables of the loop in `oneWithDuplicates`.
pub record Placing : Type 0 where
  pub parts : List Part
  pub conflicts : List Conflict
  pub next : ℕ
  pub duplicates : List Duplicate

abbrev pub kept_of : Record → ℕ
kept_of r = length r.payload

-- How many of the record's first offsets are placed already, where its bytes are looked at.
pub overlap : ℕ → Record → ℕ
overlap next r =
    if ltb r.offset next && ltb 0 (kept_of r)
    then sub64 (min next (add64 r.offset (kept_of r))) r.offset
    else 0

-- `agrees`, after the check of the bytes shared with what is placed.
pub agrees : Placing → Record → Bool
unfolding overlap
agrees s r =
    if ltb 0 (overlap s.next r)
    then agrees_at s.parts r.offset (take (overlap s.next r) r.payload)
    else true

pub noted : Placing → Record → Placing
unfolding agrees
noted s r = if agrees s r then s else record s {
  conflicts = s.conflicts ++ (record { offset = r.offset; size = overlap s.next r } ∷ []);
}

-- The hole before the record.
pub place_missing : Record → Placing → Placing
place_missing r s =
    if ltb s.next r.offset
    then record s {
      parts =
          append s.parts (record {
            offset = s.next;
            size = sub64 r.offset s.next;
            gap = gap_missing;
            bytes = [];
          });
      next = r.offset;
    }
    else s

-- The bytes kept that are not placed.
pub place_bytes : Record → Placing → Placing
place_bytes r s =
    if ltb s.next (add64 r.offset (kept_of r))
    then record s {
      parts = append s.parts (record {
        offset = s.next;
        size = sub64 (kept_of r) (sub64 s.next r.offset);
        gap = gap_none;
        bytes = drop (sub64 s.next r.offset) r.payload;
      });
      next = add64 r.offset (kept_of r);
    }
    else s

-- The tail that the call transferred and capture did not keep.
pub place_truncated : Record → Placing → Placing
unfolding end_of
place_truncated r s =
    if ltb s.next (end_of r)
    then record s {
      parts = append s.parts (record {
        offset = s.next;
        size = sub64 (end_of r) s.next;
        gap = gap_truncated;
        bytes = [];
      });
      next = end_of r;
    }
    else s

-- One round of the loop, on the record at position `index` of the input.
pub place : Placing → ℕ × Record → Placing
unfolding noted place_missing place_bytes place_truncated end_of
place s (index, r) =
    let s' = noted s r in
    if leb (end_of r) s.next
    then record s' {
      duplicates =
          s'.duplicates
          ++ (record { index = index; offset = r.offset; size = r.size; agrees = agrees s r } ∷ []);
    }
    else place_truncated r (place_bytes r (place_missing r s'))

pub place_all : Placing → List (ℕ × Record) → Placing
place_all s [] = s
place_all s (r ∷ rs) = place_all (place s r) rs

abbrev pub placing_from : ℕ → Placing
placing_from start = record { parts = []; conflicts = []; next = start; duplicates = [] }

-- `oneWithDuplicates`, on records in the order of their offsets.
pub one_with_duplicates : StreamKey → List (ℕ × Record) → Stream × List Duplicate
unfolding place_all place
one_with_duplicates key [] =
    (record { key = key; parts = []; start = 0; end_ = 0; conflicts = [] }, [])
one_with_duplicates key ((i, r) ∷ rs) =
    let s = place_all (placing_from r.offset) ((i, r) ∷ rs) in
    (
      record {
        key = key;
        parts = s.parts;
        start = r.offset;
        end_ = s.next;
        conflicts = s.conflicts;
      },
      s.duplicates,
    )

bytes_of : List Part → ℕ
bytes_of [] = 0
bytes_of (p ∷ ps) = if p.gap == gap_none then add64 p.size (bytes_of ps) else bytes_of ps

-- `Stream.Bytes`. The sum of the parts' lengths wraps, in whatever order it is taken.
pub stream_bytes : Stream → ℕ
unfolding bytes_of
stream_bytes s = bytes_of s.parts

-- `Stream.Gaps`.
pub stream_gaps : Stream → ℕ
unfolding stream_bytes
stream_gaps s = sub64 (sub64 s.end_ s.start) (stream_bytes s)

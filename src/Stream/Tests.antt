-- ===== src/Stream/Tests.antt =====
-- The theorems on assembled streams at concrete records.
use edge_observer.Prelude.{
  ℕ, ◌+◌, ◌<◌, ◌≡◌, refl, false, List, [], ◌∷◌, ◌++◌, none, some, arith, map, u64_mod, add64, sub64,
}
use edge_observer.Prelude.Int.{pos}
use edge_observer.Fragment.Positions.{Direction, DirectionEvidence}
use edge_observer.Fragment.{Record, stream_key, end_of}
use edge_observer.Stream.Parts.{Part, join, append_part, append, equal_bytes, agrees_at}
use edge_observer.Stream.{
  Stream, overlap, agrees, noted, place_missing, place_bytes, place_truncated, place, place_all,
  one_with_duplicates, stream_bytes, stream_gaps,
}
use edge_observer.Stream.Cover.{Covers, Fits, AllFit, carried, holed, one_with_duplicates-Covers}
use edge_observer.Stream.Carried.{byte_at, first_byte, one_with_duplicates-first_byte}
use edge_observer.Stream.Agreement.{AllCompatible, one_with_duplicates-AllCompatible}
use edge_observer.Stream.Assemble.{Collected, collect, assemble}
use edge_observer.Stream.Assemble.Usable.{
  All, IsUsable, stream_of, ordered, sorted_buckets, assemble-IsUsable,
}
use edge_observer.Stream.Assemble.Buckets.{held_for, records_of, refused_of, collect-records_of}

abbrev no_direction : DirectionEvidence
no_direction = record {
  limit = 0;
  cut = false;
  from = 0;
  lost = 0;
  lost_uncounted = false;
  first = 0;
  numbered = 0;
  resolved = 0;
  empties = 0;
}

-- Four bytes, the last one not kept.
abbrev pub first_record : Record
first_record = record {
  process = record { pid = pos 812; start_time = 90_411 };
  connection = 5;
  direction = Direction.sent;
  sequence = 1;
  offset = 0;
  size = 4;
  produced = 0;
  empties = 0;
  payload = 71 ∷ 69 ∷ 84 ∷ [];
  at = some 100;
  evidence = record {
    identity = none;
    occupancy = 0;
    origin = 0;
    through = 0;
    sent = no_direction;
    received = no_direction;
  };
}

-- Two of the bytes again and three more, and then two behind a hole.
abbrev overlapping : Record
overlapping = record first_record {
  sequence = 2;
  offset = 1;
  size = 6;
  payload = 69 ∷ 84 ∷ 32 ∷ 47 ∷ 32 ∷ 72 ∷ [];
}

abbrev behind_hole : Record
behind_hole = record first_record { sequence = 3; offset = 9; size = 2; payload = 13 ∷ 10 ∷ [] }

abbrev pub later_two : List (ℕ × Record)
later_two = (2, overlapping) ∷ (0, behind_hole) ∷ []

abbrev pub three_records : List (ℕ × Record)
three_records = (1, first_record) ∷ later_two

abbrev pub three_placed : Stream
three_placed = (one_with_duplicates (stream_key first_record) three_records).0

pub three_fit : AllFit three_records
three_fit =
    let f : Fits first_record = record { kept = omega arith; ends = omega arith } in
    let g : Fits overlapping = record { kept = omega arith; ends = omega arith } in
    let h : Fits behind_hole = record { kept = omega arith; ends = omega arith } in
    (f, (g, (h, tt)))

abbrev kinds : List Part → List (ℕ × ℕ)
kinds [] = []
kinds (p ∷ ps) = (p.gap, p.size) ∷ kinds ps

-- The parts: three bytes, the byte not kept, three more bytes, a hole of two and the last two.
three_parts : kinds three_placed.parts ≡ (0, 3) ∷ (2, 1) ∷ (0, 3) ∷ (1, 2) ∷ (0, 2) ∷ []
unfolding one_with_duplicates place_all place noted agrees overlap place_missing place_bytes
    place_truncated end_of append append_part join equal_bytes agrees_at add64 sub64
three_parts = refl

three_agree : three_placed.conflicts ≡ []
unfolding one_with_duplicates place_all place noted agrees overlap place_missing place_bytes
    place_truncated end_of append append_part join equal_bytes agrees_at add64 sub64
three_agree = refl

one_with_duplicates-Covers_example :
    Covers three_placed.start three_placed.parts three_placed.end_
    × (three_placed.end_ < u64_mod)
    × (stream_bytes three_placed ≡ carried three_placed.parts)
    × (stream_gaps three_placed ≡ holed three_placed.parts)
    × (three_placed.start + stream_bytes three_placed + stream_gaps three_placed
        ≡ three_placed.end_)
one_with_duplicates-Covers_example =
    one_with_duplicates-Covers (stream_key first_record) three_records three_fit

one_with_duplicates-first_byte_example : byte_at three_placed.parts 4 ≡ first_byte three_records 4
one_with_duplicates-first_byte_example =
    one_with_duplicates-first_byte (stream_key first_record) 1 first_record later_two 4 three_fit
      (omega arith)

one_with_duplicates-AllCompatible_example : AllCompatible three_placed.parts three_records
one_with_duplicates-AllCompatible_example =
    one_with_duplicates-AllCompatible (stream_key first_record) 1 first_record later_two three_fit
      (omega arith, (omega arith, (omega arith, tt))) three_agree

abbrev unsorted : List Record
unsorted = behind_hole ∷ first_record ∷ overlapping ∷ record first_record { size = 0 } ∷ []

assemble-IsUsable_example :
    ((assemble unsorted).streams ≡ map stream_of (sorted_buckets unsorted))
    × All (λ b. IsUsable (stream_of b) (ordered b)) (sorted_buckets unsorted)
assemble-IsUsable_example =
    assemble-IsUsable unsorted (omega arith, (omega arith, (omega arith, (omega arith, tt))))

abbrev no_buckets : Collected
no_buckets = record { buckets = []; discards = [] }

collect-records_of_example :
    (held_for (stream_key first_record) (collect 0 unsorted no_buckets).buckets
      ≡ held_for (stream_key first_record) [] ++ records_of (stream_key first_record) 0 unsorted)
    × ((collect 0 unsorted no_buckets).discards ≡ [] ++ refused_of 0 unsorted)
collect-records_of_example = collect-records_of (stream_key first_record) 0 unsorted no_buckets

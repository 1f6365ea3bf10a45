-- ===== src/Stream/Cursor/Tests.antt =====
-- Reads of a concrete stream: three bytes, a byte that was not kept, three bytes, a hole of two and
-- two bytes.
use edge_observer.Prelude.{◌+◌, ◌≤◌, ◌<◌, ◌≡◌, ◌⊎◌, refl, [], ◌∷◌, add64, sub64}
use edge_observer.Fragment.{end_of, stream_key}
use edge_observer.Stream.Parts.{join, append_part, append, equal_bytes, agrees_at}
use edge_observer.Stream.{
  overlap, agrees, noted, place_missing, place_bytes, place_truncated, place, place_all,
  one_with_duplicates,
}
use edge_observer.Stream.Cover.{one_with_duplicates-Covers}
use edge_observer.Stream.Tests.{first_record, three_records, three_placed, three_fit}
use edge_observer.Stream.Cursor.{
  Cursor, bytes, failed, gap, short, taken, missed, new_cursor, remaining, find_from, part,
  round_size, read_loop, read_n, kept_bytes, with_holes, take_loop, take_offsets, peek_loop, peek,
}
use edge_observer.Stream.Cursor.Takes.{HasTaken, take_offsets-HasTaken}
use edge_observer.Stream.Cursor.Standing.{Stands, new_cursor-Stands}
use edge_observer.Stream.Cursor.Reads.{HasRead, read_n-HasRead}

abbrev at_start : Cursor
at_start = new_cursor three_placed

reads_three : (read_n 3 at_start).1 ≡ bytes (71 ∷ 69 ∷ 84 ∷ [])
unfolding new_cursor remaining find_from part round_size read_loop read_n one_with_duplicates
    place_all place noted agrees overlap place_missing place_bytes place_truncated end_of append
    append_part join equal_bytes agrees_at add64 sub64
reads_three = refl

reads_gap : (read_n 4 at_start).1 ≡ failed gap
unfolding new_cursor remaining find_from part round_size read_loop read_n one_with_duplicates
    place_all place noted agrees overlap place_missing place_bytes place_truncated end_of append
    append_part join equal_bytes agrees_at add64 sub64
reads_gap = refl

at_start-Stands : Stands at_start
at_start-Stands =
    let covers = one_with_duplicates-Covers (stream_key first_record) three_records three_fit in
    new_cursor-Stands three_placed covers.0 covers.1

read_n-HasRead_example :
    ((at_start.stream.end_ < at_start.pos + 3) × (read_n 3 at_start ≡ (at_start, failed short)))
    ⊎ ((at_start.pos + 3 ≤ at_start.stream.end_) × HasRead at_start 3 [] (read_n 3 at_start))
read_n-HasRead_example = read_n-HasRead at_start 3 at_start-Stands

-- The fourth offset carries no byte; the bytes behind it are read on.
takes_five : (take_offsets 5 9 at_start).1 ≡ taken (71 ∷ 69 ∷ 84 ∷ 47 ∷ []) 1
unfolding new_cursor remaining find_from part round_size kept_bytes with_holes take_loop
    take_offsets one_with_duplicates place_all place noted agrees overlap place_missing place_bytes
    place_truncated end_of append append_part join equal_bytes agrees_at add64 sub64
takes_five = refl

takes_two_of_five : (take_offsets 5 2 at_start).1 ≡ taken (71 ∷ 69 ∷ []) 1
unfolding new_cursor remaining find_from part round_size kept_bytes with_holes take_loop
    take_offsets one_with_duplicates place_all place noted agrees overlap place_missing place_bytes
    place_truncated end_of append append_part join equal_bytes agrees_at add64 sub64
takes_two_of_five = refl

peeks_up_to_gap : (peek 5 at_start).1 ≡ 71 ∷ 69 ∷ 84 ∷ []
unfolding new_cursor find_from part round_size peek_loop peek one_with_duplicates place_all place
    noted agrees overlap place_missing place_bytes place_truncated end_of append append_part join
    equal_bytes agrees_at add64 sub64
peeks_up_to_gap = refl

take_offsets-HasTaken_example :
    ((at_start.stream.end_ < at_start.pos + 5)
      × (take_offsets 5 2 at_start ≡ (at_start, missed short)))
    ⊎ ((at_start.pos + 5 ≤ at_start.stream.end_)
        × HasTaken at_start 5 2 [] 0 (take_offsets 5 2 at_start))
take_offsets-HasTaken_example = take_offsets-HasTaken at_start 5 2 at_start-Stands

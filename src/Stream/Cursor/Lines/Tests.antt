-- ===== src/Stream/Cursor/Lines/Tests.antt =====
-- Lines read of concrete streams.
use edge_observer.Prelude.{length, false, arith, ◌+◌, ◌≡◌, refl, [], ◌∷◌, add64, sub64}
use edge_observer.Fragment.{stream_key}
use edge_observer.Stream.{Stream}
use edge_observer.Stream.Parts.{gap_missing, gap_none, validate}
use edge_observer.Stream.Tests.{first_record}
use edge_observer.Stream.Cursor.{Cursor, gap, short, new_cursor, at_end, remaining, find_from, part}
use edge_observer.Http1.Parser.Scan.Reference.{read_bytes}
use edge_observer.Stream.Cursor.Lines.{line_bytes, line_failed, chunk, line_loop, read_line}
use edge_observer.Stream.Cursor.Lines.Chunks.{piece, line_at}
use edge_observer.Stream.Cursor.Lines.Whole.{read_line-line_at}
use edge_observer.Stream.Cursor.Standing.{Stands, new_cursor-Stands}

-- A line whose CRLF two parts divide, and a byte behind it.
abbrev divided : Stream
divided = record {
  key = stream_key first_record;
  parts =
      record { offset = 0; size = 4; gap = gap_none; bytes = 71 ∷ 69 ∷ 84 ∷ 13 ∷ [] }
      ∷ record { offset = 4; size = 2; gap = gap_none; bytes = 10 ∷ 88 ∷ [] }
      ∷ [];
  start = 0;
  end_ = 6;
  conflicts = [];
}

abbrev at_line : Cursor
at_line = new_cursor divided

reads_divided :
    ((read_line 8 at_line).0.pos ≡ 5) × ((read_line 8 at_line).1 ≡ line_bytes (71 ∷ 69 ∷ 84 ∷ []))
unfolding new_cursor at_end remaining find_from part chunk line_loop read_line read_bytes add64
    sub64
reads_divided = (refl, refl)

-- A hole cuts the line, and the end of the stream cuts what follows the line.
abbrev cut_line : Stream
cut_line = record {
  key = stream_key first_record;
  parts =
      record { offset = 0; size = 4; gap = gap_none; bytes = 71 ∷ 69 ∷ 84 ∷ 13 ∷ [] }
      ∷ record { offset = 4; size = 2; gap = gap_missing; bytes = [] }
      ∷ [];
  start = 0;
  end_ = 6;
  conflicts = [];
}

reads_cut :
    ((read_line 8 (new_cursor cut_line)).0.pos ≡ 4)
    × ((read_line 8 (new_cursor cut_line)).1 ≡ line_failed gap)
unfolding new_cursor at_end remaining find_from part chunk line_loop read_line read_bytes add64
    sub64
reads_cut = (refl, refl)

reads_short :
    ((read_line 8 (record at_line { pos = 5 })).0.pos ≡ 6)
    × ((read_line 8 (record at_line { pos = 5 })).1 ≡ line_failed short)
unfolding new_cursor at_end remaining find_from part chunk line_loop read_line read_bytes add64
    sub64
reads_short = (refl, refl)

at_line-Stands : Stands at_line
unfolding validate
at_line-Stands = new_cursor-Stands divided (refl, refl, (refl, refl, refl)) (omega arith)

read_line-line_at_example :
    let (d, outcome) = read_line 8 at_line in
    (d.pos, outcome)
    ≡ line_at 6 (0 + length (piece at_line)) (read_bytes 8 [] false 0 (piece at_line))
unfolding new_cursor
read_line-line_at_example = read_line-line_at 8 at_line at_line-Stands

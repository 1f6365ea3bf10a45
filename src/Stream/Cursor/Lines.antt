-- ===== src/Stream/Cursor/Lines.antt =====
-- stream/cursor.go, `ReadLine`: its loop over the parts of a stream, around the loop over the bytes of
-- one part. It runs on fuel, one more than the offsets that are left, as a round reads one at least.
pub mod Chunks
pub mod Whole
mod Tests
use edge_observer.Prelude.{
  ◌⊎◌, ◌%◌, ℕ, zero, suc, ◌+◌, ◌-◌, ◌≤◌, ◌<◌, ◌≡◌, ◌≢◌, refl, sym, ap, ◌∙◌, Bool, true, false, not,
  ◌&&◌, List, [], ◌∷◌, ◌++◌, Option, none, some, ◌==◌, ltb, leb, if◌then◌else◌, add64, sub64,
  add64-eq, sub64-eq, u64_mod, take, drop, length, length-take, length-drop, length-append, min,
  arith, Bool-cases, inl, inr,
}
use mathlib.Core.List.{append-nil, append_assoc}
use edge_observer.Http1.Parser.Scan.Reference.{
  LineRead, ended, too_long, open_, with_cr, read_bytes,
}
use edge_observer.Stream.Parts.{Part, gap_none, validate}
use edge_observer.Stream.Cover.{Covers}
use edge_observer.Stream.Carried.{Covers-le}
use edge_observer.Stream.{Stream}
use edge_observer.Stream.Cursor.Standing.{Stands, Found, part-some, moved-Stands}
use edge_observer.Stream.Cursor.Peeks.{
  unbroken, unbroken-none, unbroken-bytes, Found-unbroken, full_size, past-unbroken,
}
use edge_observer.Stream.Cursor.{Cursor, Fault, short, gap, part, at_end, remaining}

-- What `ReadLine` returns.
pub data LineOutcome : Type 0 where
  line_bytes : List ℕ → LineOutcome
  line_failed : Fault → LineOutcome
  line_too_long : LineOutcome

-- The bytes of a part from the cursor on.
pub chunk : Cursor → Part → List ℕ
chunk c p = drop (sub64 c.pos p.offset) p.bytes

-- The loop of `ReadLine`.
pub line_loop : ℕ → ℕ → Cursor → List ℕ → Bool → Cursor × LineOutcome
unfolding part at_end chunk
line_loop zero max c line saw_cr = (c, line_failed short)
line_loop (suc fuel) max c line saw_cr =
    if at_end c then (c, line_failed short) else elim (part c).1 [
      | none ↦ ((part c).0, line_failed short)
      | some p ↦
          if not (p.gap == gap_none)
          then ((part c).0, line_failed gap)
          else elim (read_bytes max line saw_cr 0 (chunk c p)) [
            | ended n l ↦ (record ((part c).0) { pos = add64 c.pos n }, line_bytes l)
            | too_long n ↦ (record ((part c).0) { pos = add64 c.pos n }, line_too_long)
            | open_ l cr ↦
                line_loop fuel max (record ((part c).0) { pos = add64 c.pos (length (chunk c p)) })
                  l cr
          ]
    ]

-- `ReadLine`.
pub read_line : ℕ → Cursor → Cursor × LineOutcome
unfolding remaining line_loop
read_line max c = line_loop (remaining c + 1) max c [] false

-- ===== src/Stream/Cursor.antt =====
-- stream/cursor.go: a reader of a stream's offsets in order. The loops of `ReadN`, `Take` and `Peek`
-- run on fuel, the number of offsets that they read: a round with a part reads one at least, and a
-- round without one ends.
pub mod Bytes
pub mod Standing
pub mod Reads
pub mod Present
pub mod Takes
pub mod Peeks
pub mod Lines
mod Tests
use edge_observer.Prelude.{
  ℕ, zero, suc, ◌+◌, ◌-◌, Bool, true, false, not, List, [], ◌∷◌, ◌++◌, Option, none, some, ◌==◌,
  ltb, leb, if◌then◌else◌, add64, sub64, take, drop, length, min,
}
use edge_observer.Stream.Parts.{Part, gap_none}
use edge_observer.Stream.{Stream}

-- `ErrGap`, `ErrShort`.
pub data Fault : Type 0 where
  gap short : Fault

-- What a read returns.
pub data Outcome : Type 0 where
  bytes : List ℕ → Outcome
  failed : Fault → Outcome

-- `Cursor`.
pub record Cursor : Type 0 where
  pub stream : Stream
  pub pos : ℕ
  pub idx : ℕ

-- `NewCursor`.
pub new_cursor : Stream → Cursor
new_cursor s = record { stream = s; pos = s.start; idx = 0 }

-- `Remaining`.
pub remaining : Cursor → ℕ
remaining c = if leb c.stream.end_ c.pos then 0 else sub64 c.stream.end_ c.pos

-- `AtEnd`.
pub at_end : Cursor → Bool
unfolding remaining
at_end c = remaining c == 0

-- The loop of `part`, over the parts from place `idx` on.
pub find_from : ℕ → ℕ → List Part → ℕ × Option Part
find_from pos idx [] = (idx, none)
find_from pos idx (p ∷ ps) =
    let later = find_from pos (idx + 1) ps in
    if ltb pos (add64 p.offset p.size)
    then (idx, if ltb pos p.offset then none else some p)
    else later

-- `part`.
pub part : Cursor → Cursor × Option Part
unfolding find_from
part c =
    let found = find_from c.pos c.idx (drop c.idx c.stream.parts) in
    (record c { idx = found.0 }, found.1)

-- `AtGap`.
pub at_gap : Cursor → Cursor × ℕ × Bool
unfolding part
at_gap c = elim (part c).1 [
  | none ↦ ((part c).0, gap_none, false)
  | some p ↦ ((part c).0, p.gap, not (p.gap == gap_none))
]

-- How many offsets one round of `ReadN` reads of a part.
pub round_size : ℕ → ℕ → Part → ℕ
round_size n pos p = min n (sub64 p.size (sub64 pos p.offset))

-- The loop of `ReadN`.
pub read_loop : ℕ → ℕ → Cursor → List ℕ → Cursor × Outcome
unfolding part round_size
read_loop zero n c out = (c, if n == 0 then bytes out else failed short)
read_loop (suc fuel) n c out = if n == 0 then (c, bytes out) else elim (part c).1 [
  | none ↦ ((part c).0, failed short)
  | some p ↦
      if not (p.gap == gap_none)
      then ((part c).0, failed gap)
      else read_loop fuel (n - round_size n c.pos p)
          (record ((part c).0) { pos = add64 c.pos (round_size n c.pos p) })
          (out ++ take (round_size n c.pos p) (drop (sub64 c.pos p.offset) p.bytes))
]

-- `ReadN`.
pub read_n : ℕ → Cursor → Cursor × Outcome
unfolding remaining read_loop
read_n n c = if ltb (remaining c) n then (c, failed short) else read_loop n n c []

-- What `Take` returns: the bytes kept and the number of holes.
pub data Taking : Type 0 where
  taken : List ℕ → ℕ → Taking
  missed : Fault → Taking

-- The bytes that `Take` keeps of one round of `t` offsets of a part.
pub kept_bytes : ℕ → ℕ → ℕ → Part → List ℕ → List ℕ
kept_bytes keep t pos p data_ =
    if not (p.gap == gap_none)
    then data_
    else if ltb (length data_) keep
    then data_ ++ take (min t (keep - length data_)) (drop (sub64 pos p.offset) p.bytes)
    else data_

-- The holes that it counts.
pub with_holes : ℕ → Part → ℕ → ℕ
with_holes t p holed = if not (p.gap == gap_none) then add64 holed t else holed

-- The loop of `Take`.
pub take_loop : ℕ → ℕ → ℕ → Cursor → List ℕ → ℕ → Cursor × Taking
unfolding part round_size kept_bytes with_holes
take_loop zero n keep c data_ holed = (c, if n == 0 then taken data_ holed else missed short)
take_loop (suc fuel) n keep c data_ holed =
    if n == 0 then (c, taken data_ holed) else elim (part c).1 [
      | none ↦ ((part c).0, missed short)
      | some p ↦
          let t = round_size n c.pos p in
          take_loop fuel (n - t) keep (record ((part c).0) { pos = add64 c.pos t })
            (kept_bytes keep t c.pos p data_) (with_holes t p holed)
    ]

-- `Take`. A negative `keep` is as none.
pub take_offsets : ℕ → ℕ → Cursor → Cursor × Taking
unfolding remaining take_loop
take_offsets n keep c = if ltb (remaining c) n then (c, missed short) else take_loop n n keep c [] 0

-- The loop of `Peek`, for `n` more bytes.
pub peek_loop : ℕ → ℕ → Cursor → List ℕ → List ℕ
unfolding part round_size
peek_loop zero n c out = out
peek_loop (suc fuel) n c out = if leb n (length out) then out else elim (part c).1 [
  | none ↦ out
  | some p ↦
      let t = round_size (n - length out) c.pos p in
      if not (p.gap == gap_none)
      then out
      else peek_loop fuel n (record ((part c).0) { pos = add64 c.pos t })
          (out ++ take t (drop (sub64 c.pos p.offset) p.bytes))
]

-- `Peek`, which leaves the cursor as it was.
pub peek : ℕ → Cursor → Cursor × List ℕ
unfolding peek_loop
peek n c = (c, peek_loop n n c [])

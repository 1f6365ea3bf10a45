-- ===== src/Stream/Cursor/Standing.antt =====
-- Where a cursor stands in its stream, and the part that it finds there.
use edge_observer.Prelude.{
  ℕ, ◌+◌, ◌≤◌, ◌<◌, ◌≡◌, refl, sym, ap, ◌∙◌, List, ◌∷◌, some, sub64, u64_mod, drop, arith,
}
use edge_observer.Stream.Parts.{Part}
use edge_observer.Stream.Cover.{Covers}
use edge_observer.Stream.Carried.{Covers-le}
use edge_observer.Stream.{Stream}
use edge_observer.Stream.Cursor.{Cursor, part, round_size, new_cursor}
use edge_observer.Stream.Cursor.Bytes.{bytes_from, find_from-some, drop-drop}

-- A cursor inside of its stream: the parts from its place on cover what is left and begin no later
-- than it stands, and carry there what the stream carries.
pub record Stands (c : Cursor) : Type 0 where
  pub first : ℕ
  pub reached : first ≤ c.pos
  pub covers : Covers first (drop c.idx c.stream.parts) c.stream.end_
  pub within : c.pos ≤ c.stream.end_
  pub small : c.stream.end_ < u64_mod
  pub carries :
      (o n : ℕ)
      → c.pos ≤ o
      → bytes_from (drop c.idx c.stream.parts) o n ≡ bytes_from c.stream.parts o n

-- The part that a cursor finds.
pub record Found (c : Cursor) : Type 0 where
  pub idx : ℕ
  pub here : Part
  pub rest : List Part
  pub found : part c ≡ (record c { idx = idx }, some here)
  pub left : drop idx c.stream.parts ≡ here ∷ rest
  pub covers : Covers here.offset (here ∷ rest) c.stream.end_
  pub low : here.offset ≤ c.pos
  pub high : c.pos < here.offset + here.size
  pub carries : (o n : ℕ) → c.pos ≤ o → bytes_from (here ∷ rest) o n ≡ bytes_from c.stream.parts o n

pub part-some : (c : Cursor) → Stands c → c.pos < c.stream.end_ → Found c
unfolding part
part-some c v to =
    let (k, p, ps, found, left, cov, lo, hi, bs) =
      find_from-some (drop c.idx c.stream.parts) c.idx v.first c.stream.end_ c.pos v.covers
        v.reached to v.small in
    record {
      idx = c.idx + k;
      here = p;
      rest = ps;
      found = ap (λ r. (record c { idx = r.0 }, r.1)) found;
      left = sym (drop-drop c.idx k c.stream.parts) ∙ left;
      covers = cov;
      low = lo;
      high = hi;
      carries = λ o n h. sym (bs o n h) ∙ v.carries o n h;
    }

pub moved-Stands :
    (c : Cursor) (f : Found c) (pos : ℕ)
    → Stands c
    → c.pos ≤ pos
    → pos ≤ c.stream.end_
    → Stands (record c { idx = f.idx; pos = pos })
moved-Stands c f pos v on fits = record {
  first = f.here.offset;
  reached = omega (arith, f.low);
  covers = rw (f.left) (f.covers);
  within = fits;
  small = v.small;
  carries = λ o n h. rw (f.left) (f.carries o n (omega arith));
}

-- One round reads some offset, of those asked for and of those that the part has left.
pub round_size-bounds :
    (c : Cursor) (f : Found c) (n : ℕ)
    → Stands c
    → 0 < n
    → let t = round_size n c.pos f.here in
      (0 < t) × (t ≤ n) × (c.pos + t ≤ f.here.offset + f.here.size)
unfolding round_size sub64
round_size-bounds c f n v h =
    let end_ = Covers-le _ _ f.rest f.covers.2 in ground (arith, f.low, f.high, v.small)

-- A cursor at the start of a stream whose parts cover its extent stands inside of it.
pub new_cursor-Stands :
    (s : Stream) → Covers s.start s.parts s.end_ → s.end_ < u64_mod → Stands (new_cursor s)
unfolding new_cursor
new_cursor-Stands s cov small = record {
  first = s.start;
  reached = omega arith;
  covers = cov;
  within = Covers-le _ _ s.parts cov;
  small = small;
  carries = λ o n h. refl;
}

-- ===== src/Stream/Cursor/Reads.antt =====
-- What `ReadN` of stream/cursor.go reads, against the bytes that the stream carries.
use edge_observer.Prelude.{
  ◌⊎◌, ℕ, zero, suc, ◌+◌, ◌-◌, ◌≤◌, ◌<◌, ◌≡◌, ◌≢◌, refl, sym, ap, ◌∙◌, false, not, List, [], ◌∷◌,
  ◌++◌, Option, none, some, ◌==◌, ltb, leb, if◌then◌else◌, add64, sub64, add64-eq, sub64-eq, take,
  drop, arith, Bool-cases, inl, inr,
}
use mathlib.Core.List.{append-nil}
use edge_observer.Stream.Parts.{Part, gap_none}
use edge_observer.Stream.Cursor.{
  Cursor, Outcome, bytes, failed, gap, short, remaining, round_size, read_loop, read_n,
}
use edge_observer.Stream.Cursor.Standing.{Stands, Found, part-some, moved-Stands, round_size-bounds}
use edge_observer.Stream.Cursor.Bytes.{
  bytes_from, outcome, behind, outcome-behind, bytes_from-behind,
}

-- What a read of `n` offsets does: its outcome, and the cursor after it.
pub record HasRead (c : Cursor) (n : ℕ) (out : List ℕ) (r : Cursor × Outcome) : Type 0 where
  pub read : r.1 ≡ outcome out (bytes_from c.stream.parts c.pos n)
  pub stands : Stands r.0
  pub stream : r.0.stream ≡ c.stream
  pub moved : (bytes_from c.stream.parts c.pos n ≡ none) ⊎ (r.0.pos ≡ c.pos + n)

bytes_from-hole :
    (p : Part) (ps : List Part) (n pos : ℕ)
    → p.gap ≢ gap_none
    → pos < p.offset + p.size
    → 0 < n
    → bytes_from (p ∷ ps) pos n ≡ none
bytes_from-hole p ps zero pos g h k = absurd (omega (arith, k))
bytes_from-hole p ps (suc n) pos g h k = ground arith

hole-HasRead :
    (c : Cursor) (f : Found c) (n : ℕ) (out : List ℕ)
    → Stands c
    → 0 < n
    → f.here.gap ≢ gap_none
    → HasRead c n out (record c { idx = f.idx }, failed gap)
hole-HasRead c f n out v some_left hole =
    let lost : bytes_from c.stream.parts c.pos n ≡ none =
      sym (f.carries c.pos n (omega arith))
      ∙ bytes_from-hole f.here f.rest n c.pos hole f.high some_left in
    record {
      read = sym (ap (outcome out) lost);
      stands = moved-Stands c f c.pos v (omega arith) v.within;
      stream = refl;
      moved = inl lost;
    }

bytes-HasRead :
    (c : Cursor) (f : Found c) (n t w : ℕ) (out : List ℕ) (r : Cursor × Outcome)
    → t ≤ n
    → c.pos + t ≤ f.here.offset + f.here.size
    → f.here.gap ≡ gap_none
    → w ≡ c.pos - f.here.offset
    → HasRead
        (record c { idx = f.idx; pos = c.pos + t })
        (n - t)
        (out ++ take t (drop w f.here.bytes))
        r
    → HasRead c n out r
bytes-HasRead c f n t w out r part_of inside g same h =
    let all : t + (n - t) ≡ n = omega arith in
    let xs = take t (drop w f.here.bytes) in
    let later = bytes_from c.stream.parts (c.pos + t) (n - t) in
    let split : bytes_from c.stream.parts c.pos n ≡ behind xs later =
      sym (f.carries c.pos n (omega arith))
      ∙ ap (bytes_from (f.here ∷ f.rest) c.pos) (sym all)
      ∙ bytes_from-behind f.here f.rest t (n - t) c.pos f.covers.1 g f.low inside
      ∙ ap (behind _) (f.carries (c.pos + t) (n - t) (omega arith))
      ∙ ap (λ k. behind (take t (drop k f.here.bytes)) later) (sym same) in
    record {
      read = h.read ∙ outcome-behind out xs _ ∙ sym (ap (outcome out) split);
      stands = h.stands;
      stream = h.stream;
      moved = elim h.moved [
        | inl lost ↦ inl (split ∙ ap (behind xs) lost)
        | inr there ↦ inr (omega (arith, there))
      ];
    }

-- One round of the loop, on the part found.
read_loop-suc :
    (fuel n : ℕ) (c : Cursor) (f : Found c) (out : List ℕ)
    → 0 < n
    → let t = round_size n c.pos f.here in
      read_loop (suc fuel) n c out ≡ (
        if not (f.here.gap == gap_none)
        then (record c { idx = f.idx }, failed gap)
        else read_loop fuel
            (n - t)
            (record c { idx = f.idx; pos = add64 c.pos t })
            (out ++ take t (drop (sub64 c.pos f.here.offset) f.here.bytes)))
unfolding read_loop
read_loop-suc fuel n c f out some_left =
    let more : n == 0 ≡ false = ground arith in
    let round : Cursor × Option Part → Cursor × Outcome = λ r. elim r.1 as (λ _. Cursor × Outcome) [
      | none ↦ (r.0, failed short)
      | some p ↦
          if not (p.gap == gap_none)
          then (r.0, failed gap)
          else read_loop fuel (n - round_size n c.pos p)
              (record (r.0) { pos = add64 c.pos (round_size n c.pos p) })
              (out ++ take (round_size n c.pos p) (drop (sub64 c.pos p.offset) p.bytes))
    ] in
    rw more (ap round f.found)

round-HasRead :
    (n : ℕ) (c : Cursor) (f : Found c) (out : List ℕ)
    (next : ℕ → Cursor → List ℕ → Cursor × Outcome)
    → Stands c
    → 0 < n
    → c.pos + n ≤ c.stream.end_
    → ((m : ℕ) (d : Cursor) (xs : List ℕ)
        → m < n
        → Stands d
        → d.pos + m ≤ d.stream.end_
        → HasRead d m xs (next m d xs))
    → let t = round_size n c.pos f.here in
      HasRead c n out (
        if not (f.here.gap == gap_none)
        then (record c { idx = f.idx }, failed gap)
        else next
            (n - t)
            (record c { idx = f.idx; pos = add64 c.pos t })
            (out ++ take t (drop (sub64 c.pos f.here.offset) f.here.bytes)))
round-HasRead n c f out next v some_left fits later =
    let bounds = round_size-bounds c f n v some_left in
    let t = round_size n c.pos f.here in
    let no_wrap : add64 c.pos t ≡ c.pos + t = add64-eq c.pos t (omega (arith, bounds.1, v.small)) in
    let inside : sub64 c.pos f.here.offset ≡ c.pos - f.here.offset =
      sub64-eq c.pos f.here.offset f.low (omega (arith, v.within, v.small)) in
    elim (Bool-cases (f.here.gap == gap_none)) [
      | inr hole ↦ rw hole (hole-HasRead c f n out v some_left (ground arith))
      | inl some_bytes ↦
          rw (some_bytes, no_wrap)
            (bytes-HasRead c f n t _ out _ bounds.1 bounds.2 (ground arith) inside (
              later (n - t) _ _ (omega (arith, bounds.0, bounds.1))
                (moved-Stands c f (c.pos + t) v (omega arith) (omega (arith, bounds.1)))
                (omega (arith, bounds.1))))
    ]

read_loop-zero : (fuel : ℕ) (c : Cursor) (out : List ℕ) → read_loop fuel 0 c out ≡ (c, bytes out)
unfolding read_loop
read_loop-zero zero c out = refl
read_loop-zero (suc fuel) c out = refl

read_loop-HasRead :
    (fuel n : ℕ) (c : Cursor) (out : List ℕ)
    → Stands c
    → n ≤ fuel
    → c.pos + n ≤ c.stream.end_
    → HasRead c n out (read_loop fuel n c out)
read_loop-HasRead fuel zero c out v enough fits = rw (read_loop-zero fuel c out) (record {
  read = ap bytes (sym (append-nil out));
  stands = v;
  stream = refl;
  moved = inr (omega arith);
})
read_loop-HasRead zero (suc n) c out v enough fits = absurd (omega (arith, enough))
read_loop-HasRead (suc fuel) (suc n) c out v enough fits =
    let f = part-some c v (omega arith) in
    rw (read_loop-suc fuel (suc n) c f out (omega arith)) (
      round-HasRead (suc n) c f out (read_loop fuel) v (omega arith) fits
        (λ m d xs less w within. read_loop-HasRead fuel m d xs w (omega arith) within))

-- `ReadN` of a cursor that stands inside of its stream: where fewer offsets are left it is short and
-- the cursor stays; else it returns the bytes that the stream carries at the next `n` offsets, or
-- the gap error exactly where one of them carries none, the cursor stands inside of the same stream
-- still, and after the bytes it stands behind them.
pub read_n-HasRead :
    (c : Cursor) (n : ℕ)
    → Stands c
    → ((c.stream.end_ < c.pos + n) × (read_n n c ≡ (c, failed short)))
      ⊎ ((c.pos + n ≤ c.stream.end_) × HasRead c n [] (read_n n c))
unfolding read_n remaining sub64
read_n-HasRead c n v = elim (Bool-cases (leb (c.pos + n) c.stream.end_)) [
  | inr beyond ↦ inl (ground arith, ground (arith, v.within, v.small))
  | inl fits ↦
      let enough : ltb (remaining c) n ≡ false = ground (arith, v.within, v.small) in
      inr (ground arith, rw enough (read_loop-HasRead n n c [] v (omega arith) (ground arith)))
]

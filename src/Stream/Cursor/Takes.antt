-- ===== src/Stream/Cursor/Takes.antt =====
-- What `Take` of stream/cursor.go keeps and counts, against the bytes that the stream carries.
use edge_observer.Prelude.{
  ◌⊎◌, ℕ, zero, suc, ◌+◌, ◌-◌, ◌≤◌, ◌<◌, ◌≡◌, ◌≢◌, refl, sym, ap, ◌∙◌, false, List, [], ◌∷◌, ◌++◌,
  Option, none, some, ◌==◌, ltb, leb, if◌then◌else◌, add64, sub64, add64-eq, sub64-eq, u64_mod,
  take, drop, length, arith, Bool-cases, inl, inr,
}
use mathlib.Core.Path.{subst}
use mathlib.Core.List.{append-nil}
use edge_observer.Stream.Parts.{Part, gap_none}
use edge_observer.Stream.Cursor.Standing.{Stands, Found, part-some, moved-Stands, round_size-bounds}
use edge_observer.Stream.Cursor.Present.{
  present, holes, kept, present-bytes, present-hole, byte_at-bytes_from, present-same, take-take,
  kept-kept, kept-nil,
}
use edge_observer.Stream.Cursor.{
  Cursor, Taking, taken, missed, short, remaining, round_size, kept_bytes, with_holes, take_loop,
  take_offsets,
}

kept_bytes-kept :
    (keep t pos : ℕ) (p : Part) (out : List ℕ)
    → p.gap ≡ gap_none
    → kept_bytes keep t pos p out ≡ kept keep out (take t (drop (sub64 pos p.offset) p.bytes))
unfolding kept_bytes
kept_bytes-kept keep t pos p out g = elim (Bool-cases (ltb (length out) keep)) [
  | inl room ↦ ground (arith, take-take (keep - length out) t (drop (sub64 pos p.offset) p.bytes))
  | inr full ↦
      let none_left : keep - length out ≡ 0 = ground arith in
      rw none_left (ground (arith, append-nil out))
]

kept_bytes-hole :
    (keep t pos : ℕ) (p : Part) (out : List ℕ)
    → p.gap ≢ gap_none
    → kept_bytes keep t pos p out ≡ out
unfolding kept_bytes
kept_bytes-hole keep t pos p out g = ground arith

with_holes_lem :
    (t holed : ℕ) (p : Part)
    → holed + t < u64_mod
    → with_holes t p holed ≡ (if p.gap == gap_none then holed else holed + t)
unfolding with_holes add64
with_holes_lem t holed p small = ground arith

-- What `Take` of `n` offsets does behind what it has kept and counted already: what it returns, and
-- where the cursor is after it.
pub record HasTaken (c : Cursor) (n keep : ℕ) (out : List ℕ) (holed : ℕ) (r : Cursor × Taking)
    : Type 0 where
  pub took :
      r.1
      ≡ taken
          (kept keep out (present c.stream.parts c.pos n))
          (holed + holes c.stream.parts c.pos n)
  pub stands : Stands r.0
  pub stream : r.0.stream ≡ c.stream
  pub moved : r.0.pos ≡ c.pos + n

-- The bytes present from where the cursor stands on are those of the part found and what follows.
Found-present :
    (c : Cursor) (f : Found c) (pos n : ℕ)
    → c.pos ≤ pos
    → (present (f.here ∷ f.rest) pos n ≡ present c.stream.parts pos n)
      × (holes (f.here ∷ f.rest) pos n ≡ holes c.stream.parts pos n)
Found-present c f pos n on = present-same (f.here ∷ f.rest) c.stream.parts pos n (λ o h.
    byte_at-bytes_from (f.here ∷ f.rest) c.stream.parts o (f.carries o 1 (omega (arith, h))))

-- What one round of `t` offsets keeps and counts.
round-kept :
    (c : Cursor) (f : Found c) (keep t m holed : ℕ) (out : List ℕ)
    → Stands c
    → c.pos + t ≤ f.here.offset + f.here.size
    → holed + t < u64_mod
    → (kept keep (kept_bytes keep t c.pos f.here out) (present c.stream.parts (c.pos + t) m)
        ≡ kept keep out (present c.stream.parts c.pos (t + m)))
      × (with_holes t f.here holed + holes c.stream.parts (c.pos + t) m
          ≡ holed + holes c.stream.parts c.pos (t + m))
round-kept c f keep t m holed out v inside small =
    let here = Found-present c f c.pos (t + m) (omega arith) in
    let later = Found-present c f (c.pos + t) m (omega arith) in
    let within : sub64 c.pos f.here.offset ≡ c.pos - f.here.offset =
      sub64-eq c.pos f.here.offset f.low (omega (arith, v.within, v.small)) in
    let then_ = present c.stream.parts (c.pos + t) m in
    let counted = with_holes_lem t holed f.here small in
    elim (Bool-cases (f.here.gap == gap_none)) [
      | inl some_bytes ↦
          let all = present-bytes f.here f.rest t m c.pos f.covers.1 (ground arith) f.low inside in
          (
            ap (λ (l : List ℕ). kept keep l then_)
                  (kept_bytes-kept keep t c.pos f.here out (ground arith))
                ∙ kept-kept keep out _ then_
                ∙ ap (kept keep out) (
                    ap (λ (w : ℕ). take t (drop w f.here.bytes) ++ then_) within
                    ∙ ap (λ (l : List ℕ). take t (drop (c.pos - f.here.offset) f.here.bytes) ++ l)
                        (sym later.0)
                    ∙ sym all.0
                    ∙ here.0),
            ground (arith, counted, all.1, here.1, later.1),
          )
      | inr hole ↦
          let all = present-hole f.here f.rest t m c.pos (ground arith) inside in
          (
            ap (λ (l : List ℕ). kept keep l then_)
                  (kept_bytes-hole keep t c.pos f.here out (ground arith))
                ∙ ap (kept keep out) (sym later.0 ∙ sym all.0 ∙ here.0),
            ground (arith, counted, all.1, here.1, later.1),
          )
    ]

take_loop-zero :
    (fuel keep : ℕ) (c : Cursor) (out : List ℕ) (holed : ℕ)
    → take_loop fuel 0 keep c out holed ≡ (c, taken out holed)
unfolding take_loop
take_loop-zero zero keep c out holed = refl
take_loop-zero (suc fuel) keep c out holed = refl

-- One round of the loop, on the part found.
take_loop-suc :
    (fuel n keep : ℕ) (c : Cursor) (f : Found c) (out : List ℕ) (holed : ℕ)
    → 0 < n
    → let t = round_size n c.pos f.here in
      take_loop (suc fuel) n keep c out holed
      ≡ take_loop fuel
          (n - t)
          keep
          (record c { idx = f.idx; pos = add64 c.pos t })
          (kept_bytes keep t c.pos f.here out)
          (with_holes t f.here holed)
unfolding take_loop
take_loop-suc fuel n keep c f out holed some_left =
    let more : n == 0 ≡ false = ground arith in
    let round : Cursor × Option Part → Cursor × Taking = λ r. elim r.1 as (λ _. Cursor × Taking) [
      | none ↦ (r.0, missed short)
      | some p ↦
          let t = round_size n c.pos p in
          take_loop fuel (n - t) keep (record (r.0) { pos = add64 c.pos t })
            (kept_bytes keep t c.pos p out) (with_holes t p holed)
    ] in
    rw more (ap round f.found)

round-HasTaken :
    (c : Cursor) (f : Found c) (t m keep : ℕ) (out : List ℕ) (holed : ℕ) (r : Cursor × Taking)
    → Stands c
    → c.pos + t ≤ f.here.offset + f.here.size
    → holed + t < u64_mod
    → HasTaken
        (record c { idx = f.idx; pos = c.pos + t })
        m
        keep
        (kept_bytes keep t c.pos f.here out)
        (with_holes t f.here holed)
        r
    → HasTaken c (t + m) keep out holed r
round-HasTaken c f t m keep out holed r v inside small h =
    let both = round-kept c f keep t m holed out v inside small in
    record {
      took =
          h.took
          ∙ ap
              (λ (k : List ℕ).
                taken k (with_holes t f.here holed + holes c.stream.parts (c.pos + t) m))
              both.0
          ∙ ap (taken (kept keep out (present c.stream.parts c.pos (t + m)))) both.1;
      stands = h.stands;
      stream = h.stream;
      moved = omega (arith, h.moved);
    }

HasTaken-n :
    (c : Cursor) (n m keep : ℕ) (out : List ℕ) (holed : ℕ) (r : Cursor × Taking)
    → m ≡ n
    → HasTaken c m keep out holed r
    → HasTaken c n keep out holed r
HasTaken-n c n m keep out holed r e = subst (λ (k : ℕ). HasTaken c k keep out holed r) e

take_loop-HasTaken :
    (fuel n keep : ℕ) (c : Cursor) (out : List ℕ) (holed : ℕ)
    → Stands c
    → n ≤ fuel
    → c.pos + n ≤ c.stream.end_
    → holed + n < u64_mod
    → HasTaken c n keep out holed (take_loop fuel n keep c out holed)
take_loop-HasTaken fuel zero keep c out holed v enough fits small =
    rw (take_loop-zero fuel keep c out holed) (record {
      took =
          let none_more : holed ≡ holed + 0 = omega arith in
          ap (λ (l : List ℕ). taken l holed) (sym (kept-nil keep out))
          ∙ ap (taken (kept keep out [])) none_more;
      stands = v;
      stream = refl;
      moved = omega arith;
    })
take_loop-HasTaken zero (suc n) keep c out holed v enough fits small =
    absurd (omega (arith, enough))
take_loop-HasTaken (suc fuel) (suc n) keep c out holed v enough fits small =
    let f = part-some c v (omega arith) in
    let t = round_size (suc n) c.pos f.here in
    let bounds = round_size-bounds c f (suc n) v (omega arith) in
    let no_wrap : add64 c.pos t ≡ c.pos + t = add64-eq c.pos t (omega (arith, bounds.1, v.small)) in
    let all : t + (suc n - t) ≡ suc n = omega (arith, bounds.1) in
    let left_small : with_holes t f.here holed + (suc n - t) < u64_mod =
      ground (arith, with_holes_lem t holed f.here (omega (arith, bounds.1)), bounds.1) in
    let later =
      take_loop-HasTaken fuel (suc n - t) keep (record c { idx = f.idx; pos = c.pos + t })
        (kept_bytes keep t c.pos f.here out) (with_holes t f.here holed)
        (moved-Stands c f (c.pos + t) v (omega arith) (omega (arith, bounds.1)))
        (omega (arith, bounds.0, bounds.1)) (omega (arith, bounds.1)) left_small in
    rw (take_loop-suc fuel (suc n) keep c f out holed (omega arith), no_wrap)
      (HasTaken-n c (suc n) (t + (suc n - t)) keep out holed _ all (
        round-HasTaken c f t (suc n - t) keep out holed _ v bounds.2 (omega (arith, bounds.1))
          later))

-- `Take` of a cursor that stands inside of its stream: where fewer offsets are left it is short and
-- the cursor stays; else it returns the first `keep` of the bytes that the stream carries at the
-- next `n` offsets, and as many holes as there are offsets without one, and the cursor stands `n`
-- offsets on in the same stream.
pub take_offsets-HasTaken :
    (c : Cursor) (n keep : ℕ)
    → Stands c
    → ((c.stream.end_ < c.pos + n) × (take_offsets n keep c ≡ (c, missed short)))
      ⊎ ((c.pos + n ≤ c.stream.end_) × HasTaken c n keep [] 0 (take_offsets n keep c))
unfolding take_offsets remaining sub64
take_offsets-HasTaken c n keep v = elim (Bool-cases (leb (c.pos + n) c.stream.end_)) [
  | inr beyond ↦ inl (ground arith, ground (arith, v.within, v.small))
  | inl fits ↦
      let enough : ltb (remaining c) n ≡ false = ground (arith, v.within, v.small) in
      inr (
        ground arith,
        rw enough (
            take_loop-HasTaken n n keep c [] 0 v (omega arith) (ground arith)
              (ground (arith, v.small))),
      )
]

-- ===== src/Http1/Parser/Rounds/Total.antt =====
-- http1/parser.go, `Feed`: its loop ends, and the parser stands in the part it read.
use edge_observer.Prelude.{max_u64}
use edge_observer.Prelude.{
  ℕ, zero, suc, ◌+◌, ◌-◌, ◌*◌, ◌≤◌, ◌<◌, ◌≡◌, refl, sym, ap, inl, inr, Bool, true, false, not, List,
  [], ◌∷◌, Option, none, some, arith, ltb, ◌==◌, if◌then◌else◌, length, drop, length-drop,
  Bool-cases,
}
use edge_observer.Stream.Parts.{Part, gap_none, validate}
use edge_observer.Http1.Parser.{Result, Parser, Progress}
use edge_observer.Http1.Parser.Input.{read_bytes}
use edge_observer.Http1.Parser.Feed.{
  Fed, used_up, returned, round, read_hole, rounds, started_at, is_open, is_waiting, feed_admitted,
  feed, Fault, still_waiting, Outcome, not_taken, fed, admit,
}
use edge_observer.Http1.Parser.Rounds.{rank, rank-le, ReadsOn, read_in-ReadsOn, hole_in-ReadsOn}

-- A part has a byte for each offset, unless it is a hole.
abbrev pub IsWhole : Part → Type 0
IsWhole part = ((part.gap == gap_none) ≡ true → length part.bytes ≡ part.size)

bytes-ReadsOn : (xs : List ℕ) (p : Parser) → 0 < length xs → ReadsOn (length xs) p (read_bytes xs p)
unfolding read_bytes
bytes-ReadsOn [] p h = absurd (omega arith)
bytes-ReadsOn (b ∷ bs) p h = read_in-ReadsOn p.phase b bs p refl

abbrev pub StandsIn : Part → Parser → Type 0
StandsIn part p = (part.offset ≤ p.next) × (p.next ≤ part.offset + part.size)

round-bytes :
    (part : Part) (p : Parser)
    → (part.gap == gap_none) ≡ true
    → round part p ≡ read_bytes (drop (p.next - part.offset) part.bytes) p
unfolding round
round-bytes part p e =
    ap
      (λ (b : Bool).
        if not b
        then read_hole (part.offset + part.size - p.next) p
        else read_bytes (drop (p.next - part.offset) part.bytes) p)
      e

round-hole :
    (part : Part) (p : Parser)
    → (part.gap == gap_none) ≡ false
    → round part p ≡ read_hole (part.offset + part.size - p.next) p
unfolding round
round-hole part p e =
    ap
      (λ (b : Bool).
        if not b
        then read_hole (part.offset + part.size - p.next) p
        else read_bytes (drop (p.next - part.offset) part.bytes) p)
      e

hole-ReadsOn : (n : ℕ) (p : Parser) → 0 < n → ReadsOn n p (read_hole n p)
unfolding read_hole
hole-ReadsOn n p h = hole_in-ReadsOn p.phase n p h refl

round-ReadsOn :
    (part : Part) (p : Parser)
    → IsWhole part
    → StandsIn part p
    → p.next < part.offset + part.size
    → ReadsOn (part.offset + part.size - p.next) p (round part p)
round-ReadsOn part p w (l, u) h = elim (Bool-cases (part.gap == gap_none)) [
  | inl e ↦
      rw (round-bytes part p e, sym (left e))
        (bytes-ReadsOn (drop (p.next - part.offset) part.bytes) p (omega (arith, left e)))
  | inr e ↦
      rw (round-hole part p e) (hole-ReadsOn (part.offset + part.size - p.next) p (omega arith))
]
  where
    left :
        (part.gap == gap_none) ≡ true
        → length (drop (p.next - part.offset) part.bytes) ≡ part.offset + part.size - p.next
    left e = omega (arith, w e, length-drop (p.next - part.offset) part.bytes)

-- What the loop comes to: the parser stands in the part, at what it has read of it.
abbrev pub Comes : Part → Parser → Option Fed → Type 0
Comes part p none = ⊥
Comes part p (some r) =
    (p.next ≤ r.parser.next)
    × (r.parser.next ≤ part.offset + part.size)
    × (part.offset + r.progress.consumed ≡ r.parser.next)

returned_lem :
    (part : Part) (p q : Parser) (e : Progress)
    → StandsIn part p
    → p.next ≤ q.next
    → q.next ≤ part.offset + part.size
    → Comes part p (some (returned part e q))
returned_lem part p q e (l, u) a b = ground arith

event_lem :
    (part : Part) (p q : Parser) (e : Option Progress) (more : Option Fed)
    → StandsIn part p
    → p.next ≤ q.next
    → q.next ≤ part.offset + part.size
    → (e ≡ none → Comes part q more)
    → Comes part p (elim e [ none ↦ more | some e ↦ some (returned part e q) ])
event_lem part p q none none i a b h = h refl
event_lem part p q none (some r) i a b h = ground (arith, h refl)
event_lem part p q (some e) more i a b h = returned_lem part p q e i a b

used_up_lem :
    (part : Part) (p : Parser) (b : Bool) (more : Option Fed)
    → (b ≡ false → p.next ≡ part.offset + part.size)
    → (b ≡ true → Comes part p more)
    → Comes part p (if not b then some (used_up part Result.need_input p) else more)
used_up_lem part p true more d m = m refl
used_up_lem part p false more d m = (omega arith, omega (arith, d refl), omega (arith, d refl))

rounds_lem :
    (fuel : ℕ) (part : Part) (p : Parser)
    → IsWhole part
    → StandsIn part p
    → 2 * (part.offset + part.size - p.next) + rank p.phase < fuel
    → Comes part p (rounds fuel part p)
unfolding rounds
rounds_lem zero part p w i h = omega arith
rounds_lem (suc fuel) part p w i h =
    used_up_lem part p (ltb p.next (part.offset + part.size)) _ (λ done. ground (arith, i))
      (λ more.
        let (a, b, m) = round-ReadsOn part p w i (ground arith) in
        event_lem part p (round part p).parser (round part p).event
          (rounds fuel part (round part p).parser) i a (ground (arith, i, b))
          (λ e.
            rounds_lem fuel part (round part p).parser w
              (ground (arith, i, a), ground (arith, i, b)) (ground (arith, i, a, b, m, e))))

-- What a part that is admitted is like.
abbrev Admitted : Part → Parser → Type 0
Admitted part p =
    IsWhole part × (part.offset + part.size ≤ max_u64) × (p.started ≡ true → part.offset ≡ p.next)

admit_lem : (part : Part) (p : Parser) → part.size ≤ max_u64 → admit part p ≡ none → Admitted part p
unfolding admit validate
admit_lem part p u e = ground arith

-- What `Feed` comes to: it returns, and says how much of the part it has taken.
abbrev pub Returns : Part → Option Outcome → Type 0
Returns part none = ⊥
Returns part (some (not_taken f)) = Unit
Returns part (some (fed r)) =
    (r.progress.consumed ≤ part.size)
    × (part.offset + r.progress.consumed ≡ r.parser.next)
    × (r.parser.next ≤ max_u64)

Comes-Returns :
    (part : Part) (p : Parser) (o : Option Fed)
    → part.offset ≤ p.next
    → part.offset + part.size ≤ max_u64
    → Comes part p o
    → Returns part (elim o [ none ↦ none | some r ↦ some (fed r) ])
Comes-Returns part p none a b h = h
Comes-Returns part p (some r) a b h = ground arith

waiting_lem :
    (part : Part) (p : Parser) (b : Bool) (o : Option Fed)
    → part.offset ≡ p.next
    → Comes part p o
    → Comes part p (if b then some (still_waiting p) else o)
waiting_lem part p true o e h = ground arith
waiting_lem part p false o e h = h

stopped_lem :
    (part : Part) (p : Parser) (b : Bool) (o : Option Fed)
    → part.offset ≡ p.next
    → Comes part p o
    → Comes part p
        (if not b then some (used_up part p.stop (record p { next = p.next + part.size })) else o)
stopped_lem part p true o e h = h
stopped_lem part p false o e h = ground arith

feed_admitted_lem :
    (part : Part) (p : Parser)
    → IsWhole part
    → part.offset ≡ p.next
    → Comes part p (feed_admitted part p)
unfolding feed_admitted
feed_admitted_lem part p w e = stopped_lem part p (is_open p.stop) _ e (
    waiting_lem part p (is_waiting p.phase) _ e (
      rounds_lem (2 * part.size + 2) part p w (omega arith, omega arith)
        (omega (arith, rank-le p.phase))))

started_at-next :
    (part : Part) (p : Parser)
    → (p.started ≡ true → part.offset ≡ p.next)
    → part.offset ≡ (started_at part p).next
started_at-next part p h = ground arith

outcome-Returns :
    (part : Part) (p : Parser) (o : Option Fault)
    → (o ≡ none → Admitted part p)
    → Returns part (elim o [
      | some f ↦ some (not_taken f)
      | none ↦ elim (feed_admitted part (started_at part p)) [ none ↦ none | some r ↦ some (fed r) ]
    ])
outcome-Returns part p (some f) a = tt
outcome-Returns part p none a =
    let (w, b, s) = a refl in
    Comes-Returns part (started_at part p) (feed_admitted part (started_at part p))
      (omega (arith, started_at-next part p s)) b
      (feed_admitted_lem part (started_at part p) w (started_at-next part p s))

-- `Feed` returns on every part, and what it takes of the part it tells by `Consumed`: the parser
-- then stands so many offsets into the part, and no offset passes 2^64.
pub feed-Returns : (part : Part) (p : Parser) → part.size ≤ max_u64 → Returns part (feed part p)
unfolding feed
feed-Returns part p u = outcome-Returns part p (admit part p) (admit_lem part p u)

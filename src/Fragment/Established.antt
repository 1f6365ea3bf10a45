-- ===== src/Fragment/Established.antt =====
-- What valid evidence establishes about the positions of a connection.
use edge_observer.Prelude.{
  ℕ, ◌≤◌, ◌≡◌, ◌≢◌, true, false, none, arith, ◌==◌, ◌⊎◌, inl, inr, Bool-cases,
}
use edge_observer.Fragment.Positions.{
  Direction, sent, received, neither, DirectionEvidence, Evidence, established, established_in,
  of_direction, taken, validate_direction, direction_fault, directions_fault, validate_evidence,
  origin_unestablished, is_valid_direction,
}
use edge_observer.Fragment.{Record, validate, evidenced, own_fault, bound_fault, end_of}

-- One direction of valid evidence: it establishes no offset past its limit, and without a cut
-- exactly its limit, with nothing lost and every number from one through the highest it saw
-- resolved, the first of them being one where it saw any.
pub record IsEstablished (d : DirectionEvidence) : Type 0 where
  pub bounded : established_in d ≤ d.limit
  pub whole : d.cut ≡ false → established_in d ≡ d.limit
  pub nothing_lost : d.cut ≡ false → (d.lost ≡ 0) × (d.lost_uncounted ≡ false)
  pub all_resolved : d.cut ≡ false → d.resolved ≡ d.numbered
  pub from_one : d.resolved ≢ 0 → d.first ≡ 1
  pub seen : d.resolved ≤ d.numbered

validate_direction-IsEstablished :
    (d : DirectionEvidence) → validate_direction d ≡ none → IsEstablished d
unfolding validate_direction established_in
validate_direction-IsEstablished d h = ground arith

direction_fault-IsEstablished :
    (origin : ℕ) (d : DirectionEvidence)
    → direction_fault origin d ≡ none
    → IsEstablished d × (origin ≡ origin_unestablished → established_in d ≡ 0)
unfolding direction_fault established_in
direction_fault-IsEstablished origin d h =
    (validate_direction-IsEstablished d (ground arith), λ e. ground arith)

-- Of evidence that passes its check, in either direction: it establishes no offset past its limit,
-- and without a cut exactly its limit, with nothing lost and every number from one through the
-- highest it saw resolved; a connection whose origin is not established has no offset established.
validate_evidence-IsEstablished :
    (e : Evidence) (d : Direction)
    → validate_evidence e ≡ none
    → is_valid_direction d ≡ true
    → IsEstablished (of_direction e d)
      × (e.origin ≡ origin_unestablished → established e d ≡ 0)
      × (established e d ≡ established_in (of_direction e d))
unfolding validate_evidence directions_fault of_direction established
validate_evidence-IsEstablished e sent h v =
    let f = direction_fault-IsEstablished e.origin e.sent (ground arith) in
    (f.0, (λ o. ground (arith, f.1 o)), ground arith)
validate_evidence-IsEstablished e received h v =
    let f = direction_fault-IsEstablished e.origin e.received (ground arith) in
    (f.0, (λ o. ground (arith, f.1 o)), ground arith)
validate_evidence-IsEstablished e neither h v = cc

cut_below : (d : DirectionEvidence) → d.cut ≡ true → established_in d ≡ d.from
unfolding established_in
cut_below d c = ground arith

validate_parts :
    (r : Record)
    → validate r ≡ none
    → taken r.evidence ≡ true
    → (validate_evidence r.evidence ≡ none) × (is_valid_direction r.direction ≡ true)
unfolding validate bound_fault
validate_parts r h t = (ground arith, ground arith)

-- What a record that passes `Evidenced` establishes in its own direction: nothing past its end;
-- either the direction is cut, or what is established is the record's end exactly, the producer
-- numbered the record, and its number is both the last resolved and the highest seen; and either the
-- producer numbered the record or no byte of it is established.
pub evidenced_establishes :
    (r : Record)
    → evidenced r ≡ none
    → let own = of_direction r.evidence r.direction in
      (established r.evidence r.direction ≤ end_of r)
      × ((own.cut ≡ true)
          ⊎ ((established r.evidence r.direction ≡ end_of r)
              × (r.produced ≢ 0)
              × (own.resolved ≡ r.produced)
              × (own.numbered ≡ r.produced)))
      × ((r.produced ≢ 0) ⊎ (established r.evidence r.direction ≤ r.offset))
unfolding evidenced own_fault
evidenced_establishes r h =
    let t : taken r.evidence ≡ true = ground arith in
    let v : validate r ≡ none = ground arith in
    let (e, d) = validate_parts r v t in
    let (own, _, same) = validate_evidence-IsEstablished r.evidence r.direction e d in
    (
      ground (arith, own.bounded, same),
      elim (Bool-cases (of_direction r.evidence r.direction).cut) [
        | inl c ↦ inl c
        | inr c ↦ inr (
          ground (arith, own.whole c, same),
          ground arith,
          ground arith,
          ground (arith, own.all_resolved c),
        )
      ],
      elim (Bool-cases (r.produced == 0)) [
        | inr p ↦ inl (ground arith)
        | inl p ↦ inr (ground (arith, same, cut_below (of_direction r.evidence r.direction)))
      ],
    )

-- ===== src/Connection/Agrees/Kept.antt =====
-- connection/evidence.go: what a record that agrees with evidence keeps of it.
use edge_observer.Prelude.{
  ℕ, ◌≤◌, ◌<◌, ◌≡◌, Bool, true, false, Option, none, some, ltb, arith, Option-cases, inl, inr, ◌⊎◌,
  Bool-cases, inl, inr, ◌⊎◌, Bool-cases,
}
use edge_observer.Fragment.Positions.{
  Direction, Evidence, DirectionEvidence, of_direction, established, established_in, taken,
  validate_evidence, is_valid_direction, Identity,
}
use edge_observer.Connection.Placement.{Placement, placeable}
use edge_observer.Connection.Record.{Record, placement}
use edge_observer.Connection.Agrees.{
  agrees, agrees_in, uncut_fault, cut_fault, directions_fault, identity_fault,
}

-- What a record says of an offset of a direction: nothing, where it places none of the direction.
unfoldable pub says : Option Placement → ℕ → Option Bool
says none o = none
says (some p) o = some (placeable p o)

-- The two sides of a direction's evidence, at an offset.
agrees_in_below :
    (r : Record) (d : Direction) (held : DirectionEvidence) (o : ℕ)
    → agrees_in r d held ≡ none
    → o < established_in held
    → says (placement r d) o ≡ some true
unfolding agrees_in uncut_fault cut_fault established_in says placeable
agrees_in_below r d held o h lt = ground arith

agrees_in_above :
    (r : Record) (d : Direction) (held : DirectionEvidence) (o : ℕ)
    → agrees_in r d held ≡ none
    → held.cut ≡ true
    → held.from ≤ o
    → says (placement r d) o ≡ some false
unfolding agrees_in uncut_fault cut_fault says placeable
agrees_in_above r d held o h c le = ground arith

has_identity : (e : Evidence) → validate_evidence e ≡ none → (i : Identity) × (e.identity ≡ some i)
unfolding validate_evidence
has_identity e h = elim (Option-cases e.identity) [
  | inl n ↦ absurd (ground arith)
  | inr (i, eq) ↦ (i, eq)
]

agrees_directions : (r : Record) (e : Evidence) → agrees r e ≡ none → directions_fault r e ≡ none
unfolding agrees
agrees_directions r e h =
    let v : validate_evidence e ≡ none = ground arith in
    let (i, eq) = has_identity e v in ground arith

-- What agrees at all agrees in each direction.
agrees_each :
    (r : Record) (e : Evidence) (d : Direction)
    → agrees r e ≡ none
    → is_valid_direction d ≡ true
    → agrees_in r d (of_direction e d) ≡ none
unfolding directions_fault
agrees_each r e Direction.neither h v = absurd (ground arith)
agrees_each r e Direction.sent h v = ground (arith, agrees_directions r e)
agrees_each r e Direction.received h v = ground (arith, agrees_directions r e)

agrees_taken : (r : Record) (e : Evidence) → agrees r e ≡ none → taken e ≡ true
unfolding agrees validate_evidence
agrees_taken r e h = elim (Bool-cases (taken e)) [ inl t ↦ t | inr n ↦ absurd (ground arith) ]

counted :
    (r : Record) (e : Evidence) (i : Identity)
    → identity_fault r e i ≡ none
    → e.through ≤ r.fragments.value
unfolding identity_fault
counted r e i h = elim (Bool-cases (ltb r.fragments.value e.through)) [
  | inl lt ↦ absurd (ground arith)
  | inr ge ↦ ground arith
]

agrees_counts : (r : Record) (e : Evidence) → agrees r e ≡ none → e.through ≤ r.fragments.value
unfolding agrees
agrees_counts r e h =
    let v : validate_evidence e ≡ none = ground arith in
    let (i, eq) = has_identity e v in counted r e i (ground arith)

placed :
    (r : Record) (e : Evidence) (d : Direction) (o : ℕ)
    → taken e ≡ true
    → agrees_in r d (of_direction e d) ≡ none
    → (says (placement r d) o ≡ some (ltb o (established e d)))
      ⊎ (((of_direction e d).cut ≡ false) × (established e d ≤ o))
unfolding established established_in
placed r e d o t a =
    ground
      (arith, agrees_in_below r d (of_direction e d) o, agrees_in_above r d (of_direction e d) o)

-- A record that agrees with evidence of its connection counts the fragments that the evidence
-- describes, and in either direction an offset is placeable exactly where the evidence had
-- established it, unless the evidence was not cut there and the offset is at or past its limit.
pub agrees-established :
    (r : Record) (e : Evidence) (d : Direction) (o : ℕ)
    → agrees r e ≡ none
    → is_valid_direction d ≡ true
    → (e.through ≤ r.fragments.value)
      × ((says (placement r d) o ≡ some (ltb o (established e d)))
          ⊎ (((of_direction e d).cut ≡ false) × (established e d ≤ o)))
agrees-established r e d o h v =
    (agrees_counts r e h, placed r e d o (agrees_taken r e h) (agrees_each r e d h v))

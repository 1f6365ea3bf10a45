-- ===== src/Connection/Record.antt =====
-- connection/record.go: the record of a connection and its check. Its delivery slot and loss token travel unread
-- and are left out; `Gate` and `Held` model them. An int64 count is the uint64 of the same bits.
pub mod Joins
use edge_observer.Prelude.{
  ℕ, Bool, true, false, not, ◌&&◌, ◌||◌, List, [], ◌∷◌, Option, none, some, ◌==◌, ltb, leb,
  if◌then◌else◌, is_none, add64,
}
use edge_observer.Prelude.Int.{ℤ, pos, eq_ℤ}
use edge_observer.Admission.{Instance, key, same_key, same_namespace}
use edge_observer.Fragment.Positions.{
  Process, Direction, sent, received, Evidence, DirectionEvidence, Identity, of_direction,
  validate_evidence, same_process,
}
use edge_observer.Connection.{Count}
use edge_observer.Connection.Binding as Binding
use edge_observer.Connection.Placement as Placement
use edge_observer.Connection.Binding.{
  Netns, Association, joinable, Handle, validate_handle, validate_association,
}
use edge_observer.Connection.Placement.{
  Placement, whole, is_unknown_from, is_unknown_throughout, validate_placement,
}

-- `Ending`.
pub data Ending : Type 0 where
  unset still_open handle_released_ending socket_closed ending_unobserved : Ending
  ending_unestablished : Ending

-- The endings that name a time.
abbrev has_time : Ending → Bool
has_time Ending.unset = true
has_time handle_released_ending = true
has_time socket_closed = true
has_time _ = false

abbrev is_ending_unset : Ending → Bool
is_ending_unset Ending.unset = true
is_ending_unset _ = false

-- `Early`.
pub record Early : Type 0 where
  pub direction : Direction
  pub offset : ℕ
  pub size : ℕ

-- `Record`.
pub record Record : Type 0 where
  pub id : ℕ
  pub handle : Handle
  pub instance_ : Instance
  pub process : Process
  pub network : Netns
  pub first_seen : Option ℕ
  pub opened : Option ℕ
  pub opened_known : Bool
  pub ended : Option ℕ
  pub how : Ending
  pub associations : List Association
  pub placements : List Placement
  pub fragments : Count
  pub early : List Early
  pub early_unmeasured : ℕ

-- `==` on directions.
abbrev pub same_direction : Direction → Direction → Bool
same_direction Direction.neither Direction.neither = true
same_direction sent sent = true
same_direction received received = true
same_direction _ _ = false

-- The loops of `Record.Association` and `Record.Placement`.
unfoldable pub find_association : List Association → Direction → Option Association
find_association [] d = none
find_association (a ∷ rest) d =
    let later = find_association rest d in if same_direction a.direction d then some a else later

unfoldable pub find_placement : List Placement → Direction → Option Placement
find_placement [] d = none
find_placement (p ∷ ps) d =
    let later = find_placement ps d in if same_direction p.direction d then some p else later

-- `Record.Association`, `Record.Placement`.
abbrev pub association : Record → Direction → Option Association
association r d = find_association r.associations d

abbrev pub placement : Record → Direction → Option Placement
placement r d = find_placement r.placements d

-- `Record.Joinable`.
unfoldable pub is_joinable : Record → Direction → Bool
unfolding find_association
is_joinable r d = elim (association r d) [ none ↦ false | some a ↦ joinable a ]

-- `Record.Placeable`.
unfoldable pub is_placeable : Record → Direction → Bool
unfolding find_placement
is_placeable r d = elim (placement r d) [ none ↦ true | some p ↦ whole p ]

-- What `Validate` answers.
pub data Fault : Type 0 where
  no_id unseen opened_unnamed no_ending no_end : Fault
  in_handle : Binding.Fault → Fault
  foreign_association twice_associated : Fault
  in_association : Binding.Fault → Fault
  foreign_placement twice_placed : Fault
  in_placement : Placement.Fault → Fault

-- A direction that a map of those seen holds.
unfoldable pub has_direction : List Direction → Direction → Bool
has_direction [] d = false
has_direction (x ∷ xs) d = same_direction x d || has_direction xs d

-- The loops of `Record.Validate` over the associations and over the placements.
unfoldable pub associations_fault : ℕ → List Direction → List Association → Option Fault
unfolding has_direction
associations_fault id seen [] = none
associations_fault id seen (a ∷ later) =
    let rest = associations_fault id (a.direction ∷ seen) later in
    if not (a.connection == id)
    then some foreign_association
    else if has_direction seen a.direction
    then some twice_associated
    else elim (validate_association a) [ some e ↦ some (in_association e) | none ↦ rest ]

unfoldable pub placements_fault : ℕ → List Direction → List Placement → Option Fault
unfolding has_direction
placements_fault id placed [] = none
placements_fault id placed (p ∷ ps) =
    let rest = placements_fault id (p.direction ∷ placed) ps in
    if not (p.connection == id)
    then some foreign_placement
    else if has_direction placed p.direction
    then some twice_placed
    else elim (validate_placement p) [ some e ↦ some (in_placement e) | none ↦ rest ]

-- What `Record.Validate` checks before its loops.
lifetime_fault : Record → Option Fault
lifetime_fault r =
    if is_none r.first_seen
    then some unseen
    else if r.opened_known && is_none r.opened
    then some opened_unnamed
    else if is_ending_unset r.how
    then some no_ending
    else if has_time r.how && is_none r.ended
    then some no_end
    else none

-- `Record.Validate`.
unfoldable pub validate : Record → Option Fault
unfolding lifetime_fault associations_fault placements_fault
validate r = if r.id == 0 then some no_id else elim (validate_handle r.handle) [
  | some e ↦ some (in_handle e)
  | none ↦ elim (lifetime_fault r) [
    | some e ↦ some e
    | none ↦ elim (associations_fault r.id [] r.associations) [
      | some e ↦ some e
      | none ↦ placements_fault r.id [] r.placements
    ]
  ]
]

-- ===== src/Connection/Placement.antt =====
-- connection/placement.go: how far one direction of a connection can be placed in a stream.
use edge_observer.Prelude.{
  ℕ, Bool, true, false, not, ◌&&◌, Option, none, some, ◌==◌, ltb, if◌then◌else◌,
}
use edge_observer.Fragment.Positions.{Direction, is_valid_direction}
use edge_observer.Connection.Binding.{Reason, is_unset}
use edge_observer.Connection.{Count}

-- `Positions`.
pub data Positions : Type 0 where
  unset established unknown_from unknown_throughout : Positions

-- `Placement`.
pub record Placement : Type 0 where
  pub connection : ℕ
  pub direction : Direction
  pub positions : Positions
  pub from : ℕ
  pub because : Reason
  pub lost : Count

-- `Placement.Placeable`.
unfoldable pub placeable : Placement → ℕ → Bool
placeable p offset = elim p.positions [
  | Positions.established ↦ true
  | unknown_from ↦ ltb offset p.from
  | _ ↦ false
]

abbrev pub is_whole : Positions → Bool
is_whole Positions.established = true
is_whole _ = false

abbrev pub is_unknown_from : Positions → Bool
is_unknown_from unknown_from = true
is_unknown_from _ = false

abbrev pub is_unknown_throughout : Positions → Bool
is_unknown_throughout unknown_throughout = true
is_unknown_throughout _ = false

abbrev is_unset_positions : Positions → Bool
is_unset_positions Positions.unset = true
is_unset_positions _ = false

-- `Placement.Whole`.
abbrev pub whole : Placement → Bool
whole p = is_whole p.positions

-- What the check answers.
pub data Fault : Type 0 where
  no_direction no_positions whole_with_reason no_reason foreign_from : Fault

-- `Placement.Validate`.
unfoldable pub validate_placement : Placement → Option Fault
validate_placement p =
    if not (is_valid_direction p.direction)
    then some no_direction
    else if is_unset_positions p.positions
    then some no_positions
    else if whole p && not (is_unset p.because)
    then some whole_with_reason
    else if not (whole p) && is_unset p.because
    then some no_reason
    else if not (is_unknown_from p.positions) && not (p.from == 0)
    then some foreign_from
    else none

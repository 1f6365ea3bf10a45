-- ===== src/Fragment/Positions.antt =====
-- fragment/evidence.go: what capture had established about a connection at one of its fragments.
use edge_observer.Prelude.{
  ℕ, Bool, true, false, not, ◌&&◌, ◌||◌, Option, none, some, ◌==◌, ltb, leb, if◌then◌else◌,
}
use edge_observer.Prelude.Int.{ℤ, pos, leb_ℤ, eq_ℤ}
use edge_observer.Admission.{Instance}

-- `Direction`; `neither` is any value but the two that records carry.
pub data Direction : Type 0 where
  neither sent received : Direction

-- `Process`.
pub record Process : Type 0 where
  pub pid : ℤ
  pub start_time : ℕ

abbrev pub same_process : Process → Process → Bool
same_process a b = eq_ℤ a.pid b.pid && a.start_time == b.start_time

abbrev pub is_valid_direction : Direction → Bool
is_valid_direction sent = true
is_valid_direction received = true
is_valid_direction neither = false

abbrev pub is_sent : Direction → Bool
is_sent sent = true
is_sent _ = false

-- `Origin`: a uint8 with these values; larger ones name none.
abbrev pub origin_unset : ℕ
origin_unset = 0

abbrev pub origin_birth : ℕ
origin_birth = 1

abbrev pub origin_first_recorded : ℕ
origin_first_recorded = 2

abbrev pub origin_unestablished : ℕ
origin_unestablished = 3

-- `Identity`.
pub record Identity : Type 0 where
  pub connection : ℕ
  pub process : Process
  pub instance_ : Instance
  pub address : ℕ
  pub generation : ℕ
  pub network_device : ℕ
  pub network_inode : ℕ
  pub first_seen : Option ℕ
  pub opened : Option ℕ

-- `DirectionEvidence`.
pub record DirectionEvidence : Type 0 where
  pub limit : ℕ
  pub cut : Bool
  pub from : ℕ
  pub lost : ℕ
  pub lost_uncounted : Bool
  pub first : ℕ
  pub numbered : ℕ
  pub resolved : ℕ
  pub empties : ℕ

-- `Evidence`.
pub record Evidence : Type 0 where
  pub identity : Option Identity
  pub occupancy : ℕ
  pub origin : ℕ
  pub through : ℕ
  pub sent : DirectionEvidence
  pub received : DirectionEvidence

-- What the checks of this package answer, one for each case of them.
pub data Fault : Type 0 where
  bad_process bad_direction no_bytes kept_too_many no_time : Fault
  another_connection another_fragment : Fault
  not_taken no_identity no_connection identity_no_process no_origin no_occupancy : Fault
  origin_not_cut : Fault
  from_uncut cut_past_limit lost_uncut first_past no_first resolved_past resolved_late : Fault
  empties_past unresolved : Fault
  no_evidence another_end counts_after unnumbered unseen_number unresolved_number : Fault

-- `DirectionEvidence.Established`.
unfoldable pub established_in : DirectionEvidence → ℕ
established_in d = if d.cut then d.from else d.limit

-- `Evidence.Taken`.
abbrev pub taken : Evidence → Bool
taken e = not (e.through == 0)

abbrev no_direction : DirectionEvidence
no_direction = record {
  limit = 0;
  cut = false;
  from = 0;
  lost = 0;
  lost_uncounted = false;
  first = 0;
  numbered = 0;
  resolved = 0;
  empties = 0;
}

-- `Evidence.Of`.
unfoldable pub of_direction : Evidence → Direction → DirectionEvidence
of_direction e Direction.sent = e.sent
of_direction e Direction.received = e.received
of_direction e Direction.neither = no_direction

-- `Evidence.Established`.
unfoldable pub established : Evidence → Direction → ℕ
unfolding established_in of_direction
established e d = if not (taken e) then 0 else established_in (of_direction e d)

-- `Evidence.Usable`.
unfoldable pub usable : Evidence → ℕ → Bool
usable e held = taken e && leb e.through held

-- `DirectionEvidence.validate`.
unfoldable pub validate_direction : DirectionEvidence → Option Fault
validate_direction d =
    if not d.cut && not (d.from == 0)
    then some from_uncut
    else if d.cut && ltb d.limit d.from
    then some cut_past_limit
    else if not d.cut && (not (d.lost == 0) || d.lost_uncounted)
    then some lost_uncut
    else if ltb d.numbered d.first
    then some first_past
    else if not (d.numbered == 0) && d.first == 0
    then some no_first
    else if ltb d.numbered d.resolved
    then some resolved_past
    else if not (d.resolved == 0) && not (d.first == 1)
    then some resolved_late
    else if ltb d.numbered d.empties
    then some empties_past
    else if not d.cut && not (d.resolved == d.numbered)
    then some unresolved
    else none

-- One round of the loop over the directions in `Evidence.Validate`.
unfoldable pub direction_fault : ℕ → DirectionEvidence → Option Fault
direction_fault origin d = elim (validate_direction d) [
  | some e ↦ some e
  | none ↦
      if origin == origin_unestablished && (not d.cut || not (d.from == 0))
      then some origin_not_cut
      else none
]

-- The switch of `Evidence.Validate`, behind its first two cases.
unfoldable pub identity_fault : Evidence → Identity → Option Fault
identity_fault e i =
    if i.connection == 0
    then some no_connection
    else if leb_ℤ i.process.pid (pos 0)
    then some identity_no_process
    else if e.origin == origin_unset || ltb origin_unestablished e.origin
    then some no_origin
    else if e.occupancy == 0 && not (e.origin == origin_unestablished)
    then some no_occupancy
    else none

-- The loop over the directions in `Evidence.Validate`.
unfoldable pub directions_fault : Evidence → Option Fault
directions_fault e = elim (direction_fault e.origin e.sent) [
  | some f ↦ some f
  | none ↦ direction_fault e.origin e.received
]

-- `Evidence.Validate`.
unfoldable pub validate_evidence : Evidence → Option Fault
unfolding identity_fault directions_fault
validate_evidence e = if not (taken e) then some not_taken else elim e.identity [
  | none ↦ some no_identity
  | some i ↦ elim (identity_fault e i) [ some f ↦ some f | none ↦ directions_fault e ]
]

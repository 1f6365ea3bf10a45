-- ===== src/Fragment.antt =====
-- fragment/fragment.go: the record of one plaintext fragment, and the checks a consumer makes.
-- A pid is an int32, offsets and numbers are uint64, a length uint32; `End` wraps. The zero
-- `time.Time` is `none`. A nil identity is `none` too. The record's slot and loss token travel with
-- it unread and are left out here; `Gate` and `Held` model them.
pub mod Positions
pub mod Established
pub mod Shortening
mod Tests
use edge_observer.Prelude.{
  ℕ, Bool, true, false, not, ◌&&◌, ◌||◌, List, Option, none, some, ◌==◌, ltb, leb, if◌then◌else◌,
  length, add64, is_none,
}
use edge_observer.Prelude.Int.{ℤ, pos, leb_ℤ, eq_ℤ}
use Positions.{
  Process, Direction, sent, received, Evidence, DirectionEvidence, Fault, taken, of_direction,
  validate_evidence, same_process, is_valid_direction, is_sent, bad_process, bad_direction,
  no_bytes, kept_too_many, no_time, another_connection, another_fragment, no_evidence, another_end,
  counts_after, unnumbered, unseen_number, unresolved_number,
}

-- `Stream`, the key of one direction of one connection of one process.
pub record StreamKey : Type 0 where
  pub process : Process
  pub connection : ℕ
  pub direction : Direction

-- `Record`.
pub record Record : Type 0 where
  pub process : Process
  pub connection : ℕ
  pub direction : Direction
  pub sequence : ℕ
  pub offset : ℕ
  pub size : ℕ
  pub produced : ℕ
  pub empties : ℕ
  pub payload : List ℕ
  pub at : Option ℕ
  pub evidence : Evidence

-- `Record.Stream`.
abbrev pub stream_key : Record → StreamKey
stream_key r = record { process = r.process; connection = r.connection; direction = r.direction }

-- `Record.End`.
unfoldable pub end_of : Record → ℕ
end_of r = add64 r.offset r.size

-- `Record.Truncated`.
pub truncated : Record → Bool
truncated r = ltb (length r.payload) r.size

-- The binding of evidence to its record, in `Record.Validate`.
bound_fault : Record → Option Fault
bound_fault r = elim (validate_evidence r.evidence) [
  | some e ↦ some e
  | none ↦ elim r.evidence.identity [
    | none ↦ none
    | some i ↦
        if not (i.connection == r.connection) || not (same_process i.process r.process)
        then some another_connection
        else if not (r.evidence.through == r.sequence)
        then some another_fragment
        else none
  ]
]

-- `Record.Validate`. Evidence that passes its own check has an identity, so that the binding reads
-- one.
unfoldable pub validate : Record → Option Fault
unfolding bound_fault
validate r =
    if leb_ℤ r.process.pid (pos 0)
    then some bad_process
    else if not (is_valid_direction r.direction)
    then some bad_direction
    else if r.size == 0
    then some no_bytes
    else if ltb r.size (length r.payload)
    then some kept_too_many
    else if is_none r.at
    then some no_time
    else if not (taken r.evidence)
    then none
    else bound_fault r

-- The rules of `Record.Evidenced` behind `Validate`, on the record's own direction.
own_fault : Record → DirectionEvidence → Option Fault
unfolding end_of
own_fault r own =
    if not (own.limit == end_of r)
    then some another_end
    else if not (own.empties == 0)
    then some counts_after
    else if r.produced == 0 && (not own.cut || ltb r.offset own.from)
    then some unnumbered
    else if not (r.produced == 0) && ltb own.numbered r.produced
    then some unseen_number
    else if not (r.produced == 0) && not own.cut && not (own.resolved == r.produced)
    then some unresolved_number
    else none

-- `Record.Evidenced`.
pub evidenced : Record → Option Fault
unfolding validate own_fault of_direction
evidenced r = elim (validate r) [
  | some e ↦ some e
  | none ↦
      if not (taken r.evidence)
      then some no_evidence
      else own_fault r (of_direction r.evidence r.direction)
]

-- ===== src/Connection/Binding.antt =====
-- connection/connection.go: what a direction of a connection was bound to, and the checks on it. The
-- zero time is `none`; texts, the addresses' IPs, which no check reads, and rendering are left out.
use edge_observer.Prelude.{
  ℕ, Bool, true, false, not, ◌&&◌, ◌||◌, List, Option, none, some, ◌==◌, ltb, if◌then◌else◌, length,
  is_none,
}
use edge_observer.Prelude.Int.{ℤ, pos, leb_ℤ}
use edge_observer.Admission.{Key, known}
use edge_observer.Fragment.Positions.{Direction, is_valid_direction}

-- `Netns`, and its `Known`.
pub record Netns : Type 0 where
  pub device : ℕ
  pub inode : ℕ

abbrev pub names_netns : Netns → Bool
names_netns n = not (n.device == 0) || not (n.inode == 0)

-- `Descriptor`.
pub record Descriptor : Type 0 where
  pub number : ℤ
  pub known : Bool

-- `Socket`, and `Named`.
pub record Socket : Type 0 where
  pub inode : ℕ
  pub known : Bool

abbrev pub named : ℕ → Socket
named inode =
    if inode == 0
    then record { inode = 0; known = false }
    else record { inode = inode; known = true }

-- `Address`.
pub record Address : Type 0 where
  pub port : ℕ
  pub known : Bool

-- `Endpoints`, and its `Complete`.
pub record Endpoints : Type 0 where
  pub local : Address
  pub remote : Address
  pub netns : Netns

abbrev pub complete_ends : Endpoints → Bool
complete_ends e = e.local.known && e.remote.known && names_netns e.netns

-- `State`.
pub data State : Type 0 where
  unset established unknown ambiguous invalidated : State

abbrev is_state_unset : State → Bool
is_state_unset State.unset = true
is_state_unset _ = false

abbrev pub is_established : State → Bool
is_established State.established = true
is_established _ = false

-- `Reason`.
pub data Reason : Type 0 where
  unset : Reason
  no_binding_observed insertion_refused observation_lost transport_unsupported : Reason
  binding_unobservable operation_was_not_a_socket evidence_unreadable : Reason
  operation_unresolved route_unsupported operation_frame_broken : Reason
  socket_evidence_unavailable : Reason
  several_descriptors : Reason
  descriptor_replaced transport_replaced lifetime_evidence_ended handle_released : Reason
  handle_lifetime_unobservable : Reason
  terminal_unsettled sequence_unavailable operations_overlapped length_unmeasured : Reason

abbrev pub is_unset : Reason → Bool
is_unset Reason.unset = true
is_unset _ = false

-- The reasons of an association that is unknown, ambiguous or invalidated, in `Reason.holds`.
abbrev pub is_unknown_reason : Reason → Bool
is_unknown_reason no_binding_observed = true
is_unknown_reason insertion_refused = true
is_unknown_reason observation_lost = true
is_unknown_reason transport_unsupported = true
is_unknown_reason binding_unobservable = true
is_unknown_reason operation_was_not_a_socket = true
is_unknown_reason evidence_unreadable = true
is_unknown_reason operation_unresolved = true
is_unknown_reason route_unsupported = true
is_unknown_reason operation_frame_broken = true
is_unknown_reason socket_evidence_unavailable = true
is_unknown_reason _ = false

abbrev pub is_ambiguous_reason : Reason → Bool
is_ambiguous_reason several_descriptors = true
is_ambiguous_reason _ = false

abbrev pub is_invalidated_reason : Reason → Bool
is_invalidated_reason descriptor_replaced = true
is_invalidated_reason transport_replaced = true
is_invalidated_reason lifetime_evidence_ended = true
is_invalidated_reason handle_released = true
is_invalidated_reason handle_lifetime_unobservable = true
is_invalidated_reason _ = false

-- `Reason.holds`.
unfoldable pub holds_for : Reason → State → Bool
holds_for r State.established = is_unset r
holds_for r State.unknown = is_unknown_reason r
holds_for r State.ambiguous = is_ambiguous_reason r
holds_for r State.invalidated = is_invalidated_reason r
holds_for r State.unset = false

-- `Joinability`.
pub data Joinability : Type 0 where
  unset joins does_not_join : Joinability

-- `JoinReason`.
pub data JoinReason : Type 0 where
  unset no_binding_to_join endpoint_unreadable no_endpoint_producer : JoinReason
  namespace_unestablished : JoinReason

abbrev is_join_unset : JoinReason → Bool
is_join_unset JoinReason.unset = true
is_join_unset _ = false

abbrev is_no_binding : JoinReason → Bool
is_no_binding no_binding_to_join = true
is_no_binding _ = false

-- `Source`.
pub data Source : Type 0 where
  unset setter_argument in_call_syscall socket_lifetime : Source

abbrev is_source_unset : Source → Bool
is_source_unset Source.unset = true
is_source_unset _ = false

-- `Basis`.
pub data Basis : Type 0 where
  unset confirmed_in_call continuity : Basis

abbrev is_basis_unset : Basis → Bool
is_basis_unset Basis.unset = true
is_basis_unset _ = false

-- `Interval`.
pub record Interval : Type 0 where
  pub from : Option ℕ
  pub until : Option ℕ
  pub open_ : Bool

-- `Before`: no time is before the zero time.
abbrev pub before : Option ℕ → Option ℕ → Bool
before _ none = false
before none (some b) = true
before (some a) (some b) = ltb a b

-- `Interval.Holds`.
unfoldable pub holds_at : Interval → Option ℕ → Bool
holds_at i at = if before at i.from then false else i.open_ || before at i.until

-- What the checks answer, one for each case of them.
pub data Fault : Type 0 where
  no_start no_end ends_before : Fault
  no_namespace no_process no_generation no_handle_generation : Fault
  no_direction no_state foreign_reason foreign_basis : Fault
  no_joinability joins_with_reason no_join_reason joins_unestablished joins_incomplete : Fault
  binding_denied one_contender unknown_descriptor : Fault
  no_source no_descriptor no_binding : Fault

-- `Interval.Validate`.
unfoldable pub validate_interval : Interval → Option Fault
validate_interval i =
    if is_none i.from
    then some no_start
    else if not i.open_ && is_none i.until
    then some no_end
    else if not i.open_ && before i.until i.from
    then some ends_before
    else none

-- `Handle`.
pub record Handle : Type 0 where
  pub instance_ : Key
  pub address : ℕ
  pub generation : ℕ

-- `Handle.Validate`.
unfoldable pub validate_handle : Handle → Option Fault
validate_handle h =
    if not (known h.instance_.namespace)
    then some no_namespace
    else if leb_ℤ h.instance_.pid (pos 0)
    then some no_process
    else if h.instance_.generation == 0
    then some no_generation
    else if h.generation == 0
    then some no_handle_generation
    else none

-- `Association`; its `Wire` is read by no check and left out.
pub record Association : Type 0 where
  pub connection : ℕ
  pub direction : Direction
  pub state : State
  pub reason : Reason
  pub binding : ℕ
  pub source : Source
  pub valid : Interval
  pub descriptor : Descriptor
  pub socket : Socket
  pub endpoints : Endpoints
  pub join : Joinability
  pub join_reason : JoinReason
  pub contended : List Descriptor
  pub basis : Basis

-- `Association.Joinable`.
abbrev pub is_joins : Joinability → Bool
is_joins joins = true
is_joins _ = false

abbrev pub joinable : Association → Bool
joinable a = is_joins a.join

-- The first switch of `Association.Validate`.
state_fault : Association → Option Fault
unfolding holds_for
state_fault a =
    if not (is_valid_direction a.direction)
    then some no_direction
    else if is_state_unset a.state
    then some no_state
    else if not (holds_for a.reason a.state)
    then some foreign_reason
    else if not (is_established a.state) && not (is_basis_unset a.basis)
    then some foreign_basis
    else none

-- The second switch.
join_fault : Association → Option Fault
join_fault a = elim a.join [
  | Joinability.unset ↦ some no_joinability
  | joins ↦
      if not (is_join_unset a.join_reason)
      then some joins_with_reason
      else if not (is_established a.state)
      then some joins_unestablished
      else if not (complete_ends a.endpoints)
      then some joins_incomplete
      else none
  | does_not_join ↦
      if is_join_unset a.join_reason
      then some no_join_reason
      else if is_no_binding a.join_reason && is_established a.state
      then some binding_denied
      else none
]

-- What follows the switches, on an association that is not established, and on one that is.
rest_fault : Association → Option Fault
unfolding validate_interval
rest_fault a = elim a.state [
  | State.established ↦
      if is_source_unset a.source
      then some no_source
      else if not a.descriptor.known
      then some no_descriptor
      else if a.binding == 0
      then some no_binding
      else validate_interval a.valid
  | State.ambiguous ↦ if ltb (length a.contended) 2 then some one_contender else none
  | State.unknown ↦ if a.descriptor.known then some unknown_descriptor else none
  | _ ↦ none
]

-- `Association.Validate`.
unfoldable pub validate_association : Association → Option Fault
unfolding state_fault join_fault rest_fault
validate_association a = elim (state_fault a) [
  | some e ↦ some e
  | none ↦ elim (join_fault a) [ some e ↦ some e | none ↦ rest_fault a ]
]

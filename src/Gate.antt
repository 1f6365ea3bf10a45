-- ===== src/Gate.antt =====
-- probe/delivery_gate.go, probe/gate_reason.go and the slots of held/held.go: the gate that bounds
-- the decoded events held at once and orders capture-wide invalidation with release.
--
-- The gate and its slots are one state, `Gate`; each operation runs under the gate's mutex and is
-- one function from the state to the new state and the result. A slot is named by its place in
-- `slots`. The withdrawal channel is `none` where it was never made, and else the number of times
-- it was closed: a second close would panic. A nil gate and the zero value are one state here, as
-- each operation refuses both alike. Counters are uint64 and wrap.
pub mod Reason
pub mod State
pub mod Invariant
pub mod Order
pub mod Release
mod Tests
use edge_observer.Prelude.{
  ℕ, ◌+◌, Bool, true, false, ◌&&◌, not, List, [], ◌∷◌, ◌++◌, Option, none, some, ◌==◌,
  if◌then◌else◌, add64, sub64, length, get_elem?, set,
}
use Reason.{
  GateReason, clear, input_limit, unknown_length, unknown_kind, unsettled, uninitialized,
  same_reason,
}
use State.{RefundPath, Refunds, Slot, Gate, Snapshot, zero_gate}

-- `NewDeliveryGate`.
pub new_delivery_gate : ℕ → Option Gate
new_delivery_gate max_events =
    if max_events == 0
    then none
    else some (record zero_gate { max_events = max_events; withdrawal = some 0 })

-- `snapshotLocked`.
abbrev pub snapshot_locked : Gate → Snapshot
snapshot_locked g = record {
  max_events = g.max_events;
  charged = g.charged;
  held = g.held;
  refunded = g.refunded;
  double_refunds = g.doubles;
  input_refused = g.input_refused;
  reason = g.reason;
}

-- The snapshot of a gate that was never made.
abbrev pub no_snapshot : Snapshot
no_snapshot = record (snapshot_locked zero_gate) { reason = uninitialized }

-- `g == nil || g.withdrawal == nil`.
abbrev pub is_unmade : Gate → Bool
is_unmade g = elim g.withdrawal [ none ↦ true | some n ↦ false ]

-- `Snapshot`.
pub snapshot : Gate → Snapshot
snapshot g = if is_unmade g then no_snapshot else snapshot_locked g

abbrev close : Option ℕ → Option ℕ
close none = none
close (some n) = some (n + 1)

-- `invalidateLocked`.
pub invalidate_locked : Gate → GateReason → Gate
invalidate_locked g r = record g { reason = r; withdrawal = close g.withdrawal }

-- `AdmissionDecision`. The slot is named by its place in `slots`.
pub record AdmissionDecision : Type 0 where
  pub admitted : Bool
  pub charged : Bool
  pub slot : Option ℕ
  pub state : Snapshot

abbrev pub refusal : Snapshot → AdmissionDecision
refusal s = record { admitted = false; charged = false; slot = none; state = s }

-- `DeliveryTransfer` and `DeliveryClose`; every other value is an unknown kind.
abbrev pub delivery_transfer : ℕ
delivery_transfer = 1

abbrev pub delivery_close : ℕ
delivery_close = 2

-- `Admit` with every slot in use.
admit_full : Gate → ℕ → Bool → Gate × AdmissionDecision
unfolding invalidate_locked
admit_full g kind measured =
    if not (kind == delivery_transfer) && not (kind == delivery_close)
    then (let h = invalidate_locked g unknown_kind in (h, refusal (snapshot_locked h)))
    else if kind == delivery_transfer && not measured
    then (let h = invalidate_locked g unknown_length in (h, refusal (snapshot_locked h)))
    else if kind == delivery_close
    then (g, record (refusal (snapshot_locked g)) { admitted = true })
    else (let h = record g { input_refused = add64 g.input_refused 1 } in
        (h, refusal (record (snapshot_locked h) { reason = input_limit })))

-- The switch on the kind of an event that was charged.
classify : Gate → ℕ → Bool → Gate
unfolding invalidate_locked
classify g kind measured =
    if kind == delivery_transfer
    then if measured then g else invalidate_locked g unknown_length
    else if kind == delivery_close
    then g
    else invalidate_locked g unknown_kind

-- `Admit` with a slot left.
admit_charged : Gate → ℕ → Bool → Gate × AdmissionDecision
unfolding classify
admit_charged g kind measured =
    let reserved = record g {
      charged = add64 g.charged 1;
      held = add64 g.held 1;
      slots = g.slots ++ (record { kept = false; returned = false } ∷ []);
    } in
    let h = classify reserved kind measured in
    (
      h,
      record {
        admitted = same_reason h.reason clear;
        charged = true;
        slot = some (length g.slots);
        state = snapshot_locked h;
      },
    )

-- `Admit`.
pub admit : Gate → ℕ → Bool → Gate × AdmissionDecision
unfolding admit_full admit_charged
admit g kind measured =
    if is_unmade g
    then (g, refusal no_snapshot)
    else if not (same_reason g.reason clear)
    then (g, refusal (snapshot_locked g))
    else if g.held == g.max_events
    then admit_full g kind measured
    else admit_charged g kind measured

-- `ReleaseEvidence`.
pub record ReleaseEvidence : Type 0 where
  pub inputs_settled : Bool
  pub lifecycle_settled : Bool

-- `ReleaseDecision`.
pub record ReleaseDecision : Type 0 where
  pub authorized : Bool
  pub reason : GateReason

-- `AuthorizeEnqueue`. `enqueue` acts on the caller's queue `q`; a nil one is the identity, as
-- `Authorize` has it. The hook `BeforeAuthorize` runs with no lock held and is left out.
pub authorize_enqueue {ℓ} :
    {Q : Type ℓ} → Gate → ReleaseEvidence → (Q → Q) → Q → Q × ReleaseDecision
authorize_enqueue g e enqueue q =
    if is_unmade g
    then (q, record { authorized = false; reason = uninitialized })
    else if not (same_reason g.reason clear)
    then (q, record { authorized = false; reason = g.reason })
    else if not (e.inputs_settled && e.lifecycle_settled)
    then (q, record { authorized = false; reason = unsettled })
    else (enqueue q, record { authorized = true; reason = clear })

-- `Authorize`.
pub authorize : Gate → ReleaseEvidence → ReleaseDecision
unfolding authorize_enqueue
authorize g e = (authorize_enqueue g e (λ (q : Unit {0}). q) tt).1

-- The switch of `refund`: a path that no case names counts as discarded.
count_refund : Refunds → RefundPath → Refunds
count_refund r RefundPath.unretained = record r { unretained = add64 r.unretained 1 }
count_refund r RefundPath.processed = record r { processed = add64 r.processed 1 }
count_refund r RefundPath.cut = record r { cut = add64 r.cut 1 }
count_refund r RefundPath.discarded = record r { discarded = add64 r.discarded 1 }
count_refund r RefundPath.elsewhere = record r { discarded = add64 r.discarded 1 }

refund_slot : Gate → ℕ → Slot → RefundPath → Gate × Bool
unfolding count_refund
refund_slot g i s path = if s.returned then (record g { doubles = add64 g.doubles 1 }, false) else (
  record g {
    slots = set g.slots i (record s { returned = true });
    held = sub64 g.held 1;
    refunded = count_refund g.refunded path;
  },
  true,
)

-- `refund`, on the slot at place `i`. No slot stands past the end, so nothing is done there.
pub refund : Gate → ℕ → RefundPath → Gate × Bool
unfolding refund_slot
refund g i path = elim (get_elem? g.slots i) [ none ↦ (g, false) | some s ↦ refund_slot g i s path ]

-- `slot.Keep`.
pub keep : Gate → ℕ → Gate
keep g i = elim (get_elem? g.slots i) [
  | none ↦ g
  | some s ↦ record g { slots = set g.slots i (record s { kept = true }) }
]

-- One call on the gate or on one of its slots. The operations run one at a time under the gate's
-- mutex, so that a list of calls is an interleaving of its users.
pub data Call : Type 0 where
  admits : ℕ → Bool → Call
  refunds : ℕ → RefundPath → Call
  keeps : ℕ → Call
  authorizes : ReleaseEvidence → Call

pub step : Gate → Call → Gate
step g (admits kind measured) = (admit g kind measured).0
step g (refunds i path) = (refund g i path).0
step g (keeps i) = keep g i
step g (authorizes e) = g

pub run : Gate → List Call → Gate
run g [] = g
run g (c ∷ cs) = run (step g c) cs

-- ===== src/Gate/Tests.antt =====
-- The gate's theorems at concrete gates, and runs of its calls.
use edge_observer.Prelude.{
  ◌≡◌, ◌⊎◌, refl, true, false, List, [], ◌∷◌, none, some, arith, add64, sub64, get_elem?,
}
use edge_observer.Gate.Reason.{unknown_length, unknown_kind}
use edge_observer.Gate.State.{RefundPath, Gate, of_path, zero_gate}
use edge_observer.Gate.{
  Call, admits, refunds, admit, admit_full, admit_charged, classify, invalidate_locked, refund,
  refund_slot, count_refund, step, run, new_delivery_gate, snapshot_locked, refusal,
  ReleaseEvidence, authorize,
}
use edge_observer.Gate.Invariant.{IsSound, new_delivery_gate-IsSound}
use edge_observer.Gate.Order.{SameVerdict, invalidated_stays}
use edge_observer.Gate.Release.{refund_once}

-- A gate for two events, the calls of a short capture, and the gate after them.
abbrev two_events : Gate
two_events = record zero_gate { max_events = 2; withdrawal = some 0 }

abbrev one_reserved : Gate
one_reserved = record two_events {
  charged = 1;
  held = 1;
  slots = record { kept = false; returned = false } ∷ [];
}

abbrev short_capture : List Call
short_capture =
    admits 1 true
    ∷ refunds 0 RefundPath.processed
    ∷ refunds 0 RefundPath.cut
    ∷ admits 1 true
    ∷ admits 2 false
    ∷ admits 1 true
    ∷ admits 1 false
    ∷ []

-- Its occupancy: two slots held, one input refused and one double refund, and it is invalidated.
short_capture_held : (run two_events short_capture).held ≡ 2
unfolding run step admit admit_full admit_charged classify invalidate_locked refund refund_slot
    count_refund sub64 add64
short_capture_held = refl

short_capture_refused : (run two_events short_capture).input_refused ≡ 1
unfolding run step admit admit_full admit_charged classify invalidate_locked refund refund_slot
    count_refund sub64 add64
short_capture_refused = refl

short_capture_reason : (run two_events short_capture).reason ≡ unknown_length
unfolding run step admit admit_full admit_charged classify invalidate_locked refund refund_slot
    count_refund sub64 add64
short_capture_reason = refl

new_delivery_gate-IsSound_example :
    ((two_events.max_events ≡ 0) × (new_delivery_gate two_events.max_events ≡ none))
    ⊎ ((g : Gate) × (new_delivery_gate two_events.max_events ≡ some g)
        × IsSound (run g short_capture))
new_delivery_gate-IsSound_example =
    new_delivery_gate-IsSound two_events.max_events short_capture (omega arith)

abbrev invalidated : Gate
invalidated = record one_reserved { reason = unknown_kind; withdrawal = some 1 }

abbrev settled : ReleaseEvidence
settled = record { inputs_settled = true; lifecycle_settled = true }

invalidated_stays_example :
    let h = run invalidated short_capture in
    SameVerdict invalidated h
    × (admit h 1 true ≡ (h, refusal (snapshot_locked h)))
    × (authorize h settled ≡ record { authorized = false; reason = unknown_kind })
invalidated_stays_example =
    invalidated_stays invalidated short_capture 1 true settled 1 refl (ground arith)

refund_once_example :
    let (h, first) = refund one_reserved 0 RefundPath.processed in
    (first ≡ true)
    × (get_elem? h.slots 0 ≡ some (record { kept = false; returned = true }))
    × (h.held ≡ 0)
    × (h.charged ≡ 1)
    × (of_path h.refunded RefundPath.processed
        ≡ add64 (of_path one_reserved.refunded RefundPath.processed) 1)
    × (refund h 0 RefundPath.cut ≡ (record h { doubles = add64 h.doubles 1 }, false))
unfolding sub64
refund_once_example =
    refund_once one_reserved 0 (record { kept = false; returned = false }) RefundPath.processed
      RefundPath.cut refl refl (ground arith)

-- ===== src/Gate/Release.antt =====
-- What each call of the gate decides, on every branch.
use edge_observer.Prelude.{
  ℕ, suc, ◌<◌, ◌≡◌, ◌≢◌, ◌↔◌, refl, Bool, true, false, not, ◌&&◌, ◌==◌, List, [], ◌∷◌, none, some,
  arith, if◌then◌else◌, add64, sub64, get_elem?, get_elem?-set_self, length,
}
use edge_observer.Gate.Reason.{clear, input_limit, unknown_kind, unknown_length, same_reason}
use edge_observer.Gate.State.{RefundPath, Refunds, Slot, Gate, of_path}
use edge_observer.Gate.{
  admit, admit_full, admit_charged, classify, invalidate_locked, refund, refund_slot, count_refund,
  ReleaseEvidence, authorize_enqueue, is_unmade, delivery_transfer, delivery_close,
}

-- A release is authorized exactly where the gate was made, has no reason and both parts of the
-- evidence hold; the enqueue runs, once, exactly where it is authorized, and the decision carries a
-- reason exactly where it is not.
authorize_enqueue_iff {ℓ} :
    {Q : Type ℓ} (g : Gate) (e : ReleaseEvidence) (enqueue : Q → Q) (q : Q)
    → let (q', d) = authorize_enqueue g e enqueue q in
      ((d.authorized ≡ true) ↔ (
        (is_unmade g ≡ false)
        × (g.reason ≡ clear)
        × (e.inputs_settled ≡ true)
        × (e.lifecycle_settled ≡ true)))
      × (q' ≡ (if d.authorized then enqueue q else q))
      × ((d.authorized ≡ true) ↔ (d.reason ≡ clear))
unfolding authorize_enqueue
authorize_enqueue_iff g e enqueue q = (ground arith, ground arith, ground arith)

-- On a made gate with no reason: a slot is reserved exactly below the allowance, and it is the next
-- one; the reason afterwards is the one that names an unmeasured transfer or an unknown kind, and
-- else there is none; an event is admitted exactly where there is none, but for a transfer at the
-- allowance, which a measured one is told by `input_limit`, a reason that the gate does not take.
pub admit_decides :
    (g : Gate) (kind : ℕ) (measured : Bool)
    → is_unmade g ≡ false
    → g.reason ≡ clear
    → let (h, d) = admit g kind measured in
      let full = g.held == g.max_events in
      let transfer = kind == delivery_transfer in
      (d.charged ≡ not full)
      × (d.slot ≡ (if full then none else some (length g.slots)))
      × (h.reason ≡ (
          if transfer
          then if measured then clear else unknown_length
          else if kind == delivery_close
          then clear
          else unknown_kind))
      × (d.admitted ≡ same_reason h.reason clear && not (full && transfer))
      × (d.state.reason ≡ (if full && transfer && measured then input_limit else h.reason))
unfolding admit admit_full admit_charged classify invalidate_locked
admit_decides g kind measured made c = ground arith

count_refund_lem :
    (r : Refunds) (path : RefundPath)
    → path ≢ RefundPath.elsewhere
    → of_path (count_refund r path) path ≡ add64 (of_path r path) 1
unfolding count_refund of_path
count_refund_lem r RefundPath.elsewhere h = absurd (h refl)
count_refund_lem r _ h = refl

get-lt : (ss : List Slot) (i : ℕ) {s : Slot} → get_elem? ss i ≡ some s → i < length ss
get-lt [] i e = cc
get-lt (x ∷ ss) ℕ.zero e = omega arith
get-lt (x ∷ ss) (suc i) e = omega (arith, get-lt ss i e)

-- A slot that was reserved and not returned is returned by its first refund, along a path that a
-- case names: it reports true, holds one event less, charges nothing and counts one refund along
-- that path; a second refund along any path reports false, counts one double refund and changes
-- nothing else.
pub refund_once :
    (g : Gate) (i : ℕ) (s : Slot) (path again : RefundPath)
    → get_elem? g.slots i ≡ some s
    → s.returned ≡ false
    → path ≢ RefundPath.elsewhere
    → let (h, first) = refund g i path in
      (first ≡ true)
      × (get_elem? h.slots i ≡ some (record s { returned = true }))
      × (h.held ≡ sub64 g.held 1)
      × (h.charged ≡ g.charged)
      × (of_path h.refunded path ≡ add64 (of_path g.refunded path) 1)
      × (refund h i again ≡ (record h { doubles = add64 h.doubles 1 }, false))
unfolding refund refund_slot
refund_once g i s path again e fresh named =
    let back = get_elem?-set_self g.slots i (record s { returned = true }) (get-lt g.slots i e) in
    (
      ground arith,
      ground (arith, back),
      ground arith,
      ground arith,
      ground (arith, count_refund_lem g.refunded path named),
      ground (arith, back),
    )

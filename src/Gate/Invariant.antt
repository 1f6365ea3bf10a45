-- ===== src/Gate/Invariant.antt =====
-- The gate's accounting, over any interleaving of its calls.
use edge_observer.Prelude.{
  ℕ, suc, ◌+◌, ◌%◌, ◌≤◌, ◌<◌, ◌≡◌, refl, Bool, true, false, List, [], ◌∷◌, ◌++◌, none, some, arith,
  if◌then◌else◌, add64, sub64, u64_mod, length, length-append, length-set, get_elem?, set,
  Option-cases, inl, inr, ◌⊎◌,
}
use edge_observer.Gate.Reason.{clear, same_reason, invalidates_capture}
use edge_observer.Gate.State.{RefundPath, Refunds, Slot, Gate, zero_gate}
use edge_observer.Gate.{
  Call, admits, refunds, keeps, authorizes, admit, admit_full, admit_charged, classify,
  invalidate_locked, refund, refund_slot, count_refund, keep, step, run, new_delivery_gate,
}

-- How many slots are reserved and not yet returned.
abbrev pub unreturned : List Slot → ℕ
unreturned [] = 0
unreturned (s ∷ ss) = (if s.returned then 0 else 1) + unreturned ss

abbrev pub total_refunds : Refunds → ℕ
total_refunds r = r.unretained + r.processed + r.discarded + r.cut

pub record IsSound (g : Gate) : Type 0 where
  -- The withdrawal channel was made, and closed once where there is a reason and else never.
  pub closed_once : g.withdrawal ≡ some (if same_reason g.reason clear then 0 else 1)
  pub terminal : (if same_reason g.reason clear then true else invalidates_capture g.reason) ≡ true
  pub small : g.max_events < u64_mod
  pub within : g.held ≤ g.max_events
  pub held_counts : g.held ≡ unreturned g.slots
  pub charged_counts : g.charged ≡ length g.slots % u64_mod
  pub conserved : g.charged ≡ (g.held + total_refunds g.refunded) % u64_mod

unreturned-append : (xs ys : List Slot) → unreturned (xs ++ ys) ≡ unreturned xs + unreturned ys
unreturned-append [] ys = omega arith
unreturned-append (x ∷ xs) ys = omega (arith, unreturned-append xs ys)

unreturned-set :
    (ss : List Slot) (i : ℕ) (s t : Slot)
    → get_elem? ss i ≡ some s
    → unreturned (set ss i t) + (if s.returned then 0 else 1)
      ≡ unreturned ss + (if t.returned then 0 else 1)
unreturned-set [] i s t e = cc
unreturned-set (x ∷ ss) ℕ.zero s t e = ground arith
unreturned-set (x ∷ ss) (suc i) s t e = omega (arith, unreturned-set ss i s t e)

admit-IsSound :
    (g : Gate) (kind : ℕ) (measured : Bool) → IsSound g → IsSound (admit g kind measured).0
unfolding admit admit_full admit_charged classify invalidate_locked add64 invalidates_capture
admit-IsSound g kind measured v = ground (
  arith,
  length-append g.slots (record { kept = false; returned = false } ∷ []),
  unreturned-append g.slots (record { kept = false; returned = false } ∷ []),
)

refund-IsSound : (g : Gate) (i : ℕ) (path : RefundPath) → IsSound g → IsSound (refund g i path).0
unfolding refund refund_slot count_refund add64 sub64
refund-IsSound g i path v = elim (Option-cases (get_elem? g.slots i)) [
  | inl e ↦ rw (e, refund) v
  | inr (s, e) ↦
      rw (e, refund)
        (ground (
          arith,
          unreturned-set g.slots i s (record s { returned = true }) e,
          length-set g.slots i (record s { returned = true }),
        ))
]

keep-IsSound : (g : Gate) (i : ℕ) → IsSound g → IsSound (keep g i)
unfolding keep
keep-IsSound g i v = elim (Option-cases (get_elem? g.slots i)) [
  | inl e ↦ rw (e, keep) v
  | inr (s, e) ↦
      rw (e, keep)
        (ground (
          arith,
          unreturned-set g.slots i s (record s { kept = true }) e,
          length-set g.slots i (record s { kept = true }),
        ))
]

pub step-IsSound : (g : Gate) (c : Call) → IsSound g → IsSound (step g c)
unfolding step
step-IsSound g (admits kind measured) v = admit-IsSound g kind measured v
step-IsSound g (refunds i path) v = refund-IsSound g i path v
step-IsSound g (keeps i) v = keep-IsSound g i v
step-IsSound g (authorizes e) v = v

pub run-IsSound : (g : Gate) (cs : List Call) → IsSound g → IsSound (run g cs)
unfolding run
run-IsSound g [] v = v
run-IsSound g (c ∷ cs) v = run-IsSound (step g c) cs (step-IsSound g c v)

-- A gate is made exactly for a positive allowance. After any calls on a gate made for fewer than
-- 2^64 events, at most the allowance is held, `held` is the number of slots reserved and not yet
-- returned, `charged` the number of slots ever reserved and the sum of those held and those refunded
-- along each path (as uint64), and the withdrawal channel has been closed once if there is a reason,
-- which then is one that invalidates the capture, and never otherwise.
pub new_delivery_gate-IsSound :
    (max_events : ℕ) (cs : List Call)
    → max_events < u64_mod
    → ((max_events ≡ 0) × (new_delivery_gate max_events ≡ none))
      ⊎ ((g : Gate) × (new_delivery_gate max_events ≡ some g) × IsSound (run g cs))
unfolding new_delivery_gate
new_delivery_gate-IsSound ℕ.zero cs h = inl (refl, refl)
new_delivery_gate-IsSound (suc n) cs h =
    inr (opened, ground arith, run-IsSound opened cs (ground arith))
  where
    opened : Gate
    opened = record zero_gate { max_events = suc n; withdrawal = some 0 }

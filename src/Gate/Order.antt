-- ===== src/Gate/Order.antt =====
-- Invalidation is permanent: what the gate's calls can do after it.
use edge_observer.Prelude.{ℕ, ◌≡◌, ◌≢◌, refl, Bool, false, List, [], ◌∷◌, some, arith, ◌∙◌}
use edge_observer.Gate.Reason.{clear}
use edge_observer.Gate.State.{RefundPath, Gate}
use edge_observer.Gate.{
  Call, admits, refunds, keeps, authorizes, admit, refund, refund_slot, keep, step, run,
  snapshot_locked, refusal, ReleaseEvidence, authorize, authorize_enqueue,
}

-- What invalidation fixes: the reason, the channel, the slots charged and the inputs refused.
abbrev pub SameVerdict : Gate → Gate → Type 0
SameVerdict g h =
    (h.reason ≡ g.reason)
    × (h.withdrawal ≡ g.withdrawal)
    × (h.charged ≡ g.charged)
    × (h.input_refused ≡ g.input_refused)

refund-SameVerdict : (g : Gate) (i : ℕ) (path : RefundPath) → SameVerdict g (refund g i path).0
unfolding refund refund_slot
refund-SameVerdict g i path = ground arith

keep-SameVerdict : (g : Gate) (i : ℕ) → SameVerdict g (keep g i)
unfolding keep
keep-SameVerdict g i = ground arith

admit-invalidated :
    (g : Gate) (kind : ℕ) (measured : Bool) (n : ℕ)
    → g.withdrawal ≡ some n
    → g.reason ≢ clear
    → admit g kind measured ≡ (g, refusal (snapshot_locked g))
unfolding admit
admit-invalidated g kind measured n w r = ground arith

step-SameVerdict :
    (g : Gate) (c : Call) (n : ℕ)
    → g.withdrawal ≡ some n
    → g.reason ≢ clear
    → SameVerdict g (step g c)
unfolding step
step-SameVerdict g (admits kind measured) n w r =
    ground (arith, admit-invalidated g kind measured n w r)
step-SameVerdict g (refunds i path) n w r = refund-SameVerdict g i path
step-SameVerdict g (keeps i) n w r = keep-SameVerdict g i
step-SameVerdict g (authorizes e) n w r = (refl, refl, refl, refl)

run-SameVerdict :
    (g : Gate) (cs : List Call) (n : ℕ)
    → g.withdrawal ≡ some n
    → g.reason ≢ clear
    → SameVerdict g (run g cs)
unfolding run
run-SameVerdict g [] n w r = (refl, refl, refl, refl)
run-SameVerdict g (c ∷ cs) n w r =
    let (a, b, d, e) = step-SameVerdict g c n w r in
    let (a', b', d', e') = run-SameVerdict (step g c) cs n (b ∙ w) (λ q. r (ground arith)) in
    (a' ∙ a, b' ∙ b, d' ∙ d, e' ∙ e)

-- Once a made gate has a reason, then after any further calls it has the same reason, its channel
-- has been closed no further time, no slot more has been charged and no refusal counted; and every
-- later event is refused without a slot and with no change of the gate, and every release with that
-- reason, whatever its evidence.
pub invalidated_stays :
    (g : Gate) (cs : List Call) (kind : ℕ) (measured : Bool) (e : ReleaseEvidence) (n : ℕ)
    → g.withdrawal ≡ some n
    → g.reason ≢ clear
    → let h = run g cs in
      SameVerdict g h
      × (admit h kind measured ≡ (h, refusal (snapshot_locked h)))
      × (authorize h e ≡ record { authorized = false; reason = g.reason })
unfolding authorize authorize_enqueue
invalidated_stays g cs kind measured e n w r =
    let s = run-SameVerdict g cs n w r in
    let w' = s.1 ∙ w in
    let r' = λ (q : (run g cs).reason ≡ clear). r (ground arith) in
    (s, admit-invalidated (run g cs) kind measured n w' r', ground (arith, r'))

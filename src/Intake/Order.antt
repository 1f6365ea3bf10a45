-- ===== src/Intake/Order.antt =====
-- The store is first in, first out: what `Take` hands out is what was accepted, in that order.
use mathlib.Core.List.{append-nil, append_assoc}
use edge_observer.Prelude.{
  ℕ, ◌≡◌, ◌≢◌, refl, sym, ap, ◌∙◌, true, List, [], ◌∷◌, ◌++◌, Option, none, some, arith,
}
use edge_observer.Intake.State.{Entry, Store, Error}
use edge_observer.Intake.Allowance.{Sizes, Shape}
use edge_observer.Intake.{
  Call, writes, connects, takes, releases, reserves, returns, closes, full, append, write,
  connection, take, take_from, release_as, reserve, return, close, is_owner, refuse_work,
  grant_work, give_back, step,
}

module _ {R : Type 0} where
  abbrev pub held_in : Option R → List R
  held_in none = []
  held_in (some r) = r ∷ []

  -- The records that entries hold.
  abbrev pub contents : List (Entry R) → List R
  contents [] = []
  contents (e ∷ es) = held_in e.stored ++ contents es

  contents-append : (xs ys : List (Entry R)) → contents (xs ++ ys) ≡ contents xs ++ contents ys
  contents-append [] ys = refl
  contents-append (x ∷ xs) ys =
      ap (◌++◌ (held_in x.stored)) (contents-append xs ys)
      ∙ sym (append_assoc (held_in x.stored) (contents xs) (contents ys))

  abbrev accepted_if : Option Error → R → List R
  accepted_if none r = r ∷ []
  accepted_if (some e) r = []

  abbrev handed_if : Option (Entry R) → List R
  handed_if none = []
  handed_if (some e) = held_in e.stored

  -- The record that one call accepts, and the one that it hands out.
  abbrev accepts : Sizes → Store R → Call R → List R
  accepts z s (writes r n slot) = accepted_if (write z s r n slot).1 r
  accepts z s (connects r shape slot) = accepted_if (connection z s r shape slot).1 r
  accepts z s c = []

  abbrev hands : Store R → Call R → List R
  hands s takes = handed_if (take s).1
  hands s c = []

  -- The records that a run accepts, and those that it hands out, each in the order of the calls.
  pub accepted : Sizes → Store R → List (Call R) → List R
  accepted z s [] = []
  accepted z s (c ∷ cs) = accepts z s c ++ accepted z (step z s c) cs

  pub handed : Sizes → Store R → List (Call R) → List R
  handed z s [] = []
  handed z s (c ∷ cs) = hands s c ++ handed z (step z s c) cs

  write-contents :
      (z : Sizes) (s : Store R) (r : R) (n : ℕ) (slot : Option ℕ)
      → contents s.queue ++ accepts z s (writes r n slot) ≡ contents (write z s r n slot).0.queue
  unfolding write append full
  write-contents z s r n slot = grind (arith, append-nil, contents-append)

  connection-contents :
      (z : Sizes) (s : Store R) (r : R) (shape : Shape) (slot : Option ℕ)
      → contents s.queue ++ accepts z s (connects r shape slot)
        ≡ contents (connection z s r shape slot).0.queue
  unfolding connection append full
  connection-contents z s r shape slot = grind (arith, append-nil, contents-append)

  -- A call that is not `Close` hands out, of what is queued and what it accepts, the oldest first.
  step-contents :
      (z : Sizes) (s : Store R) (c : Call R)
      → c ≢ closes
      → contents s.queue ++ accepts z s c ≡ hands s c ++ contents (step z s c).queue
  unfolding step take take_from release_as reserve return
  step-contents z s (writes r n slot) h = write-contents z s r n slot
  step-contents z s (connects r shape slot) h = connection-contents z s r shape slot
  step-contents z s takes h = split s.queue refl
    where
      split :
          (q : List (Entry R))
          → s.queue ≡ q
          → contents q ++ [] ≡ handed_if (take_from s q).1 ++ contents (take_from s q).0.queue
      split [] e = ap contents (sym e)
      split (x ∷ es) e = append-nil (held_in x.stored ++ contents es)
  step-contents z s (releases i path) h = ground (arith, append-nil (contents s.queue))
  step-contents z s (reserves owner n) h = ground (arith, append-nil (contents s.queue))
  step-contents z s (returns owner n) h = ground (arith, append-nil (contents s.queue))
  step-contents z s closes h = absurd (h refl)

  closed-step :
      (z : Sizes) (s : Store R) (c : Call R)
      → s.stats.is_closed ≡ true
      → s.queue ≡ []
      → (accepts z s c ≡ [])
        × (hands s c ≡ [])
        × ((step z s c).stats.is_closed ≡ true)
        × ((step z s c).queue ≡ [])
  unfolding step write connection take release_as reserve return close is_owner refuse_work
      grant_work give_back
  closed-step z s (writes r n slot) k q = ground arith
  closed-step z s (connects r shape slot) k q = ground arith
  closed-step z s takes k q = ground arith
  closed-step z s (releases i path) k q = ground arith
  closed-step z s (reserves owner n) k q = ground arith
  closed-step z s (returns owner n) k q = ground arith
  closed-step z s closes k q = ground arith

  closed-run :
      (z : Sizes) (cs : List (Call R)) (s : Store R)
      → s.stats.is_closed ≡ true
      → s.queue ≡ []
      → (accepted z s cs ≡ []) × (handed z s cs ≡ [])
  unfolding accepted handed
  closed-run z [] s k q = (refl, refl)
  closed-run z (c ∷ cs) s k q =
      let (a, h, k', q') = closed-step z s c k q in
      let (a', h') = closed-run z cs (step z s c) k' q' in (rw (a, a') refl, rw (h, h') refl)

  closing-run :
      (z : Sizes) (cs : List (Call R)) (s : Store R)
      → (accepted z (step z s closes) cs ≡ []) × (handed z (step z s closes) cs ≡ [])
  unfolding step close
  closing-run z cs s = closed-run z cs (step z s closes) refl refl

  -- One call in front of a run.
  contents-cons :
      (held a h held' bs hs rest : List R)
      → held ++ a ≡ h ++ held'
      → held' ++ bs ≡ hs ++ rest
      → held ++ (a ++ bs) ≡ (h ++ hs) ++ rest
  contents-cons held a h held' bs hs rest p q =
      sym (append_assoc held a bs)
      ∙ ap (λ l. l ++ bs) p
      ∙ append_assoc h held' bs
      ∙ ap (◌++◌ h) q
      ∙ sym (append_assoc h hs rest)

  -- From any store, and over any calls: the records queued at first and then those accepted, in
  -- their order, are the records that the `Take`s hand out, in that order, and then some rest; so
  -- what a worker is handed is neither reordered nor repeated, and none that precedes it is skipped.
  pub run-contents :
      (z : Sizes) (cs : List (Call R)) (s : Store R)
      → (rest : List R) × (contents s.queue ++ accepted z s cs ≡ handed z s cs ++ rest)
  unfolding accepted handed
  run-contents z [] s = (contents s.queue, append-nil (contents s.queue))
  run-contents z (closes ∷ cs) s =
      let after = closing-run z cs s in
      (contents s.queue, rw (after.0, after.1) (append-nil (contents s.queue)))
  run-contents z (c ∷ cs) s =
      let (rest, e) = run-contents z cs (step z s c) in
      (
        rest,
        contents-cons (contents s.queue) (accepts z s c) (hands s c) (contents (step z s c).queue)
            (accepted z (step z s c) cs) (handed z (step z s c) cs) rest
            (step-contents z s c (λ p. cc)) e,
      )

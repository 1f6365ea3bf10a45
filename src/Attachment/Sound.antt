-- ===== src/Attachment/Sound.antt =====
-- attachment/group_lifecycle.go, connection/seal.go: the seal of a group of owners.
use edge_observer.Prelude.{
  ◌≡◌, refl, ◌∙◌, Bool, true, false, not, ◌||◌, List, [], ◌∷◌, map, arith, if◌then◌else◌, add64,
}
use edge_observer.Connection.{counted, uncounted, Counters, add_count}
use edge_observer.Connection.Balance.{IsConserved, identities-IsConserved, is_balanced}
use edge_observer.Connection.Seal.{Withdrawal, Drained, Seal, sound, seal_of, withdrawn, drained_as}
use edge_observer.Attachment.{
  stop_producing, join_stops, drain, join_drains, account, join_accounts, sum_counters,
  counters_or_unknown,
}
use edge_observer.Attachment.Sums.{sum_counters-IsConserved, added_to_none}

-- What the three calls of an owner return, and whether they failed.
pub record Answers : Type 0 where
  pub withdrawal : Withdrawal
  pub stop_failed : Bool
  pub drained : Drained
  pub drain_failed : Bool
  pub counters : Counters
  pub account_failed : Bool

abbrev pub stops : List Answers → List (Withdrawal × Bool)
stops = map (λ o. (o.withdrawal, o.stop_failed))

abbrev pub drains : List Answers → List (Drained × Bool)
drains = map (λ o. (o.drained, o.drain_failed))

abbrev pub accounts : List Answers → List (Counters × Bool)
accounts = map (λ o. (o.counters, o.account_failed))

-- The seal of one owner alone, and of a group of owners.
unfoldable pub owner_seal : Answers → Seal
unfolding seal_of
owner_seal o =
    seal_of (withdrawn o.withdrawal o.stop_failed) (drained_as o.drained o.drain_failed) o.counters
      o.account_failed

unfoldable pub group_seal : List Answers → Seal
group_seal all =
    let (w, e1) = stop_producing (stops all) in
    let (d, e2) = drain (drains all) in
    let (c, e3) = account (accounts all) in seal_of (withdrawn w e1) (drained_as d e2) c e3

-- Nothing failed, all is complete, and the counters are conserved with what the drain left.
record IsClean (o : Answers) : Type 0 where
  stopped : o.withdrawal.complete ≡ true
  stop_kept : o.stop_failed ≡ false
  emptied : o.drained.complete ≡ true
  drain_kept : o.drain_failed ≡ false
  account_kept : o.account_failed ≡ false
  conserved : is_balanced (record o.counters { outstanding = o.drained.outstanding }) ≡ true

owner_seal-IsClean : (o : Answers) → sound (owner_seal o) ≡ true → IsClean o
unfolding owner_seal sound is_balanced
owner_seal-IsClean o h = ground arith

-- Each seal of an owner alone is sound.
abbrev pub AllSound : List Answers → Type 0
AllSound [] = Unit {0}
AllSound (o ∷ os) = (sound (owner_seal o) ≡ true) × AllSound os

stops_clean :
    (all : List Answers) (w : Withdrawal) (f : Bool)
    → AllSound all
    → ((join_stops w f (stops all)).0.complete ≡ w.complete) × ((join_stops w f (stops all)).1 ≡ f)
unfolding join_stops
stops_clean [] w f h = (refl, refl)
stops_clean (o ∷ os) w f (h, hs) =
    let c = owner_seal-IsClean o h in
    ground (
      arith,
      c.stopped,
      c.stop_kept,
      stops_clean os
          (record { instances = add64 w.instances o.withdrawal.instances; complete = w.complete })
          f,
    )

drains_clean :
    (all : List Answers) (d : Drained) (f : Bool)
    → AllSound all
    → ((join_drains d f (drains all)).0.complete ≡ d.complete)
      × ((join_drains d f (drains all)).1 ≡ f)
unfolding join_drains
drains_clean [] d f h = (refl, refl)
drains_clean (o ∷ os) d f (h, hs) =
    let c = owner_seal-IsClean o h in
    ground (
      arith,
      c.emptied,
      c.drain_kept,
      drains_clean os
          (record {
            delivered = add_count d.delivered o.drained.delivered;
            outstanding = add_count d.outstanding o.drained.outstanding;
            complete = d.complete;
          })
          f,
    )

accounts_clean :
    (all : List Answers) (c : Counters) (f : Bool)
    → AllSound all
    → (join_accounts c f (accounts all)).1 ≡ f
unfolding join_accounts
accounts_clean [] c f h = refl
accounts_clean (o ∷ os) c f (h, hs) =
    let k = owner_seal-IsClean o h in
    ground (
      arith,
      k.account_kept,
      accounts_clean os (sum_counters c (counters_or_unknown o.counters o.account_failed)) f,
    )

-- What is drained, and the counters, of one more owner that is clean.
abbrev drained_with : Drained → Answers → Drained
drained_with d o = record {
  delivered = add_count d.delivered (if o.drain_failed then uncounted else o.drained.delivered);
  outstanding =
      add_count d.outstanding (if o.drain_failed then uncounted else o.drained.outstanding);
  complete = if o.drain_failed || not o.drained.complete then false else d.complete;
}

one_more :
    (o : Answers) (c : Counters) (d : Drained)
    → IsClean o
    → IsConserved (record c { outstanding = d.outstanding })
    → IsConserved (record (sum_counters c (counters_or_unknown o.counters o.account_failed)) {
      outstanding = (drained_with d o).outstanding;
    })
unfolding sum_counters
one_more o c d k h =
    rw (k.drain_kept, k.account_kept)
      (sum_counters-IsConserved (record c { outstanding = d.outstanding })
        (record o.counters { outstanding = o.drained.outstanding }) h
        ((identities-IsConserved _).0 k.conserved))

joined-IsConserved :
    (all : List Answers) (c : Counters) (d : Drained) (f g : Bool)
    → AllSound all
    → IsConserved (record c { outstanding = d.outstanding })
    → IsConserved (record ((join_accounts c f (accounts all)).0) {
      outstanding = (join_drains d g (drains all)).0.outstanding;
    })
unfolding join_accounts join_drains
joined-IsConserved [] c d f g h k = k
joined-IsConserved (o ∷ os) c d f g (h, hs) k =
    joined-IsConserved os (sum_counters c (counters_or_unknown o.counters o.account_failed))
      (drained_with d o) (f || o.account_failed) (g || (o.drain_failed || not o.drained.complete))
      hs (one_more o c d (owner_seal-IsClean o h) k)

-- The drain of a group before its first owner.
abbrev nothing_drained : Drained
nothing_drained = record { delivered = counted 0; outstanding = counted 0; complete = true }

first-IsConserved :
    (o : Answers)
    → IsClean o
    → IsConserved (record (counters_or_unknown o.counters o.account_failed) {
      outstanding = (drained_with nothing_drained o).outstanding;
    })
first-IsConserved o k =
    rw (k.drain_kept, k.account_kept)
      (added_to_none o.counters o.drained.outstanding ((identities-IsConserved _).0 k.conserved))

sound_of :
    (w : Withdrawal) (d : Drained) (c : Counters)
    → w.complete ≡ true
    → d.complete ≡ true
    → IsConserved (record c { outstanding = d.outstanding })
    → sound (seal_of (withdrawn w false) (drained_as d false) c false) ≡ true
unfolding sound seal_of is_balanced
sound_of w d c h k b =
    ground (arith, (identities-IsConserved (record c { outstanding = d.outstanding })).1 b)

group_parts :
    (w : Withdrawal) (d : Drained) (c : Counters) (e1 e2 e3 : Bool)
    → w.complete ≡ true
    → d.complete ≡ true
    → e1 ≡ false
    → e2 ≡ false
    → e3 ≡ false
    → IsConserved (record c { outstanding = d.outstanding })
    → sound (seal_of (withdrawn w e1) (drained_as d e2) c e3) ≡ true
group_parts w d c e1 e2 e3 h k p q r b = rw (p, q, r) (sound_of w d c h k b)

-- Where the seal of each of one or more owners alone would be sound, so is that of the group: no step
-- of it failed, all of it is complete, and its counters, which are the owners' added up, balance
-- with what all the drains left outstanding.
pub group_seal-sound :
    (o : Answers) (os : List Answers) → AllSound (o ∷ os) → sound (group_seal (o ∷ os)) ≡ true
unfolding group_seal stop_producing drain account join_stops join_drains
group_seal-sound o os (h, hs) =
    let k = owner_seal-IsClean o h in
    let stopped = stops_clean (o ∷ os) (record { instances = 0; complete = true }) false (h, hs) in
    let drained = drains_clean (o ∷ os) nothing_drained false (h, hs) in
    group_parts _ _ _ _ _ _ stopped.0 drained.0 stopped.1 drained.1
      (accounts_clean os _ _ hs ∙ k.account_kept)
      (joined-IsConserved os (counters_or_unknown o.counters o.account_failed)
        (drained_with nothing_drained o) o.account_failed (o.drain_failed || not o.drained.complete)
        hs (first-IsConserved o k))

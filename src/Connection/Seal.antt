-- ===== src/Connection/Seal.antt =====
-- connection/seal.go: the end of a run's accounting. The producer is the caller's: three functions of
-- a state of its own, that also say whether they failed. Times and the texts of reasons are left out,
-- and so is the value that a count which is not known has, since nothing reads it.
use edge_observer.Prelude.{
  ℕ, ◌≡◌, refl, ◌↔◌, Bool, true, false, not, ◌&&◌, List, [], ◌∷◌, ◌++◌, arith, ◌==◌, if◌then◌else◌,
}
use edge_observer.Connection.{Count, Counters, balanced}
use edge_observer.Connection.Balance.{is_balanced, IsConserved, identities-IsConserved}

-- `Withdrawal`.
pub record Withdrawal : Type 0 where
  pub instances : ℕ
  pub complete : Bool

-- `Drained`.
pub record Drained : Type 0 where
  pub delivered : Count
  pub outstanding : Count
  pub complete : Bool

-- `Producer`; the last of what a call returns is whether it failed.
pub record Producer (S : Type 0) : Type 0 where
  pub stop_producing : S → S × Withdrawal × Bool
  pub drain : ℕ → S → S × Drained × Bool
  pub account : S → S × Counters × Bool

-- The steps that a seal says have failed.
pub data Shortfall : Type 0 where
  still_producing not_drained counters_unread : Shortfall

-- `Seal`.
pub record Seal : Type 0 where
  pub withdrawal : Withdrawal
  pub drained : Drained
  pub counters : Counters
  pub interrupted : Count
  pub complete : Bool
  pub because : List Shortfall

-- `Sound`.
unfoldable pub sound : Seal → Bool
unfolding balanced
sound s = s.complete && (balanced s.counters).0 && (balanced s.counters).1

-- `Sealer`, but for its producer and its clock; a wait that is not positive is none.
pub record Sealer : Type 0 where
  pub has_producer : Bool
  pub within : ℕ
  pub sealed : Bool

-- Why a run cannot be finalised.
pub data Fault : Type 0 where
  already_sealed no_producer no_wait : Fault

-- What `Stop` returns.
pub data Stopped : Type 0 where
  not_stopped : Fault → Stopped
  stopped : Seal → Stopped

abbrev pub withdrawn : Withdrawal → Bool → Withdrawal
withdrawn w err = if err then record w { complete = false } else w

abbrev pub drained_as : Drained → Bool → Drained
drained_as d err = if err then record d { complete = false } else d

abbrev pub unless : Bool → Shortfall → List Shortfall
unless b why = if b then [] else why ∷ []

-- The seal of the results of the three steps.
unfoldable pub seal_of : Withdrawal → Drained → Counters → Bool → Seal
seal_of w d c err = record {
  withdrawal = w;
  drained = d;
  counters = record c { outstanding = d.outstanding };
  interrupted = c.refused_in_flight;
  complete = w.complete && d.complete && not err;
  because =
      unless w.complete still_producing
      ++ (unless d.complete not_drained ++ unless (not err) counters_unread);
}

module _ {S : Type 0} (producer : Producer S) where
  -- The three steps in order, each on the state that the one before leaves.
  unfoldable pub finalise : ℕ → S → S × Seal
  unfolding seal_of
  finalise within s =
      let (s1, w, e1) = producer.stop_producing s in
      let (s2, d, e2) = producer.drain within s1 in
      let (s3, c, e3) = producer.account s2 in (s3, seal_of (withdrawn w e1) (drained_as d e2) c e3)

  -- `Stop`.
  unfoldable pub stop : Sealer → S → Sealer × S × Stopped
  unfolding finalise
  stop r s =
      if r.sealed
      then (r, s, not_stopped already_sealed)
      else if not r.has_producer
      then (r, s, not_stopped no_producer)
      else if r.within == 0
      then (r, s, not_stopped no_wait)
      else let (s', seal) = finalise r.within s in (record r { sealed = true }, s', stopped seal)

iff_trans :
    {A B C D E F P Q : Type 0} → A ↔ (B × C × D × E × F × P) → P ↔ Q → A ↔ (B × C × D × E × F × Q)
iff_trans h k = (
  (λ a. let (b, c, d, e, f, p) = h.0 a in (b, c, d, e, f, k.0 p)),
  (λ (b, c, d, e, f, q). h.1 (b, c, d, e, f, k.1 q)),
)

sound_lem :
    (w : Withdrawal) (d : Drained) (c : Counters) (e1 e2 e3 : Bool)
    → (sound (seal_of (withdrawn w e1) (drained_as d e2) c e3) ≡ true) ↔ (
        (w.complete ≡ true)
        × (e1 ≡ false)
        × (d.complete ≡ true)
        × (e2 ≡ false)
        × (e3 ≡ false)
        × (is_balanced (record c { outstanding = d.outstanding }) ≡ true))
unfolding sound seal_of is_balanced
sound_lem w d c e1 e2 e3 = ground arith

stop_first :
    {S : Type 0} (producer : Producer S) (r : Sealer) (s : S)
    → r.sealed ≡ false
    → r.has_producer ≡ true
    → (r.within == 0) ≡ false
    → stop producer r s ≡ (
      record r { sealed = true },
      (finalise producer r.within s).0,
      stopped (finalise producer r.within s).1,
    )
unfolding stop
stop_first producer r s h p w = ground arith

-- A sealer that was not used, with a producer and a wait, seals the run: the seal is sound just where
-- no step failed or was incomplete and the counters, read last, balance with what the drain left
-- outstanding. Every later stop is refused, and leaves the producer as it is.
pub stop_lem :
    {S : Type 0} (producer : Producer S) (r : Sealer) (s t : S)
    → r.sealed ≡ false
    → r.has_producer ≡ true
    → (r.within == 0) ≡ false
    → let (s1, w, e1) = producer.stop_producing s in
      let (s2, d, e2) = producer.drain r.within s1 in
      let (s3, c, e3) = producer.account s2 in
      let (s4, seal) = finalise producer r.within s in
      (stop producer r s ≡ (record r { sealed = true }, s3, stopped seal))
      × ((sound seal ≡ true) ↔ (
          (w.complete ≡ true)
          × (e1 ≡ false)
          × (d.complete ≡ true)
          × (e2 ≡ false)
          × (e3 ≡ false)
          × IsConserved (record c { outstanding = d.outstanding })))
      × (stop producer (record r { sealed = true }) t
          ≡ (record r { sealed = true }, t, not_stopped already_sealed))
unfolding stop finalise
stop_lem producer r s t h p n =
    let (s1, w, e1) = producer.stop_producing s in
    let (s2, d, e2) = producer.drain r.within s1 in
    let (s3, c, e3) = producer.account s2 in
    (
      stop_first producer r s h p n,
      iff_trans (sound_lem w d c e1 e2 e3)
          (identities-IsConserved (record c { outstanding = d.outstanding })),
      refl,
    )

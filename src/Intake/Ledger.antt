-- ===== src/Intake/Ledger.antt =====
-- The store's accounting, over any interleaving of its calls.
use edge_observer.Prelude.{
  ℕ, zero, suc, ◌+◌, ◌-◌, ◌≤◌, ◌<◌, ◌≡◌, refl, true, false, ◌||◌, List, [], ◌∷◌, ◌++◌, Option, none,
  some, arith, if◌then◌else◌, u64_mod, length, length-append, get_elem?, set, Option-cases, inl,
  inr,
}
use edge_observer.Gate.State.{RefundPath}
use edge_observer.Intake.State.{Owner, parsing, policy, other, Entry, Store, left}
use edge_observer.Intake.Allowance.{
  Sizes, IsSized, Shape, fragment_total, fragment_charge-take_off, connection_total,
  connection_charge-take_off,
}
use edge_observer.Intake.Signal.{lacks_room, answers_limit, some_call, step-Marks}
use edge_observer.Intake.{
  Call, writes, connects, takes, releases, reserves, returns, closes, new, full, close_signal,
  append, write, connection, take, take_from, release_as, reserve, is_owner, refuse_work,
  grant_work, return, give_back, close, bytes_of, step, run,
}

module _ {R : Type 0} where
  -- The bytes and the number of the taken entries that are not released.
  abbrev pub owed : List (Entry R) → ℕ
  owed [] = 0
  owed (e ∷ es) = (if e.released then 0 else e.bytes) + owed es

  abbrev pub outstanding : List (Entry R) → ℕ
  outstanding [] = 0
  outstanding (e ∷ es) = (if e.released then 0 else 1) + outstanding es

  abbrev pub AllFresh : List (Entry R) → Type 0
  AllFresh [] = Unit {0}
  AllFresh (e ∷ es) = (e.released ≡ false) × AllFresh es

  pub record IsBalanced (limit : ℕ) (s : Store R) : Type 0 where
    pub limited : s.stats.limit_bytes ≡ limit
    pub fresh : AllFresh s.queue
    -- `Bytes` is what the queued entries and those taken and not released are charged.
    pub bytes_count : s.stats.bytes ≡ bytes_of s.queue + owed s.taken
    pub queued_count : s.stats.queued ≡ length s.queue
    pub leased_count : s.stats.leased ≡ outstanding s.taken
    -- No owner's balance is below zero, and all charges together are within the limit.
    pub parsing_owed : s.stats.parsing.back ≤ s.stats.parsing.given
    pub policy_owed : s.stats.policy.back ≤ s.stats.policy.given
    pub within :
        s.stats.bytes
          + (s.stats.parsing.given - s.stats.parsing.back)
          + (s.stats.policy.given - s.stats.policy.back)
        ≤ limit
    -- The signal is closed once where the store is marked exhausted, and else never.
    pub signalled : s.exhausted ≡ some (if s.stats.is_exhausted then 1 else 0)

  owed-append : (xs ys : List (Entry R)) → owed (xs ++ ys) ≡ owed xs + owed ys
  owed-append [] ys = omega arith
  owed-append (x ∷ xs) ys = omega (arith, owed-append xs ys)

  outstanding-append :
      (xs ys : List (Entry R)) → outstanding (xs ++ ys) ≡ outstanding xs + outstanding ys
  outstanding-append [] ys = omega arith
  outstanding-append (x ∷ xs) ys = omega (arith, outstanding-append xs ys)

  bytes_of-append : (xs ys : List (Entry R)) → bytes_of (xs ++ ys) ≡ bytes_of xs + bytes_of ys
  unfolding bytes_of
  bytes_of-append [] ys = omega arith
  bytes_of-append (x ∷ xs) ys = omega (arith, bytes_of-append xs ys)

  AllFresh-append : (xs ys : List (Entry R)) → AllFresh xs → AllFresh ys → AllFresh (xs ++ ys)
  AllFresh-append [] ys p q = q
  AllFresh-append (x ∷ xs) ys p q = (p.0, AllFresh-append xs ys p.1 q)

  owed-set :
      (es : List (Entry R)) (i : ℕ) (e f : Entry R)
      → get_elem? es i ≡ some e
      → e.released ≡ false
      → f.released ≡ true
      → (owed (set es i f) + e.bytes ≡ owed es) × (outstanding (set es i f) + 1 ≡ outstanding es)
  owed-set [] i e f q h k = cc
  owed-set (x ∷ es) zero e f q h k = ground arith
  owed-set (x ∷ es) (suc i) e f q h k = omega (arith, owed-set es i e f q h k)

  module _ (limit : ℕ) (small : limit < u64_mod) (z : Sizes) (sized : IsSized z) where
    append-IsBalanced :
        (s : Store R) (r : R) (slot : Option ℕ) (n : ℕ)
        → IsBalanced limit s
        → n ≤ left s.stats
        → IsBalanced limit (append s r slot n)
    unfolding append bytes_of
    append-IsBalanced s r slot n v h =
        let e : Entry R = record { stored = some r; bytes = n; released = false; slot = slot } in
        ground (
          arith,
          bytes_of-append s.queue (e ∷ []),
          length-append s.queue (e ∷ []),
          AllFresh-append s.queue (e ∷ []) v.fresh,
        )

    full-IsBalanced : (s : Store R) → IsBalanced limit s → IsBalanced limit (full s)
    unfolding full close_signal
    full-IsBalanced s v = ground arith

    write-IsBalanced :
        (s : Store R) (r : R) (n : ℕ) (slot : Option ℕ)
        → IsBalanced limit s
        → IsBalanced limit (write z s r n slot).0
    unfolding write full close_signal
    write-IsBalanced s r n slot v = ground (
      arith,
      fragment_charge-take_off z n (left s.stats) sized,
      append-IsBalanced s r slot (fragment_total z n) v,
    )

    connection-IsBalanced :
        (s : Store R) (r : R) (shape : Shape) (slot : Option ℕ)
        → IsBalanced limit s
        → IsBalanced limit (connection z s r shape slot).0
    unfolding connection full close_signal
    connection-IsBalanced s r shape slot v = ground (
      arith,
      connection_charge-take_off z shape (left s.stats) sized,
      append-IsBalanced s r slot (connection_total z shape) v,
    )

    take-IsBalanced : (s : Store R) → IsBalanced limit s → IsBalanced limit (take s).0
    unfolding take bytes_of
    take-IsBalanced s v = split s.queue refl
      where
        split : (q : List (Entry R)) → s.queue ≡ q → IsBalanced limit (take_from s q).0
        split [] e = v
        split (x ∷ es) e =
            ground (arith, owed-append s.taken (x ∷ []), outstanding-append s.taken (x ∷ []))

    release_as-IsBalanced :
        (s : Store R) (i : ℕ) (path : RefundPath)
        → IsBalanced limit s
        → IsBalanced limit (release_as s i path)
    unfolding release_as
    release_as-IsBalanced s i path v = elim (Option-cases (get_elem? s.taken i)) [
      | inl e ↦ rw (e, release_as) v
      | inr (x, e) ↦
          rw (e, release_as)
            (ground (
              arith,
              owed-set s.taken i x (record x { released = true; stored = none; slot = none }) e,
            ))
    ]

    reserve-IsBalanced :
        (s : Store R) (owner : Owner) (n : ℕ)
        → IsBalanced limit s
        → IsBalanced limit (reserve s owner n).0
    unfolding reserve is_owner refuse_work grant_work
    reserve-IsBalanced s owner n v = ground arith

    close-IsBalanced : (s : Store R) → IsBalanced limit s → IsBalanced limit (close s)
    unfolding close bytes_of
    close-IsBalanced s v = ground arith

    -- A call of `Return` gives back no more than the owner holds; every other call is any.
    abbrev pub Owed : Store R → Call R → Type 0
    Owed s (returns parsing n) = s.stats.parsing.back + n ≤ s.stats.parsing.given
    Owed s (returns policy n) = s.stats.policy.back + n ≤ s.stats.policy.given
    Owed s c = Unit {0}

    return-IsBalanced :
        (s : Store R) (owner : Owner) (n : ℕ)
        → Owed s (returns owner n)
        → IsBalanced limit s
        → IsBalanced limit (return s owner n)
    unfolding return give_back
    return-IsBalanced s parsing n o v = ground arith
    return-IsBalanced s policy n o v = ground arith
    return-IsBalanced s other n o v = ground arith

    step-IsBalanced :
        (s : Store R) (c : Call R) → Owed s c → IsBalanced limit s → IsBalanced limit (step z s c)
    unfolding step
    step-IsBalanced s (writes r n slot) o v = write-IsBalanced s r n slot v
    step-IsBalanced s (connects r shape slot) o v = connection-IsBalanced s r shape slot v
    step-IsBalanced s takes o v = take-IsBalanced s v
    step-IsBalanced s (releases i path) o v = release_as-IsBalanced s i path v
    step-IsBalanced s (reserves owner n) o v = reserve-IsBalanced s owner n v
    step-IsBalanced s (returns owner n) o v = return-IsBalanced s owner n o v
    step-IsBalanced s closes o v = close-IsBalanced s v

    -- Each call along a run gives back no more than its owner then holds.
    abbrev pub AllOwed : Store R → List (Call R) → Type 0
    AllOwed s [] = Unit {0}
    AllOwed s (c ∷ cs) = Owed s c × AllOwed (step z s c) cs

    run-IsBalanced :
        (cs : List (Call R)) (s : Store R)
        → AllOwed s cs
        → IsBalanced limit s
        → IsBalanced limit (run z s cs)
    unfolding run
    run-IsBalanced [] s o v = v
    run-IsBalanced (c ∷ cs) s o v = run-IsBalanced cs (step z s c) o.1 (step-IsBalanced s c o.0 v)

    -- Along a run the store is marked exhausted by the insertions that lack room, and these are
    -- those that `ErrLimit` answers.
    run-Marks :
        (cs : List (Call R)) (s : Store R)
        → AllOwed s cs
        → IsBalanced limit s
        → (some_call answers_limit z s cs ≡ some_call lacks_room z s cs)
          × ((run z s cs).stats.is_exhausted
              ≡ (s.stats.is_exhausted || some_call lacks_room z s cs))
    unfolding run
    run-Marks [] s o v = (refl, ground arith)
    run-Marks (c ∷ cs) s o v =
        let later = run-Marks cs (step z s c) o.1 (step-IsBalanced s c o.0 v) in
        let here = step-Marks z sized s _ v.signalled (ground (arith, v)) c in
        (ground (arith, here, later), ground (arith, here, later))

    -- With sizes that are not zero, and after any calls on a new store in which each owner gives back
    -- no more than it then holds: `Bytes` is what the entries queued and those taken and not released
    -- are charged, `Queued` and `Leased` count them, no owner's balance is below zero, and all
    -- charges together are within the limit; the signal has been closed once where some call was an
    -- insertion into the open store of more than it had left, and else never; and `ErrLimit` was
    -- returned by some call just where there was such an insertion.
    pub new-IsBalanced :
        (s : Store R) (cs : List (Call R))
        → new limit ≡ some s
        → AllOwed s cs
        → IsBalanced limit (run z s cs)
          × ((run z s cs).exhausted ≡ some (if some_call lacks_room z s cs then 1 else 0))
          × (some_call answers_limit z s cs ≡ some_call lacks_room z s cs)
    unfolding new bytes_of
    new-IsBalanced s cs e o =
        let v = run-IsBalanced cs s o (start limit refl e) in
        let marks = run-Marks cs s o (start limit refl e) in
        (v, ground (arith, v.signalled, marks.1, unmarked limit refl e), marks.0)
      where
        start : (n : ℕ) → n ≡ limit → new n ≡ some s → IsBalanced limit s
        start zero q e = cc
        start (suc n) q e = ground arith

        unmarked : (n : ℕ) → n ≡ limit → new n ≡ some s → s.stats.is_exhausted ≡ false
        unmarked zero q e = cc
        unmarked (suc n) q e = ground arith

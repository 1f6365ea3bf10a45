-- ===== src/Connection/Balance.antt =====
-- connection/account.go: when a run's counters balance.
use edge_observer.Prelude.{
  ℕ, ◌+◌, ◌%◌, ◌<◌, ◌≡◌, refl, ◌↔◌, Bool, true, false, ◌&&◌, List, [], ◌∷◌, arith, add64, u64_mod,
}
use edge_observer.Connection.{
  Count, counted, Counters, add_count, add_counts, Identity, identity, identities, balanced_from,
  balanced,
}

-- All of these are known.
unfoldable pub all_known : List Count → Bool
all_known [] = true
all_known (c ∷ cs) = c.known && all_known cs

-- The sum of their values.
unfoldable pub sum_of : List Count → ℕ
sum_of [] = 0
sum_of (c ∷ cs) = c.value + sum_of cs

-- A count is that of others: all are known, and the values agree modulo 2^64.
abbrev pub Agrees : Count → List Count → Type 0
Agrees left right =
    (left.known ≡ true) × (all_known right ≡ true) × (left.value ≡ sum_of right % u64_mod)

add_counts_unknown :
    (s : Count) (cs : List Count) → s.known ≡ false → (add_counts s cs).known ≡ false
unfolding add_counts add_count
add_counts_unknown s [] h = h
add_counts_unknown s (c ∷ cs) h = ground (arith, add_counts_unknown s cs h)

add_counts_known :
    (s : Count) (cs : List Count)
    → s.known ≡ true
    → ((add_counts s cs).known ≡ all_known cs)
      × (s.value < u64_mod
          → all_known cs ≡ true
          → (add_counts s cs).value ≡ (s.value + sum_of cs) % u64_mod)
unfolding add_counts add_count add64 all_known sum_of
add_counts_known s [] k = ground arith
add_counts_known s (c ∷ cs) k =
    ground
      (arith, add_counts_unknown c cs, add_counts_known (counted (add64 s.value c.value)) cs refl)

abbrev pub fulfilled : Identity → Bool
fulfilled i = i.evaluated && i.holds

identity_iff :
    (left : Count) (right : List Count)
    → (fulfilled (identity left right) ≡ true) ↔ Agrees left right
unfolding identity
identity_iff left right = ground (arith, add_counts_known (counted 0) right refl)

abbrev all_fulfilled : List Identity → Bool
all_fulfilled [] = true
all_fulfilled (i ∷ is) = fulfilled i && all_fulfilled is

balanced_from-false :
    (h c : Bool) (is : List Identity)
    → (h && c) ≡ false
    → ((balanced_from h c is).0 && (balanced_from h c is).1) ≡ false
unfolding balanced_from
balanced_from-false h c [] e = e
balanced_from-false h c (i ∷ is) e = ground (
  arith,
  balanced_from-false h false is,
  balanced_from-false false c is,
  balanced_from-false h c is,
)

balanced_from_lem :
    (is : List Identity)
    → ((balanced_from true true is).0 && (balanced_from true true is).1) ≡ all_fulfilled is
unfolding balanced_from
balanced_from_lem [] = refl
balanced_from_lem (i ∷ is) = ground (
  arith,
  balanced_from_lem is,
  balanced_from-false true false is,
  balanced_from-false false true is,
)

unfoldable pub is_balanced : Counters → Bool
unfolding balanced
is_balanced c = (balanced c).0 && (balanced c).1

and_iff :
    {P Q : Type 0} (b d : Bool) → (b ≡ true) ↔ P → (d ≡ true) ↔ Q → ((b && d) ≡ true) ↔ (P × Q)
and_iff true d p q = ((λ e. (p.0 refl, q.0 e)), (λ r. q.1 r.1))
and_iff false d p q = ((λ e. absurd (ground arith)), (λ r. p.1 r.0))

last_iff : {P : Type 0} (b : Bool) → (b ≡ true) ↔ P → ((b && true) ≡ true) ↔ P
last_iff true p = p
last_iff false p = p

-- What each identity says of the counters.
abbrev pub IsConserved : Counters → Type 0
IsConserved c =
    Agrees c.ordered (c.reservation_attempts ∷ c.refused_in_flight ∷ [])
    × (Agrees c.reservation_attempts (c.reservations ∷ c.reservation_failures ∷ [])
        × (Agrees c.reservations (c.submitted ∷ counted 0 ∷ [])
            × (Agrees c.submitted
                  (c.delivered ∷ c.undecodable ∷ c.lost_after_submission ∷ c.outstanding ∷ [])
                × (Agrees c.transfers
                      (c.fragments ∷ c.empty ∷ c.unmeasured ∷ c.fragments_refused ∷ [])
                    × Agrees (add_count c.fragments c.fragments_refused)
                        (c.persisted ∷ c.persisted_dropped ∷ c.persisted_refused ∷ [])))))

identities_iff : (c : Counters) → (all_fulfilled (identities c) ≡ true) ↔ IsConserved c
unfolding identities
identities_iff c = and_iff _ _ (identity_iff _ _) (
    and_iff _ _ (identity_iff _ _) (
      and_iff _ _ (identity_iff _ _) (
        and_iff _ _ (identity_iff _ _)
          (and_iff _ _ (identity_iff _ _) (last_iff _ (identity_iff _ _))))))

-- Balanced reports that all identities were evaluated and hold just where each stage's counter and
-- those of the parts it goes into are known, and it is their sum modulo 2^64.
pub identities-IsConserved : (c : Counters) → (is_balanced c ≡ true) ↔ IsConserved c
unfolding balanced is_balanced all_known sum_of add64
identities-IsConserved c = rw (balanced_from_lem (identities c)) (identities_iff c)

-- ===== src/Held/Bounds.antt =====
-- A cut is permanent and its first reason stays; a shed map is what it was, and its deletions are
-- bounded by what it holds.
use Prim.Native.String.{String}
use text.Mathlib.Text.{◌==◌ as str_eq}
use text.Mathlib.TextEquality.{eq_iff}
use edge_observer.Prelude.{
  ◌≤◌, ◌≡◌, ◌⊎◌, refl, sym, ap, Bool, true, false, ◌||◌, not, List, [], ◌∷◌, none, some, leb,
  if◌then◌else◌, length, arith, Bool-cases, inl, inr, Option-cases,
}
use mathlib.Core.Logic.{if_pos, if_neg}
use edge_observer.Held.{
  Loss, stop_loss, stop, stop_all, reason_of, authorize, Churn, churn_floor, copy_map, note, shed,
  lookup, delete, deleted,
}

-- The first reason that is not empty.
abbrev pub first_reason : List String → String
first_reason [] = ""
first_reason (r ∷ rs) = if str_eq r "" then first_reason rs else r

reason_after : Loss → List String → String
reason_after l rs = if str_eq l.reason "" then first_reason rs else l.reason

stop_all-reason_after :
    (rs : List String) (l : Loss)
    → stop_all (some l) rs ≡ some (record { reason = reason_after l rs })
unfolding stop_all stop stop_loss reason_after
stop_all-reason_after [] l = ground (arith, eq_iff l.reason "")
stop_all-reason_after (r ∷ rs) l = ground (
  arith,
  eq_iff l.reason "",
  eq_iff r "",
  stop_all-reason_after rs (if str_eq l.reason "" then record { reason = r } else l),
)

swap_branches {ℓ} :
    {A : Type ℓ} (t : Bool) (a b : A) → (if not t then b else a) ≡ (if t then a else b)
swap_branches true a b = refl
swap_branches false a b = refl

-- After any stops a token's reason is the one it had, or else the first of them that is not empty;
-- and an enqueue on it runs, once, exactly where that reason is empty.
pub stop_all_lem {ℓ} :
    {Q : Type ℓ} (l : Loss) (rs : List String) (enqueue : Q → Q) (q : Q)
    → let reason = if str_eq l.reason "" then first_reason rs else l.reason in
      (reason_of (stop_all (some l) rs) ≡ reason)
      × (authorize (stop_all (some l) rs) enqueue q
          ≡ (if str_eq reason "" then (enqueue q, true) else (q, false)))
unfolding reason_of authorize reason_after
stop_all_lem l rs enqueue q =
    rw (stop_all-reason_after rs l)
      (refl, swap_branches (str_eq (reason_after l rs) "") (enqueue q, true) (q, false))

module _ {ℓ κ} {K : Type ℓ} {V : Type κ} where
  copy_map_lem : (m : List (K × V)) → copy_map m ≡ m
  copy_map_lem [] = refl
  copy_map_lem ((k, v) ∷ m) = ap (◌∷◌ (k, v)) (copy_map_lem m)

  shed_lem :
      (m : List (K × V)) (c : Churn)
      → ((shed m c).0 ≡ m)
        × (((shed m c).1.deleted ≤ churn_floor) ⊎ ((shed m c).1.deleted ≤ length m))
  unfolding shed
  shed_lem m c = elim (Bool-cases (leb c.deleted churn_floor || leb c.deleted (length m))) [
    | inl e ↦ rw e (refl, ground arith)
    | inr e ↦ rw e (copy_map_lem m, inl (omega arith))
  ]

module _ {ℓ κ} {K : Type ℓ} {V : Type κ} (same : Discrete K) where
  delete-missing : (k : K) (m : List (K × V)) → lookup same k m ≡ none → delete same k m ≡ m
  unfolding lookup delete
  delete-missing k [] e = refl
  delete-missing k ((j, v) ∷ m) e = elim (same j k) [
    | yes p ↦ absurd (none-ne-some (rw (if_pos _ p) at e))
    | no p ↦ rw (if_neg _ p) (ap (◌∷◌ (j, v)) (delete-missing k m (rw (if_neg _ p) at e)))
  ]
    where
      none-ne-some : (q : some v ≡ none) → ⊥
      none-ne-some q = cc

  -- Deleting a key leaves the map with that entry gone, and where the deletions noted were bounded by
  -- the floor or by the map's size before, they are bounded by the floor or by its size after.
  pub deleted_lem :
      (k : K) (m : List (K × V)) (c : Churn)
      → (c.deleted ≤ churn_floor) ⊎ (c.deleted ≤ length m)
      → let (m', c') = deleted same k m c in
        (m' ≡ delete same k m) × ((c'.deleted ≤ churn_floor) ⊎ (c'.deleted ≤ length m'))
  unfolding deleted
  deleted_lem k m c h = elim (Option-cases (lookup same k m)) [
    | inl e ↦ rw (e, deleted) (sym (delete-missing k m e), h)
    | inr (v, e) ↦
        rw (e, deleted) (let s = shed_lem (delete same k m) (note c) in (s.0, rw s.0 s.1))
  ]

-- ===== src/Held.antt =====
-- held/loss.go and held/churn.go: the loss token that one connection's capture and retained input
-- share, and what keeps a long-lived map bounded by what it holds.
-- Each call on a token runs under its mutex. A map is an association list with one entry a key.
pub mod Bounds
mod Tests
use Prim.Native.String.{String}
use text.Mathlib.Text.{◌==◌ as str_eq}
use edge_observer.Prelude.{
  ℕ, ◌+◌, Bool, true, false, ◌||◌, not, List, [], ◌∷◌, Option, none, some, leb, if◌then◌else◌,
  length,
}
use mathlib.Core.Logic.{ite}

-- `Loss`: the reason, empty while nothing was lost.
pub record Loss : Type 0 where
  pub reason : String

-- `Loss.Stop`.
pub stop_loss : Loss → String → Loss
stop_loss l reason = if str_eq l.reason "" then record { reason = reason } else l

-- `Loss.Stop`, `Loss.Reason` and `Loss.Authorize` on a pointer that may be nil.
pub stop : Option Loss → String → Option Loss
unfolding stop_loss
stop none reason = none
stop (some l) reason = some (stop_loss l reason)

pub reason_of : Option Loss → String
reason_of none = ""
reason_of (some l) = l.reason

-- `enqueue` acts on the caller's queue `q`.
pub authorize {ℓ} : {Q : Type ℓ} → Option Loss → (Q → Q) → Q → Q × Bool
unfolding reason_of
authorize none enqueue q = (enqueue q, true)
authorize (some l) enqueue q = if not (str_eq l.reason "") then (q, false) else (enqueue q, true)

pub stop_all : Option Loss → List String → Option Loss
unfolding stop
stop_all l [] = l
stop_all l (r ∷ rs) = stop_all (stop l r) rs

-- `Churn`.
pub record Churn : Type 0 where
  pub deleted : ℕ
  pub rebuilds : ℕ

-- `churnFloor`.
abbrev pub churn_floor : ℕ
churn_floor = 64

-- `Churn.Note`.
abbrev pub note : Churn → Churn
note c = record c { deleted = c.deleted + 1 }

module _ {ℓ κ} {K : Type ℓ} {V : Type κ} where
  abbrev pub copy_map : List (K × V) → List (K × V)
  copy_map [] = []
  copy_map ((k, v) ∷ m) = (k, v) ∷ copy_map m

  -- `Shed`.
  pub shed : List (K × V) → Churn → List (K × V) × Churn
  shed m c =
      if leb c.deleted churn_floor || leb c.deleted (length m)
      then (m, c)
      else (copy_map m, record { deleted = 0; rebuilds = c.rebuilds + 1 })

module _ {ℓ κ} {K : Type ℓ} {V : Type κ} (same : Discrete K) where
  pub lookup : K → List (K × V) → Option V
  lookup k [] = none
  lookup k ((j, v) ∷ m) = ite (same j k) (some v) (lookup k m)

  -- `delete(m, key)`.
  pub delete : K → List (K × V) → List (K × V)
  delete k [] = []
  delete k ((j, v) ∷ m) = ite (same j k) m ((j, v) ∷ delete k m)

  -- `Deleted`.
  pub deleted : K → List (K × V) → Churn → List (K × V) × Churn
  unfolding lookup delete shed
  deleted k m c = elim (lookup k m) [ none ↦ (m, c) | some v ↦ shed (delete k m) (note c) ]

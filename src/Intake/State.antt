-- ===== src/Intake/State.antt =====
-- intake/intake.go, the types: the store, its entries, owners and counters.
use edge_observer.Prelude.{ℕ, ◌+◌, ◌-◌, Bool, false, List, Option}
use edge_observer.Gate.State.{RefundPath}

-- `Owner`; `other` is any value that is not an owner.
pub data Owner : Type 0 where
  parsing policy other : Owner

-- `ErrLimit`, `ErrClosed`, `ErrUninitialized`.
pub data Error : Type 0 where
  limit closed uninitialized : Error

-- A work charge: the int64 `given - back`, which is below zero where more came back.
pub record Balance : Type 0 where
  pub given : ℕ
  pub back : ℕ

-- `Stats`.
pub record Stats : Type 0 where
  pub limit_bytes : ℕ
  pub bytes : ℕ
  pub queued : ℕ
  pub leased : ℕ
  pub fragments : ℕ
  pub connections : ℕ
  pub fragments_refused : ℕ
  pub connections_refused : ℕ
  pub is_exhausted : Bool
  pub is_closed : Bool
  pub parsing : Balance
  pub policy : Balance
  pub parsing_refused : ℕ
  pub policy_refused : ℕ

-- `Entry`, less its links; `stored` is empty once it is released.
pub record Entry (R : Type 0) : Type 0 where
  pub stored : Option R
  pub bytes : ℕ
  pub released : Bool
  pub slot : Option ℕ

-- `Store`.
pub record Store (R : Type 0) : Type 0 where
  pub stats : Stats
  pub queue : List (Entry R)
  pub taken : List (Entry R)
  pub exhausted : Option ℕ
  pub refunds : List (ℕ × RefundPath)

abbrev pub new_stats : ℕ → Stats
new_stats limit_bytes = record {
  limit_bytes = limit_bytes;
  bytes = 0;
  queued = 0;
  leased = 0;
  fragments = 0;
  connections = 0;
  fragments_refused = 0;
  connections_refused = 0;
  is_exhausted = false;
  is_closed = false;
  parsing = record { given = 0; back = 0 };
  policy = record { given = 0; back = 0 };
  parsing_refused = 0;
  policy_refused = 0;
}

-- `left`: `limit - bytes - parsing - policy`, or zero where that is below zero.
abbrev pub left : Stats → ℕ
left s =
    (s.limit_bytes + s.parsing.back + s.policy.back) - (s.bytes + s.parsing.given + s.policy.given)

-- ===== src/Gate/State.antt =====
-- probe/delivery_gate.go, the types: the gate, its slots, refunds and snapshots.
use edge_observer.Prelude.{ℕ, Bool, List, [], Option, none}
use edge_observer.Gate.Reason.{GateReason, clear}

-- `held.Path`. `elsewhere` is any string that no declared path is.
pub data RefundPath : Type 0 where
  unretained processed discarded cut elsewhere : RefundPath

-- `Refunds`.
pub record Refunds : Type 0 where
  pub unretained : ℕ
  pub processed : ℕ
  pub discarded : ℕ
  pub cut : ℕ

-- `Refunds.Of`.
unfoldable pub of_path : Refunds → RefundPath → ℕ
of_path r RefundPath.unretained = r.unretained
of_path r RefundPath.processed = r.processed
of_path r RefundPath.discarded = r.discarded
of_path r RefundPath.cut = r.cut
of_path r RefundPath.elsewhere = 0

-- `slot`.
pub record Slot : Type 0 where
  pub kept : Bool
  pub returned : Bool

-- `DeliveryGate`, with the slots it has reserved.
pub record Gate : Type 0 where
  pub max_events : ℕ
  pub charged : ℕ
  pub held : ℕ
  pub refunded : Refunds
  pub doubles : ℕ
  pub input_refused : ℕ
  pub reason : GateReason
  pub withdrawal : Option ℕ
  pub slots : List Slot

-- `GateSnapshot`.
pub record Snapshot : Type 0 where
  pub max_events : ℕ
  pub charged : ℕ
  pub held : ℕ
  pub refunded : Refunds
  pub double_refunds : ℕ
  pub input_refused : ℕ
  pub reason : GateReason

abbrev pub no_refunds : Refunds
no_refunds = record { unretained = 0; processed = 0; discarded = 0; cut = 0 }

-- The zero value, which stands for a nil pointer too.
abbrev pub zero_gate : Gate
zero_gate = record {
  max_events = 0;
  charged = 0;
  held = 0;
  refunded = no_refunds;
  doubles = 0;
  input_refused = 0;
  reason = clear;
  withdrawal = none;
  slots = [];
}

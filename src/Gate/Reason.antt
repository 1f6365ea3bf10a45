-- ===== src/Gate/Reason.antt =====
-- probe/gate_reason.go: the reasons of a refusal, and which of them invalidate the capture.
use edge_observer.Prelude.{ℕ, Bool, true, false, List, [], ◌∷◌, ◌==◌, if◌then◌else◌}

-- `GateReason`. `clear` is the empty string, `undeclared` any other string with no declaration.
pub data GateReason : Type 0 where
  clear input_limit intake_exhausted unknown_length unknown_kind unsettled : GateReason
  uninitialized undeclared : GateReason

-- The place of a reason among the declarations; reasons are equal when their codes are.
abbrev pub reason_code : GateReason → ℕ
reason_code clear = 0
reason_code input_limit = 1
reason_code intake_exhausted = 2
reason_code unknown_length = 3
reason_code unknown_kind = 4
reason_code unsettled = 5
reason_code uninitialized = 6
reason_code undeclared = 7

abbrev pub same_reason : GateReason → GateReason → Bool
same_reason a b = reason_code a == reason_code b

-- `gateReasonClasses`.
pub record ReasonClass : Type 0 where
  pub reason : GateReason
  pub invalidates_capture : Bool

abbrev pub gate_reason_classes : List ReasonClass
gate_reason_classes =
    record { reason = input_limit; invalidates_capture = false }
    ∷ record { reason = intake_exhausted; invalidates_capture = false }
    ∷ record { reason = unknown_length; invalidates_capture = true }
    ∷ record { reason = unknown_kind; invalidates_capture = true }
    ∷ record { reason = unsettled; invalidates_capture = false }
    ∷ record { reason = uninitialized; invalidates_capture = false }
    ∷ []

unfoldable pub reasons_of : List ReasonClass → List GateReason
reasons_of [] = []
reasons_of (c ∷ cs) = c.reason ∷ reasons_of cs

-- `GateReasons`.
unfoldable pub gate_reasons : List GateReason
unfolding reasons_of
gate_reasons = reasons_of gate_reason_classes

unfoldable pub class_of : List ReasonClass → GateReason → Bool
class_of [] r = false
class_of (c ∷ cs) r = if same_reason c.reason r then c.invalidates_capture else class_of cs r

-- `GateReason.InvalidatesCapture`.
unfoldable pub invalidates_capture : GateReason → Bool
unfolding class_of
invalidates_capture r = class_of gate_reason_classes r

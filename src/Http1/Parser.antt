-- ===== src/Http1/Parser.antt =====
-- http1/parser.go: the state of a parser of one direction, its reserver, and what drops a line and
-- hands a message over. A reserver is a function of the calls it had before. Counts of bytes are
-- int64 and offsets uint64: `admit` lets no part pass 2^64, and every count is of offsets read or of
-- bytes kept, so that nothing wraps and the numbers here do not.
pub mod Scan
pub mod Steps
pub mod Input
pub mod Feed
pub mod Rounds
pub mod Accounted
pub mod Bounded
use edge_observer.Prelude.{
  ℕ, ◌+◌, ◌-◌, Bool, true, false, List, [], ◌∷◌, Option, none, some, ltb, if◌then◌else◌, length,
}
use edge_observer.Http1.{Kind, unknown_kind, Message, new_message, Limits, or_defaults, Defect}

-- `Result`.
pub data Result : Type 0 where
  need_input head need_request framed malformed limit unsupported cut end_ refused : Result

-- `Result.Stopped`.
abbrev pub stopped : Result → Bool
stopped malformed = true
stopped limit = true
stopped unsupported = true
stopped cut = true
stopped _ = false

-- `Charge`.
pub record Charge : Type 0 where
  pub bytes : ℕ
  pub messages : ℕ

abbrev pub no_charge : Charge
no_charge = record { bytes = 0; messages = 0 }

-- `Charge.Add`.
abbrev pub add_charge : Charge → Charge → Charge
add_charge c o = record { bytes = c.bytes + o.bytes; messages = c.messages + o.messages }

-- A call of `Reserver`, and what came of it.
pub data Call : Type 0 where
  granted denied released : Charge → Call

-- `Reserver`; the latest call is the first.
pub record Reserver : Type 0 where
  pub grants : List Call → Charge → Bool
  pub calls : List Call

-- `Progress`.
pub record Progress : Type 0 where
  pub consumed : ℕ
  pub result : Result
  pub message : Option Message
  pub charge : Charge

-- `phase`.
pub data Phase : Type 0 where
  between_messages in_start_line in_fields awaiting_answer in_declared_body : Phase
  in_chunk_size in_chunk_data in_chunk_end in_trailers : Phase

-- `Parser`. A message is in progress just where the pointer to it is not nil.
pub record Parser : Type 0 where
  pub kind : Kind
  pub limits : Limits
  pub reserver : Reserver
  pub started : Bool
  pub next : ℕ
  pub ended : Bool
  pub stop : Result
  pub settled : ℕ
  pub phase : Phase
  pub in_progress : Bool
  pub message : Message
  pub charge : Charge
  pub line : List ℕ
  pub saw_cr : Bool
  pub header_bytes : ℕ
  pub remaining : ℕ
  pub chunks : ℕ
  pub chunk_start : ℕ
  pub chunk_size : ℕ
  pub chunk_kept : ℕ
  pub chunk_holed : ℕ
  pub chunk_elided : ℕ
  pub end_seen : ℕ
  pub end_first : ℕ
  pub examined : ℕ

-- `newParser`.
pub new_parser : Kind → Limits → Reserver → Parser
unfolding or_defaults
new_parser kind limits reserver = record {
  kind = kind;
  limits = or_defaults limits;
  reserver = reserver;
  started = false;
  next = 0;
  ended = false;
  stop = need_input;
  settled = 0;
  phase = between_messages;
  in_progress = false;
  message = new_message unknown_kind 0;
  charge = no_charge;
  line = [];
  saw_cr = false;
  header_bytes = 0;
  remaining = 0;
  chunks = 0;
  chunk_start = 0;
  chunk_size = 0;
  chunk_kept = 0;
  chunk_holed = 0;
  chunk_elided = 0;
  end_seen = 0;
  end_first = 0;
  examined = 0;
}

-- `Reserve`, and the reserver after it.
abbrev pub would_grant : Parser → Charge → Bool
would_grant p c = p.reserver.grants p.reserver.calls c

abbrev pub called : Parser → Call → Parser
called p c = record p {
  reserver = record { grants = p.reserver.grants; calls = c ∷ p.reserver.calls };
}

-- `release`.
abbrev pub release : Parser → ℕ → Parser
release p n =
    if ltb 0 n
    then record (called p (released (record { bytes = n; messages = 0 }))) {
      charge = record { bytes = p.charge.bytes - n; messages = p.charge.messages };
    }
    else p

-- `takeLine`, but for the line, which is the one that `p` has.
abbrev pub take_line : Parser → Parser
take_line p = record p { line = []; saw_cr = false }

-- `dropLine`.
abbrev pub drop_line : Parser → Parser
drop_line p = take_line (release p (length p.line))

-- A step, and the event that it has to return.
pub record Step : Type 0 where
  pub parser : Parser
  pub event : Option Progress

abbrev pub go_on : Parser → Step
go_on p = record { parser = p; event = none }

abbrev pub return_result : Result → Parser → Step
return_result r p = record {
  parser = p;
  event = some (record { consumed = 0; result = r; message = none; charge = no_charge });
}

-- What `handOver` leaves of a parser.
abbrev pub without_message : Parser → ℕ → Parser
without_message p end_at = record p {
  in_progress = false;
  message = new_message unknown_kind 0;
  charge = no_charge;
  phase = between_messages;
  settled = end_at;
}

-- `handOver`.
abbrev pub hand_over : Result → Parser → Step
hand_over r p = record {
  parser = take_line (without_message p p.next);
  event = some (record {
    consumed = 0;
    result = r;
    message = some (record (p.message) { end_ = p.next });
    charge = p.charge;
  });
}

-- `stopFor`.
abbrev pub stop_for : Defect → Result
stop_for Defect.hole = cut
stop_for Defect.limit = limit
stop_for _ = malformed

-- `refuse`.
abbrev pub refuse : Defect → Parser → Step
refuse d p =
    hand_over (stop_for d)
      (record p { message = record (p.message) { defect = d }; stop = stop_for d })

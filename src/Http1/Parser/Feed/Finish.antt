-- ===== src/Http1/Parser/Feed/Finish.antt =====
-- http1/parser.go, `End`: the end of the input, and what is told of it.
use edge_observer.Prelude.{
  ℕ, ◌-◌, true, false, not, ◌&&◌, Option, none, some, if◌then◌else◌, length, take,
}
use edge_observer.Http1.{Defect, Message}
use edge_observer.Http1.Parser.{
  Result, Progress, Phase, Parser, release, drop_line, Step, without_message,
}
use edge_observer.Http1.Parser.Steps.{frame_message}
use edge_observer.Http1.Parser.Feed.{Fed, is_open, is_waiting}

abbrev pub nothing_more : Parser → Fed
nothing_more p = record {
  parser = p;
  progress = record {
    consumed = 0;
    result = Result.end_;
    message = none;
    charge = record { bytes = 0; messages = 0 };
  };
}

-- A message cut off, which ends at this offset.
abbrev pub cut_off_at : ℕ → Parser → Parser
cut_off_at end_at p = record p {
  message = record (p.message) { defect = Defect.stream_ended; end_ = end_at };
}

-- A chunk that the input ends inside is not taken.
abbrev pub without_chunk : Parser → Parser
without_chunk p =
    release
      (record p {
        message = record (p.message) {
          body = take (length p.message.body - p.chunk_kept) p.message.body;
        };
      })
      p.chunk_kept

-- The message in progress where the input ends.
abbrev pub cut_off : Parser → Parser
cut_off p = elim p.phase [
  | Phase.in_start_line ↦ drop_line (cut_off_at p.next p)
  | Phase.in_fields ↦ drop_line (cut_off_at p.next p)
  | Phase.in_chunk_size ↦ drop_line (cut_off_at p.next p)
  | Phase.in_trailers ↦ drop_line (cut_off_at p.next p)
  | Phase.in_chunk_data ↦ without_chunk (cut_off_at p.chunk_start p)
  | Phase.in_chunk_end ↦ cut_off_at (p.next - p.end_seen) p
  | _ ↦ cut_off_at p.next p
]

-- The message and its charge are handed over.
abbrev pub cut_off_over : Parser → Fed
cut_off_over p = record {
  parser = without_message p p.message.end_;
  progress = record {
    consumed = 0;
    result = Result.end_;
    message = some p.message;
    charge = p.charge;
  };
}

abbrev pub finish_open : Parser → Fed
finish_open p =
    let on = record p { ended = true } in
    if p.in_progress then cut_off_over (cut_off on) else nothing_more on

-- The message that an event hands over.
abbrev pub message_of : Option Progress → Option Message
message_of none = none
message_of (some e) = e.message

abbrev pub finish_answered : Step → Fed
finish_answered s = elim s.event [
  | some e ↦ elim e.message [
    | some m ↦ record {
      parser = record (s.parser) { ended = true };
      progress = record e { result = Result.end_ };
    }
    | none ↦ finish_open s.parser
  ]
  | none ↦ finish_open s.parser
]

-- `End`.
unfoldable pub finish : Parser → Fed
unfolding frame_message
finish p =
    if p.ended
    then nothing_more p
    else if is_waiting p.phase
    then finish_answered (frame_message false p)
    else finish_open p

-- `Unplaced`.
unfoldable pub unplaced : Parser → ℕ
unplaced p = if is_open p.stop && not p.ended then 0 else p.next - p.settled

-- ===== src/Http1/Parser/Steps.antt =====
-- http1/parser.go: the steps of a parser through a message, each over what is left of a part. A
-- message's `Detail` is left out.
use edge_observer.Prelude.{
  ℕ, ◌+◌, Bool, true, not, List, ◌∷◌, ◌++◌, Option, none, some, ltb, leb, ◌==◌, if◌then◌else◌,
  length, take,
}
use edge_observer.Http1.{unknown_kind, request, response, BodyEnd, Defect, Message, new_message}
use edge_observer.Http1.Lines.{read_request_line, read_status_line}
use edge_observer.Http1.Framing.{Frame, frame}
use edge_observer.Http1.Parser.{
  Result, Charge, granted, denied, Progress, Phase, Parser, would_grant, called, release, take_line,
  drop_line, Step, go_on, return_result, hand_over, refuse,
}
use edge_observer.Http1.Parser.Scan.{Scanned, scan_line}

abbrev pub bytes_of : ℕ → Charge
bytes_of n = record { bytes = n; messages = 0 }

abbrev pub one_message : Charge
one_message = record { bytes = 0; messages = 1 }

-- `begin`.
unfoldable pub begin : Parser → Step
begin p =
    if would_grant p one_message
    then go_on (record (called p (granted one_message)) {
      message = new_message p.kind p.next;
      in_progress = true;
      charge = one_message;
      phase = Phase.in_start_line;
      header_bytes = 0;
      chunks = 0;
    })
    else return_result Result.refused (called p (denied one_message))

-- What the line gains of a scan.
abbrev pub gained : Scanned → List ℕ → List ℕ
gained s in_bytes = if s.prepend_cr then 13 ∷ take s.to in_bytes else take s.to in_bytes

abbrev pub grow_of : Scanned → ℕ
grow_of s = if s.prepend_cr then s.to + 1 else s.to

abbrev pub line_gains : Scanned → List ℕ → Parser → Parser
line_gains s in_bytes p = record p {
  line = p.line ++ gained s in_bytes;
  charge = record { bytes = p.charge.bytes + grow_of s; messages = p.charge.messages };
  saw_cr = s.saw_cr;
  next = p.next + s.consumed;
}

-- What `readLine` returns: the line goes on, or has ended, or there is an event.
pub data LineEnd : Type 0 where
  open_ ended : Parser → LineEnd
  event : Step → LineEnd

abbrev pub line_end : Scanned → Parser → LineEnd
line_end s p = if s.done then ended p else open_ p

abbrev pub line_grows : Scanned → List ℕ → Parser → LineEnd
line_grows s in_bytes p =
    if not (ltb 0 (grow_of s))
    then line_end s (line_gains s in_bytes p)
    else if would_grant p (bytes_of (grow_of s))
    then line_end s (line_gains s in_bytes (called p (granted (bytes_of (grow_of s)))))
    else event (return_result Result.refused (called p (denied (bytes_of (grow_of s)))))

abbrev pub line_read : Scanned → List ℕ → Parser → LineEnd
line_read s in_bytes p =
    let looked = record p { examined = p.examined + s.consumed } in
    if s.too_long
    then event (refuse Defect.limit (drop_line (record looked { next = p.next + s.consumed })))
    else line_grows s in_bytes looked

-- `readLine`.
unfoldable pub read_line : List ℕ → ℕ → Parser → LineEnd
unfolding scan_line
read_line in_bytes max p = line_read (scan_line in_bytes (length p.line) p.saw_cr max) in_bytes p

-- To refuse a message for the line just taken.
abbrev pub refuse_line : Defect → List ℕ → Parser → Step
refuse_line d line p = refuse d (release p (length line))

abbrev pub start_read : Option Message → List ℕ → Parser → Step
start_read none line p = refuse_line Defect.malformed line p
start_read (some m) line p = go_on (record p { message = m; phase = Phase.in_fields })

-- `startLine`.
unfoldable pub start_line : Parser → Step
unfolding read_request_line read_status_line
start_line p = elim p.kind [
  | request ↦ start_read (read_request_line p.message p.line) p.line (take_line p)
  | response ↦ start_read (read_status_line p.message p.line) p.line (take_line p)
  | unknown_kind ↦ refuse_line Defect.malformed p.line (take_line p)
]

-- `head`.
abbrev pub head : Parser → Progress
head p = record {
  consumed = 0;
  result = Result.head;
  message = some p.message;
  charge = record { bytes = 0; messages = 0 };
}

-- `chunkSizeNext`.
abbrev pub chunk_size_next : Parser → Step
chunk_size_next p =
    if leb p.limits.max_chunks p.chunks
    then refuse Defect.limit p
    else go_on (record p { phase = Phase.in_chunk_size })

-- The message with its framing known to end it, its body's holes told.
abbrev pub ended_message : Message → Message
ended_message m =
    if ltb 0 m.body_holed
    then record m { framed = true; defect = Defect.hole }
    else record m { framed = true; complete = true }

-- What `bodyStep` does of a chunk whose data is all in.
abbrev pub chunk_ends : Parser → Step
chunk_ends p = go_on (record p {
  message = record (p.message) {
    body_length = p.message.body_length + p.chunk_size;
    body_holed = p.message.body_holed + p.chunk_holed;
    body_elided = p.message.body_elided + p.chunk_elided;
  };
  phase = Phase.in_chunk_end;
  end_seen = 0;
})

abbrev pub body_ends : Parser → Step
body_ends p = hand_over Result.framed (record p { message = ended_message p.message })

-- `bodyStep`.
unfoldable pub body_step : Parser → Step
body_step p =
    if p.remaining == 0
    then elim p.phase [ Phase.in_chunk_data ↦ chunk_ends p | _ ↦ body_ends p ]
    else go_on p

-- Where a body follows: a response goes on, and a request returns its head.
abbrev pub body_follows : Parser → Step
body_follows p = elim p.kind [
  | response ↦ return_result Result.need_input p
  | _ ↦ record { parser = p; event = some (head p) }
]

-- Go on after a step that had no event.
abbrev pub then_follows : Step → Step
then_follows s = elim s.event [ none ↦ body_follows s.parser | some e ↦ s ]

unfoldable pub frame_as : Frame → Parser → Step
unfolding body_step
frame_as f p = elim f.framing [
  | BodyEnd.ambiguous ↦ refuse Defect.ambiguous_framing p
  | BodyEnd.no_body ↦ elim f.refusal [
    | some r ↦ refuse Defect.malformed p
    | none ↦
        hand_over Result.framed
          (record p { message = record (p.message) { framed = true; complete = true } })
  ]
  | BodyEnd.content_length ↦
      let sized = record p {
        message = record (p.message) { body_length = f.size };
        remaining = f.size;
        phase = Phase.in_declared_body;
      } in
      if f.size == 0 then body_step sized else body_follows sized
  | BodyEnd.chunked ↦ then_follows (chunk_size_next p)
  | BodyEnd.until_close ↦ hand_over Result.unsupported (record p {
    message = record (p.message) { defect = Defect.stream_ended };
    stop = Result.unsupported;
  })
]

-- `frame`.
unfoldable pub frame_message : Bool → Parser → Step
unfolding frame frame_as
frame_message bodiless p =
    let f = frame p.message p.kind bodiless in
    frame_as f (record p { message = record (p.message) { framing = f.framing } })

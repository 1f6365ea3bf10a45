-- ===== src/Http1/Parser/Input.antt =====
-- http1/parser.go: what a parser does with the bytes of a part, in each phase.
use edge_observer.Prelude.{
  ℕ, ◌+◌, ◌-◌, false, not, ◌||◌, List, [], ◌∷◌, ◌++◌, Option, none, some, ltb, leb, ◌==◌,
  if◌then◌else◌, length, take, min,
}
use edge_observer.Http1.{response, Defect, Header}
use edge_observer.Http1.Lines.{read_header, chunk_size}
use edge_observer.Http1.Parser.{
  Result, granted, denied, Phase, Parser, would_grant, called, take_line, drop_line, Step, go_on,
  return_result, hand_over, refuse,
}
use edge_observer.Http1.Parser.Steps.{
  bytes_of, begin, LineEnd, open_, ended, event, read_line, refuse_line, start_line, head,
  chunk_size_next, ended_message, body_step, frame_message,
}

-- `fieldsEnded`.
unfoldable pub fields_ended : Parser → Step
unfolding frame_message
fields_ended p = elim p.kind [
  | response ↦
      let waiting = record p { phase = Phase.awaiting_answer } in
      record { parser = waiting; event = some (head waiting) }
  | _ ↦ frame_message false p
]

abbrev pub field_read : Option Header → List ℕ → Parser → Step
field_read none line p = refuse_line Defect.malformed line p
field_read (some h) line p =
    go_on (record p { message = record (p.message) { headers = p.message.headers ++ (h ∷ []) } })

unfoldable pub field_counted : List ℕ → Parser → Step
unfolding read_header
field_counted line p =
    if ltb p.limits.max_header_bytes p.header_bytes
    then refuse_line Defect.limit line p
    else field_read (read_header line) line p

abbrev pub field_taken : List ℕ → Parser → Step
field_taken [] p = fields_ended p
field_taken (c ∷ cs) p =
    if leb p.limits.max_headers (length p.message.headers)
    then refuse_line Defect.limit (c ∷ cs) p
    else field_counted (c ∷ cs) (record p { header_bytes = p.header_bytes + length (c ∷ cs) })

-- `fieldLine`.
unfoldable pub field_line : Parser → Step
unfolding field_counted
field_line p = field_taken p.line (take_line p)

abbrev pub trailer_read : Option Header → List ℕ → Parser → Step
trailer_read none line p = refuse_line Defect.malformed line p
trailer_read (some h) line p =
    go_on (record p { message = record (p.message) { trailers = p.message.trailers ++ (h ∷ []) } })

unfoldable pub trailer_taken : List ℕ → Parser → Step
unfolding read_header
trailer_taken [] p = hand_over Result.framed (record p { message = ended_message p.message })
trailer_taken (c ∷ cs) p =
    if leb p.limits.max_trailers (length p.message.trailers)
    then refuse_line Defect.limit (c ∷ cs) p
    else trailer_read (read_header (c ∷ cs)) (c ∷ cs) p

-- `trailerLine`.
unfoldable pub trailer_line : Parser → Step
unfolding trailer_taken
trailer_line p = trailer_taken p.line (take_line p)

abbrev pub sized : Option ℕ → Parser → Step
sized none p = refuse Defect.malformed p
sized (some n) p =
    if n == 0
    then go_on (record p { phase = Phase.in_trailers })
    else go_on (record p {
      phase = Phase.in_chunk_data;
      remaining = n;
      chunk_start = p.next;
      chunk_size = n;
      chunk_kept = 0;
      chunk_holed = 0;
      chunk_elided = 0;
    })

-- The chunk size that `bytes` reads of a line that has ended.
unfoldable pub size_line : Parser → Step
unfolding chunk_size
size_line p = sized (chunk_size p.line) (drop_line p)

-- What `body` takes of the bytes, and keeps of those.
abbrev pub body_takes : List ℕ → Parser → ℕ
body_takes in_bytes p = min (length in_bytes) p.remaining

abbrev pub body_keeps : List ℕ → Parser → ℕ
body_keeps in_bytes p =
    min (body_takes in_bytes p) (p.limits.max_body_bytes - length p.message.body)

abbrev pub body_gains : ℕ → ℕ → List ℕ → Parser → Parser
body_gains taken keep in_bytes p =
    let on = record p {
      charge = record { bytes = p.charge.bytes + keep; messages = p.charge.messages };
      examined = p.examined + taken;
      next = p.next + taken;
      remaining = p.remaining - taken;
    } in
    elim p.phase [
      | Phase.in_declared_body ↦ record on {
        message = record (p.message) {
          body = p.message.body ++ take keep in_bytes;
          body_elided = p.message.body_elided + (taken - keep);
        };
      }
      | _ ↦ record on {
        message = record (p.message) { body = p.message.body ++ take keep in_bytes };
        chunk_kept = p.chunk_kept + keep;
        chunk_elided = p.chunk_elided + (taken - keep);
      }
    ]

unfoldable pub body_granted : ℕ → ℕ → List ℕ → Parser → Step
unfolding body_step
body_granted taken keep in_bytes p =
    if not (ltb 0 keep)
    then body_step (body_gains taken keep in_bytes p)
    else if would_grant p (bytes_of keep)
    then body_step (body_gains taken keep in_bytes (called p (granted (bytes_of keep))))
    else return_result Result.refused (called p (denied (bytes_of keep)))

-- `body`.
unfoldable pub body : List ℕ → Parser → Step
unfolding body_granted
body in_bytes p = body_granted (body_takes in_bytes p) (body_keeps in_bytes p) in_bytes p

-- The byte at the end of a chunk.
unfoldable pub chunk_end : ℕ → Parser → Step
chunk_end b p =
    let read = record p { examined = p.examined + 1; next = p.next + 1 } in
    if p.end_seen == 0
    then go_on (record read { end_seen = 1; end_first = b })
    else if not (p.end_first == 13) || not (b == 10)
    then refuse Defect.malformed (record read { end_seen = 0 })
    else chunk_size_next (record read { end_seen = 0; chunks = p.chunks + 1 })

-- What follows a line once it has ended.
abbrev pub after_line : (Parser → Step) → LineEnd → Step
after_line next (open_ p) = go_on p
after_line next (ended p) = next p
after_line next (event s) = s

abbrev pub first_byte : List ℕ → ℕ
first_byte [] = 0
first_byte (b ∷ bs) = b

-- `bytes`, in each phase, of bytes that are not none.
unfoldable pub read_in : Phase → List ℕ → Parser → Step
unfolding begin start_line field_line body size_line chunk_end trailer_line
read_in Phase.between_messages in_bytes p = begin p
read_in Phase.in_start_line in_bytes p =
    after_line start_line (read_line in_bytes p.limits.max_start_line p)
read_in Phase.in_fields in_bytes p =
    after_line field_line (read_line in_bytes p.limits.max_header_line p)
read_in Phase.awaiting_answer in_bytes p = return_result Result.need_request p
read_in Phase.in_declared_body in_bytes p = body in_bytes p
read_in Phase.in_chunk_size in_bytes p =
    after_line size_line (read_line in_bytes p.limits.max_header_line p)
read_in Phase.in_chunk_data in_bytes p = body in_bytes p
read_in Phase.in_chunk_end in_bytes p = chunk_end (first_byte in_bytes) p
read_in Phase.in_trailers in_bytes p =
    after_line trailer_line (read_line in_bytes p.limits.max_header_line p)

-- `bytes`.
unfoldable pub read_bytes : List ℕ → Parser → Step
unfolding read_in
read_bytes in_bytes p = read_in p.phase in_bytes p

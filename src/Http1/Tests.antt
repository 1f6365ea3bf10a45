-- ===== src/Http1/Tests.antt =====
-- The theorems on HTTP/1 messages and their parser at concrete lines, fields and parts.
use edge_observer.Prelude.{
  ℕ, ◌<◌, ◌≡◌, refl, ◌↔◌, ◌⊎◌, true, false, List, [], ◌∷◌, ◌++◌, some, arith, map,
}
use edge_observer.Prelude.Bytes.{
  codes, all_bytes, is_tchar, index_byte, split_at, trim, trim_left, trim_right, decimal_from,
  equal_fold,
}
use edge_observer.Prelude.Bytes.Blanks.{are_blank}
use edge_observer.Stream.Parts.{Part}
use edge_observer.Http1.{
  request, response, no_body, ambiguous, Header, Message, new_message, start_line, default_limits,
  or_defaults,
}
use edge_observer.Http1.Lines.{
  is_token, is_visible_text, is_digits, is_version, request_of, read_request_line, read_header,
  size_limit,
}
use edge_observer.Http1.Lines.Start.{start_line-read_request_line}
use edge_observer.Http1.Lines.Fields.{HasNoControl, read_header_sound, read_header_complete}
use edge_observer.Http1.Framing.{
  framed_as, frame, gather, gather_one, split_list, frame_declared, is_chunked, to_lower, frame_by,
  frame_length, frame_encoded, last_of, but_last, some_chunked,
}
use edge_observer.Http1.Framing.Delimited.{
  declares, values_of, length_field, encoding_field, AllAre, frame_ambiguous_iff,
  frame_content_length, frame_chunked,
}
use edge_observer.Http1.Parser.{no_charge, Parser, new_parser}
use edge_observer.Http1.Parser.Scan.{scan_line}
use edge_observer.Http1.Parser.Scan.Reference.{read_bytes, line_after, scan_line-read_bytes}
use edge_observer.Http1.Parser.Feed.{feed}
use edge_observer.Http1.Parser.Rounds.Total.{Returns, feed-Returns}
use edge_observer.Http1.Parser.Accounted.{Balances}
use edge_observer.Http1.Parser.Accounted.Runs.{feed_part, end_input, moves, moves-Balances}
use edge_observer.Http1.Parser.Bounded.{Within}
use edge_observer.Http1.Parser.Bounded.Kept.{message_of, moves-Within}

abbrev get_a : Message
get_a = record (new_message request 0) {
  method = codes "GET";
  target = codes "/a";
  protocol = codes "HTTP/1.1";
}

start_line-read_request_line_example : start_line get_a ≡ codes "GET /a HTTP/1.1"
unfolding read_request_line request_of is_token is_visible_text is_version is_tchar
start_line-read_request_line_example =
    start_line-read_request_line (new_message request 0) get_a (codes "GET /a HTTP/1.1") refl refl

abbrev host : Header
host = record { name = codes "Host"; value = codes "a b" }

read_header_sound_example :
    (lead trail : List ℕ) × (are_blank lead ≡ true)
    × (are_blank trail ≡ true)
    × (codes "Host:  a b " ≡ host.name ++ 58 ∷ (lead ++ host.value ++ trail))
    × (is_token host.name ≡ true)
    × HasNoControl host.value
    × (trim_left host.value ≡ host.value)
    × (trim_right host.value ≡ host.value)
unfolding read_header index_byte is_token is_visible_text trim is_tchar
read_header_sound_example = read_header_sound (codes "Host:  a b ") host refl

-- The word is "café" in ISO 8859-1, whose last byte is no ASCII.
abbrev menu : Header
menu = record { name = codes "Menu"; value = 99 ∷ 97 ∷ 102 ∷ 233 ∷ [] }

menu_text : HasNoControl menu.value
menu_text = ground arith

read_header_complete_example :
    read_header (codes "Menu" ++ 58 ∷ (codes "  " ++ menu.value ++ codes " ")) ≡ some menu
unfolding is_token trim_left trim_right all_bytes is_tchar
read_header_complete_example =
    read_header_complete (codes "Menu") (99 ∷ 97 ∷ 102 ∷ 233 ∷ []) (codes "  ") (codes " ") refl
      menu_text refl refl refl refl

abbrev posted : List Header → Message
posted hs = record (new_message request 0) { headers = hs }

abbrev five : Header
five = record { name = codes "Content-Length"; value = codes "5, 5" }

abbrev gzip_chunked : Header
gzip_chunked = record { name = codes "Transfer-encoding"; value = codes "gzip, Chunked" }

-- A response to HEAD, with both fields and with one.
abbrev answered : List Header → Message
answered hs = record (new_message response 0) { headers = hs; status = 200 }

head_with_both : (frame (answered (five ∷ gzip_chunked ∷ [])) response true).framing ≡ ambiguous
unfolding frame gather gather_one split_list frame_declared frame_by equal_fold to_lower split_at
    trim
head_with_both = refl

frame_ambiguous_iff_example :
    (((frame (answered (five ∷ [])) response true).framing ≡ ambiguous)
      ↔ ((declares length_field (five ∷ []) ≡ true) × (declares encoding_field (five ∷ []) ≡ true)))
    × (((frame (answered (five ∷ [])) response true).framing ≡ ambiguous)
        ⊎ (true ≡ false)
        ⊎ (frame (answered (five ∷ [])) response true ≡ framed_as no_body 0))
frame_ambiguous_iff_example = frame_ambiguous_iff (answered (five ∷ [])) response true

frame_content_length_example :
    (w : List ℕ) × (ws : List (List ℕ)) × (values_of length_field (five ∷ []) ≡ w ∷ ws)
    × AllAre w ws
    × (is_digits w ≡ true)
    × (declares encoding_field (five ∷ []) ≡ false)
    × ((frame (posted (five ∷ [])) request false).size ≡ decimal_from 0 w)
    × (decimal_from 0 w < size_limit)
unfolding frame gather gather_one split_list frame_declared frame_by frame_length equal_fold
    to_lower split_at trim is_digits
frame_content_length_example = frame_content_length (posted (five ∷ [])) request false refl

frame_chunked_example :
    (w : List ℕ) × (ws : List (List ℕ)) × (map to_lower
        (values_of encoding_field (gzip_chunked ∷ []))
      ≡ w ∷ ws)
    × (last_of w ws ≡ codes "chunked")
    × (some_chunked (but_last w ws) ≡ false)
    × (declares length_field (gzip_chunked ∷ []) ≡ false)
unfolding frame gather gather_one split_list frame_declared frame_by frame_encoded is_chunked
    equal_fold to_lower split_at trim
frame_chunked_example = frame_chunked (posted (gzip_chunked ∷ [])) request false refl

-- A carriage return that is not before a line feed stays in the line.
scan_line-read_bytes_example :
    line_after
      (codes "a")
      (98 ∷ 13 ∷ 99 ∷ 13 ∷ 10 ∷ 100 ∷ [])
      (scan_line (98 ∷ 13 ∷ 99 ∷ 13 ∷ 10 ∷ 100 ∷ []) 1 true 8)
    ≡ read_bytes 8 (codes "a") true 0 (98 ∷ 13 ∷ 99 ∷ 13 ∷ 10 ∷ 100 ∷ [])
scan_line-read_bytes_example =
    scan_line-read_bytes 8 98 (codes "a") (13 ∷ 99 ∷ 13 ∷ 10 ∷ 100 ∷ []) true

abbrev granting : Parser
granting = new_parser request default_limits (record { grants = λ calls c. true; calls = [] })

abbrev start_part : Part
start_part = record {
  offset = 40;
  size = 16;
  gap = 0;
  bytes = codes "GET / HTTP/1.1" ++ 13 ∷ 10 ∷ [];
}

feed-Returns_example : Returns start_part (feed start_part granting)
feed-Returns_example = feed-Returns start_part granting (ground arith)

moves-Balances_example :
    Balances
      (moves (feed_part start_part ∷ end_input ∷ []) no_charge granting).0
      (moves (feed_part start_part ∷ end_input ∷ []) no_charge granting).1
moves-Balances_example =
    moves-Balances (feed_part start_part ∷ end_input ∷ []) request default_limits (λ calls c. true)

-- The part ends inside of the fields, and then the input.
moves-Within_example :
    let p = (moves (feed_part start_part ∷ []) no_charge granting).1 in
    Within (or_defaults default_limits) p.message
    × ((n : Message) → message_of end_input p ≡ some n → Within (or_defaults default_limits) n)
moves-Within_example =
    moves-Within (feed_part start_part ∷ []) end_input request default_limits (λ calls c. true)

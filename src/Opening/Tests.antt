-- ===== src/Opening/Tests.antt =====
-- The opening of concrete directions.
use edge_observer.Prelude.{ℕ, ◌≡◌, refl, List, [], ◌∷◌, take}
use edge_observer.Opening.{
  opens_request, opens_response, has_byte, is_token_byte, is_method, starts_http, index_space,
  opening, opening_window, no_bytes, verdict, close, look, is_decided, take_in, http_at,
}
use edge_observer.Opening.AtOnce.{take_in-opening}

-- "GET / HTTP/1.1" and "HTTP/1.1 200".
abbrev request_line : List ℕ
request_line = 71 ∷ 69 ∷ 84 ∷ 32 ∷ 47 ∷ 32 ∷ 72 ∷ 84 ∷ 84 ∷ 80 ∷ 47 ∷ 49 ∷ 46 ∷ 49 ∷ []

abbrev status_line : List ℕ
status_line = 72 ∷ 84 ∷ 84 ∷ 80 ∷ 47 ∷ 49 ∷ 46 ∷ 49 ∷ 32 ∷ 50 ∷ 48 ∷ 48 ∷ []

request_opens : opening request_line ≡ opens_request
unfolding has_byte is_token_byte is_method starts_http index_space opening
request_opens = refl

status_opens : (close (take_in no_bytes status_line)).what ≡ opens_response
unfolding has_byte is_token_byte close verdict look is_decided take_in http_at
status_opens = refl

take_in-opening_example :
    (close (take_in no_bytes request_line)).what ≡ opening (take opening_window request_line)
take_in-opening_example = take_in-opening request_line

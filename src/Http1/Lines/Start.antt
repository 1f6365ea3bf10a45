-- ===== src/Http1/Lines/Start.antt =====
-- http1/http1.go: what the readers of start lines accept, and that it is rendered back.
use mathlib.Core.List.{append_assoc}
use edge_observer.Prelude.{ℕ, ◌≡◌, sym, ap, ◌∙◌, List, [], ◌∷◌, some, arith}
use edge_observer.Prelude.Bytes.{split_at, join_with, join_with-split_at}
use edge_observer.Http1.{Message, request, start_line}
use edge_observer.Http1.Lines.{request_of, read_request_line}

request_of_fields :
    (m n : Message) (a b c : List ℕ)
    → request_of m (a ∷ b ∷ c ∷ []) ≡ some n
    → record m { method = a; target = b; protocol = c } ≡ n
unfolding request_of
request_of_fields m n a b c e = ground arith

request_of-join :
    (m n : Message) (ws : List (List ℕ))
    → m.kind ≡ request
    → request_of m ws ≡ some n
    → start_line n ≡ join_with 32 ws
unfolding request_of start_line join_with
request_of-join m n [] k e = cc
request_of-join m n (a ∷ []) k e = cc
request_of-join m n (a ∷ b ∷ []) k e = cc
request_of-join m n (a ∷ b ∷ c ∷ []) k e =
    sym (ap start_line (request_of_fields m n a b c e)) ∙ rw k (append_assoc a (32 ∷ b) (32 ∷ c))
request_of-join m n (a ∷ b ∷ c ∷ d ∷ ws) k e = cc

-- A request line that is accepted is rendered back as it was sent.
pub start_line-read_request_line :
    (m n : Message) (line : List ℕ)
    → m.kind ≡ request
    → read_request_line m line ≡ some n
    → start_line n ≡ line
unfolding read_request_line
start_line-read_request_line m n line k e =
    request_of-join m n (split_at 32 line) k e ∙ join_with-split_at 32 line

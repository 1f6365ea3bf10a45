-- ===== src/ContentCoding/Tests.antt =====
-- The theorem on content codings at concrete values.
use edge_observer.Prelude.{◌≡◌, [], ◌∷◌}
use edge_observer.Prelude.Bytes.{codes}
use edge_observer.ContentCoding.{parse_list}
use edge_observer.ContentCoding.Listed.{tokens, judge, parse_list-judge}

parse_list-judge_example :
    parse_list (codes ", identity" ∷ codes "X-Gzip ," ∷ [])
    ≡ judge (tokens (codes ", identity" ∷ codes "X-Gzip ," ∷ []))
parse_list-judge_example = parse_list-judge (codes ", identity" ∷ codes "X-Gzip ," ∷ [])

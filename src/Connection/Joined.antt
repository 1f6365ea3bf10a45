-- ===== src/Connection/Joined.antt =====
-- connection/account.go: the counters of several sources joined.
use edge_observer.Prelude.{◌≡◌, arith}
use edge_observer.Connection.{Count, Counters, take_known, join}

take_known_assoc : (a b c : Count) → take_known a (take_known b c) ≡ take_known (take_known a b) c
take_known_assoc a b c = ground arith

take_known_held : (a b : Count) → take_known a (take_known a b) ≡ take_known a b
take_known_held a b = ground arith

take_known_again : (a b : Count) → take_known (take_known a b) b ≡ take_known a b
take_known_again a b = ground arith

-- Counters of three sources are joined to the same ones whichever two are joined first, and joining
-- the first of two sources before, or the second after, once more changes nothing.
pub join_lem :
    (a b c : Counters)
    → (join a (join b c) ≡ join (join a b) c)
      × (join a (join a b) ≡ join a b)
      × (join (join a b) b ≡ join a b)
unfolding join
join_lem a b c = (simp take_known_assoc, simp take_known_held, simp take_known_again)

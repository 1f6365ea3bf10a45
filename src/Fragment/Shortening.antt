-- ===== src/Fragment/Shortening.antt =====
-- The rules of `Record.Validate` survive a consumer's shortening of a record.
use edge_observer.Prelude.{ℕ, ◌≤◌, ◌<◌, ◌≡◌, none, arith, length}
use edge_observer.Fragment.{Record, validate}

-- A record shortened to any length that is not zero and holds the payload kept stays valid, with
-- the evidence it carries.
pub validate_shortened :
    (r : Record) (n : ℕ)
    → validate r ≡ none
    → 0 < n
    → length r.payload ≤ n
    → validate (record r { size = n }) ≡ none
unfolding validate
validate_shortened r n h p q = ground arith

-- ===== src/Held/Tests.antt =====
-- The theorem on cuts at a concrete token.
use edge_observer.Prelude.{ℕ, ◌+◌, ◌≡◌, false, [], ◌∷◌, some}
use edge_observer.Held.{reason_of, stop_all, authorize}
use edge_observer.Held.Bounds.{stop_all_lem}

-- A token that two parts of the capture cut.
stop_all_lem_example :
    (reason_of (stop_all (some (record { reason = "" })) ("" ∷ "overflow" ∷ "retired" ∷ []))
      ≡ "overflow")
    × (authorize
          (stop_all (some (record { reason = "" })) ("" ∷ "overflow" ∷ "retired" ∷ []))
          (λ (q : ℕ). q + 1)
          4
        ≡ (4, false))
stop_all_lem_example =
    stop_all_lem (record { reason = "" }) ("" ∷ "overflow" ∷ "retired" ∷ []) (λ (q : ℕ). q + 1) 4

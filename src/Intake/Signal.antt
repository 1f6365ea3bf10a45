-- ===== src/Intake/Signal.antt =====
-- The insertions for which the store has no room, and the mark that they leave on it.
use edge_observer.Prelude.{
  ℕ, ◌<◌, ◌≡◌, refl, true, false, Bool, not, ◌&&◌, ◌||◌, List, [], ◌∷◌, Option, some, arith, ltb,
  u64_mod,
}
use edge_observer.Intake.State.{Error, limit, parsing, policy, other, Store, left}
use edge_observer.Intake.Allowance.{
  Sizes, IsSized, Shape, fragment_total, fragment_charge-take_off, connection_total,
  connection_charge-take_off,
}
use edge_observer.Intake.{
  Call, writes, connects, takes, releases, reserves, returns, closes, full, append, write,
  connection, take, take_from, release_as, reserve, return, close, is_owner, refuse_work,
  grant_work, give_back, step,
}

-- Whether `ErrLimit` is the error.
abbrev is_limit : Option Error → Bool
is_limit (some limit) = true
is_limit _ = false

module _ {R : Type 0} where
  -- Whether a call is an insertion into the open store of more than it has left.
  abbrev pub lacks_room : Sizes → Store R → Call R → Bool
  lacks_room z s (writes r n slot) =
      not s.stats.is_closed && ltb (left s.stats) (fragment_total z n)
  lacks_room z s (connects r shape slot) =
      not s.stats.is_closed && ltb (left s.stats) (connection_total z shape)
  lacks_room z s c = false

  -- Whether it returns `ErrLimit`.
  abbrev pub answers_limit : Sizes → Store R → Call R → Bool
  answers_limit z s (writes r n slot) = is_limit (write z s r n slot).1
  answers_limit z s (connects r shape slot) = is_limit (connection z s r shape slot).1
  answers_limit z s c = false

  -- The same of some call along a run.
  abbrev pub some_call : (Sizes → Store R → Call R → Bool) → Sizes → Store R → List (Call R) → Bool
  some_call test z s [] = false
  some_call test z s (c ∷ cs) = test z s c || some_call test z (step z s c) cs

  module _ (z : Sizes) (sized : IsSized z) (s : Store R) (k : ℕ) (made : s.exhausted ≡ some k)
      (small : left s.stats < u64_mod) where
    -- That a call is answered by `ErrLimit` and marks the store just where it lacks room.
    abbrev pub Marks : Call R → Type 0
    Marks c =
        (answers_limit z s c ≡ lacks_room z s c)
        × ((step z s c).stats.is_exhausted ≡ (s.stats.is_exhausted || lacks_room z s c))

    writes-Marks : (r : R) (n : ℕ) (slot : Option ℕ) → Marks (writes r n slot)
    unfolding step write full append
    writes-Marks r n slot = (
      ground (arith, fragment_charge-take_off z n (left s.stats) sized small),
      ground (arith, fragment_charge-take_off z n (left s.stats) sized small),
    )

    connects-Marks : (r : R) (shape : Shape) (slot : Option ℕ) → Marks (connects r shape slot)
    unfolding step connection full append
    connects-Marks r shape slot = (
      ground (arith, connection_charge-take_off z shape (left s.stats) sized small),
      ground (arith, connection_charge-take_off z shape (left s.stats) sized small),
    )

    pub step-Marks : (c : Call R) → Marks c
    unfolding step take take_from release_as reserve is_owner refuse_work grant_work return
        give_back close
    step-Marks (writes r n slot) = writes-Marks r n slot
    step-Marks (connects r shape slot) = connects-Marks r shape slot
    step-Marks takes = (refl, ground arith)
    step-Marks (releases i path) = (refl, ground arith)
    step-Marks (reserves owner n) = (refl, ground arith)
    step-Marks (returns parsing n) = (refl, ground arith)
    step-Marks (returns policy n) = (refl, ground arith)
    step-Marks (returns other n) = (refl, ground arith)
    step-Marks closes = (refl, ground arith)

-- ===== src/Admission/Descent.antt =====
-- admission/admission.go: the descendant mode of a target, and what it answers.
use edge_observer.Prelude.{Bool, true, false}

-- `Mode`; `unset` is the zero value.
pub data Mode : Type 0 where
  unset none existing follow : Mode

-- `Answers`; `Boundary`, `RootExit` and `Replacement` have one answer each beside their zero value.
pub data Boundary : Type 0 where
  unset exec_ends_the_grant : Boundary

pub data RootExit : Type 0 where
  unset survivors_keep_their_grants : RootExit

pub data Replacement : Type 0 where
  unset needs_restart : Replacement

pub record Answers : Type 0 where
  pub existing : Bool
  pub future : Bool
  pub boundary : Boundary
  pub root_exit : RootExit
  pub replacement : Replacement

common_answers : Answers
common_answers = record {
  existing = false;
  future = false;
  boundary = Boundary.exec_ends_the_grant;
  root_exit = RootExit.survivors_keep_their_grants;
  replacement = Replacement.needs_restart;
}

-- `Mode.Answers`.
pub answers : Mode → Answers
unfolding common_answers
answers Mode.existing = record common_answers { existing = true }
answers Mode.follow = record common_answers { existing = true; future = true }
answers Mode.none = common_answers
answers Mode.unset = common_answers

abbrev pub is_unset : Mode → Bool
is_unset Mode.unset = true
is_unset _ = false

-- ===== src/Intake/Tests.antt =====
-- The store's theorems at concrete stores and calls.
use edge_observer.Prelude.{ℕ, ◌≡◌, ◌++◌, refl, List, [], ◌∷◌, none, some, arith, if◌then◌else◌}
use edge_observer.Gate.State.{RefundPath}
use edge_observer.Intake.State.{parsing, Store, new_stats}
use edge_observer.Intake.Allowance.{Sizes, IsSized, Shape, add, fragment_charge}
use edge_observer.Intake.{
  Call, writes, connects, takes, releases, reserves, returns, closes, new, run, step, write, take,
  take_from, append, full, close_signal, reserve, grant_work, is_owner, refuse_work,
}
use edge_observer.Intake.Signal.{lacks_room, answers_limit, some_call}
use edge_observer.Intake.Ledger.{IsBalanced, AllOwed, new-IsBalanced}
use edge_observer.Intake.Order.{contents, accepted, handed, run-contents}

-- Sizes of the structs, such as a compiler could give them.
abbrev some_sizes : Sizes
some_sizes = record {
  entry = 64;
  fragment = 400;
  connection = 900;
  association = 300;
  placement = 48;
  early = 24;
  descriptor = 4;
}

some_sizes-IsSized : IsSized some_sizes
some_sizes-IsSized = record {
  entry_pos = omega arith;
  association_pos = omega arith;
  placement_pos = omega arith;
  early_pos = omega arith;
  descriptor_pos = omega arith;
}

abbrev one_association : Shape
one_association = record {
  executable = 13;
  why = 0;
  associations = record { contended = 2; local_zone = 4; remote_zone = 0 } ∷ [];
  lost_whys = 8 ∷ 12 ∷ [];
  early = 1;
}

abbrev small_store : Store ℕ
small_store = record {
  stats = new_stats 2_000;
  queue = [];
  taken = [];
  exhausted = some 0;
  refunds = [];
}

small_store-new : new 2_000 ≡ some small_store
unfolding new
small_store-new = refl

abbrev few_calls : List (Call ℕ)
few_calls =
    writes 71 100 (some 0)
    ∷ reserves parsing 50
    ∷ writes 72 200 (some 1)
    ∷ takes
    ∷ returns parsing 20
    ∷ releases 0 RefundPath.processed
    ∷ connects 73 one_association none
    ∷ writes 74 900 none
    ∷ closes
    ∷ []

few_owed : AllOwed 2_000 (omega arith) some_sizes some_sizes-IsSized small_store few_calls
unfolding step write fragment_charge add append full close_signal reserve is_owner grant_work
    refuse_work take take_from
few_owed = (tt, (tt, (tt, (tt, (omega arith, (tt, (tt, (tt, (tt, tt)))))))))

-- A payload as large as the limit leaves no room for its entry.
too_large : (run some_sizes small_store (writes 71 2_000 none ∷ [])).exhausted ≡ some 1
unfolding run step write fragment_charge add full close_signal
too_large = refl

new-IsBalanced_example :
    let s = run some_sizes small_store few_calls in
    IsBalanced 2_000 s
    × (s.exhausted ≡ some (if some_call lacks_room some_sizes small_store few_calls then 1 else 0))
    × (some_call answers_limit some_sizes small_store few_calls
        ≡ some_call lacks_room some_sizes small_store few_calls)
new-IsBalanced_example =
    new-IsBalanced 2_000 (omega arith) some_sizes some_sizes-IsSized small_store few_calls
      small_store-new few_owed

run-contents_example :
    (rest : List ℕ) × (contents small_store.queue ++ accepted some_sizes small_store few_calls
      ≡ handed some_sizes small_store few_calls ++ rest)
run-contents_example = run-contents some_sizes few_calls small_store

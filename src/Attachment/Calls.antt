-- ===== src/Attachment/Calls.antt =====
-- attachment/group.go: an owner is called once, and what a call holds does not change.
use edge_observer.Prelude.{Bool, List, [], ◌∷◌}
use edge_observer.Attachment.{Call, start, finish}

-- What happens to a call: someone starts it, or its goroutine ends.
pub data Event (A : Type 0) : Type 0 where
  starts : Event A
  finishes : A → Bool → Event A

module _ {A : Type 0} where
  unfoldable pub happen : List (Event A) → Call A → Call A
  unfolding start finish
  happen [] c = c
  happen (starts ∷ rest) c = happen rest (start c)
  happen (finishes value err ∷ rest) c = happen rest (finish value err c)

-- ===== src/Attachment/Sums.antt =====
-- attachment/group_lifecycle.go: the sum of counters that balance balances.
use edge_observer.Prelude.{◌+◌, ◌%◌, ◌≡◌, refl, true, List, [], ◌∷◌, arith, u64_mod, add64, length}
use edge_observer.Connection.{Count, counted, Counters, add_count}
use edge_observer.Connection.Balance.{all_known, sum_of, Agrees, IsConserved}
use edge_observer.Attachment.{sum_counters}

-- Counts added place by place.
abbrev pub add_counts_each : List Count → List Count → List Count
add_counts_each (a ∷ as_) (b ∷ bs) = add_count a b ∷ add_counts_each as_ bs
add_counts_each _ _ = []

add_each_known :
    (xs ys : List Count)
    → all_known xs ≡ true
    → all_known ys ≡ true
    → all_known (add_counts_each xs ys) ≡ true
unfolding all_known add_count
add_each_known [] ys h k = refl
add_each_known (x ∷ xs) [] h k = refl
add_each_known (x ∷ xs) (y ∷ ys) h k = ground (arith, add_each_known xs ys)

add_each_sum :
    (xs ys : List Count)
    → length xs ≡ length ys
    → all_known xs ≡ true
    → all_known ys ≡ true
    → sum_of (add_counts_each xs ys) % u64_mod ≡ (sum_of xs + sum_of ys) % u64_mod
unfolding all_known add_count sum_of add64
add_each_sum [] [] e h k = refl
add_each_sum [] (y ∷ ys) e h k = absurd (ground arith)
add_each_sum (x ∷ xs) [] e h k = absurd (ground arith)
add_each_sum (x ∷ xs) (y ∷ ys) e h k = ground (arith, add_each_sum xs ys)

Agrees-sum :
    (a b : Count) (xs ys : List Count)
    → length xs ≡ length ys
    → Agrees a xs
    → Agrees b ys
    → Agrees (add_count a b) (add_counts_each xs ys)
unfolding add_count add64
Agrees-sum a b xs ys e h k = ground (arith, add_each_known xs ys, add_each_sum xs ys)

add_count_swap :
    (a b c d : Count)
    → (add_count a c).known ≡ true
    → (add_count b d).known ≡ true
    → add_count (add_count a c) (add_count b d) ≡ add_count (add_count a b) (add_count c d)
unfolding add_count add64
add_count_swap a b c d h k = ground arith

Agrees-fragments :
    (a b : Counters) (right : List Count)
    → (add_count a.fragments a.fragments_refused).known ≡ true
    → (add_count b.fragments b.fragments_refused).known ≡ true
    → Agrees
        (add_count
          (add_count a.fragments a.fragments_refused)
          (add_count b.fragments b.fragments_refused))
        right
    → Agrees
        (add_count
          (add_count a.fragments b.fragments)
          (add_count a.fragments_refused b.fragments_refused))
        right
Agrees-fragments a b right h k g =
    rw (add_count_swap a.fragments b.fragments a.fragments_refused b.fragments_refused h k) at g

-- Counters that each balance balance in sum.
pub sum_counters-IsConserved :
    (a b : Counters) → IsConserved a → IsConserved b → IsConserved (sum_counters a b)
unfolding sum_counters add_count add64
sum_counters-IsConserved a b (h1, (h2, (h3, (h4, (h5, h6))))) (k1, (k2, (k3, (k4, (k5, k6))))) = (
  Agrees-sum _ _ _ _ refl h1 k1,
  (
    Agrees-sum _ _ _ _ refl h2 k2,
    (
      Agrees-sum _ _ _ _ refl h3 k3,
      (
        Agrees-sum _ _ _ _ refl h4 k4,
        (
          Agrees-sum _ _ _ _ refl h5 k5,
          Agrees-fragments a b _ h6.0 k6.0 (Agrees-sum _ _ _ _ refl h6 k6),
        ),
      ),
    ),
  ),
)

-- To add an outstanding count to none is to take it.
pub added_to_none :
    (c : Counters) (o : Count)
    → IsConserved (record c { outstanding = o })
    → IsConserved (record c { outstanding = add_count (counted 0) o })
unfolding add_count add64 sum_of all_known
added_to_none c o (h1, (h2, (h3, (h4, h5)))) = (h1, (h2, (h3, (ground arith, h5))))

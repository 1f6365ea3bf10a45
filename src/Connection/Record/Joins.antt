-- ===== src/Connection/Record/Joins.antt =====
-- connection/record.go, connection/connection.go: what a valid record that may be joined has.
use edge_observer.Prelude.{
  ℕ, zero, suc, get_elem?, ◌≡◌, ◌≢◌, refl, true, false, List, [], ◌∷◌, none, some, arith,
}
use edge_observer.Fragment.Positions.{Direction}
use edge_observer.Connection.Binding.{
  Association, State, Reason, joinable, validate_association, complete_ends, validate_interval,
}
use edge_observer.Connection.Record.{
  Record, association, find_association, associations_fault, validate, same_direction,
  has_direction,
}

-- A binding that an outside record can be joined on: established, for no other reason, with both
-- ends and their namespace known, on a known descriptor of a known occupancy, over an interval that
-- is valid.
pub record IsJoinable (a : Association) : Type 0 where
  pub established : a.state ≡ State.established
  pub reasonless : a.reason ≡ Reason.unset
  pub ends : complete_ends a.endpoints ≡ true
  pub held : a.descriptor.known ≡ true
  pub occupied : a.binding ≢ 0
  pub lasting : validate_interval a.valid ≡ none

joins_lem : (a : Association) → validate_association a ≡ none → joinable a ≡ true → IsJoinable a
unfolding validate_association
joins_lem a v j = ground arith

same_direction_self : (d : Direction) → same_direction d d ≡ true
same_direction_self Direction.neither = refl
same_direction_self Direction.sent = refl
same_direction_self Direction.received = refl

not_seen :
    (id : ℕ) (seen : List Direction) (all : List Association) (i : ℕ) {a : Association}
    → associations_fault id seen all ≡ none
    → get_elem? all i ≡ some a
    → has_direction seen a.direction ≡ false
unfolding associations_fault has_direction
not_seen id seen [] i v g = absurd (ground arith)
not_seen id seen (x ∷ rest) zero v g = ground arith
not_seen id seen (x ∷ rest) (suc i) {a = a} v g =
    ground (arith, not_seen id (x.direction ∷ seen) rest i {a = a})

-- Each association is the one that its direction finds, and was checked.
found_valid :
    (id : ℕ) (seen : List Direction) (all : List Association) (i : ℕ) {a : Association}
    → associations_fault id seen all ≡ none
    → get_elem? all i ≡ some a
    → (find_association all a.direction ≡ some a)
      × (a.connection ≡ id)
      × (validate_association a ≡ none)
unfolding associations_fault find_association has_direction
found_valid id seen [] i v g = absurd (ground arith)
found_valid id seen (x ∷ rest) zero {a = a} v g = ground (arith, same_direction_self a.direction)
found_valid id seen (x ∷ rest) (suc i) {a = a} v g = ground (
  arith,
  found_valid id (x.direction ∷ seen) rest i {a = a},
  not_seen id (x.direction ∷ seen) rest i {a = a},
)

validate_associations :
    (r : Record) → validate r ≡ none → associations_fault r.id [] r.associations ≡ none
unfolding validate
validate_associations r v = ground arith

-- In a record that passes its check, an association that says it joins is the one that the record
-- has for its direction, is of the record's connection, and is established, for no other reason, on
-- a known descriptor of a known occupancy, with both ends and their namespace known and a valid
-- interval.
pub validate-IsJoinable :
    (r : Record) (i : ℕ) {a : Association}
    → validate r ≡ none
    → get_elem? r.associations i ≡ some a
    → joinable a ≡ true
    → (association r a.direction ≡ some a) × (a.connection ≡ r.id) × IsJoinable a
validate-IsJoinable r i {a = a} v g j =
    let (found, same, valid) =
      found_valid r.id [] r.associations i {a = a} (validate_associations r v) g in
    (found, same, joins_lem a valid j)

-- ===== src/Admission/Identity.antt =====
-- When instances, denials and selections are usable, and when two records name one instance.
use edge_observer.Prelude.{true, none, ◌≡◌, ◌≢◌, arith, ◌↔◌, ◌⊎◌}
use edge_observer.Prelude.Int.{pos, ◌≤ℤ◌, eq_ℤ_iff}
use edge_observer.Admission.Descent.{Mode}
use edge_observer.Admission.{
  Instance, key, same, Kind, Selection, validate_selection, validate_grant, validate, inherited,
  known,
}

-- Two records name one instance exactly where their namespaces, pids and generations are equal,
-- whatever their start identities and executables are.
pub same_iff : (i j : Instance) → (same i j ≡ true) ↔ (key i ≡ key j)
unfolding same
same_iff i j = ground (arith, eq_ℤ_iff i.pid j.pid)

-- An instance that can be used as an identity.
pub record IsIdentity (i : Instance) : Type 0 where
  pub named : known i.namespace ≡ true
  pub process : ¬ (i.pid ≤ℤ pos 0)
  pub stamped : i.generation ≢ 0

-- A selection is valid exactly where its instance is an identity, a target or descent admitted it,
-- it has a mode, one admitted by descent names its parent and one admitted by a target its number.
pub record IsGrant (s : Selection) : Type 0 where
  pub identity : IsIdentity s.instance_
  pub admitted : (s.kind ≡ Kind.by_target) ⊎ (s.kind ≡ Kind.by_descent)
  pub moded : s.mode ≢ Mode.unset
  pub parented : s.kind ≡ Kind.by_descent → inherited s.provenance ≡ true
  pub targeted : s.kind ≡ Kind.by_target → ¬ (s.provenance.number ≤ℤ pos 0)

validate-IsIdentity : (i : Instance) → (validate i ≡ none) ↔ IsIdentity i
unfolding validate
validate-IsIdentity i = (λ e. ground arith, λ v. ground arith)

-- `Selection.Validate` accepts exactly the selections that are grants: of an instance with a
-- namespace, a positive pid and a generation, admitted by a target or by descent, with a mode, with
-- a parent where descent admitted it and with a positive number where a target did.
pub validate_selection-IsGrant : (s : Selection) → (validate_selection s ≡ none) ↔ IsGrant s
unfolding validate_selection validate_grant
validate_selection-IsGrant s = (λ e. ground arith, λ v. ground arith)

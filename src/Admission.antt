-- ===== src/Admission.antt =====
-- admission/admission.go: the identity of an admitted process, the mode of a grant and the checks
-- on instances, denials and selections. Rendering (the String methods) is left out.
pub mod Descent
pub mod Identity
mod Tests
use edge_observer.Prelude.{
  ℕ, Bool, true, false, not, ◌&&◌, ◌||◌, List, [], ◌∷◌, Option, none, some, ◌==◌, ltb, leb,
  if◌then◌else◌, u64_mod, ◌<◌, ◌≡◌, arith, refl, ◌↔◌, ◌⊎◌, inl, inr,
}
use edge_observer.Prelude.Int.{ℤ, pos, leb_ℤ, eq_ℤ}
use Prim.Native.String.{String}
use Descent.{Mode, is_unset}

-- `Namespace`.
pub record Namespace : Type 0 where
  pub device : ℕ
  pub inode : ℕ

-- `Namespace.Known`.
abbrev pub known : Namespace → Bool
known n = not (n.device == 0) || not (n.inode == 0)

-- `Start`.
pub record Start : Type 0 where
  pub ticks : ℕ
  pub determined : Bool

-- `Determinate`, `Indeterminate`.
abbrev pub determinate : ℕ → Start
determinate t = record { ticks = t; determined = true }

abbrev pub indeterminate : Start
indeterminate = record { ticks = 0; determined = false }

-- `KernelGenerations`: 1 << 63.
abbrev pub kernel_generations : ℕ
kernel_generations = 9_223_372_036_854_775_808

-- `Generation.FromKernel`.
abbrev pub from_kernel : ℕ → Bool
from_kernel g = leb kernel_generations g

-- `Instance`.
pub record Instance : Type 0 where
  pub namespace : Namespace
  pub pid : ℤ
  pub start : Start
  pub generation : ℕ
  pub executable : String

-- `Key`.
pub record Key : Type 0 where
  pub namespace : Namespace
  pub pid : ℤ
  pub generation : ℕ

-- `Instance.Key`.
abbrev pub key : Instance → Key
key i = record { namespace = i.namespace; pid = i.pid; generation = i.generation }

abbrev pub same_namespace : Namespace → Namespace → Bool
same_namespace a b = a.device == b.device && a.inode == b.inode

-- `==` on keys.
abbrev pub same_key : Key → Key → Bool
same_key a b =
    same_namespace a.namespace b.namespace && eq_ℤ a.pid b.pid && a.generation == b.generation

-- `Instance.Same`.
pub same : Instance → Instance → Bool
same i other = same_key (key i) (key other)

-- What a refused record of this package says, one for each case of its checks.
pub data Fault : Type 0 where
  no_namespace no_process no_generation : Fault
  denied_by_nothing : Fault
  no_admission no_mode no_parent no_target : Fault

-- `Instance.Validate`.
unfoldable pub validate : Instance → Option Fault
validate i =
    if not (known i.namespace)
    then some no_namespace
    else if leb_ℤ i.pid (pos 0)
    then some no_process
    else if i.generation == 0
    then some no_generation
    else none

-- `Kind`; `other` is any value that no constant names.
pub data Kind : Type 0 where
  unknown by_target by_descent other : Kind

abbrev no_key : Key
no_key = record { namespace = record { device = 0; inode = 0 }; pid = pos 0; generation = 0 }

-- `Provenance`. `Target` is the entry's name, `Number` an int that configurations count from one.
pub record Provenance : Type 0 where
  pub target : String
  pub number : ℤ
  pub rule : ℤ
  pub parent : Key

-- `Provenance.Inherited`.
pub inherited : Provenance → Bool
inherited p = not (same_key p.parent no_key)

-- `Denial`.
pub record Denial : Type 0 where
  pub instance_ : Instance
  pub provenance : Provenance
  pub observer_pid : ℤ

-- `Denial.Validate`.
pub validate_denial : Denial → Option Fault
unfolding validate inherited
validate_denial d = elim (validate d.instance_) [
  | some e ↦ some e
  | none ↦
      if leb_ℤ d.provenance.number (pos 0) && not (inherited d.provenance)
      then some denied_by_nothing
      else none
]

-- `Selection`, less its fields that no check reads (`Propagation`, `Adopted`).
pub record Selection : Type 0 where
  pub instance_ : Instance
  pub kind : Kind
  pub provenance : Provenance
  pub also_named_by : List Provenance
  pub mode : Mode
  pub observer_pid : ℤ

abbrev is_kind : Kind → Kind → Bool
is_kind Kind.by_target Kind.by_target = true
is_kind Kind.by_descent Kind.by_descent = true
is_kind _ _ = false

-- The switch of `Selection.Validate`.
validate_grant : Selection → Option Fault
unfolding inherited
validate_grant s =
    if not (is_kind s.kind Kind.by_target) && not (is_kind s.kind Kind.by_descent)
    then some no_admission
    else if is_unset s.mode
    then some no_mode
    else if is_kind s.kind Kind.by_descent && not (inherited s.provenance)
    then some no_parent
    else if is_kind s.kind Kind.by_target && leb_ℤ s.provenance.number (pos 0)
    then some no_target
    else none

-- `Selection.Validate`.
pub validate_selection : Selection → Option Fault
unfolding validate validate_grant
validate_selection s = elim (validate s.instance_) [ some e ↦ some e | none ↦ validate_grant s ]

-- `Selection.NamedBy`.
pub named_by : Selection → List Provenance
named_by s = s.provenance ∷ s.also_named_by

-- ===== src/Examples/PackagesAt.antt =====
-- Concrete packages for the theorems on src/interface/state_descriptor.cpp.
use mathlib.Core.List.{Perm, reverse, reverse_perm}
use parthenon.Base.{
  inl, ◌==◌, if◌then◌else◌, ℕ, suc, Bool, true, List, [], ◌∷◌, ◌++◌, Result, ok, err, ◌≡◌, refl,
  arith, ◌↔◌,
}
use parthenon.Base.Chars.{codes, eqb}
use parthenon.Metadata.{
  Metadata, cell, with_fluxes, private_flag, is_set, do_bit, resize, count_set, set_flag, location,
  is_mesh_tied, has_refinement_ops, valid_coordinates, is_valid, set_bits, set_default,
  with_defaults, checked, filled, construct, provides, requires, overridable,
}
use parthenon.Packages.{
  Error, VariableProvider, Entry, resolve, IsConsistent, perform, Call, direct_calls,
  overridable_calls, StateDescriptor, field_present, flux_flags, add_flux, flux_metadata,
  add_field_impl, add_field, create_resolved, IsFluxed, resolve-plan, create_resolved-flux_label,
  IsTyped, Params, find_key, assign, emplace, has_key, add_param, get, reset, mutable, wrong_type,
  get-write,
}

-- A provider that counts its calls.
abbrev counting : VariableProvider ℕ
counting = record {
  add_private = λ p x m n. ok (suc n);
  add_provides = λ p x m n. ok (suc n);
  add_overridable = λ x m n. ok (suc n);
}

abbrev with_role : ℕ → Metadata
with_role r = record {
  bits = do_bit r true [];
  shape = [];
  component_labels = [];
  associated = [];
  flux_var = [];
  refinement_funcs = [];
}

abbrev pressure : List Entry
pressure =
    record { package_name = codes "gas"; base_name = codes "p"; metadata = with_role provides }
    ∷ record { package_name = codes "grain"; base_name = codes "p"; metadata = with_role requires }
    ∷ record {
      package_name = codes "grain";
      base_name = codes "q";
      metadata = with_role overridable;
    }
    ∷ []

-- A map that is visited from its last entry to its first.
resolve-plan_example :
    (visited : List Call) × Perm visited (overridable_calls pressure)
    × ((s s2 : ℕ)
        → (resolve reverse counting pressure s ≡ ok s2) ↔ (
            IsConsistent pressure
            × (perform counting (direct_calls pressure ++ visited) s ≡ ok s2)))
resolve-plan_example = resolve-plan reverse reverse_perm counting pressure

abbrev ops : List ℕ
ops = codes "ops"

abbrev u : List ℕ
u = codes "u"

abbrev private_u : Metadata
private_u = filled (private_flag ∷ cell ∷ with_fluxes ∷ []) [] [] [] ops

abbrev package_called : List ℕ → ℕ → StateDescriptor
package_called label n = record { label = label; package_flag = n; fields = [] }

abbrev gas : StateDescriptor
gas = package_called (codes "gas") 35

abbrev grain : StateDescriptor
grain = package_called (codes "grain") 36

abbrev state_of : StateDescriptor → Result Error (Bool × StateDescriptor) → StateDescriptor
state_of sd (ok (added, p)) = p
state_of sd (err f) = sd

abbrev gas_with_u : StateDescriptor
gas_with_u = state_of gas (add_field ops u private_u [] gas)

abbrev grain_with_u : StateDescriptor
grain_with_u = state_of grain (add_field ops u private_u [] grain)

gas_added : add_field ops u private_u [] gas ≡ ok (true, gas_with_u)
unfolding add_field add_field_impl add_flux flux_metadata flux_flags field_present construct checked
    filled is_valid valid_coordinates is_mesh_tied location count_set is_set with_defaults
    set_default set_bits do_bit resize has_refinement_ops set_flag
gas_added = refl

grain_added : add_field ops u private_u [] grain ≡ ok (true, grain_with_u)
unfolding add_field add_field_impl add_flux flux_metadata flux_flags field_present construct checked
    filled is_valid valid_coordinates is_mesh_tied location count_set is_set with_defaults
    set_default set_bits do_bit resize has_refinement_ops set_flag
grain_added = refl

gas-IsFluxed : IsFluxed u private_u gas
unfolding filled is_set with_defaults set_default set_bits do_bit resize count_set field_present
gas-IsFluxed = record { fluxes = refl; unnamed = refl; new_flux = refl; user_flag = omega arith }

grain-IsFluxed : IsFluxed u private_u grain
unfolding filled is_set with_defaults set_default set_bits do_bit resize count_set field_present
grain-IsFluxed = record { fluxes = refl; unnamed = refl; new_flux = refl; user_flag = omega arith }

create_resolved-flux_label_example : ¬ (
    create_resolved reverse ops
      (gas_with_u ∷ grain_with_u ∷ [])
      (package_called (codes "resolved") 37)
    ≡ ok gas)
create_resolved-flux_label_example =
    create_resolved-flux_label reverse ops u private_u private_u [] [] gas gas_with_u grain
      grain_with_u [] (package_called (codes "resolved") 37) gas gas-IsFluxed gas_added
      grain-IsFluxed grain_added

abbrev cfl : List ℕ
cfl = codes "cfl"

nothing-IsTyped : IsTyped {C = ℕ} reset
unfolding find_key
nothing-IsTyped = record {
  type_noted = λ key object e. absurd cc;
  mutability_noted = λ key object e. absurd cc;
  nothing_noted = λ key e. refl;
}

abbrev with_cfl : Params ℕ
with_cfl = record {
  my_params = record { key = cfl; value = record { type_id = 4; content = 3 } } ∷ [];
  my_types = record { key = cfl; value = 4 } ∷ [];
  my_mutable = record { key = cfl; value = mutable } ∷ [];
}

cfl_added : add_param 4 cfl 3 mutable reset ≡ ok with_cfl
unfolding add_param has_key find_key assign emplace
cfl_added = refl

get-write_example :
    IsTyped with_cfl
    × ((t : ℕ) (k : List ℕ)
        → get t k with_cfl
          ≡ (if eqb k cfl then if 4 == t then ok 3 else err wrong_type else get t k reset))
get-write_example = get-write 4 cfl 3 reset with_cfl nothing-IsTyped (inl (mutable, cfl_added))

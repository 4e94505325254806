-- ===== src/Packages/Descriptor.antt =====
-- The dense fields of a package and their provider: AddField, AddFieldImpl, FieldPresent, GetFieldController,
-- FieldProvider and CreateResolvedStateDescriptor of src/interface/state_descriptor.hpp and .cpp. The metadata map and
-- the map of controllers, which have the same keys, are one list. Sparse pools and swarms are left out.
use parthenon.Base.{
  ℕ, ◌&&◌, ◌||◌, not, if◌then◌else◌, Bool, true, false, List, [], ◌∷◌, ◌++◌, Result, ok, err, ◌>>=◌,
  ◌>>◌, guard,
}
use parthenon.Base.Chars.{codes, eqb}
use parthenon.Metadata.{
  Metadata, MetadataFlag, is_set, set_flag, construct, has_refinement_ops, is_empty, cell, face,
  edge, node, one_copy, flux, sparse, fine, with_fluxes,
}
use parthenon.Packages.Tracker.{
  Error, VariableProvider, Entry, Overridable, resolve, bad_metadata, sparse_field, no_controller,
  no_such_package, not_added,
}

pub record Field : Type 0 where
  pub name : List ℕ
  pub metadata : Metadata
  pub controller : List ℕ

pub record StateDescriptor : Type 0 where
  pub label : List ℕ
  -- The flag of the package.
  pub package_flag : MetadataFlag
  pub fields : List Field

abbrev pub has_field : List ℕ → List Field → Bool
has_field name [] = false
has_field name (f ∷ fs) = eqb name f.name || has_field name fs

unfoldable pub field_present : List ℕ → StateDescriptor → Bool
field_present name sd = has_field name sd.fields

abbrev pub separator : List ℕ
separator = codes "::"

abbrev pub flux_prefix : List ℕ
flux_prefix = codes "bnd_flux"

abbrev pub flux_label : List ℕ → List ℕ
flux_label name = flux_prefix ++ (separator ++ name)

unfoldable pub flux_flags : List Bool → List MetadataFlag
flux_flags bits =
    one_copy
    ∷ flux
    ∷ ((if is_set bits sparse then sparse ∷ [] else [])
        ++ ((if is_set bits fine then fine ∷ [] else [])
            ++ (if is_set bits cell
                then face ∷ []
                else if is_set bits face
                then edge ∷ []
                else if is_set bits edge
                then node ∷ []
                else [])))

abbrev pub associate : List ℕ → Metadata → Metadata
associate name m = if is_empty m.associated then record m { associated = name } else m

-- RefinementFunctionMaps::Register throws where there are no refinement functions.
abbrev pub insert_field :
    List ℕ → Metadata → List ℕ → StateDescriptor → Result Error StateDescriptor
insert_field name m controller sd =
    guard (not (has_refinement_ops m.bits && is_empty m.refinement_funcs)) bad_metadata
    >> ok (record sd {
      fields = sd.fields ++ record { name = name; metadata = m; controller = controller } ∷ [];
    })

-- AddFieldImpl for the flux of a field, whose metadata have no fluxes.
unfoldable pub add_flux :
    List ℕ → Metadata → List ℕ → StateDescriptor → Result Error StateDescriptor
add_flux name m controller sd =
    if field_present name sd then ok sd else insert_field name (associate name m) controller sd

-- `default_ops` is the label of the refinement functions of a variable that names none.
module _ (default_ops : List ℕ) where
  unfoldable pub flux_metadata : Metadata → Result Error Metadata
  flux_metadata m =
      elim (construct (flux_flags m.bits) m.shape [] []
        (if is_empty m.refinement_funcs then default_ops else m.refinement_funcs)) [
          | ok mf ↦ ok mf
          | err f ↦ err bad_metadata
        ]

  unfoldable pub add_field_impl :
      List ℕ → Metadata → List ℕ → StateDescriptor → Result Error (Bool × StateDescriptor)
  add_field_impl name m_in controller sd =
      let m = associate name m_in in
      if field_present name sd
      then ok (false, sd)
      else if is_set m.bits with_fluxes && is_empty m.flux_var
      then (flux_metadata m >>= λ mf. add_flux (flux_label name) mf controller sd >>= λ with_flux.
          insert_field name (record m { flux_var = flux_label name }) controller with_flux
          >>= λ added. ok (true, added))
      else (insert_field name m controller sd >>= λ added. ok (true, added))

  unfoldable pub add_field :
      List ℕ → Metadata → List ℕ → StateDescriptor → Result Error (Bool × StateDescriptor)
  add_field name m controlling sd =
      if is_set m.bits sparse
      then err sparse_field
      else add_field_impl name
          (if not (is_set m.bits sd.package_flag) then set_flag sd.package_flag true m else m)
          (if is_empty controlling then name else controlling) sd

  abbrev pub controller_of : List ℕ → List Field → Result Error (List ℕ)
  controller_of name [] = err no_controller
  controller_of name (f ∷ fs) =
      let rest = controller_of name fs in if eqb name f.name then ok f.controller else rest

  unfoldable pub get_field_controller : List ℕ → StateDescriptor → Result Error (List ℕ)
  get_field_controller name sd = controller_of name sd.fields

  unfoldable pub get_package : List ℕ → List StateDescriptor → Result Error StateDescriptor
  get_package name [] = err no_such_package
  get_package name (p ∷ ps) =
      let rest = get_package name ps in if eqb name p.label then ok p else rest

  -- The first package that has the field.
  unfoldable pub package_with : List ℕ → List StateDescriptor → Result Error StateDescriptor
  package_with name [] = err not_added
  package_with name (p ∷ ps) =
      let rest = package_with name ps in if field_present name p then ok p else rest

  abbrev pub require_added : Bool × StateDescriptor → Result Error StateDescriptor
  require_added (added, sd) = if added then ok sd else err not_added

  unfoldable pub field_provider : List StateDescriptor → VariableProvider StateDescriptor
  field_provider packages = record {
    add_private = λ package_name base_name m state. get_package package_name packages >>= λ p.
        get_field_controller base_name p >>= λ controller.
        add_field (package_name ++ (separator ++ base_name)) m controller state >>= require_added;
    add_provides = λ package_name base_name m state. get_package package_name packages >>= λ p.
        get_field_controller base_name p >>= λ controller.
        add_field base_name m controller state >>= require_added;
    add_overridable = λ base_name m state. package_with base_name packages >>= λ p.
        get_field_controller base_name p >>= λ controller.
        add_field base_name m controller state >>= require_added;
  }

unfoldable pub dense_fields : List ℕ → List Field → List Entry
dense_fields package_name [] = []
dense_fields package_name (f ∷ fs) =
    let rest = dense_fields package_name fs in
    if not (is_set f.metadata.bits sparse)
    then record { package_name = package_name; base_name = f.name; metadata = f.metadata } ∷ rest
    else rest

unfoldable pub all_fields : List StateDescriptor → List Entry
all_fields [] = []
all_fields (p ∷ ps) = dense_fields p.label p.fields ++ all_fields ps

-- `visit` is the order in which an unordered map is visited, and `state` is the descriptor of the resolved state, without fields.
unfoldable pub create_resolved :
    (List Overridable → List Overridable)
    → List ℕ
    → List StateDescriptor
    → StateDescriptor
    → Result Error StateDescriptor
create_resolved visit default_ops packages state =
    resolve visit (field_provider default_ops packages) (all_fields packages) state

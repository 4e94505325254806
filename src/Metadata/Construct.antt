-- ===== src/Metadata/Construct.antt =====
-- The general constructor of Metadata, IsValid, Where, Role, Type, IsMeshTied, HasRefinementOps, the
-- setters and operator== of src/interface/metadata.hpp and .cpp. The refinement functions are known
-- by their label. An extent of a shape is an `int`, and so is the product of them, which wraps.
use parthenon.Base.Int.{ℤ, pos, eqb_ℤ, wrap32, ◌*ℤ◌}
use parthenon.Base.{
  ℕ, leb, ◌==◌, ◌&&◌, ◌||◌, not, if◌then◌else◌, Bool, true, false, List, [], ◌∷◌, length, Result,
  ok, err, guard, ◌>>=◌, ◌>>◌,
}
use parthenon.Metadata.Flag.{
  MetadataFlag, none_flag, cell, face, edge, node, private_flag, provides, requires, overridable,
  vector, tensor, boolean, integer, real, independent, derived, fill_ghost, with_fluxes,
  force_remesh_comm, gmg_prolongate, gmg_restrict, flux, coordinates_vec,
}
use parthenon.Metadata.Bits.{is_set, do_bit, count_set, has_same_flags}

pub data Error : Type 0 where
  topology_count : Error
  role_count : Error
  shape_count : Error
  coordinates_centering : Error
  coordinates_rank : Error
  coordinates_extent : Error
  type_count : Error
  independent_count : Error
  no_refinement_ops : Error
  no_topology : Error
  no_type : Error
  no_role : Error
  rank_above_three : Error
  wrong_labels : Error
  -- shape_[0] is read of an empty shape.
  out_of_bounds : Error

pub record Metadata : Type 0 where
  pub bits : List Bool
  pub shape : List ℤ
  pub component_labels : List (List ℕ)
  pub associated : List ℕ
  pub flux_var : List ℕ
  -- The label of the refinement functions, which is empty where none are registered.
  pub refinement_funcs : List ℕ

-- Metadata()
unfoldable pub default_metadata : Metadata
default_metadata = record {
  bits = [];
  shape = pos 1 ∷ [];
  component_labels = [];
  associated = [];
  flux_var = [];
  refinement_funcs = [];
}

-- Set and Unset.
unfoldable pub set_flag : MetadataFlag → Bool → Metadata → Metadata
set_flag f value m = record m { bits = do_bit f value m.bits }

abbrev pub topologies : List MetadataFlag
topologies = none_flag ∷ node ∷ edge ∷ face ∷ cell ∷ []

abbrev pub roles : List MetadataFlag
roles = private_flag ∷ provides ∷ requires ∷ overridable ∷ []

abbrev pub shapes : List MetadataFlag
shapes = vector ∷ tensor ∷ []

abbrev pub types : List MetadataFlag
types = boolean ∷ integer ∷ real ∷ []

abbrev pub dependences : List MetadataFlag
dependences = independent ∷ derived ∷ []

-- Where
unfoldable pub location : List Bool → Result Error MetadataFlag
location bits =
    if is_set bits cell
    then ok cell
    else if is_set bits face
    then ok face
    else if is_set bits edge
    then ok edge
    else if is_set bits node
    then ok node
    else if is_set bits none_flag
    then ok none_flag
    else err no_topology

-- Type
unfoldable pub data_type : List Bool → Result Error MetadataFlag
data_type bits =
    if is_set bits boolean
    then ok boolean
    else if is_set bits integer
    then ok integer
    else if is_set bits real
    then ok real
    else err no_type

-- Role
unfoldable pub role : List Bool → Result Error MetadataFlag
role bits =
    if is_set bits private_flag
    then ok private_flag
    else if is_set bits provides
    then ok provides
    else if is_set bits requires
    then ok requires
    else if is_set bits overridable
    then ok overridable
    else err no_role

unfoldable pub is_mesh_tied : List Bool → Result Error Bool
is_mesh_tied bits = location bits >>= λ at. ok (not (at == none_flag))

unfoldable pub has_refinement_ops : List Bool → Bool
has_refinement_ops bits =
    is_set bits independent
    || is_set bits fill_ghost
    || is_set bits force_remesh_comm
    || is_set bits gmg_prolongate
    || is_set bits gmg_restrict
    || is_set bits flux
    || is_set bits with_fluxes

-- What one test of IsValid does: it throws if it is told to, and else notes the failure.
abbrev pub check : Bool → Bool → Error → Result Error Bool
check throw_on_fail holds failure =
    if holds then ok true else if throw_on_fail then err failure else ok false

-- A test and those after it.
infixr 6 ◌both◌
abbrev pub ◌both◌ : Result Error Bool → Result Error Bool → Result Error Bool
first both rest = first >>= λ a. rest >>= λ b. ok (a && b)

abbrev pub first_extent : List ℤ → Result Error ℤ
first_extent [] = err out_of_bounds
first_extent (n ∷ ns) = ok n

abbrev pub is_empty {ℓ} : {A : Type ℓ} → List A → Bool
is_empty [] = true
is_empty (x ∷ xs) = false

unfoldable pub valid_coordinates : Bool → Metadata → Result Error Bool
valid_coordinates throw_on_fail m =
    if is_set m.bits coordinates_vec
    then (location m.bits >>= λ at. check throw_on_fail (at == node) coordinates_centering)
      both check throw_on_fail (length m.shape == 1) coordinates_rank
      both (first_extent m.shape >>= λ n. check throw_on_fail (eqb_ℤ n (pos 3)) coordinates_extent)
    else ok true

unfoldable pub is_valid : Bool → Metadata → Result Error Bool
is_valid throw_on_fail m =
    check throw_on_fail (count_set m.bits topologies == 1) topology_count
    both check throw_on_fail (count_set m.bits roles == 1) role_count
    both check throw_on_fail (leb (count_set m.bits shapes) 1) shape_count
    both valid_coordinates throw_on_fail m
    both check throw_on_fail (count_set m.bits types == 1) type_count
    both check throw_on_fail (count_set m.bits dependences == 1) independent_count
    both check throw_on_fail (not (has_refinement_ops m.bits && is_empty m.refinement_funcs))
        no_refinement_ops

unfoldable pub set_bits : List MetadataFlag → List Bool → List Bool
set_bits [] bits = bits
set_bits (f ∷ fs) bits = set_bits fs (do_bit f true bits)

-- Sets a flag where none of its group is set.
unfoldable pub set_default : List MetadataFlag → MetadataFlag → List Bool → List Bool
set_default group f bits = if count_set bits group == 0 then do_bit f true bits else bits

unfoldable pub with_defaults : List Bool → List Bool
with_defaults bits =
    set_default dependences derived
      (set_default types real (set_default roles provides (set_default topologies none_flag bits)))

-- `num_comp *= s` for each extent, on an `int`.
unfoldable pub num_comp_from : ℤ → List ℤ → ℤ
unfolding wrap32
num_comp_from n [] = n
num_comp_from n (s ∷ shape) = num_comp_from (wrap32 (n *ℤ s)) shape

unfoldable pub num_comp : List ℤ → ℤ
unfolding num_comp_from
num_comp shape = num_comp_from (pos 1) shape

-- No component labels, or as many as components. A product below 0 becomes a `std::size_t` that is
-- larger than the size of any vector.
abbrev pub labels_fit : List (List ℕ) → List ℤ → Bool
labels_fit labels shape = length labels == 0 || eqb_ℤ (pos (length labels)) (num_comp shape)

abbrev pub good_shape : Metadata → Result Error (Unit {0})
good_shape m =
    guard (leb (length m.shape) 3) rank_above_three
    >> guard (labels_fit m.component_labels m.shape) wrong_labels

unfoldable pub checked : Metadata → Result Error Metadata
checked m = is_valid true m >>= λ valid.
    is_mesh_tied m.bits >>= λ tied. (if tied then good_shape m else ok tt) >>= λ done. ok m

-- The object that the constructor fills before its checks.
unfoldable pub filled : List MetadataFlag → List ℤ → List (List ℕ) → List ℕ → List ℕ → Metadata
filled flags shape component_labels associated ref_funcs =
    let bits = with_defaults (set_bits flags []) in
    record {
      bits = bits;
      shape = shape;
      component_labels = component_labels;
      associated = associated;
      flux_var = [];
      refinement_funcs = if has_refinement_ops bits then ref_funcs else [];
    }

unfoldable pub construct :
    List MetadataFlag → List ℤ → List (List ℕ) → List ℕ → List ℕ → Result Error Metadata
construct flags shape component_labels associated ref_funcs =
    checked (filled flags shape component_labels associated ref_funcs)

unfoldable pub same_extents : List ℤ → List ℤ → Bool
same_extents [] [] = true
same_extents [] (n ∷ ns) = false
same_extents (m ∷ ms) [] = false
same_extents (m ∷ ms) (n ∷ ns) = eqb_ℤ m n && same_extents ms ns

-- operator==
unfoldable pub equals : Metadata → Metadata → Bool
equals a b = has_same_flags a.bits b.bits && same_extents a.shape b.shape

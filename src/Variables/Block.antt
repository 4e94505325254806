-- ===== src/Variables/Block.antt =====
-- The variables of a block: Add and GetVariablesByFlag of src/interface/meshblock_data.hpp and .cpp and Add of
-- src/interface/variable_pack.hpp. A variable, its label and its pointer are known by the unique number that
-- GetUniqueID gives the label; what it points to is an argument.
use parthenon.Base.{
  ℕ, ◌||◌, not, if◌then◌else◌, Bool, false, List, [], ◌∷◌, ◌++◌, Result, ok, err, ◌>>=◌, contains,
}
use parthenon.Base.Int.{ℤ, eqb_ℤ}
use parthenon.Metadata.{
  MetadataFlag, FlagCollection, is_set, flags, insert, get_by_flag, sparse, flux, with_fluxes,
  is_empty,
}

pub record Variable : Type 0 where
  pub bits : List Bool
  pub sparse_id : ℤ
  -- The variable that has the name of the flux.
  pub flux_name : ℕ

pub record MeshBlockData : Type 0 where
  pub var_vector : List ℕ
  pub var_map : List ℕ
  pub var_uid_map : List ℕ
  pub flags_to_vars : MetadataFlag → List ℕ

pub data Error : Type 0 where
  added_twice : Error
  no_fluxes : Error
  not_found : Error

pub data FluxRequest : Type 0 where
  no_flux only_flux any : FluxRequest

-- After the maps have been cleared.
abbrev pub cleared : MeshBlockData
cleared = record { var_vector = []; var_map = []; var_uid_map = []; flags_to_vars = λ f. [] }

abbrev pub contains_ℤ : ℤ → List ℤ → Bool
contains_ℤ i [] = false
contains_ℤ i (j ∷ js) = eqb_ℤ i j || contains_ℤ i js

-- `count` is how many flags there are.
module _ (count : ℕ) (var : ℕ → Variable) where
  -- What Add does once it has seen that the variable is new.
  abbrev pub indexed : ℕ → MeshBlockData → MeshBlockData
  indexed v d = record {
    var_vector = d.var_vector ++ v ∷ [];
    var_map = insert v d.var_map;
    var_uid_map = insert v d.var_uid_map;
    flags_to_vars = λ f.
        if contains f (flags count (var v).bits)
        then insert v (d.flags_to_vars f)
        else d.flags_to_vars f;
  }

  unfoldable pub add : ℕ → MeshBlockData → Result Error MeshBlockData
  add v d = if contains v d.var_uid_map then err added_twice else ok (indexed v d)

  -- The loops of Initialize over the variables to add.
  unfoldable pub add_all : List ℕ → MeshBlockData → Result Error MeshBlockData
  add_all [] d = ok d
  add_all (v ∷ vs) d = add v d >>= λ added. add_all vs added

module _ (var : ℕ → Variable) where
  -- Whether VarListWithKeys::Add takes the variable.
  abbrev pub is_wanted : List ℤ → ℕ → Bool
  is_wanted sparse_ids v =
      not (is_set (var v).bits sparse)
      || is_empty sparse_ids
      || contains_ℤ (var v).sparse_id sparse_ids

  unfoldable pub list_add : List ℤ → ℕ → List ℕ → List ℕ
  list_add sparse_ids v vars = if is_wanted sparse_ids v then vars ++ v ∷ [] else vars

  unfoldable pub request : FluxRequest → List ℤ → List ℕ → ℕ → List ℕ → Result Error (List ℕ)
  request any sparse_ids var_map v vars = ok (list_add sparse_ids v vars)
  request no_flux sparse_ids var_map v vars =
      if is_set (var v).bits flux then ok vars else ok (list_add sparse_ids v vars)
  request only_flux sparse_ids var_map v vars =
      if is_set (var v).bits flux
      then ok vars
      else if not (is_set (var v).bits with_fluxes)
      then err no_fluxes
      else if contains (var v).flux_name var_map
      then ok (list_add sparse_ids (var v).flux_name vars)
      else err not_found

  unfoldable pub request_all :
      FluxRequest → List ℤ → List ℕ → List ℕ → List ℕ → Result Error (List ℕ)
  request_all wanted sparse_ids var_map [] vars = ok vars
  request_all wanted sparse_ids var_map (v ∷ vs) vars =
      request wanted sparse_ids var_map v vars >>= λ more.
      request_all wanted sparse_ids var_map vs more

  unfoldable pub get_variables_by_flag :
      FlagCollection → List ℤ → FluxRequest → MeshBlockData → Result Error (List ℕ)
  get_variables_by_flag c sparse_ids wanted d =
      request_all wanted sparse_ids d.var_map
        (get_by_flag (λ v. (var v).bits) c d.var_map d.flags_to_vars) []

-- ===== src/Packages/Names.antt =====
-- GetVariableNames of src/interface/state_descriptor.cpp, with MakeVarLabel of src/interface/var_id.hpp over the
-- library's std::to_string. The set of the names seen and the vector of names hold the same.
use parthenon.Base.{
  ℕ, ◌+◌, ◌&&◌, ◌||◌, not, if◌then◌else◌, Bool, false, List, [], ◌∷◌, ◌++◌, Result, ok, err, ◌>>=◌,
  flag,
}
use parthenon.Base.Int.{ℤ, eqb_ℤ}
use parthenon.Base.Chars.{codes, eqb}
use parthenon.Metadata.{FlagCollection, match_flags, empty, is_set, is_empty, sparse}
use parthenon.Variables.{contains_ℤ}
use parthenon.Packages.Tracker.{member}
use parthenon.Packages.Descriptor.{Field, has_field}
use parthenon.Packages.Sparse.{Member, SparsePool, invalid_sparse_id}

pub data NamesError : Type 0 where
  sparse_by_name : NamesError

pub record Declared : Type 0 where
  pub fields : List Field
  pub pools : List SparsePool

unfoldable pub add_name : List ℕ → List (List ℕ) → List (List ℕ)
add_name x names = if member x names then names else names ++ x ∷ []

unfoldable pub add_names : List (List ℕ) → List (List ℕ) → List (List ℕ)
add_names [] names = names
add_names (x ∷ xs) names = add_names xs (add_name x names)

unfoldable pub is_sparse_field : List ℕ → List Field → Bool
is_sparse_field x [] = false
is_sparse_field x (f ∷ fs) =
    let rest = is_sparse_field x fs in if eqb x f.name then is_set f.metadata.bits sparse else rest

-- Non-sparse fields by flags.
unfoldable pub add_dense : FlagCollection → List Field → List (List ℕ) → List (List ℕ)
add_dense c [] names = names
add_dense c (f ∷ fs) names = add_dense c fs (
    if match_flags c f.metadata.bits && not (is_set f.metadata.bits sparse)
    then add_name f.name names
    else names)

module _ (to_string : ℤ → List ℕ) where
  abbrev pub make_var_label : List ℕ → ℤ → List ℕ
  make_var_label base i =
      base ++ (if eqb_ℤ i invalid_sparse_id then [] else codes "_" ++ to_string i)

  unfoldable pub labels_of : List ℕ → List ℤ → List Member → List (List ℕ)
  labels_of base ids [] = []
  labels_of base ids (m ∷ ms) =
      let rest = labels_of base ids ms in
      if is_empty ids || contains_ℤ m.sparse_id ids
      then make_var_label base m.sparse_id ∷ rest
      else rest

  -- The labels of the pool of a name, none if there is no such pool.
  unfoldable pub pool_labels : List ℕ → List ℤ → List SparsePool → List (List ℕ)
  pool_labels x ids [] = []
  pool_labels x ids (p ∷ ps) =
      let rest = pool_labels x ids ps in if eqb x p.base_name then labels_of x ids p.pool else rest

  unfoldable pub add_requested :
      Declared → List ℤ → List (List ℕ) → List (List ℕ) → Result NamesError (List (List ℕ))
  add_requested d ids [] names = ok names
  add_requested d ids (x ∷ xs) names =
      if has_field x d.fields && is_sparse_field x d.fields
      then err sparse_by_name
      else add_requested d ids xs (
          if has_field x d.fields
          then add_name x names
          else add_names (pool_labels x ids d.pools) names)

  -- Sparse fields by the flags of their pool.
  unfoldable pub add_pools :
      FlagCollection → List ℤ → List SparsePool → List (List ℕ) → List (List ℕ)
  add_pools c ids [] names = names
  add_pools c ids (p ∷ ps) names = add_pools c ids ps (
      if match_flags c p.shared_metadata.bits
      then add_names (labels_of p.base_name ids p.pool) names
      else names)

  unfoldable pub get_variable_names :
      List (List ℕ) → FlagCollection → List ℤ → Declared → Result NamesError (List (List ℕ))
  get_variable_names requested c ids d = add_requested d ids requested [] >>= λ names.
      ok (if empty c then names else add_pools c ids d.pools (add_dense c d.fields names))

-- What the names are to be.
abbrev pub count_name : List ℕ → List (List ℕ) → ℕ
count_name x [] = 0
count_name x (y ∷ ys) = flag (eqb x y) + count_name x ys

module _ (to_string : ℤ → List ℕ) (d : Declared) (ids : List ℤ) where
  unfoldable pub by_name : List ℕ → List (List ℕ) → Bool
  by_name x [] = false
  by_name x (r ∷ rs) =
      (if has_field r d.fields then eqb x r else member x (pool_labels to_string r ids d.pools))
      || by_name x rs

unfoldable pub by_dense : FlagCollection → List ℕ → List Field → Bool
by_dense c x [] = false
by_dense c x (f ∷ fs) =
    (match_flags c f.metadata.bits && not (is_set f.metadata.bits sparse) && eqb x f.name)
    || by_dense c x fs

module _ (to_string : ℤ → List ℕ) (ids : List ℤ) where
  unfoldable pub by_pool : FlagCollection → List ℕ → List SparsePool → Bool
  by_pool c x [] = false
  by_pool c x (p ∷ ps) =
      (match_flags c p.shared_metadata.bits
        && member x (labels_of to_string p.base_name ids p.pool))
      || by_pool c x ps

-- ===== src/Variables/Listed.antt =====
-- Which variables GetVariablesByFlag of src/interface/meshblock_data.cpp lists.
use parthenon.Base.{
  ℕ, ◌<◌, ◌==◌, ◌&&◌, ◌||◌, not, if◌then◌else◌, Bool, true, false, List, [], ◌∷◌, ◌++◌, ok, err,
  ◌≡◌, refl, sym, ◌∙◌, arith, contains, Bool-cases, inl, inr,
}
use parthenon.Base.Int.{ℤ}
use parthenon.Metadata.{
  MetadataFlag, FlagCollection, is_set, get_by_flag, match_flags, flux, is_empty, empty,
  contains-insert, contains-flags, get_by_flag-match_flags,
}
use parthenon.Variables.Block.{
  Variable, MeshBlockData, FluxRequest, no_flux, any, cleared, indexed, add, add_all, added_twice,
  is_wanted, list_add, request, request_all, get_variables_by_flag,
}

-- The maps of a block agree on what it holds.
pub record IsIndexed (var : ℕ → Variable) (d : MeshBlockData) : Type 0 where
  pub by_label : (v : ℕ) → contains v d.var_map ≡ contains v d.var_vector
  pub by_uid : (v : ℕ) → contains v d.var_uid_map ≡ contains v d.var_vector
  pub by_flag :
      (f : MetadataFlag) (v : ℕ)
      → contains v (d.flags_to_vars f) ≡ contains v d.var_vector && is_set (var v).bits f

pub contains-append :
    (v : ℕ) (xs ys : List ℕ) → contains v (xs ++ ys) ≡ contains v xs || contains v ys
contains-append v [] ys = refl
contains-append v (x ∷ xs) ys = ground (arith, contains-append v xs ys)

module _ (count : ℕ) (var : ℕ → Variable)
    (bounded : (v : ℕ) (f : MetadataFlag) → is_set (var v).bits f ≡ true → f < count) where
  indexed-IsIndexed :
      (v : ℕ) (d : MeshBlockData) → IsIndexed var d → IsIndexed var (indexed count var v d)
  indexed-IsIndexed v d h = record {
    by_label = λ w.
        contains-insert w v d.var_map
        ∙ ground (arith, h.by_label w, contains-append w d.var_vector (v ∷ []));
    by_uid = λ w.
        contains-insert w v d.var_uid_map
        ∙ ground (arith, h.by_uid w, contains-append w d.var_vector (v ∷ []));
    by_flag = λ f w. elim (Bool-cases (w == v)) [
      | inl e ↦
          let same : w ≡ v = ground arith in
          rw same (
            ground (
              arith,
              h.by_flag f v,
              contains-insert v v (d.flags_to_vars f),
              contains-append v d.var_vector (v ∷ []),
              contains-flags count f (var v).bits,
              bounded v f,
            ))
      | inr e ↦ ground (
        arith,
        h.by_flag f w,
        contains-insert w v (d.flags_to_vars f),
        contains-append w d.var_vector (v ∷ []),
      )
    ];
  }

  add_all-IsIndexed :
      (vs : List ℕ) (d d2 : MeshBlockData)
      → IsIndexed var d
      → add_all count var vs d ≡ ok d2
      → IsIndexed var d2
        × ((v : ℕ) → contains v d2.var_vector ≡ contains v vs || contains v d.var_vector)
  unfolding add_all add
  add_all-IsIndexed [] d d2 h e = let same : d ≡ d2 = cc in rw (sym same) (h, λ v. refl)
  add_all-IsIndexed (v ∷ vs) d d2 h e = elim (Bool-cases (contains v d.var_uid_map)) [
    | inl held ↦ let failed : err added_twice ≡ ok d2 = rw held at e in absurd cc
    | inr new ↦
        let next : add_all count var vs (indexed count var v d) ≡ ok d2 = rw new at e in
        let (indexed_rest, vector) =
          add_all-IsIndexed vs (indexed count var v d) d2 (indexed-IsIndexed v d h) next in
        (indexed_rest, λ w. vector w ∙ ground (arith, contains-append w d.var_vector (v ∷ [])))
  ]

  cleared-IsIndexed : IsIndexed var cleared
  cleared-IsIndexed = record { by_label = λ v. refl; by_uid = λ v. refl; by_flag = λ f v. refl }

-- Requests for variables themselves, with or without those that are fluxes.
abbrev pub with_or_without : Bool → FluxRequest
with_or_without fluxes = if fluxes then any else no_flux

module _ (var : ℕ → Variable) (fluxes : Bool) (sparse_ids : List ℤ) (names : List ℕ) where
  abbrev taken : ℕ → Bool
  taken v = (fluxes || not (is_set (var v).bits flux)) && is_wanted var sparse_ids v

  contains-list_add :
      (v w : ℕ) (out : List ℕ)
      → contains w (list_add var sparse_ids v out)
        ≡ contains w out || ((w == v) && is_wanted var sparse_ids v)
  unfolding list_add
  contains-list_add v w out = ground (arith, contains-append w out (v ∷ []))

  request_one :
      (v : ℕ) (out : List ℕ)
      → request var (with_or_without fluxes) sparse_ids names v out
        ≡ ok (
            if fluxes || not (is_set (var v).bits flux) then list_add var sparse_ids v out else out)
  unfolding request
  request_one v out = elim (Bool-cases fluxes) [ inl e ↦ rw e refl | inr e ↦ rw e (ground arith) ]

  request_each :
      (vs out : List ℕ)
      → (all : List ℕ) × (request_all var (with_or_without fluxes) sparse_ids names vs out ≡ ok all)
        × ((w : ℕ) → contains w all ≡ (contains w vs && taken w) || contains w out)
  unfolding request_all
  request_each [] out = (out, refl, λ w. refl)
  request_each (v ∷ vs) out =
      let (all, found, holds) =
        request_each vs (
          if fluxes || not (is_set (var v).bits flux)
          then list_add var sparse_ids v out
          else out) in
      (
        all,
        rw (request_one v out) found,
        λ w. elim (Bool-cases (w == v)) [
          | inl e ↦
              let same : w ≡ v = ground arith in
              rw same (holds v ∙ ground (arith, contains-list_add v v out))
          | inr e ↦ holds w ∙ ground (arith, contains-list_add v w out)
        ],
      )

-- On a block filled from empty by Add alone, GetVariablesByFlag for variables, with or without
-- those that are fluxes, does not fail and lists just the variables added whose metadata MatchFlags
-- accepts, which are no fluxes unless those are asked for, and which are not sparse or of a sparse
-- id asked for, all if none is; it lists none where the collection has exclusions only. Each flag
-- that is set is below the number of flags.
pub get_variables_by_flag-match_flags :
    (count : ℕ) (var : ℕ → Variable) (vs : List ℕ) (d : MeshBlockData) (c : FlagCollection)
    (fluxes : Bool) (sparse_ids : List ℤ)
    → ((v : ℕ) (f : MetadataFlag) → is_set (var v).bits f ≡ true → f < count)
    → add_all count var vs cleared ≡ ok d
    → (out : List ℕ) × (get_variables_by_flag var c sparse_ids (with_or_without fluxes) d ≡ ok out)
      × ((v : ℕ)
          → contains v out ≡ (
              if empty c || not (is_empty c.intersections) || not (is_empty c.unions)
              then contains v vs
                && match_flags c (var v).bits
                && (fluxes || not (is_set (var v).bits flux))
                && is_wanted var sparse_ids v
              else false))
unfolding get_variables_by_flag
get_variables_by_flag-match_flags count var vs d c fluxes sparse_ids bounded h =
    let (maps, vector) =
      add_all-IsIndexed count var bounded vs cleared d (cleared-IsIndexed count var bounded) h in
    let (out, found, holds) =
      request_each var fluxes sparse_ids d.var_map
        (get_by_flag (λ v. (var v).bits) c d.var_map d.flags_to_vars) [] in
    (
      out,
      found,
      λ v.
          holds v
          ∙ ground (
            arith,
            get_by_flag-match_flags (λ w. (var w).bits) c d.var_map d.flags_to_vars
                (λ f w. ground (arith, maps.by_flag f w, maps.by_label w)) v,
            maps.by_label v,
            vector v,
          ),
    )

-- ===== src/Packages/Listing.antt =====
-- Which names GetVariableNames of src/interface/state_descriptor.cpp lists.
use parthenon.Base.{
  ℕ, ◌+◌, ◌≤◌, ◌&&◌, ◌||◌, not, Bool, false, List, [], ◌∷◌, ◌++◌, ok, ◌≡◌, refl, ◌∙◌, arith,
  Bool-cases, inl, inr,
}
use parthenon.Base.Int.{ℤ}
use parthenon.Base.Chars.{eqb, eqb_refl, eqb-eq}
use parthenon.Metadata.{FlagCollection, match_flags, empty, is_set, sparse}
use parthenon.Packages.Tracker.{member}
use parthenon.Packages.Descriptor.{Field, has_field}
use parthenon.Packages.Sparse.{SparsePool}
use parthenon.Packages.Names.{
  Declared, add_name, add_names, is_sparse_field, labels_of, pool_labels, add_requested, add_dense,
  add_pools, get_variable_names, count_name, by_name, by_dense, by_pool,
}

-- A list of names without repetition, with just the names that a test picks.
pub record IsListing (names : List (List ℕ)) (test : List ℕ → Bool) : Type 0 where
  pub once : (x : List ℕ) → count_name x names ≤ 1
  pub exactly : (x : List ℕ) → member x names ≡ test x

member-append :
    (x : List ℕ) (xs ys : List (List ℕ)) → member x (xs ++ ys) ≡ member x xs || member x ys
member-append x [] ys = refl
member-append x (z ∷ xs) ys = ground (arith, member-append x xs ys)

count_name-append :
    (x : List ℕ) (xs ys : List (List ℕ))
    → count_name x (xs ++ ys) ≡ count_name x xs + count_name x ys
count_name-append x [] ys = ground arith
count_name-append x (z ∷ xs) ys = ground (arith, count_name-append x xs ys)

count_name-member : (x : List ℕ) (xs : List (List ℕ)) → member x xs ≡ false → count_name x xs ≡ 0
count_name-member x [] h = refl
count_name-member x (y ∷ ys) h = ground (arith, count_name-member x ys)

add_name-IsListing :
    (x : List ℕ) (names : List (List ℕ)) (test : List ℕ → Bool)
    → IsListing names test
    → IsListing (add_name x names) (λ y. test y || eqb y x)
unfolding add_name
add_name-IsListing x names test h = elim (Bool-cases (member x names)) [
  | inl held ↦ rw held (record {
    once = h.once;
    exactly = λ y. elim (Bool-cases (eqb y x)) [
      | inl e ↦ let same : y ≡ x = eqb-eq y x e in rw same (ground (arith, h.exactly x, eqb_refl x))
      | inr e ↦ ground (arith, h.exactly y)
    ];
  })
  | inr new ↦ rw new (record {
    once = λ y. elim (Bool-cases (eqb y x)) [
      | inl e ↦
          let same : y ≡ x = eqb-eq y x e in
          rw same (
            ground
              (arith, count_name-append x names (x ∷ []), count_name-member x names, eqb_refl x))
      | inr e ↦ ground (arith, count_name-append y names (x ∷ []), h.once y)
    ];
    exactly = λ y. ground (arith, member-append y names (x ∷ []), h.exactly y);
  })
]

retest :
    (names : List (List ℕ)) (test test2 : List ℕ → Bool)
    → ((x : List ℕ) → test x ≡ test2 x)
    → IsListing names test
    → IsListing names test2
retest names test test2 e h = record { once = h.once; exactly = λ x. h.exactly x ∙ e x }

add_names-IsListing :
    (xs names : List (List ℕ)) (test : List ℕ → Bool)
    → IsListing names test
    → IsListing (add_names xs names) (λ y. test y || member y xs)
unfolding add_names
add_names-IsListing [] names test h = retest names test _ (λ x. ground arith) h
add_names-IsListing (x ∷ xs) names test h =
    retest (add_names xs (add_name x names)) _ _ (λ y. ground arith)
      (add_names-IsListing xs (add_name x names) _ (add_name-IsListing x names test h))

-- A requested name of which the code refuses to list the sparse ids.
unfoldable pub any_sparse : Declared → List (List ℕ) → Bool
any_sparse d [] = false
any_sparse d (x ∷ xs) = (has_field x d.fields && is_sparse_field x d.fields) || any_sparse d xs

module _ (to_string : ℤ → List ℕ) (d : Declared) (ids : List ℤ) where
  add_requested-IsListing :
      (xs names : List (List ℕ)) (test : List ℕ → Bool)
      → IsListing names test
      → any_sparse d xs ≡ false
      → (out : List (List ℕ)) × (add_requested to_string d ids xs names ≡ ok out)
        × IsListing out (λ y. test y || by_name to_string d ids y xs)
  unfolding add_requested any_sparse by_name
  add_requested-IsListing [] names test h k =
      (names, refl, retest names test _ (λ y. ground arith) h)
  add_requested-IsListing (x ∷ xs) names test h k =
      let fine : (has_field x d.fields && is_sparse_field x d.fields) ≡ false = ground arith in
      elim (Bool-cases (has_field x d.fields)) [
        | inl field ↦
            let (out, done, listing) =
              add_requested-IsListing xs (add_name x names) (λ y. test y || eqb y x)
                (add_name-IsListing x names test h) (ground arith) in
            (out, rw (fine, field) done, retest out _ _ (λ y. rw field (ground arith)) listing)
        | inr pooled ↦
            let labels = pool_labels to_string x ids d.pools in
            let (out, done, listing) =
              add_requested-IsListing xs (add_names labels names) (λ y. test y || member y labels)
                (add_names-IsListing labels names test h) (ground arith) in
            (out, rw (fine, pooled) done, retest out _ _ (λ y. rw pooled (ground arith)) listing)
      ]

  add_dense-IsListing :
      (c : FlagCollection) (fs : List Field) (names : List (List ℕ)) (test : List ℕ → Bool)
      → IsListing names test
      → IsListing (add_dense c fs names) (λ y. test y || by_dense c y fs)
  unfolding add_dense by_dense
  add_dense-IsListing c [] names test h = retest names test _ (λ y. ground arith) h
  add_dense-IsListing c (f ∷ fs) names test h =
      elim (Bool-cases (match_flags c f.metadata.bits && not (is_set f.metadata.bits sparse))) [
        | inl e ↦ rw e (
            retest (add_dense c fs (add_name f.name names)) _ _ (λ y. ground arith)
              (add_dense-IsListing c fs (add_name f.name names) _
                (add_name-IsListing f.name names test h)))
        | inr e ↦ rw e (
            retest (add_dense c fs names) _ _ (λ y. ground arith)
              (add_dense-IsListing c fs names test h))
      ]

  add_pools-IsListing :
      (c : FlagCollection) (ps : List SparsePool) (names : List (List ℕ)) (test : List ℕ → Bool)
      → IsListing names test
      → IsListing (add_pools to_string c ids ps names) (λ y. test y || by_pool to_string ids c y ps)
  unfolding add_pools by_pool
  add_pools-IsListing c [] names test h = retest names test _ (λ y. ground arith) h
  add_pools-IsListing c (p ∷ ps) names test h =
      let labels = labels_of to_string p.base_name ids p.pool in
      elim (Bool-cases (match_flags c p.shared_metadata.bits)) [
        | inl e ↦ rw e (
            retest (add_pools to_string c ids ps (add_names labels names)) _ _ (λ y. ground arith)
              (add_pools-IsListing c ps (add_names labels names) _
                (add_names-IsListing labels names test h)))
        | inr e ↦ rw e (
            retest (add_pools to_string c ids ps names) _ _ (λ y. ground arith)
              (add_pools-IsListing c ps names test h))
      ]

-- Where no requested name is that of a sparse field, GetVariableNames succeeds. The list has no
-- name twice, and just the requested names of fields, the labels of the pools requested by their
-- base name and, where the collection of flags is not empty, the names of the dense fields and the
-- labels of the pools whose metadata MatchFlags accepts; of a pool those of the sparse ids asked
-- for, all if none is.
pub get_variable_names-IsListing :
    (to_string : ℤ → List ℕ) (d : Declared) (ids : List ℤ) (requested : List (List ℕ))
    (c : FlagCollection)
    → any_sparse d requested ≡ false
    → (out : List (List ℕ)) × (get_variable_names to_string requested c ids d ≡ ok out)
      × IsListing out (λ x.
        by_name to_string d ids x requested
        || (not (empty c) && (by_dense c x d.fields || by_pool to_string ids c x d.pools)))
unfolding get_variable_names
get_variable_names-IsListing to_string d ids requested c h =
    let none_yet : IsListing [] (λ x. false) = record {
      once = λ x. omega arith;
      exactly = λ x. refl;
    } in
    let (names, done, listing) =
      add_requested-IsListing to_string d ids requested [] (λ x. false) none_yet h in
    elim (Bool-cases (empty c)) [
      | inl e ↦ (names, rw (done, e) refl, retest names _ _ (λ x. rw e (ground arith)) listing)
      | inr e ↦
          let dense = add_dense c d.fields names in
          (
            add_pools to_string c ids d.pools dense,
            rw (done, e) refl,
            retest (add_pools to_string c ids d.pools dense) _ _ (λ x. rw e (ground arith))
                (add_pools-IsListing to_string d ids c d.pools dense _
                  (add_dense-IsListing to_string d ids c d.fields names _ listing)),
          )
    ]

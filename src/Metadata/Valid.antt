-- ===== src/Metadata/Valid.antt =====
-- What IsValid of src/interface/metadata.cpp accepts.
use parthenon.Base.Int.{ℤ, pos, eqb_ℤ, eqb_ℤ-eq}
use parthenon.Base.{
  ℕ, ◌≤◌, leb, ◌==◌, ◌&&◌, not, Bool, true, false, List, [], ◌∷◌, length, Result, ok, err, ◌>>=◌,
  ◌≡◌, refl, ap, arith, Bool-cases, inl, inr, ◌↔◌, if-elim,
}
use parthenon.Metadata.Flag.{node, coordinates_vec}
use parthenon.Metadata.Bits.{is_set, count_set}
use parthenon.Metadata.Construct.{
  Metadata, Error, out_of_bounds, coordinates_centering, independent_count, no_refinement_ops,
  coordinates_rank, coordinates_extent, topologies, roles, shapes, types, dependences, location,
  has_refinement_ops, check, ◌both◌, first_extent, is_empty, valid_coordinates, is_valid,
}

pub record IsValid (m : Metadata) : Type 0 where
  pub one_topology : count_set m.bits topologies ≡ 1
  pub one_role : count_set m.bits roles ≡ 1
  pub one_shape : count_set m.bits shapes ≤ 1
  pub one_type : count_set m.bits types ≡ 1
  pub one_dependence : count_set m.bits dependences ≡ 1
  pub coordinates :
      is_set m.bits coordinates_vec ≡ true → (location m.bits ≡ ok node) × (m.shape ≡ pos 3 ∷ [])
  pub refinement : has_refinement_ops m.bits ≡ true → is_empty m.refinement_funcs ≡ false

check-true : (t b : Bool) (e : Error) → check t b e ≡ ok true → b ≡ true
check-true t b e h = ground arith

both-true : (r s : Result Error Bool) → (r both s) ≡ ok true → (r ≡ ok true) × (s ≡ ok true)
both-true (err e) s h = absurd cc
both-true (ok a) (err e) h = absurd cc
both-true (ok a) (ok b) h = ground arith

-- Where nothing is thrown, all tests hold.
OnlyTrue : Result Error Bool → Type 0
OnlyTrue r = (v : Bool) → r ≡ ok v → v ≡ true

check_only : (b : Bool) (e : Error) → OnlyTrue (check true b e)
unfolding OnlyTrue
check_only b e v h = ground arith

both_only : (r s : Result Error Bool) → OnlyTrue r → OnlyTrue s → OnlyTrue (r both s)
unfolding OnlyTrue
both_only (err e) s h k v g = absurd cc
both_only (ok a) (err e) h k v g = absurd cc
both_only (ok a) (ok b) h k v g = ground (arith, h a refl, k b refl)

centred_at :
    (t : Bool) (r : Result Error ℕ) (e : Error)
    → (r >>= λ at. check t (at == node) e) ≡ ok true
    → r ≡ ok node
centred_at t (err f) e h = absurd cc
centred_at t (ok at) e h = let same : at ≡ node = ground arith in ap ok same

three_long :
    (t : Bool) (ns : List ℤ) (e : Error)
    → (length ns == 1) ≡ true
    → (first_extent ns >>= λ n. check t (eqb_ℤ n (pos 3)) e) ≡ ok true
    → ns ≡ pos 3 ∷ []
three_long t [] e k h = absurd cc
three_long t (n ∷ []) e k h =
    let same : n ≡ pos 3 = eqb_ℤ-eq n (pos 3) (ground arith) in rw same refl
three_long t (n ∷ o ∷ ns) e k h = absurd (ground arith)

valid_coordinates_sound :
    (t : Bool) (m : Metadata)
    → valid_coordinates t m ≡ ok true
    → is_set m.bits coordinates_vec ≡ true
    → (location m.bits ≡ ok node) × (m.shape ≡ pos 3 ∷ [])
unfolding valid_coordinates
valid_coordinates_sound t m h c =
    let (a, rest) = both-true _ _ (rw c at h) in
    let (b, d) = both-true _ _ rest in
    (centred_at t _ _ a, three_long t m.shape _ (check-true t _ _ b) d)

valid_coordinates_complete :
    (t : Bool) (m : Metadata)
    → (is_set m.bits coordinates_vec ≡ true → (location m.bits ≡ ok node) × (m.shape ≡ pos 3 ∷ []))
    → valid_coordinates t m ≡ ok true
unfolding valid_coordinates
valid_coordinates_complete t m h = elim (Bool-cases (is_set m.bits coordinates_vec)) [
  | inl e ↦ rw (e, (h e).0, (h e).1) refl
  | inr e ↦ rw e refl
]

unrefined : (b c : Bool) → not (b && c) ≡ true → b ≡ true → c ≡ false
unrefined b c h k = ground arith

-- IsValid accepts, whether it is to throw or not, just the objects with exactly one flag of each of
-- the groups topology, role, data type and dependence, at most one of Vector and Tensor, refinement
-- functions where flags call for them, and, for coordinates, a variable at the nodes of shape {3}.
pub is_valid-IsValid : (t : Bool) (m : Metadata) → (is_valid t m ≡ ok true) ↔ IsValid m
unfolding is_valid
is_valid-IsValid t m = (
  λ h.
      let (a, h1) = both-true _ _ h in
      let (b, h2) = both-true _ _ h1 in
      let (c, h3) = both-true _ _ h2 in
      let (d, h4) = both-true _ _ h3 in
      let (e, h5) = both-true _ _ h4 in
      let (f, g) = both-true _ _ h5 in
      record {
        one_topology = ground (arith, check-true t _ _ a);
        one_role = ground (arith, check-true t _ _ b);
        one_shape = ground (arith, check-true t _ _ c);
        one_type = ground (arith, check-true t _ _ e);
        one_dependence = ground (arith, check-true t _ _ f);
        coordinates = valid_coordinates_sound t m d;
        refinement = unrefined _ _ (check-true t _ _ g);
      },
  λ h.
      let shaped : leb (count_set m.bits shapes) 1 ≡ true = ground (arith, h.one_shape) in
      let refined : not (has_refinement_ops m.bits && is_empty m.refinement_funcs) ≡ true =
        ground (arith, h.refinement) in
      rw
        (
          h.one_topology,
          h.one_role,
          shaped,
          valid_coordinates_complete t m h.coordinates,
          h.one_type,
          h.one_dependence,
          refined,
        )
        refl,
)

bound_only :
    {A : Type 0} (r : Result Error A) (p : A → Bool) (e : Error)
    → OnlyTrue (r >>= λ n. check true (p n) e)
unfolding OnlyTrue
bound_only (err f) p e v h = absurd cc
bound_only (ok n) p e v h = check_only (p n) e v h

coordinates_only : (m : Metadata) → OnlyTrue (valid_coordinates true m)
unfolding valid_coordinates
coordinates_only m =
    let centred = bound_only (location m.bits) (λ at. at == node) coordinates_centering in
    let extent = bound_only (first_extent m.shape) (λ n. eqb_ℤ n (pos 3)) coordinates_extent in
    let ranked = check_only (length m.shape == 1) coordinates_rank in
    if-elim OnlyTrue (is_set m.bits coordinates_vec) _ _
      (both_only _ _ centred (both_only _ _ ranked extent)) (check_only true out_of_bounds)

-- IsValid that throws never gives false.
pub is_valid_throws : (m : Metadata) (v : Bool) → is_valid true m ≡ ok v → v ≡ true
unfolding is_valid OnlyTrue
is_valid_throws m = both_only _ _ (check_only _ _) (
    both_only _ _ (check_only _ _) (
      both_only _ _ (check_only _ _) (
        both_only _ _ (coordinates_only m) (
          both_only _ _ (check_only _ _) (
            both_only _ _ (check_only (count_set m.bits dependences == 1) independent_count) (
              check_only (not (has_refinement_ops m.bits && is_empty m.refinement_funcs))
                no_refinement_ops))))))

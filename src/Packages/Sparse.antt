-- ===== src/Packages/Sparse.antt =====
-- SparsePool of src/interface/sparse_pool.hpp and .cpp, without the thresholds. Its map from sparse ids is a list in
-- the order of the ids.
use parthenon.Base.{
  ℕ, ◌^◌, ◌-◌, ◌<◌, ◌==◌, ◌&&◌, ◌||◌, not, if◌then◌else◌, Bool, true, false, Option, none, some,
  List, [], ◌∷◌, Result, ok, err, guard, ◌>>=◌, ◌>>◌, >>=-eq-ok, ◌≡◌, refl, ap, sym, ◌∙◌, arith,
  Bool-cases, Option-cases, inl, inr, contains,
}
use parthenon.Base.Int.{ℤ, negsuc, eqb_ℤ, ltb_ℤ}
use parthenon.Metadata.{
  Metadata, MetadataFlag, is_set, do_bit, flags, set_flag, construct, is_valid, is_empty, sparse,
  vector, tensor, none_flag, IsValid, is_valid-IsValid, is_valid_throws, is_set-do_bit,
  construct-IsValid, is_default, listed, no_default,
}

pub data SparseError : Type 0 where
  invalid_id : SparseError
  bad_metadata : SparseError
  bad_flag : SparseError
  id_taken : SparseError
  not_sparse : SparseError

pub record Member : Type 0 where
  pub sparse_id : ℤ
  pub metadata : Metadata

pub record SparsePool : Type 0 where
  pub base_name : List ℕ
  pub controller_base_name : List ℕ
  pub shared_metadata : Metadata
  pub pool : List Member

-- The least `int`.
abbrev pub invalid_sparse_id : ℤ
invalid_sparse_id = negsuc (2 ^ 31 - 1)

unfoldable pub make_pool : List ℕ → Metadata → List ℕ → Result SparseError SparsePool
make_pool base_name m controller =
    guard (is_set m.bits sparse) not_sparse
    >> ok (record {
      base_name = base_name;
      controller_base_name = controller;
      shared_metadata = m;
      pool = [];
    })

unfoldable pub find_member : ℤ → List Member → Option Metadata
find_member i [] = none
find_member i (m ∷ ms) =
    let rest = find_member i ms in if eqb_ℤ i m.sparse_id then some m.metadata else rest

-- std::map::insert of an id that is not there.
unfoldable pub insert_member : ℤ → Metadata → List Member → List Member
insert_member i m [] = record { sparse_id = i; metadata = m } ∷ []
insert_member i m (n ∷ ns) =
    let rest = insert_member i m ns in
    if ltb_ℤ i n.sparse_id then record { sparse_id = i; metadata = m } ∷ n ∷ ns else n ∷ rest

abbrev pub insert_new : ℤ → Metadata → SparsePool → Result SparseError SparsePool
insert_new i m p = elim (find_member i p.pool) [
  | some taken ↦ err id_taken
  | none ↦ ok (record p { pool = insert_member i m p.pool })
]

-- Add with metadata.
unfoldable pub add_member : ℤ → Metadata → SparsePool → Result SparseError SparsePool
add_member i m p = guard (not (eqb_ℤ i invalid_sparse_id)) invalid_id >> insert_new i m p

unfoldable pub apply_flag : Option MetadataFlag → Metadata → Result SparseError Metadata
apply_flag none m = ok m
apply_flag (some f) m =
    if f == vector
    then ok (set_flag vector true (set_flag tensor false m))
    else if f == tensor
    then ok (set_flag tensor true (set_flag vector false m))
    else if f == none_flag
    then ok (set_flag tensor false (set_flag vector false m))
    else err bad_flag

abbrev pub as_sparse {ℓ κ} : {E : Type ℓ} {A : Type κ} → Result E A → Result SparseError A
as_sparse (ok x) = ok x
as_sparse (err f) = err bad_metadata

-- AddImpl; `count` is how many flags there are, and an optional flag stands for the pointer.
unfoldable pub add_impl :
    ℕ
    → ℤ
    → List ℤ
    → Option MetadataFlag
    → List (List ℕ)
    → SparsePool
    → Result SparseError SparsePool
add_impl count i shape vector_tensor labels p =
    let shared = p.shared_metadata in
    guard (not (eqb_ℤ i invalid_sparse_id)) invalid_id
    >> (as_sparse (
          construct (flags count shared.bits) (if is_empty shape then shared.shape else shape)
            (if is_empty labels then shared.component_labels else labels) shared.associated
            shared.refinement_funcs)
        >>= λ made. apply_flag vector_tensor made >>= λ flagged.
            as_sparse (is_valid true flagged) >>= λ valid. insert_new i flagged p)

-- The flags of a member, from those of the pool.
abbrev pub expected : Option MetadataFlag → MetadataFlag → Bool → Bool
expected none f old = old
expected (some v) f old =
    if f == vector then v == vector else if f == tensor then v == tensor else old

bits_or : Metadata → Result SparseError Metadata → List Bool
bits_or m (ok n) = n.bits
bits_or m (err f) = m.bits

refused_flag :
    {P : Type 0} (n : Metadata) (r : Result SparseError Metadata) → r ≡ err bad_flag → r ≡ ok n → P
refused_flag n r h k = absurd cc

apply_flag-expected :
    (vt : Option MetadataFlag) (m n : Metadata)
    → apply_flag vt m ≡ ok n
    → (f : MetadataFlag) → is_set n.bits f ≡ expected vt f (is_set m.bits f)
unfolding apply_flag set_flag bits_or
apply_flag-expected none m n h f = let same : m ≡ n = cc in rw same refl
apply_flag-expected (some v) m n h f = elim (Bool-cases (v == vector)) [
  | inl is_vector ↦
      let same : ok (set_flag vector true (set_flag tensor false m)) ≡ ok n = rw is_vector at h in
      rw (sym (ap (bits_or m) same)) (
        ground (
          arith,
          is_set-do_bit vector f true (do_bit tensor false m.bits),
          is_set-do_bit tensor f false m.bits,
        ))
  | inr not_vector ↦ elim (Bool-cases (v == tensor)) [
    | inl is_tensor ↦
        let same : ok (set_flag tensor true (set_flag vector false m)) ≡ ok n =
          rw (not_vector, is_tensor) at h in
        rw (sym (ap (bits_or m) same)) (
          ground (
            arith,
            is_set-do_bit tensor f true (do_bit vector false m.bits),
            is_set-do_bit vector f false m.bits,
          ))
    | inr not_tensor ↦ elim (Bool-cases (v == none_flag)) [
      | inl is_none ↦
          let same : ok (set_flag tensor false (set_flag vector false m)) ≡ ok n =
            rw (not_vector, not_tensor, is_none) at h in
          rw (sym (ap (bits_or m) same)) (
            ground (
              arith,
              is_set-do_bit tensor f false (do_bit vector false m.bits),
              is_set-do_bit vector f false m.bits,
            ))
      | inr not_none ↦
          refused_flag n (apply_flag (some v) m) (rw (not_vector, not_tensor, not_none) refl) h
    ]
  ]
]

swap_tests :
    (a b : Bool) (x y : Metadata) (r : Option Metadata)
    → (a && b) ≡ false
    → (if a then some x else if b then some y else r)
      ≡ (if b then some y else if a then some x else r)
swap_tests true true x y r h = absurd cc
swap_tests true false x y r h = refl
swap_tests false true x y r h = refl
swap_tests false false x y r h = refl

refused_id :
    {P : Type 0} (q : SparsePool) (r : Result SparseError SparsePool)
    → r ≡ err id_taken
    → r ≡ ok q
    → P
refused_id q r h k = absurd cc

as_sparse-ok : {A : Type 0} {E : Type 0} (r : Result E A) (x : A) → as_sparse r ≡ ok x → r ≡ ok x
as_sparse-ok (ok y) x h = let same : y ≡ x = cc in ap ok same
as_sparse-ok (err f) x h = absurd cc

known_flags :
    (count : ℕ) (m : Metadata)
    → IsValid m
    → ((f : MetadataFlag) → is_set m.bits f ≡ true → f < count)
    → (f : MetadataFlag)
    → contains f (flags count m.bits) || is_default f (flags count m.bits) ≡ is_set m.bits f
known_flags count m valid bounded f =
    ground (arith, listed count m.bits bounded f, no_default count m bounded valid f)

find_member-insert :
    (i j : ℤ) (m : Metadata) (ms : List Member)
    → find_member i ms ≡ none
    → find_member j (insert_member i m ms) ≡ (if eqb_ℤ j i then some m else find_member j ms)
unfolding find_member insert_member
find_member-insert i j m [] h = refl
find_member-insert i j m (n ∷ ns) h = elim (Bool-cases (eqb_ℤ i n.sparse_id)) [
  | inl held ↦ let found : some n.metadata ≡ none = rw held at h in absurd cc
  | inr other ↦
      let absent : find_member i ns ≡ none = rw other at h in
      elim (Bool-cases (ltb_ℤ i n.sparse_id)) [
        | inl before ↦ rw before refl
        | inr behind ↦
            rw (behind, find_member-insert i j m ns absent)
              (swap_tests (eqb_ℤ j n.sparse_id) (eqb_ℤ j i) n.metadata m (find_member j ns)
                (ground arith))
      ]
]

insert_new-ok :
    (i : ℤ) (m : Metadata) (p q : SparsePool)
    → insert_new i m p ≡ ok q
    → (find_member i p.pool ≡ none) × (q ≡ record p { pool = insert_member i m p.pool })
insert_new-ok i m p q h = elim (Option-cases (find_member i p.pool)) [
  | inl absent ↦
      let same : ok (record p { pool = insert_member i m p.pool }) ≡ ok q =
        rw (insert_new, absent) at h in
      (absent, cc)
  | inr (taken, held) ↦ refused_id q (insert_new i m p) (rw (insert_new, held) refl) h
]

-- On a pool whose shared metadata are valid and have known flags only, AddImpl that succeeds, with
-- a shape, component labels and a flag, each optional, adds valid metadata under an id that was not
-- in the pool, and what the pool has under every other id stays. The new metadata have the flags of
-- the shared ones, but for Vector and Tensor where a flag is given: these are then set just as it
-- says.
pub add_impl-find_member :
    (count : ℕ) (i : ℤ) (shape : List ℤ) (vt : Option MetadataFlag) (labels : List (List ℕ))
    (p q : SparsePool)
    → IsValid p.shared_metadata
    → ((f : MetadataFlag) → is_set p.shared_metadata.bits f ≡ true → f < count)
    → add_impl count i shape vt labels p ≡ ok q
    → (m : Metadata) × IsValid m
      × (find_member i p.pool ≡ none)
      × ((j : ℤ) → find_member j q.pool ≡ (if eqb_ℤ j i then some m else find_member j p.pool))
      × ((f : MetadataFlag) → is_set m.bits f ≡ expected vt f (is_set p.shared_metadata.bits f))
unfolding add_impl
add_impl-find_member count i shape vt labels p q valid bounded h =
    let shared = p.shared_metadata in
    let own_shape = if is_empty shape then shared.shape else shape in
    let own_labels = if is_empty labels then shared.component_labels else labels in
    let constructed =
      construct (flags count shared.bits) own_shape own_labels shared.associated
        shared.refinement_funcs in
    let (checked_id, allowed, r1) =
      >>=-eq-ok (guard (not (eqb_ℤ i invalid_sparse_id)) invalid_id) _ h in
    let (made, m_made, r2) = >>=-eq-ok (as_sparse constructed) _ r1 in
    let (m, m_flagged, r3) = >>=-eq-ok (apply_flag vt made) _ r2 in
    let (is_ok, m_valid, r4) = >>=-eq-ok (as_sparse (is_valid true m)) _ r3 in
    let (absent, same) = insert_new-ok i m p q r4 in
    let built : constructed ≡ ok made = as_sparse-ok constructed made m_made in
    let (v, s, set) =
      construct-IsValid (flags count shared.bits) own_shape own_labels shared.associated
        shared.refinement_funcs made built in
    let accepted = as_sparse-ok (is_valid true m) is_ok m_valid in
    (
      m,
      (is_valid-IsValid true m).0 (accepted ∙ ap ok (is_valid_throws m is_ok accepted)),
      absent,
      λ j. rw same (find_member-insert i j m p.pool absent),
      λ f.
          apply_flag-expected vt made m m_flagged f
          ∙ ap (expected vt f) (set f ∙ known_flags count shared valid bounded f),
    )

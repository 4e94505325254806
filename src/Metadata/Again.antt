-- ===== src/Metadata/Again.antt =====
-- A Metadata object made again from what another says of itself, src/interface/metadata.hpp and .cpp.
use parthenon.Base.Int.{ℤ, eqb_ℤ-refl}
use parthenon.Base.{
  ℕ, ◌≤◌, ◌<◌, Bool, true, false, List, [], ◌∷◌, length, ok, ◌≡◌, refl, ap, sym, ◌∙◌, arith,
  contains,
}
use parthenon.Metadata.Flag.{
  MetadataFlag, cell, face, edge, node, independent, fill_ghost, with_fluxes, force_remesh_comm,
  gmg_prolongate, gmg_restrict, flux, coordinates_vec,
}
use parthenon.Metadata.Bits.{is_set, count_set, flags, has_same_flags}
use parthenon.Metadata.Same.{contains-flags, has_same_flags-is_set}
use parthenon.Metadata.Construct.{
  Metadata, topologies, roles, types, shapes, dependences, has_refinement_ops, labels_fit, filled,
  construct, same_extents, equals,
}
use parthenon.Metadata.Valid.{IsValid}
use parthenon.Metadata.Defaults.{asked}
use parthenon.Metadata.Built.{is_default, construct-IsValid, checked-ok}
use parthenon.Metadata.Admits.{IsAdmissible, asks_entity, location-node, construct-IsAdmissible}

same_extents_refl : (ns : List ℤ) → same_extents ns ns ≡ true
unfolding same_extents
same_extents_refl [] = refl
same_extents_refl (n ∷ ns) = ground (arith, same_extents_refl ns, eqb_ℤ-refl n)

same_extents_eq : (ms ns : List ℤ) → ns ≡ ms → same_extents ms ns ≡ true
same_extents_eq ms ns h = rw h (same_extents_refl ms)

module _ (n : ℕ) (bits : List Bool)
    (bounded : (f : MetadataFlag) → is_set bits f ≡ true → f < n) where
  -- Flags lists just the flags that are set.
  pub listed : (f : MetadataFlag) → contains f (flags n bits) ≡ is_set bits f
  listed f = ground (arith, contains-flags n f bits, bounded f)

  asked-listed : (group : List MetadataFlag) → asked group (flags n bits) ≡ count_set bits group
  unfolding asked count_set
  asked-listed [] = refl
  asked-listed (g ∷ group) = rw (listed g, asked-listed group) refl

module _ (n : ℕ) (m : Metadata) (bounded : (f : MetadataFlag) → is_set m.bits f ≡ true → f < n)
    (valid : IsValid m) where
  pub no_default : (f : MetadataFlag) → is_default f (flags n m.bits) ≡ false
  no_default f =
      let count = asked-listed n m.bits bounded in
      ground (
        arith,
        count topologies,
        count roles,
        count types,
        count dependences,
        valid.one_topology,
        valid.one_role,
        valid.one_type,
        valid.one_dependence,
      )

  listed-IsAdmissible :
      (asks_entity (flags n m.bits) ≡ true → length m.shape ≤ 3)
      → (asks_entity (flags n m.bits) ≡ true → labels_fit m.component_labels m.shape ≡ true)
      → IsAdmissible (flags n m.bits) m.shape m.component_labels m.refinement_funcs
  unfolding has_refinement_ops
  listed-IsAdmissible rank labels =
      let count = asked-listed n m.bits bounded in
      let at = listed n m.bits bounded in
      record {
        topology = omega (arith, count topologies, valid.one_topology);
        role = omega (arith, count roles, valid.one_role);
        shape_flag = omega (arith, count shapes, valid.one_shape);
        type_flag = omega (arith, count types, valid.one_type);
        dependence = omega (arith, count dependences, valid.one_dependence);
        coordinates = λ c.
            let (centred, extent) = valid.coordinates (sym (at coordinates_vec) ∙ c) in
            (at node ∙ location-node _ centred, extent);
        refinement = λ c. valid.refinement (
            rw
              (
                sym (at independent),
                sym (at fill_ghost),
                sym (at force_remesh_comm),
                sym (at gmg_prolongate),
                sym (at gmg_restrict),
                sym (at flux),
                sym (at with_fluxes),
              )
              c);
        rank = rank;
        component_labels = labels;
      }

-- An object that the constructor of Metadata returned, made again from its Flags, its shape, its
-- component labels, its associated name and its refinement functions: the constructor succeeds
-- again and gives an object that operator== finds equal. The flags that are set are below the
-- number of flags that Flags runs through.
pub construct-flags :
    (fs : List MetadataFlag) (shape : List ℤ) (labels : List (List ℕ)) (associated refs : List ℕ)
    (m : Metadata) (n : ℕ)
    → construct fs shape labels associated refs ≡ ok m
    → ((f : MetadataFlag) → is_set m.bits f ≡ true → f < n)
    → (again : Metadata) × (construct
          (flags n m.bits)
          m.shape
          m.component_labels
          m.associated
          m.refinement_funcs
        ≡ ok again)
      × (equals m again ≡ true)
unfolding construct filled equals
construct-flags fs shape labels associated refs m n h bounded =
    let (valid, same_shape, set) = construct-IsValid fs shape labels associated refs m h in
    let given = (construct-IsAdmissible fs shape labels associated refs).0 (m, h) in
    let same_labels : m.component_labels ≡ labels =
      ap (λ a. a.component_labels) (sym (checked-ok _ m h).0) in
    let at = λ (f : MetadataFlag). listed n m.bits bounded f ∙ set f in
    let entity : asks_entity (flags n m.bits) ≡ asks_entity fs =
      rw (at cell, at face, at edge, at node) (ground arith) in
    let admissible =
      listed-IsAdmissible n m bounded valid (λ c. rw same_shape (given.rank (sym entity ∙ c)))
        (λ c. rw (same_shape, same_labels) (given.component_labels (sym entity ∙ c))) in
    let (again, built) =
      (construct-IsAdmissible (flags n m.bits) m.shape m.component_labels m.associated
          m.refinement_funcs).1
        admissible in
    let (valid2, same_shape2, set2) =
      construct-IsValid (flags n m.bits) m.shape m.component_labels m.associated m.refinement_funcs
        again built in
    let flags_same : has_same_flags m.bits again.bits ≡ true =
      (has_same_flags-is_set m.bits again.bits).1
        (λ f. ground (arith, set2 f, listed n m.bits bounded f, no_default n m bounded valid f)) in
    let extents = same_extents_eq m.shape again.shape same_shape2 in
    (again, built, rw (flags_same, extents) refl)

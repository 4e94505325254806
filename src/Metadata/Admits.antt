-- ===== src/Metadata/Admits.antt =====
-- For which arguments the constructor of src/interface/metadata.cpp succeeds.
use parthenon.Base.Int.{ℤ, pos}
use parthenon.Base.{
  ℕ, ◌≤◌, max, ◌||◌, if◌then◌else◌, Bool, true, false, List, [], ◌∷◌, length, Result, ok, ◌≡◌, refl,
  ap, sym, ◌∙◌, arith, contains, ◌↔◌,
}
use parthenon.Metadata.Flag.{
  MetadataFlag, cell, face, edge, node, independent, fill_ghost, with_fluxes, force_remesh_comm,
  gmg_prolongate, gmg_restrict, flux, coordinates_vec,
}
use parthenon.Metadata.Bits.{is_set, count_set}
use parthenon.Metadata.Construct.{
  Metadata, Error, topologies, roles, shapes, types, dependences, location, is_mesh_tied,
  has_refinement_ops, is_empty, is_valid, labels_fit, good_shape, checked, filled, construct,
}
use parthenon.Metadata.Valid.{IsValid, is_valid-IsValid}
use parthenon.Metadata.Defaults.{asked, count_set-asked}
use parthenon.Metadata.Built.{with_defaults-Counted, filled_bits, is_set-filled, checked-ok}

abbrev pub asks_refinement : List MetadataFlag → Bool
asks_refinement fs =
    contains independent fs
    || contains fill_ghost fs
    || contains force_remesh_comm fs
    || contains gmg_prolongate fs
    || contains gmg_restrict fs
    || contains flux fs
    || contains with_fluxes fs

abbrev pub asks_entity : List MetadataFlag → Bool
asks_entity fs = contains cell fs || contains face fs || contains edge fs || contains node fs

-- What a caller has to see to, in terms of what it passes.
pub record IsAdmissible (fs : List MetadataFlag) (shape : List ℤ) (labels : List (List ℕ))
    (refs : List ℕ) : Type 0 where
  pub topology : asked topologies fs ≤ 1
  pub role : asked roles fs ≤ 1
  pub shape_flag : asked shapes fs ≤ 1
  pub type_flag : asked types fs ≤ 1
  pub dependence : asked dependences fs ≤ 1
  pub coordinates :
      contains coordinates_vec fs ≡ true → (contains node fs ≡ true) × (shape ≡ pos 3 ∷ [])
  pub refinement : asks_refinement fs ≡ true → is_empty refs ≡ false
  pub rank : asks_entity fs ≡ true → length shape ≤ 3
  pub component_labels : asks_entity fs ≡ true → labels_fit labels shape ≡ true

tied_location :
    (bits : List Bool)
    → count_set bits topologies ≡ 1
    → is_mesh_tied bits
      ≡ ok (is_set bits cell || is_set bits face || is_set bits edge || is_set bits node)
unfolding is_mesh_tied location count_set
tied_location bits h = ground arith

pub location-node : (bits : List Bool) → location bits ≡ ok node → is_set bits node ≡ true
unfolding location
location-node bits h = ground arith

location-node_back :
    (bits : List Bool)
    → count_set bits topologies ≡ 1
    → is_set bits node ≡ true
    → location bits ≡ ok node
unfolding location count_set
location-node_back bits h k = ground arith

module _ (fs : List MetadataFlag) where
  has_refinement_ops-filled : has_refinement_ops (filled_bits fs) ≡ asks_refinement fs
  unfolding has_refinement_ops
  has_refinement_ops-filled =
      rw
        (
          is_set-filled fs independent,
          is_set-filled fs fill_ghost,
          is_set-filled fs force_remesh_comm,
          is_set-filled fs gmg_prolongate,
          is_set-filled fs gmg_restrict,
          is_set-filled fs flux,
          is_set-filled fs with_fluxes,
        )
        (ground arith)

  tied-filled :
      count_set (filled_bits fs) topologies ≡ 1
      → is_mesh_tied (filled_bits fs) ≡ ok (asks_entity fs)
  tied-filled h =
      tied_location (filled_bits fs) h
      ∙ ap ok (
          rw
            (
              is_set-filled fs cell,
              is_set-filled fs face,
              is_set-filled fs edge,
              is_set-filled fs node,
            )
            (ground arith))

  Counts : Type 0
  Counts =
      (count_set (filled_bits fs) topologies ≡ max 1 (asked topologies fs))
      × (count_set (filled_bits fs) roles ≡ max 1 (asked roles fs))
      × (count_set (filled_bits fs) types ≡ max 1 (asked types fs))
      × (count_set (filled_bits fs) dependences ≡ max 1 (asked dependences fs))
      × (count_set (filled_bits fs) shapes ≡ asked shapes fs)

  filled-Counts : Counts
  unfolding Counts filled_bits
  filled-Counts =
      let c = with_defaults-Counted _ in
      (
        c.topology ∙ ap (max 1) (count_set-asked fs topologies),
        c.role ∙ ap (max 1) (count_set-asked fs roles),
        c.type_flag ∙ ap (max 1) (count_set-asked fs types),
        c.dependence ∙ ap (max 1) (count_set-asked fs dependences),
        c.shape ∙ count_set-asked fs shapes,
      )

good_shape-ok :
    (m : Metadata)
    → good_shape m ≡ ok tt
    → (length m.shape ≤ 3) × (labels_fit m.component_labels m.shape ≡ true)
good_shape-ok m h = ground arith

good_shape_complete :
    (b : Bool) (m : Metadata)
    → (b ≡ true → length m.shape ≤ 3)
    → (b ≡ true → labels_fit m.component_labels m.shape ≡ true)
    → (if b then good_shape m else ok tt) ≡ ok tt
good_shape_complete b m h k = ground (arith, h, k)

checked_complete :
    (n : Metadata) (tied : Bool)
    → is_valid true n ≡ ok true
    → is_mesh_tied n.bits ≡ ok tied
    → (if tied then good_shape n else ok tt) ≡ ok tt
    → checked n ≡ ok n
unfolding checked
checked_complete n tied h k l = rw (h, k, l) refl

-- A test that is known to hold has been made.
shape_of_tied :
    {b tied : Bool} {r : Result Error Bool} {checks : Result Error (Unit {0})}
    → b ≡ true
    → r ≡ ok b
    → r ≡ ok tied
    → (if tied then checks else ok tt) ≡ ok tt
    → checks ≡ ok tt
shape_of_tied h k l g = ground arith

module _ (fs : List MetadataFlag) (shape : List ℤ) (labels : List (List ℕ))
    (associated refs : List ℕ) where
  succeeds_sound :
      (m : Metadata)
      → construct fs shape labels associated refs ≡ ok m
      → IsAdmissible fs shape labels refs
  unfolding construct filled filled_bits Counts
  succeeds_sound m h =
      let (same, valid, (tied, at, shaped)) =
        checked-ok (filled fs shape labels associated refs) m h in
      let (topology, role, type_flag, dependence, shapes_set) = filled-Counts fs in
      let entities = tied-filled fs valid.one_topology in
      let good = λ (c : asks_entity fs ≡ true).
        good_shape-ok (filled fs shape labels associated refs)
          (shape_of_tied c entities at shaped) in
      record {
        topology = omega (arith, valid.one_topology, topology);
        role = omega (arith, valid.one_role, role);
        shape_flag = omega (arith, valid.one_shape, shapes_set);
        type_flag = omega (arith, valid.one_type, type_flag);
        dependence = omega (arith, valid.one_dependence, dependence);
        coordinates = λ c.
            let (centred, extent) =
              valid.coordinates (is_set-filled fs coordinates_vec ∙ rw c refl) in
            let at_nodes = location-node _ centred in
            (ground (arith, is_set-filled fs node, at_nodes), extent);
        refinement = λ c.
            let refined = has_refinement_ops-filled fs ∙ c in
            sym (ap is_empty (rw refined refl)) ∙ valid.refinement refined;
        rank = λ c. (good c).0;
        component_labels = λ c. (good c).1;
      }

  succeeds_complete :
      IsAdmissible fs shape labels refs
      → construct fs shape labels associated refs ≡ ok (filled fs shape labels associated refs)
  unfolding construct checked filled filled_bits Counts
  succeeds_complete h =
      let (topology, role, type_flag, dependence, shapes_set) = filled-Counts fs in
      let located : count_set (filled_bits fs) topologies ≡ 1 =
        omega (arith, topology, h.topology) in
      let valid : IsValid (filled fs shape labels associated refs) = record {
        one_topology = located;
        one_role = omega (arith, role, h.role);
        one_shape = omega (arith, shapes_set, h.shape_flag);
        one_type = omega (arith, type_flag, h.type_flag);
        one_dependence = omega (arith, dependence, h.dependence);
        coordinates = λ c.
            let (at_nodes, extent) =
              h.coordinates (ground (arith, is_set-filled fs coordinates_vec, c)) in
            (
              location-node_back (filled_bits fs) located
                  (is_set-filled fs node ∙ rw at_nodes refl),
              extent,
            );
        refinement =
            λ c. ap is_empty (rw c refl) ∙ h.refinement (sym (has_refinement_ops-filled fs) ∙ c);
      } in
      checked_complete _ (asks_entity fs)
        ((is_valid-IsValid true (filled fs shape labels associated refs)).1 valid)
        (tied-filled fs located)
        (good_shape_complete (asks_entity fs) (filled fs shape labels associated refs) h.rank
          h.component_labels)

-- The constructor of Metadata succeeds just when the caller asks for at most one flag of each of
-- the groups topology (None, Node, Edge, Face and Cell), role, shape, data type and dependence,
-- asks for Node and gives the shape {3} with CoordinatesVec, gives refinement functions where a
-- flag asked for calls for them, and, where it asks for Cell, Face, Edge or Node, gives at most
-- three extents and either no component labels or as many as the product of the extents, which are
-- any integers, where each product wraps to an int.
pub construct-IsAdmissible :
    (fs : List MetadataFlag) (shape : List ℤ) (labels : List (List ℕ)) (associated refs : List ℕ)
    → ((m : Metadata) × (construct fs shape labels associated refs ≡ ok m))
      ↔ IsAdmissible fs shape labels refs
construct-IsAdmissible fs shape labels associated refs = (
  λ h. succeeds_sound fs shape labels associated refs h.0 h.1,
  λ h.
      (filled fs shape labels associated refs, succeeds_complete fs shape labels associated refs h),
)

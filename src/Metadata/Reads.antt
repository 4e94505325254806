-- ===== src/Metadata/Reads.antt =====
-- Where, Type, Role and Flags of src/interface/metadata.hpp and .cpp on an object that is valid.
use parthenon.Base.Int.{ℤ}
use parthenon.Base.{ℕ, ◌==◌, Bool, List, [], ◌∷◌, ok, ◌≡◌, arith, Bool-cases, inl, inr}
use parthenon.Metadata.Flag.{
  MetadataFlag, none_flag, cell, face, edge, node, boolean, integer, real, private_flag, provides,
  requires, overridable,
}
use parthenon.Metadata.Bits.{is_set, count_set}
use parthenon.Metadata.Construct.{
  Metadata, topologies, roles, types, location, data_type, role, construct,
}
use parthenon.Metadata.Built.{construct-IsValid}

-- A group of which one flag is set, and which it is.
abbrev pub Only : List Bool → List MetadataFlag → MetadataFlag → Type 0
Only bits [] f = Unit
Only bits (g ∷ group) f = (is_set bits g ≡ (g == f)) × Only bits group f

location-Only :
    (bits : List Bool)
    → count_set bits topologies ≡ 1
    → (f : MetadataFlag) × (location bits ≡ ok f) × Only bits topologies f
unfolding location count_set
location-Only bits h = elim (Bool-cases (is_set bits cell)) [
  | inl e ↦ (cell, ground arith, ground arith)
  | inr not_cell ↦ elim (Bool-cases (is_set bits face)) [
    | inl e ↦ (face, ground arith, ground arith)
    | inr not_face ↦ elim (Bool-cases (is_set bits edge)) [
      | inl e ↦ (edge, ground arith, ground arith)
      | inr not_edge ↦ elim (Bool-cases (is_set bits node)) [
        | inl e ↦ (node, ground arith, ground arith)
        | inr not_node ↦ (none_flag, ground arith, ground arith)
      ]
    ]
  ]
]

data_type-Only :
    (bits : List Bool)
    → count_set bits types ≡ 1
    → (f : MetadataFlag) × (data_type bits ≡ ok f) × Only bits types f
unfolding data_type count_set
data_type-Only bits h = elim (Bool-cases (is_set bits boolean)) [
  | inl e ↦ (boolean, ground arith, ground arith)
  | inr not_boolean ↦ elim (Bool-cases (is_set bits integer)) [
    | inl e ↦ (integer, ground arith, ground arith)
    | inr not_integer ↦ (real, ground arith, ground arith)
  ]
]

role-Only :
    (bits : List Bool)
    → count_set bits roles ≡ 1
    → (f : MetadataFlag) × (role bits ≡ ok f) × Only bits roles f
unfolding role count_set
role-Only bits h = elim (Bool-cases (is_set bits private_flag)) [
  | inl e ↦ (private_flag, ground arith, ground arith)
  | inr not_private_flag ↦ elim (Bool-cases (is_set bits provides)) [
    | inl e ↦ (provides, ground arith, ground arith)
    | inr not_provides ↦ elim (Bool-cases (is_set bits requires)) [
      | inl e ↦ (requires, ground arith, ground arith)
      | inr not_requires ↦ (overridable, ground arith, ground arith)
    ]
  ]
]

-- On what the constructor of Metadata returns, Where, Type and Role do not throw, and each gives a
-- flag of its group which is set while the others of the group are not, the group of Where being
-- None, Node, Edge, Face and Cell.
pub construct-Only :
    (fs : List MetadataFlag) (shape : List ℤ) (labels : List (List ℕ)) (associated refs : List ℕ)
    (m : Metadata)
    → construct fs shape labels associated refs ≡ ok m
    → ((f : MetadataFlag) × (location m.bits ≡ ok f) × Only m.bits topologies f)
      × ((f : MetadataFlag) × (data_type m.bits ≡ ok f) × Only m.bits types f)
      × ((f : MetadataFlag) × (role m.bits ≡ ok f) × Only m.bits roles f)
construct-Only fs shape labels associated refs m h =
    let (valid, same, set) = construct-IsValid fs shape labels associated refs m h in
    (
      location-Only m.bits valid.one_topology,
      data_type-Only m.bits valid.one_type,
      role-Only m.bits valid.one_role,
    )

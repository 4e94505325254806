-- ===== src/Metadata/Built.antt =====
-- What the constructor of src/interface/metadata.cpp builds, and when it throws.
use parthenon.Base.Int.{ℤ}
use parthenon.Base.{
  ℕ, max, ◌==◌, ◌&&◌, ◌||◌, if◌then◌else◌, Bool, true, List, [], ok, >>=-eq-ok, ◌≡◌, refl, ap, sym,
  ◌∙◌, arith, contains,
}
use parthenon.Metadata.Flag.{MetadataFlag, none_flag, provides, real, derived}
use parthenon.Metadata.Bits.{is_set, count_set}
use parthenon.Metadata.Construct.{
  Metadata, topologies, roles, shapes, types, dependences, is_mesh_tied, is_valid, set_bits,
  set_default, with_defaults, good_shape, checked, filled, construct,
}
use parthenon.Metadata.Valid.{IsValid, is_valid-IsValid, is_valid_throws}
use parthenon.Metadata.Defaults.{
  asked, is_set-asked, count_set-asked, count_set-default, count_set-default_other, is_set-default,
}

-- What the defaults make of the counts.
pub record Counted (bits old : List Bool) : Type 0 where
  pub topology : count_set bits topologies ≡ max 1 (count_set old topologies)
  pub role : count_set bits roles ≡ max 1 (count_set old roles)
  pub type_flag : count_set bits types ≡ max 1 (count_set old types)
  pub dependence : count_set bits dependences ≡ max 1 (count_set old dependences)
  pub shape : count_set bits shapes ≡ count_set old shapes

pub with_defaults-Counted : (old : List Bool) → Counted (with_defaults old) old
unfolding with_defaults
with_defaults-Counted old =
    let located = set_default topologies none_flag old in
    let provided = set_default roles provides located in
    let typed = set_default types real provided in
    record {
      topology =
          count_set-default_other dependences topologies derived typed refl
          ∙ count_set-default_other types topologies real provided refl
          ∙ count_set-default_other roles topologies provides located refl
          ∙ count_set-default topologies none_flag old refl refl;
      role =
          count_set-default_other dependences roles derived typed refl
          ∙ count_set-default_other types roles real provided refl
          ∙ count_set-default roles provides located refl refl
          ∙ ap (max 1) (count_set-default_other topologies roles none_flag old refl);
      type_flag =
          count_set-default_other dependences types derived typed refl
          ∙ count_set-default types real provided refl refl
          ∙ ap (max 1) (
              count_set-default_other roles types provides located refl
              ∙ count_set-default_other topologies types none_flag old refl);
      dependence =
          count_set-default dependences derived typed refl refl
          ∙ ap (max 1) (
              count_set-default_other types dependences real provided refl
              ∙ count_set-default_other roles dependences provides located refl
              ∙ count_set-default_other topologies dependences none_flag old refl);
      shape =
          count_set-default_other dependences shapes derived typed refl
          ∙ count_set-default_other types shapes real provided refl
          ∙ count_set-default_other roles shapes provides located refl
          ∙ count_set-default_other topologies shapes none_flag old refl;
    }

pub checked-ok :
    (n m : Metadata)
    → checked n ≡ ok m
    → (n ≡ m)
      × IsValid n
      × ((tied : Bool) × (is_mesh_tied n.bits ≡ ok tied)
          × ((if tied then good_shape n else ok tt) ≡ ok tt))
unfolding checked
checked-ok n m h =
    let (valid, first, after) = >>=-eq-ok (is_valid true n) _ h in
    let (tied, at, shaping) = >>=-eq-ok (is_mesh_tied n.bits) _ after in
    let (done, shaped, built) = >>=-eq-ok (if tied then good_shape n else ok tt) _ shaping in
    let holds = is_valid_throws n valid first in
    (cc, (is_valid-IsValid true n).0 (first ∙ ap ok holds), (tied, at, shaped))

-- The flags that are set though they are not asked for.
abbrev pub is_default : MetadataFlag → List MetadataFlag → Bool
is_default f fs =
    (f == derived) && (asked dependences fs == 0)
    || (f == real) && (asked types fs == 0)
    || (f == provides) && (asked roles fs == 0)
    || (f == none_flag) && (asked topologies fs == 0)

unfoldable pub filled_bits : List MetadataFlag → List Bool
filled_bits fs = with_defaults (set_bits fs [])

pub is_set-filled :
    (fs : List MetadataFlag) (f : MetadataFlag)
    → is_set (filled_bits fs) f ≡ contains f fs || is_default f fs
unfolding filled_bits with_defaults
is_set-filled fs f =
    let old = set_bits fs [] in
    let located = set_default topologies none_flag old in
    let provided = set_default roles provides located in
    let typed = set_default types real provided in
    ground (
      arith,
      is_set-default dependences derived f typed,
      is_set-default types real f provided,
      is_set-default roles provides f located,
      is_set-default topologies none_flag f old,
      is_set-asked fs f,
      count_set-asked fs topologies,
      count_set-asked fs roles,
      count_set-asked fs types,
      count_set-asked fs dependences,
      count_set-default_other topologies roles none_flag old refl,
      count_set-default_other roles types provides located refl,
      count_set-default_other topologies types none_flag old refl,
      count_set-default_other types dependences real provided refl,
      count_set-default_other roles dependences provides located refl,
      count_set-default_other topologies dependences none_flag old refl,
    )

-- What the constructor of Metadata returns satisfies the conditions of IsValid, has the shape it
-- was given, and has set just the flags asked for and, for each of the groups topology, role, data
-- type and dependence of which no flag is asked for, the flag None, Provides, Real or Derived.
pub construct-IsValid :
    (fs : List MetadataFlag) (shape : List ℤ) (labels : List (List ℕ)) (associated refs : List ℕ)
    (m : Metadata)
    → construct fs shape labels associated refs ≡ ok m
    → IsValid m
      × (m.shape ≡ shape)
      × ((f : MetadataFlag) → is_set m.bits f ≡ contains f fs || is_default f fs)
unfolding construct filled filled_bits
construct-IsValid fs shape labels associated refs m h =
    let (same, valid, shaped) = checked-ok _ m h in
    rw (sym same) (valid, refl, λ f. is_set-filled fs f)

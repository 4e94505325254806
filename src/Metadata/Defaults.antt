-- ===== src/Metadata/Defaults.antt =====
-- The flags that the constructor of src/interface/metadata.cpp sets: those asked for and the defaults.
use parthenon.Base.{
  ℕ, ◌+◌, max, ◌==◌, ◌&&◌, ◌||◌, Bool, true, false, List, [], ◌∷◌, ◌≡◌, refl, arith, Bool-cases,
  inl, inr, count, contains, flag,
}
use parthenon.Metadata.Flag.{MetadataFlag}
use parthenon.Metadata.Bits.{is_set, do_bit, count_set, is_set-do_bit, is_set-get_or}
use parthenon.Metadata.Construct.{set_bits, set_default}

-- How many flags of a group are asked for.
unfoldable pub asked : List MetadataFlag → List MetadataFlag → ℕ
asked [] fs = 0
asked (g ∷ group) fs = flag (contains g fs) + asked group fs

pub is_set-set_bits :
    (fs : List MetadataFlag) (bits : List Bool) (g : MetadataFlag)
    → is_set (set_bits fs bits) g ≡ contains g fs || is_set bits g
unfolding set_bits
is_set-set_bits [] bits g = refl
is_set-set_bits (f ∷ fs) bits g =
    ground (arith, is_set-set_bits fs (do_bit f true bits) g, is_set-do_bit f g true bits)

pub is_set-asked :
    (fs : List MetadataFlag) (g : MetadataFlag) → is_set (set_bits fs []) g ≡ contains g fs
unfolding is_set
is_set-asked fs g = ground (arith, is_set-set_bits fs [] g, is_set-get_or [] g)

pub count_set-asked :
    (fs group : List MetadataFlag) → count_set (set_bits fs []) group ≡ asked group fs
unfolding count_set asked
count_set-asked fs [] = refl
count_set-asked fs (g ∷ group) = ground (arith, is_set-asked fs g, count_set-asked fs group)

-- A flag outside a group leaves its count, one of it that was not set adds to it.
count_set-other :
    (f : MetadataFlag) (bits : List Bool) (group : List MetadataFlag)
    → contains f group ≡ false
    → count_set (do_bit f true bits) group ≡ count_set bits group
unfolding count_set
count_set-other f bits [] h = refl
count_set-other f bits (g ∷ group) h =
    ground (arith, is_set-do_bit f g true bits, count_set-other f bits group)

count_set-own :
    (f : MetadataFlag) (bits : List Bool) (group : List MetadataFlag)
    → is_set bits f ≡ false
    → count_set (do_bit f true bits) group ≡ count_set bits group + count f group
unfolding count_set
count_set-own f bits [] h = omega arith
count_set-own f bits (g ∷ group) h = elim (Bool-cases (g == f)) [
  | inl e ↦
      let same : g ≡ f = ground arith in
      rw same (ground (arith, is_set-do_bit f f true bits, count_set-own f bits group))
  | inr e ↦ ground (arith, is_set-do_bit f g true bits, count_set-own f bits group)
]

none_set :
    (f : MetadataFlag) (bits : List Bool) (group : List MetadataFlag)
    → count_set bits group ≡ 0
    → contains f group ≡ true
    → is_set bits f ≡ false
unfolding count_set
none_set f bits [] h k = absurd cc
none_set f bits (g ∷ group) h k = elim (Bool-cases (f == g)) [
  | inl e ↦ let same : f ≡ g = ground arith in rw same (ground arith)
  | inr e ↦ none_set f bits group (ground arith) (ground arith)
]

pub count_set-default :
    (group : List MetadataFlag) (f : MetadataFlag) (bits : List Bool)
    → count f group ≡ 1
    → contains f group ≡ true
    → count_set (set_default group f bits) group ≡ max 1 (count_set bits group)
unfolding set_default
count_set-default group f bits h k = elim (Bool-cases (count_set bits group == 0)) [
  | inl e ↦
      let nothing : count_set bits group ≡ 0 = ground arith in
      rw e (omega (arith, nothing, h, count_set-own f bits group (none_set f bits group nothing k)))
  | inr e ↦ rw e (ground arith)
]

pub count_set-default_other :
    (group other : List MetadataFlag) (f : MetadataFlag) (bits : List Bool)
    → contains f other ≡ false
    → count_set (set_default group f bits) other ≡ count_set bits other
unfolding set_default
count_set-default_other group other f bits h = ground (arith, count_set-other f bits other h)

pub is_set-default :
    (group : List MetadataFlag) (f g : MetadataFlag) (bits : List Bool)
    → is_set (set_default group f bits) g
      ≡ ((g == f) && (count_set bits group == 0)) || is_set bits g
unfolding set_default
is_set-default group f g bits = ground (arith, is_set-do_bit f g true bits)

-- ===== src/Metadata/Same.antt =====
-- HasSameFlags and Flags of src/interface/metadata.hpp and .cpp against IsSet.
use parthenon.Base.{
  ℕ, zero, suc, ◌+◌, min, ltb, leb, ◌==◌, ◌&&◌, if◌then◌else◌, Bool, true, false, List, [], ◌∷◌,
  length, get_or, ◌≡◌, refl, sym, ◌∙◌, arith, Bool-cases, inl, inr, contains, ◌↔◌,
}
use parthenon.Metadata.Flag.{MetadataFlag}
use parthenon.Metadata.Bits.{
  is_set, is_set-get_or, flags_from, flags, none_extra, same_below, has_same_flags,
}

-- Which flags a scan finds.
contains-flags_from :
    (i n f : ℕ) (bits : List Bool)
    → contains f (flags_from i n bits) ≡ leb i f && ltb f (i + n) && is_set bits f
unfolding flags_from
contains-flags_from i zero f bits = ground arith
contains-flags_from i (suc n) f bits = elim (Bool-cases (f == i)) [
  | inl e ↦
      let same : f ≡ i = ground arith in
      rw same (ground (arith, contains-flags_from (suc i) n i bits))
  | inr e ↦ ground (arith, contains-flags_from (suc i) n f bits)
]

pub contains-flags :
    (count f : ℕ) (bits : List Bool) → contains f (flags count bits) ≡ ltb f count && is_set bits f
unfolding flags
contains-flags count f bits = ground (arith, contains-flags_from 0 count f bits)

-- The same values everywhere, behind the end too.
Alike : List Bool → List Bool → Type 0
Alike xs ys = (f : ℕ) → get_or xs f false ≡ get_or ys f false

none_extra_sound : (xs : List Bool) → none_extra xs ≡ true → Alike xs []
unfolding none_extra Alike
none_extra_sound [] h f = refl
none_extra_sound (x ∷ xs) h zero = ground arith
none_extra_sound (x ∷ xs) h (suc f) = none_extra_sound xs (ground arith) f

none_extra_complete : (xs : List Bool) → Alike xs [] → none_extra xs ≡ true
unfolding none_extra Alike
none_extra_complete [] h = refl
none_extra_complete (x ∷ xs) h = ground (arith, h 0, none_extra_complete xs (λ f. h (suc f)))

-- The comparison bit by bit, from the front.
agree : List Bool → List Bool → Bool
agree [] ys = none_extra ys
agree (x ∷ xs) [] = none_extra (x ∷ xs)
agree (x ∷ xs) (y ∷ ys) =
    let rest = agree xs ys in if x then if y then rest else false else if y then false else rest

has_same_flags-agree : (xs ys : List Bool) → has_same_flags xs ys ≡ agree xs ys
unfolding has_same_flags same_below agree none_extra
has_same_flags-agree [] [] = refl
has_same_flags-agree [] (y ∷ ys) = ground arith
has_same_flags-agree (x ∷ xs) [] = ground arith
has_same_flags-agree (x ∷ xs) (y ∷ ys) =
    let least : min (suc (length xs)) (suc (length ys)) ≡ suc (min (length xs) (length ys)) =
      omega arith in
    rw least (elim (Bool-cases (ltb (length ys) (length xs))) [
      | inl e ↦
          let longer : ltb (suc (length ys)) (suc (length xs)) ≡ true = ground arith in
          rw longer (ground (arith, has_same_flags-agree xs ys))
      | inr e ↦
          let longer : ltb (suc (length ys)) (suc (length xs)) ≡ false = ground arith in
          rw longer (ground (arith, has_same_flags-agree xs ys))
    ])

agree_sound : (xs ys : List Bool) → agree xs ys ≡ true → Alike xs ys
unfolding agree Alike
agree_sound [] ys h f = sym (none_extra_sound ys h f)
agree_sound (x ∷ xs) [] h f = none_extra_sound (x ∷ xs) h f
agree_sound (x ∷ xs) (y ∷ ys) h zero = ground arith
agree_sound (x ∷ xs) (y ∷ ys) h (suc f) = agree_sound xs ys (ground arith) f

agree_complete : (xs ys : List Bool) → Alike xs ys → agree xs ys ≡ true
unfolding agree Alike
agree_complete [] ys h = none_extra_complete ys (λ f. sym (h f))
agree_complete (x ∷ xs) [] h = none_extra_complete (x ∷ xs) h
agree_complete (x ∷ xs) (y ∷ ys) h = ground (arith, h 0, agree_complete xs ys (λ f. h (suc f)))

-- HasSameFlags holds of two objects just when IsSet gives the same for each flag on both, however
-- many bits each of them has.
pub has_same_flags-is_set :
    (xs ys : List Bool)
    → (has_same_flags xs ys ≡ true) ↔ ((f : MetadataFlag) → is_set xs f ≡ is_set ys f)
unfolding Alike
has_same_flags-is_set xs ys = (
  λ h f.
      is_set-get_or xs f
      ∙ agree_sound xs ys (sym (has_same_flags-agree xs ys) ∙ h) f
      ∙ sym (is_set-get_or ys f),
  λ h.
      has_same_flags-agree xs ys
      ∙ agree_complete xs ys (λ f. sym (is_set-get_or xs f) ∙ h f ∙ is_set-get_or ys f),
)

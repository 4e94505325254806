-- ===== src/Metadata/Bits.antt =====
-- The flags that a Metadata object holds as bits: IsSet, DoBit, CountSet, AnyFlagsSet, AllFlagsSet,
-- NoFlagsSet, FlagsSet, Flags and HasSameFlags of src/interface/metadata.hpp and .cpp.
use parthenon.Base.{
  ℕ, zero, suc, ◌+◌, ◌-◌, min, ltb, leb, ◌==◌, ◌&&◌, ◌||◌, not, if◌then◌else◌, Bool, true, false,
  List, [], ◌∷◌, ◌++◌, length, get_or, set, take, drop, replicate, flag, ◌≡◌, refl, arith,
  Bool-cases, inl, inr, get_or-replicate, get_or-set, length-replicate, length-append, length-take,
  ◌∙◌,
}
use parthenon.Metadata.Flag.{MetadataFlag}

unfoldable pub is_set : List Bool → MetadataFlag → Bool
is_set bits f = ltb f (length bits) && get_or bits f false

-- std::vector::resize
unfoldable pub resize : List Bool → ℕ → List Bool
resize bits n = take n bits ++ replicate (n - length bits) false

unfoldable pub do_bit : MetadataFlag → Bool → List Bool → List Bool
do_bit f value bits = set (if leb (length bits) f then resize bits (suc f) else bits) f value

unfoldable pub count_set : List Bool → List MetadataFlag → ℕ
count_set bits [] = 0
count_set bits (f ∷ fs) = flag (is_set bits f) + count_set bits fs

unfoldable pub any_flags_set : List Bool → List MetadataFlag → Bool
any_flags_set bits [] = false
any_flags_set bits (f ∷ fs) = is_set bits f || any_flags_set bits fs

unfoldable pub all_flags_set : List Bool → List MetadataFlag → Bool
all_flags_set bits [] = true
all_flags_set bits (f ∷ fs) = is_set bits f && all_flags_set bits fs

unfoldable pub no_flags_set : List Bool → List MetadataFlag → Bool
no_flags_set bits [] = true
no_flags_set bits (f ∷ fs) = not (is_set bits f) && no_flags_set bits fs

-- The flags from `i` on that are set, of `n`.
unfoldable pub flags_from : ℕ → ℕ → List Bool → List MetadataFlag
flags_from i zero bits = []
flags_from i (suc n) bits =
    let rest = flags_from (suc i) n bits in if is_set bits i then i ∷ rest else rest

-- `count` is how many flags there are, built-in or added by the user.
unfoldable pub flags : ℕ → List Bool → List MetadataFlag
flags count bits = flags_from 0 count bits

-- The extra bits of the longer list.
unfoldable pub none_extra : List Bool → Bool
none_extra [] = true
none_extra (b ∷ bs) = let rest = none_extra bs in if b then false else rest

unfoldable pub same_below : ℕ → List Bool → List Bool → Bool
same_below zero xs ys = true
same_below (suc n) [] ys = true
same_below (suc n) (x ∷ xs) [] = true
same_below (suc n) (x ∷ xs) (y ∷ ys) =
    let rest = same_below n xs ys in
    if x then if y then rest else false else if y then false else rest

unfoldable pub has_same_flags : List Bool → List Bool → Bool
has_same_flags xs ys =
    let min_bits = min (length xs) (length ys) in
    let longer = if ltb (length ys) (length xs) then xs else ys in
    if none_extra (drop min_bits longer) then same_below min_bits xs ys else false

pub is_set-get_or : (bits : List Bool) (f : ℕ) → is_set bits f ≡ get_or bits f false
unfolding is_set
is_set-get_or [] f = ground arith
is_set-get_or (b ∷ bs) zero = ground arith
is_set-get_or (b ∷ bs) (suc f) = ground (arith, is_set-get_or bs f)

-- Growing the bits sets none.
get_or-resize :
    (bits : List Bool) (n f : ℕ)
    → leb (length bits) n ≡ true
    → get_or (take n bits ++ replicate (n - length bits) false) f false ≡ get_or bits f false
get_or-resize [] zero f h = refl
get_or-resize [] (suc n) f h = ground (arith, get_or-replicate f (suc n) false false)
get_or-resize (b ∷ bs) zero f h = absurd (ground arith)
get_or-resize (b ∷ bs) (suc n) zero h = refl
get_or-resize (b ∷ bs) (suc n) (suc f) h =
    let gap : suc n - suc (length bs) ≡ n - length bs = omega arith in
    rw gap (get_or-resize bs n f (ground arith))

length-resize : (bits : List Bool) (n : ℕ) → length (resize bits n) ≡ n
unfolding resize
length-resize bits n = omega (
  arith,
  length-append (take n bits) (replicate (n - length bits) false),
  length-take n bits,
  length-replicate (n - length bits) false,
)

same_resized :
    (bits : List Bool) (f g : ℕ)
    → leb (length bits) f ≡ true
    → get_or (resize bits (suc f)) g false ≡ get_or bits g false
unfolding resize
same_resized bits f g h = get_or-resize bits (suc f) g (ground arith)

-- A flag set or unset changes itself only.
pub is_set-do_bit :
    (f g : MetadataFlag) (value : Bool) (bits : List Bool)
    → is_set (do_bit f value bits) g ≡ (if g == f then value else is_set bits g)
unfolding do_bit
is_set-do_bit f g value bits =
    is_set-get_or (do_bit f value bits) g ∙ elim (Bool-cases (leb (length bits) f)) [
      | inl e ↦ rw e (
          ground (
            arith,
            get_or-set (resize bits (suc f)) f g value false,
            length-resize bits (suc f),
            same_resized bits f g e,
            is_set-get_or bits g,
          ))
      | inr e ↦ rw e (ground (arith, get_or-set bits f g value false, is_set-get_or bits g))
    ]

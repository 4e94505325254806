-- ===== src/Swarm/Sound.antt =====
-- The free list of a swarm, src/interface/swarm.cpp, holds just the slots that no particle has.
use parthenon.Base.{
  ℕ, zero, suc, ◌+◌, ◌<◌, ltb, leb, ap, ◌&&◌, not, if◌then◌else◌, Bool, true, false, List, [], ◌∷◌,
  ◌++◌, length, set, get_or, replicate, ◌≡◌, refl, sym, ◌∙◌, arith, length-set, length-replicate,
  count,
}
pub use parthenon.Base.{get_or-replicate, get_or-append, get_or-set}
use parthenon.Base.Int.{ℤ, pos, ◌≤ℤ◌, ◌<ℤ◌}
use parthenon.Swarm.Pool.{Swarm, range, make, mark_particle_for_removal}

abbrev pub count_true : List Bool → ℕ
count_true [] = 0
count_true (b ∷ bs) = (if b then 1 else 0) + count_true bs

-- A slot is on the free list once if no particle has it, and otherwise not at all.
abbrev pub free_count : List Bool → ℕ → ℕ
free_count mask i = if get_or mask i true then 0 else 1

pub record IsSound (s : Swarm) : Type 0 where
  pub mask_length : length s.mask ≡ s.nmax_pool
  pub marked_length : length s.marked_for_removal ≡ s.nmax_pool
  pub new_length : length s.new_indices ≡ s.nmax_pool
  pub free_exactly : (i : ℕ) → count i s.free_indices ≡ free_count s.mask i
  pub slots : s.num_active + length s.free_indices ≡ s.nmax_pool
  pub active : s.num_active ≡ count_true s.mask
  -- No particle has a slot behind max_active_index.
  pub bound : (i : ℕ) → get_or s.mask i false ≡ true → pos i ≤ℤ s.max_active_index
  pub in_pool : s.max_active_index <ℤ pos s.nmax_pool

pub count-range : (i n k : ℕ) → count i (range n k) ≡ (if leb n i && ltb i (n + k) then 1 else 0)
count-range i n zero = ground arith
count-range i n (suc k) = ground (arith, count-range i (suc n) k)

pub length-range : (n k : ℕ) → length (range n k) ≡ k
length-range n zero = refl
length-range n (suc k) = ap suc (length-range (suc n) k)

pub count_true-set :
    (xs : List Bool) (n : ℕ) (b : Bool)
    → n < length xs
    → count_true (set xs n b) + (if get_or xs n false then 1 else 0)
      ≡ count_true xs + (if b then 1 else 0)
count_true-set [] n b h = absurd (omega arith)
count_true-set (x ∷ xs) zero b h = ground arith
count_true-set (x ∷ xs) (suc n) b h = ground (arith, count_true-set xs n b)

pub count_true-replicate : (n : ℕ) → count_true (replicate n false) ≡ 0
count_true-replicate zero = refl
count_true-replicate (suc n) = omega (arith, count_true-replicate n)

pub count_true-append : (xs ys : List Bool) → count_true (xs ++ ys) ≡ count_true xs + count_true ys
count_true-append [] ys = omega arith
count_true-append (x ∷ xs) ys = omega (arith, count_true-append xs ys)

pub make-IsSound : (unset : ℤ) (n : ℕ) → IsSound (make unset n)
unfolding make
make-IsSound unset n = record {
  mask_length = length-replicate n false;
  marked_length = length-replicate n false;
  new_length = length-replicate n 0;
  free_exactly = λ i. ground (arith, count-range i 0 n, get_or-replicate i n false true);
  slots = omega (arith, length-range 0 n);
  active = omega (arith, count_true-replicate n);
  bound = λ i h. ground (arith, get_or-replicate i n false false);
  in_pool = omega arith;
}

pub mark-IsSound : (n : ℕ) (s : Swarm) → IsSound s → IsSound (mark_particle_for_removal n s)
unfolding mark_particle_for_removal
mark-IsSound n s h = record {
  mask_length = h.mask_length;
  marked_length = omega (arith, h.marked_length, length-set s.marked_for_removal n true);
  new_length = h.new_length;
  free_exactly = h.free_exactly;
  slots = h.slots;
  active = h.active;
  bound = h.bound;
  in_pool = h.in_pool;
}

pub in_range : (xs : List Bool) (n : ℕ) (d : Bool) → get_or xs n d ≡ not d → n < length xs
in_range [] n true h = absurd cc
in_range [] n false h = absurd cc
in_range (x ∷ xs) zero d h = omega arith
in_range (x ∷ xs) (suc n) d h = omega (arith, in_range xs n d h)

pub same_default :
    (xs : List Bool) (n : ℕ) (d e : Bool) → n < length xs → get_or xs n d ≡ get_or xs n e
same_default [] n d e h = absurd (omega arith)
same_default (x ∷ xs) zero d e h = refl
same_default (x ∷ xs) (suc n) d e h = same_default xs n d e (omega arith)

pub positive : (xs : List Bool) (n : ℕ) → get_or xs n false ≡ true → 0 < count_true xs
positive [] n h = ground arith
positive (x ∷ xs) zero h = ground arith
positive (x ∷ xs) (suc n) h = ground (arith, positive xs n)

-- A slot that the free list starts with is in the pool and free.
pub head_free :
    (s : Swarm) (i : ℕ) (is : List ℕ)
    → IsSound s
    → s.free_indices ≡ i ∷ is
    → (i < length s.mask) × (get_or s.mask i true ≡ false)
head_free s i is h e =
    let k : count i (i ∷ is) ≡ free_count s.mask i = ap (count i) (sym e) ∙ h.free_exactly i in
    let free : get_or s.mask i true ≡ false = ground arith in (in_range s.mask i true free, free)

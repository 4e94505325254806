-- ===== src/Swarm/Remove.antt =====
-- RemoveMarkedParticles of src/interface/swarm.cpp.
use parthenon.Base.{
  ℕ, zero, suc, ◌-◌, ◌<◌, ltb, ◌==◌, ◌&&◌, not, if◌then◌else◌, Bool, true, false, ◌∷◌, length, set,
  ◌≡◌, ◌∙◌, arith, test-elim, length-set,
}
use parthenon.Base.Int.{ℤ, pos, negsuc, ◌-ℤ◌, ◌≤ℤ◌, eqb_ℤ, -ℤ_parts}
use parthenon.Swarm.Pool.{
  Swarm, is_active, is_marked_for_removal, remove_marked, remove_below, remove_marked_particles,
}
use parthenon.Swarm.Sound.{IsSound, get_or-set, count_true-set, in_range, same_default, positive}

below_max :
    (m : ℤ) (n i : ℕ)
    → eqb_ℤ (pos n) m ≡ true
    → pos i ≤ℤ m
    → (i == n) ≡ false
    → pos i ≤ℤ (m -ℤ pos 1)
below_max m n i e h d = ground (arith, -ℤ_parts m (pos 1))

freed-IsSound :
    (n : ℕ) (s : Swarm)
    → IsSound s
    → is_active s n ≡ true
    → IsSound (record s {
      mask = set s.mask n false;
      free_indices = n ∷ s.free_indices;
      num_active = s.num_active - 1;
      max_active_index =
          if eqb_ℤ (pos n) s.max_active_index
          then s.max_active_index -ℤ pos 1
          else s.max_active_index;
      marked_for_removal = set s.marked_for_removal n false;
    })
freed-IsSound n s h a =
    let lt : n < length s.mask = in_range s.mask n false a in
    let was = same_default s.mask n true false lt in
    record {
      mask_length = length-set s.mask n false ∙ h.mask_length;
      marked_length = length-set s.marked_for_removal n false ∙ h.marked_length;
      new_length = h.new_length;
      free_exactly = λ i. ground (arith, h.free_exactly i, get_or-set s.mask n i false true, was);
      slots = omega (arith, h.slots, h.active, positive s.mask n a);
      active = ground (arith, h.active, count_true-set s.mask n false lt);
      bound = λ i k.
          ground
            (arith, h.bound i, get_or-set s.mask n i false false, below_max s.max_active_index n i);
      in_pool = ground (arith, h.in_pool, -ℤ_parts s.max_active_index (pos 1));
    }

remove_marked-IsSound : (n : ℕ) (s : Swarm) → IsSound s → IsSound (remove_marked n s)
unfolding remove_marked
remove_marked-IsSound n s h =
    test-elim IsSound (is_active s n && is_marked_for_removal s n) _ s
      (λ e. freed-IsSound n s h (ground arith)) (λ e. h)

remove_below-IsSound : (n : ℕ) (s : Swarm) → IsSound s → IsSound (remove_below n s)
unfolding remove_below
remove_below-IsSound zero s h = h
remove_below-IsSound (suc n) s h =
    remove_below-IsSound n (remove_marked n s) (remove_marked-IsSound n s h)

abbrev kept : Swarm → ℕ → Bool
kept s i = is_active s i && not (is_marked_for_removal s i)

-- What the loop leaves of the slots below its bound, and behind it.
remove_below-is_active :
    (n : ℕ) (s : Swarm)
    → IsSound s
    → (i : ℕ) → is_active (remove_below n s) i ≡ (if ltb i n then kept s i else is_active s i)
unfolding remove_below remove_marked
remove_below-is_active zero s h i = ground arith
remove_below-is_active (suc n) s h i =
    let rest = remove_below-is_active n (remove_marked n s) (remove_marked-IsSound n s h) i in
    let new_mask = get_or-set s.mask n i false false in
    let new_marks = get_or-set s.marked_for_removal n i false false in
    ground
      (arith, rest, new_mask, new_marks, in_range s.mask n false, h.mask_length, h.marked_length)

-- RemoveMarkedParticles leaves a sound swarm sound: the free list holds just the slots without a
-- particle, each once, the number of particles is that of the active slots, and none lies behind
-- max_active_index. A slot is active afterwards just when it was and was not marked.
pub remove_marked_particles-is_active :
    (s : Swarm)
    → IsSound s
    → IsSound (remove_marked_particles s)
      × ((i : ℕ)
          → is_active (remove_marked_particles s) i
            ≡ is_active s i && not (is_marked_for_removal s i))
unfolding remove_marked_particles
remove_marked_particles-is_active s h = go s.max_active_index h.bound
  where
    go :
        (m : ℤ)
        → ((i : ℕ) → is_active s i ≡ true → pos i ≤ℤ m)
        → let t : Swarm = elim m [ pos n ↦ remove_below (suc n) s | negsuc n ↦ s ] in
          IsSound t × ((i : ℕ) → is_active t i ≡ is_active s i && not (is_marked_for_removal s i))
    go (pos n) b = (
      remove_below-IsSound (suc n) s h,
      λ i. ground (arith, remove_below-is_active (suc n) s h i, b i),
    )
    go (negsuc n) b = (h, λ i. ground (arith, b i))

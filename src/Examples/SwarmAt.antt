-- ===== src/Examples/SwarmAt.antt =====
-- Concrete swarms for the theorems on src/interface/swarm.cpp.
use parthenon.Base.{
  ℕ, zero, suc, ◌+◌, ◌-◌, ◌&&◌, not, Bool, true, false, List, [], ◌∷◌, ◌++◌, length, replicate,
  take, get_or, ok, ◌≡◌, refl, arith, length-take, length-append, length-replicate, count, flag,
  contains, ◌==◌,
}
use parthenon.Base.Int.{ℤ, pos, ◌≤ℤ◌}
use parthenon.Swarm.Pool.{
  Swarm, make, is_active, is_marked_for_removal, remove_marked_particles, add_empty_particles,
}
use parthenon.Swarm.Sound.{IsSound, free_count, make-IsSound}
use parthenon.Swarm.Remove.{remove_marked_particles-is_active}
use parthenon.Swarm.Variables.{Variables, index_of, remove, remove-drops_real}
use parthenon.Swarm.Grow.{add_empty_particles-new_indices}

-- Three particles in a pool of four, the last and the first of them marked.
abbrev three : Swarm
three = record {
  nmax_pool = 4;
  mask = true ∷ true ∷ true ∷ false ∷ [];
  marked_for_removal = true ∷ false ∷ true ∷ false ∷ [];
  block_index = pos 0 ∷ pos 0 ∷ pos 0 ∷ pos 0 ∷ [];
  new_indices = 0 ∷ 1 ∷ 2 ∷ 0 ∷ [];
  new_indices_max_idx = pos 2;
  free_indices = 3 ∷ [];
  num_active = 3;
  max_active_index = pos 2;
}

three_free : (i : ℕ) → count i three.free_indices ≡ free_count three.mask i
three_free zero = refl
three_free (suc zero) = refl
three_free (suc (suc zero)) = refl
three_free (suc (suc (suc zero))) = refl
three_free (suc (suc (suc (suc i)))) = ground arith

three_bound : (i : ℕ) → get_or three.mask i false ≡ true → pos i ≤ℤ three.max_active_index
three_bound zero h = omega arith
three_bound (suc zero) h = omega arith
three_bound (suc (suc zero)) h = omega arith
three_bound (suc (suc (suc zero))) h = absurd cc
three_bound (suc (suc (suc (suc i)))) h = absurd cc

three-IsSound : IsSound three
three-IsSound = record {
  mask_length = refl;
  marked_length = refl;
  new_length = refl;
  free_exactly = three_free;
  slots = refl;
  active = refl;
  bound = three_bound;
  in_pool = omega arith;
}

remove_marked_particles-is_active_example :
    IsSound (remove_marked_particles three)
    × ((i : ℕ)
        → is_active (remove_marked_particles three) i
          ≡ is_active three i && not (is_marked_for_removal three i))
remove_marked_particles-is_active_example = remove_marked_particles-is_active three three-IsSound

abbrev grow_flags : ℕ → List Bool → List Bool
grow_flags n xs = xs ++ replicate (n - length xs) false

abbrev grow_indices : ℕ → List ℕ → List ℕ
grow_indices n xs = take n (xs ++ replicate n 0)

abbrev grow_block_index : ℕ → List ℤ → List ℤ
grow_block_index n xs = xs ++ replicate (n - length xs) (pos 0)

length-grow_indices : (n : ℕ) (xs : List ℕ) → length (grow_indices n xs) ≡ n
length-grow_indices n xs = omega (
  arith,
  length-take n (xs ++ replicate n 0),
  length-append xs (replicate n 0),
  length-replicate n zero,
)

-- Five new particles in a pool of two, which grows to eight.
add_empty_particles-new_indices_example :
    (t : Swarm) × (add_empty_particles grow_flags grow_indices grow_block_index 5 (make (pos 0) 2)
      ≡ ok t)
    × IsSound t
    × (t.num_active ≡ 5)
    × ((i : ℕ)
        → count i (take 5 t.new_indices) + flag (is_active (make (pos 0) 2) i)
          ≡ flag (is_active t i))
unfolding make
add_empty_particles-new_indices_example =
    add_empty_particles-new_indices grow_flags grow_indices grow_block_index (λ n xs h. refl)
      length-grow_indices 5 (make (pos 0) 2) (make-IsSound (pos 0) 2) (omega arith) (omega arith)

-- An integer variable and three reals.
abbrev enrolled : Variables
enrolled = record {
  ints = 7 ∷ [];
  reals = 1 ∷ 2 ∷ 3 ∷ [];
  int_map = 7 ∷ [];
  real_map = 3 ∷ 2 ∷ 1 ∷ [];
}

remove-drops_real_example :
    (w : Variables) × (remove 7 enrolled ≡ ok w)
    × ((y : ℕ)
        → (count y w.ints + flag (y == 7) ≡ count y enrolled.ints)
          × (count y w.reals + flag (y == 1) ≡ count y enrolled.reals))
    × (contains 1 w.real_map ≡ contains 1 enrolled.real_map)
unfolding index_of
remove-drops_real_example = remove-drops_real 7 0 1 enrolled refl refl refl

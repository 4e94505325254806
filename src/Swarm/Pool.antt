-- ===== src/Swarm/Pool.antt =====
-- The pool of particle slots of src/interface/swarm.hpp and .cpp: its construction, growth, the new
-- and the removed particles. `max_active_index_` and `new_indices_max_idx_` are -1 when there is none;
-- the other numbers are never negative. The pool's size and the number of particles are an `int`. The
-- views of Kokkos are lists, and its copies between host and device leave no trace; `resize_flags`,
-- `resize_indices` and `resize_block_index` are what Kokkos makes of a view that grows to a length.
use parthenon.Base.{
  ℕ, zero, suc, ◌+◌, ◌-◌, ◌*◌, ◌^◌, ltb, ◌&&◌, if◌then◌else◌, Bool, true, false, List, [], ◌∷◌,
  ◌++◌, length, set, get_or, replicate, Result, ok, err, guard, ◌>>=◌, ◌>>◌,
}
use parthenon.Base.Int.{ℤ, pos, negsuc, ◌-ℤ◌, ltb_ℤ, eqb_ℤ}

pub record Swarm : Type 0 where
  pub nmax_pool : ℕ
  pub mask : List Bool
  pub marked_for_removal : List Bool
  pub block_index : List ℤ
  pub new_indices : List ℕ
  pub new_indices_max_idx : ℤ
  pub free_indices : List ℕ
  pub num_active : ℕ
  pub max_active_index : ℤ

-- The index of the block that the swarm is on.
abbrev pub this_block : ℤ
this_block = negsuc 0

pub data Error : Type 0 where
  must_request_larger : Error
  -- The end of the free list is read, which the loop before it prevents.
  no_free_index : Error
  out_of_fuel : Error
  -- An `int` overflows, which the language leaves undefined.
  int_overflow : Error

-- What the loop over the slots puts on the free list: `count` indices from `first` on.
abbrev pub range : ℕ → ℕ → List ℕ
range first zero = []
range first (suc count) = first ∷ range (suc first) count

-- `unset` is what new_indices_max_idx_ holds, which the constructor does not set.
unfoldable pub make : ℤ → ℕ → Swarm
make unset nmax_pool = record {
  nmax_pool = nmax_pool;
  mask = replicate nmax_pool false;
  marked_for_removal = replicate nmax_pool false;
  block_index = replicate nmax_pool (pos 0);
  new_indices = replicate nmax_pool 0;
  new_indices_max_idx = unset;
  free_indices = range 0 nmax_pool;
  num_active = 0;
  max_active_index = negsuc 0;
}

abbrev pub max_int : ℤ → ℕ → ℤ
max_int m n = if ltb_ℤ m (pos n) then pos n else m

-- One turn of the loop that takes the first free slot for the new particle `n`.
unfoldable pub take_slot : ℕ → Swarm → Result Error Swarm
take_slot n s = elim s.free_indices [
  | [] ↦ err no_free_index
  | i ∷ is ↦ ok (record s {
    mask = set s.mask i true;
    block_index = set s.block_index i this_block;
    max_active_index = max_int s.max_active_index i;
    new_indices = set s.new_indices n i;
    free_indices = is;
  })
]

-- The turns from `n` on, `count` of them.
unfoldable pub take_slots : ℕ → ℕ → Swarm → Result Error Swarm
take_slots n zero s = ok s
take_slots n (suc count) s = take_slot n s >>= take_slots (suc n) count

unfoldable pub mark_particle_for_removal : ℕ → Swarm → Swarm
mark_particle_for_removal n s = record s { marked_for_removal = set s.marked_for_removal n true }

abbrev pub is_active : Swarm → ℕ → Bool
is_active s n = get_or s.mask n false

abbrev pub is_marked_for_removal : Swarm → ℕ → Bool
is_marked_for_removal s n = get_or s.marked_for_removal n false

-- The body of the loop of RemoveMarkedParticles.
unfoldable pub remove_marked : ℕ → Swarm → Swarm
remove_marked n s =
    if is_active s n && is_marked_for_removal s n
    then (record s {
      mask = set s.mask n false;
      free_indices = n ∷ s.free_indices;
      num_active = s.num_active - 1;
      max_active_index =
          if eqb_ℤ (pos n) s.max_active_index
          then s.max_active_index -ℤ pos 1
          else s.max_active_index;
      marked_for_removal = set s.marked_for_removal n false;
    })
    else s

-- The slots below `count`, from the last.
unfoldable pub remove_below : ℕ → Swarm → Swarm
remove_below zero s = s
remove_below (suc n) s = remove_below n (remove_marked n s)

unfoldable pub remove_marked_particles : Swarm → Swarm
remove_marked_particles s = elim s.max_active_index [
  | pos n ↦ remove_below (suc n) s
  | negsuc n ↦ s
]

module _ (resize_flags : ℕ → List Bool → List Bool) (resize_indices : ℕ → List ℕ → List ℕ)
    (resize_block_index : ℕ → List ℤ → List ℤ) where
  unfoldable pub set_pool_max : ℕ → Swarm → Result Error Swarm
  set_pool_max nmax_pool s =
      guard (ltb s.nmax_pool nmax_pool) must_request_larger
      >> ok (record s {
        nmax_pool = nmax_pool;
        free_indices = s.free_indices ++ range s.nmax_pool (nmax_pool - s.nmax_pool);
        mask = resize_flags nmax_pool s.mask;
        marked_for_removal = resize_flags nmax_pool s.marked_for_removal;
        new_indices = resize_indices nmax_pool s.new_indices;
        block_index = resize_block_index nmax_pool s.block_index;
      })

  unfoldable pub increase_pool_max : Swarm → Result Error Swarm
  increase_pool_max s =
      guard (ltb (2 * s.nmax_pool) (2 ^ 31)) int_overflow >> set_pool_max (2 * s.nmax_pool) s

  -- The loop until there are enough free slots, each turn of which adds one at least.
  unfoldable pub make_room : ℕ → ℕ → Swarm → Result Error Swarm
  make_room zero num_to_add s =
      if ltb (length s.free_indices) num_to_add then err out_of_fuel else ok s
  make_room (suc f) num_to_add s = elim (ltb (length s.free_indices) num_to_add) [
    | true ↦ increase_pool_max s >>= make_room f num_to_add
    | false ↦ ok s
  ]

  -- The result is left in `new_indices` and `new_indices_max_idx`.
  unfoldable pub add_empty_particles : ℕ → Swarm → Result Error Swarm
  add_empty_particles zero s = ok (record s { new_indices_max_idx = negsuc 0 })
  add_empty_particles (suc n) s = make_room (suc n) (suc n) s >>= take_slots 0 (suc n) >>= λ t.
      guard (ltb (t.num_active + suc n) (2 ^ 31)) int_overflow
      >> ok (record t { num_active = t.num_active + suc n; new_indices_max_idx = pos n })

-- ===== src/Swarm/Grow.antt =====
-- AddEmptyParticles of src/interface/swarm.cpp, with the growth of the pool.
use parthenon.Base.{
  ℕ, zero, suc, ◌+◌, ◌-◌, ◌*◌, ◌^◌, ◌<◌, ◌≤◌, ltb, if◌then◌else◌, Bool, true, false, List, [], ◌∷◌,
  ◌++◌, length, get_or, take, replicate, Result, ok, ◌>>=◌, ◌≡◌, inl, inr, refl, ap, ◌∙◌, arith,
  Bool-cases, count, count-append, flag, length-append, length-replicate, lt→ltb,
}
use parthenon.Base.Int.{ℤ, pos, negsuc}
use parthenon.Swarm.Pool.{
  Swarm, Error, range, is_active, set_pool_max, increase_pool_max, make_room, add_empty_particles,
}
use parthenon.Swarm.Sound.{
  IsSound, count-range, length-range, get_or-append, get_or-replicate, count_true-append,
  count_true-replicate,
}
use parthenon.Swarm.Take.{counted, renumbered-IsSound, take_slots-Done}

beyond : (xs : List Bool) (i : ℕ) (d : Bool) → length xs ≤ i → get_or xs i d ≡ d
beyond [] i d h = refl
beyond (x ∷ xs) zero d h = absurd (omega arith)
beyond (x ∷ xs) (suc i) d h = beyond xs i d (omega arith)

-- A view that grows keeps its items, and a new flag is not set.
module _ (resize_flags : ℕ → List Bool → List Bool) (resize_indices : ℕ → List ℕ → List ℕ)
    (resize_block_index : ℕ → List ℤ → List ℤ)
    (grows_flags : (n : ℕ) (xs : List Bool)
      → length xs ≤ n
      → resize_flags n xs ≡ xs ++ replicate (n - length xs) false)
    (length-resize_indices : (n : ℕ) (xs : List ℕ) → length (resize_indices n xs) ≡ n) where
  -- What the growth of the pool leaves as it was.
  record Grown (s t : Swarm) : Type 0 where
    sound : IsSound t
    same_num : t.num_active ≡ s.num_active
    same_active : (i : ℕ) → is_active t i ≡ is_active s i

  abbrev enlarged : ℕ → Swarm → Swarm
  enlarged n s = record s {
    nmax_pool = n;
    free_indices = s.free_indices ++ range s.nmax_pool (n - s.nmax_pool);
    mask = resize_flags n s.mask;
    marked_for_removal = resize_flags n s.marked_for_removal;
    new_indices = resize_indices n s.new_indices;
    block_index = resize_block_index n s.block_index;
  }

  -- A slot of a mask that grows by `k` slots.
  new_mask :
      (i n : ℕ) (xs : List Bool) (d : Bool)
      → length xs ≤ n
      → get_or (resize_flags n xs) i d
        ≡ (if ltb i (length xs) then get_or xs i d else (if ltb i n then false else d))
  new_mask i n xs d h = rw (grows_flags n xs h) (
      ground (
        arith,
        get_or-append i xs (replicate (n - length xs) false) d,
        get_or-replicate (i - length xs) (n - length xs) false d,
      ))

  length-resize_flags : (n : ℕ) (xs : List Bool) → length xs ≤ n → length (resize_flags n xs) ≡ n
  length-resize_flags n xs h = rw (grows_flags n xs h) (
      omega (
        arith,
        length-append xs (replicate (n - length xs) false),
        length-replicate (n - length xs) false,
      ))

  enlarged-Grown : (n : ℕ) (s : Swarm) → IsSound s → s.nmax_pool < n → Grown s (enlarged n s)
  enlarged-Grown n s h lt =
      let grown : length s.mask ≤ n = omega (arith, h.mask_length) in
      let more : List ℕ = range s.nmax_pool (n - s.nmax_pool) in
      record {
        sound = record {
          mask_length = length-resize_flags n s.mask grown;
          marked_length =
              length-resize_flags n s.marked_for_removal (omega (arith, h.marked_length));
          new_length = length-resize_indices n s.new_indices;
          free_exactly = λ i. ground (
            arith,
            h.free_exactly i,
            h.mask_length,
            count-append i s.free_indices more,
            count-range i s.nmax_pool (n - s.nmax_pool),
            new_mask i n s.mask true grown,
            beyond s.mask i true,
          );
          slots = omega (
            arith,
            h.slots,
            length-append s.free_indices more,
            length-range s.nmax_pool (n - s.nmax_pool),
          );
          active = rw (grows_flags n s.mask grown) (
              omega (
                arith,
                h.active,
                count_true-append s.mask (replicate (n - length s.mask) false),
                count_true-replicate (n - length s.mask),
              ));
          bound = λ i k. ground (arith, h.bound i, new_mask i n s.mask false grown);
          in_pool = omega (arith, h.in_pool);
        };
        same_num = refl;
        same_active = λ i. ground (arith, new_mask i n s.mask false grown, beyond s.mask i false);
      }

  set_pool_max-enlarged :
      (n : ℕ) (s : Swarm)
      → s.nmax_pool < n
      → set_pool_max resize_flags resize_indices resize_block_index n s ≡ ok (enlarged n s)
  unfolding set_pool_max
  set_pool_max-enlarged n s lt = rw (lt→ltb s.nmax_pool n lt) refl

  make_room-test :
      (f m : ℕ) (s : Swarm) (b : Bool)
      → ltb (length s.free_indices) m ≡ b
      → make_room resize_flags resize_indices resize_block_index (suc f) m s
        ≡ elim b as (λ b'. Result Error Swarm) [
          | true ↦
              increase_pool_max resize_flags resize_indices resize_block_index s
              >>= make_room resize_flags resize_indices resize_block_index f m
          | false ↦ ok s
        ]
  unfolding make_room
  make_room-test f m s b e =
      ap
        (λ (c : Bool). elim c as (λ b'. Result Error Swarm) [
          | true ↦
              increase_pool_max resize_flags resize_indices resize_block_index s
              >>= make_room resize_flags resize_indices resize_block_index f m
          | false ↦ ok s
        ])
        e

  make_room-Grown :
      (f m : ℕ) (s : Swarm)
      → IsSound s
      → 0 < s.nmax_pool
      → s.num_active + m ≤ 2 ^ 30
      → m ≤ f + length s.free_indices
      → (t : Swarm) × (make_room resize_flags resize_indices resize_block_index f m s ≡ ok t)
        × Grown s t
        × (m ≤ length t.free_indices)
  unfolding make_room increase_pool_max
  make_room-Grown zero m s h lt bounded le =
      let enough : ltb (length s.free_indices) m ≡ false = ground arith in
      (
        s,
        rw enough refl,
        record { sound = h; same_num = refl; same_active = λ i. refl },
        omega arith,
      )
  make_room-Grown (suc f) m s h lt bounded le = elim (Bool-cases (ltb (length s.free_indices) m)) [
    | inl e ↦
        let step = enlarged-Grown (2 * s.nmax_pool) s h (omega arith) in
        let more : List ℕ = range s.nmax_pool (2 * s.nmax_pool - s.nmax_pool) in
        let fits : 2 * s.nmax_pool < 2 ^ 31 = ground (arith, h.slots) in
        let (t, et, rest, room) =
          make_room-Grown f m (enlarged (2 * s.nmax_pool) s) step.sound (omega arith) bounded (
            omega (
              arith,
              length-append s.free_indices more,
              length-range s.nmax_pool (2 * s.nmax_pool - s.nmax_pool),
            )) in
        (
          t,
          make_room-test f m s true e
              ∙ rw
                  (
                    lt→ltb (2 * s.nmax_pool) (2 ^ 31) fits,
                    set_pool_max-enlarged (2 * s.nmax_pool) s (omega arith),
                  )
                  et,
          record {
            sound = rest.sound;
            same_num = rest.same_num;
            same_active = λ i. rest.same_active i ∙ step.same_active i;
          },
          room,
        )
    | inr e ↦ (
      s,
      make_room-test f m s false e,
      record { sound = h; same_num = refl; same_active = λ i. refl },
      ground arith,
    )
  ]

  -- On a sound swarm whose pool is not empty, AddEmptyParticles succeeds where the particles
  -- afterwards are at most 2^30, so that no int overflows, and leaves a sound swarm with that many
  -- more particles; the new indices are just the slots that were free and are now taken, each once,
  -- and no particle has lost its slot. A flag view that grows keeps its items and fills up with
  -- false, and an index view that grows has the new length.
  pub add_empty_particles-new_indices :
      (m : ℕ) (s : Swarm)
      → IsSound s
      → 0 < s.nmax_pool
      → s.num_active + m ≤ 2 ^ 30
      → (t : Swarm) × (add_empty_particles resize_flags resize_indices resize_block_index m s
          ≡ ok t)
        × IsSound t
        × (t.num_active ≡ s.num_active + m)
        × ((i : ℕ) → count i (take m t.new_indices) + flag (is_active s i) ≡ flag (is_active t i))
  unfolding add_empty_particles
  add_empty_particles-new_indices zero s h lt bounded = (
    record s { new_indices_max_idx = negsuc 0 },
    refl,
    renumbered-IsSound s (negsuc 0) s.num_active h refl,
    omega arith,
    λ i. omega arith,
  )
  add_empty_particles-new_indices (suc n) s h lt bounded =
      let (r, er, grown, room) = make_room-Grown (suc n) (suc n) s h lt bounded (omega arith) in
      let (t, et, (sound, num, slots)) = take_slots-Done (suc n) r grown.sound room in
      let fits : t.num_active + suc n < 2 ^ 31 = omega (arith, num, grown.same_num) in
      (
        record t { num_active = t.num_active + suc n; new_indices_max_idx = pos n },
        rw (er, et, lt→ltb (t.num_active + suc n) (2 ^ 31) fits) refl,
        renumbered-IsSound (counted (suc n) t) (pos n) (t.num_active + suc n) sound refl,
        omega (arith, num, grown.same_num),
        λ i. ground (arith, slots i, grown.same_active i),
      )

-- ===== src/Swarm/Take.antt =====
-- The loop of AddEmptyParticles of src/interface/swarm.cpp that takes the free slots.
use parthenon.Base.{
  ℕ, zero, suc, ◌+◌, ◌<◌, ◌≤◌, ◌==◌, true, false, List, [], ◌∷◌, length, set, take, ok, ◌≡◌, refl,
  ap, subst, ◌∙◌, arith, length-set, count, flag,
}
use parthenon.Base.Int.{ℤ}
use parthenon.Swarm.Pool.{this_block, Swarm, max_int, take_slot, take_slots, is_active}
use parthenon.Swarm.Sound.{IsSound, get_or-set, count_true-set, same_default, head_free}

-- In the loop the `n` new particles are not yet counted.
abbrev pub counted : ℕ → Swarm → Swarm
counted n s = record s { num_active = s.num_active + n }

take-set :
    (xs : List ℕ) (n v i : ℕ)
    → n < length xs
    → count i (take (suc n) (set xs n v)) ≡ count i (take n xs) + flag (i == v)
take-set [] n v i h = absurd (omega arith)
take-set (x ∷ xs) zero v i h = omega arith
take-set (x ∷ xs) (suc n) v i h = omega (arith, take-set xs n v i)

-- The swarm after one slot is taken.
abbrev taken : ℕ → ℕ → List ℕ → Swarm → Swarm
taken n j js s = record s {
  mask = set s.mask j true;
  block_index = set s.block_index j this_block;
  max_active_index = max_int s.max_active_index j;
  new_indices = set s.new_indices n j;
  free_indices = js;
}

taken-IsSound :
    (n j : ℕ) (js : List ℕ) (s : Swarm)
    → IsSound (counted n s)
    → s.free_indices ≡ j ∷ js
    → IsSound (counted (suc n) (taken n j js s))
taken-IsSound n j js s h e =
    let (lt, free) = head_free (counted n s) j js h e in
    let was = same_default s.mask j true false lt in
    let len : length s.free_indices ≡ suc (length js) = ap (λ (l : List ℕ). length l) e in
    record {
      mask_length = length-set s.mask j true ∙ h.mask_length;
      marked_length = h.marked_length;
      new_length = length-set s.new_indices n j ∙ h.new_length;
      free_exactly = λ i.
          let c : count i s.free_indices ≡ flag (i == j) + count i js = ap (count i) e in
          ground (arith, h.free_exactly i, get_or-set s.mask j i true true, c);
      slots = omega (arith, h.slots, len);
      active = ground (arith, h.active, count_true-set s.mask j true lt, was);
      bound = λ i k. ground (arith, h.bound i, get_or-set s.mask j i true false);
      in_pool = ground (arith, h.in_pool, h.mask_length);
    }

-- The last index of the new particles does not matter.
pub renumbered-IsSound :
    (s : Swarm) (x : ℤ) (n : ℕ)
    → IsSound s
    → n ≡ s.num_active
    → IsSound (record s { num_active = n; new_indices_max_idx = x })
renumbered-IsSound s x n h e = record {
  mask_length = h.mask_length;
  marked_length = h.marked_length;
  new_length = h.new_length;
  free_exactly = h.free_exactly;
  slots = omega (arith, h.slots);
  active = e ∙ h.active;
  bound = h.bound;
  in_pool = h.in_pool;
}

-- What `k` turns from `n` on do.
record Taken (n k : ℕ) (s t : Swarm) : Type 0 where
  sound : IsSound (counted (n + k) t)
  same_num : t.num_active ≡ s.num_active
  new_slots :
      (i : ℕ)
      → count i (take (n + k) t.new_indices) + flag (is_active s i)
        ≡ count i (take n s.new_indices) + flag (is_active t i)

take_slot-taken :
    (n j : ℕ) (js : List ℕ) (s : Swarm)
    → s.free_indices ≡ j ∷ js
    → take_slot n s ≡ ok (taken n j js s)
unfolding take_slot
take_slot-taken n j js s e = rw e refl

take_slots-ok :
    (n k : ℕ) (l : List ℕ) (s : Swarm)
    → s.free_indices ≡ l
    → IsSound (counted n s)
    → k ≤ length l
    → (t : Swarm) × (take_slots n k s ≡ ok t) × Taken n k s t
unfolding take_slots
take_slots-ok n zero l s e h le = (
  s,
  refl,
  record {
    sound = subst (λ m. IsSound (counted m s)) (omega arith) h;
    same_num = refl;
    new_slots = λ i. let none_more : n + 0 ≡ n = omega arith in rw none_more refl;
  },
)
take_slots-ok n (suc k) [] s e h le = absurd (omega arith)
take_slots-ok n (suc k) (j ∷ js) s e h le =
    let (lt, free) = head_free (counted n s) j js h e in
    let len : length s.free_indices ≡ suc (length js) = ap (λ (l : List ℕ). length l) e in
    let room : n < length s.new_indices = omega (arith, h.slots, h.new_length) in
    let (t, et, rest) =
      take_slots-ok (suc n) k js (taken n j js s) refl (taken-IsSound n j js s h e) (omega arith) in
    (
      t,
      (rw (take_slot-taken n j js s e) et),
      record {
        sound = subst (λ m. IsSound (counted m t)) (omega arith) rest.sound;
        same_num = rest.same_num;
        new_slots = λ i.
            let shift : suc n + k ≡ n + suc k = omega arith in
            let later : count i (take (n + suc k) t.new_indices)
                  + flag (is_active (taken n j js s) i)
                ≡ count i (take (suc n) (set s.new_indices n j)) + flag (is_active t i) =
              subst
                (λ m.
                  count i (take m t.new_indices) + flag (is_active (taken n j js s) i)
                  ≡ count i (take (suc n) (set s.new_indices n j)) + flag (is_active t i))
                shift (rest.new_slots i) in
            ground (
              arith,
              later,
              take-set s.new_indices n j i room,
              get_or-set s.mask j i true false,
              same_default s.mask j true false lt,
            );
      },
    )

abbrev pub Done : ℕ → Swarm → Swarm → Type 0
Done k s t =
    IsSound (counted k t)
    × (t.num_active ≡ s.num_active)
    × ((i : ℕ) → count i (take k t.new_indices) + flag (is_active s i) ≡ flag (is_active t i))

pub take_slots-Done :
    (k : ℕ) (s : Swarm)
    → IsSound s
    → k ≤ length s.free_indices
    → (t : Swarm) × (take_slots 0 k s ≡ ok t) × Done k s t
take_slots-Done k s h le =
    let start = renumbered-IsSound s s.new_indices_max_idx (s.num_active + 0) h (omega arith) in
    let (t, et, rest) = take_slots-ok 0 k s.free_indices s refl start le in
    let first : 0 + k ≡ k = omega arith in
    let slots : (i : ℕ)
        → count i (take (0 + k) t.new_indices) + flag (is_active s i) ≡ flag (is_active t i) =
      λ i. omega (arith, rest.new_slots i) in
    (
      t,
      et,
      (
        subst (λ m. IsSound (counted m t)) first rest.sound,
        rest.same_num,
        subst
            (λ m.
              (i : ℕ)
              → count i (take m t.new_indices) + flag (is_active s i) ≡ flag (is_active t i))
            first slots,
      ),
    )

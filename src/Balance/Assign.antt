-- ===== src/Balance/Assign.antt =====
-- AssignBlocks of src/mesh/mesh-amr_loadbalance.cpp. Costs are doubles: their arithmetic is a
-- parameter.
use mathlib.Core.List.{reverse, reverse-cons}
use parthenon.Base.{
  ℕ, ◌+◌, ◌-◌, ltb, ◌&&◌, if◌then◌else◌, Bool, List, [], ◌∷◌, length, Result, ok, err, ◌≡◌, ◌⊎◌,
  inl, inr, refl, ap, arith, Bool-cases, length-append,
}

-- The arithmetic of `double` that the routine uses; no law of it is assumed.
pub record Costs : Type 1 where
  pub Cost : Type 0
  pub zero_cost : Cost
  pub add : Cost → Cost → Cost
  pub sub : Cost → Cost → Cost
  pub share : Cost → ℕ → Cost
  pub at_least : Cost → Cost → Bool
  pub is_zero : Cost → Bool

pub data Error : Type 0 where
  rank_without_block : Error

module _ (c : Costs) where
  open c use {Cost, zero_cost, add, sub, share, at_least, is_zero}

  unfoldable pub total : List Cost → Cost → Cost
  total [] acc = acc
  total (x ∷ xs) acc = total xs (add acc x)

  -- The loop over the blocks from the last to the first; `done` are the ranks of the later blocks.
  unfoldable pub assign : List Cost → ℕ → Cost → Cost → Cost → List ℕ → Result Error (List ℕ)
  assign [] rank target mine remaining done = ok done
  assign (x ∷ xs) rank target mine remaining done =
      let mine' = add mine x in
      let left = sub remaining mine' in
      let next = assign xs (rank - 1) (share left rank) zero_cost left (rank ∷ done) in
      let same = assign xs rank target mine' remaining (rank ∷ done) in
      if is_zero target
      then err rank_without_block
      else (if at_least mine' target && ltb 0 rank then next else same)

  unfoldable pub assign_blocks : ℕ → List Cost → Result Error (List ℕ)
  assign_blocks nranks costs =
      let all = total costs zero_cost in
      assign (reverse costs) (nranks - 1) (share all nranks) zero_cost all []

-- Blocks of one rank are next to one another, in the order of the ranks, and no rank is left out.
abbrev pub Stepwise : List ℕ → Type 0
Stepwise [] = Unit
Stepwise (r ∷ []) = Unit
Stepwise (r ∷ s ∷ rs) = ((s ≡ r) ⊎ (s ≡ r + 1)) × Stepwise (s ∷ rs)

-- The last entry.
abbrev pub EndsAt : ℕ → List ℕ → Type 0
EndsAt top [] = Unit
EndsAt top (r ∷ []) = r ≡ top
EndsAt top (r ∷ s ∷ rs) = EndsAt top (s ∷ rs)

-- What the loop can put in front of the ranks that it has assigned.
abbrev Fits : ℕ → List ℕ → Type 0
Fits rank [] = Unit
Fits rank (r ∷ rs) = (r ≡ rank) ⊎ (r ≡ rank + 1)

abbrev Starts : ℕ → ℕ → List ℕ → Type 0
Starts top rank [] = rank ≡ top
Starts top rank (r ∷ rs) = Unit

Stepwise-cons : (rank : ℕ) (rs : List ℕ) → Fits rank rs → Stepwise rs → Stepwise (rank ∷ rs)
Stepwise-cons rank [] f s = tt
Stepwise-cons rank (r ∷ rs) f s = (f, s)

EndsAt-cons :
    (top rank : ℕ) (rs : List ℕ) → Starts top rank rs → EndsAt top rs → EndsAt top (rank ∷ rs)
EndsAt-cons top rank [] f s = f
EndsAt-cons top rank (r ∷ rs) f s = s

length-reverse {ℓ} : {A : Type ℓ} (xs : List A) → length (reverse xs) ≡ length xs
length-reverse [] = refl
length-reverse (x ∷ xs) =
    omega
      (arith, ap length (reverse-cons x xs), length-append (reverse xs) (x ∷ []), length-reverse xs)

module _ (c : Costs) where
  open c use {Cost, zero_cost, add, sub, share, at_least, is_zero}

  assign-Stepwise :
      (xs : List Cost) (rank : ℕ) (target mine remaining : Cost) (done : List ℕ) (top : ℕ)
      → Fits rank done
      → Starts top rank done
      → Stepwise done
      → EndsAt top done
      → {rs : List ℕ} → assign c xs rank target mine remaining done ≡ ok rs
      → Stepwise rs × EndsAt top rs × (length rs ≡ length xs + length done)
  unfolding assign
  assign-Stepwise [] rank target mine remaining done top f b s e {rs} h =
      let same : done ≡ rs = cc in rw (← same) (s, e, omega arith)
  assign-Stepwise (x ∷ xs) rank target mine remaining done top f b s e {rs} h =
      elim (Bool-cases (is_zero target)) [
        | inl z ↦ absurd (ground arith)
        | inr z ↦ elim (Bool-cases (at_least (add mine x) target && ltb 0 rank)) [
          | inl t ↦ counted (
              assign-Stepwise xs (rank - 1) _ zero_cost _ (rank ∷ done) top (ground arith) tt s' e'
                (rw (z, t) at h))
          | inr t ↦ counted (
              assign-Stepwise xs rank target (add mine x) remaining (rank ∷ done) top (ground arith)
                tt s' e' (rw (z, t) at h))
        ]
      ]
    where
      s' : Stepwise (rank ∷ done)
      s' = Stepwise-cons rank done f s

      e' : EndsAt top (rank ∷ done)
      e' = EndsAt-cons top rank done b e

      counted :
          Stepwise rs × EndsAt top rs × (length rs ≡ length xs + length (rank ∷ done))
          → Stepwise rs × EndsAt top rs × (length rs ≡ length (x ∷ xs) + length done)
      counted (p, q, n) = (p, q, omega arith)

  -- Where AssignBlocks gives ranks, every block has one, the ranks of neighbouring blocks are equal
  -- or go up by one, and the last block is on the last rank, whatever the arithmetic of the costs.
  pub assign_blocks-Stepwise :
      (nranks : ℕ) (costs : List Cost) {ranks : List ℕ}
      → assign_blocks c nranks costs ≡ ok ranks
      → Stepwise ranks × EndsAt (nranks - 1) ranks × (length ranks ≡ length costs)
  unfolding assign_blocks
  assign_blocks-Stepwise nranks costs h =
      let (s, e, n) =
        assign-Stepwise (reverse costs) (nranks - 1) _ zero_cost _ [] (nranks - 1) tt refl tt tt
          h in
      (s, e, omega (arith, n, length-reverse costs))

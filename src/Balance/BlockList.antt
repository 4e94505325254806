-- ===== src/Balance/BlockList.antt =====
-- UpdateBlockList of src/mesh/mesh-amr_loadbalance.cpp: the first block and the number of blocks of each
-- rank.
use parthenon.Base.{
  ℕ, zero, suc, ◌+◌, ◌-◌, ◌<◌, ◌≤◌, ◌==◌, if◌then◌else◌, true, ltb, some, List, [], ◌∷◌, length,
  get_elem?, get_or, set, length-set, ◌≡◌, inl, inr, refl, sym, subst, arith, All, Bool-cases,
  count,
}
use parthenon.Balance.Assign.{Stepwise}

abbrev pub entry : List ℕ → ℕ → ℕ
entry xs i = get_or xs i 0

-- The loop from block `id` on, where `prev` is the rank of the block before; a write out of bounds, which
-- the source must not make, is lost.
unfoldable pub walk : List ℕ → ℕ → ℕ → ℕ → List ℕ → List ℕ → List ℕ × List ℕ
walk [] prev id rank ns nb = (ns, set nb rank (id - entry ns rank))
walk (r ∷ rs) prev id rank ns nb =
    let same = walk rs r (id + 1) rank ns nb in
    let next =
      walk rs r (id + 1) (rank + 1) (set ns (rank + 1) id) (set nb rank (id - entry ns rank)) in
    if r == prev then same else next

-- The two lists have one entry for each rank, as after the calls of `resize`.
unfoldable pub update_block_list : List ℕ → List ℕ → List ℕ → List ℕ × List ℕ
unfolding walk
update_block_list [] ns nb = walk [] 0 0 0 (set ns 0 0) nb
update_block_list (r ∷ rs) ns nb = walk rs r 1 0 (set ns 0 0) nb

get_or-set_self : (xs : List ℕ) (i v : ℕ) → i < length xs → entry (set xs i v) i ≡ v
get_or-set_self [] i v h = absurd (omega arith)
get_or-set_self (x ∷ xs) zero v h = refl
get_or-set_self (x ∷ xs) (suc i) v h = get_or-set_self xs i v (omega arith)

get_or-set_ne : (xs : List ℕ) (i j v : ℕ) → j < i → entry (set xs i v) j ≡ entry xs j
get_or-set_ne [] i j v h = refl
get_or-set_ne (x ∷ xs) zero j v h = absurd (omega arith)
get_or-set_ne (x ∷ xs) (suc i) zero v h = refl
get_or-set_ne (x ∷ xs) (suc i) (suc j) v h = get_or-set_ne xs i j v (omega arith)

-- Block `i` is one of the blocks that the lists give to rank `r`.
abbrev pub Holds : List ℕ × List ℕ → ℕ → ℕ → Type 0
Holds l r i = (entry l.0 r ≤ i) × (i < entry l.0 r + entry l.1 r)

-- What the loop leaves and what it finds.
record Walked (rs : List ℕ) (id rank : ℕ) (ns nb : List ℕ) (l : List ℕ × List ℕ) : Type 0 where
  frame_ns : (j : ℕ) → j ≤ rank → entry l.0 j ≡ entry ns j
  frame_nb : (j : ℕ) → j < rank → entry l.1 j ≡ entry nb j
  closed : id ≤ entry l.0 rank + entry l.1 rank
  holds : (i r : ℕ) → get_elem? rs i ≡ some r → Holds l r (id + i)
  counted : entry l.1 rank ≡ id - entry ns rank + count rank rs
  counted_later : (i r : ℕ) → get_elem? rs i ≡ some r → rank < r → entry l.1 r ≡ count r rs

-- Ranks do not go down.
count_before : (x r : ℕ) (rs : List ℕ) → Stepwise (r ∷ rs) → x < r → count x rs ≡ 0
count_before x r [] s h = refl
count_before x r (y ∷ rs) (inl k, s) h =
    let rest = count_before x y rs s (omega arith) in ground (arith, rest)
count_before x r (y ∷ rs) (inr k, s) h =
    let rest = count_before x y rs s (omega arith) in ground (arith, rest)

same-Walked :
    (rs : List ℕ) (id rank : ℕ) (ns nb : List ℕ) (l : List ℕ × List ℕ)
    → entry ns rank < id
    → Walked rs (id + 1) rank ns nb l
    → Walked (rank ∷ rs) id rank ns nb l
same-Walked rs id rank ns nb l lt w = record {
  frame_ns = w.frame_ns;
  frame_nb = w.frame_nb;
  closed = omega (arith, w.closed);
  holds = hold;
  counted = ground (arith, w.counted);
  counted_later = later;
}
  where
    later :
        (i r : ℕ) → get_elem? (rank ∷ rs) i ≡ some r → rank < r → entry l.1 r ≡ count r (rank ∷ rs)
    later zero r h k = let e : rank ≡ r = cc in absurd (omega arith)
    later (suc i) r h k = let rest = w.counted_later i r h k in ground (arith, rest)

    hold : (i r : ℕ) → get_elem? (rank ∷ rs) i ≡ some r → Holds l r (id + i)
    hold zero r h =
        let e : rank ≡ r = cc in
        let k : Holds l rank (id + zero) =
          (omega (arith, w.frame_ns rank (omega arith)), omega (arith, w.closed)) in
        rw e at k
    hold (suc i) r h = let k = w.holds i r h in (omega (arith, k.0), omega (arith, k.1))

next-Walked :
    (rs : List ℕ) (id rank : ℕ) (ns nb : List ℕ) (l : List ℕ × List ℕ)
    → Stepwise ((rank + 1) ∷ rs)
    → rank + 1 < length ns
    → length nb ≡ length ns
    → entry ns rank < id
    → Walked rs (id + 1) (rank + 1) (set ns (rank + 1) id) (set nb rank (id - entry ns rank)) l
    → Walked ((rank + 1) ∷ rs) id rank ns nb l
next-Walked rs id rank ns nb l st b e lt w = record {
  frame_ns = λ j h.
      omega (arith, w.frame_ns j (omega arith), get_or-set_ne ns (rank + 1) j id (omega arith));
  frame_nb = λ j h.
      omega (arith, w.frame_nb j (omega arith), get_or-set_ne nb rank j (id - entry ns rank) h);
  closed = omega (
    arith,
    w.frame_ns rank (omega arith),
    get_or-set_ne ns (rank + 1) rank id (omega arith),
    w.frame_nb rank (omega arith),
    get_or-set_self nb rank (id - entry ns rank) (omega arith),
  );
  holds = hold;
  counted = ground (
    arith,
    w.frame_nb rank (omega arith),
    get_or-set_self nb rank (id - entry ns rank) (omega arith),
    count_before rank (rank + 1) rs st (omega arith),
  );
  counted_later = later;
}
  where
    own : entry l.1 (rank + 1) ≡ count (rank + 1) ((rank + 1) ∷ rs)
    own = ground (arith, w.counted, get_or-set_self ns (rank + 1) id b)

    later :
        (i r : ℕ)
        → get_elem? ((rank + 1) ∷ rs) i ≡ some r
        → rank < r
        → entry l.1 r ≡ count r ((rank + 1) ∷ rs)
    later zero r h k =
        let e : rank + 1 ≡ r = cc in subst (λ x. entry l.1 x ≡ count x ((rank + 1) ∷ rs)) e own
    later (suc i) r h k = elim (Bool-cases (ltb (rank + 1) r)) [
      | inl e ↦ let rest = w.counted_later i r h (ground arith) in ground (arith, rest)
      | inr e ↦
          let same : rank + 1 ≡ r = ground arith in
          subst (λ x. entry l.1 x ≡ count x ((rank + 1) ∷ rs)) same own
    ]

    hold : (i r : ℕ) → get_elem? ((rank + 1) ∷ rs) i ≡ some r → Holds l r (id + i)
    hold zero r h =
        let e : rank + 1 ≡ r = cc in
        let k : Holds l (rank + 1) (id + zero) = (
          omega (arith, w.frame_ns (rank + 1) (omega arith), get_or-set_self ns (rank + 1) id b),
          omega (arith, w.closed),
        ) in
        rw e at k
    hold (suc i) r h = let k = w.holds i r h in (omega (arith, k.0), omega (arith, k.1))

walk-same :
    (rs : List ℕ) (id rank : ℕ) (ns nb : List ℕ)
    → walk (rank ∷ rs) rank id rank ns nb ≡ walk rs rank (id + 1) rank ns nb
unfolding walk
walk-same rs id rank ns nb = ground arith

walk-next :
    (rs : List ℕ) (id rank : ℕ) (ns nb : List ℕ)
    → walk ((rank + 1) ∷ rs) rank id rank ns nb
      ≡ walk rs
          (rank + 1)
          (id + 1)
          (rank + 1)
          (set ns (rank + 1) id)
          (set nb rank (id - entry ns rank))
unfolding walk
walk-next rs id rank ns nb = ground arith

Bounded-set :
    (rs xs : List ℕ) (i v : ℕ) → All (λ r. r < length xs) rs → All (λ r. r < length (set xs i v)) rs
Bounded-set rs xs i v h = rw (length-set xs i v) h

walk-Walked :
    (rs : List ℕ) (id rank : ℕ) (ns nb : List ℕ)
    → Stepwise (rank ∷ rs)
    → All (λ r. r < length ns) (rank ∷ rs)
    → length nb ≡ length ns
    → entry ns rank < id
    → Walked rs id rank ns nb (walk rs rank id rank ns nb)
unfolding walk
walk-Walked [] id rank ns nb s b e lt = record {
  frame_ns = λ j h. refl;
  frame_nb = λ j h. get_or-set_ne nb rank j (id - entry ns rank) h;
  closed = omega (arith, get_or-set_self nb rank (id - entry ns rank) (omega (arith, b.0)));
  holds = λ i r h. cc;
  counted = omega (arith, get_or-set_self nb rank (id - entry ns rank) (omega (arith, b.0)));
  counted_later = λ i r h. cc;
}
walk-Walked (r ∷ rs) id rank ns nb (inl k, s) b e lt =
    subst (λ x. Walked (x ∷ rs) id rank ns nb (walk (x ∷ rs) rank id rank ns nb)) (sym k)
      (rw (walk-same rs id rank ns nb) (
        same-Walked rs id rank ns nb _ lt (
          walk-Walked rs (id + 1) rank ns nb (subst (λ x. Stepwise (x ∷ rs)) k s) (b.0, b.1.1) e
            (omega arith))))
walk-Walked (r ∷ rs) id rank ns nb (inr k, s) b e lt =
    let top : rank + 1 < length ns = omega (arith, b.1.0, k) in
    subst (λ x. Walked (x ∷ rs) id rank ns nb (walk (x ∷ rs) rank id rank ns nb)) (sym k)
      (rw (walk-next rs id rank ns nb) (
        next-Walked rs id rank ns nb _ (subst (λ x. Stepwise (x ∷ rs)) k s) top e lt (
          walk-Walked rs (id + 1) (rank + 1) (set ns (rank + 1) id)
            (set nb rank (id - entry ns rank)) (subst (λ x. Stepwise (x ∷ rs)) k s)
            (Bounded-set ((rank + 1) ∷ rs) ns (rank + 1) id (top, b.1.1))
            (omega (arith, length-set ns (rank + 1) id, length-set nb rank (id - entry ns rank), e))
            (omega (arith, get_or-set_self ns (rank + 1) id top)))))

first-Walked :
    (rs ns nb : List ℕ)
    → Stepwise (0 ∷ rs)
    → All (λ s. s < length ns) (0 ∷ rs)
    → length nb ≡ length ns
    → Walked rs 1 0 (set ns 0 0) nb (update_block_list (0 ∷ rs) ns nb)
unfolding update_block_list
first-Walked rs ns nb st b e =
    walk-Walked rs 1 0 (set ns 0 0) nb st (Bounded-set (0 ∷ rs) ns 0 0 b)
      (omega (arith, length-set ns 0 0, e)) (omega (arith, get_or-set_self ns 0 0 b.0))

first-Holds :
    (rs ns nb : List ℕ) {l : List ℕ × List ℕ}
    → All (λ s. s < length ns) (0 ∷ rs)
    → Walked rs 1 0 (set ns 0 0) nb l
    → (i s : ℕ) → get_elem? (0 ∷ rs) i ≡ some s
    → Holds l s i
first-Holds rs ns nb {l} b w zero s h =
    let k : Holds l 0 0 = (
      omega (arith, w.frame_ns 0 (omega arith), get_or-set_self ns 0 0 b.0),
      omega (arith, w.closed),
    ) in
    let same : 0 ≡ s = cc in subst (λ x. Holds l x 0) same k
first-Holds rs ns nb {l} b w (suc i) s h =
    let k = w.holds i s h in (omega (arith, k.0), omega (arith, k.1))

first_counted :
    (rs ns nb : List ℕ) {l : List ℕ × List ℕ}
    → Walked rs 1 0 (set ns 0 0) nb l
    → (i s : ℕ) → get_elem? (0 ∷ rs) i ≡ some s
    → ltb 0 s ≡ true
    → entry l.1 s ≡ count s (0 ∷ rs)
first_counted rs ns nb w zero s h k = let same : 0 ≡ s = cc in absurd (ground arith)
first_counted rs ns nb w (suc i) s h k =
    let rest = w.counted_later i s h (ground arith) in ground (arith, rest)

-- For ranks that start at 0, of which neighbouring ones are equal or go up by one and all are less
-- than the number of entries of both lists, UpdateBlockList leaves for every rank that has a block
-- a first block and a number of blocks such that every block lies in the range of its own rank, and
-- the number is that of the blocks of the rank.
pub update_block_list-Holds :
    (rs ns nb : List ℕ)
    → Stepwise (0 ∷ rs)
    → All (λ s. s < length ns) (0 ∷ rs)
    → length nb ≡ length ns
    → (i s : ℕ) → get_elem? (0 ∷ rs) i ≡ some s
    → Holds (update_block_list (0 ∷ rs) ns nb) s i
      × (entry (update_block_list (0 ∷ rs) ns nb).1 s ≡ count s (0 ∷ rs))
update_block_list-Holds rs ns nb st b e i s h =
    let w = first-Walked rs ns nb st b e in
    let start = get_or-set_self ns 0 0 b.0 in
    (
      first-Holds rs ns nb b w i s h,
      elim (Bool-cases (ltb 0 s)) [
        | inl k ↦ first_counted rs ns nb w i s h k
        | inr k ↦ let same : s ≡ 0 = ground arith in rw same (ground (arith, w.counted, start))
      ],
    )

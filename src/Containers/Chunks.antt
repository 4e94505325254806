-- ===== src/Containers/Chunks.antt =====
-- What the partitions of src/utils/partition_stl_containers.hpp hold.
use parthenon.Base.{
  ℕ, zero, suc, ◌+◌, ◌-◌, ◌*◌, ◌/◌, ◌^◌, ◌≤◌, ◌<◌, ltb, leb, true, false, List, [], ◌∷◌, ◌++◌,
  length, replicate, ok, err, ◌≡◌, refl, ap, sym, ◌∙◌, arith, Bool-cases, inl, inr, length-append,
  append_assoc, append_nil, subst,
}
use parthenon.Base.Int.{pos, eqb_ℤ, wrap32-id}
use native.Mathlib.Omega.{div_fact, mod_fact}
use native.Mathlib.Nat.{mul-suc, lt_of_mul-lt-mul_left, mul_comm}
use parthenon.Containers.Partition.{
  size_zero, ceil_div, int_ceil, nelements, push_back, fill, to_size_n, to_n_partitions,
}

-- The room that k partitions of size n have.
room : ℕ → ℕ → ℕ
room n zero = 0
room n (suc k) = n + room n k

room-mul : (n k : ℕ) → room n k ≡ n * k
unfolding room
room-mul n zero = omega arith
room-mul n (suc k) = ap (λ m. n + m) (room-mul n k) ∙ omega (arith, mul-suc n k)

ceil_div-room :
    (x n : ℕ)
    → 0 < n
    → 0 < x
    → (k : ℕ) × (ceil_div x n ≡ suc k) × (room n k < x) × (x ≤ room n (suc k))
unfolding ceil_div room
ceil_div-room x zero h g = absurd (omega arith)
ceil_div-room x (suc n) h g =
    let k = (x - 1) / suc n in
    let fact = div_fact (x - 1) n in
    let volume = room-mul (suc n) k in
    let positive : ltb 0 x ≡ true = ground arith in
    (
      k,
      rw positive (omega arith),
      omega (arith, volume, fact),
      omega (arith, volume, fact, mod_fact (x - 1) n),
    )

module _ {A : Type 0} where
  abbrev pub concat : List (List A) → List A
  concat [] = []
  concat (part ∷ parts) = part ++ concat parts

  -- All partitions have n elements but the last, which has at least one and at most n.
  abbrev pub Sized : ℕ → List (List A) → Type 0
  Sized n [] = Unit
  Sized n (part ∷ []) = (0 < length part) × (length part ≤ n)
  Sized n (part ∷ next ∷ parts) = (length part ≡ n) × Sized n (next ∷ parts)

  push_back-at :
      (done : List (List A)) (part : List A) (rest : List (List A)) (x : A)
      → push_back (done ++ part ∷ rest) (length done) x ≡ done ++ (part ++ x ∷ []) ∷ rest
  unfolding push_back
  push_back-at [] part rest x = refl
  push_back-at (d ∷ done) part rest x = ap (λ l. d ∷ l) (push_back-at done part rest x)

  cons-Sized :
      (n : ℕ) (part : List A) (out : List (List A))
      → length part ≡ n
      → 0 < length out
      → Sized n out
      → Sized n (part ∷ out)
  cons-Sized n part [] h g k = absurd (omega arith)
  cons-Sized n part (next ∷ out) h g k = (h, k)

  -- What the loop makes of the elements that are left, where `part` is the partition it fills.
  IsFilled : ℕ → List (List A) → List A → ℕ → List A → Type 0
  IsFilled n done part k xs =
      (out : List (List A)) × (fill n (done ++ part ∷ replicate k []) (length done) (length part) xs
        ≡ done ++ out)
      × (concat out ≡ part ++ xs)
      × (length out ≡ suc k)
      × Sized n out

  -- No partition is left over.
  last_part :
      (n : ℕ) (done : List (List A)) (part : List A) (k : ℕ)
      → length part ≤ n
      → room n k < length part
      → (out : List (List A)) × (done ++ part ∷ replicate k [] ≡ done ++ out)
        × (concat out ≡ part)
        × (length out ≡ suc k)
        × Sized n out
  unfolding room
  last_part n done part zero h g = (part ∷ [], refl, append_nil part, refl, (omega arith, h))
  last_part n done part (suc k) h g = absurd (omega arith)

  length-snoc : (part : List A) (x : A) → length (part ++ x ∷ []) ≡ suc (length part)
  length-snoc part x = omega (arith, length-append part (x ∷ []))

  goes_on :
      (n : ℕ) (done : List (List A)) (part : List A) (k : ℕ) (x : A) (xs : List A)
      → leb n (suc (length part)) ≡ false
      → IsFilled n done (part ++ x ∷ []) k xs
      → IsFilled n done part k (x ∷ xs)
  unfolding IsFilled fill
  goes_on n done part k x xs open_part (out, filled, all, size, sized) = (
    out,
    rw (open_part, push_back-at done part (replicate k []) x)
        (ap (λ b. fill n (done ++ (part ++ x ∷ []) ∷ replicate k []) (length done) b xs)
            (sym (length-snoc part x))
          ∙ filled),
    all ∙ append_assoc part (x ∷ []) xs,
    size,
    sized,
  )

  -- The part is full with x.
  last_element :
      (n : ℕ) (done : List (List A)) (part : List A) (k : ℕ) (x : A)
      → length part < n
      → room n k < length part + 1
      → IsFilled n done part k (x ∷ [])
  unfolding IsFilled fill
  last_element n done part k x h g =
      let (out, same, all, size, sized) =
        last_part n done (part ++ x ∷ []) k (omega (arith, length-snoc part x))
          (omega (arith, length-snoc part x)) in
      (out, push_back-at done part (replicate k []) x ∙ same, all, size, sized)

  next_part :
      (n : ℕ) (done : List (List A)) (part : List A) (j : ℕ) (x : A) (xs : List A)
      → suc (length part) ≡ n
      → IsFilled n (done ++ (part ++ x ∷ []) ∷ []) [] j xs
      → IsFilled n done part (suc j) (x ∷ xs)
  unfolding IsFilled fill
  next_part n done part j x xs h (out, filled, all, size, sized) =
      let full : leb n (suc (length part)) ≡ true = ground arith in
      let c = part ++ x ∷ [] in
      let counted : length (done ++ c ∷ []) ≡ suc (length done) =
        omega (arith, length-append done (c ∷ [])) in
      (
        c ∷ out,
        rw (full, push_back-at done part (replicate (suc j) []) x)
            (ap (λ p. fill n (done ++ c ∷ [] ∷ replicate j []) p 0 xs) (sym counted)
              ∙ ap (λ ps. fill n ps (length (done ++ c ∷ [])) 0 xs)
                  (sym (append_assoc done (c ∷ []) ([] ∷ replicate j [])))
              ∙ filled
              ∙ append_assoc done (c ∷ []) out),
        ap (λ l. c ++ l) all ∙ append_assoc part (x ∷ []) xs,
        ap suc size,
        cons-Sized n c out (length-snoc part x ∙ h) (omega (arith, size)) sized,
      )

  ends_part :
      (n : ℕ) (done : List (List A)) (part : List A) (k : ℕ) (x : A) (xs : List A)
      → suc (length part) ≡ n
      → room n k < length part + suc (length xs)
      → length part + suc (length xs) ≤ room n (suc k)
      → ((j : ℕ)
          → room n j < length xs
          → length xs ≤ room n (suc j)
          → IsFilled n (done ++ (part ++ x ∷ []) ∷ []) [] j xs)
      → IsFilled n done part k (x ∷ xs)
  unfolding room
  ends_part n done part k x [] h g l rest = last_element n done part k x (omega arith) (omega arith)
  ends_part n done part zero x (y ∷ ys) h g l rest = absurd (omega arith)
  ends_part n done part (suc j) x (y ∷ ys) h g l rest =
      next_part n done part j x (y ∷ ys) h (rest j (omega arith) (omega arith))

  fill-IsFilled :
      (n : ℕ) (done : List (List A)) (part : List A) (k : ℕ) (xs : List A)
      → length part < n
      → room n k < length part + length xs
      → length part + length xs ≤ room n (suc k)
      → IsFilled n done part k xs
  unfolding fill IsFilled
  fill-IsFilled n done part k [] h g l =
      let (out, same, all, size, sized) = last_part n done part k (omega arith) (omega arith) in
      (out, same, all ∙ sym (append_nil part), size, sized)
  fill-IsFilled n done part k (x ∷ xs) h g l = elim (Bool-cases (leb n (suc (length part)))) [
    | inl full ↦ ends_part n done part k x xs (ground arith) g l (λ j u v.
        fill-IsFilled n (done ++ (part ++ x ∷ []) ∷ []) [] j xs (omega arith) (omega (arith, u))
          (omega (arith, v)))
    | inr open_part ↦ goes_on n done part k x xs open_part (
        fill-IsFilled n done (part ++ x ∷ []) k xs (ground (arith, length-snoc part x))
          (omega (arith, length-snoc part x)) (omega (arith, length-snoc part x)))
  ]

nelements-fits :
    {A : Type 0} (container : List A)
    → length container < 2 ^ 31
    → nelements container ≡ pos (length container)
nelements-fits container h = wrap32-id (length container) h

-- ToSizeN with a size above 0, of a container with fewer than 2^31 elements, succeeds, and its
-- partitions, joined, are the elements of the container in their order: as many partitions as
-- IntCeil gives, all of the size but the last, which is not empty and not larger.
pub to_size_n-Sized :
    {A : Type 0} (container : List A) (n : ℕ)
    → 0 < n
    → length container < 2 ^ 31
    → (parts : List (List A)) × (to_size_n container (pos n) ≡ ok parts)
      × (concat parts ≡ container)
      × (int_ceil (pos (length container)) (pos n) ≡ pos (length parts))
      × Sized n parts
unfolding to_size_n fill int_ceil ceil_div IsFilled
to_size_n-Sized {A} [] n h fits =
    let positive : ltb 0 n ≡ true = ground arith in
    ([], rw (positive, nelements-fits {A = A} [] fits) refl, refl, refl, tt)
to_size_n-Sized (x ∷ xs) n h fits =
    let positive : ltb 0 n ≡ true = ground arith in
    let (k, parts, below, above) = ceil_div-room (length (x ∷ xs)) n h (omega arith) in
    let (out, filled, all, size, sized) =
      fill-IsFilled n [] [] k (x ∷ xs) h (omega (arith, below)) (omega (arith, above)) in
    (
      out,
      rw (positive, nelements-fits (x ∷ xs) fits, parts) (ap ok filled),
      all,
      ap pos (parts ∙ sym size),
      sized,
    )

ceil_div_positive : (x n : ℕ) → 0 < x → 0 < ceil_div x n
unfolding ceil_div
ceil_div_positive x n h = ground arith

-- x elements in partitions of the size that IntCeil gives for n of them are at most n partitions.
ceil_div_twice : (x n : ℕ) → 0 < n → 0 < x → ceil_div x (ceil_div x n) ≤ n
unfolding room
ceil_div_twice x n h g =
    let (j, size, below, above) = ceil_div-room x n h g in
    let (k, parts, below2, above2) = ceil_div-room x (ceil_div x n) (ceil_div_positive x n g) g in
    let held : ceil_div x n * k < x = subst (λ m. m < x) (room-mul (ceil_div x n) k) below2 in
    let wide : x ≤ n * ceil_div x n = rw size (subst (λ m. x ≤ m) (room-mul n (suc j)) above) in
    let less : ceil_div x n * k < ceil_div x n * n =
      omega (arith, held, wide, mul_comm n (ceil_div x n)) in
    rw parts (lt_of_mul-lt-mul_left (ceil_div x n) less)

int_ceil-ceil_div : (x n : ℕ) → int_ceil (pos x) (pos n) ≡ pos (ceil_div x n)
unfolding int_ceil
int_ceil-ceil_div x n = refl

int_ceil-pos : (x n k : ℕ) → int_ceil (pos x) (pos n) ≡ pos k → ceil_div x n ≡ k
unfolding int_ceil
int_ceil-pos x n k h = cc

-- ToNPartitions of an empty container fails, whatever the number of partitions. Of another, with a
-- number that is above 0, and no more elements than an `int` counts, it gives at most that many
-- partitions, which hold its elements in their order.
pub to_n_partitions_cases :
    {A : Type 0} (n : ℕ)
    → (to_n_partitions {A = A} [] (pos n) ≡ err size_zero)
      × ((x : A) (xs : List A)
          → 0 < n
          → length (x ∷ xs) < 2 ^ 31
          → (parts : List (List A)) × (to_n_partitions (x ∷ xs) (pos n) ≡ ok parts)
            × (concat parts ≡ x ∷ xs)
            × (length parts ≤ n))
unfolding to_n_partitions
to_n_partitions_cases {A} n = (
  rw (nelements-fits {A = A} [] (omega arith)) (unfold to_size_n int_ceil ceil_div in ground arith),
  λ x xs h fits.
      let size = ceil_div (length (x ∷ xs)) n in
      let (parts, made, all, number, sized) =
        to_size_n-Sized (x ∷ xs) size (ceil_div_positive (length (x ∷ xs)) n (omega arith)) fits in
      let k : ceil_div (length (x ∷ xs)) size ≡ length parts =
        int_ceil-pos (length (x ∷ xs)) size (length parts) number in
      let nonzero : eqb_ℤ (pos n) (pos 0) ≡ false = ground arith in
      (
        parts,
        rw (nelements-fits (x ∷ xs) fits, nonzero, int_ceil-ceil_div (length (x ∷ xs)) n) made,
        all,
        omega (arith, k, ceil_div_twice (length (x ∷ xs)) n h (omega arith)),
      ),
)

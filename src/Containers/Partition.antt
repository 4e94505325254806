-- ===== src/Containers/Partition.antt =====
-- IntCeil, ToSizeN and ToNPartitions of src/utils/partition_stl_containers.hpp.
use parthenon.Base.{
  ℕ, zero, suc, ◌+◌, ◌-◌, ◌/◌, ltb, leb, if◌then◌else◌, List, [], ◌∷◌, ◌++◌, length, replicate,
  Result, ok, err, guard, ◌>>◌, not, ◌&&◌,
}
use parthenon.Base.Int.{ℤ, pos, negsuc, ◌-ℤ◌, wrap32, eqb_ℤ, ltb_ℤ}

pub data Error : Type 0 where
  size_zero : Error
  -- A vector of a negative size is asked for.
  length_error : Error
  division_by_zero : Error

-- IntCeil of two numbers that are not negative.
unfoldable pub ceil_div : ℕ → ℕ → ℕ
ceil_div x y = if ltb 0 x then 1 + (x - 1) / y else 0

-- `/` on an `int` rounds towards 0. A division by 0, which has no result, is 0 here.
unfoldable pub int_ceil : ℤ → ℤ → ℤ
unfolding ceil_div
int_ceil (negsuc x) y = pos 0
int_ceil (pos x) (pos y) = pos (ceil_div x y)
int_ceil (pos x) (negsuc y) = if ltb 0 x then pos 1 -ℤ pos ((x - 1) / suc y) else pos 0

-- container.size() as the `int` that it is stored in.
abbrev pub nelements {ℓ} : {A : Type ℓ} → List A → ℤ
nelements container = wrap32 (pos (length container))

module _ {A : Type 0} where
  -- partitions[p].push_back(element); past the end, which the source must not reach, it is lost.
  unfoldable pub push_back : List (List A) → ℕ → A → List (List A)
  push_back [] p element = []
  push_back (part ∷ parts) zero element = (part ++ element ∷ []) ∷ parts
  push_back (part ∷ parts) (suc p) element = part ∷ push_back parts p element

  -- The loop over the elements, with its counters p and b.
  unfoldable pub fill : ℕ → List (List A) → ℕ → ℕ → List A → List (List A)
  fill n partitions p b [] = partitions
  fill n partitions p b (element ∷ container) =
      let full = leb n (suc b) in
      fill n (push_back partitions p element) (if full then suc p else p)
        (if full then 0 else suc b) container

  unfoldable pub to_size_n : List A → ℤ → Result Error (List (List A))
  to_size_n container (negsuc n) = err size_zero
  to_size_n container (pos n) =
      guard (ltb 0 n) size_zero >> elim (int_ceil (nelements container) (pos n)) [
        | pos npartitions ↦ ok (fill n (replicate npartitions []) 0 0 container)
        | negsuc npartitions ↦ err length_error
      ]

  unfoldable pub to_n_partitions : List A → ℤ → Result Error (List (List A))
  to_n_partitions container n =
      guard (not (eqb_ℤ n (pos 0) && ltb_ℤ (pos 0) (nelements container))) division_by_zero
      >> to_size_n container (int_ceil (nelements container) n)

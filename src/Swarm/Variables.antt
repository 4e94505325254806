-- ===== src/Swarm/Variables.antt =====
-- The variables of a swarm: Add and Remove of src/interface/swarm.hpp and .cpp. Labels are only compared, so a
-- label is a number. A vector holds the labels of its variables, a map those under which it finds one.
use parthenon.Base.{
  ℕ, zero, suc, ◌+◌, ◌<◌, ltb, ◌==◌, ◌||◌, if◌then◌else◌, true, false, Option, none, some, List, [],
  ◌∷◌, ◌++◌, length, get_elem?, get_elem?-lt, set, Result, ok, err, ◌≡◌, refl, arith, Bool-cases,
  inl, inr, length-set, lt→ltb, count, contains, flag, sym, ap,
}

pub data VariableType : Type 0 where
  integer real other : VariableType

pub record Variables : Type 0 where
  pub ints : List ℕ
  pub reals : List ℕ
  pub int_map : List ℕ
  pub real_map : List ℕ

pub data Error : Type 0 where
  already_enrolled : Error
  no_valid_type : Error
  not_found : Error
  -- The vector is indexed past its end.
  out_of_bounds : Error

unfoldable pub add : ℕ → VariableType → Variables → Result Error Variables
add label type v =
    if contains label v.int_map || contains label v.real_map
    then err already_enrolled
    else elim type [
      | integer ↦ ok (record v { ints = v.ints ++ label ∷ []; int_map = label ∷ v.int_map })
      | real ↦ ok (record v { reals = v.reals ++ label ∷ []; real_map = label ∷ v.real_map })
      | other ↦ err no_valid_type
    ]

unfoldable pub index_of : ℕ → List ℕ → Option ℕ
index_of label [] = none
index_of label (l ∷ ls) =
    let rest = index_of label ls in
    if label == l then some 0 else elim rest [ none ↦ none | some i ↦ some (suc i) ]

unfoldable pub erase : ℕ → List ℕ → List ℕ
erase label [] = []
erase label (l ∷ ls) = let rest = erase label ls in if label == l then rest else l ∷ rest

unfoldable pub last_or : ℕ → List ℕ → ℕ
last_or d [] = d
last_or d (x ∷ xs) = last_or x xs

unfoldable pub pop_back : List ℕ → List ℕ
pop_back [] = []
pop_back (x ∷ []) = []
pop_back (x ∷ y ∷ xs) = x ∷ pop_back (y ∷ xs)

-- The last item takes the place of the one at `i`.
unfoldable pub drop_at : ℕ → List ℕ → List ℕ
drop_at i xs = pop_back (if ltb 1 (length xs) then set xs i (last_or 0 xs) else xs)

-- The branch for the reals, which is also entered after an integer has been removed.
unfoldable pub remove_real : ℕ → ℕ → Variables → Result Error Variables
remove_real label i v =
    if ltb i (length v.reals)
    then ok (record v { reals = drop_at i v.reals; real_map = erase label v.real_map })
    else err out_of_bounds

unfoldable pub remove : ℕ → Variables → Result Error Variables
remove label v = elim (index_of label v.ints) [
  | some i ↦
      remove_real label i (record v { ints = drop_at i v.ints; int_map = erase label v.int_map })
  | none ↦ elim (index_of label v.reals) [ some i ↦ remove_real label i v | none ↦ err not_found ]
]

count-pop_back :
    (x d : ℕ) (xs : List ℕ)
    → 0 < length xs
    → count x (pop_back xs) + flag (x == last_or d xs) ≡ count x xs
unfolding pop_back last_or
count-pop_back x d [] h = absurd (omega arith)
count-pop_back x d (y ∷ []) h = omega arith
count-pop_back x d (y ∷ z ∷ ys) h = omega (arith, count-pop_back x y (z ∷ ys))

count-set :
    (x : ℕ) (xs : List ℕ) (i y z : ℕ)
    → get_elem? xs i ≡ some y
    → count x (set xs i z) + flag (x == y) ≡ count x xs + flag (x == z)
count-set x [] i y z h = absurd cc
count-set x (w ∷ ws) zero y z h = let same : w ≡ y = cc in rw same (omega arith)
count-set x (w ∷ ws) (suc i) y z h = omega (arith, count-set x ws i y z h)

-- What the search finds behind an item that is not the label.
later_index :
    (o : Option ℕ) (i : ℕ)
    → elim o as (λ p. Option ℕ) [ none ↦ none | some j ↦ some (suc j) ] ≡ some i
    → (j : ℕ) × (o ≡ some j) × (i ≡ suc j)
later_index none i h = absurd cc
later_index (some j) i h = (j, refl, let e : suc j ≡ i = cc in sym e)

index_of-get :
    (label : ℕ) (xs : List ℕ) (i : ℕ) → index_of label xs ≡ some i → get_elem? xs i ≡ some label
unfolding index_of
index_of-get label [] i h = absurd cc
index_of-get label (x ∷ xs) i h = elim (Bool-cases (label == x)) [
  | inl e ↦
      let same : label ≡ x = ground arith in
      let first : some 0 ≡ some i = rw e at h in
      let at : 0 ≡ i = cc in rw (sym at) (ap (λ k. some k) (sym same))
  | inr e ↦
      let behind : elim (index_of label xs) as (λ p. Option ℕ) [
        | none ↦ none
        | some j ↦ some (suc j)
      ]
          ≡ some i =
        rw e at h in
      let (j, found, at) = later_index (index_of label xs) i behind in
      rw at (index_of-get label xs j found)
]

last_or-set : (d i : ℕ) (xs : List ℕ) → last_or d (set xs i (last_or d xs)) ≡ last_or d xs
unfolding last_or
last_or-set d i [] = refl
last_or-set d zero (x ∷ []) = refl
last_or-set d zero (x ∷ y ∷ xs) = refl
last_or-set d (suc i) (x ∷ xs) = last_or-set x i xs

-- A variable less.
count-drop_at :
    (i x : ℕ) (xs : List ℕ)
    → get_elem? xs i ≡ some x
    → (y : ℕ) → count y (drop_at i xs) + flag (y == x) ≡ count y xs
unfolding drop_at pop_back
count-drop_at i x [] g y = absurd cc
count-drop_at zero x (w ∷ []) g y = let same : w ≡ x = cc in rw same (omega arith)
count-drop_at (suc i) x (w ∷ []) g y = absurd cc
count-drop_at i x (w ∷ z ∷ xs) g y =
    let several : ltb 1 (suc (suc (length xs))) ≡ true = ground arith in
    let len = length-set (w ∷ z ∷ xs) i (last_or 0 (w ∷ z ∷ xs)) in
    let popped =
      count-pop_back y 0 (set (w ∷ z ∷ xs) i (last_or 0 (w ∷ z ∷ xs))) (omega (arith, len)) in
    let end : flag (y == last_or 0 (set (w ∷ z ∷ xs) i (last_or 0 (w ∷ z ∷ xs))))
        ≡ flag (y == last_or 0 (w ∷ z ∷ xs)) =
      ap (λ k. flag (y == k)) (last_or-set 0 i (w ∷ z ∷ xs)) in
    rw several (omega (arith, popped, end, count-set y (w ∷ z ∷ xs) i x (last_or 0 (w ∷ z ∷ xs)) g))

contains-erase :
    (label x : ℕ) (xs : List ℕ) → (x == label) ≡ false → contains x (erase label xs) ≡ contains x xs
unfolding erase
contains-erase label x [] h = refl
contains-erase label x (y ∷ ys) h = ground (arith, contains-erase label x ys)

-- Where an integer variable stands at a position at which there is a real variable of another label
-- too, Remove of the integer succeeds and takes both out of their vectors, each once and nothing
-- else, while the map of the reals still has the label of the real.
pub remove-drops_real :
    (label i x : ℕ) (v : Variables)
    → index_of label v.ints ≡ some i
    → get_elem? v.reals i ≡ some x
    → (x == label) ≡ false
    → (w : Variables) × (remove label v ≡ ok w)
      × ((y : ℕ)
          → (count y w.ints + flag (y == label) ≡ count y v.ints)
            × (count y w.reals + flag (y == x) ≡ count y v.reals))
      × (contains x w.real_map ≡ contains x v.real_map)
unfolding remove remove_real
remove-drops_real label i x v found held differs =
    let near : ltb i (length v.reals) ≡ true =
      lt→ltb i (length v.reals) (get_elem?-lt v.reals i x held) in
    (
      record {
        ints = drop_at i v.ints;
        reals = drop_at i v.reals;
        int_map = erase label v.int_map;
        real_map = erase label v.real_map;
      },
      rw (remove, found, near) refl,
      λ y. (
        count-drop_at i label v.ints (index_of-get label v.ints i found) y,
        count-drop_at i x v.reals held y,
      ),
      contains-erase label x v.real_map differs,
    )

-- ===== src/Parameters/Vectors.antt =====
-- The vectors of src/parameter_input.hpp, whose items stand in one value with commas between them, and
-- `trim` of src/utils/string_utils.cpp.
use parthenon.Base.{
  ℕ, zero, suc, ◌≤◌, not, ◌||◌, if◌then◌else◌, Bool, false, List, [], ◌∷◌, ◌++◌, ◌≡◌, refl, arith,
  length, length-append, take, drop, Result, ok, ◌>>=◌, All,
}
use parthenon.Base.Int.{ℤ}
use parthenon.Base.Chars.{
  find_first, find_last, erase_before, erase_after, next, AllNot, find_first-none,
  find_first-append, take-length_append, drop-length_past,
}
use parthenon.Parameters.Store.{Chars, ParameterInput, Error, get_string, put, does_parameter_exist}
use parthenon.Parameters.Line.{is}
use parthenon.Parameters.Values.{Streams, to_int, stob, default_comment}
use parthenon.Parameters.ReadBack.{get_string-put, does_parameter_exist-put}

-- Not one of " \n\r\t\f\v".
abbrev pub not_white : ℕ → Bool
not_white c = not (is 32 c || is 10 c || is 13 c || is 9 c || is 12 c || is 11 c)

unfoldable pub trim : Chars → Chars
unfolding find_first find_last
trim s =
    let left = erase_before (find_first not_white s) s in
    erase_after (find_last not_white left) left

-- The loop that takes the text up to the first comma, with fuel for the number of commas.
unfoldable pub fields : ℕ → Chars → List Chars
unfolding find_first
fields zero s = trim s ∷ []
fields (suc n) s =
    next (λ i. trim (take i s) ∷ fields n (drop (suc i) s)) (trim s ∷ []) (find_first (is b',') s)

-- Every turn of the loop takes a comma, so that there are no more turns than bytes.
unfoldable pub get_vector : Chars → Chars → ParameterInput → Result Error (List Chars)
get_vector block name p = get_string block name p >>= λ s. ok (fields (length s) s)

unfoldable pub concat_vector : List Chars → Chars
concat_vector [] = []
concat_vector (x ∷ []) = x
concat_vector (x ∷ y ∷ xs) = x ++ b',' ∷ concat_vector (y ∷ xs)

-- GetVector of strings where the parameter exists, and otherwise the default, which is added.
unfoldable pub get_or_add_vector :
    Chars → Chars → List Chars → ParameterInput → Result Error (List Chars × ParameterInput)
get_or_add_vector block name def p =
    if does_parameter_exist block name p
    then (get_vector block name p >>= λ v. ok (v, p))
    else ok (def, put block name (concat_vector def) default_comment p)

unfoldable pub each {ℓ} :
    {A : Type ℓ} → (Chars → Result Error A) → List Chars → Result Error (List A)
each read [] = ok []
each read (s ∷ ss) = read s >>= λ x. each read ss >>= λ xs. ok (x ∷ xs)

module _ (io : Streams) where
  unfoldable pub get_vector_int : Chars → Chars → ParameterInput → Result Error (List ℤ)
  get_vector_int block name p = get_vector block name p >>= each (to_int io)

  unfoldable pub get_vector_real :
      Chars → Chars → ParameterInput → Result Error (List (Streams.Real io))
  get_vector_real block name p = get_vector block name p >>= each (λ s. ok (io.atof s))

  unfoldable pub get_vector_bool : Chars → Chars → ParameterInput → Result Error (List Bool)
  get_vector_bool block name p = get_vector block name p >>= each (stob io)

-- An item that a vector can hold: no comma in it, and no white space around it.
abbrev pub IsItem : Chars → Type 0
IsItem x = AllNot (is b',') x × (trim x ≡ x)

fields-concat_vector :
    (n : ℕ) (x : Chars) (xs : List Chars)
    → All IsItem (x ∷ xs)
    → length xs ≤ n
    → fields n (concat_vector (x ∷ xs)) ≡ x ∷ xs
unfolding fields concat_vector
fields-concat_vector zero x [] h le = rw h.0.1
fields-concat_vector zero x (y ∷ xs) h le = absurd (omega arith)
fields-concat_vector (suc n) x [] h le = rw (find_first-none (is b',') x h.0.0, h.0.1)
fields-concat_vector (suc n) x (y ∷ xs) h le = rw (
  find_first-append (is b',') x b',' (concat_vector (y ∷ xs)) h.0.0 refl,
  take-length_append x (b',' ∷ concat_vector (y ∷ xs)),
  drop-length_past x b',' (concat_vector (y ∷ xs)),
  h.0.1,
  fields-concat_vector n y xs h.1 (omega arith),
)

-- There are fewer items than bytes and one.
length-concat_vector : (x : Chars) (xs : List Chars) → length xs ≤ length (concat_vector (x ∷ xs))
unfolding concat_vector
length-concat_vector x [] = omega arith
length-concat_vector x (y ∷ xs) =
    omega (arith, length-append x (b',' ∷ concat_vector (y ∷ xs)), length-concat_vector y xs)

-- Where the parameter is missing, GetOrAddVector with a default of one or more strings, which have
-- no comma in them and no white space around them, adds the default and returns it, and a second
-- call reads the same strings back, whatever its own default, and changes nothing.
pub get_or_add_vector_twice :
    (block name : Chars) (x : Chars) (xs def : List Chars) (p : ParameterInput)
    → does_parameter_exist block name p ≡ false
    → All IsItem (x ∷ xs)
    → (q : ParameterInput) × (get_or_add_vector block name (x ∷ xs) p ≡ ok (x ∷ xs, q))
      × (get_or_add_vector block name def q ≡ ok (x ∷ xs, q))
unfolding get_or_add_vector get_vector
get_or_add_vector_twice block name x xs def p e h = (
  put block name (concat_vector (x ∷ xs)) default_comment p,
  rw e,
  rw (
    does_parameter_exist-put block name (concat_vector (x ∷ xs)) default_comment p,
    get_string-put block name (concat_vector (x ∷ xs)) default_comment p,
    fields-concat_vector (length (concat_vector (x ∷ xs))) x xs h (length-concat_vector x xs),
  ),
)

-- Where the parameter is missing, GetOrAddVector with an empty default returns the empty vector,
-- and the same call again returns a vector of one empty string.
get_or_add_vector-empty :
    (block name : Chars) (p : ParameterInput)
    → does_parameter_exist block name p ≡ false
    → (q : ParameterInput) × (get_or_add_vector block name [] p ≡ ok ([], q))
      × (get_or_add_vector block name [] q ≡ ok ([] ∷ [], q))
unfolding get_or_add_vector get_vector fields trim find_first find_last concat_vector
get_or_add_vector-empty block name p e = (
  put block name [] default_comment p,
  rw e,
  rw (
    does_parameter_exist-put block name [] default_comment p,
    get_string-put block name [] default_comment p,
  ),
)

-- ===== src/Parameters/Values.antt =====
-- The typed readers and writers of src/parameter_input.hpp and src/parameter_input.cpp, over the
-- conversions of the C++ library.
use parthenon.Base.{
  ℕ, not, if◌then◌else◌, Bool, true, false, Option, none, some, List, [], ◌∷◌, ◌≡◌, take, map, ◌||◌,
  Result, ok, err, ◌>>=◌, guard, ◌>>◌,
}
use parthenon.Base.Int.{ℤ, pos, eqb_ℤ, IsInt}
use parthenon.Base.Chars.{codes, eqb}
use parthenon.Parameters.Store.{
  Chars, Error, not_a_number, value_not_allowed, missing_required, ParameterInput, get_string,
  get_comment, does_parameter_exist, put,
}

-- `std::numeric_limits<double>::max_digits10`
abbrev pub max_digits10 : ℕ
max_digits10 = 17

-- `std::stoi`, `std::atof`, `operator<<` and `std::tolower`, and what the program relies on: the
-- text of an `int` is one that `std::stoi` accepts, and the text of a finite number that is written
-- with `max_digits10` digits reads back. Nothing is said of other digits or of other numbers.
pub record Streams : Type 1 where
  pub Real : Type 0
  pub stoi : Chars → Option ℤ
  pub show_int : ℤ → Chars
  pub atof : Chars → Real
  -- What a stream of that precision writes.
  pub show_real : ℕ → Real → Chars
  pub is_finite : Real → Bool
  pub boolalpha : Chars → Bool
  pub tolower : ℕ → ℕ
  pub stoi-show_int : (n : ℤ) → IsInt n → stoi (show_int n) ≡ some n
  pub atof-show_real : (x : Real) → is_finite x ≡ true → atof (show_real max_digits10 x) ≡ x
  pub stoi_zero : stoi (codes "0") ≡ some (pos 0)
  pub stoi_one : stoi (codes "1") ≡ some (pos 1)

abbrev pub default_comment : Chars
default_comment = codes "# Default value added at run time"

abbrev pub updated_comment : Chars
updated_comment = codes "# Updated during run time"

unfoldable pub set_string : Chars → Chars → Chars → ParameterInput → ParameterInput
set_string block name value p = put block name value updated_comment p

unfoldable pub get_or_add_string :
    Chars → Chars → Chars → ParameterInput → Result Error (Chars × ParameterInput)
get_or_add_string block name def p =
    if does_parameter_exist block name p
    then (get_string block name p >>= λ v. ok (v, p))
    else ok (def, put block name def default_comment p)

-- CheckAllowedValues_
unfoldable pub is_allowed : Chars → List Chars → Bool
is_allowed v [] = false
is_allowed v (a ∷ allowed) = eqb a v || is_allowed v allowed

unfoldable pub get_string_among : Chars → Chars → List Chars → ParameterInput → Result Error Chars
unfolding is_allowed
get_string_among block name allowed p = do
  v ← get_string block name p
  guard (is_allowed v allowed) value_not_allowed
  ok v

unfoldable pub check_required : Chars → Chars → ParameterInput → Result Error (Unit {0})
check_required block name p =
    if does_parameter_exist block name p
    then (get_comment block name p >>= λ c. guard (not (eqb c default_comment)) missing_required)
    else err missing_required

module _ (io : Streams) where
  open io use {Real, stoi, show_int, atof, show_real, boolalpha, tolower}

  unfoldable pub to_int : Chars → Result Error ℤ
  to_int v = elim (stoi v) [ none ↦ err not_a_number | some n ↦ ok n ]

  -- `0` and `1` are read as numbers, anything else by `std::boolalpha` in lower case.
  unfoldable pub stob : Chars → Result Error Bool
  stob v =
      if eqb (take 1 v) (codes "0") || eqb (take 1 v) (codes "1")
      then (to_int v >>= λ n. ok (not (eqb_ℤ n (pos 0))))
      else ok (boolalpha (map tolower v))

  abbrev pub show_bool : Bool → Chars
  show_bool true = codes "1"
  show_bool false = codes "0"

  unfoldable pub get_integer : Chars → Chars → ParameterInput → Result Error ℤ
  get_integer block name p = get_string block name p >>= to_int

  unfoldable pub get_real : Chars → Chars → ParameterInput → Result Error Real
  get_real block name p = get_string block name p >>= λ v. ok (atof v)

  unfoldable pub get_boolean : Chars → Chars → ParameterInput → Result Error Bool
  get_boolean block name p = get_string block name p >>= stob

  unfoldable pub set_integer : Chars → Chars → ℤ → ParameterInput → ParameterInput
  set_integer block name n p = put block name (show_int n) updated_comment p

  unfoldable pub set_real : Chars → Chars → Real → ParameterInput → ParameterInput
  set_real block name x p = put block name (show_real max_digits10 x) updated_comment p

  unfoldable pub set_boolean : Chars → Chars → Bool → ParameterInput → ParameterInput
  set_boolean block name b p = put block name (show_bool b) updated_comment p

  unfoldable pub get_or_add_integer :
      Chars → Chars → ℤ → ParameterInput → Result Error (ℤ × ParameterInput)
  unfolding get_integer
  get_or_add_integer block name def p =
      if does_parameter_exist block name p
      then (get_integer block name p >>= λ n. ok (n, p))
      else ok (def, put block name (show_int def) default_comment p)

  unfoldable pub get_or_add_real :
      Chars → Chars → Real → ParameterInput → Result Error (Real × ParameterInput)
  unfolding get_real
  get_or_add_real block name def p =
      if does_parameter_exist block name p
      then (get_real block name p >>= λ x. ok (x, p))
      else ok (def, put block name (show_real max_digits10 def) default_comment p)

  unfoldable pub get_or_add_boolean :
      Chars → Chars → Bool → ParameterInput → Result Error (Bool × ParameterInput)
  unfolding get_boolean
  get_or_add_boolean block name def p =
      if does_parameter_exist block name p
      then (get_boolean block name p >>= λ b. ok (b, p))
      else ok (def, put block name (show_bool def) default_comment p)

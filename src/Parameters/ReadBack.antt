-- ===== src/Parameters/ReadBack.antt =====
-- The typed writers of src/parameter_input.cpp followed by the readers.
use parthenon.Base.{if◌then◌else◌, Bool, true, false, some, ◌≡◌, refl, arith, ok, err}
use parthenon.Base.Int.{ℤ, pos, IsInt}
use parthenon.Base.Chars.{codes, eqb, eqb_refl}
use parthenon.Parameters.Store.{
  Chars, missing_required, InputLine, ParameterInput, get_line, get_string, get_comment,
  does_parameter_exist, put,
}
use parthenon.Parameters.Values.{
  Streams, default_comment, set_integer, set_real, set_boolean, get_integer, get_real, get_boolean,
  get_or_add_integer, get_or_add_boolean, get_or_add_real, to_int, stob, check_required, show_bool,
}
use parthenon.Parameters.Lookup.{written, get_line-put}

pub get_line-put_self :
    (block name value comment : Chars) (p : ParameterInput)
    → get_line block name (put block name value comment p) ≡ ok (written name value comment)
get_line-put_self block name value comment p =
    ground
      (arith, get_line-put block name value comment block name p, eqb_refl block, eqb_refl name)

pub does_parameter_exist-get_line :
    (block name : Chars) (p : ParameterInput) (l : InputLine)
    → get_line block name p ≡ ok l
    → does_parameter_exist block name p ≡ true
unfolding get_line does_parameter_exist
does_parameter_exist-get_line block name p l h = ground arith

pub get_string-put :
    (block name value comment : Chars) (p : ParameterInput)
    → get_string block name (put block name value comment p) ≡ ok value
unfolding get_string
get_string-put block name value comment p = rw (get_line-put_self block name value comment p)

pub get_comment-put :
    (block name value comment : Chars) (p : ParameterInput)
    → get_comment block name (put block name value comment p) ≡ ok comment
unfolding get_comment
get_comment-put block name value comment p = rw (get_line-put_self block name value comment p)

pub does_parameter_exist-put :
    (block name value comment : Chars) (p : ParameterInput)
    → does_parameter_exist block name (put block name value comment p) ≡ true
does_parameter_exist-put block name value comment p =
    does_parameter_exist-get_line block name _ _ (get_line-put_self block name value comment p)

to_int-eq : (io : Streams) (v : Chars) (n : ℤ) → io.stoi v ≡ some n → to_int io v ≡ ok n
unfolding to_int
to_int-eq io v n h = ground arith

stob-show_bool : (io : Streams) (b : Bool) → stob io (show_bool io b) ≡ ok b
unfolding stob eqb
stob-show_bool io true = rw (to_int-eq io (codes "1") (pos 1) io.stoi_one)
stob-show_bool io false = rw (to_int-eq io (codes "0") (pos 0) io.stoi_zero)

-- A boolean, an integer in the range of an int and a finite real that are set are what the Get
-- function of their type returns, and what GetOrAdd of their type returns, whatever its default,
-- without changing the input. The hypotheses on the conversions of the C++ library are that the
-- text of an int reads back, that the text of a finite real reads back if it was written with
-- max_digits10 digits, and that 0 and 1 are read as numbers.
pub get-set :
    (io : Streams) (block name : Chars) (b def_b : Bool) (n def_n : ℤ) (x def_x : Streams.Real io)
    (p : ParameterInput)
    → IsInt n
    → io.is_finite x ≡ true
    → (get_boolean io block name (set_boolean io block name b p) ≡ ok b)
      × (get_or_add_boolean io block name def_b (set_boolean io block name b p)
          ≡ ok (b, set_boolean io block name b p))
      × (get_integer io block name (set_integer io block name n p) ≡ ok n)
      × (get_or_add_integer io block name def_n (set_integer io block name n p)
          ≡ ok (n, set_integer io block name n p))
      × (get_real io block name (set_real io block name x p) ≡ ok x)
      × (get_or_add_real io block name def_x (set_real io block name x p)
          ≡ ok (x, set_real io block name x p))
unfolding set_boolean get_boolean set_integer get_integer set_real get_real get_or_add_boolean
    get_or_add_integer get_or_add_real
get-set io block name b def_b n def_n x def_x p h g =
    let same_n = to_int-eq io _ n (io.stoi-show_int n h) in
    (
      rw get_string-put (stob-show_bool io b),
      rw (does_parameter_exist-put, get_string-put, stob-show_bool io b) refl,
      rw get_string-put same_n,
      rw (does_parameter_exist-put, get_string-put, same_n) refl,
      rw (get_string-put, io.atof-show_real x g),
      rw (does_parameter_exist-put, get_string-put, io.atof-show_real x g) refl,
    )

-- Where the parameter is missing, the first GetOrAddInteger adds the default and returns it, and a
-- second call returns the same, whatever its own default, and changes nothing.
get_or_add_twice :
    (io : Streams) (block name : Chars) (def def' : ℤ) (p : ParameterInput)
    → IsInt def
    → does_parameter_exist block name p ≡ false
    → (q : ParameterInput) × (get_or_add_integer io block name def p ≡ ok (def, q))
      × (get_or_add_integer io block name def' q ≡ ok (def, q))
unfolding get_or_add_integer get_integer
get_or_add_twice io block name def def' p i h = (
  put block name (io.show_int def) default_comment p,
  rw h,
  rw (does_parameter_exist-put, get_string-put, to_int-eq io _ def (io.stoi-show_int def i)),
)

-- CheckRequired after a parameter is written fails if its comment is the one of defaults, and
-- passes otherwise.
check_required-put :
    (block name value comment : Chars) (p : ParameterInput)
    → check_required block name (put block name value comment p)
      ≡ (if eqb comment default_comment then err missing_required else ok tt)
unfolding check_required
check_required-put block name value comment p =
    rw
      (
        does_parameter_exist-put block name value comment p,
        get_comment-put block name value comment p,
      )
      (ground arith)

-- ===== src/Parameters/Store.antt =====
-- The lists of blocks and lines of src/parameter_input.cpp: FindOrAddBlock, GetPtrToBlock,
-- GetPtrToLine, AddParameter and the readers. A pointer to a block is the block's position.
use parthenon.Base.{
  ℕ, zero, suc, ltb, if◌then◌else◌, Bool, true, false, Option, none, some, List, [], ◌∷◌, length,
  Result, ok, err, ◌>>=◌,
}
use parthenon.Base.Chars.{eqb}

abbrev pub Chars : Type 0
Chars = List ℕ

pub record InputLine : Type 0 where
  pub param_name : Chars
  pub param_value : Chars
  pub param_comment : Chars

-- The two lengths of a new block are unset in the source, and read only after `add_parameter` has
-- set them with the first line; they are 0 here.
pub record InputBlock : Type 0 where
  pub block_name : Chars
  pub max_len_parname : ℕ
  pub max_len_parvalue : ℕ
  pub pline : List InputLine

abbrev pub ParameterInput : Type 0
ParameterInput = List InputBlock

pub data Error : Type 0 where
  block_not_found parameter_not_found block_not_ended multiline_block no_block : Error
  text_after_continuation slash_in_value value_not_allowed not_a_number missing_required : Error
  -- A string would be longer than a string can be.
  length_error : Error

unfoldable pub get_ptr_to_line : Chars → List InputLine → Option InputLine
get_ptr_to_line name [] = none
get_ptr_to_line name (l ∷ ls) = if eqb name l.param_name then some l else get_ptr_to_line name ls

unfoldable pub get_ptr_to_block : Chars → ParameterInput → Option InputBlock
get_ptr_to_block name [] = none
get_ptr_to_block name (b ∷ bs) = if eqb name b.block_name then some b else get_ptr_to_block name bs

abbrev pub new_block : Chars → InputBlock
new_block name = record { block_name = name; max_len_parname = 0; max_len_parvalue = 0; pline = [] }

-- The list with the block in it, and the block's position.
unfoldable pub find_or_add_block : Chars → ParameterInput → ParameterInput × ℕ
find_or_add_block name [] = (new_block name ∷ [], 0)
find_or_add_block name (b ∷ bs) =
    let rest = find_or_add_block name bs in
    if eqb name b.block_name then (b ∷ bs, 0) else (b ∷ rest.0, suc rest.1)

-- The first line of that name gets the value and the comment; a new line goes to the end.
unfoldable pub put_line : Chars → Chars → Chars → List InputLine → List InputLine
put_line name value comment [] =
    record { param_name = name; param_value = value; param_comment = comment } ∷ []
put_line name value comment (l ∷ ls) =
    if eqb name l.param_name
    then record l { param_value = value; param_comment = comment } ∷ ls
    else l ∷ put_line name value comment ls

-- `if (n > m) m = n;`
abbrev pub grow : ℕ → ℕ → ℕ
grow m n = if ltb m n then n else m

unfoldable pub add_parameter : Chars → Chars → Chars → InputBlock → InputBlock
unfolding put_line get_ptr_to_line
add_parameter name value comment b = elim (get_ptr_to_line name b.pline) [
  | some l ↦ record b {
    pline = put_line name value comment b.pline;
    max_len_parvalue = grow b.max_len_parvalue (length value);
  }
  | none ↦ elim b.pline [
    | [] ↦ record b {
      pline = put_line name value comment [];
      max_len_parname = length name;
      max_len_parvalue = length value;
    }
    | l ∷ ls ↦ record b {
      pline = put_line name value comment (l ∷ ls);
      max_len_parname = grow b.max_len_parname (length name);
      max_len_parvalue = grow b.max_len_parvalue (length value);
    }
  ]
]

-- A write through a pointer to a block.
unfoldable pub at_block : ℕ → (InputBlock → InputBlock) → ParameterInput → ParameterInput
at_block i f [] = []
at_block zero f (b ∷ bs) = f b ∷ bs
at_block (suc i) f (b ∷ bs) = b ∷ at_block i f bs

-- FindOrAddBlock, then AddParameter: the body of the setters.
unfoldable pub put : Chars → Chars → Chars → Chars → ParameterInput → ParameterInput
put block name value comment p =
    let r = find_or_add_block block p in at_block r.1 (add_parameter name value comment) r.0

unfoldable pub get_line : Chars → Chars → ParameterInput → Result Error InputLine
get_line block name p = elim (get_ptr_to_block block p) [
  | none ↦ err block_not_found
  | some b ↦ elim (get_ptr_to_line name b.pline) [ none ↦ err parameter_not_found | some l ↦ ok l ]
]

unfoldable pub does_block_exist : Chars → ParameterInput → Bool
does_block_exist block p = elim (get_ptr_to_block block p) [ none ↦ false | some b ↦ true ]

unfoldable pub does_parameter_exist : Chars → Chars → ParameterInput → Bool
does_parameter_exist block name p = elim (get_ptr_to_block block p) [
  | none ↦ false
  | some b ↦ elim (get_ptr_to_line name b.pline) [ none ↦ false | some l ↦ true ]
]

unfoldable pub get_string : Chars → Chars → ParameterInput → Result Error Chars
get_string block name p = get_line block name p >>= λ l. ok l.param_value

unfoldable pub get_comment : Chars → Chars → ParameterInput → Result Error Chars
get_comment block name p = get_line block name p >>= λ l. ok l.param_comment

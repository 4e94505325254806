-- ===== src/Parameters/Lookup.antt =====
-- What a reader of src/parameter_input.cpp finds after a parameter is set.
use parthenon.Base.{if◌then◌else◌, none, some, List, [], ◌∷◌, ◌≡◌, refl, arith, Result, ok, err}
use parthenon.Base.Chars.{eqb, eqb-eq, eqb_refl}
use parthenon.Parameters.Store.{
  Chars, InputLine, InputBlock, ParameterInput, Error, block_not_found, parameter_not_found,
  get_ptr_to_line, get_ptr_to_block, find_or_add_block, new_block, put_line, add_parameter,
  at_block, put, get_line,
}

abbrev pub written : Chars → Chars → Chars → InputLine
written name value comment = record {
  param_name = name;
  param_value = value;
  param_comment = comment;
}

pub get_ptr_to_line-put_line :
    (name value comment other : Chars) (ls : List InputLine)
    → get_ptr_to_line other (put_line name value comment ls)
      ≡ (if eqb other name then some (written name value comment) else get_ptr_to_line other ls)
unfolding get_ptr_to_line put_line
get_ptr_to_line-put_line name value comment other [] = refl
get_ptr_to_line-put_line name value comment other (l ∷ ls) = ground (
  arith,
  get_ptr_to_line-put_line name value comment other ls,
  eqb-eq name l.param_name,
  eqb-eq other l.param_name,
  eqb-eq other name,
  eqb_refl name,
)

pub pline-add_parameter :
    (name value comment : Chars) (b : InputBlock)
    → (add_parameter name value comment b).pline ≡ put_line name value comment b.pline
unfolding add_parameter
pline-add_parameter name value comment b = ground arith

pub block_name-add_parameter :
    (name value comment : Chars) (b : InputBlock)
    → (add_parameter name value comment b).block_name ≡ b.block_name
unfolding add_parameter
block_name-add_parameter name value comment b = ground arith

-- The block that `find_or_add_block` points at.
pub the_block : Chars → ParameterInput → InputBlock
the_block block [] = new_block block
the_block block (b ∷ bs) = if eqb block b.block_name then b else the_block block bs

pub block_name-the_block :
    (block : Chars) (p : ParameterInput) → (the_block block p).block_name ≡ block
unfolding the_block
block_name-the_block block [] = refl
block_name-the_block block (b ∷ bs) =
    ground (arith, block_name-the_block block bs, eqb-eq block b.block_name)

pub get_ptr_to_block-at_block :
    (block other : Chars) (f : InputBlock → InputBlock) (p : ParameterInput)
    → ((b : InputBlock) → (f b).block_name ≡ b.block_name)
    → let r = find_or_add_block block p in
      get_ptr_to_block other (at_block r.1 f r.0)
      ≡ (if eqb other block then some (f (the_block block p)) else get_ptr_to_block other p)
unfolding get_ptr_to_block at_block find_or_add_block the_block
get_ptr_to_block-at_block block other f [] same = ground (arith, same (new_block block))
get_ptr_to_block-at_block block other f (b ∷ bs) same = ground (
  arith,
  get_ptr_to_block-at_block block other f bs same,
  same b,
  eqb-eq block b.block_name,
  eqb-eq other b.block_name,
  eqb-eq other block,
  eqb_refl block,
)

-- The lines of the block as they were, none where the block is new.
pub get_line-the_block :
    (block name : Chars) (p : ParameterInput)
    → get_line block name p ≡ (elim (get_ptr_to_line name (the_block block p).pline) [
      | some l ↦ ok l
      | none ↦ elim (get_ptr_to_block block p) [
        | none ↦ err block_not_found
        | some b ↦ err parameter_not_found
      ]
    ])
unfolding get_line get_ptr_to_block the_block get_ptr_to_line
get_line-the_block block name [] = refl
get_line-the_block block name (b ∷ bs) = ground (arith, get_line-the_block block name bs)

abbrev pub block_seen : Result Error InputLine → Result Error InputLine
block_seen (err block_not_found) = err parameter_not_found
block_seen r = r

-- After a parameter is written, its line reads back as written; another parameter reads as before,
-- except that a block that was created by the write is no longer missing.
pub get_line-put :
    (block name value comment block' name' : Chars) (p : ParameterInput)
    → get_line block' name' (put block name value comment p) ≡ (
        if eqb block' block
        then if eqb name' name
          then ok (written name value comment)
          else block_seen (get_line block' name' p)
        else get_line block' name' p)
unfolding put get_line
get_line-put block name value comment block' name' p = ground (
  arith,
  get_ptr_to_block-at_block block block' (add_parameter name value comment) p
      (block_name-add_parameter name value comment),
  get_line-the_block block name' p,
  pline-add_parameter name value comment (the_block block p),
  get_ptr_to_line-put_line name value comment name' (the_block block p).pline,
  eqb-eq block' block,
)

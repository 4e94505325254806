-- ===== src/Parameters/Syntax.antt =====
-- The syntax of block headers and of command-line arguments, as src/parameter_input.cpp reads it.
use parthenon.Base.{
  ℕ, zero, suc, ◌+◌, ◌-◌, ltb, if◌then◌else◌, false, some, List, [], ◌∷◌, ◌++◌, ◌≡◌, refl, sym, ap,
  ◌∙◌, arith, length, take, drop, replicate, ok, err, inl, inr, length-append, Option-cases,
}
use mathlib.Core.List.{append_assoc}
use parthenon.Base.Chars.{
  eqb, eqb-eq, eqb_refl, codes, find_first, AllNot, AllNot-append, find_first-append, find_last-hit,
  drop-length_past, take-length_append, take-past_length, take-suc-length, find_last-none,
}
use parthenon.Parameters.Store.{
  Chars, slash_in_value, InputLine, InputBlock, ParameterInput, get_ptr_to_line, get_line,
  get_string,
}
use parthenon.Parameters.Line.{is}
use parthenon.Parameters.Lookup.{
  get_ptr_to_block-at_block, get_line-the_block, pline-add_parameter, get_ptr_to_line-put_line,
  the_block, written, block_seen,
}
use parthenon.Parameters.Stream.{block_name_at}
use parthenon.Parameters.CommandLine.{
  assign_value, modify_line, split_argument, apply_argument, modify_from_cmdline,
}
use parthenon.Parameters.SoundOps.{block_name-modify_line}

drop-indent : (k c : ℕ) (t : Chars) → drop (suc k) (replicate k b' ' ++ c ∷ t) ≡ t
drop-indent zero c t = refl
drop-indent (suc k) c t = drop-indent k c t

-- For k spaces in front of a block header <name>rest, where the name has no >, the name that is
-- stored is name and the first k bytes of >rest.
block_name_at-indented :
    (k : ℕ) (name rest : Chars)
    → AllNot (is b'>') name
    → block_name_at k (replicate k b' ' ++ b'<' ∷ (name ++ b'>' ∷ rest))
      ≡ ok (name ++ take k (b'>' ∷ rest))
unfolding block_name_at
block_name_at-indented k name rest h =
    let e : suc k + length name - 1 ≡ length name + k = omega arith in
    rw (
      drop-indent k b'<' (name ++ b'>' ∷ rest),
      find_first-append (is b'>') name b'>' rest h refl,
      e,
      take-past_length name (b'>' ∷ rest) k,
    )

-- An argument name=value whose name has neither = nor / is not skipped: it ends the program.
split_argument-no_slash :
    (name value : Chars)
    → AllNot (is b'=') name
    → AllNot (is b'/') name
    → split_argument (name ++ b'=' ∷ value) ≡ err slash_in_value
unfolding split_argument
split_argument-no_slash name value h k =
    rw (find_first-append (is b'=') name b'=' value h refl, take-suc-length name b'=' value)
      (rw (
        find_last-none (is b'/') (name ++ b'=' ∷ []) (AllNot-append (is b'/') name _ k (refl, tt))))

-- The three parts of an argument; a block's name may have slashes of its own.
pub split_argument-parts :
    (block name value : Chars)
    → AllNot (is b'=') block
    → AllNot (is b'=') name
    → AllNot (is b'/') name
    → split_argument (block ++ b'/' ∷ (name ++ b'=' ∷ value)) ≡ ok (some (block, name, value))
unfolding split_argument
split_argument-parts block name value h k l = rw (
  ap (find_first (is b'=')) regroup
      ∙ find_first-append (is b'=') left b'=' value (AllNot-append (is b'=') block _ h (refl, k))
          refl,
  ap (take (suc (length left))) regroup
      ∙ take-suc-length left b'=' value
      ∙ append_assoc block (b'/' ∷ name) (b'=' ∷ []),
  find_last-hit (is b'/') block b'/' (name ++ b'=' ∷ []) refl
      (AllNot-append (is b'/') name _ l (refl, tt)),
  below,
  ap (drop (suc (length left))) regroup ∙ drop-length_past left b'=' value,
  take-length_append block (b'/' ∷ (name ++ b'=' ∷ value)),
  drop-length_past block b'/' (name ++ b'=' ∷ value),
  between,
  take-length_append name (b'=' ∷ value),
)
  where
    left : Chars
    left = block ++ b'/' ∷ name

    regroup : block ++ b'/' ∷ (name ++ b'=' ∷ value) ≡ left ++ b'=' ∷ value
    regroup = sym (append_assoc block (b'/' ∷ name) (b'=' ∷ value))

    below : ltb (length left) (length block) ≡ false
    below = ground (arith, length-append block (b'/' ∷ name))

    between : length left - length block - 1 ≡ length name
    between = omega (arith, length-append block (b'/' ∷ name))

get_ptr_to_line-assign_value :
    (name value other : Chars) (ls : List InputLine) (l : InputLine)
    → get_ptr_to_line name ls ≡ some l
    → get_ptr_to_line other (assign_value name value ls) ≡ (
        if eqb other name
        then some (record l { param_value = value })
        else get_ptr_to_line other ls)
unfolding get_ptr_to_line assign_value
get_ptr_to_line-assign_value name value other [] l h = cc
get_ptr_to_line-assign_value name value other (x ∷ ls) l h = ground (
  arith,
  get_ptr_to_line-assign_value name value other ls l,
  eqb-eq name x.param_name,
  eqb-eq other x.param_name,
  eqb-eq other name,
  eqb_refl name,
)

-- A line with that value, and the other lines as they were.
get_ptr_to_line-modify_line :
    (name value other : Chars) (b : InputBlock)
    → (l : InputLine) × (l.param_value ≡ value)
      × (get_ptr_to_line other (modify_line name value b).pline
          ≡ (if eqb other name then some l else get_ptr_to_line other b.pline))
unfolding modify_line
get_ptr_to_line-modify_line name value other b =
    elim (Option-cases (get_ptr_to_line name b.pline)) [
      | inl e ↦ (
        written name value (codes " # Added from command line"),
        refl,
        rw (e, modify_line, pline-add_parameter)
            (get_ptr_to_line-put_line name value _ other b.pline),
      )
      | inr (l, e) ↦ (
        record l { param_value = value },
        refl,
        rw (e, modify_line) (get_ptr_to_line-assign_value name value other b.pline l e),
      )
    ]

get_line-apply_argument :
    (block name value block' name' : Chars) (p : ParameterInput)
    → (l : InputLine) × (l.param_value ≡ value)
      × (get_line block' name' (apply_argument (some (block, name, value)) p) ≡ (
          if eqb block' block
          then if eqb name' name then ok l else block_seen (get_line block' name' p)
          else get_line block' name' p))
unfolding apply_argument get_line
get_line-apply_argument block name value block' name' p =
    let (l, e, lines) = get_ptr_to_line-modify_line name value name' (the_block block p) in
    (
      l,
      e,
      ground (
        arith,
        get_ptr_to_block-at_block block block' (modify_line name value) p
            (block_name-modify_line name value),
        get_line-the_block block name' p,
        lines,
        eqb-eq block' block,
      ),
    )

get_string-apply_argument :
    (block name value : Chars) (p : ParameterInput)
    → get_string block name (apply_argument (some (block, name, value)) p) ≡ ok value
unfolding get_string
get_string-apply_argument block name value p =
    let (l, e, lines) = get_line-apply_argument block name value block name p in
    ground (arith, lines, eqb_refl block, eqb_refl name)

-- An argument block/name=value, where the block has no = and the name neither = nor /, sets the
-- parameter without an error, leaves the other parameters of that block as they read before (a
-- block that is created by it is no longer missing), and leaves those of the other blocks.
pub modify_from_cmdline-sets :
    (block name value : Chars) (p : ParameterInput)
    → AllNot (is b'=') block
    → AllNot (is b'=') name
    → AllNot (is b'/') name
    → (q : ParameterInput) × (modify_from_cmdline ((block ++ b'/' ∷ (name ++ b'=' ∷ value)) ∷ []) p
        ≡ ok q)
      × (get_string block name q ≡ ok value)
      × ((name' : Chars)
          → eqb name' name ≡ false
          → get_line block name' q ≡ block_seen (get_line block name' p))
      × ((block' name' : Chars)
          → eqb block' block ≡ false
          → get_line block' name' q ≡ get_line block' name' p)
unfolding modify_from_cmdline
modify_from_cmdline-sets block name value p h k l = (
  apply_argument (some (block, name, value)) p,
  rw (split_argument-parts block name value h k l),
  get_string-apply_argument block name value p,
  (λ name' e.
      ground (arith, (get_line-apply_argument block name value block name' p).2, eqb_refl block)),
  (λ block' name' e. ground (arith, (get_line-apply_argument block name value block' name' p).2)),
)

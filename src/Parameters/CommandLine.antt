-- ===== src/Parameters/CommandLine.antt =====
-- ModifyFromCmdline of src/parameter_input.cpp: `block/name=value` arguments.
use parthenon.Base.{
  suc, ◌-◌, ltb, if◌then◌else◌, none, some, List, [], ◌∷◌, length, take, drop, Result, ok, err,
  ◌>>=◌, Option,
}
use parthenon.Base.Chars.{codes, eqb, find_first, find_last, next}
use parthenon.Parameters.Store.{
  Chars, Error, slash_in_value, InputBlock, InputLine, ParameterInput, get_ptr_to_line,
  find_or_add_block, at_block, add_parameter, grow,
}
use parthenon.Parameters.Line.{is}

-- `pl->param_value.assign(value)` through the pointer that GetPtrToLine gives.
unfoldable pub assign_value : Chars → Chars → List InputLine → List InputLine
assign_value name value [] = []
assign_value name value (l ∷ ls) =
    if eqb name l.param_name
    then record l { param_value = value } ∷ ls
    else l ∷ assign_value name value ls

unfoldable pub modify_line : Chars → Chars → InputBlock → InputBlock
modify_line name value b =
    let c : InputBlock = elim (get_ptr_to_line name b.pline) [
      | none ↦ add_parameter name value (codes " # Added from command line") b
      | some l ↦ record b { pline = assign_value name value b.pline }
    ] in
    record c { max_len_parvalue = grow c.max_len_parvalue (length value) }

-- The block, name and value of an argument. An argument without `=` is skipped, which is `none`;
-- `rfind` that finds no `/` gives `npos`, which is greater than the position of any `=`.
unfoldable pub split_argument : Chars → Result Error (Option (Chars × Chars × Chars))
split_argument text =
    next
      (λ e.
        next
          (λ s.
            if ltb e s
            then err slash_in_value
            else ok (some (take s text, take (e - s - 1) (drop (suc s) text), drop (suc e) text)))
          (err slash_in_value) (find_last (is b'/') (take (suc e) text)))
      (ok none) (find_first (is b'=') text)

-- GetPtrToBlock and, where it gives null, FindOrAddBlock: together FindOrAddBlock.
unfoldable pub apply_argument : Option (Chars × Chars × Chars) → ParameterInput → ParameterInput
apply_argument none p = p
apply_argument (some (block, name, value)) p =
    let r = find_or_add_block block p in at_block r.1 (modify_line name value) r.0

unfoldable pub modify_from_cmdline : List Chars → ParameterInput → Result Error ParameterInput
modify_from_cmdline [] p = ok p
modify_from_cmdline (a ∷ more) p =
    split_argument a >>= λ t. modify_from_cmdline more (apply_argument t p)

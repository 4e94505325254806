-- ===== src/Parameters/SoundOps.antt =====
-- Every operation of src/parameter_input.cpp that changes the lists keeps them sound.
use parthenon.Base.{
  ℕ, ◌≤◌, Option, none, some, List, [], ◌∷◌, ◌≡◌, refl, arith, length, Result, ok, err, ◌>>=◌,
  Bool-cases, inl, inr, All, Option-cases, if-elim, >>=-eq-ok, ◌||◌, ◌==◌,
}
use parthenon.Base.Chars.{eqb, codes, find_first}
use parthenon.Parameters.Store.{
  Chars, InputLine, InputBlock, ParameterInput, get_ptr_to_line, add_parameter, grow, Error,
}
use parthenon.Parameters.Lookup.{block_name-add_parameter}
use parthenon.Parameters.Writable.{line_names}
use parthenon.Parameters.Line.{Parsed, not_space}
use parthenon.Parameters.Stream.{
  Loading, start, enter_block, store, take_parsed, Step, going, stopped, failed, block_step,
  param_step, line_from, load_line, load_lines, load_from_stream, remove_tabs, stands_at,
}
use parthenon.Parameters.CommandLine.{
  assign_value, modify_line, apply_argument, split_argument, modify_from_cmdline,
}
use parthenon.Parameters.ParseDump.{Fits}
use parthenon.Parameters.Sound.{
  IsSound, IsSoundBlock, Fits-mono, add_parameter-IsSoundBlock, find_or_add_block-IsSound,
  at_block-IsSound, grow-le,
}

-- The state that a line leaves is sound, if there is one.
abbrev Keeps : Step → Type 0
Keeps (going s) = IsSound s.params
Keeps (stopped s) = IsSound s.params
Keeps (failed e) = Unit

store-IsSound :
    (s : Loading) (name value comment : Chars)
    → IsSound s.params
    → IsSound (store s name value comment).params
unfolding store
store-IsSound s name value comment h = elim (Bool-cases (eqb name [])) [
  | inl e ↦ rw e h
  | inr e ↦ rw e (
      at_block-IsSound (add_parameter name value comment)
        (block_name-add_parameter name value comment)
        (add_parameter-IsSoundBlock name value comment) s.pib s.params h)
]

take_parsed-IsSound :
    (s : Loading) (l : Parsed) → IsSound s.params → IsSound (take_parsed s l).params
unfolding take_parsed
take_parsed-IsSound s l h =
    if-elim P (s.continuing || l.continuation) _ _
      (if-elim P l.continuation _ _ h (store-IsSound _ _ _ _ h)) (store-IsSound s _ _ _ h)
  where
    P : Loading → Type 0
    P t = IsSound t.params

block_step-Keeps :
    (s : Loading) (r : Result Error Chars) → IsSound s.params → Keeps (block_step s r)
unfolding block_step enter_block
block_step-Keeps s (ok name) h = find_or_add_block-IsSound name s.params h
block_step-Keeps s (err e) h = tt

param_step-Keeps :
    (s : Loading) (r : Result Error Parsed) → IsSound s.params → Keeps (param_step s r)
unfolding param_step
param_step-Keeps s (ok l) h = take_parsed-IsSound s l h
param_step-Keeps s (err e) h = tt

line_from-Keeps :
    (s : Loading) (line : Chars) (first : ℕ) → IsSound s.params → Keeps (line_from s line first)
unfolding line_from
line_from-Keeps s line first h = if-elim Keeps (stands_at first (codes "#") line) _ _ h (
    if-elim Keeps (stands_at first (codes "<par_end>") line) _ _ h (
      if-elim Keeps (stands_at first (codes "<") line) _ _
        (if-elim Keeps s.continuing _ _ tt (block_step-Keeps s _ h))
        (if-elim Keeps (s.blocks_found == 0) _ _ tt (param_step-Keeps s _ h))))

load_line-Keeps : (s : Loading) (line : Chars) → IsSound s.params → Keeps (load_line s line)
unfolding load_line
load_line-Keeps s line h = elim (Option-cases (find_first not_space (remove_tabs line))) [
  | inl e ↦ rw e h
  | inr (i, e) ↦ rw e (line_from-Keeps s (remove_tabs line) i h)
]

abbrev KeepsAll : Result Error Loading → Type 0
KeepsAll (ok s) = IsSound s.params
KeepsAll (err e) = Unit

load_lines-KeepsAll :
    (ls : List Chars) (s : Loading) → IsSound s.params → KeepsAll (load_lines ls s)
unfolding load_lines
load_lines-KeepsAll [] s h = h
load_lines-KeepsAll (l ∷ ls) s h =
    after (load_line s l) refl (load_line-Keeps s l h) (load_lines-KeepsAll ls)
  where
    after :
        (r : Step)
        → load_line s l ≡ r
        → Keeps r
        → ((t : Loading) → IsSound t.params → KeepsAll (load_lines ls t))
        → KeepsAll (load_lines (l ∷ ls) s)
    after (going t) e k more = rw (e, load_lines) (more t k)
    after (stopped t) e k more = rw (e, load_lines) k
    after (failed x) e k more = rw (e, load_lines) tt

-- A stream that loads without an error into sound lists (distinct names, and lengths of a block
-- that bound those of its lines) leaves sound lists.
pub load_from_stream-IsSound :
    (ls : List Chars) (p q : ParameterInput) → IsSound p → load_from_stream ls p ≡ ok q → IsSound q
unfolding load_from_stream
load_from_stream-IsSound ls p q h e =
    after (load_lines ls (start p)) (load_lines-KeepsAll ls (start p) h) e
  where
    after : (r : Result Error Loading) → KeepsAll r → (r >>= λ s. ok s.params) ≡ ok q → IsSound q
    after (ok s) k e = let same : s.params ≡ q = cc in rw same at k
    after (err x) k e = cc

Fits-assign_value :
    (m n : ℕ) (name value : Chars) (ls : List InputLine)
    → length value ≤ n
    → All (Fits m n) ls
    → All (Fits m n) (assign_value name value ls)
unfolding assign_value
Fits-assign_value m n name value [] k f = tt
Fits-assign_value m n name value (l ∷ ls) k f =
    if-elim (All (Fits m n)) (eqb name l.param_name) _ _ ((f.0.0, k), f.1)
      (f.0, Fits-assign_value m n name value ls k f.1)

line_names-assign_value :
    (name value : Chars) (ls : List InputLine)
    → line_names (assign_value name value ls) ≡ line_names ls
unfolding assign_value
line_names-assign_value name value [] = refl
line_names-assign_value name value (l ∷ ls) =
    if-elim (λ r. line_names r ≡ l.param_name ∷ line_names ls) (eqb name l.param_name) _ _ refl
      (rw (line_names-assign_value name value ls))

-- The last line of ModifyFromCmdline lets the longest value grow.
grown-IsSoundBlock :
    (b : InputBlock) (n : ℕ)
    → IsSoundBlock b
    → IsSoundBlock (record b { max_len_parvalue = grow b.max_len_parvalue n })
grown-IsSoundBlock b n s = record {
  distinct = s.distinct;
  fits = Fits-mono b.pline (omega arith) (grow-le b.max_len_parvalue n).0 s.fits;
}

modify_line-IsSoundBlock :
    (name value : Chars) (b : InputBlock) → IsSoundBlock b → IsSoundBlock (modify_line name value b)
unfolding modify_line
modify_line-IsSoundBlock name value b s = elim (Option-cases (get_ptr_to_line name b.pline)) [
  | inl e ↦
      rw (e, modify_line)
        (grown-IsSoundBlock _ (length value)
          (add_parameter-IsSoundBlock name value (codes " # Added from command line") b s))
  | inr (l, e) ↦
      rw (e, modify_line)
        (record {
          distinct = rw (line_names-assign_value name value b.pline) s.distinct;
          fits =
              let g = grow-le b.max_len_parvalue (length value) in
              Fits-assign_value b.max_len_parname (grow b.max_len_parvalue (length value)) name
                value b.pline g.1 (Fits-mono b.pline (omega arith) g.0 s.fits);
        })
]

pub block_name-modify_line :
    (name value : Chars) (b : InputBlock) → (modify_line name value b).block_name ≡ b.block_name
unfolding modify_line
block_name-modify_line name value b =
    ground (arith, block_name-add_parameter name value (codes " # Added from command line") b)

apply_argument-IsSound :
    (t : Option (Chars × Chars × Chars)) (p : ParameterInput)
    → IsSound p
    → IsSound (apply_argument t p)
unfolding apply_argument
apply_argument-IsSound none p s = s
apply_argument-IsSound (some (block, name, value)) p s =
    at_block-IsSound (modify_line name value) (block_name-modify_line name value)
      (modify_line-IsSoundBlock name value) _ _ (find_or_add_block-IsSound block p s)

-- Command-line arguments that are applied without an error to sound lists leave sound lists.
pub modify_from_cmdline-IsSound :
    (args : List Chars) (p q : ParameterInput)
    → IsSound p
    → modify_from_cmdline args p ≡ ok q
    → IsSound q
unfolding modify_from_cmdline
modify_from_cmdline-IsSound [] p q s e = let same : p ≡ q = cc in rw same at s
modify_from_cmdline-IsSound (a ∷ args) p q s e =
    let (t, _, rest) =
      >>=-eq-ok (split_argument a) (λ t. modify_from_cmdline args (apply_argument t p)) e in
    modify_from_cmdline-IsSound args (apply_argument t p) q (apply_argument-IsSound t p s) rest

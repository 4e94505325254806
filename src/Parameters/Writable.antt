-- ===== src/Parameters/Writable.antt =====
-- The lines and headers of a file that ParameterDump writes (src/parameter_input.cpp), and one turn of
-- LoadFromStream on each of them.
use mathlib.Core.List.{append_assoc}
use parthenon.Base.{
  ℕ, ◌+◌, ◌-◌, false, List, [], ◌∷◌, ◌++◌, ◌≡◌, ◌≢◌, refl, sym, ap, ◌∙◌, ◌<◌, arith, length, ok,
  map, All,
}
use parthenon.Base.Chars.{
  codes, eqb, find_first, next, AllNot, AllNot-append, find_first-append, take-length_append,
}
use parthenon.Parameters.Store.{
  Chars, InputLine, InputBlock, ParameterInput, new_block, find_or_add_block, put_line,
  add_parameter, at_block,
}
use parthenon.Parameters.Line.{is, not_space, parse_line}
use parthenon.Parameters.ParseDump.{
  IsPlain, Fits, dump_text, parse_line-dump_text, StartsFull, AllNot-replicate,
}
use parthenon.Parameters.Stream.{
  Loading, remove_tabs, block_name_at, enter_block, store, take_parsed, going, block_step,
  param_step, stands_at, line_from, load_line,
}

abbrev pub NoTab : Chars → Type 0
NoTab = AllNot (is b'\t')

-- No end of a line.
abbrev pub OneLine : Chars → Type 0
OneLine = AllNot (is b'\n')

-- A line that dumps to one line of the stream, which is neither blank, nor a comment, nor a block.
pub record IsWritable (l : InputLine) : Type 0 where
  pub plain : IsPlain l
  pub head : stands_at 0 (codes "<") l.param_name ≡ false
  pub name_tab : NoTab l.param_name
  pub value_tab : NoTab l.param_value
  pub comment_tab : NoTab l.param_comment
  pub name_line : OneLine l.param_name
  pub value_line : OneLine l.param_value
  pub comment_line : OneLine l.param_comment

abbrev pub Absent : Chars → List Chars → Type 0
Absent name = All (λ other. eqb name other ≡ false)

-- The names differ from one another and from those seen before.
abbrev pub Distinct : List Chars → List Chars → Type 0
Distinct seen [] = Unit
Distinct seen (n ∷ ns) = Absent n seen × Distinct (seen ++ n ∷ []) ns

abbrev pub line_names : List InputLine → List Chars
line_names = map (λ l. l.param_name)

abbrev pub block_names : ParameterInput → List Chars
block_names = map (λ b. b.block_name)

-- A block name that closes, and does not end the stream.
abbrev pub IsWritableName : Chars → Type 0
IsWritableName name =
    AllNot (is b'>') name
    × NoTab name
    × OneLine name
    × (stands_at 0 (codes "par_end>") (name ++ codes ">") ≡ false)

pub record IsWritableBlock (b : InputBlock) : Type 0 where
  pub name : IsWritableName b.block_name
  pub lines : All IsWritable b.pline
  pub distinct : Distinct [] (line_names b.pline)
  pub fits : All (Fits b.max_len_parname b.max_len_parvalue) b.pline

remove_tabs-id : (s : Chars) → NoTab s → remove_tabs s ≡ s
unfolding remove_tabs
remove_tabs-id [] h = refl
remove_tabs-id (c ∷ s) h = ground (arith, remove_tabs-id s h.1)

pub find_or_add_block-fresh :
    (name : Chars) (p : ParameterInput)
    → Absent name (block_names p)
    → find_or_add_block name p ≡ (p ++ new_block name ∷ [], length p)
unfolding find_or_add_block
find_or_add_block-fresh name [] h = refl
find_or_add_block-fresh name (b ∷ bs) h = ground (arith, find_or_add_block-fresh name bs h.1)

pub at_block-last :
    (p : ParameterInput) (f : InputBlock → InputBlock) (b : InputBlock)
    → at_block (length p) f (p ++ b ∷ []) ≡ p ++ f b ∷ []
unfolding at_block
at_block-last [] f b = refl
at_block-last (x ∷ p) f b = ap (◌∷◌ x) (at_block-last p f b)

pub put_line-fresh :
    (l : InputLine) (ls : List InputLine)
    → Absent l.param_name (line_names ls)
    → put_line l.param_name l.param_value l.param_comment ls ≡ ls ++ l ∷ []
unfolding put_line
put_line-fresh l [] h = refl
put_line-fresh l (x ∷ ls) h = ground (arith, put_line-fresh l ls h.1)

load_line-param :
    (s : Loading) (name rest : Chars)
    → name ≢ []
    → StartsFull name
    → AllNot (is b'#') name
    → stands_at 0 (codes "<") name ≡ false
    → NoTab (name ++ rest)
    → 0 < s.blocks_found
    → load_line s (name ++ rest) ≡ param_step s (parse_line (name ++ rest))
unfolding load_line line_from find_first eqb
load_line-param s [] rest ne st hash head tab found = absurd (ne refl)
load_line-param s (c ∷ r) rest ne st hash head tab found =
    rw
      (ap (λ line. next (line_from s line) (going s) (find_first not_space line))
        (remove_tabs-id (c ∷ (r ++ rest)) tab))
      (ground arith)

module _ (c : ℕ) (space : is c b' ' ≡ false) (equal : is c b'=' ≡ false) where
  -- A byte that is not in a line's parts, and neither a space nor `=`, is not in the dumped line.
  AllNot-dump_text :
      (b : InputBlock) (l : InputLine)
      → AllNot (is c) l.param_name
      → AllNot (is c) l.param_value
      → AllNot (is c) l.param_comment
      → AllNot (is c) (dump_text b l)
  unfolding dump_text
  AllNot-dump_text b l n v h =
      AllNot-append (is c) _ _
        (AllNot-append (is c) l.param_name _ n (AllNot-replicate _ _ b' ' space))
        (
          equal,
          (
            space,
            AllNot-append (is c) l.param_value _ v
                (AllNot-append (is c) _ l.param_comment (AllNot-replicate _ _ b' ' space) h),
          ),
        )

pub OneLine-dump_text : (b : InputBlock) (l : InputLine) → IsWritable l → OneLine (dump_text b l)
OneLine-dump_text b l w =
    AllNot-dump_text b'\n' refl refl b l w.name_line w.value_line w.comment_line

NoTab-dump_text : (b : InputBlock) (l : InputLine) → IsWritable l → NoTab (dump_text b l)
NoTab-dump_text b l w = AllNot-dump_text b'\t' refl refl b l w.name_tab w.value_tab w.comment_tab

store-named :
    (s : Loading) (name value comment : Chars)
    → name ≢ []
    → store s name value comment
      ≡ record s { params = at_block s.pib (add_parameter name value comment) s.params }
unfolding store eqb
store-named s [] value comment h = absurd (h refl)
store-named s (c ∷ r) value comment h = refl

dump_text-name :
    (b : InputBlock) (l : InputLine) → (rest : Chars) × (dump_text b l ≡ l.param_name ++ rest)
unfolding dump_text
dump_text-name b l = (_, append_assoc l.param_name _ _)

-- A line of the dump is read as its parameter.
pub load_line-dump_text :
    (s : Loading) (b : InputBlock) (l : InputLine)
    → IsWritable l
    → s.continuing ≡ false
    → 0 < s.blocks_found
    → load_line s (dump_text b l)
      ≡ going (record s {
        params = at_block s.pib (add_parameter l.param_name l.param_value l.param_comment) s.params;
      })
unfolding param_step take_parsed
load_line-dump_text s b l w c f =
    let (rest, e) = dump_text-name b l in
    ap (load_line s) e
    ∙ load_line-param s l.param_name rest w.plain.named w.plain.name_starts w.plain.name_hash w.head
        (rw e at (NoTab-dump_text b l w)) f
    ∙ ap (λ line. param_step s (parse_line line)) (sym e)
    ∙ rw (parse_line-dump_text b l w.plain)
        (ground (arith, store-named s l.param_name l.param_value l.param_comment w.plain.named))

block_name_at-header :
    (name : Chars)
    → AllNot (is b'>') name
    → block_name_at 0 (codes "<" ++ (name ++ codes ">")) ≡ ok name
unfolding block_name_at
block_name_at-header name h =
    let e : 1 + length name - 1 ≡ length name = omega arith in
    rw (find_first-append (is b'>') name b'>' [] h refl, e, take-length_append name (b'>' ∷ []))

-- A block's header opens it.
pub load_line-header :
    (s : Loading) (name : Chars)
    → AllNot (is b'>') name
    → NoTab name
    → stands_at 0 (codes "par_end>") (name ++ codes ">") ≡ false
    → s.continuing ≡ false
    → load_line s (codes "<" ++ (name ++ codes ">")) ≡ going (enter_block s name)
unfolding load_line line_from block_step find_first eqb remove_tabs
load_line-header s name h t e c =
    rw (remove_tabs-id (name ++ codes ">") (AllNot-append _ name _ t (refl, tt)), e)
      (ground (arith, block_name_at-header name h))

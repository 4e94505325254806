-- ===== src/Parameters/Reload.antt =====
-- LoadFromStream of what ParameterDump writes (src/parameter_input.cpp): a restart file's header.
use mathlib.Core.List.{append_assoc, append-nil, map-append}
use parthenon.Base.{
  ℕ, ◌+◌, List, [], ◌∷◌, ◌++◌, ◌≡◌, refl, sym, ap, ◌∙◌, ◌<◌, arith, length, Result, ok, ◌>>=◌, map,
  All,
}
use parthenon.Base.Chars.{codes, eqb, find_first, AllNot-append, AllNot-any}
use parthenon.Parameters.Store.{
  Chars, InputLine, InputBlock, ParameterInput, Error, new_block, add_parameter,
}
use parthenon.Parameters.ParseDump.{Fits, HasRoom, dump_text, dump_line-text}
use parthenon.Parameters.Line.{is}
use parthenon.Parameters.Lookup.{pline-add_parameter, block_name-add_parameter}
use parthenon.Parameters.Stream.{
  Loading, start, remove_tabs, enter_block, going, line_from, load_line, load_lines,
  load_from_stream, par_dump, parameter_dump, dump_lines, dump_blocks, get_lines,
}
use parthenon.Parameters.Writable.{
  Absent, Distinct, line_names, block_names, IsWritable, IsWritableBlock, find_or_add_block-fresh,
  at_block-last, put_line-fresh, load_line-dump_text, load_line-header, OneLine, OneLine-dump_text,
}

abbrev header_of : InputBlock → Chars
header_of b = codes "<" ++ (b.block_name ++ codes ">")

-- The lines of the dump between its first and its last two.
unfoldable pub block_lines : ParameterInput → List Chars
block_lines [] = []
block_lines (b ∷ bs) = header_of b ∷ (map (dump_text b) b.pline ++ block_lines bs)

-- Lines, each with its end.
abbrev written : List Chars → Chars
written [] = []
written (l ∷ ls) = l ++ b'\n' ∷ written ls

written-append : (ls ms : List Chars) → written (ls ++ ms) ≡ written ls ++ written ms
written-append [] ms = refl
written-append (l ∷ ls) ms =
    ap (λ s. l ++ b'\n' ∷ s) (written-append ls ms)
    ∙ sym (append_assoc l (b'\n' ∷ written ls) (written ms))

get_lines-line : (l s : Chars) → OneLine l → get_lines (l ++ b'\n' ∷ s) ≡ l ∷ get_lines s
unfolding get_lines
get_lines-line [] s h = refl
get_lines-line (c ∷ l) s h = rw (h.0, get_lines-line l s h.1) refl

get_lines-written : (ls : List Chars) → All OneLine ls → get_lines (written ls) ≡ ls ++ [] ∷ []
unfolding get_lines
get_lines-written [] h = refl
get_lines-written (l ∷ ls) h =
    get_lines-line l (written ls) h.0 ∙ ap (◌∷◌ l) (get_lines-written ls h.1)

dump_lines-written :
    (max_size : ℕ) (b : InputBlock) (ls : List InputLine)
    → All (Fits b.max_len_parname b.max_len_parvalue) ls
    → HasRoom max_size b
    → dump_lines max_size b ls ≡ ok (written (map (dump_text b) ls))
unfolding dump_lines
dump_lines-written max_size b [] f r = refl
dump_lines-written max_size b (l ∷ ls) f r =
    rw (dump_line-text max_size b l f.0 r, dump_lines-written max_size b ls f.1 r) refl

dump_blocks-written :
    (max_size : ℕ) (p : ParameterInput)
    → All IsWritableBlock p
    → All (HasRoom max_size) p
    → dump_blocks max_size p ≡ ok (written (block_lines p))
unfolding dump_blocks block_lines
dump_blocks-written max_size [] w r = refl
dump_blocks-written max_size (b ∷ bs) w r =
    rw (dump_lines-written max_size b b.pline w.0.fits r.0, dump_blocks-written max_size bs w.1 r.1)
      (ap (λ s. ok (header_of b ++ b'\n' ∷ s))
        (sym (written-append (map (dump_text b) b.pline) (block_lines bs))))

OneLine-lines :
    (b : InputBlock) (ls : List InputLine) (rest : List Chars)
    → All IsWritable ls
    → All OneLine rest
    → All OneLine (map (dump_text b) ls ++ rest)
OneLine-lines b [] rest w h = h
OneLine-lines b (l ∷ ls) rest w h = (OneLine-dump_text b l w.0, OneLine-lines b ls rest w.1 h)

OneLine-block_lines :
    (p : ParameterInput) (rest : List Chars)
    → All IsWritableBlock p
    → All OneLine rest
    → All OneLine (block_lines p ++ rest)
unfolding block_lines
OneLine-block_lines [] rest w h = h
OneLine-block_lines (b ∷ bs) rest w h = (
  (refl, AllNot-append (is b'\n') b.block_name (codes ">") w.0.name.2 (refl, tt)),
  rw (append_assoc (map (dump_text b) b.pline) (block_lines bs) rest) (
      OneLine-lines b b.pline (block_lines bs ++ rest) w.0.lines
        (OneLine-block_lines bs rest w.1 h)),
)

-- The parameters of a block, added in turn.
unfoldable pub fill : List InputLine → InputBlock → InputBlock
fill [] c = c
fill (l ∷ ls) c = fill ls (add_parameter l.param_name l.param_value l.param_comment c)

abbrev reload : InputBlock → InputBlock
reload b = fill b.pline (new_block b.block_name)

block_name-fill : (ls : List InputLine) (c : InputBlock) → (fill ls c).block_name ≡ c.block_name
unfolding fill
block_name-fill [] c = refl
block_name-fill (l ∷ ls) c =
    block_name-fill ls (add_parameter l.param_name l.param_value l.param_comment c)
    ∙ block_name-add_parameter l.param_name l.param_value l.param_comment c

pline-fill :
    (ls : List InputLine) (c : InputBlock)
    → Distinct (line_names c.pline) (line_names ls)
    → (fill ls c).pline ≡ c.pline ++ ls
unfolding fill
pline-fill [] c d = sym (append-nil c.pline)
pline-fill (l ∷ ls) c d =
    let e =
      pline-add_parameter l.param_name l.param_value l.param_comment c
      ∙ put_line-fresh l c.pline d.0 in
    pline-fill ls (add_parameter l.param_name l.param_value l.param_comment c)
      (rw (e, map-append) d.1)
    ∙ rw e (append_assoc c.pline (l ∷ []) ls)

abbrev inside : ParameterInput → InputBlock → ℕ → Loading
inside before cur found = record (start (before ++ cur ∷ [])) {
  pib = length before;
  blocks_found = found;
}

load_lines-going :
    (s s' : Loading) (line : Chars) (ls : List Chars)
    → load_line s line ≡ going s'
    → load_lines (line ∷ ls) s ≡ load_lines ls s'
unfolding load_lines
load_lines-going s s' line ls h = rw (h, load_lines)

load_lines-dumped :
    (before : ParameterInput) (b cur : InputBlock) (found : ℕ) (ls : List InputLine)
    (rest : List Chars)
    → All IsWritable ls
    → 0 < found
    → load_lines (map (dump_text b) ls ++ rest) (inside before cur found)
      ≡ load_lines rest (inside before (fill ls cur) found)
unfolding fill
load_lines-dumped before b cur found [] rest w f = refl
load_lines-dumped before b cur found (l ∷ ls) rest w f =
    load_lines-going (inside before cur found) _ (dump_text b l) _
      (load_line-dump_text (inside before cur found) b l w.0 refl f)
    ∙ rw (at_block-last before (add_parameter l.param_name l.param_value l.param_comment) cur) (
        load_lines-dumped before b (add_parameter l.param_name l.param_value l.param_comment cur)
          found ls rest w.1 f)

-- What a file says, without the alignment of its columns.
abbrev pub contents : ParameterInput → List (Chars × List InputLine)
contents = map (λ b. (b.block_name, b.pline))

contents-reload :
    (p : ParameterInput) → All IsWritableBlock p → contents (map reload p) ≡ contents p
contents-reload [] w = refl
contents-reload (b ∷ bs) w = rw (
  block_name-fill b.pline (new_block b.block_name),
  pline-fill b.pline (new_block b.block_name) w.0.distinct,
  contents-reload bs w.1,
)

-- The state between two blocks: `pib` still points at the last one.
abbrev between : ParameterInput → ℕ → ℕ → Loading
between before pib found = record (start before) { pib = pib; blocks_found = found }

abbrev trailer : List Chars
trailer = par_dump ∷ codes "<par_end>" ∷ [] ∷ []

load_lines-trailer : (s : Loading) → load_lines trailer s ≡ ok s
unfolding load_lines load_line line_from remove_tabs find_first eqb
load_lines-trailer s = refl

abbrev params_of : Result Error Loading → Result Error ParameterInput
params_of r = r >>= λ s. ok s.params

enter_block-fresh :
    (before : ParameterInput) (pib found : ℕ) (name : Chars)
    → Absent name (block_names before)
    → enter_block (between before pib found) name ≡ inside before (new_block name) (found + 1)
unfolding enter_block
enter_block-fresh before pib found name h = rw (find_or_add_block-fresh name before h)

load_line-par_dump : (s : Loading) → load_line s par_dump ≡ going s
unfolding load_line line_from remove_tabs find_first eqb
load_line-par_dump s = refl

load_lines-blocks :
    (p before : ParameterInput) (pib found : ℕ)
    → All IsWritableBlock p
    → Distinct (block_names before) (block_names p)
    → params_of (load_lines (block_lines p ++ trailer) (between before pib found))
      ≡ ok (before ++ map reload p)
unfolding block_lines
load_lines-blocks [] before pib found w d =
    rw (load_lines-trailer (between before pib found), append-nil before)
load_lines-blocks (b ∷ bs) before pib found w d =
    ap params_of (
      load_lines-going (between before pib found) (inside before (new_block name) (found + 1))
        (codes "<" ++ (name ++ codes ">")) _
        (load_line-header (between before pib found) name w.0.name.0 w.0.name.1 w.0.name.3 refl
          ∙ ap going (enter_block-fresh before pib found name d.0))
      ∙ ap (λ ls. load_lines ls (inside before (new_block name) (found + 1)))
          (append_assoc (map (dump_text b) b.pline) (block_lines bs) trailer)
      ∙ load_lines-dumped before b (new_block name) (found + 1) b.pline (block_lines bs ++ trailer)
          w.0.lines (omega arith))
    ∙ load_lines-blocks bs (before ++ reload b ∷ []) (length before) (found + 1) w.1
        (rw (map-append, block_name-fill b.pline (new_block name)) d.1)
    ∙ ap ok (append_assoc before (reload b ∷ []) (map reload bs))
  where
    name : Chars
    name = b.block_name

last_lines : List Chars
last_lines = par_dump ∷ codes "<par_end>" ∷ []

parameter_dump-written :
    (max_size : ℕ) (p : ParameterInput)
    → All IsWritableBlock p
    → All (HasRoom max_size) p
    → parameter_dump max_size p ≡ ok (written (par_dump ∷ (block_lines p ++ last_lines)))
unfolding parameter_dump last_lines
parameter_dump-written max_size p w r =
    rw (dump_blocks-written max_size p w r)
      (ap (λ s. ok (par_dump ++ b'\n' ∷ s)) (sym (written-append (block_lines p) last_lines)))

get_lines-dump :
    (p : ParameterInput)
    → All IsWritableBlock p
    → get_lines (written (par_dump ∷ (block_lines p ++ last_lines)))
      ≡ par_dump ∷ (block_lines p ++ trailer)
unfolding last_lines
get_lines-dump p w =
    get_lines-written (par_dump ∷ (block_lines p ++ last_lines)) (
      AllNot-any (is b'\n') par_dump refl,
      OneLine-block_lines p last_lines w (
        AllNot-any (is b'\n') par_dump refl,
        (AllNot-any (is b'\n') (codes "<par_end>") refl, tt),
      ),
    )
    ∙ ap (◌∷◌ par_dump) (append_assoc (block_lines p) last_lines ([] ∷ []))

-- A parameter file whose blocks and lines the input syntax can express, with no tab and no end of a
-- line in a name, a value or a comment, with distinct names of blocks and of the lines of a block,
-- where the two lengths of a block bound those of its lines and are less than the most bytes of a
-- string, a parameter below 2^64, is dumped without an error. The bytes that are dumped, taken
-- apart into lines and loaded into an empty input, load without an error and give the same blocks,
-- with the same lines in the same order.
pub load_from_stream-parameter_dump :
    (max_size : ℕ) (p : ParameterInput)
    → All IsWritableBlock p
    → All (HasRoom max_size) p
    → Distinct [] (block_names p)
    → (dumped : Chars) × (q : ParameterInput) × (parameter_dump max_size p ≡ ok dumped)
      × (load_from_stream (get_lines dumped) [] ≡ ok q)
      × (contents q ≡ contents p)
unfolding load_from_stream
load_from_stream-parameter_dump max_size p w r d = (
  written (par_dump ∷ (block_lines p ++ last_lines)),
  map reload p,
  parameter_dump-written max_size p w r,
  ap (λ ls. params_of (load_lines ls (start []))) (get_lines-dump p w)
      ∙ ap params_of (
          load_lines-going (start []) (start []) par_dump (block_lines p ++ trailer)
            (load_line-par_dump (start [])))
      ∙ load_lines-blocks p [] 0 0 w d,
  contents-reload p w,
)

-- ===== src/Parameters/Stream.antt =====
-- LoadFromStream and ParameterDump of src/parameter_input.cpp. A stream is the list of its lines,
-- as `std::getline` gives them.
use parthenon.Base.{
  ℕ, suc, ◌+◌, ◌-◌, ◌==◌, ◌||◌, if◌then◌else◌, Bool, true, false, List, [], ◌∷◌, ◌++◌, length, take,
  drop, Result, ok, err, ◌>>=◌,
}
use parthenon.Base.Chars.{codes, eqb, find_first, next}
use parthenon.Parameters.Store.{
  Chars, InputBlock, InputLine, Error, block_not_ended, multiline_block, no_block, ParameterInput,
  find_or_add_block, at_block, add_parameter,
}
use parthenon.Parameters.Line.{is, not_space, Parsed, parse_line, dump_line}

-- The local variables of LoadFromStream that live across lines. `pib` is the position of the
-- current block; `blocks_found` is 0 as long as there is none.
pub record Loading : Type 0 where
  pub params : ParameterInput
  pub pib : ℕ
  pub blocks_found : ℕ
  pub continuing : Bool
  pub multiline_name : Chars
  pub multiline_value : Chars
  pub multiline_comment : Chars

abbrev pub start : ParameterInput → Loading
start p = record {
  params = p;
  pib = 0;
  blocks_found = 0;
  continuing = false;
  multiline_name = [];
  multiline_value = [];
  multiline_comment = [];
}

-- `line.erase(std::remove(..., '\t'), line.end())`
unfoldable pub remove_tabs : Chars → Chars
remove_tabs [] = []
remove_tabs (c ∷ s) = let rest = remove_tabs s in if c == b'\t' then rest else c ∷ rest

-- The name in `<name>`, for a `<` at position `first`: the `assign(line, first + 1, last - 1)`
-- counts from the start of the line.
unfoldable pub block_name_at : ℕ → Chars → Result Error Chars
block_name_at first line =
    let rest = drop (suc first) line in
    next (λ j. ok (take (suc first + j - 1) rest)) (err block_not_ended) (find_first (is b'>') rest)

unfoldable pub enter_block : Loading → Chars → Loading
enter_block s name =
    let r = find_or_add_block name s.params in
    record s { params = r.0; pib = r.1; blocks_found = s.blocks_found + 1 }

unfoldable pub store : Loading → Chars → Chars → Chars → Loading
store s name value comment =
    if eqb name []
    then s
    else record s { params = at_block s.pib (add_parameter name value comment) s.params }

-- The buffering of continued lines: append while a line continues, and flush at the last one.
unfoldable pub take_parsed : Loading → Parsed → Loading
take_parsed s l =
    if s.continuing || l.continuation
    then (if l.continuation
        then record s {
          continuing = true;
          multiline_name = s.multiline_name ++ l.name;
          multiline_value = s.multiline_value ++ l.value;
          multiline_comment = s.multiline_comment ++ l.comment;
        }
        else store
            (record s {
              continuing = false;
              multiline_name = [];
              multiline_value = [];
              multiline_comment = [];
            })
            (s.multiline_name ++ l.name) (s.multiline_value ++ l.value)
            (s.multiline_comment ++ l.comment))
    else store s l.name l.value l.comment

pub data Step : Type 0 where
  going : Loading → Step
  stopped : Loading → Step
  failed : Error → Step

unfoldable pub block_step : Loading → Result Error Chars → Step
block_step s (err e) = failed e
block_step s (ok name) = going (enter_block s name)

unfoldable pub param_step : Loading → Result Error Parsed → Step
param_step s (err e) = failed e
param_step s (ok l) = going (take_parsed s l)

-- `line.compare(first, n, t) == 0`
abbrev pub stands_at : ℕ → Chars → Chars → Bool
stands_at first t line = eqb (take (length t) (drop first line)) t

-- The tests in the loop's body, for a line whose first non-blank byte is at `first`.
unfoldable pub line_from : Loading → Chars → ℕ → Step
line_from s line first =
    if stands_at first (codes "#") line
    then going s
    else (if stands_at first (codes "<par_end>") line
        then stopped s
        else (if stands_at first (codes "<") line
            then (if s.continuing
                then failed multiline_block
                else block_step s (block_name_at first line))
            else (if s.blocks_found == 0 then failed no_block else param_step s (parse_line line))))

unfoldable pub load_line : Loading → Chars → Step
load_line s raw =
    let line = remove_tabs raw in next (line_from s line) (going s) (find_first not_space line)

-- The loop over the lines, to the end of the stream or a line `<par_end>`.
unfoldable pub load_lines : List Chars → Loading → Result Error Loading
load_lines [] s = ok s
load_lines (l ∷ ls) s = elim (load_line s l) [
  | going s' ↦ load_lines ls s'
  | stopped s' ↦ ok s'
  | failed e ↦ err e
]

unfoldable pub load_from_stream : List Chars → ParameterInput → Result Error ParameterInput
load_from_stream ls p = load_lines ls (start p) >>= λ s. ok s.params

abbrev pub par_dump : Chars
par_dump = codes "#------------------------- PAR_DUMP -------------------------"

unfoldable pub dump_lines : ℕ → InputBlock → List InputLine → Result Error Chars
dump_lines max_size b [] = ok []
dump_lines max_size b (l ∷ ls) = dump_line max_size b l >>= λ line.
    dump_lines max_size b ls >>= λ rest. ok (line ++ b'\n' ∷ rest)

unfoldable pub dump_blocks : ℕ → ParameterInput → Result Error Chars
dump_blocks max_size [] = ok []
dump_blocks max_size (b ∷ bs) = dump_lines max_size b b.pline >>= λ lines.
    dump_blocks max_size bs >>= λ rest.
    ok ((codes "<" ++ (b.block_name ++ codes ">")) ++ b'\n' ∷ (lines ++ rest))

-- The bytes that go to the stream.
unfoldable pub parameter_dump : ℕ → ParameterInput → Result Error Chars
parameter_dump max_size p = dump_blocks max_size p >>= λ blocks.
    ok (par_dump ++ b'\n' ∷ (blocks ++ (par_dump ++ b'\n' ∷ (codes "<par_end>" ++ b'\n' ∷ []))))

abbrev pub to_first : ℕ → List Chars → List Chars
to_first c [] = (c ∷ []) ∷ []
to_first c (l ∷ ls) = (c ∷ l) ∷ ls

-- The lines that std::getline gives as long as the stream is good, of which the last, behind the last
-- end of a line, may be empty.
unfoldable pub get_lines : Chars → List Chars
get_lines [] = [] ∷ []
get_lines (c ∷ s) = let rest = get_lines s in if c == b'\n' then [] ∷ rest else to_first c rest

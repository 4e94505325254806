-- ===== src/Examples/ParametersAt.antt =====
-- Concrete input files and command lines for the theorems on src/parameter_input.cpp.
use parthenon.Base.{
  ◌^◌, leb, ◌+◌, ◌-◌, if◌then◌else◌, true, false, Option, none, some, List, [], ◌∷◌, ◌++◌, ◌≡◌,
  refl, arith, All, ok,
}
use parthenon.Base.Int.{ℤ, pos, negsuc}
use parthenon.Base.Chars.{codes, eqb, AllNot-any, find_last, find_first}
use parthenon.Parameters.Store.{
  Chars, InputLine, InputBlock, ParameterInput, get_line, get_string, put, does_parameter_exist,
  get_ptr_to_block, get_ptr_to_line, find_or_add_block, add_parameter, put_line, at_block,
}
use parthenon.Parameters.Line.{
  is, parse_line, dump_line, split_comment, split_name, split_continuation, trim_value, finish,
}
use parthenon.Parameters.ParseDump.{IsPlain, Fits, HasRoom, parsed_line, parse_line-dump_line}
use parthenon.Parameters.Stream.{
  load_from_stream, parameter_dump, get_lines, block_name_at, load_lines, load_line, line_from,
  remove_tabs, enter_block, store, take_parsed, block_step, param_step,
}
use parthenon.Parameters.CommandLine.{
  split_argument, modify_from_cmdline, apply_argument, modify_line, assign_value,
}
use parthenon.Parameters.Values.{
  Streams, get_boolean, get_integer, get_real, set_boolean, set_integer, set_real,
  get_or_add_boolean, get_or_add_integer, get_or_add_real,
}
use parthenon.Parameters.Lookup.{get_line-put, written, block_seen}
use parthenon.Parameters.Reload.{contents, load_from_stream-parameter_dump}
use parthenon.Parameters.Writable.{IsWritable, IsWritableBlock}
use parthenon.Parameters.ReadBack.{get-set}
use parthenon.Parameters.Sound.{IsSound}
use parthenon.Parameters.SoundOps.{load_from_stream-IsSound, modify_from_cmdline-IsSound}
use parthenon.Parameters.Syntax.{modify_from_cmdline-sets}
use parthenon.Parameters.Vectors.{get_or_add_vector, trim, IsItem, get_or_add_vector_twice}

abbrev refinement : InputLine
refinement = record {
  param_name = codes "refinement";
  param_value = codes "adaptive";
  param_comment = codes "# type";
}

abbrev mesh : InputBlock
mesh = record {
  block_name = codes "parthenon/mesh";
  max_len_parname = 10;
  max_len_parvalue = 8;
  pline = refinement ∷ [];
}

refinement-IsPlain : IsPlain refinement
unfolding find_last
refinement-IsPlain = record {
  named = λ h. cc;
  name_hash = AllNot-any (is b'#') (codes "refinement") refl;
  name_equal = AllNot-any (is b'=') (codes "refinement") refl;
  name_starts = refl;
  name_ends = refl;
  value_hash = AllNot-any (is b'#') (codes "adaptive") refl;
  value_and = AllNot-any (is b'&') (codes "adaptive") refl;
  value_starts = refl;
  value_ends = refl;
  commented = refl;
}

refinement-IsWritable : IsWritable refinement
unfolding eqb
refinement-IsWritable = record {
  plain = refinement-IsPlain;
  head = refl;
  name_tab = AllNot-any (is b'\t') (codes "refinement") refl;
  value_tab = AllNot-any (is b'\t') (codes "adaptive") refl;
  comment_tab = AllNot-any (is b'\t') (codes "# type") refl;
  name_line = AllNot-any (is b'\n') (codes "refinement") refl;
  value_line = AllNot-any (is b'\n') (codes "adaptive") refl;
  comment_line = AllNot-any (is b'\n') (codes "# type") refl;
}

mesh-Fits : Fits 10 8 refinement
mesh-Fits = (omega arith, omega arith)

mesh-HasRoom : HasRoom (2 ^ 62 - 1) mesh
mesh-HasRoom = (omega arith, omega arith, omega arith)

mesh-IsWritableBlock : IsWritableBlock mesh
unfolding eqb
mesh-IsWritableBlock = record {
  name = (
    AllNot-any (is b'>') (codes "parthenon/mesh") refl,
    AllNot-any (is b'\t') (codes "parthenon/mesh") refl,
    AllNot-any (is b'\n') (codes "parthenon/mesh") refl,
    refl,
  );
  lines = (refinement-IsWritable, tt);
  distinct = (tt, tt);
  fits = (mesh-Fits, tt);
}

parse_line-dump_line_example :
    (line : Chars) × (dump_line (2 ^ 62 - 1) mesh refinement ≡ ok line)
    × (parse_line line ≡ ok (parsed_line refinement))
parse_line-dump_line_example =
    parse_line-dump_line (2 ^ 62 - 1) mesh refinement refinement-IsPlain mesh-Fits mesh-HasRoom

get_line-put_example :
    get_line
      (codes "parthenon/mesh")
      (codes "nx1")
      (put (codes "parthenon/mesh") (codes "nx1") (codes "64") (codes "# cells") (mesh ∷ []))
    ≡ (if eqb (codes "parthenon/mesh") (codes "parthenon/mesh")
        then if eqb (codes "nx1") (codes "nx1")
          then ok (written (codes "nx1") (codes "64") (codes "# cells"))
          else block_seen (get_line (codes "parthenon/mesh") (codes "nx1") (mesh ∷ []))
        else get_line (codes "parthenon/mesh") (codes "nx1") (mesh ∷ []))
get_line-put_example =
    get_line-put (codes "parthenon/mesh") (codes "nx1") (codes "64") (codes "# cells")
      (codes "parthenon/mesh") (codes "nx1") (mesh ∷ [])

load_from_stream-parameter_dump_example :
    (dumped : Chars) × (q : ParameterInput) × (parameter_dump (2 ^ 62 - 1) (mesh ∷ []) ≡ ok dumped)
    × (load_from_stream (get_lines dumped) [] ≡ ok q)
    × (contents q ≡ contents (mesh ∷ []))
load_from_stream-parameter_dump_example =
    load_from_stream-parameter_dump (2 ^ 62 - 1) (mesh ∷ []) (mesh-IsWritableBlock, tt)
      (mesh-HasRoom, tt) (tt, tt)

-- A conversion in which a number is one byte, after a minus sign if it is negative.
abbrev read_digit : Chars → Option ℤ
read_digit [] = none
read_digit (c ∷ []) = some (pos (c - 48))
read_digit (c ∷ d ∷ s) = some (negsuc (d - 48))

abbrev show_digit : ℤ → Chars
show_digit (pos n) = (n + 48) ∷ []
show_digit (negsuc n) = b'-' ∷ (n + 48) ∷ []

read_digit-show_digit : (n : ℤ) → read_digit (show_digit n) ≡ some n
read_digit-show_digit (pos n) = ground arith
read_digit-show_digit (negsuc n) = ground arith

abbrev or_zero : Option ℤ → ℤ
or_zero none = pos 0
or_zero (some n) = n

abbrev digits : Streams
digits = record {
  Real = ℤ;
  stoi = read_digit;
  show_int = show_digit;
  atof = λ s. or_zero (read_digit s);
  show_real = λ precision x. if leb 17 precision then show_digit x else show_digit (pos 0);
  is_finite = λ x. true;
  boolalpha = λ s. eqb s (codes "true");
  tolower = λ c. c;
  stoi-show_int = λ n h. read_digit-show_digit n;
  atof-show_real = λ x h. rw (read_digit-show_digit x);
  stoi_zero = refl;
  stoi_one = refl;
}

abbrev with_flag : ParameterInput
with_flag = set_boolean digits (codes "b") (codes "n") true (mesh ∷ [])

abbrev with_seven : ParameterInput
with_seven = set_integer digits (codes "b") (codes "n") (pos 7) (mesh ∷ [])

abbrev with_three : ParameterInput
with_three = set_real digits (codes "b") (codes "n") (pos 3) (mesh ∷ [])

get-set_example :
    (get_boolean digits (codes "b") (codes "n") with_flag ≡ ok true)
    × (get_or_add_boolean digits (codes "b") (codes "n") false with_flag ≡ ok (true, with_flag))
    × (get_integer digits (codes "b") (codes "n") with_seven ≡ ok (pos 7))
    × (get_or_add_integer digits (codes "b") (codes "n") (pos 8) with_seven
        ≡ ok (pos 7, with_seven))
    × (get_real digits (codes "b") (codes "n") with_three ≡ ok (pos 3))
    × (get_or_add_real digits (codes "b") (codes "n") (pos 4) with_three ≡ ok (pos 3, with_three))
get-set_example =
    get-set digits (codes "b") (codes "n") true false (pos 7) (pos 8) (pos 3) (pos 4) (mesh ∷ [])
      (omega arith, omega arith) refl

absent : does_parameter_exist (codes "b") (codes "n") (mesh ∷ []) ≡ false
unfolding does_parameter_exist get_ptr_to_block get_ptr_to_line eqb
absent = refl

no_blocks-IsSound : IsSound []
no_blocks-IsSound = record { distinct = tt; blocks = tt }

abbrev job_file : List Chars
job_file = codes "<job>" ∷ codes "name = run" ∷ []

abbrev job : ParameterInput
job =
    record {
      block_name = codes "job";
      max_len_parname = 4;
      max_len_parvalue = 3;
      pline =
          record { param_name = codes "name"; param_value = codes "run"; param_comment = [] } ∷ [];
    }
    ∷ []

load_job : load_from_stream job_file [] ≡ ok job
unfolding load_from_stream load_lines load_line line_from remove_tabs block_name_at enter_block
    store take_parsed block_step param_step parse_line split_comment split_name split_continuation
    trim_value finish find_first find_last find_or_add_block add_parameter put_line at_block eqb
load_job = refl

load_from_stream-IsSound_example : IsSound job
load_from_stream-IsSound_example =
    load_from_stream-IsSound job_file [] job no_blocks-IsSound load_job

abbrev renamed : ParameterInput
renamed =
    record {
      block_name = codes "job";
      max_len_parname = 4;
      max_len_parvalue = 4;
      pline =
          record { param_name = codes "name"; param_value = codes "test"; param_comment = [] } ∷ [];
    }
    ∷ []

rename_job : modify_from_cmdline (codes "job/name=test" ∷ []) job ≡ ok renamed
unfolding modify_from_cmdline apply_argument split_argument modify_line assign_value get_ptr_to_line
    get_ptr_to_block find_first find_last find_or_add_block add_parameter put_line at_block eqb
rename_job = refl

modify_from_cmdline-IsSound_example : IsSound renamed
modify_from_cmdline-IsSound_example =
    modify_from_cmdline-IsSound (codes "job/name=test" ∷ []) job renamed
      (load_from_stream-IsSound job_file [] job no_blocks-IsSound load_job) rename_job

modify_from_cmdline-sets_example :
    (q : ParameterInput) × (modify_from_cmdline
        ((codes "job" ++ b'/' ∷ (codes "name" ++ b'=' ∷ codes "test")) ∷ [])
        job
      ≡ ok q)
    × (get_string (codes "job") (codes "name") q ≡ ok (codes "test"))
    × ((name' : Chars)
        → eqb name' (codes "name") ≡ false
        → get_line (codes "job") name' q ≡ block_seen (get_line (codes "job") name' job))
    × ((block' name' : Chars)
        → eqb block' (codes "job") ≡ false
        → get_line block' name' q ≡ get_line block' name' job)
modify_from_cmdline-sets_example =
    modify_from_cmdline-sets (codes "job") (codes "name") (codes "test") job
      (AllNot-any (is b'=') (codes "job") refl) (AllNot-any (is b'=') (codes "name") refl)
      (AllNot-any (is b'/') (codes "name") refl)

items : All IsItem (codes "u" ∷ codes "v w" ∷ [])
unfolding trim find_first find_last
items = (((refl, tt), refl), (((refl, (refl, (refl, tt))), refl), tt))

get_or_add_vector_twice_example :
    (q : ParameterInput) × (get_or_add_vector
        (codes "b")
        (codes "n")
        (codes "u" ∷ codes "v w" ∷ [])
        (mesh ∷ [])
      ≡ ok (codes "u" ∷ codes "v w" ∷ [], q))
    × (get_or_add_vector (codes "b") (codes "n") [] q ≡ ok (codes "u" ∷ codes "v w" ∷ [], q))
get_or_add_vector_twice_example =
    get_or_add_vector_twice (codes "b") (codes "n") (codes "u") (codes "v w" ∷ []) [] (mesh ∷ [])
      absent items

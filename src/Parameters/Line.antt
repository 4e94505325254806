-- ===== src/Parameters/Line.antt =====
-- ParseLine of src/parameter_input.cpp: one line `name = value # comment`, and the line that
-- ParameterDump writes.
use parthenon.Base.{
  ℕ, ◌+◌, ◌-◌, ◌==◌, not, Bool, true, false, [], ◌++◌, ◌≡◌, refl, length, take, drop, replicate,
  Result, ok, err, guard, ◌>>◌, ◌>>=◌, leb, ◌^◌, ◌%◌,
}
use parthenon.Base.Chars.{codes, find_first, find_last, erase_before, erase_after, next}
use parthenon.Parameters.Store.{
  Chars, Error, text_after_continuation, length_error, InputLine, InputBlock,
}

abbrev pub is : ℕ → ℕ → Bool
is c x = x == c

abbrev pub not_space : ℕ → Bool
not_space x = not (x == b' ')

pub record Parsed : Type 0 where
  pub name : Chars
  pub value : Chars
  pub comment : Chars
  pub continuation : Bool

-- The line without its comment, and the comment with its `#`.
unfoldable pub split_comment : Chars → Chars × Chars
unfolding find_first
split_comment line = next (λ h. (take h line, drop h line)) (line, []) (find_first (is b'#') line)

-- The name in front of the first `=`, and what the line holds behind it.
unfoldable pub split_name : Chars → Chars × Chars
unfolding find_first find_last
split_name line =
    let start = find_first not_space line in
    next
      (λ e.
        let name = take (e - next (λ i. i) 0 start) (erase_before start line) in
        (erase_after (find_last not_space name) name, drop (e + 1) line))
      ([], erase_before start line) (find_first (is b'=') line)

-- The value up to the continuation character, and whether there is one.
unfoldable pub split_continuation : Chars → Result Error (Chars × Bool)
unfolding find_first
split_continuation line =
    next
      (λ c.
        next (λ i. err text_after_continuation) (ok (take c line, true))
          (find_first not_space (drop (c + 1) line)))
      (ok (line, false)) (find_first (is b'&') line)

unfoldable pub trim_value : Chars → Chars
unfolding find_first find_last
trim_value value =
    let v = erase_before (find_first not_space value) value in erase_after (find_last not_space v) v

unfoldable pub finish : Chars → Chars → Result Error (Chars × Bool) → Result Error Parsed
finish name comment (err e) = err e
finish name comment (ok (value, continuation)) = ok (record {
  name = name;
  value = trim_value value;
  comment = comment;
  continuation = continuation;
})

unfoldable pub parse_line : Chars → Result Error Parsed
parse_line line =
    let a = split_comment line in let b = split_name a.0 in finish b.0 a.1 (split_continuation b.1)

-- `max_len - len + 1` on `std::size_t`, which wraps.
abbrev pub pad_length : ℕ → ℕ → ℕ
pad_length max_len len = (max_len + 2 ^ 64 - len + 1) % 2 ^ 64

-- `s.append(n, ' ')`, which throws where the string would have more than `max_size()` bytes, as the library
-- sets it.
unfoldable pub append_spaces : ℕ → Chars → ℕ → Result Error Chars
append_spaces max_size s n =
    guard (leb n (max_size - length s)) length_error >> ok (s ++ replicate n b' ')

-- The line that ParameterDump writes for a parameter.
unfoldable pub dump_line : ℕ → InputBlock → InputLine → Result Error Chars
dump_line max_size b l =
    append_spaces max_size l.param_name (pad_length b.max_len_parname (length l.param_name))
    >>= λ name.
        append_spaces max_size l.param_value (pad_length b.max_len_parvalue (length l.param_value))
        >>= λ value. ok (name ++ (codes "= " ++ (value ++ l.param_comment)))

parse_test :
    parse_line (codes "  nx1 = 64 8  # cells")
    ≡ ok (record {
      name = codes "nx1";
      value = codes "64 8";
      comment = codes "# cells";
      continuation = false;
    })
unfolding parse_line split_comment split_name split_continuation finish trim_value
parse_test = refl

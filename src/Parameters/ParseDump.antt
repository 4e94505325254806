-- ===== src/Parameters/ParseDump.antt =====
-- ParseLine on the lines that ParameterDump writes (src/parameter_input.cpp).
use mathlib.Core.List.{append_assoc, append-nil}
use parthenon.Base.{
  ◌^◌, ℕ, zero, suc, ◌+◌, ◌-◌, Bool, true, false, some, [], ◌∷◌, ◌++◌, ◌≡◌, ◌≢◌, refl, ap, ◌∙◌,
  arith, length, drop, replicate, ok, leb, ◌≤◌, ◌<◌,
}
use parthenon.Base.Chars.{
  codes, find_first, find_last, erase_after, AllNot, AllNot-append, find_first-none,
  find_first-append, erase_after-append, take-length_append, drop-length_append,
}
use parthenon.Parameters.Store.{Chars, InputLine, InputBlock}
use parthenon.Parameters.Line.{
  is, not_space, split_comment, split_name, split_continuation, trim_value, finish, parse_line,
  dump_line, pad_length, append_spaces, Parsed,
}

-- No space in front.
abbrev pub StartsFull : Chars → Type 0
StartsFull [] = Unit
StartsFull (c ∷ s) = not_space c ≡ true

-- No space at the end.
abbrev pub EndsFull : Chars → Type 0
EndsFull s = erase_after (find_last not_space s) s ≡ s

abbrev pub IsComment : Chars → Type 0
IsComment [] = Unit
IsComment (c ∷ s) = c ≡ b'#'

-- A line that the input syntax can express.
pub record IsPlain (l : InputLine) : Type 0 where
  pub named : l.param_name ≢ []
  pub name_hash : AllNot (is b'#') l.param_name
  pub name_equal : AllNot (is b'=') l.param_name
  pub name_starts : StartsFull l.param_name
  pub name_ends : EndsFull l.param_name
  pub value_hash : AllNot (is b'#') l.param_value
  pub value_and : AllNot (is b'&') l.param_value
  pub value_starts : StartsFull l.param_value
  pub value_ends : EndsFull l.param_value
  pub commented : IsComment l.param_comment

pub AllNot-replicate : (p : ℕ → Bool) (n c : ℕ) → p c ≡ false → AllNot p (replicate n c)
AllNot-replicate p zero c h = tt
AllNot-replicate p (suc n) c h = (h, AllNot-replicate p n c h)

split_comment-append :
    (s c : Chars) → AllNot (is b'#') s → IsComment c → split_comment (s ++ c) ≡ (s, c)
unfolding split_comment
split_comment-append s [] h k = rw (append-nil s, find_first-none (is b'#') s h)
split_comment-append s (c ∷ r) h k = rw (
  find_first-append (is b'#') s c r h (rw k refl),
  take-length_append s (c ∷ r),
  drop-length_append s (c ∷ r),
)

find_first-starts : (s t : Chars) → s ≢ [] → StartsFull s → find_first not_space (s ++ t) ≡ some 0
unfolding find_first
find_first-starts [] t h k = absurd (h refl)
find_first-starts (c ∷ s) t h k = rw k

drop_past : (s : Chars) (c : ℕ) (t : Chars) → drop (length s + 1) (s ++ c ∷ t) ≡ t
drop_past [] c t = refl
drop_past (x ∷ s) c t =
    let e : suc (length s) + 1 ≡ suc (length s + 1) = omega arith in rw e (drop_past s c t)

sub-zero : (n : ℕ) → n - 0 ≡ n
sub-zero n = omega arith

split_name-append :
    (name : Chars) (k : ℕ) (rest : Chars)
    → name ≢ []
    → AllNot (is b'=') name
    → StartsFull name
    → EndsFull name
    → split_name ((name ++ replicate k b' ') ++ b'=' ∷ rest) ≡ (name, rest)
unfolding split_name
split_name-append name k rest ne eq st en = rw (
  ap (find_first not_space) (append_assoc name (replicate k b' ') (b'=' ∷ rest))
      ∙ find_first-starts name (replicate k b' ' ++ b'=' ∷ rest) ne st,
  find_first-append (is b'=') (name ++ replicate k b' ') b'=' rest
      (AllNot-append (is b'=') name (replicate k b' ') eq (AllNot-replicate (is b'=') k b' ' refl))
      refl,
  sub-zero (length (name ++ replicate k b' ')),
  take-length_append (name ++ replicate k b' ') (b'=' ∷ rest),
  erase_after-append not_space name (replicate k b' ') (AllNot-replicate not_space k b' ' refl),
  en,
  drop_past (name ++ replicate k b' ') b'=' rest,
)

trim_value-padded :
    (v : Chars) (k : ℕ)
    → StartsFull v
    → EndsFull v
    → trim_value (b' ' ∷ (v ++ replicate k b' ')) ≡ v
unfolding trim_value find_first
trim_value-padded [] k st en =
    rw (find_first-none not_space (replicate k b' ') (AllNot-replicate not_space k b' ' refl))
trim_value-padded (c ∷ s) k st en =
    rw
      (
        st,
        erase_after-append not_space (c ∷ s) (replicate k b' ')
            (AllNot-replicate not_space k b' ' refl),
      )
      en

abbrev spaces : ℕ → Chars
spaces n = replicate n b' '

abbrev body : InputLine → ℕ → ℕ → Chars
body l i j = (l.param_name ++ spaces i) ++ b'=' ∷ (b' ' ∷ (l.param_value ++ spaces j))

AllNot-body : (l : InputLine) (i j : ℕ) → IsPlain l → AllNot (is b'#') (body l i j)
AllNot-body l i j h =
    AllNot-append (is b'#') (l.param_name ++ spaces i) _
      (AllNot-append (is b'#') l.param_name (spaces i) h.name_hash (AllNot-replicate _ i b' ' refl))
      (
        refl,
        (
          refl,
          AllNot-append (is b'#') l.param_value (spaces j) h.value_hash
              (AllNot-replicate _ j b' ' refl),
        ),
      )

-- A block's two lengths bound those of a line, so that the paddings do not wrap.
abbrev pub Fits : ℕ → ℕ → InputLine → Type 0
Fits m n l = (length l.param_name ≤ m) × (length l.param_value ≤ n)

-- A string has room for the two lengths of the block and a space.
abbrev pub HasRoom : ℕ → InputBlock → Type 0
HasRoom max_size b =
    (b.max_len_parname < max_size) × (b.max_len_parvalue < max_size) × (max_size < 2 ^ 64)

-- The line that is dumped where nothing wraps.
unfoldable pub dump_text : InputBlock → InputLine → Chars
dump_text b l =
    l.param_name
    ++ spaces (b.max_len_parname - length l.param_name + 1)
    ++ (codes "= "
        ++ (l.param_value
            ++ (spaces (b.max_len_parvalue - length l.param_value + 1) ++ l.param_comment)))

append_spaces-padded :
    (max_size : ℕ) (s : Chars) (m : ℕ)
    → length s ≤ m
    → m < max_size
    → max_size < 2 ^ 64
    → append_spaces max_size s (pad_length m (length s)) ≡ ok (s ++ spaces (m - length s + 1))
unfolding append_spaces
append_spaces-padded max_size s m h k big =
    let e : pad_length m (length s) ≡ m - length s + 1 = omega arith in
    let room : leb (m - length s + 1) (max_size - length s) ≡ true = ground arith in
    rw (e, room) refl

pub dump_line-text :
    (max_size : ℕ) (b : InputBlock) (l : InputLine)
    → Fits b.max_len_parname b.max_len_parvalue l
    → HasRoom max_size b
    → dump_line max_size b l ≡ ok (dump_text b l)
unfolding dump_line dump_text
dump_line-text max_size b l f r =
    rw
      (
        append_spaces-padded max_size l.param_name b.max_len_parname f.0 r.0 r.2,
        append_spaces-padded max_size l.param_value b.max_len_parvalue f.1 r.1 r.2,
      )
      (ap
        (λ s. ok (
          (l.param_name ++ spaces (b.max_len_parname - length l.param_name + 1))
          ++ (codes "= " ++ s)))
        (append_assoc l.param_value (spaces (b.max_len_parvalue - length l.param_value + 1))
          l.param_comment))

-- That line, split where the comment begins.
dump_text-split :
    (b : InputBlock) (l : InputLine)
    → dump_text b l
      ≡ body l
          (b.max_len_parname - length l.param_name + 1)
          (b.max_len_parvalue - length l.param_value + 1)
        ++ l.param_comment
unfolding dump_text
dump_text-split b l = simp append_assoc

split_continuation-none : (s : Chars) → AllNot (is b'&') s → split_continuation s ≡ ok (s, false)
unfolding split_continuation
split_continuation-none s h = rw (find_first-none (is b'&') s h)

-- What parsing such a line gives back.
abbrev pub parsed_line : InputLine → Parsed
parsed_line l = record {
  name = l.param_name;
  value = l.param_value;
  comment = l.param_comment;
  continuation = false;
}

pub parse_line-dump_text :
    (b : InputBlock) (l : InputLine) → IsPlain l → parse_line (dump_text b l) ≡ ok (parsed_line l)
unfolding parse_line finish
parse_line-dump_text b l h =
    let i = b.max_len_parname - length l.param_name + 1 in
    let j = b.max_len_parvalue - length l.param_value + 1 in
    rw (
      dump_text-split b l,
      split_comment-append (body l i j) l.param_comment (AllNot-body l i j h) h.commented,
      split_name-append l.param_name i (b' ' ∷ (l.param_value ++ spaces j)) h.named h.name_equal
          h.name_starts h.name_ends,
      split_continuation-none (b' ' ∷ (l.param_value ++ spaces j)) (
        refl,
        AllNot-append (is b'&') l.param_value (spaces j) h.value_and
            (AllNot-replicate _ j b' ' refl),
      ),
      trim_value-padded l.param_value j h.value_starts h.value_ends,
    )

-- For a line that the input syntax can express, in a block whose two lengths bound those of the
-- line and are less than the most bytes of a string, a parameter below 2^64, the line is dumped
-- without an error, and parsing what is dumped gives the name, the value and the comment back, with
-- no continuation.
pub parse_line-dump_line :
    (max_size : ℕ) (b : InputBlock) (l : InputLine)
    → IsPlain l
    → Fits b.max_len_parname b.max_len_parvalue l
    → HasRoom max_size b
    → (line : Chars) × (dump_line max_size b l ≡ ok line) × (parse_line line ≡ ok (parsed_line l))
parse_line-dump_line max_size b l h f r =
    (dump_text b l, dump_line-text max_size b l f r, parse_line-dump_text b l h)

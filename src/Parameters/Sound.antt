-- ===== src/Parameters/Sound.antt =====
-- The invariant of the lists of src/parameter_input.cpp: names differ, and a block's two lengths
-- bound those of its lines, so that the paddings of ParameterDump do not wrap.
use mathlib.Core.List.{append_assoc, append-nil}
use parthenon.Base.{
  ℕ, zero, suc, ◌≤◌, ◌⊎◌, none, some, List, [], ◌∷◌, ◌++◌, ◌≡◌, refl, arith, length, Bool-cases,
  inl, inr, All, Option-cases,
}
use parthenon.Base.Chars.{eqb, eqb-eq}
use parthenon.Parameters.Store.{
  Chars, InputLine, InputBlock, ParameterInput, get_ptr_to_line, new_block, find_or_add_block,
  put_line, add_parameter, at_block, put, grow,
}
use parthenon.Parameters.Lookup.{block_name-add_parameter, pline-add_parameter}
use parthenon.Parameters.ParseDump.{Fits}
use parthenon.Parameters.Writable.{Absent, Distinct, line_names, block_names}

pub record IsSoundBlock (b : InputBlock) : Type 0 where
  pub distinct : Distinct [] (line_names b.pline)
  pub fits : All (Fits b.max_len_parname b.max_len_parvalue) b.pline

pub record IsSound (p : ParameterInput) : Type 0 where
  pub distinct : Distinct [] (block_names p)
  pub blocks : All IsSoundBlock p

pub Fits-mono :
    {m m' n n' : ℕ} (ls : List InputLine)
    → m ≤ m'
    → n ≤ n'
    → All (Fits m n) ls
    → All (Fits m' n') ls
Fits-mono [] h k f = tt
Fits-mono (l ∷ ls) h k f = ((omega arith, omega arith), Fits-mono ls h k f.1)

Distinct-append :
    (seen ns : List Chars) (n : Chars)
    → Distinct seen ns
    → Absent n (seen ++ ns)
    → Distinct seen (ns ++ n ∷ [])
Distinct-append seen [] n d a = (rw append-nil at a, tt)
Distinct-append seen (m ∷ ns) n d a =
    (d.0, Distinct-append (seen ++ m ∷ []) ns n d.1 (rw append_assoc a))

pub Absent-lines :
    (name : Chars) (ls : List InputLine)
    → get_ptr_to_line name ls ≡ none
    → Absent name (line_names ls)
unfolding get_ptr_to_line
Absent-lines name [] h = tt
Absent-lines name (l ∷ ls) h = elim (Bool-cases (eqb name l.param_name)) [
  | inl e ↦ ground arith
  | inr e ↦ (e, Absent-lines name ls (ground arith))
]

line_names-put_line_old :
    (name value comment : Chars) (ls : List InputLine) (l : InputLine)
    → get_ptr_to_line name ls ≡ some l
    → line_names (put_line name value comment ls) ≡ line_names ls
unfolding get_ptr_to_line put_line
line_names-put_line_old name value comment [] l h = cc
line_names-put_line_old name value comment (x ∷ ls) l h =
    ground (arith, line_names-put_line_old name value comment ls l)

line_names-put_line_new :
    (name value comment : Chars) (ls : List InputLine)
    → get_ptr_to_line name ls ≡ none
    → line_names (put_line name value comment ls) ≡ line_names ls ++ name ∷ []
unfolding get_ptr_to_line put_line
line_names-put_line_new name value comment [] h = refl
line_names-put_line_new name value comment (x ∷ ls) h =
    ground (arith, line_names-put_line_new name value comment ls)

Fits-put_line :
    (m n : ℕ) (name value comment : Chars) (ls : List InputLine)
    → length name ≤ m
    → length value ≤ n
    → All (Fits m n) ls
    → All (Fits m n) (put_line name value comment ls)
unfolding put_line
Fits-put_line m n name value comment [] h k f = ((h, k), tt)
Fits-put_line m n name value comment (l ∷ ls) h k f = elim (Bool-cases (eqb name l.param_name)) [
  | inl e ↦ rw e ((f.0.0, k), f.1)
  | inr e ↦ rw e (f.0, Fits-put_line m n name value comment ls h k f.1)
]

-- A found line's name is the one asked for, so it fits.
Fits-found :
    (m n : ℕ) (name : Chars) (ls : List InputLine) (l : InputLine)
    → All (Fits m n) ls
    → get_ptr_to_line name ls ≡ some l
    → length name ≤ m
unfolding get_ptr_to_line
Fits-found m n name [] l f h = cc
Fits-found m n name (x ∷ ls) l f h = elim (Bool-cases (eqb name x.param_name)) [
  | inl e ↦ rw (eqb-eq name x.param_name e) f.0.0
  | inr e ↦ Fits-found m n name ls l f.1 (ground arith)
]

pub grow-le : (m n : ℕ) → (m ≤ grow m n) × (n ≤ grow m n)
grow-le m n = ground arith

-- The new line fits; so do the old ones, if there are any.
add_parameter_bounds :
    (name value comment : Chars) (b : InputBlock)
    → All (Fits b.max_len_parname b.max_len_parvalue) b.pline
    → let c = add_parameter name value comment b in
      (length name ≤ c.max_len_parname)
      × (length value ≤ c.max_len_parvalue)
      × ((b.pline ≡ [])
          ⊎ ((b.max_len_parname ≤ c.max_len_parname) × (b.max_len_parvalue ≤ c.max_len_parvalue)))
unfolding add_parameter
add_parameter_bounds name value comment b f = elim (Option-cases (get_ptr_to_line name b.pline)) [
  | inl e ↦ (ground arith, ground arith, ground arith)
  | inr (l, e) ↦
      let h = Fits-found b.max_len_parname b.max_len_parvalue name b.pline l f e in
      (ground arith, ground arith, ground arith)
]

add_parameter-Fits :
    (name value comment : Chars) (b : InputBlock)
    → All (Fits b.max_len_parname b.max_len_parvalue) b.pline
    → let c = add_parameter name value comment b in
      All (Fits c.max_len_parname c.max_len_parvalue) c.pline
add_parameter-Fits name value comment b f =
    let c = add_parameter name value comment b in
    let (hn, hv, old) = add_parameter_bounds name value comment b f in
    rw (pline-add_parameter name value comment b) (
      Fits-put_line c.max_len_parname c.max_len_parvalue name value comment b.pline hn hv
        (elim old [ inl e ↦ rw e tt | inr (m, n) ↦ Fits-mono b.pline m n f ]))

pub add_parameter-IsSoundBlock :
    (name value comment : Chars) (b : InputBlock)
    → IsSoundBlock b
    → IsSoundBlock (add_parameter name value comment b)
add_parameter-IsSoundBlock name value comment b s = record {
  distinct =
      rw (pline-add_parameter name value comment b)
        (elim (Option-cases (get_ptr_to_line name b.pline)) [
          | inl e ↦
              rw (line_names-put_line_new name value comment b.pline e)
                (Distinct-append [] _ name s.distinct (Absent-lines name b.pline e))
          | inr (l, e) ↦ rw (line_names-put_line_old name value comment b.pline l e) s.distinct
        ]);
  fits = add_parameter-Fits name value comment b s.fits;
}

new_block-IsSoundBlock : (name : Chars) → IsSoundBlock (new_block name)
new_block-IsSoundBlock name = record { distinct = tt; fits = tt }

find_or_add_block-blocks :
    (name : Chars) (p : ParameterInput)
    → All IsSoundBlock p
    → All IsSoundBlock (find_or_add_block name p).0
unfolding find_or_add_block
find_or_add_block-blocks name [] h = (new_block-IsSoundBlock name, tt)
find_or_add_block-blocks name (b ∷ bs) h = elim (Bool-cases (eqb name b.block_name)) [
  | inl e ↦ rw e h
  | inr e ↦ rw e (h.0, find_or_add_block-blocks name bs h.1)
]

-- A block is new only if no block has its name.
block_names-find_or_add_block :
    (name : Chars) (p : ParameterInput)
    → (block_names (find_or_add_block name p).0 ≡ block_names p)
      ⊎ ((block_names (find_or_add_block name p).0 ≡ block_names p ++ name ∷ [])
          × Absent name (block_names p))
unfolding find_or_add_block
block_names-find_or_add_block name [] = inr (refl, tt)
block_names-find_or_add_block name (b ∷ bs) = elim (Bool-cases (eqb name b.block_name)) [
  | inl e ↦ inl (rw e)
  | inr e ↦ elim (block_names-find_or_add_block name bs) [
    | inl same ↦ inl (rw (e, same))
    | inr (more, a) ↦ inr (rw (e, more), (e, a))
  ]
]

pub find_or_add_block-IsSound :
    (name : Chars) (p : ParameterInput) → IsSound p → IsSound (find_or_add_block name p).0
find_or_add_block-IsSound name p s = record {
  distinct = elim (block_names-find_or_add_block name p) [
    | inl same ↦ rw same s.distinct
    | inr (more, a) ↦ rw more (Distinct-append [] _ name s.distinct a)
  ];
  blocks = find_or_add_block-blocks name p s.blocks;
}

-- A write into one block that keeps its name and its soundness.
module _ (f : InputBlock → InputBlock) (named : (b : InputBlock) → (f b).block_name ≡ b.block_name)
    (sound : (b : InputBlock) → IsSoundBlock b → IsSoundBlock (f b)) where
  block_names-at_block : (i : ℕ) (p : ParameterInput) → block_names (at_block i f p) ≡ block_names p
  unfolding at_block
  block_names-at_block i [] = refl
  block_names-at_block zero (b ∷ bs) = rw (named b)
  block_names-at_block (suc i) (b ∷ bs) = rw (block_names-at_block i bs)

  at_block-blocks :
      (i : ℕ) (p : ParameterInput) → All IsSoundBlock p → All IsSoundBlock (at_block i f p)
  unfolding at_block
  at_block-blocks i [] h = tt
  at_block-blocks zero (b ∷ bs) h = (sound b h.0, h.1)
  at_block-blocks (suc i) (b ∷ bs) h = (h.0, at_block-blocks i bs h.1)

  pub at_block-IsSound : (i : ℕ) (p : ParameterInput) → IsSound p → IsSound (at_block i f p)
  at_block-IsSound i p s = record {
    distinct = rw (block_names-at_block i p) s.distinct;
    blocks = at_block-blocks i p s.blocks;
  }

pub put-IsSound :
    (block name value comment : Chars) (p : ParameterInput)
    → IsSound p
    → IsSound (put block name value comment p)
unfolding put
put-IsSound block name value comment p s =
    at_block-IsSound (add_parameter name value comment)
      (block_name-add_parameter name value comment) (add_parameter-IsSoundBlock name value comment)
      _ _ (find_or_add_block-IsSound block p s)

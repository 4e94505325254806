-- ===== src/Forest/Tree/Fuel.antt =====
-- Refine of src/mesh/forest/tree.cpp ends: each call on a neighbouring tree is for a coarser block.
use parthenon.Base.{
  ℕ, zero, suc, ◌-◌, ◌+◌, ◌<◌, true, false, none, some, List, [], ◌∷◌, map, ltb, length, get_elem?,
  set, ok, err, ◌>>=◌, ◌≡◌, refl, sym, ap, subst, ◌∙◌, arith, Option-cases, Bool-cases, inl, inr,
  All, All-append, get_elem?-All, set-All, Option-elim, unless-elim, if-elim,
}
use parthenon.Base.Int.{
  ℤ, pos, negsuc, pos_part, neg_part, ◌+ℤ◌, ◌-ℤ◌, ltb_ℤ, eqb_ℤ, -ℤ_parts, +ℤ_parts, wrap32,
}
use parthenon.Location.Defs.{
  LogicalLocation, eqb, get_daughters, get_daughter, get_parent, get_same_level_neighbor, for_each,
  active,
}
use parthenon.Forest.LocMap.{find, count, erase, find-erase, eqb-eq}
use parthenon.Forest.Transformation.{transform}
use parthenon.Forest.Tree.{
  Tree, Forest, Refined, split, gid_of, nesting_targets, link_targets, Link, visit, refine_with,
  refine,
}
use parthenon.Forest.Tree.Derefine.{among, find-insert_all}

-- No leaf has a negative level.
abbrev pub IsRooted : Tree → Type 0
IsRooted t = (a : LogicalLocation) → count a t.leaves ≡ true → ltb_ℤ a.level (pos 0) ≡ false

-- The trees by their identifiers, which a refinement keeps.
abbrev pub ids : Forest → List ℤ
ids = map (λ t. t.my_id)

-- A refinement that succeeds, keeps the trees and leaves them rooted.
abbrev Fine : List ℤ → Refined → Type 0
Fine ts (ok r) = All IsRooted r.0 × (ids r.0 ≡ ts)
Fine ts (err e) = ⊥

All-for_each {ℓ κ} :
    {A : Type ℓ} {B : Type κ} (P : B → Type 0) (xs : List A) (f : A → List B)
    → ((x : A) → All P (f x))
    → All P (for_each xs f)
All-for_each P [] f h = tt
All-for_each P (x ∷ xs) f h = All-append P (f x) _ (h x) (All-for_each P xs f h)

get_elem?-ids :
    (f : Forest) (i : ℕ) (t : Tree) → get_elem? f i ≡ some t → get_elem? (ids f) i ≡ some t.my_id
get_elem?-ids [] i t h = cc
get_elem?-ids (x ∷ f) zero t h = let same : x ≡ t = cc in rw same refl
get_elem?-ids (x ∷ f) (suc i) t h = get_elem?-ids f i t h

get_elem?-ids-none : (f : Forest) (i : ℕ) → get_elem? f i ≡ none → get_elem? (ids f) i ≡ none
get_elem?-ids-none [] i h = refl
get_elem?-ids-none (x ∷ f) zero h = cc
get_elem?-ids-none (x ∷ f) (suc i) h = get_elem?-ids-none f i h

ids-set :
    (f : Forest) (i : ℕ) (t u : Tree)
    → get_elem? f i ≡ some t
    → u.my_id ≡ t.my_id
    → ids (set f i u) ≡ ids f
ids-set [] i t u h e = refl
ids-set (x ∷ f) zero t u h e = let same : x ≡ t = cc in rw (same, e) refl
ids-set (x ∷ f) (suc i) t u h e = ap (◌∷◌ x.my_id) (ids-set f i t u h e)

-- A daughter is one level finer.
level-get_daughter :
    (a : LogicalLocation) (i j k : ℕ) → (get_daughter a i j k).level ≡ a.level +ℤ pos 1
unfolding get_daughter
level-get_daughter a i j k = ground arith

level-get_daughters :
    (ndim : ℕ) (a : LogicalLocation) → All (λ d. d.level ≡ a.level +ℤ pos 1) (get_daughters ndim a)
unfolding get_daughters
level-get_daughters ndim a =
    if-elim (All P) (ltb_ℤ a.level (pos 0)) _ _ (level-get_daughter a 0 0 0, tt)
      (All-for_each P (active true) _ λ i. All-for_each P (active (ltb 1 ndim)) _ λ j.
        All-for_each P (active (ltb 2 ndim)) (λ k. get_daughter a i j k ∷ [])
          λ k. (level-get_daughter a i j k, tt))
  where
    P : LogicalLocation → Type 0
    P d = d.level ≡ a.level +ℤ pos 1

among-All :
    (P : LogicalLocation → Type 0) (ds : List LogicalLocation) (a : LogicalLocation)
    → All P ds
    → among a ds ≡ true
    → P a
among-All P [] a h e = cc
among-All P (d ∷ ds) a h e = elim (Bool-cases (eqb a d)) [
  | inl k ↦ rw (eqb-eq a d k) h.0
  | inr k ↦ among-All P ds a h.1 (ground arith)
]

split-IsRooted :
    (a : LogicalLocation) (t : Tree) → count a t.leaves ≡ true → IsRooted t → IsRooted (split a t)
unfolding split
split-IsRooted a t c r x h = elim (Bool-cases (among x (get_daughters t.ndim a))) [
  | inl e ↦
      let l =
        among-All (λ d. d.level ≡ a.level +ℤ pos 1) (get_daughters t.ndim a) x
          (level-get_daughters t.ndim a) e in
      let p = r a c in rw l (ground (arith, +ℤ_parts a.level (pos 1)))
  | inr e ↦ r x (
      ground (
        arith,
        find-insert_all x (get_daughters t.ndim a) (wrap32 (gid_of (find a t.leaves)), negsuc 0)
            (erase a t.leaves),
        find-erase x a t.leaves,
      ))
]

-- A call for a block of that level, of the tree that stands at that position.
abbrev IsCall : ℤ → List ℤ → ℕ × LogicalLocation → Type 0
IsCall level ts r = (r.1.level ≡ level) × (get_elem? ts r.0 ≡ some r.1.tree)

link_targets-IsCall :
    (level : ℤ) (f : Forest) (t : Tree) (neigh : LogicalLocation)
    → neigh.level ≡ level
    → (links : List Link) → All (IsCall level (ids f)) (link_targets f t neigh links)
unfolding link_targets transform
link_targets-IsCall level f t neigh e links = All-for_each (IsCall level (ids f)) links _ λ link.
    elim (Option-cases (get_elem? f link.0)) [
      | inl n ↦ rw n tt
      | inr (u, n) ↦ rw n ((e, get_elem?-ids f link.0 u n), tt)
    ]

nesting_targets-IsCall :
    (f : Forest) (t : Tree) (a : LogicalLocation)
    → All (IsCall (a.level -ℤ pos 1) (ids f)) (nesting_targets f t a)
unfolding nesting_targets get_parent get_same_level_neighbor
nesting_targets-IsCall f t a = All-for_each P (active (ltb 2 t.ndim)) _ λ k.
    All-for_each P (active (ltb 1 t.ndim)) _ λ j.
      All-for_each P (active (ltb 0 t.ndim)) _
        λ i. link_targets-IsCall (a.level -ℤ pos 1) f t _ refl _
  where
    P : ℕ × LogicalLocation → Type 0
    P = IsCall (a.level -ℤ pos 1) (ids f)

-- Enough fuel: more than the level, and some.
abbrev pub Enough : ℕ → LogicalLocation → Type 0
Enough n a = (0 < n) × (pos_part a.level + 1 < n + neg_part a.level)

>>=-Fine :
    (ts : List ℤ) (x : Refined) (k : Forest × ℕ → Refined)
    → Fine ts x
    → ((r : Forest × ℕ) → All IsRooted r.0 → ids r.0 ≡ ts → Fine ts (k r))
    → Fine ts (x >>= k)
>>=-Fine ts (ok r) k fine h = h r fine.0 fine.1
>>=-Fine ts (err e) k fine h = fine

-- What a refinement does on the blocks of a level.
abbrev Refines : (Forest → ℕ → LogicalLocation → Refined) → ℤ → List ℤ → Type 0
Refines rec level ts =
    (f : Forest) (i : ℕ) (a : LogicalLocation)
    → IsCall level ts (i, a)
    → All IsRooted f
    → ids f ≡ ts
    → Fine ts (rec f i a)

visit-Fine :
    (rec : Forest → ℕ → LogicalLocation → Refined) (level : ℤ) (ts : List ℤ)
    → Refines rec level ts
    → (rs : List (ℕ × LogicalLocation)) (f : Forest) (nadded : ℕ) → All (IsCall level ts) rs
    → All IsRooted f
    → ids f ≡ ts
    → Fine ts (visit rec rs f nadded)
unfolding visit
visit-Fine rec level ts h [] f nadded c r e = (r, e)
visit-Fine rec level ts h ((i, a) ∷ rest) f nadded c r e =
    >>=-Fine ts (rec f i a) _ (h f i a c.0 r e)
      (λ x y z. visit-Fine rec level ts h rest x.0 (nadded + x.1) c.1 y z)

split-my_id : (a : LogicalLocation) (t : Tree) → (split a t).my_id ≡ t.my_id
unfolding split
split-my_id a t = refl

-- What is left once the block is known to be a leaf of its tree.
split-Fine :
    (rec : Forest → ℕ → LogicalLocation → Refined) (f : Forest) (i : ℕ) (a : LogicalLocation)
    (t : Tree)
    → Refines rec (a.level -ℤ pos 1) (ids f)
    → get_elem? f i ≡ some t
    → count a t.leaves ≡ true
    → All IsRooted f
    → Fine (ids f) (
        visit rec
          (nesting_targets f t a)
          (set f i (split a t))
          (length (get_daughters t.ndim a) - 1))
split-Fine rec f i a t h e c r =
    visit-Fine rec (a.level -ℤ pos 1) (ids f) h (nesting_targets f t a) _ _
      (nesting_targets-IsCall f t a)
      (set-All IsRooted f i (split a t) r (split-IsRooted a t c (get_elem?-All IsRooted f i t r e)))
      (ids-set f i t (split a t) e (split-my_id a t))

refine-Fine :
    (n : ℕ) (ts : List ℤ) (f : Forest) (i : ℕ) (a : LogicalLocation)
    → Enough n a
    → get_elem? ts i ≡ some a.tree
    → All IsRooted f
    → ids f ≡ ts
    → Fine ts (refine n f i a)
unfolding refine refine_with
refine-Fine zero ts f i a e p r same = omega arith
refine-Fine (suc n) ts f i a e p r same =
    Option-elim (Fine ts) (get_elem? f i) _ _ (λ k. missing k)
      λ t k.
        unless-elim (Fine ts) (eqb_ℤ a.tree t.my_id) _ _ (λ q. other t k q)
          λ q.
            unless-elim (Fine ts) (count a t.leaves) _ _ (λ c. (r, same))
              λ c.
                subst
                  (λ x. Fine x (
                    visit (refine n) (nesting_targets f t a) (set f i (split a t))
                      (length (get_daughters t.ndim a) - 1)))
                  same
                  (split-Fine (refine n) f i a t
                    (λ f' j b l r' e'. refine-Fine n (ids f) f' j b (finer t k c b l.0) l.1 r' e') k
                    c r)
  where
    missing : get_elem? f i ≡ none → ⊥
    missing k =
        let gone : get_elem? ts i ≡ none =
          ap (λ x. get_elem? x i) (sym same) ∙ get_elem?-ids-none f i k in
        cc

    other : (t : Tree) → get_elem? f i ≡ some t → eqb_ℤ a.tree t.my_id ≡ false → ⊥
    other t k q =
        let at_i : get_elem? ts i ≡ some t.my_id =
          ap (λ x. get_elem? x i) (sym same) ∙ get_elem?-ids f i t k in
        let own : a.tree ≡ t.my_id = cc in ground (arith, own)

    finer :
        (t : Tree)
        → get_elem? f i ≡ some t
        → count a t.leaves ≡ true
        → (b : LogicalLocation) → b.level ≡ a.level -ℤ pos 1
        → Enough n b
    finer t k c b l =
        let p = get_elem?-All IsRooted f i t r k a c in
        rw l (ground (arith, -ℤ_parts a.level (pos 1)))

Fine-ok :
    (ts : List ℤ) (x : Refined)
    → Fine ts x
    → (r : Forest × ℕ) × (x ≡ ok r) × All IsRooted r.0 × (ids r.0 ≡ ts)
Fine-ok ts (ok r) h = (r, refl, h.0, h.1)
Fine-ok ts (err e) h = absurd h

-- Refine at a tree of the forest and a location of that tree, with more fuel than the level of the
-- location and one, succeeds, if no leaf of any tree has a negative level: neither the fuel runs
-- out nor does a call on a neighbouring tree fail, the leaves again have no negative level, and the
-- trees keep their identifiers.
pub refine-terminates :
    (n : ℕ) (f : Forest) (i : ℕ) (a : LogicalLocation) (t : Tree)
    → pos_part a.level + 1 < n
    → get_elem? f i ≡ some t
    → a.tree ≡ t.my_id
    → All IsRooted f
    → (r : Forest × ℕ) × (refine n f i a ≡ ok r) × All IsRooted r.0 × (ids r.0 ≡ ids f)
refine-terminates n f i a t e k same r = Fine-ok (ids f) (refine n f i a) (
    refine-Fine n (ids f) f i a (omega arith, omega arith)
      (get_elem?-ids f i t k ∙ ap some (sym same)) r refl)

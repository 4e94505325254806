-- ===== src/Tasks/Edges.antt =====
-- What AddTaskImpl of src/tasks/tasks.hpp does to the dependents of the tasks.
use parthenon.Base.{
  ℕ, zero, suc, ◌+◌, ◌==◌, if◌then◌else◌, true, false, none, some, List, [], ◌∷◌, ◌++◌, get_elem?,
  length, ◌≡◌, ◌⊎◌, inl, inr, refl, sym, ap, ◌∙◌, arith, Bool-cases, count, count-append,
}
use parthenon.Tasks.Task.{TaskStatus, complete, iterate, is_completion, Task}
use parthenon.Tasks.Execute.{Body, first_task, last_task, Edges}
use parthenon.Tasks.Build.{TaskList, modify, on_status, add_dependent, connect, track}
use parthenon.Tasks.Views.{is_normal, set_back}

-- Where an item of a changed list comes from.
pub modify-from {ℓ} :
    {A : Type ℓ} (i : ℕ) (f : A → A) (xs : List A) (j : ℕ) (y : A)
    → get_elem? (modify i f xs) j ≡ some y
    → (x : A) × (get_elem? xs j ≡ some x) × (y ≡ (if j == i then f x else x))
unfolding modify
modify-from i f [] j y h = absurd cc
modify-from zero f (x ∷ xs) zero y h = (x, refl, cc)
modify-from zero f (x ∷ xs) (suc j) y h =
    let e : (suc j == 0) ≡ false = ground arith in (y, h, rw e refl)
modify-from (suc i) f (x ∷ xs) zero y h =
    let e : (0 == suc i) ≡ false = ground arith in (x, refl, rw e cc)
modify-from (suc i) f (x ∷ xs) (suc j) y h =
    let e : (suc j == suc i) ≡ (j == i) = ground arith in rw e (modify-from i f xs j y h)

pub length-modify {ℓ} :
    {A : Type ℓ} (i : ℕ) (f : A → A) (xs : List A) → length (modify i f xs) ≡ length xs
unfolding modify
length-modify i f [] = refl
length-modify zero f (x ∷ xs) = refl
length-modify (suc i) f (x ∷ xs) = ap suc (length-modify i f xs)

pub append-from {ℓ} :
    {A : Type ℓ} (xs : List A) (x : A) (i : ℕ) (y : A)
    → get_elem? (xs ++ x ∷ []) i ≡ some y
    → (get_elem? xs i ≡ some y) ⊎ ((i ≡ length xs) × (y ≡ x))
append-from [] x zero y h = inr (refl, cc)
append-from [] x (suc i) y h = absurd cc
append-from (z ∷ xs) x zero y h = inl h
append-from (z ∷ xs) x (suc i) y h = elim (append-from xs x i y h) [
  | inl e ↦ inl e
  | inr e ↦ inr (ap suc e.0, e.1)
]

-- An edge after it has been connected to the new task `n`.
pub record Connected (n i : ℕ) (ds : List ℕ) (old new : Edges) : Type 0 where
  pub same_body : new.body ≡ old.body
  pub more :
      (j : ℕ)
      → count j new.on_complete ≡ count j old.on_complete + (if j == n then count i ds else 0)

status_of :
    (store : List Task) (d : ℕ)
    → is_normal store d ≡ true
    → elim (get_elem? store d) as (λ o. TaskStatus) [
      | none ↦ complete
      | some t ↦ if is_completion t.task_type then iterate else complete
    ]
      ≡ complete
status_of [] d h = refl
status_of (t ∷ ts) zero h = let e : is_completion t.task_type ≡ false = ground arith in rw e refl
status_of (t ∷ ts) (suc d) h = status_of ts d h

-- One dependency more.
again :
    (n i d : ℕ) (ds : List ℕ) (p o e : Edges)
    → o ≡ (if i == d then on_status complete n p else p)
    → Connected n i ds o e
    → Connected n i (d ∷ ds) p e
again n i d ds p o e same c = elim (Bool-cases (i == d)) [
  | inl q ↦
      let so : o ≡ on_status complete n p = rw q at same in
      record {
        same_body = c.same_body ∙ ap (λ (x : Edges). x.body) so;
        more = λ j.
            let first : count j o.on_complete ≡ count j (p.on_complete ++ n ∷ []) =
              ap (λ (x : Edges). count j x.on_complete) so in
            ground (arith, c.more j, first, count-append j p.on_complete (n ∷ []), q);
      }
  | inr q ↦
      let so : o ≡ p = rw q at same in
      record {
        same_body = c.same_body ∙ ap (λ (x : Edges). x.body) so;
        more = λ j.
            let first : count j o.on_complete ≡ count j p.on_complete =
              ap (λ (x : Edges). count j x.on_complete) so in
            ground (arith, c.more j, first, q);
      }
]

pub connect-from :
    (store : List Task) (n : ℕ) (ds : List ℕ) (g : List Edges) (i : ℕ) (e : Edges)
    → ((d : ℕ) → is_normal store d ≡ true)
    → get_elem? (connect store n ds g) i ≡ some e
    → (o : Edges) × (get_elem? g i ≡ some o) × Connected n i ds o e
unfolding connect add_dependent
connect-from store n [] g i e h k = (e, k, record { same_body = refl; more = λ j. ground arith })
connect-from store n (d ∷ ds) g i e h k =
    let k' : get_elem? (connect store n ds (modify d (on_status complete n) g)) i ≡ some e =
      ap (λ (s : TaskStatus). get_elem? (connect store n ds (modify d (on_status s n) g)) i)
        (sym (status_of store d (h d)))
      ∙ k in
    let (o, eo, c) = connect-from store n ds (modify d (on_status complete n) g) i e h k' in
    let (p, ep, same) = modify-from d (on_status complete n) g i o eo in
    (p, ep, again n i d ds p o e same c)

pub length-connect :
    (store : List Task) (n : ℕ) (ds : List ℕ) (g : List Edges)
    → length (connect store n ds g) ≡ length g
unfolding connect add_dependent
length-connect store n [] g = refl
length-connect store n (d ∷ ds) g = length-connect store n ds _ ∙ length-modify d _ g

tracked :
    (k i : ℕ) (f : Edges → Edges) (o e : Edges)
    → e ≡ (if i == k then f o else o)
    → ((x : Edges) → (f x).on_complete ≡ x.on_complete)
    → e.on_complete ≡ o.on_complete
tracked k i f o e same h = elim (Bool-cases (i == k)) [
  | inl q ↦ let se : e ≡ f o = rw q at same in ap (λ (x : Edges). x.on_complete) se ∙ h o
  | inr q ↦ let se : e ≡ o = rw q at same in ap (λ (x : Edges). x.on_complete) se
]

bodies :
    (k i : ℕ) (b : Body) (o e : Edges)
    → e ≡ (if i == k then record o { body = b } else o)
    → set_back e.body ≡ (if i == k then set_back b else set_back o.body)
bodies k i b o e same = elim (Bool-cases (i == k)) [
  | inl q ↦
      let se : e ≡ record o { body = b } = rw q at same in
      rw q (ap (λ (x : Edges). set_back x.body) se)
  | inr q ↦ let se : e ≡ o = rw q at same in rw q (ap (λ (x : Edges). set_back x.body) se)
]

-- What the first and the last task of a list set back afterwards.
pub track-from :
    (l : TaskList) (g : List Edges) (i : ℕ) (e : Edges)
    → get_elem? (track l g) i ≡ some e
    → (o : Edges) × (get_elem? g i ≡ some o)
      × (e.on_complete ≡ o.on_complete)
      × (set_back e.body
          ≡ (if i == l.last then [] else (if i == l.first then l.tasks else set_back o.body)))
unfolding track
track-from l g i e h =
    let (p, ep, same) =
      modify-from l.last (λ x. record x { body = last_task l.completion_tasks }) _ i e h in
    let (o, eo, same') =
      modify-from l.first (λ x. record x { body = first_task l.tasks }) g i p ep in
    (
      o,
      eo,
      tracked l.last i (λ x. record x { body = last_task l.completion_tasks }) p e same (λ x. refl)
          ∙ tracked l.first i (λ x. record x { body = first_task l.tasks }) o p same' (λ x. refl),
      rw
          (
            bodies l.last i (last_task l.completion_tasks) p e same,
            bodies l.first i (first_task l.tasks) o p same',
          )
          refl,
    )

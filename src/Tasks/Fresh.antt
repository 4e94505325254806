-- ===== src/Tasks/Fresh.antt =====
-- The region of src/tasks/tasks.hpp before tasks are added to its lists.
use parthenon.Base.{
  ℕ, zero, suc, ◌<◌, ◌≤◌, leb, ◌==◌, not, ◌||◌, true, false, none, some, List, [], ◌∷◌, ◌++◌,
  get_elem?, get_elem?-lt, length, ◌≡◌, ◌≢◌, inl, inr, refl, sym, subst, ◌∙◌, arith, Bool-cases,
  count, count-append, contains, flag, All, length-append,
}
use parthenon.Tasks.Task.{is_incomplete, is_completion, Task, make_task, add_all, dependencies_of}
use parthenon.Tasks.Execute.{first_task, last_task, Edges}
use parthenon.Tasks.Build.{TaskList, Region, new_edges, add_list, make_region}
use parthenon.Tasks.Edges.{append-from}
use parthenon.Tasks.Plain.{IsPlain}
use parthenon.Tasks.Views.{deps, set_back}
use parthenon.Tasks.Region.{Descends, itself, later, is_launched, deps_beyond}
use parthenon.Tasks.Built.{firsts, IsSetBack, IsBuilt}
use parthenon.Tasks.Appended.{
  contains-append, firsts-append, append2-from, get-append_here, get-append_old, view-append2,
}

module _ (r : Region) (h : IsBuilt r) (unique_id : ℕ) where
  abbrev n : ℕ
  n = length r.store

  abbrev idle : Task
  idle = make_task (record { task = none; dep = [] }) 1 1

  abbrev new_list : TaskList
  new_list = record {
    unique_id = unique_id;
    min_calls = 1;
    max_calls = 1;
    first = n;
    last = suc n;
    tasks = n ∷ suc n ∷ [];
    regional_tasks = [];
    completion_tasks = [];
  }

  abbrev extended : Region
  extended = record r {
    store = r.store ++ idle ∷ idle ∷ [];
    graph =
        r.graph
        ++ new_edges (first_task (n ∷ suc n ∷ [])) n ∷ new_edges (last_task []) (suc n) ∷ [];
    lists = r.lists ++ new_list ∷ [];
  }

  same_deps : (j : ℕ) → deps extended.store j ≡ deps r.store j
  unfolding make_task dependencies_of add_all
  same_deps j = view-append2 [] (λ u. u.dependencies) r.store idle j refl

  in_store : (j d : ℕ) → contains d (deps r.store j) ≡ true → j < n
  in_store j d c = elim (Bool-cases (leb n j)) [
    | inl e ↦
        let none : contains d (deps r.store j) ≡ false =
          rw (deps_beyond r.store j (ground arith)) refl in
        absurd cc
    | inr e ↦ ground arith
  ]

  started : (j : ℕ) → contains j (firsts extended.lists) ≡ (contains j (firsts r.lists) || (j == n))
  started j = rw (firsts-append r.lists new_list) (contains-append j (firsts r.lists) n)

  launched-kept :
      (j : ℕ)
      → is_launched r.store (firsts r.lists) j ≡ true
      → is_launched extended.store (firsts extended.lists) j ≡ true
  launched-kept j l = rw (started j, same_deps j) (ground arith)

  launched-old :
      (j : ℕ)
      → (j == n) ≡ false
      → is_launched extended.store (firsts extended.lists) j
        ≡ is_launched r.store (firsts r.lists) j
  launched-old j e = rw (started j, same_deps j) (ground arith)

  Descends-extended : (k j : ℕ) → Descends r.store k j → Descends extended.store k j
  Descends-extended _ _ (itself k) = itself k
  Descends-extended _ _ (later k d j c p) =
      later k d j (rw (same_deps j) c) (Descends-extended k d p)

  old-IsSetBack : (k : ℕ) (js : List ℕ) → All (IsSetBack r k) js → All (IsSetBack extended k) js
  old-IsSetBack k [] a = tt
  old-IsSetBack k (j ∷ js) ((lt, b), a) = (
    (
      omega (arith, lt, length-append r.store (idle ∷ idle ∷ [])),
      elim b [
        | inl d ↦ inl (Descends-extended k j d)
        | inr u ↦ let old : (j == n) ≡ false = ground arith in inr (launched-old j old ∙ u)
      ],
    ),
    old-IsSetBack k js a,
  )

  -- The last task of the new list does not run by itself.
  last_unlaunched : is_launched extended.store (firsts extended.lists) (suc n) ≡ false
  last_unlaunched =
      let no_deps : deps r.store (suc n) ≡ [] = deps_beyond r.store (suc n) (omega arith) in
      let no_start : contains (suc n) (firsts r.lists) ≡ false =
        ground (arith, h.starts_alone (suc n)) in
      let other : (suc n == n) ≡ false = ground arith in
      rw (started (suc n), same_deps (suc n), no_deps, no_start, other) refl

  extended-sets_back :
      (k : ℕ) (e : Edges)
      → get_elem? extended.graph k ≡ some e
      → All (IsSetBack extended k) (set_back e.body)
  extended-sets_back k e g = elim (append2-from r.graph _ _ k e g) [
    | inl old ↦ old-IsSetBack k (set_back e.body) (h.sets_back k e old)
    | inr (inl (at, same)) ↦
        let at_n : k ≡ n = at ∙ h.same_length in
        let len = length-append r.store (idle ∷ idle ∷ []) in
        rw (same, at_n)
          ((omega (arith, len), inl (itself n)), ((omega (arith, len), inr last_unlaunched), tt))
    | inr (inr (at, same)) ↦ rw same tt
  ]

  extended-dependents :
      (k : ℕ) (e : Edges)
      → get_elem? extended.graph k ≡ some e
      → (j : ℕ) → count j e.on_complete ≡ flag (contains k (deps extended.store j))
  extended-dependents k e g j =
      let not_yet : n ≤ k → contains k (deps r.store j) ≡ false =
        λ le. (let lt = in_store j k in let less = h.earlier j k in ground (arith, lt, less)) in
      rw (same_deps j) (elim (append2-from r.graph _ _ k e g) [
        | inl old ↦ h.dependents k e old j
        | inr (inl (at, same)) ↦ rw (same, not_yet (omega (arith, at, h.same_length))) refl
        | inr (inr (at, same)) ↦ rw (same, not_yet (omega (arith, at, h.same_length))) refl
      ])

  extended-lists_at :
      (k : ℕ) (l : TaskList)
      → get_elem? extended.lists k ≡ some l
      → (e : Edges) × (get_elem? extended.graph l.first ≡ some e) × (set_back e.body ≡ l.tasks)
  extended-lists_at k l g = elim (append-from r.lists new_list k l g) [
    | inl old ↦ let (e, ge, b) = h.lists_at k l old in (e, get-append_old r.graph _ l.first e ge, b)
    | inr (at, same) ↦ rw same (
      new_edges (first_task (n ∷ suc n ∷ [])) n,
      subst (λ p. get_elem? extended.graph p ≡ some (new_edges (first_task (n ∷ suc n ∷ [])) n))
          h.same_length (get-append_here r.graph _ _),
      refl,
    )
  ]

  -- The first task of a list that was there before.
  first_below : (k : ℕ) (l : TaskList) → get_elem? r.lists k ≡ some l → l.first < n
  first_below k l g =
      let (e, ge, b) = h.lists_at k l g in
      omega (arith, get_elem?-lt r.graph l.first e ge, h.same_length)

  extended-first_ne_last :
      (k k' : ℕ) (l l' : TaskList)
      → get_elem? extended.lists k ≡ some l
      → get_elem? extended.lists k' ≡ some l'
      → l.first ≢ l'.last
  extended-first_ne_last k k' l l' g g' = elim (append-from r.lists new_list k l g) [
    | inl old ↦ elim (append-from r.lists new_list k' l' g') [
      | inl old' ↦ h.first_ne_last k k' l l' old old'
      | inr (at', same') ↦ let below = first_below k l old in rw same' (λ e. omega arith)
    ]
    | inr (at, same) ↦ elim (append-from r.lists new_list k' l' g') [
      | inl old' ↦ let below = h.last_below k' l' old' in rw same (λ e. omega arith)
      | inr (at', same') ↦ rw (same, same') (λ e. omega arith)
    ]
  ]

  extended-firsts_ne :
      (k k' : ℕ) (l l' : TaskList)
      → get_elem? extended.lists k ≡ some l
      → get_elem? extended.lists k' ≡ some l'
      → k ≢ k'
      → l.first ≢ l'.first
  extended-firsts_ne k k' l l' g g' ne = elim (append-from r.lists new_list k l g) [
    | inl old ↦ elim (append-from r.lists new_list k' l' g') [
      | inl old' ↦ h.firsts_ne k k' l l' old old' ne
      | inr (at', same') ↦ let below = first_below k l old in rw same' (λ e. omega arith)
    ]
    | inr (at, same) ↦ elim (append-from r.lists new_list k' l' g') [
      | inl old' ↦ let below = first_below k' l' old' in rw same (λ e. omega arith)
      | inr (at', same') ↦ absurd (ne (at ∙ sym at'))
    ]
  ]

  extended-plain : (k : ℕ) (l : TaskList) → get_elem? extended.lists k ≡ some l → IsPlain l
  extended-plain k l g = elim (append-from r.lists new_list k l g) [
    | inl old ↦ h.plain_lists k l old
    | inr (at, same) ↦ rw same (refl, refl)
  ]

  extended-last_below :
      (k : ℕ) (l : TaskList) → get_elem? extended.lists k ≡ some l → l.last < length extended.store
  extended-last_below k l g =
      let len = length-append r.store (idle ∷ idle ∷ []) in
      elim (append-from r.lists new_list k l g) [
        | inl old ↦ omega (arith, h.last_below k l old, len)
        | inr (at, same) ↦ rw same (omega (arith, len))
      ]

  extended-starts_alone :
      (j : ℕ)
      → contains j (firsts extended.lists) ≡ true
      → (deps extended.store j ≡ []) × (j < length extended.store)
  extended-starts_alone j c =
      let len = length-append r.store (idle ∷ idle ∷ []) in
      elim (Bool-cases (j == n)) [
        | inl q ↦ (same_deps j ∙ deps_beyond r.store j (ground arith), ground (arith, len))
        | inr q ↦
            let old : contains j (firsts r.lists) ≡ true = ground (arith, started j) in
            let (alone, lt) = h.starts_alone j old in (same_deps j ∙ alone, omega (arith, lt, len))
      ]

  pub extended-IsBuilt : IsBuilt extended
  unfolding make_task
  extended-IsBuilt = record {
    same_length = omega (
      arith,
      h.same_length,
      length-append r.store (idle ∷ idle ∷ []),
      length-append r.graph
          (new_edges (first_task (n ∷ suc n ∷ [])) n ∷ new_edges (last_task []) (suc n) ∷ []),
    );
    earlier = λ k d c. h.earlier k d (rw (sym (same_deps k)) c);
    dependents = extended-dependents;
    fresh = λ k.
        view-append2 false (λ u. not (is_incomplete u.task_status)) r.store idle k refl ∙ h.fresh k;
    normal = λ k.
        view-append2 true (λ u. not (is_completion u.task_type)) r.store idle k refl ∙ h.normal k;
    starts = λ j. rw (firsts-append r.lists new_list) (
        ground (
          arith,
          count-append j (firsts r.lists) (n ∷ []),
          contains-append j (firsts r.lists) n,
          h.starts j,
          h.starts_alone j,
        ));
    starts_alone = extended-starts_alone;
    deps_launched = λ k d c. launched-kept d (h.deps_launched k d (rw (sym (same_deps k)) c));
    sets_back = extended-sets_back;
    lists_at = extended-lists_at;
    firsts_ne = extended-firsts_ne;
    first_ne_last = extended-first_ne_last;
    last_below = extended-last_below;
    plain_lists = extended-plain;
  }

pub make_region-IsBuilt : (num_lists : ℕ) → IsBuilt (make_region num_lists)
unfolding make_region add_list
make_region-IsBuilt zero = record {
  same_length = refl;
  earlier = λ k d c. absurd cc;
  dependents = λ k e g. absurd cc;
  fresh = λ k. refl;
  normal = λ k. refl;
  starts = λ j. refl;
  starts_alone = λ j c. absurd cc;
  deps_launched = λ k d c. absurd cc;
  sets_back = λ k e g. absurd cc;
  lists_at = λ k l g. absurd cc;
  firsts_ne = λ k k' l l' g. absurd cc;
  first_ne_last = λ k k' l l' g. absurd cc;
  last_below = λ k l g. absurd cc;
  plain_lists = λ k l g. absurd cc;
}
make_region-IsBuilt (suc n) = extended-IsBuilt (make_region n) (make_region-IsBuilt n) n

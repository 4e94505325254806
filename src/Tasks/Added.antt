-- ===== src/Tasks/Added.antt =====
-- AddTaskImpl of src/tasks/tasks.hpp keeps a region such that it can be executed.
use parthenon.Base.{
  ℕ, zero, suc, ◌<◌, ◌==◌, not, if◌then◌else◌, Bool, true, false, Option, none, some, List, [], ◌∷◌,
  get_elem?, get_elem?-lt, length, ok, guard, ◌>>◌, ◌≡◌, inl, inr, refl, subst, arith, Bool-cases,
  count, contains, flag, All,
}
use parthenon.Tasks.Task.{TaskId, Task, make_task, is_empty, add_all, dependencies_of}
use parthenon.Tasks.Build.{TaskList, Region, Qualifier, already_built, add_task, enlisted, put_list}
use parthenon.Tasks.BuildGraph.{build_graph}
use parthenon.Tasks.Plain.{build_graph-plain}
use parthenon.Tasks.Edges.{length-modify}
use parthenon.Tasks.Region.{Descends, itself, is_launched, IsRegion}
use parthenon.Tasks.Built.{firsts, IsSetBack, IsBuilt, IsBuilt-IsRegion}
use parthenon.Tasks.Grown.{grown, grown-IsBuilt}

abbrev pub plain : Qualifier
plain = record { local_sync = false; completion_task = false; once = false }

contains-firsts :
    (ls : List TaskList) (i : ℕ) (l : TaskList)
    → get_elem? ls i ≡ some l
    → contains l.first (firsts ls) ≡ true
contains-firsts [] i l e = absurd cc
contains-firsts (o ∷ ls) zero l e = let same : o ≡ l = cc in rw same (ground arith)
contains-firsts (o ∷ ls) (suc i) l e = ground (arith, contains-firsts ls i l e)

add_all-once :
    (ts ds : List ℕ)
    → ((d : ℕ) → count d ds ≡ flag (contains d ds))
    → (d : ℕ) → count d (add_all ts ds) ≡ flag (contains d (add_all ts ds))
unfolding add_all
add_all-once [] ds h d = h d
add_all-once (t ∷ ts) ds h d = add_all-once ts _ (more t ds h) d
  where
    more :
        (t : ℕ) (ds : List ℕ)
        → ((d : ℕ) → count d ds ≡ flag (contains d ds))
        → let ds' : List ℕ = if contains t ds then ds else t ∷ ds in
          (d : ℕ) → count d ds' ≡ flag (contains d ds')
    more t ds h d = elim (Bool-cases (contains t ds)) [
      | inl e ↦ rw e (h d)
      | inr e ↦ rw e (elim (Bool-cases (d == t)) [
        | inl q ↦ let same : d ≡ t = ground arith in rw same (let k = h t in ground (arith, k))
        | inr q ↦ ground (arith, h d)
      ])
    ]

add_all-kept : (ts ds : List ℕ) (d : ℕ) → contains d ds ≡ true → contains d (add_all ts ds) ≡ true
unfolding add_all
add_all-kept [] ds d h = h
add_all-kept (t ∷ ts) ds d h = add_all-kept ts _ d (ground arith)

first_in_all : (e : ℕ) (ds : List ℕ) → contains e (add_all (e ∷ ds) []) ≡ true
unfolding add_all
first_in_all e ds = add_all-kept ds (e ∷ []) e (ground arith)

dependencies_of-once :
    (i : TaskId) (d : ℕ) → count d (dependencies_of i) ≡ flag (contains d (dependencies_of i))
unfolding dependencies_of
dependencies_of-once i d = go i.task i.dep
  where
    go :
        (o : Option ℕ) (ds : List ℕ)
        → let xs : List ℕ = elim o [
          | none ↦ add_all ds []
          | some t ↦ if length ds == 0 then t ∷ [] else add_all ds []
        ] in
          count d xs ≡ flag (contains d xs)
    go none ds = add_all-once ds [] (λ k. refl) d
    go (some t) [] = ground arith
    go (some t) (e ∷ ds) =
        let q : (suc (length ds) == 0) ≡ false = ground arith in
        rw q (add_all-once (e ∷ ds) [] (λ k. refl) d)

member : (P : ℕ → Type 0) (js : List ℕ) (j : ℕ) → All P js → contains j js ≡ true → P j
member P [] j a c = absurd cc
member P (k ∷ js) j a c = elim (Bool-cases (j == k)) [
  | inl e ↦ let same : j ≡ k = ground arith in rw same a.0
  | inr e ↦ member P js j a.1 (ground arith)
]

dependencies_of-some :
    (i : TaskId) → is_empty i ≡ false → (d : ℕ) × (contains d (dependencies_of i) ≡ true)
unfolding dependencies_of is_empty
dependencies_of-some i h = go i.task i.dep h
  where
    first_of : (e : ℕ) (ds : List ℕ) → contains e (add_all (e ∷ ds) []) ≡ true
    first_of e ds = first_in_all e ds

    go :
        (o : Option ℕ) (ds : List ℕ)
        → elim o as (λ o'. Bool) [ none ↦ (length ds == 0) | some t ↦ false ] ≡ false
        → (d : ℕ) × (contains d (elim o as (λ o'. List ℕ) [
          | none ↦ add_all ds []
          | some t ↦ if length ds == 0 then t ∷ [] else add_all ds []
        ])
            ≡ true)
    go none [] e = absurd cc
    go none (d ∷ ds) e = (d, first_of d ds)
    go (some t) [] e = (t, ground arith)
    go (some t) (d ∷ ds) e =
        let q : (suc (length ds) == 0) ≡ false = ground arith in (d, rw q (first_of d ds))

opened : (b : Bool) (x : Region × TaskId) → b ≡ false → (guard (not b) already_built >> ok x) ≡ ok x
opened true x e = absurd cc
opened false x e = refl

module _ (r : Region) (h : IsBuilt r) (i : ℕ) (l : TaskList)
    (at : get_elem? r.lists i ≡ some l) where
  -- A task of the list that is meant to run.
  listed :
      (d : ℕ)
      → contains d l.tasks ≡ true
      → is_launched r.store (firsts r.lists) d ≡ true
      → Descends r.store l.first d
        × (is_launched r.store (firsts r.lists) d ≡ true)
        × (d < length r.store)
  listed d c launched =
      let (e, ge, tasks) = h.lists_at i l at in
      let all : All (IsSetBack r l.first) l.tasks =
        subst (All (IsSetBack r l.first)) tasks (h.sets_back l.first e ge) in
      let (lt, b) = member (IsSetBack r l.first) l.tasks d all c in
      (elim b [ inl path ↦ path | inr un ↦ absurd cc ], launched, lt)

  -- The task that depends on the first task of the list.
  the_first :
      (d : ℕ)
      → contains d (l.first ∷ []) ≡ true
      → Descends r.store l.first d
        × (is_launched r.store (firsts r.lists) d ≡ true)
        × (d < length r.store)
  the_first d c =
      let same : d ≡ l.first = ground arith in
      let started = contains-firsts r.lists i l at in
      let launched : is_launched r.store (firsts r.lists) l.first ≡ true = ground arith in
      rw same (itself l.first, launched, (h.starts_alone l.first started).1)

  -- The new task.
  abbrev pub added : TaskId → Task
  added dep =
      make_task (if is_empty dep then record { task = some l.first; dep = [] } else dep) l.min_calls
        l.max_calls

  abbrev Adds : TaskId → Type 0
  Adds dep =
      (r' : Region) × (add_task plain i dep r
        ≡ ok (r', record { task = some (length r.store); dep = [] }))
      × IsBuilt r'
      × (r'.graph_built ≡ false)
      × (build_graph r' ≡ ok (record r' { graph_built = true }))
      × IsRegion r'.graph r'.store (firsts r'.lists)

  adds :
      (dep : TaskId) (d₀ : ℕ)
      → r.graph_built ≡ false
      → ((d : ℕ) → count d (added dep).dependencies ≡ flag (contains d (added dep).dependencies))
      → contains d₀ (added dep).dependencies ≡ true
      → ((d : ℕ)
          → contains d (added dep).dependencies ≡ true
          → Descends r.store l.first d
            × (is_launched r.store (firsts r.lists) d ≡ true)
            × (d < length r.store))
      → Adds dep
  unfolding add_task make_task
  adds dep d₀ open_graph once_each some_dep known =
      let some_list : 0 < length (put_list i (enlisted plain (length r.store) l) r.lists) = omega (
        arith,
        length-modify i (λ o. enlisted plain (length r.store) l) r.lists,
        get_elem?-lt r.lists i l at,
      ) in
      let built =
        grown-IsBuilt r h i l at (added dep) refl refl once_each d₀ some_dep known plain
          (refl, refl) refl in
      (
        grown r h i l at (added dep) refl refl once_each d₀ some_dep known plain (refl, refl) refl,
        rw at (opened r.graph_built _ open_graph),
        built,
        open_graph,
        build_graph-plain _ some_list built.plain_lists,
        IsBuilt-IsRegion _ built,
      )

  -- Where a region was built of lists without sublists by adding plain tasks, and its graph is not
  -- yet built, a plain task that depends on nothing, or on tasks of its own list that are meant to
  -- run, can be added to any list without an error; the region is again one built so, BuildGraph
  -- leaves its tasks and edges as they are, and it is one that Execute runs to its end: without
  -- cycles, with the dependents just the dependencies read backwards, and with each first task
  -- setting back only tasks that depend on it or do not run.
  pub add_task-IsRegion :
      (dep : TaskId)
      → r.graph_built ≡ false
      → ((d : ℕ)
          → contains d (dependencies_of dep) ≡ true
          → (contains d l.tasks ≡ true) × (is_launched r.store (firsts r.lists) d ≡ true))
      → (r' : Region) × (add_task plain i dep r
          ≡ ok (r', record { task = some (length r.store); dep = [] }))
        × IsBuilt r'
        × (r'.graph_built ≡ false)
        × (build_graph r' ≡ ok (record r' { graph_built = true }))
        × IsRegion r'.graph r'.store (firsts r'.lists)
  unfolding make_task dependencies_of
  add_task-IsRegion dep open_graph known = elim (Bool-cases (is_empty dep)) [
    | inl e ↦
        let own : (added dep).dependencies ≡ l.first ∷ [] = rw e refl in
        adds dep l.first open_graph (rw own (λ d. ground arith)) (rw own (ground arith))
          (rw own the_first)
    | inr e ↦
        let own : (added dep).dependencies ≡ dependencies_of dep = rw e refl in
        let (d, c) = dependencies_of-some dep e in
        adds dep d open_graph (rw own (dependencies_of-once dep)) (rw own c)
          (rw own (λ k m. let (here, launched) = known k m in listed k here launched))
  ]

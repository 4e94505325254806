-- ===== src/Tasks/Grown.antt =====
-- A region of src/tasks/tasks.hpp after a task has been added to one of its lists.
use parthenon.Base.{
  ℕ, zero, suc, ◌+◌, ◌<◌, leb, ◌==◌, not, if◌then◌else◌, true, false, some, List, [], ◌∷◌, ◌++◌,
  get_elem?, get_elem?-lt, length, ◌≡◌, ◌⊎◌, inl, inr, refl, sym, ap, subst, ◌∙◌, arith, Bool-cases,
  count, contains, flag, All, length-append, if-elim,
}
use parthenon.Tasks.Task.{Task, is_incomplete, is_completion}
use parthenon.Tasks.Execute.{Body, user, Edges}
use parthenon.Tasks.Build.{
  TaskList, Region, Qualifier, modify, new_edges, connect, track, put_list, enlisted,
}
use parthenon.Tasks.Edges.{
  modify-from, length-modify, append-from, connect-from, length-connect, track-from,
}
use parthenon.Tasks.Plain.{IsPlain}
use parthenon.Tasks.Views.{deps, set_back, view-append, get-in_range}
use parthenon.Tasks.Region.{Descends, itself, later, is_launched, deps_beyond}
use parthenon.Tasks.Built.{firsts, IsSetBack, IsBuilt, All-weaken}

-- The lists after one of them has been exchanged for one with the same first task.
firsts-put :
    (ls : List TaskList) (i : ℕ) (l l' : TaskList)
    → get_elem? ls i ≡ some l
    → l'.first ≡ l.first
    → firsts (put_list i l' ls) ≡ firsts ls
unfolding modify
firsts-put [] i l l' g e = refl
firsts-put (o ∷ ls) zero l l' g e = let same : o ≡ l = cc in rw (e, same) refl
firsts-put (o ∷ ls) (suc i) l l' g e = ap (λ (js : List ℕ). o.first ∷ js) (firsts-put ls i l l' g e)

-- A task appended to the store with dependencies in it.
module _ (r : Region) (h : IsBuilt r) (i : ℕ) (l : TaskList) (at : get_elem? r.lists i ≡ some l)
    (t : Task) (fresh_task : is_incomplete t.task_status ≡ true)
    (normal_task : is_completion t.task_type ≡ false)
    (once_each : (d : ℕ) → count d t.dependencies ≡ flag (contains d t.dependencies)) (d₀ : ℕ)
    (some_dep : contains d₀ t.dependencies ≡ true)
    (known : (d : ℕ)
      → contains d t.dependencies ≡ true
      → Descends r.store l.first d
        × (is_launched r.store (firsts r.lists) d ≡ true)
        × (d < length r.store))
    (tq : Qualifier) (not_regional : (tq.local_sync ≡ false) × (tq.once ≡ false))
    (not_completion : tq.completion_task ≡ false) where
  abbrev n : ℕ
  n = length r.store

  abbrev pub grown : Region
  grown = record r {
    store = r.store ++ t ∷ [];
    graph =
        track (enlisted tq n l)
          (connect r.store n t.dependencies (r.graph ++ new_edges user n ∷ []));
    lists = put_list i (enlisted tq n l) r.lists;
  }

  new_deps : (j : ℕ) → deps grown.store j ≡ (if j == n then t.dependencies else deps r.store j)
  new_deps j = view-append [] (λ u. u.dependencies) r.store t j

  same_firsts : firsts grown.lists ≡ firsts r.lists
  unfolding enlisted
  same_firsts = firsts-put r.lists i l (enlisted tq n l) at refl

  -- A dependency that there was before.
  in_store : (j d : ℕ) → contains d (deps r.store j) ≡ true → j < n
  in_store j d c = elim (Bool-cases (leb n j)) [
    | inl e ↦
        let none : contains d (deps r.store j) ≡ false =
          rw (deps_beyond r.store j (ground arith)) refl in
        absurd cc
    | inr e ↦ ground arith
  ]

  not_new : (j : ℕ) → j < n → (j == n) ≡ false
  not_new j lt = ground arith

  kept_deps :
      (j d : ℕ) → contains d (deps r.store j) ≡ true → contains d (deps grown.store j) ≡ true
  kept_deps j d c =
      let e : deps grown.store j ≡ deps r.store j =
        new_deps j ∙ rw (not_new j (in_store j d c)) refl in
      rw e c

  Descends-grown : (k j : ℕ) → Descends r.store k j → Descends grown.store k j
  Descends-grown _ _ (itself k) = itself k
  Descends-grown _ _ (later k d j c p) = later k d j (kept_deps j d c) (Descends-grown k d p)

  launched-grown :
      (j : ℕ)
      → (j == n) ≡ false
      → is_launched grown.store (firsts grown.lists) j ≡ is_launched r.store (firsts r.lists) j
  launched-grown j e =
      let same : deps grown.store j ≡ deps r.store j = new_deps j ∙ rw e refl in
      rw (same_firsts, same) refl

  -- Where an edge comes from.
  edge-from :
      (k : ℕ) (e : Edges)
      → get_elem? grown.graph k ≡ some e
      → (o : Edges) × (get_elem? (r.graph ++ new_edges user n ∷ []) k ≡ some o)
        × ((j : ℕ)
            → count j e.on_complete
              ≡ count j o.on_complete + (if j == n then count k t.dependencies else 0))
        × (set_back e.body ≡ (
            if k == l.last
            then []
            else (if k == l.first then l.tasks ++ n ∷ [] else set_back o.body)))
  unfolding enlisted
  edge-from k e g =
      let (p, ep, same, back) = track-from (enlisted tq n l) _ k e g in
      let (o, eo, c) =
        connect-from r.store n t.dependencies (r.graph ++ new_edges user n ∷ []) k p h.normal ep in
      (
        o,
        eo,
        λ j. ap (count j) same ∙ c.more j,
        back
            ∙ ap
                (λ (b : Body).
                  if k == l.last
                  then []
                  else (if k == l.first then l.tasks ++ n ∷ [] else set_back b))
                c.same_body,
      )

  IsSetBack-grown : (k j : ℕ) → IsSetBack r k j → IsSetBack grown k j
  IsSetBack-grown k j (lt, b) = (
    omega (arith, lt, length-append r.store (t ∷ [])),
    elim b [
      | inl d ↦ inl (Descends-grown k j d)
      | inr u ↦ inr (launched-grown j (not_new j lt) ∙ u)
    ],
  )

  -- The new task is set back by the first task of its list.
  new-IsSetBack : IsSetBack grown l.first n
  new-IsSetBack =
      let own : deps grown.store n ≡ t.dependencies =
        new_deps n ∙ (let e : (n == n) ≡ true = ground arith in rw e refl) in
      (
        omega (arith, length-append r.store (t ∷ [])),
        inl (
            later l.first d₀ n (rw own some_dep) (Descends-grown l.first d₀ (known d₀ some_dep).0)),
      )

  All-snoc : (P : ℕ → Type 0) (js : List ℕ) (j : ℕ) → All P js → P j → All P (js ++ j ∷ [])
  All-snoc P [] j a p = (p, tt)
  All-snoc P (k ∷ js) j a p = (a.0, All-snoc P js j a.1 p)

  grown-sets_back :
      (k : ℕ) (e : Edges)
      → get_elem? grown.graph k ≡ some e
      → All (IsSetBack grown k) (set_back e.body)
  grown-sets_back k e g =
      let (o, eo, c, back) = edge-from k e g in
      elim (Bool-cases (k == l.last)) [
        | inl q ↦ let b : set_back e.body ≡ [] = rw q at back in rw b tt
        | inr q ↦ elim (Bool-cases (k == l.first)) [
          | inl p ↦
              let b : set_back e.body ≡ l.tasks ++ n ∷ [] = rw (q, p) at back in
              let same : k ≡ l.first = ground arith in
              let (f, ef, tasks) = h.lists_at i l at in
              let before : All (IsSetBack r l.first) l.tasks =
                subst (All (IsSetBack r l.first)) tasks (h.sets_back l.first f ef) in
              rw (b, same)
                (All-snoc (IsSetBack grown l.first) l.tasks n
                  (All-weaken (IsSetBack r l.first) (IsSetBack grown l.first)
                    (IsSetBack-grown l.first) l.tasks before)
                  new-IsSetBack)
          | inr p ↦
              let b : set_back e.body ≡ set_back o.body = rw (q, p) at back in
              rw b (elim (append-from r.graph (new_edges user n) k o eo) [
                | inl old ↦
                    All-weaken (IsSetBack r k) (IsSetBack grown k) (IsSetBack-grown k)
                      (set_back o.body) (h.sets_back k o old)
                | inr new ↦ rw new.1 tt
              ])
        ]
      ]

  grown-dependents :
      (k : ℕ) (e : Edges)
      → get_elem? grown.graph k ≡ some e
      → (j : ℕ) → count j e.on_complete ≡ flag (contains k (deps grown.store j))
  grown-dependents k e g j =
      let (o, eo, c, back) = edge-from k e g in
      let here : count j e.on_complete
          ≡ count j o.on_complete + (if j == n then count k t.dependencies else 0) =
        c j in
      let beyond : contains k (deps r.store j) ≡ true → j < n = in_store j k in
      rw (new_deps j) (elim (append-from r.graph (new_edges user n) k o eo) [
        | inl old ↦
            let was = h.dependents k o old j in
            elim (Bool-cases (j == n)) [
              | inl q ↦
                  let sum : count j e.on_complete ≡ count j o.on_complete + count k t.dependencies =
                    rw q at here in
                  rw q (ground (arith, was, beyond, once_each k, sum))
              | inr q ↦
                  let sum : count j e.on_complete ≡ count j o.on_complete + 0 = rw q at here in
                  rw q (omega (arith, was, sum))
            ]
        | inr new ↦
            let none : count j o.on_complete ≡ 0 =
              ap (λ (x : Edges). count j x.on_complete) new.1 in
            let at_n : k ≡ n = new.0 ∙ h.same_length in
            elim (Bool-cases (j == n)) [
              | inl q ↦
                  let sum : count j e.on_complete ≡ count j o.on_complete + count k t.dependencies =
                    rw q at here in
                  rw q (omega (arith, none, once_each k, sum))
              | inr q ↦
                  let sum : count j e.on_complete ≡ count j o.on_complete + 0 = rw q at here in
                  rw q (ground (arith, none, sum, beyond, h.earlier j k))
            ]
      ])

  -- A list after the new task has been entered.
  list-from :
      (k : ℕ) (m : TaskList)
      → get_elem? grown.lists k ≡ some m
      → (o : TaskList) × (get_elem? r.lists k ≡ some o)
        × (m.first ≡ o.first)
        × (m.last ≡ o.last)
        × (m.tasks ≡ (if k == i then l.tasks ++ n ∷ [] else o.tasks))
        × ((k == i) ≡ true → o ≡ l)
  unfolding enlisted
  list-from k m g =
      let (o, eo, same) = modify-from i (λ x. enlisted tq n l) r.lists k m g in
      let own : (k == i) ≡ true → o ≡ l = λ q.
        (let same_k : k ≡ i = ground arith in
          let e : get_elem? r.lists i ≡ some o = rw (sym same_k) eo in cc) in
      elim (Bool-cases (k == i)) [
        | inl q ↦
            let sm : m ≡ enlisted tq n l = rw q at same in
            (
              o,
              eo,
              ap (λ (x : TaskList). x.first) (sm) ∙ ap (λ (x : TaskList). x.first) (sym (own q)),
              ap (λ (x : TaskList). x.last) sm ∙ ap (λ (x : TaskList). x.last) (sym (own q)),
              rw q (ap (λ (x : TaskList). x.tasks) sm),
              own,
            )
        | inr q ↦
            let sm : m ≡ o = rw q at same in
            (
              o,
              eo,
              ap (λ (x : TaskList). x.first) sm,
              ap (λ (x : TaskList). x.last) sm,
              rw q (ap (λ (x : TaskList). x.tasks) sm),
              own,
            )
      ]

  grown-length : length grown.graph ≡ suc n
  unfolding track
  grown-length =
      length-modify _ _ _
      ∙ length-modify _ _ _
      ∙ length-connect r.store n t.dependencies (r.graph ++ new_edges user n ∷ [])
      ∙ omega (arith, length-append r.graph (new_edges user n ∷ []), h.same_length)

  grown-lists_at :
      (k : ℕ) (m : TaskList)
      → get_elem? grown.lists k ≡ some m
      → (e : Edges) × (get_elem? grown.graph m.first ≡ some e) × (set_back e.body ≡ m.tasks)
  grown-lists_at k m g =
      let (o, eo, first, last, tasks, own) = list-from k m g in
      let (f, ef, was) = h.lists_at k o eo in
      let near = get_elem?-lt r.graph o.first f ef in
      let (e, ge) =
        get-in_range grown.graph m.first
          (omega (arith, near, first, h.same_length, grown-length)) in
      let (p, ep, c, back) = edge-from m.first e ge in
      let not_last : (m.first == l.last) ≡ false =
        let apart = h.first_ne_last k i o l eo at in ground (arith, first, apart) in
      elim (Bool-cases (k == i)) [
        | inl q ↦
            let is_first : (m.first == l.first) ≡ true =
              let e_first : o.first ≡ l.first = ap (λ (x : TaskList). x.first) (own q) in
              ground (arith, first, e_first) in
            let b : set_back e.body ≡ l.tasks ++ n ∷ [] = rw (not_last, is_first) at back in
            let own_tasks : m.tasks ≡ l.tasks ++ n ∷ [] = rw q at tasks in
            (e, ge, b ∙ sym own_tasks)
        | inr q ↦
            let is_other : (m.first == l.first) ≡ false =
              let apart = h.firsts_ne k i o l eo at (ground arith) in
              ground (arith, first, apart) in
            let b : set_back e.body ≡ set_back p.body = rw (not_last, is_other) at back in
            let old_tasks : m.tasks ≡ o.tasks = rw q at tasks in
            (
              e,
              ge,
              elim (append-from r.graph (new_edges user n) m.first p ep) [
                | inl old ↦
                    let old_edge : get_elem? r.graph o.first ≡ some p = rw (sym first) old in
                    let same : p ≡ f = cc in
                    b ∙ ap (λ (x : Edges). set_back x.body) same ∙ was ∙ sym old_tasks
                | inr new ↦ absurd (omega (arith, near, first, new.0))
              ],
            )
      ]

  -- A dependency is one of the new task or was there before.
  dep-from :
      (k d : ℕ)
      → contains d (deps grown.store k) ≡ true
      → ((k ≡ n) × (contains d t.dependencies ≡ true)) ⊎ (contains d (deps r.store k) ≡ true)
  dep-from k d c = elim (Bool-cases (k == n)) [
    | inl q ↦
        let own : deps grown.store k ≡ t.dependencies = new_deps k ∙ rw q refl in
        inl (ground arith, rw (sym own) c)
    | inr q ↦
        let own : deps grown.store k ≡ deps r.store k = new_deps k ∙ rw q refl in
        inr (rw (sym own) c)
  ]

  dep-near :
      (k d : ℕ)
      → contains d (deps grown.store k) ≡ true
      → (d < n) × (d < k) × (is_launched r.store (firsts r.lists) d ≡ true)
  dep-near k d c = elim (dep-from k d c) [
    | inl p ↦ let (path, launched, lt) = known d p.1 in (lt, omega (arith, p.0), launched)
    | inr old ↦
        let lt = in_store k d old in
        let less = h.earlier k d old in (omega arith, less, h.deps_launched k d old)
  ]

  grown-starts_alone :
      (j : ℕ)
      → contains j (firsts grown.lists) ≡ true
      → (deps grown.store j ≡ []) × (j < length grown.store)
  grown-starts_alone j c =
      let (alone, lt) = h.starts_alone j (rw (sym same_firsts) c) in
      (new_deps j ∙ rw (not_new j lt) alone, omega (arith, length-append r.store (t ∷ [])))

  grown-plain : (k : ℕ) (m : TaskList) → get_elem? grown.lists k ≡ some m → IsPlain m
  unfolding enlisted
  grown-plain k m g =
      let (o, eo, same) = modify-from i (λ x. enlisted tq n l) r.lists k m g in
      let new : IsPlain (enlisted tq n l) =
        let old = h.plain_lists i l at in
        (rw (not_regional.0, not_regional.1) old.0, rw not_completion old.1) in
      rw same (if-elim IsPlain (k == i) (enlisted tq n l) o new (h.plain_lists k o eo))

  pub grown-IsBuilt : IsBuilt grown
  grown-IsBuilt = record {
    same_length = omega (arith, grown-length, length-append r.store (t ∷ []));
    earlier = λ k d c. (dep-near k d c).1;
    dependents = grown-dependents;
    fresh = λ k.
        ground (
          arith,
          view-append false (λ u. not (is_incomplete u.task_status)) r.store t k,
          h.fresh k,
        );
    normal = λ k.
        ground
          (arith, view-append true (λ u. not (is_completion u.task_type)) r.store t k, h.normal k);
    starts = λ j. rw same_firsts (h.starts j);
    starts_alone = grown-starts_alone;
    deps_launched = λ k d c.
        let (lt, less, launched) = dep-near k d c in launched-grown d (not_new d lt) ∙ launched;
    sets_back = grown-sets_back;
    lists_at = grown-lists_at;
    firsts_ne = λ k k' m m' g g' ne.
        let (o, eo, first, last, tasks, own) = list-from k m g in
        let (o', eo', first', last', tasks', own') = list-from k' m' g' in
        let apart = h.firsts_ne k k' o o' eo eo' ne in ground (arith, first, first', apart);
    plain_lists = grown-plain;
    last_below = λ k m g.
        let (o, eo, first, last, tasks, own) = list-from k m g in
        let near = h.last_below k o eo in omega (arith, last, near, length-append r.store (t ∷ []));
    first_ne_last = λ k k' m m' g g'.
        let (o, eo, first, last, tasks, own) = list-from k m g in
        let (o', eo', first', last', tasks', own') = list-from k' m' g' in
        let apart = h.first_ne_last k k' o o' eo eo' in ground (arith, first, last', apart);
  }

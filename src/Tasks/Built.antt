-- ===== src/Tasks/Built.antt =====
-- A region of src/tasks/tasks.hpp, to which tasks are added, can be executed.
use parthenon.Base.{
  ℕ, ◌<◌, true, false, some, List, [], ◌∷◌, get_elem?, length, ◌≡◌, ◌≢◌, ◌⊎◌, count, contains, flag,
  All,
}
use parthenon.Tasks.Execute.{Edges}
use parthenon.Tasks.Build.{TaskList, Region}
use parthenon.Tasks.Plain.{IsPlain}
use parthenon.Tasks.Views.{done, deps, is_normal, set_back}
use parthenon.Tasks.Region.{Descends, is_launched, IsRegion}

abbrev pub firsts : List TaskList → List ℕ
firsts [] = []
firsts (l ∷ ls) = l.first ∷ firsts ls

-- A task that the first task of a list sets back.
abbrev pub IsSetBack : Region → ℕ → ℕ → Type 0
IsSetBack r i j =
    (j < length r.store) × (Descends r.store i j ⊎ (is_launched r.store (firsts r.lists) j ≡ false))

-- What holds of a region while tasks are added to it.
pub record IsBuilt (r : Region) : Type 0 where
  pub same_length : length r.graph ≡ length r.store
  pub earlier : (i d : ℕ) → contains d (deps r.store i) ≡ true → d < i
  pub dependents :
      (i : ℕ) (e : Edges)
      → get_elem? r.graph i ≡ some e
      → (j : ℕ) → count j e.on_complete ≡ flag (contains i (deps r.store j))
  pub fresh : (i : ℕ) → done r.store i ≡ false
  pub normal : (i : ℕ) → is_normal r.store i ≡ true
  pub starts : (j : ℕ) → count j (firsts r.lists) ≡ flag (contains j (firsts r.lists))
  pub starts_alone :
      (j : ℕ) → contains j (firsts r.lists) ≡ true → (deps r.store j ≡ []) × (j < length r.store)
  pub deps_launched :
      (i d : ℕ) → contains d (deps r.store i) ≡ true → is_launched r.store (firsts r.lists) d ≡ true
  pub sets_back :
      (i : ℕ) (e : Edges) → get_elem? r.graph i ≡ some e → All (IsSetBack r i) (set_back e.body)
  -- The first task of a list sets back the tasks of that list.
  pub lists_at :
      (k : ℕ) (l : TaskList)
      → get_elem? r.lists k ≡ some l
      → (e : Edges) × (get_elem? r.graph l.first ≡ some e) × (set_back e.body ≡ l.tasks)
  pub firsts_ne :
      (k k' : ℕ) (l l' : TaskList)
      → get_elem? r.lists k ≡ some l
      → get_elem? r.lists k' ≡ some l'
      → k ≢ k'
      → l.first ≢ l'.first
  pub first_ne_last :
      (k k' : ℕ) (l l' : TaskList)
      → get_elem? r.lists k ≡ some l
      → get_elem? r.lists k' ≡ some l'
      → l.first ≢ l'.last
  pub last_below : (k : ℕ) (l : TaskList) → get_elem? r.lists k ≡ some l → l.last < length r.store
  pub plain_lists : (k : ℕ) (l : TaskList) → get_elem? r.lists k ≡ some l → IsPlain l

pub All-weaken : (P Q : ℕ → Type 0) → ((j : ℕ) → P j → Q j) → (js : List ℕ) → All P js → All Q js
All-weaken P Q f [] a = tt
All-weaken P Q f (j ∷ js) a = (f j a.0, All-weaken P Q f js a.1)

pub IsBuilt-IsRegion : (r : Region) → IsBuilt r → IsRegion r.graph r.store (firsts r.lists)
IsBuilt-IsRegion r h = record {
  same_length = h.same_length;
  rank = λ i. i;
  earlier = h.earlier;
  dependents = h.dependents;
  fresh = h.fresh;
  normal = h.normal;
  starts = h.starts;
  starts_alone = h.starts_alone;
  deps_launched = h.deps_launched;
  sets_back = λ i e g. All-weaken _ _ (λ j p. p.1) (set_back e.body) (h.sets_back i e g);
}

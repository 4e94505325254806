-- ===== src/Tasks/Plain.antt =====
-- BuildGraph of src/tasks/tasks.hpp on a region without regional or completion tasks.
use parthenon.Base.{
  ℕ, suc, List, [], ◌∷◌, get_elem?, some, length, Result, ok, err, true, ◌∙◌, ◌≡◌, refl, ap, arith,
  ◌<◌,
}
use parthenon.Tasks.Execute.{Edges}
use parthenon.Tasks.Build.{TaskList, Region, Error, no_list}
use parthenon.Tasks.BuildGraph.{
  join_regional, add_regional_dependencies, connect_iteration, build_graph,
}

-- A list without regional or completion tasks.
abbrev pub IsPlain : TaskList → Type 0
IsPlain l = (l.regional_tasks ≡ []) × (l.completion_tasks ≡ [])

connect_iteration-plain :
    (ls : List TaskList) (g : List Edges)
    → ((k : ℕ) (l : TaskList) → get_elem? ls k ≡ some l → IsPlain l)
    → connect_iteration ls g ≡ g
unfolding connect_iteration
connect_iteration-plain [] g h = refl
connect_iteration-plain (l ∷ ls) g h =
    rw (h 0 l refl).1 (connect_iteration-plain ls g (λ k. h (suc k)))

regional-plain :
    (r : Region) (ls : List TaskList)
    → r.lists ≡ ls
    → 0 < length ls
    → ((k : ℕ) (l : TaskList) → get_elem? ls k ≡ some l → IsPlain l)
    → add_regional_dependencies r ≡ ok r
unfolding add_regional_dependencies join_regional
regional-plain r [] e lt h = absurd (omega arith)
regional-plain r (l ∷ ls) e lt h =
    ap
      (λ (ks : List TaskList). elim ks as (λ x. Result Error Region) [
        | [] ↦ err no_list
        | k ∷ ks' ↦ join_regional 0 (length k.regional_tasks) r
      ])
      e
    ∙ ap (λ (ts : List ℕ). join_regional 0 (length ts) r) (h 0 l refl).0

-- Without such tasks the graph is left as it is.
pub build_graph-plain :
    (r : Region)
    → 0 < length r.lists
    → ((k : ℕ) (l : TaskList) → get_elem? r.lists k ≡ some l → IsPlain l)
    → build_graph r ≡ ok (record r { graph_built = true })
unfolding build_graph
build_graph-plain r lt h =
    rw (build_graph, regional-plain r r.lists refl lt h)
      (ap (λ (g : List Edges). ok (record r { graph = g; graph_built = true }))
        (connect_iteration-plain r.lists r.graph h))

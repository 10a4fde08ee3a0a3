-- ===== src/Workflow/Graph.antt =====
-- `validateWorkflowGraph` (workflow-graph.ts), and the graphs it accepts.
pub mod Order
pub mod Accepted
use auxifyai.Prelude.{
  ℕ, suc, ◌+◌, ◌≡◌, refl, sym, subst, ap, ◌⊎◌, inl, inr, ◌↔◌, Bool, true, false, not, ◌&&◌, ◌||◌,
  String, Option, none, some, List, [], ◌∷◌, map, Perm, if◌then◌else◌, str_eq, contains, leb, ◌==◌,
  All, Any, contains_iff, eq_iff, arith, Option-cases, Bool-cases,
}
use auxifyai.Prelude.Sort.{sort_by, sort_by-perm, Ordered, sort_by-Ordered}
use auxifyai.Workflow.{
  Workflow, WorkflowStep, WorkflowProblem, duplicate_step_id, references_itself, references_unknown,
  references_later, InvalidWorkflowError,
}

-- `steps.map((step, index) => ({ step, index }))`
pub record Entry : Type 0 where
  pub step : WorkflowStep
  pub index : ℕ

unfoldable pub indexed : ℕ → List WorkflowStep → List Entry
indexed i [] = []
indexed i (s ∷ ss) = record { step = s; index = i } ∷ indexed (suc i) ss

-- The comparator gives at most 0: by order, then by index.
unfoldable pub entry_le : Entry → Entry → Bool
entry_le a b =
    if not (a.step.order == b.step.order)
    then leb a.step.order b.step.order
    else leb a.index b.index

abbrev pub step_of : Entry → WorkflowStep
step_of e = e.step

unfoldable pub ordered_steps : List WorkflowStep → List WorkflowStep
ordered_steps ss = map step_of (sort_by entry_le (indexed 0 ss))

abbrev pub invalid : Workflow → WorkflowProblem → List String → InvalidWorkflowError
invalid w reason ids = record { workflow_id = w.id; reason = reason; step_ids = ids }

-- The first loop. `seen` has the ids of the steps before.
unfoldable pub check_ids : Workflow → List String → List WorkflowStep → Option InvalidWorkflowError
check_ids w seen [] = none
check_ids w seen (s ∷ ss) =
    let rest = check_ids w (s.id ∷ seen) ss in
    if contains seen s.id then some (invalid w (duplicate_step_id s.id) (s.id ∷ [])) else rest

-- The inner loop of the second: one step's references.
unfoldable pub check_refs :
    Workflow → List String → List String → WorkflowStep → List String → Option InvalidWorkflowError
check_refs w seen executed s [] = none
check_refs w seen executed s (ref ∷ refs) =
    let rest = check_refs w seen executed s refs in
    if str_eq ref s.id
    then some (invalid w (references_itself s.id) (s.id ∷ []))
    else if not (contains seen ref)
    then some (invalid w (references_unknown s.id ref) (s.id ∷ ref ∷ []))
    else if not (contains executed ref)
    then some (invalid w (references_later s.id ref) (s.id ∷ ref ∷ []))
    else rest

-- The second loop. `executed` has the ids of the steps before, `seen` those of all.
unfoldable pub check_order :
    Workflow → List String → List String → List WorkflowStep → Option InvalidWorkflowError
check_order w seen executed [] = none
check_order w seen executed (s ∷ ss) = elim (check_refs w seen executed s s.input_refs) [
  | some e ↦ some e
  | none ↦ check_order w seen (s.id ∷ executed) ss
]

abbrev pub id_of : WorkflowStep → String
id_of s = s.id

unfoldable pub validate_workflow_graph : Workflow → InvalidWorkflowError ⊎ List WorkflowStep
validate_workflow_graph w =
    let ordered = ordered_steps w.steps in
    elim (check_ids w [] ordered) [
      | some e ↦ inl e
      | none ↦ elim (check_order w (map id_of ordered) [] ordered) [
        | some e ↦ inl e
        | none ↦ inr ordered
      ]
    ]

-- ===== src/Examples/Workflows.antt =====
-- Tests of the workflow executor, and its theorems at concrete inputs.
use auxifyai.Prelude.{
  ◌≡◌, refl, ◌⊎◌, inl, inr, ◌↔◌, Bool, true, false, String, Option, none, some, List, [], ◌∷◌, map,
  Perm, length,
}
use auxifyai.Prelude.Maps.{lookup, put, lookup-put, lookup-same, lookup-other}
use auxifyai.Workflow.{
  Workflow, WorkflowStep, WorkflowStepType, WorkflowRunResult, WorkflowRunRecord,
  WorkflowStepOutcome, StepResult, duplicate_step_id, completed, failed,
}
use auxifyai.Workflow.Graph.{
  Entry, indexed, step_of, ordered_steps, validate_workflow_graph, id_of, invalid,
}
use auxifyai.Workflow.Graph.Accepted.{Executable, validate_workflow_graph-iff-Executable}
use auxifyai.Workflow.Run.{
  Cause, an_error, StepExecutionContext, WorkflowExecutor, run, no_usage, result_of,
  record_analytics, record_of, status_of, invalid_workflow,
}
use auxifyai.Workflow.Run.Order.{Runs, run-Runs, total_usage, end_of}
use auxifyai.Workflow.Run.Order.Halting.{HaltsAt, run-HaltsAt}

abbrev step : String → Prim.Native.Nat.ℕ → List String → WorkflowStep
step id order refs = record {
  id = id;
  order = order;
  type = WorkflowStepType.agent;
  input_refs = refs;
  config = "{}";
}

-- The steps stand in the workflow in another order than they run in.
abbrev report : Workflow
report = record {
  id = "w1";
  organization_id = "acme";
  project_id = "p1";
  steps = step "send" 3 ("write" ∷ []) ∷ step "search" 1 [] ∷ step "write" 2 ("search" ∷ []) ∷ [];
}

abbrev twice : Workflow
twice = record report { steps = step "a" 1 [] ∷ step "a" 2 [] ∷ [] }

-- `write` fails unless it got what `search` found.
unfoldable execute : StepExecutionContext → Cause ⊎ StepResult
execute c = elim (lookup "write" c.inputs) [
  | some v ↦ inl (an_error "no channel")
  | none ↦ inr (record { output = c.step.id; usage = none; delivered_via = none })
]

abbrev stores : WorkflowRunRecord → Bool
stores r = true

abbrev executor : WorkflowExecutor
executor = record { execute = execute; analytics = some stores; correlation_id = "run" }

report-order : map id_of (ordered_steps report.steps) ≡ "search" ∷ "write" ∷ "send" ∷ []
unfolding ordered_steps indexed auxifyai.Workflow.Graph.entry_le auxifyai.Prelude.Sort.sort_by
report-order = refl

abbrev in_order : List WorkflowStep
in_order = step "search" 1 [] ∷ step "write" 2 ("search" ∷ []) ∷ step "send" 3 ("write" ∷ []) ∷ []

report-valid : validate_workflow_graph report ≡ inr in_order
unfolding validate_workflow_graph ordered_steps indexed auxifyai.Workflow.Graph.entry_le
    auxifyai.Prelude.Sort.sort_by auxifyai.Workflow.Graph.check_ids
    auxifyai.Workflow.Graph.check_order auxifyai.Workflow.Graph.check_refs
report-valid = refl

twice-invalid :
    (run executor twice).result
    ≡ inl (invalid_workflow (invalid twice (duplicate_step_id "a") ("a" ∷ [])))
unfolding validate_workflow_graph ordered_steps indexed auxifyai.Workflow.Graph.entry_le
    auxifyai.Prelude.Sort.sort_by auxifyai.Workflow.Graph.check_ids run
twice-invalid = refl

validate_workflow_graph-iff-Executable_example :
    (validate_workflow_graph report ≡ inr in_order)
    ↔ ((ordered_steps report.steps ≡ in_order) × Executable [] in_order)
validate_workflow_graph-iff-Executable_example =
    validate_workflow_graph-iff-Executable report in_order

run-Runs_example :
    (calls : List StepExecutionContext) × (outcomes : List WorkflowStepOutcome) × (f : Option
      String)
    × Runs executor report [] in_order calls outcomes f
    × (run executor report
        ≡ record_analytics executor calls
            (result_of report (end_of calls outcomes (total_usage no_usage outcomes) f)))
run-Runs_example = run-Runs executor report in_order report-valid

run-HaltsAt_example :
    (r : WorkflowRunResult) × ((run executor report).result ≡ inr r)
    × ((run executor report).recorded ≡ record_of r ∷ [])
    × HaltsAt r.steps in_order r.failed_step_id
    × (r.status ≡ status_of r.failed_step_id)
    × (length (run executor report).calls ≡ length r.steps)
run-HaltsAt_example = run-HaltsAt executor report in_order stores report-valid refl (λ r. refl)

-- The report is searched for and written, and cannot be sent.
report-failed :
    map
      (λ (o : WorkflowStepOutcome). o.step_id)
      (elim (run executor report).result [ inl t ↦ [] | inr r ↦ r.steps ])
    ≡ "search" ∷ "write" ∷ "send" ∷ []
unfolding validate_workflow_graph ordered_steps indexed auxifyai.Workflow.Graph.entry_le
    auxifyai.Prelude.Sort.sort_by auxifyai.Workflow.Graph.check_ids
    auxifyai.Workflow.Graph.check_order auxifyai.Workflow.Graph.check_refs run
    auxifyai.Workflow.Run.run_steps auxifyai.Workflow.Run.resolve_inputs execute
    auxifyai.Prelude.Maps.lookup auxifyai.Prelude.Maps.put auxifyai.Workflow.Run.finish
    auxifyai.Workflow.Run.record_analytics auxifyai.Workflow.Run.result_of
report-failed = refl

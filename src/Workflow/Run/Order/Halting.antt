-- ===== src/Workflow/Run/Order/Halting.antt =====
-- What a run reports: where it stopped, and what reached the analytics.
use auxifyai.Prelude.{
  ◌≡◌, ◌∙◌, refl, sym, ap, inl, inr, Bool, true, String, Option, none, some, List, [], ◌∷◌, length,
  Sum-cases, arith, suc,
}
use auxifyai.Workflow.{
  Workflow, WorkflowStep, WorkflowStepOutcome, WorkflowRunResult, WorkflowRunRecord,
  InvalidWorkflowError, succeeded, step_failed,
}
use auxifyai.Workflow.Graph.{validate_workflow_graph}
use auxifyai.Workflow.Run.{
  StepExecutionContext, WorkflowExecutor, invalid_workflow, Ran, run, result_of, record_of,
  record_analytics, no_usage, status_of,
}
use auxifyai.Workflow.Run.Inputs.{Outputs}
use auxifyai.Workflow.Run.Order.{Runs, finished, halted, advanced, run-Runs, total_usage, end_of}

-- The outcomes are those of the first steps in order; all succeeded and no step is left over, or the
-- last failed and is the failed step.
abbrev pub HaltsAt : List WorkflowStepOutcome → List WorkflowStep → Option String → Type 0
HaltsAt [] ss f = (ss ≡ []) × (f ≡ none)
HaltsAt (o ∷ os) [] f = ⊥
HaltsAt (o ∷ os) (s ∷ ss) f =
    (o.step_id ≡ s.id)
    × (o.order ≡ s.order)
    × (elim o.status [ succeeded ↦ HaltsAt os ss f | step_failed ↦ (os ≡ []) × (f ≡ some s.id) ])

Runs-HaltsAt :
    (x : WorkflowExecutor) (w : Workflow) (done : Outputs) (ss : List WorkflowStep)
    (calls : List StepExecutionContext) (os : List WorkflowStepOutcome) (f : Option String)
    → Runs x w done ss calls os f
    → HaltsAt os ss f × (length calls ≡ length os)
Runs-HaltsAt x w done ss calls os f finished = ((refl, refl), refl)
Runs-HaltsAt x w done ss calls os f (halted sup e) = ((refl, refl, (refl, refl)), refl)
Runs-HaltsAt x w done ss calls os f (advanced {calls = cs} {outcomes = rest} {f = g} sup e r) =
    let ih = Runs-HaltsAt x w _ _ cs rest g r in ((refl, refl, ih.0), ap suc ih.1)

record_analytics-stored :
    (x : WorkflowExecutor) (stores : WorkflowRunRecord → Bool) (calls : List StepExecutionContext)
    (r : WorkflowRunResult)
    → x.analytics ≡ some stores
    → stores (record_of r) ≡ true
    → record_analytics x calls r
      ≡ record { result = inr r; calls = calls; recorded = record_of r ∷ [] }
unfolding record_analytics
record_analytics-stored x stores calls r h k = rw (record_analytics, h, k) refl

-- A run of a valid workflow, with an analytics that stores the records, returns a result: the steps
-- ran in order, once each, up to the first failure, which the result names. The analytics got the
-- record of just this result.
pub run-HaltsAt :
    (x : WorkflowExecutor) (w : Workflow) (ss : List WorkflowStep)
    (stores : WorkflowRunRecord → Bool)
    → validate_workflow_graph w ≡ inr ss
    → x.analytics ≡ some stores
    → ((rec : WorkflowRunRecord) → stores rec ≡ true)
    → (r : WorkflowRunResult) × ((run x w).result ≡ inr r)
      × ((run x w).recorded ≡ record_of r ∷ [])
      × HaltsAt r.steps ss r.failed_step_id
      × (r.status ≡ status_of r.failed_step_id)
      × (length (run x w).calls ≡ length r.steps)
unfolding result_of
run-HaltsAt x w ss stores h k all =
    let (calls, os, f, runs, eq) = run-Runs x w ss h in
    let r : WorkflowRunResult = result_of w (end_of calls os (total_usage no_usage os) f) in
    let e = eq ∙ record_analytics-stored x stores calls r k (all (record_of r)) in
    let at = Runs-HaltsAt x w [] ss calls os f runs in
    (
      r,
      ap (λ (y : Ran). y.result) e,
      ap (λ (y : Ran). y.recorded) e,
      at.0,
      refl,
      ap (λ (y : Ran). length y.calls) e ∙ at.1,
    )

record_analytics-valid :
    (x : WorkflowExecutor) (calls : List StepExecutionContext) (r : WorkflowRunResult)
    (e : InvalidWorkflowError)
    → (record_analytics x calls r).result ≡ inl (invalid_workflow e)
    → ⊥
unfolding record_analytics
record_analytics-valid x calls r e h = ground arith

run-refused :
    (x : WorkflowExecutor) (w : Workflow) (e : InvalidWorkflowError)
    → validate_workflow_graph w ≡ inl e
    → run x w ≡ record { result = inl (invalid_workflow e); calls = []; recorded = [] }
unfolding run
run-refused x w e h = rw (run, h) refl

-- A run throws an InvalidWorkflowError only where the validation of the graph threw it. It then has
-- called no step and recorded nothing.
pub run-invalid_workflow :
    (x : WorkflowExecutor) (w : Workflow) (e : InvalidWorkflowError)
    → (run x w).result ≡ inl (invalid_workflow e)
    → (validate_workflow_graph w ≡ inl e) × ((run x w).calls ≡ []) × ((run x w).recorded ≡ [])
run-invalid_workflow x w e h = elim (Sum-cases (validate_workflow_graph w)) [
  | inl (e', v) ↦
      let refused = run-refused x w e' v in
      let same : e' ≡ e = ground (arith, ap (λ (y : Ran). y.result) (sym refused) ∙ h) in
      (v ∙ ap inl same, ap (λ (y : Ran). y.calls) refused, ap (λ (y : Ran). y.recorded) refused)
  | inr (ss, v) ↦
      let (calls, os, f, runs, eq) = run-Runs x w ss v in
      absurd (record_analytics-valid x calls _ e (ap (λ (y : Ran). y.result) (sym eq) ∙ h))
]

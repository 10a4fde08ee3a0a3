-- ===== src/Workflow/Run.antt =====
-- `WorkflowExecutor` (workflow-executor.ts). The step executor and the analytics recorder are ports,
-- and either may reject. A run gives what it returns or throws, the calls of the step executor in
-- order, and the records that the analytics stored.
pub mod Order
pub mod Inputs
use auxifyai.Prelude.{
  ℕ, ◌+◌, ◌≡◌, ◌⊎◌, inl, inr, Bool, true, false, String, Option, none, some, List, [], ◌∷◌, ◌++◌,
  length, get_or_else, if◌then◌else◌,
}
use auxifyai.Prelude.Maps.{lookup, put, lookup-put, lookup-same, lookup-other}
use auxifyai.Workflow.{
  Value, Workflow, WorkflowStep, WorkflowResourceUsage, StepResult, PlatformError,
  WorkflowStepOutcome, WorkflowRunResult, WorkflowRunRecord, WorkflowRunStatus, WorkflowStepStatus,
  completed, failed, succeeded, step_failed, InvalidWorkflowError, no_recorded_output,
}
use auxifyai.Workflow.Graph.{validate_workflow_graph, invalid}

-- What a step executor throws: a typed error with its projection, an Error, or something else.
pub data Cause : Type 0 where
  typed : (String → PlatformError) → Cause
  an_error : String → Cause
  other : Cause

-- `StepExecutionContext`
pub record StepExecutionContext : Type 0 where
  pub workflow : Workflow
  pub step : WorkflowStep
  pub inputs : List (String × Value)

pub record WorkflowExecutor : Type 0 where
  -- `WorkflowStepExecutor.execute`
  pub execute : StepExecutionContext → Cause ⊎ StepResult
  -- `WorkflowAnalyticsRecorder.record`, when there is one: whether it stored the record.
  pub analytics : Option (WorkflowRunRecord → Bool)
  pub correlation_id : String

abbrev pub no_usage : WorkflowResourceUsage
no_usage = record { tokens = none; cost = none; duration_ms = none; tool_calls = none }

abbrev pub add_field : Option ℕ → Option ℕ → Option ℕ
add_field a b = some (get_or_else a 0 + get_or_else b 0)

unfoldable pub add_usage :
    WorkflowResourceUsage → Option WorkflowResourceUsage → WorkflowResourceUsage
add_usage total none = total
add_usage total (some step) = record {
  tokens = add_field total.tokens step.tokens;
  cost = add_field total.cost step.cost;
  duration_ms = add_field total.duration_ms step.duration_ms;
  tool_calls = add_field total.tool_calls step.tool_calls;
}

-- `createPlatformError` of an `internal` failure, which is retriable.
abbrev pub internal_error : String → String → String → PlatformError
internal_error message step_id correlation_id = record {
  category = "internal";
  code = "WORKFLOW_STEP_FAILED";
  message = message;
  correlation_id = correlation_id;
  retriable = true;
  details = ("stepId", step_id) ∷ [];
}

unfoldable pub project_step_error : Cause → String → String → PlatformError
project_step_error (typed to_platform_error) step_id correlation_id =
    to_platform_error correlation_id
project_step_error (an_error message) step_id correlation_id =
    internal_error message step_id correlation_id
project_step_error other step_id correlation_id =
    internal_error "Workflow step failed" step_id correlation_id

-- `resolveInputs`, from the inputs of the references before.
unfoldable pub resolve_inputs :
    Workflow
    → WorkflowStep
    → List (String × Value)
    → List String
    → List (String × Value)
    → InvalidWorkflowError ⊎ List (String × Value)
resolve_inputs w s outputs [] inputs = inr inputs
resolve_inputs w s outputs (ref ∷ refs) inputs = elim (lookup ref outputs) [
  | none ↦ inl (invalid w (no_recorded_output s.id ref) (s.id ∷ ref ∷ []))
  | some v ↦ resolve_inputs w s outputs refs (put ref v inputs)
]

abbrev pub success : WorkflowStep → StepResult → WorkflowStepOutcome
success s r = record {
  step_id = s.id;
  order = s.order;
  type = s.type;
  status = succeeded;
  output = some r.output;
  delivered_via = r.delivered_via;
  usage = r.usage;
  error = none;
}

abbrev pub failure : WorkflowStep → Cause → String → WorkflowStepOutcome
failure s cause correlation_id = record {
  step_id = s.id;
  order = s.order;
  type = s.type;
  status = step_failed;
  output = none;
  delivered_via = none;
  usage = none;
  error = some (project_step_error cause s.id correlation_id);
}

abbrev pub context_of : Workflow → WorkflowStep → List (String × Value) → StepExecutionContext
context_of w s inputs = record { workflow = w; step = s; inputs = inputs }

-- How the loop ends, with the calls it made.
pub record LoopEnd : Type 0 where
  pub thrown : Option InvalidWorkflowError
  pub calls : List StepExecutionContext
  pub outcomes : List WorkflowStepOutcome
  pub usage : WorkflowResourceUsage
  pub failed_step_id : Option String

abbrev pub after_call : StepExecutionContext → LoopEnd → LoopEnd
after_call c e = record e { calls = c ∷ e.calls }

-- The loop of `run` over the ordered steps.
unfoldable pub run_steps :
    WorkflowExecutor
    → Workflow
    → List (String × Value)
    → List WorkflowStepOutcome
    → WorkflowResourceUsage
    → List WorkflowStep
    → LoopEnd
run_steps x w outputs outcomes usage [] = record {
  thrown = none;
  calls = [];
  outcomes = outcomes;
  usage = usage;
  failed_step_id = none;
}
run_steps x w outputs outcomes usage (s ∷ ss) = elim (resolve_inputs w s outputs s.input_refs []) [
  | inl e ↦ record {
    thrown = some e;
    calls = [];
    outcomes = outcomes;
    usage = usage;
    failed_step_id = none;
  }
  | inr inputs ↦
      let context = context_of w s inputs in
      elim (x.execute context) [
        | inl cause ↦ record {
          thrown = none;
          calls = context ∷ [];
          outcomes = outcomes ++ (failure s cause x.correlation_id ∷ []);
          usage = usage;
          failed_step_id = some s.id;
        }
        | inr r ↦ after_call context (
            run_steps x w (put s.id r.output outputs) (outcomes ++ (success s r ∷ []))
              (add_usage usage r.usage) ss)
      ]
]

abbrev pub status_of : Option String → WorkflowRunStatus
status_of none = completed
status_of (some id) = failed

unfoldable pub result_of : Workflow → LoopEnd → WorkflowRunResult
result_of w e = record {
  workflow_id = w.id;
  organization_id = w.organization_id;
  project_id = w.project_id;
  status = status_of e.failed_step_id;
  steps = e.outcomes;
  failed_step_id = e.failed_step_id;
  usage = e.usage;
}

abbrev pub record_of : WorkflowRunResult → WorkflowRunRecord
record_of r = record {
  workflow_id = r.workflow_id;
  organization_id = r.organization_id;
  project_id = r.project_id;
  status = r.status;
  failed_step_id = r.failed_step_id;
  steps_attempted = length r.steps;
  usage = r.usage;
}

pub data Thrown : Type 0 where
  invalid_workflow : InvalidWorkflowError → Thrown
  analytics_failed : Thrown

pub record Ran : Type 0 where
  pub result : Thrown ⊎ WorkflowRunResult
  pub calls : List StepExecutionContext
  pub recorded : List WorkflowRunRecord

-- `recordAnalytics`, and the return after it.
unfoldable pub record_analytics :
    WorkflowExecutor → List StepExecutionContext → WorkflowRunResult → Ran
record_analytics x calls r = elim x.analytics [
  | none ↦ record { result = inr r; calls = calls; recorded = [] }
  | some stores ↦
      if stores (record_of r)
      then record { result = inr r; calls = calls; recorded = record_of r ∷ [] }
      else record { result = inl analytics_failed; calls = calls; recorded = [] }
]

-- What follows the loop.
unfoldable pub finish : WorkflowExecutor → Workflow → LoopEnd → Ran
finish x w e = elim e.thrown [
  | some t ↦ record { result = inl (invalid_workflow t); calls = e.calls; recorded = [] }
  | none ↦ record_analytics x e.calls (result_of w e)
]

unfoldable pub run : WorkflowExecutor → Workflow → Ran
run x w = elim (validate_workflow_graph w) [
  | inl e ↦ record { result = inl (invalid_workflow e); calls = []; recorded = [] }
  | inr ordered ↦ finish x w (run_steps x w [] [] no_usage ordered)
]

-- ===== src/Workflow.antt =====
-- The workflow executor of the Scheduler: services/core/src/scheduler (types.ts, workflow-graph.ts,
-- workflow-executor.ts). This file has its data. Outputs and configurations, which the executor only
-- passes on, are serialised values. The cadence, which `run` does not read, is left out.
pub mod Graph
pub mod Run
use auxifyai.Prelude.{
  ℕ, Bool, true, false, String, Option, none, some, List, [], ◌∷◌, str_eq, if◌then◌else◌,
}

abbrev pub Value : Type 0
Value = String

pub data WorkflowStepType : Type 0 where
  agent delivery : WorkflowStepType

pub record WorkflowStep : Type 0 where
  pub id : String
  pub order : ℕ
  pub type : WorkflowStepType
  pub input_refs : List String
  pub config : Value

pub record Workflow : Type 0 where
  pub id : String
  pub organization_id : String
  pub project_id : String
  pub steps : List WorkflowStep

pub record WorkflowResourceUsage : Type 0 where
  pub tokens : Option ℕ
  pub cost : Option ℕ
  pub duration_ms : Option ℕ
  pub tool_calls : Option ℕ

pub record StepResult : Type 0 where
  pub output : Value
  pub usage : Option WorkflowResourceUsage
  pub delivered_via : Option String

pub record PlatformError : Type 0 where
  pub category : String
  pub code : String
  pub message : String
  pub correlation_id : String
  pub retriable : Bool
  pub details : List (String × String)

pub data WorkflowRunStatus : Type 0 where
  completed failed : WorkflowRunStatus

pub data WorkflowStepStatus : Type 0 where
  succeeded step_failed : WorkflowStepStatus

pub record WorkflowStepOutcome : Type 0 where
  pub step_id : String
  pub order : ℕ
  pub type : WorkflowStepType
  pub status : WorkflowStepStatus
  pub output : Option Value
  pub delivered_via : Option String
  pub usage : Option WorkflowResourceUsage
  pub error : Option PlatformError

pub record WorkflowRunResult : Type 0 where
  pub workflow_id : String
  pub organization_id : String
  pub project_id : String
  pub status : WorkflowRunStatus
  pub steps : List WorkflowStepOutcome
  pub failed_step_id : Option String
  pub usage : WorkflowResourceUsage

pub record WorkflowRunRecord : Type 0 where
  pub workflow_id : String
  pub organization_id : String
  pub project_id : String
  pub status : WorkflowRunStatus
  pub failed_step_id : Option String
  pub steps_attempted : ℕ
  pub usage : WorkflowResourceUsage

-- What is wrong with a step graph: the three forms of the error's reason.
pub data WorkflowProblem : Type 0 where
  duplicate_step_id : String → WorkflowProblem
  references_itself : String → WorkflowProblem
  references_unknown : String → String → WorkflowProblem
  references_later : String → String → WorkflowProblem
  no_recorded_output : String → String → WorkflowProblem

pub record InvalidWorkflowError : Type 0 where
  pub workflow_id : String
  pub reason : WorkflowProblem
  pub step_ids : List String

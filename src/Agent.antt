-- ===== src/Agent.antt =====
-- The Agent_Runtime: services/core/src/agent (types.ts, agent-runtime.ts). This file has its data and
-- ports. Inputs and outputs of tools are serialised values. The texts of errors are left out but for
-- what a failing tool says.
pub mod Step
pub mod Run
use auxifyai.Prelude.{
  ℕ, ◌+◌, ◌⊎◌, Bool, true, false, String, Option, none, some, List, str_eq, ltb, get_or_else, ◌&&◌,
  not, ◌||◌, ◌==◌, if◌then◌else◌,
}
use auxifyai.Identity.{Principal}
use auxifyai.Router.{TokenUsage}

abbrev pub Value : Type 0
Value = String

-- `budgetCap` is `none` where it is infinite.
pub record SafetyLimits : Type 0 where
  pub max_steps : ℕ
  pub max_duration_ms : ℕ
  pub budget_cap : Option ℕ

-- `Partial<SafetyLimits>`
pub record PartialLimits : Type 0 where
  pub max_steps : Option ℕ
  pub max_duration_ms : Option ℕ
  pub budget_cap : Option ℕ

pub record AgentDefinition : Type 0 where
  pub id : String
  pub system_prompt : String
  pub allowed_tools : List String
  pub model : String
  pub safety_limits : Option PartialLimits
  pub destructive_tools : List String

pub record AgentRunInput : Type 0 where
  pub agent : AgentDefinition
  pub task : String

pub record AgentToolCall : Type 0 where
  pub tool_id : String
  pub input : Value
  pub usage : Option TokenUsage
  pub cost : Option ℕ

-- Of a final answer the usage and the cost are not read.
pub data AgentModelResponse : Type 0 where
  tool_call : AgentToolCall → AgentModelResponse
  final : String → AgentModelResponse

pub data AgentRunStatus : Type 0 where
  completed cancelled stopped_step_limit stopped_time_limit : AgentRunStatus
  stopped_budget_cap failed : AgentRunStatus

pub data AgentStepOutcome : Type 0 where
  ok denied invalid_input unknown_tool approval_denied error : AgentStepOutcome

-- A tool's output, or the payload of a denial or failure.
pub data StepOutput : Type 0 where
  produced : Value → StepOutput
  no_such_tool tool_not_allowed not_approved : StepOutput
  violations : List String → StepOutput
  tool_error : String → StepOutput

pub record AgentStepRecord : Type 0 where
  pub id : String
  pub run_id : String
  pub step_number : ℕ
  pub tool : String
  pub input : Value
  pub output : StepOutput
  pub duration_ms : ℕ
  pub denied : Bool
  pub outcome : AgentStepOutcome
  pub tokens : ℕ
  pub cost : ℕ

pub record AgentObservation : Type 0 where
  pub step_number : ℕ
  pub tool_id : String
  pub input : Value
  pub output : StepOutput
  pub outcome : AgentStepOutcome

pub record AgentModelRequest : Type 0 where
  pub model : String
  pub system_prompt : String
  pub task : String
  pub observations : List AgentObservation
  pub principal : Principal

pub record AgentRunResult : Type 0 where
  pub run_id : String
  pub agent_id : String
  pub status : AgentRunStatus
  pub answer : Option String
  pub steps : List AgentStepRecord
  pub total_steps : ℕ
  pub total_tokens : ℕ
  pub total_cost : ℕ
  pub total_duration_ms : ℕ

pub data AgentRunEvent : Type 0 where
  run_started : String → String → AgentRunEvent
  step_recorded : String → AgentStepRecord → AgentRunEvent
  run_finished : String → AgentRunResult → AgentRunEvent

-- What a tool is invoked with, and what an approval is asked for.
pub record ToolInvocation : Type 0 where
  pub tool_id : String
  pub input : Value
  pub run_id : String
  pub step_number : ℕ

pub record AgentRuntime : Type 0 where
  -- `AgentModelPort.decide`, or the error it throws.
  pub decide : AgentModelRequest → String ⊎ AgentModelResponse
  -- `AgentToolDispatcher`
  pub has : String → Bool
  pub is_allowed : String → List String → Bool
  -- The violations; none where the input is valid.
  pub validate_input : String → Value → List String
  -- The output, or the error the tool throws.
  pub invoke : ToolInvocation → List String → Principal → String ⊎ Value
  -- `AgentApprovalPort.requestApproval`, when there is one; `none` when it rejects.
  pub approval : Option (ToolInvocation → Option Bool)
  -- `AgentEventSink.emit`, when there is one: whether it takes the event; it rejects otherwise.
  pub events : Option (AgentRunEvent → Bool)
  -- The clock's readings, the generated ids and the answers of `isCancelled`, each in turn.
  pub clock : ℕ → ℕ
  pub new_id : ℕ → String
  pub is_cancelled : ℕ → Bool

abbrev pub default_max_steps : ℕ
default_max_steps = 50

abbrev pub default_max_duration_ms : ℕ
default_max_duration_ms = 600_000

abbrev pub no_limits : PartialLimits
no_limits = record { max_steps = none; max_duration_ms = none; budget_cap = none }

-- `resolveLimits`, `none` where it throws. Limits are natural numbers, so only 0 is refused.
unfoldable pub resolve_limits : Option PartialLimits → Option SafetyLimits
resolve_limits o =
    let p = get_or_else o no_limits in
    let max_steps = get_or_else p.max_steps default_max_steps in
    let max_duration_ms = get_or_else p.max_duration_ms default_max_duration_ms in
    if not (ltb 0 max_steps)
    then none
    else if not (ltb 0 max_duration_ms)
    then none
    else some (record {
      max_steps = max_steps;
      max_duration_ms = max_duration_ms;
      budget_cap = p.budget_cap;
    })

-- `assertValidInput`: what the types leave open.
unfoldable pub valid_input : AgentRunInput → Bool
valid_input i =
    not (str_eq i.agent.id "") && not (str_eq i.agent.model "") && not (str_eq i.task "")

unfoldable pub to_observation : AgentStepRecord → AgentObservation
to_observation s = record {
  step_number = s.step_number;
  tool_id = s.tool;
  input = s.input;
  output = s.output;
  outcome = s.outcome;
}

-- ===== src/Agent/Run.antt =====
-- `AgentRuntime.run`: the loop of plan, act, observe, and the totals. The loop has fuel; a run gives
-- it one round more than the step limit.
pub mod Account
pub mod Limits
pub mod Report
use auxifyai.Prelude.{
  ℕ, suc, zero, ◌+◌, ◌-◌, ◌≡◌, ◌⊎◌, inl, inr, Bool, true, false, not, String, Option, none, some,
  List, [], ◌∷◌, ◌++◌, if◌then◌else◌, length, leb, map,
}
use auxifyai.Identity.{Principal}
use auxifyai.Agent.{
  AgentRunInput, AgentDefinition, SafetyLimits, AgentModelRequest, AgentModelResponse, tool_call,
  final, AgentRunStatus, completed, cancelled, stopped_step_limit, stopped_time_limit,
  stopped_budget_cap, failed, AgentStepRecord, AgentObservation, AgentRunResult, AgentRunEvent,
  run_started, step_recorded, run_finished, ToolInvocation, AgentRuntime, resolve_limits,
  valid_input, to_observation,
}
use auxifyai.Agent.Step.{ToolStep, execute_tool_step}

-- The loop's variables. `reads` and `ids` count the clock's readings and the ids so far; `emitted`
-- and `invoked` are the events that the sink took and the tools that were invoked.
pub record LoopState : Type 0 where
  pub steps : List AgentStepRecord
  pub observations : List AgentObservation
  pub accumulated_cost : ℕ
  pub reads : ℕ
  pub ids : ℕ
  pub emitted : List AgentRunEvent
  pub invoked : List ToolInvocation

pub data LoopEnd : Type 0 where
  ended : AgentRunStatus → Option String → LoopState → LoopEnd
  -- a port rejected
  rejected : LoopState → LoopEnd
  out_of_fuel : LoopEnd

-- Whether the sink takes an event.
unfoldable pub takes : AgentRuntime → AgentRunEvent → Bool
takes x e = elim x.events [ none ↦ true | some emit ↦ emit e ]

abbrev pub with_invocation : Option ToolInvocation → List ToolInvocation → List ToolInvocation
with_invocation none is = is
with_invocation (some i) is = is ++ (i ∷ [])

-- The pushes after a step, its event, and the cost.
abbrev pub add_step : String → LoopState → ToolStep → LoopState
add_step run_id s t = record {
  steps = s.steps ++ (t.step ∷ []);
  observations = s.observations ++ (to_observation t.step ∷ []);
  accumulated_cost = s.accumulated_cost + t.step.cost;
  reads = suc (suc (suc s.reads));
  ids = suc s.ids;
  emitted = s.emitted ++ (step_recorded run_id t.step ∷ []);
  invoked = with_invocation t.invoked s.invoked;
}

abbrev pub request_of : AgentRunInput → Principal → LoopState → AgentModelRequest
request_of i p s = record {
  model = i.agent.model;
  system_prompt = i.agent.system_prompt;
  task = i.task;
  observations = s.observations;
  principal = p;
}

-- `cost >= budgetCap`
abbrev pub reaches : Option ℕ → ℕ → Bool
reaches none cost = false
reaches (some cap) cost = leb cap cost

unfoldable pub run_loop :
    AgentRuntime → Principal → AgentRunInput → SafetyLimits → String → ℕ → ℕ → LoopState → LoopEnd
run_loop x p i limits run_id started zero s = out_of_fuel
run_loop x p i limits run_id started (suc fuel) s = elim (x.is_cancelled (length s.steps)) [
  | true ↦ ended cancelled none s
  | false ↦ elim (leb limits.max_duration_ms (x.clock s.reads - started)) [
    | true ↦ ended stopped_time_limit none s
    | false ↦ elim (leb limits.max_steps (length s.steps)) [
      | true ↦ ended stopped_step_limit none s
      | false ↦ elim (x.decide (request_of i p s)) [
        | inl error ↦ ended failed none s
        | inr (final answer) ↦ ended completed (some answer) s
        | inr (tool_call call) ↦
            elim (execute_tool_step x p i.agent run_id (suc (length s.steps)) call (suc s.reads)
              s.ids) [
                | none ↦ rejected s
                | some t ↦ elim (takes x (step_recorded run_id t.step)) [
                  | false ↦ rejected (record s { invoked = with_invocation t.invoked s.invoked })
                  | true ↦ elim (reaches limits.budget_cap (s.accumulated_cost + t.step.cost)) [
                    | true ↦ ended stopped_budget_cap none (add_step run_id s t)
                    | false ↦ run_loop x p i limits run_id started fuel (add_step run_id s t)
                  ]
                ]
              ]
      ]
    ]
  ]
]

unfoldable pub total : (AgentStepRecord → ℕ) → List AgentStepRecord → ℕ
total f [] = 0
total f (s ∷ ss) = f s + total f ss

abbrev pub answer_of : AgentRunStatus → Option String → Option String
answer_of completed answer = answer
answer_of _ answer = none

unfoldable pub finalize :
    String → String → AgentRunStatus → Option String → List AgentStepRecord → AgentRunResult
finalize run_id agent_id status answer steps = record {
  run_id = run_id;
  agent_id = agent_id;
  status = status;
  answer = answer_of status answer;
  steps = steps;
  total_steps = length steps;
  total_tokens = total (λ s. s.tokens) steps;
  total_cost = total (λ s. s.cost) steps;
  total_duration_ms = total (λ s. s.duration_ms) steps;
}

pub data RunOutcome : Type 0 where
  -- an InvalidAgentRunError
  invalid_run : RunOutcome
  port_rejected : RunOutcome
  unfinished : RunOutcome
  finished : AgentRunResult → RunOutcome

-- What a call does.
pub record AgentRun : Type 0 where
  pub outcome : RunOutcome
  pub emitted : List AgentRunEvent
  pub invoked : List ToolInvocation

-- The clock is read once and one id is taken before the loop.
abbrev pub initial : String → String → LoopState
initial run_id agent_id = record {
  steps = [];
  observations = [];
  accumulated_cost = 0;
  reads = 1;
  ids = 1;
  emitted = run_started run_id agent_id ∷ [];
  invoked = [];
}

-- What follows the loop.
unfoldable pub conclude : AgentRuntime → String → String → LoopEnd → AgentRun
conclude x run_id agent_id (ended status answer s) =
    let result = finalize run_id agent_id status answer s.steps in
    if takes x (run_finished run_id result)
    then record {
      outcome = finished result;
      emitted = s.emitted ++ (run_finished run_id result ∷ []);
      invoked = s.invoked;
    }
    else record { outcome = port_rejected; emitted = s.emitted; invoked = s.invoked }
conclude x run_id agent_id (rejected s) = record {
  outcome = port_rejected;
  emitted = s.emitted;
  invoked = s.invoked;
}
conclude x run_id agent_id out_of_fuel = record { outcome = unfinished; emitted = []; invoked = [] }

abbrev pub no_run : RunOutcome → AgentRun
no_run outcome = record { outcome = outcome; emitted = []; invoked = [] }

unfoldable pub run : AgentRuntime → AgentRunInput → Principal → AgentRun
run x i p = elim (valid_input i) [
  | false ↦ no_run invalid_run
  | true ↦ elim (resolve_limits i.agent.safety_limits) [
    | none ↦ no_run invalid_run
    | some limits ↦
        let run_id = x.new_id 0 in
        elim (takes x (run_started run_id i.agent.id)) [
          | false ↦ no_run port_rejected
          | true ↦ conclude x run_id i.agent.id (
              run_loop x p i limits run_id (x.clock 0) (suc limits.max_steps)
                (initial run_id i.agent.id))
        ]
  ]
]

-- ===== src/Agent/Step.antt =====
-- `executeToolStep`: the gates before a tool runs, and what may come of one call.
use auxifyai.Prelude.{
  ℕ, suc, ◌+◌, ◌-◌, inl, inr, Bool, true, false, not, String, Option, none, some, [], ◌∷◌, contains,
  if◌then◌else◌, get_or_else,
}
use auxifyai.Identity.{Principal}
use auxifyai.Router.{TokenUsage}
use auxifyai.Agent.{
  AgentDefinition, AgentToolCall, AgentStepOutcome, ok, denied, invalid_input, unknown_tool,
  approval_denied, error, StepOutput, produced, no_such_tool, tool_not_allowed, not_approved,
  violations, tool_error, AgentStepRecord, ToolInvocation, AgentRuntime,
}

abbrev pub call_tokens : Option TokenUsage → ℕ
call_tokens none = 0
call_tokens (some u) = u.input_tokens + u.output_tokens

-- What one call of a tool leaves: its record, and the invocation if the tool was invoked.
pub record ToolStep : Type 0 where
  pub step : AgentStepRecord
  pub invoked : Option ToolInvocation

-- `finish`, with the number of clock readings before the step's own.
abbrev pub finish :
    AgentRuntime
    → String
    → ℕ
    → AgentToolCall
    → ℕ
    → ℕ
    → AgentStepOutcome
    → StepOutput
    → Bool
    → Option ToolInvocation
    → ToolStep
finish x run_id number call reads ids outcome output is_denied invoked = record {
  step = record {
    id = x.new_id ids;
    run_id = run_id;
    step_number = number;
    tool = call.tool_id;
    input = call.input;
    output = output;
    duration_ms = x.clock (suc reads) - x.clock reads;
    denied = is_denied;
    outcome = outcome;
    tokens = call_tokens call.usage;
    cost = get_or_else call.cost 0;
  };
  invoked = invoked;
}

abbrev pub invocation_of : String → ℕ → AgentToolCall → ToolInvocation
invocation_of run_id number call = record {
  tool_id = call.tool_id;
  input = call.input;
  run_id = run_id;
  step_number = number;
}

-- The approval of a destructive tool: without a port it is withheld; `none` when the port rejects.
unfoldable pub approved : AgentRuntime → ToolInvocation → Option Bool
approved x i = elim x.approval [ none ↦ some false | some ask ↦ ask i ]

-- The dispatch of a tool that passed every gate.
unfoldable pub dispatch :
    AgentRuntime → Principal → AgentDefinition → String → ℕ → AgentToolCall → ℕ → ℕ → ToolStep
dispatch x p agent run_id number call reads ids =
    let i = invocation_of run_id number call in
    elim (x.invoke i agent.allowed_tools p) [
      | inr output ↦ finish x run_id number call reads ids ok (produced output) false (some i)
      | inl message ↦
          finish x run_id number call reads ids error (tool_error message) false (some i)
    ]

-- `none` where the approval port rejects, which nothing catches.
unfoldable pub execute_tool_step :
    AgentRuntime
    → Principal
    → AgentDefinition
    → String
    → ℕ
    → AgentToolCall
    → ℕ
    → ℕ
    → Option ToolStep
execute_tool_step x p agent run_id number call reads ids =
    if not (x.has call.tool_id)
    then some (finish x run_id number call reads ids unknown_tool no_such_tool false none)
    else if not (x.is_allowed call.tool_id agent.allowed_tools)
    then some (finish x run_id number call reads ids denied tool_not_allowed true none)
    else elim (x.validate_input call.tool_id call.input) [
      | (v ∷ vs) ↦
          some
            (finish x run_id number call reads ids invalid_input (violations (v ∷ vs)) false none)
      | [] ↦
          if contains agent.destructive_tools call.tool_id
          then elim (approved x (invocation_of run_id number call)) [
            | none ↦ none
            | some false ↦
                some (finish x run_id number call reads ids approval_denied not_approved false none)
            | some true ↦ some (dispatch x p agent run_id number call reads ids)
          ]
          else some (dispatch x p agent run_id number call reads ids)
    ]

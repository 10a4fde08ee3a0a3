-- ===== src/Examples/Agents.antt =====
-- Tests of the agent runtime, and its theorems at concrete inputs.
use auxifyai.Prelude.{
  ℕ, zero, suc, ◌≡◌, ◌≢◌, ◌≤◌, refl, inr, true, false, String, none, some, [], ◌∷◌, All, contains,
  arith, length,
}
use auxifyai.Agent.{
  AgentRunInput, AgentDefinition, SafetyLimits, AgentModelRequest, AgentModelResponse,
  AgentToolCall, tool_call, final, AgentRuntime, AgentRunResult, AgentRunStatus, stopped_budget_cap,
  resolve_limits, valid_input, AgentRunEvent, ToolInvocation,
}
use auxifyai.Agent.Step.{approved}
use auxifyai.Agent.Run.{run, takes, RunOutcome, finished, total}
use auxifyai.Agent.Run.Account.{MayInvoke}
use auxifyai.Agent.Run.Report.{Concluded, run-Reported, run_returns, run-MayInvoke}
use auxifyai.Examples.{alice}

abbrev call_of : String → AgentModelResponse
call_of tool = tool_call (record { tool_id = tool; input = "{}"; usage = none; cost = some 3 })

-- Searches twice, deletes, and answers.
abbrev plan : ℕ → AgentModelResponse
plan zero = call_of "search"
plan (suc zero) = call_of "search"
plan (suc (suc zero)) = call_of "delete"
plan _ = final "done"

abbrev runtime : AgentRuntime
runtime = record {
  decide = λ q. inr (plan (length q.observations));
  has = λ t. contains ("search" ∷ "delete" ∷ []) t;
  is_allowed = λ t allowed. contains allowed t;
  validate_input = λ t v. [];
  invoke = λ t allowed p. inr "result";
  approval = none;
  events = some (λ e. true);
  clock = λ n. n;
  new_id = λ n. "id";
  is_cancelled = λ n. false;
}

abbrev agent : AgentDefinition
agent = record {
  id = "a1";
  system_prompt = "";
  allowed_tools = "search" ∷ "delete" ∷ [];
  model = "mini";
  safety_limits = some (record { max_steps = some 5; max_duration_ms = none; budget_cap = some 8 });
  destructive_tools = "delete" ∷ [];
}

abbrev input : AgentRunInput
input = record { agent = agent; task = "tidy up" }

abbrev limits : SafetyLimits
limits = record { max_steps = 5; max_duration_ms = 600_000; budget_cap = some 8 }

input_valid : valid_input input ≡ true
unfolding valid_input
input_valid = refl

limits_resolved : resolve_limits agent.safety_limits ≡ some limits
unfolding resolve_limits
limits_resolved = refl

cost_of : RunOutcome → ℕ
cost_of (finished r) = r.total_cost
cost_of _ = 0

-- The third step is denied, for want of an approval port, and its cost reaches the cap.
stops_at_cap : cost_of (run runtime input alice).outcome ≡ 9
unfolding cost_of run valid_input resolve_limits takes auxifyai.Agent.Run.run_loop
    auxifyai.Agent.Run.conclude auxifyai.Agent.Run.finalize auxifyai.Agent.Run.total
    auxifyai.Agent.Step.execute_tool_step auxifyai.Agent.Step.dispatch approved
    auxifyai.Agent.to_observation
stops_at_cap = refl

deletes_nothing : length (run runtime input alice).invoked ≡ 2
unfolding run valid_input resolve_limits takes auxifyai.Agent.Run.run_loop
    auxifyai.Agent.Run.conclude auxifyai.Agent.Run.finalize auxifyai.Agent.Run.total
    auxifyai.Agent.Step.execute_tool_step auxifyai.Agent.Step.dispatch approved
    auxifyai.Agent.to_observation
deletes_nothing = refl

all_taken : (e : AgentRunEvent) → takes runtime e ≡ true
unfolding takes
all_taken e = refl

never_rejected : (t : ToolInvocation) → approved runtime t ≢ none
unfolding approved
never_rejected t h = ground arith

run-Reported_example :
    Concluded runtime input alice limits (run runtime input alice) (run runtime input alice).outcome
run-Reported_example = run-Reported runtime input alice limits input_valid limits_resolved

run_returns_example :
    (r : AgentRunResult) × ((run runtime input alice).outcome ≡ finished r) × (r.total_steps ≤ 5)
run_returns_example =
    run_returns runtime input alice limits input_valid limits_resolved all_taken never_rejected

run-MayInvoke_example : All (MayInvoke runtime agent) (run runtime input alice).invoked
run-MayInvoke_example = run-MayInvoke runtime input alice

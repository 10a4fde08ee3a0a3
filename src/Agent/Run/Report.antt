-- ===== src/Agent/Run/Report.antt =====
-- What a run reports.
use auxifyai.Prelude.{
  ℕ, ◌≡◌, ◌≢◌, ◌≤◌, refl, sym, ap, subst, ◌⊎◌, inl, inr, true, false, String, Option, none, some,
  List, [], ◌∷◌, ◌++◌, ◌*◌, ◌-◌, suc, length, map, All, arith, Bool-cases, Option-cases,
}
use auxifyai.Identity.{Principal}
use auxifyai.Agent.{
  AgentRunInput, SafetyLimits, AgentModelRequest, final, to_observation, AgentRunStatus, completed,
  cancelled, stopped_step_limit, stopped_time_limit, stopped_budget_cap, failed, AgentStepRecord,
  AgentRunResult, AgentRunEvent, run_started, step_recorded, run_finished, ToolInvocation,
  AgentRuntime, resolve_limits, valid_input,
}
use auxifyai.Agent.Step.{ToolStep, approved}
use auxifyai.Agent.Run.{
  LoopState, LoopEnd, ended, takes, add_step, reaches, total, finalize, conclude, RunOutcome,
  invalid_run, port_rejected, unfinished, finished, AgentRun, run,
}
use auxifyai.Agent.Run.Account.{Accounted, MayInvoke, NumberedFrom, total-append}
use auxifyai.Agent.Run.Limits.{
  Under, Rejects, Stops, cancels, times_out, runs_out, fails, answers, overspends, rejects,
  looped-Stops, run_starts,
}

abbrev pub WithinBudget : Option ℕ → List AgentStepRecord → Type 0
WithinBudget cap steps = (steps ≡ []) ⊎ (reaches cap (total (λ s. s.cost) steps) ≡ false)

-- What the model is asked after some steps.
abbrev pub asked : AgentRunInput → Principal → List AgentStepRecord → AgentModelRequest
asked i p steps = record {
  model = i.agent.model;
  system_prompt = i.agent.system_prompt;
  task = i.task;
  observations = map to_observation steps;
  principal = p;
}

-- What the status of a result says of where the run stopped. The clock is read at the start, at the
-- top of each round, and twice in each step.
abbrev pub Boundary :
    AgentRuntime
    → AgentRunInput
    → Principal
    → SafetyLimits
    → AgentRunResult
    → AgentRunStatus
    → Type 0
Boundary x i p limits r completed =
    WithinBudget limits.budget_cap r.steps
    × ((a : String) × (r.answer ≡ some a) × (x.decide (asked i p r.steps) ≡ inr (final a)))
Boundary x i p limits r cancelled =
    WithinBudget limits.budget_cap r.steps × (x.is_cancelled r.total_steps ≡ true)
Boundary x i p limits r stopped_step_limit =
    WithinBudget limits.budget_cap r.steps × (r.total_steps ≡ limits.max_steps)
Boundary x i p limits r stopped_time_limit =
    WithinBudget limits.budget_cap r.steps
    × (limits.max_duration_ms ≤ x.clock (suc (r.total_steps * 3)) - x.clock 0)
Boundary x i p limits r failed =
    WithinBudget limits.budget_cap r.steps × ((e : String) × (x.decide (asked i p r.steps) ≡ inl e))
Boundary x i p limits r stopped_budget_cap =
    (before : List AgentStepRecord) × (last : AgentStepRecord) × (r.steps ≡ before ++ (last ∷ []))
    × WithinBudget limits.budget_cap before
    × (reaches limits.budget_cap r.total_cost ≡ true)

-- The steps are numbered from 1, no more than the limit, and all emitted in order between the start
-- and the end; the totals are those of the steps, and the status names the boundary.
pub record Reported (x : AgentRuntime) (i : AgentRunInput) (p : Principal) (limits : SafetyLimits)
    (r : AgentRunResult) (emitted : List AgentRunEvent) : Type 0 where
  pub numbered : NumberedFrom 1 r.steps
  pub bounded : r.total_steps ≤ limits.max_steps
  pub counted : r.total_steps ≡ length r.steps
  pub cost_sum : r.total_cost ≡ total (λ s. s.cost) r.steps
  pub token_sum : r.total_tokens ≡ total (λ s. s.tokens) r.steps
  pub duration_sum : r.total_duration_ms ≡ total (λ s. s.duration_ms) r.steps
  pub boundary : Boundary x i p limits r r.status
  pub emitted_all :
      emitted
      ≡ run_started r.run_id i.agent.id
        ∷ (map (step_recorded r.run_id) r.steps ++ (run_finished r.run_id r ∷ []))

-- A run ends with such a result, or a port rejected.
abbrev pub Concluded :
    AgentRuntime → AgentRunInput → Principal → SafetyLimits → AgentRun → RunOutcome → Type 0
Concluded x i p limits a (finished r) = Reported x i p limits r a.emitted
Concluded x i p limits a port_rejected = Rejects x
Concluded x i p limits a unfinished = ⊥
Concluded x i p limits a invalid_run = ⊥

module _ (x : AgentRuntime) (i : AgentRunInput) (p : Principal) (limits : SafetyLimits)
    (run_id : String) where
  abbrev Ending : AgentRun → Type 0
  Ending a = Concluded x i p limits a a.outcome × All (MayInvoke x i.agent) a.invoked

  Under→WithinBudget :
      (s : LoopState)
      → Accounted x i.agent run_id limits.max_steps s
      → Under limits.budget_cap s
      → WithinBudget limits.budget_cap s.steps
  Under→WithinBudget s k (inl e) = inl e
  Under→WithinBudget s k (inr h) =
      inr (subst (λ c. reaches limits.budget_cap c ≡ false) k.cost_sum h)

  ended-Ending :
      (status : AgentRunStatus) (answer : Option String) (s : LoopState)
      → Accounted x i.agent run_id limits.max_steps s
      → Boundary x i p limits (finalize run_id i.agent.id status answer s.steps) status
      → Ending (conclude x run_id i.agent.id (ended status answer s))
  unfolding conclude finalize
  ended-Ending status answer s k b =
      let r : AgentRunResult = finalize run_id i.agent.id status answer s.steps in
      elim (Bool-cases (takes x (run_finished run_id r))) [
        | inr f ↦ rw (conclude, f) (inl (run_finished run_id r, f), k.invoked_gated)
        | inl t ↦
            rw (conclude, t)
              (
                record {
                  numbered = k.numbered;
                  bounded = k.bounded;
                  counted = refl;
                  cost_sum = refl;
                  token_sum = refl;
                  duration_sum = refl;
                  boundary = b;
                  emitted_all = ap (λ e. e ++ (run_finished run_id r ∷ [])) k.emitted_all;
                },
                k.invoked_gated,
              )
      ]

  spent_before :
      (s : LoopState) (t : ToolStep)
      → Accounted x i.agent run_id limits.max_steps (add_step run_id s t)
      → Under limits.budget_cap s
      → WithinBudget limits.budget_cap s.steps
  spent_before s t k (inl n) = inl n
  spent_before s t k (inr b) =
      let sum : s.accumulated_cost ≡ total (λ r. r.cost) s.steps =
        omega (arith, k.cost_sum, total-append (λ r. r.cost) s.steps t.step) in
      inr (subst (λ c. reaches limits.budget_cap c ≡ false) sum b)

  Stops-Ending :
      (e : LoopEnd)
      → Stops x p i limits run_id (x.clock 0) e
      → Ending (conclude x run_id i.agent.id e)
  unfolding finalize conclude
  Stops-Ending stop (cancels {s} k u c) =
      ended-Ending cancelled none s k (Under→WithinBudget s k u, c)
  Stops-Ending stop (times_out {s} k u h) = ended-Ending stopped_time_limit none s k (
    Under→WithinBudget s k u,
    subst (λ n. limits.max_duration_ms ≤ x.clock n - x.clock 0) k.read h,
  )
  Stops-Ending stop (runs_out {s} k u h) =
      ended-Ending stopped_step_limit none s k (Under→WithinBudget s k u, h)
  Stops-Ending stop (fails {s} {e} k u h) = ended-Ending failed none s k (
    Under→WithinBudget s k u,
    (e, subst (λ o. x.decide (record (asked i p []) { observations = o }) ≡ inl e) k.observed h),
  )
  Stops-Ending stop (answers {s} {answer} k u h) = ended-Ending completed (some answer) s k (
    Under→WithinBudget s k u,
    (
      answer,
      refl,
      subst (λ o. x.decide (record (asked i p []) { observations = o }) ≡ inr (final answer))
          k.observed h,
    ),
  )
  Stops-Ending stop (overspends s t k u h) =
      ended-Ending stopped_budget_cap none (add_step run_id s t) k (
        s.steps,
        t.step,
        refl,
        spent_before s t k u,
        subst (λ c. reaches limits.budget_cap c ≡ true) k.cost_sum h,
      )
  Stops-Ending stop (rejects g r) = (r, g)

module _ (x : AgentRuntime) (i : AgentRunInput) (p : Principal) where
  run-Ending :
      (limits : SafetyLimits)
      → valid_input i ≡ true
      → resolve_limits i.agent.safety_limits ≡ some limits
      → Ending x i p limits (x.new_id 0) (run x i p)
  unfolding run
  run-Ending limits v l = elim (Bool-cases (takes x (run_started (x.new_id 0) i.agent.id))) [
    | inr f ↦ rw (run, v, l, f) (inl (run_started (x.new_id 0) i.agent.id, f), tt)
    | inl t ↦
        subst (Ending x i p limits (x.new_id 0)) (sym (run_starts x i p limits v l t))
          (Stops-Ending x i p limits (x.new_id 0) _ (looped-Stops x i p limits))
  ]

  -- A run of a valid input, with limits that are valid, ends with a result, unless a port rejects.
  -- The result's steps are numbered from 1, are no more than the step limit, and were emitted in order
  -- between the start and the end. Its totals are those of the steps, and its status names where it
  -- stopped: a cancellation, the step limit, the time limit by the clock, a cost that only the last
  -- step brought to the cap, an error of the model, or its answer, which the result carries.
  pub run-Reported :
      (limits : SafetyLimits)
      → valid_input i ≡ true
      → resolve_limits i.agent.safety_limits ≡ some limits
      → Concluded x i p limits (run x i p) (run x i p).outcome
  run-Reported limits v l = (run-Ending limits v l).0

  -- Where no port rejects, a run of a valid input returns a result, whatever the model answers, and
  -- within the step limit.
  pub run_returns :
      (limits : SafetyLimits)
      → valid_input i ≡ true
      → resolve_limits i.agent.safety_limits ≡ some limits
      → ((e : AgentRunEvent) → takes x e ≡ true)
      → ((t : ToolInvocation) → approved x t ≢ none)
      → (r : AgentRunResult) × ((run x i p).outcome ≡ finished r)
        × (r.total_steps ≤ limits.max_steps)
  run_returns limits v l emits approves =
      returned (run x i p).outcome refl (run-Reported limits v l)
    where
      returned :
          (o : RunOutcome)
          → (run x i p).outcome ≡ o
          → Concluded x i p limits (run x i p) (run x i p).outcome
          → (r : AgentRunResult) × ((run x i p).outcome ≡ finished r)
            × (r.total_steps ≤ limits.max_steps)
      returned (finished r) e c =
          let c' : Reported x i p limits r (run x i p).emitted =
            subst (Concluded x i p limits (run x i p)) e c in
          (r, e, c'.bounded)
      returned invalid_run e c = absurd (subst (Concluded x i p limits (run x i p)) e c)
      returned unfinished e c = absurd (subst (Concluded x i p limits (run x i p)) e c)
      returned port_rejected e c = elim (subst (Concluded x i p limits (run x i p)) e c) [
        | inl (event, h) ↦ absurd (let t = emits event in ground arith)
        | inr (t, h) ↦ absurd (approves t h)
      ]

  -- Every tool that a run invokes is registered, on the agent's allow list, given input that its
  -- schema takes, and approved where it is destructive. This holds of every run, however it ends.
  pub run-MayInvoke : All (MayInvoke x i.agent) (run x i p).invoked
  unfolding run
  run-MayInvoke = elim (Bool-cases (valid_input i)) [
    | inr f ↦ rw (run, f) tt
    | inl v ↦ elim (Option-cases (resolve_limits i.agent.safety_limits)) [
      | inl n ↦ rw (run, v, n) tt
      | inr (limits, l) ↦ (run-Ending limits v l).1
    ]
  ]

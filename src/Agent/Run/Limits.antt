-- ===== src/Agent/Run/Limits.antt =====
-- Where a run stops, and that it stops.
use auxifyai.Prelude.{
  ℕ, suc, zero, ◌+◌, ◌-◌, ◌≡◌, ◌≤◌, ◌<◌, refl, subst, ◌⊎◌, inl, inr, true, false, String, Option,
  none, some, [], ◌∷◌, length, length-append, leb, leb→le, All, arith, Bool-cases, Option-cases,
  Sum-cases,
}
use auxifyai.Identity.{Principal}
use auxifyai.Agent.{
  AgentRunInput, SafetyLimits, tool_call, final, completed, cancelled, stopped_step_limit,
  stopped_time_limit, stopped_budget_cap, failed, AgentRunEvent, run_started, step_recorded,
  ToolInvocation, AgentRuntime, resolve_limits, valid_input,
}
use auxifyai.Agent.Step.{ToolStep, execute_tool_step, approved}
use auxifyai.Agent.Run.{
  LoopState, LoopEnd, ended, rejected, takes, add_step, request_of, reaches, run_loop, initial,
  conclude, run,
}
use auxifyai.Agent.Run.Account.{
  Accounted, MayInvoke, StepGated, Gated, execute_tool_step-StepGated, initial-Accounted,
  add_step-Accounted, invoked_step-Gated,
}

-- No step so far has brought the cost to the cap.
abbrev pub Under : Option ℕ → LoopState → Type 0
Under cap s = (s.steps ≡ []) ⊎ (reaches cap s.accumulated_cost ≡ false)

-- A port that rejects: the sink, or the approval of a tool.
abbrev pub Rejects : AgentRuntime → Type 0
Rejects x =
    ((e : AgentRunEvent) × (takes x e ≡ false)) ⊎ ((i : ToolInvocation) × (approved x i ≡ none))

module _ (x : AgentRuntime) (p : Principal) (i : AgentRunInput) (limits : SafetyLimits)
    (run_id : String) (started : ℕ) where
  abbrev Kept : LoopState → Type 0
  Kept = Accounted x i.agent run_id limits.max_steps

  -- The ways the loop stops, each with what held then.
  pub data Stops : LoopEnd → Type 0 where
    cancels :
        {s : LoopState}
        → Kept s
        → Under limits.budget_cap s
        → x.is_cancelled (length s.steps) ≡ true
        → Stops (ended cancelled none s)
    times_out :
        {s : LoopState}
        → Kept s
        → Under limits.budget_cap s
        → limits.max_duration_ms ≤ x.clock s.reads - started
        → Stops (ended stopped_time_limit none s)
    runs_out :
        {s : LoopState}
        → Kept s
        → Under limits.budget_cap s
        → length s.steps ≡ limits.max_steps
        → Stops (ended stopped_step_limit none s)
    fails :
        {s : LoopState} {e : String}
        → Kept s
        → Under limits.budget_cap s
        → x.decide (request_of i p s) ≡ inl e
        → Stops (ended failed none s)
    answers :
        {s : LoopState} {answer : String}
        → Kept s
        → Under limits.budget_cap s
        → x.decide (request_of i p s) ≡ inr (final answer)
        → Stops (ended completed (some answer) s)
    overspends :
        (s : LoopState) (t : ToolStep)
        → Kept (add_step run_id s t)
        → Under limits.budget_cap s
        → reaches limits.budget_cap (s.accumulated_cost + t.step.cost) ≡ true
        → Stops (ended stopped_budget_cap none (add_step run_id s t))
    rejects : {s : LoopState} → All (MayInvoke x i.agent) s.invoked → Rejects x → Stops (rejected s)

  run_loop-Stops :
      (fuel : ℕ) (s : LoopState)
      → Kept s
      → Under limits.budget_cap s
      → limits.max_steps < fuel + length s.steps
      → Stops (run_loop x p i limits run_id started fuel s)
  unfolding run_loop
  run_loop-Stops zero s k u h = absurd (let b = k.bounded in omega arith)
  run_loop-Stops (suc fuel) s k u h = elim (Bool-cases (x.is_cancelled (length s.steps))) [
    | inl c ↦ rw (run_loop, c) (cancels k u c)
    | inr c ↦ elim (Bool-cases (leb limits.max_duration_ms (x.clock s.reads - started))) [
      | inl d ↦ rw (run_loop, c, d) (times_out k u (leb→le _ _ d))
      | inr d ↦ elim (Bool-cases (leb limits.max_steps (length s.steps))) [
        | inl m ↦ let b = k.bounded in rw (run_loop, c, d, m) (runs_out k u (ground arith))
        | inr m ↦ elim (Sum-cases (x.decide (request_of i p s))) [
          | inl (e, q) ↦ rw (run_loop, c, d, m, q) (fails k u q)
          | inr (final answer, q) ↦ rw (run_loop, c, d, m, q) (answers k u q)
          | inr (tool_call call, q) ↦
              let n = suc (length s.steps) in
              let g = execute_tool_step-StepGated x p i.agent run_id n call (suc s.reads) s.ids in
              elim (Option-cases
                (execute_tool_step x p i.agent run_id n call (suc s.reads) s.ids)) [
                  | inl o ↦
                      rw (run_loop, c, d, m, q, o)
                        (rejects k.invoked_gated (inr (subst (StepGated x i.agent n) o g)))
                  | inr (t, o) ↦
                      let gated : Gated x i.agent n t = subst (StepGated x i.agent n) o g in
                      let less : length s.steps < limits.max_steps = ground arith in
                      let next =
                        add_step-Accounted x i.agent run_id limits.max_steps s t k less gated in
                      elim (Bool-cases (takes x (step_recorded run_id t.step))) [
                        | inr r ↦
                            rw (run_loop, c, d, m, q, o, r)
                              (rejects
                                (invoked_step-Gated x i.agent run_id limits.max_steps s t k gated)
                                (inl (step_recorded run_id t.step, r)))
                        | inl r ↦
                            elim (Bool-cases
                              (reaches limits.budget_cap (s.accumulated_cost + t.step.cost))) [
                                | inl w ↦
                                    rw (run_loop, c, d, m, q, o, r, w) (overspends s t next u w)
                                | inr w ↦
                                    rw (run_loop, c, d, m, q, o, r, w)
                                      (run_loop-Stops fuel (add_step run_id s t) next (inr w)
                                        (omega (arith, length-append s.steps (t.step ∷ []), h)))
                              ]
                      ]
                ]
        ]
      ]
    ]
  ]

module _ (x : AgentRuntime) (i : AgentRunInput) (p : Principal) where
  -- The loop of a run, where its input is valid and the sink takes the start.
  unfoldable pub looped : SafetyLimits → LoopEnd
  looped limits =
      run_loop x p i limits (x.new_id 0) (x.clock 0) (suc limits.max_steps)
        (initial (x.new_id 0) i.agent.id)

  pub looped-Stops :
      (limits : SafetyLimits) → Stops x p i limits (x.new_id 0) (x.clock 0) (looped limits)
  unfolding looped
  looped-Stops limits =
      run_loop-Stops x p i limits (x.new_id 0) (x.clock 0) (suc limits.max_steps)
        (initial (x.new_id 0) i.agent.id)
        (initial-Accounted x i.agent (x.new_id 0) limits.max_steps) (inl refl) (omega arith)

  pub run_starts :
      (limits : SafetyLimits)
      → valid_input i ≡ true
      → resolve_limits i.agent.safety_limits ≡ some limits
      → takes x (run_started (x.new_id 0) i.agent.id) ≡ true
      → run x i p ≡ conclude x (x.new_id 0) i.agent.id (looped limits)
  unfolding run looped
  run_starts limits v l t = rw (run, v, l, t) refl

-- ===== src/Agent/Run/Account.antt =====
-- What the loop keeps: the account of a run so far.
use mathlib.Core.List.{map-append}
use auxifyai.Prelude.{
  ℕ, suc, ◌+◌, ◌*◌, ◌≡◌, ◌≤◌, ◌<◌, ◌∙◌, refl, sym, ap, inl, inr, true, false, String, Option, none,
  some, List, [], ◌∷◌, ◌++◌, length, length-append, map, All, All-append, arith, Bool-cases,
  Option-cases, Sum-cases, List-cases, contains,
}
use auxifyai.Identity.{Principal}
use auxifyai.Agent.{
  AgentDefinition, AgentToolCall, AgentStepRecord, run_started, step_recorded, ToolInvocation,
  AgentRuntime, to_observation,
}
use auxifyai.Agent.Step.{ToolStep, execute_tool_step, dispatch, approved, invocation_of}
use auxifyai.Agent.Run.{LoopState, with_invocation, add_step, total, initial}

-- The tool is registered, allowed, given valid input, and approved where it is destructive.
pub record MayInvoke (x : AgentRuntime) (agent : AgentDefinition) (i : ToolInvocation)
    : Type 0 where
  pub registered : x.has i.tool_id ≡ true
  pub allowed : x.is_allowed i.tool_id agent.allowed_tools ≡ true
  pub valid : x.validate_input i.tool_id i.input ≡ []
  pub consented : contains agent.destructive_tools i.tool_id ≡ true → approved x i ≡ some true

abbrev pub Invoked : (ToolInvocation → Type 0) → Option ToolInvocation → Type 0
Invoked P none = Unit
Invoked P (some i) = P i

-- Whatever a call of a tool does, it is numbered, and a tool that it invoked passed every gate.
pub record Gated (x : AgentRuntime) (agent : AgentDefinition) (number : ℕ) (t : ToolStep)
    : Type 0 where
  pub numbered : t.step.step_number ≡ number
  pub gated : Invoked (MayInvoke x agent) t.invoked

dispatch-Gated :
    (x : AgentRuntime) (p : Principal) (agent : AgentDefinition) (run_id : String) (n : ℕ)
    (call : AgentToolCall) (reads ids : ℕ)
    → MayInvoke x agent (invocation_of run_id n call)
    → Gated x agent n (dispatch x p agent run_id n call reads ids)
unfolding dispatch
dispatch-Gated x p agent run_id n call reads ids may =
    elim (Sum-cases (x.invoke (invocation_of run_id n call) agent.allowed_tools p)) [
      | inl (e, h) ↦ rw (dispatch, h) (record { numbered = refl; gated = may })
      | inr (v, h) ↦ rw (dispatch, h) (record { numbered = refl; gated = may })
    ]

-- A call that does not reject is gated; one that does was asking for an approval.
abbrev pub StepGated : AgentRuntime → AgentDefinition → ℕ → Option ToolStep → Type 0
StepGated x agent n none = (i : ToolInvocation) × (approved x i ≡ none)
StepGated x agent n (some t) = Gated x agent n t

pub execute_tool_step-StepGated :
    (x : AgentRuntime) (p : Principal) (agent : AgentDefinition) (run_id : String) (n : ℕ)
    (call : AgentToolCall) (reads ids : ℕ)
    → StepGated x agent n (execute_tool_step x p agent run_id n call reads ids)
unfolding execute_tool_step
execute_tool_step-StepGated x p agent run_id n call reads ids =
    elim (Bool-cases (x.has call.tool_id)) [
      | inr f ↦ rw (execute_tool_step, f) (record { numbered = refl; gated = tt })
      | inl h ↦ elim (Bool-cases (x.is_allowed call.tool_id agent.allowed_tools)) [
        | inr f ↦ rw (execute_tool_step, h, f) (record { numbered = refl; gated = tt })
        | inl a ↦ elim (List-cases (x.validate_input call.tool_id call.input)) [
          | inr (v, vs, e) ↦
              rw (execute_tool_step, h, a, e) (record { numbered = refl; gated = tt })
          | inl e ↦ elim (Bool-cases (contains agent.destructive_tools call.tool_id)) [
            | inr f ↦
                rw (execute_tool_step, h, a, e, f)
                  (dispatch-Gated x p agent run_id n call reads ids (may h a e (λ c. ground arith)))
            | inl d ↦ elim (Option-cases (approved x i)) [
              | inl none_e ↦ rw (execute_tool_step, h, a, e, d, none_e) (i, none_e)
              | inr (true, k) ↦
                  rw (execute_tool_step, h, a, e, d, k)
                    (dispatch-Gated x p agent run_id n call reads ids (may h a e (λ c. k)))
              | inr (false, k) ↦
                  rw (execute_tool_step, h, a, e, d, k) (record { numbered = refl; gated = tt })
            ]
          ]
        ]
      ]
    ]
  where
    i : ToolInvocation
    i = invocation_of run_id n call

    may :
        x.has call.tool_id ≡ true
        → x.is_allowed call.tool_id agent.allowed_tools ≡ true
        → x.validate_input call.tool_id call.input ≡ []
        → (contains agent.destructive_tools call.tool_id ≡ true → approved x i ≡ some true)
        → MayInvoke x agent i
    may h a e c = record { registered = h; allowed = a; valid = e; consented = c }

-- The steps are numbered one after the other.
abbrev pub NumberedFrom : ℕ → List AgentStepRecord → Type 0
NumberedFrom n [] = Unit
NumberedFrom n (s ∷ ss) = (s.step_number ≡ n) × NumberedFrom (suc n) ss

-- The loop's variables agree with each other, and every tool that ran was gated.
pub record Accounted (x : AgentRuntime) (agent : AgentDefinition) (run_id : String) (max_steps : ℕ)
    (s : LoopState) : Type 0 where
  pub numbered : NumberedFrom 1 s.steps
  pub bounded : length s.steps ≤ max_steps
  pub read : s.reads ≡ suc (length s.steps * 3)
  pub observed : s.observations ≡ map to_observation s.steps
  pub cost_sum : s.accumulated_cost ≡ total (λ t. t.cost) s.steps
  pub emitted_all : s.emitted ≡ run_started run_id agent.id ∷ map (step_recorded run_id) s.steps
  pub invoked_gated : All (MayInvoke x agent) s.invoked

NumberedFrom-append :
    (n : ℕ) (ss : List AgentStepRecord) (t : AgentStepRecord)
    → NumberedFrom n ss
    → t.step_number ≡ n + length ss
    → NumberedFrom n (ss ++ (t ∷ []))
NumberedFrom-append n [] t h e = (omega (arith, e), tt)
NumberedFrom-append n (s ∷ ss) t h e =
    (h.0, NumberedFrom-append (suc n) ss t h.1 (omega (arith, e)))

pub total-append :
    (f : AgentStepRecord → ℕ) (ss : List AgentStepRecord) (t : AgentStepRecord)
    → total f (ss ++ (t ∷ [])) ≡ total f ss + f t
unfolding total
total-append f [] t = omega arith
total-append f (s ∷ ss) t = omega (arith, total-append f ss t)

All-with_invocation :
    (P : ToolInvocation → Type 0) (o : Option ToolInvocation) (is : List ToolInvocation)
    → Invoked P o
    → All P is
    → All P (with_invocation o is)
All-with_invocation P none is h k = k
All-with_invocation P (some i) is h k = All-append P is (i ∷ []) k (h, tt)

module _ (x : AgentRuntime) (agent : AgentDefinition) (run_id : String) (max_steps : ℕ) where
  pub initial-Accounted : Accounted x agent run_id max_steps (initial run_id agent.id)
  unfolding total
  initial-Accounted = record {
    numbered = tt;
    bounded = omega arith;
    read = refl;
    observed = refl;
    cost_sum = refl;
    emitted_all = refl;
    invoked_gated = tt;
  }

  pub add_step-Accounted :
      (s : LoopState) (t : ToolStep)
      → Accounted x agent run_id max_steps s
      → length s.steps < max_steps
      → Gated x agent (suc (length s.steps)) t
      → Accounted x agent run_id max_steps (add_step run_id s t)
  add_step-Accounted s t a h g = record {
    numbered = NumberedFrom-append 1 s.steps t.step a.numbered (omega (arith, g.numbered));
    bounded = omega (arith, length-append s.steps (t.step ∷ []), h);
    read = omega (arith, length-append s.steps (t.step ∷ []), a.read);
    observed =
        ap (λ o. o ++ (to_observation t.step ∷ [])) a.observed
        ∙ sym (map-append to_observation s.steps (t.step ∷ []));
    cost_sum =
        ap (λ c. c + t.step.cost) a.cost_sum ∙ sym (total-append (λ r. r.cost) s.steps t.step);
    emitted_all =
        ap (λ e. e ++ (step_recorded run_id t.step ∷ [])) a.emitted_all
        ∙ ap (λ e. run_started run_id agent.id ∷ e)
            (sym (map-append (step_recorded run_id) s.steps (t.step ∷ [])));
    invoked_gated = All-with_invocation _ t.invoked s.invoked g.gated a.invoked_gated;
  }

  pub invoked_step-Gated :
      (s : LoopState) (t : ToolStep)
      → Accounted x agent run_id max_steps s
      → Gated x agent (suc (length s.steps)) t
      → All (MayInvoke x agent) (with_invocation t.invoked s.invoked)
  invoked_step-Gated s t a g = All-with_invocation _ t.invoked s.invoked g.gated a.invoked_gated

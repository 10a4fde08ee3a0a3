-- ===== src/Workflow/Run/Order.antt =====
-- A run against a declarative account of it: the steps in order, each with the outputs it
-- references, up to the first that fails.
pub mod Halting
use mathlib.Core.List.{append_assoc, append-nil}
use auxifyai.Prelude.{
  ◌≡◌, ◌∙◌, refl, sym, subst, ap, ◌⊎◌, inl, inr, Bool, true, false, String, Option, none, some,
  List, [], ◌∷◌, ◌++◌, is_some, All, All-map, Sum-cases, Bool-cases, eq_iff, str_eq, arith,
}
use auxifyai.Prelude.Maps.{lookup, put, lookup-put, lookup-same, lookup-other}
use auxifyai.Workflow.{
  Value, Workflow, WorkflowStep, WorkflowResourceUsage, WorkflowStepOutcome, StepResult,
}
use auxifyai.Workflow.Graph.{validate_workflow_graph}
use auxifyai.Workflow.Graph.Accepted.{In, Executable, validate_workflow_graph-iff-Executable}
use auxifyai.Workflow.Run.{
  Cause, StepExecutionContext, WorkflowExecutor, LoopEnd, Ran, context_of, success, failure,
  add_usage, no_usage, run_steps, run, resolve_inputs, result_of, record_analytics, after_call,
  finish,
}
use auxifyai.Workflow.Run.Inputs.{Outputs, Supplies, resolve_inputs-Supplies}

-- `Runs x w done steps calls outcomes failed`: from the outputs `done` of the steps before, the
-- steps give these calls and outcomes, and this failed step.
pub data Runs (x : WorkflowExecutor) (w : Workflow)
    : Outputs
      → List WorkflowStep
      → List StepExecutionContext
      → List WorkflowStepOutcome
      → Option String
      → Type 0 where
  finished : {done : Outputs} → Runs x w done [] [] [] none
  halted :
      {done inputs : Outputs} {s : WorkflowStep} {ss : List WorkflowStep} {cause : Cause}
      → Supplies done s.input_refs inputs
      → x.execute (context_of w s inputs) ≡ inl cause
      → Runs x w done
          (s ∷ ss)
          (context_of w s inputs ∷ [])
          (failure s cause x.correlation_id ∷ [])
          (some s.id)
  advanced :
      {done inputs : Outputs} {s : WorkflowStep} {ss : List WorkflowStep} {r : StepResult}
      {calls : List StepExecutionContext} {outcomes : List WorkflowStepOutcome} {f : Option String}
      → Supplies done s.input_refs inputs
      → x.execute (context_of w s inputs) ≡ inr r
      → Runs x w ((s.id, r.output) ∷ done) ss calls outcomes f
      → Runs x w done (s ∷ ss) (context_of w s inputs ∷ calls) (success s r ∷ outcomes) f

-- The usage of the outcomes, added to what was used before.
unfoldable pub total_usage :
    WorkflowResourceUsage → List WorkflowStepOutcome → WorkflowResourceUsage
total_usage u [] = u
total_usage u (o ∷ os) = total_usage (add_usage u o.usage) os

abbrev pub end_of :
    List StepExecutionContext
    → List WorkflowStepOutcome
    → WorkflowResourceUsage
    → Option String
    → LoopEnd
end_of calls outcomes usage f = record {
  thrown = none;
  calls = calls;
  outcomes = outcomes;
  usage = usage;
  failed_step_id = f;
}

-- Each id of `before` has its output.
abbrev Known : List String → Outputs → Type 0
Known before done = (k : String) → In before k → is_some (lookup k done) ≡ true

Known-next :
    (before : List String) (done : Outputs) (i : String) (v : Value)
    → Known before done
    → Known (i ∷ before) ((i, v) ∷ done)
Known-next before done i v known k (inl e) = rw (lookup-same k i v done ((eq_iff k i).1 e)) refl
Known-next before done i v known k (inr m) = elim (Bool-cases (str_eq k i)) [
  | inl t ↦ rw (lookup-same k i v done t) refl
  | inr f ↦ rw (lookup-other k i v done f) (known k m)
]

same-next :
    (outputs done : Outputs) (i : String) (v : Value)
    → ((k : String) → lookup k outputs ≡ lookup k done)
    → (k : String) → lookup k (put i v outputs) ≡ lookup k ((i, v) ∷ done)
unfolding lookup
same-next outputs done i v same k = lookup-put k i v outputs ∙ ground (arith, same k)

run_steps-halt :
    (x : WorkflowExecutor) (w : Workflow) (outputs : Outputs) (os : List WorkflowStepOutcome)
    (u : WorkflowResourceUsage) (s : WorkflowStep) (ss : List WorkflowStep) (inputs : Outputs)
    (cause : Cause)
    → resolve_inputs w s outputs s.input_refs [] ≡ inr inputs
    → x.execute (context_of w s inputs) ≡ inl cause
    → run_steps x w outputs os u (s ∷ ss)
      ≡ end_of
          (context_of w s inputs ∷ [])
          (os ++ (failure s cause x.correlation_id ∷ []))
          u
          (some s.id)
unfolding run_steps
run_steps-halt x w outputs os u s ss inputs cause h k = rw (run_steps, h, k) refl

run_steps-advance :
    (x : WorkflowExecutor) (w : Workflow) (outputs : Outputs) (os : List WorkflowStepOutcome)
    (u : WorkflowResourceUsage) (s : WorkflowStep) (ss : List WorkflowStep) (inputs : Outputs)
    (r : StepResult)
    → resolve_inputs w s outputs s.input_refs [] ≡ inr inputs
    → x.execute (context_of w s inputs) ≡ inr r
    → run_steps x w outputs os u (s ∷ ss)
      ≡ after_call (context_of w s inputs) (
          run_steps x w
            (put s.id r.output outputs)
            (os ++ (success s r ∷ []))
            (add_usage u r.usage)
            ss)
unfolding run_steps
run_steps-advance x w outputs os u s ss inputs r h k = rw (run_steps, h, k) refl

run_steps-Runs :
    (x : WorkflowExecutor) (w : Workflow) (before : List String) (done outputs : Outputs)
    (os : List WorkflowStepOutcome) (u : WorkflowResourceUsage) (ss : List WorkflowStep)
    → Known before done
    → ((k : String) → lookup k outputs ≡ lookup k done)
    → Executable before ss
    → (calls : List StepExecutionContext) × (outcomes : List WorkflowStepOutcome) × (f : Option
        String)
      × Runs x w done ss calls outcomes f
      × (run_steps x w outputs os u ss ≡ end_of calls (os ++ outcomes) (total_usage u outcomes) f)
unfolding run_steps total_usage add_usage
run_steps-Runs x w before done outputs os u [] known same ex =
    ([], [], none, finished, ap (λ l. end_of [] l u none) (sym (append-nil os)))
run_steps-Runs x w before done outputs os u (s ∷ ss) known same ex =
    let (inputs, res, sup) =
      resolve_inputs-Supplies w s done outputs same
        (All-map (In before) _ (λ r i. known r i) s.input_refs ex.1) in
    elim (Sum-cases (x.execute (context_of w s inputs))) [
      | inl (cause, e) ↦ (
        context_of w s inputs ∷ [],
        failure s cause x.correlation_id ∷ [],
        some s.id,
        halted sup e,
        run_steps-halt x w outputs os u s ss inputs cause res e,
      )
      | inr (r, e) ↦
          let (calls, outcomes, f, runs, eq) =
            run_steps-Runs x w (s.id ∷ before) ((s.id, r.output) ∷ done) (put s.id r.output outputs)
              (os ++ (success s r ∷ [])) (add_usage u r.usage) ss
              (Known-next before done s.id r.output known)
              (same-next outputs done s.id r.output same) ex.2 in
          (
            context_of w s inputs ∷ calls,
            success s r ∷ outcomes,
            f,
            advanced sup e runs,
            run_steps-advance x w outputs os u s ss inputs r res e
                ∙ ap (after_call (context_of w s inputs)) eq
                ∙ ap
                    (λ l.
                      end_of (context_of w s inputs ∷ calls) l
                        (total_usage (add_usage u r.usage) outcomes) f)
                    (append_assoc os (success s r ∷ []) outcomes),
          )
    ]

run-ends :
    (x : WorkflowExecutor) (w : Workflow) (ss : List WorkflowStep)
    (calls : List StepExecutionContext) (outcomes : List WorkflowStepOutcome)
    (u : WorkflowResourceUsage) (f : Option String)
    → validate_workflow_graph w ≡ inr ss
    → run_steps x w [] [] no_usage ss ≡ end_of calls outcomes u f
    → run x w ≡ record_analytics x calls (result_of w (end_of calls outcomes u f))
unfolding run finish
run-ends x w ss calls outcomes u f h k = rw (run, h) (ap (finish x w) k)

-- A run of a valid workflow calls the step executor on its steps in order, each with the outputs of
-- the steps it references and no others, up to the first that fails. Its result has the outcome of
-- each call and the sum of their usage, and goes to the analytics. No check of `resolveInputs` fails.
pub run-Runs :
    (x : WorkflowExecutor) (w : Workflow) (ss : List WorkflowStep)
    → validate_workflow_graph w ≡ inr ss
    → (calls : List StepExecutionContext) × (outcomes : List WorkflowStepOutcome) × (f : Option
        String)
      × Runs x w [] ss calls outcomes f
      × (run x w
          ≡ record_analytics x calls
              (result_of w (end_of calls outcomes (total_usage no_usage outcomes) f)))
run-Runs x w ss h =
    let (calls, outcomes, f, runs, eq) =
      run_steps-Runs x w [] [] [] [] no_usage ss (λ k i. absurd i) (λ k. refl)
        ((validate_workflow_graph-iff-Executable w ss).0 h).1 in
    (calls, outcomes, f, runs, run-ends x w ss calls outcomes _ f h eq)

-- ===== src/Router/Execution/Fallback.antt =====
-- The loop over the chain: the first model that completes serves the request, or all have failed.
use auxifyai.Prelude.{
  ℕ, ◌-◌, ◌≡◌, refl, sym, ap, ◌∙◌, ◌⊎◌, inl, inr, String, none, List, [], ◌∷◌, ◌++◌, map, All,
}
use mathlib.Core.List.{append_assoc, append-nil, map-append}
use auxifyai.Identity.{ModelInfo}
use auxifyai.Router.{ChatRequest, RouteDecision, FallbackAttempt, ok, err, provider_exhausted}
use auxifyai.Router.Execution.{
  ModelRouter, Thrown, Attempt, Run, RequestOutcome, RoutedChatResult, run_attempt, try_chain,
  failed_attempt, outcome_of, final_decision, after_call,
}

abbrev pub ids : List ModelInfo → List String
ids = map (λ m. m.id)

abbrev pub attempt_ids : List FallbackAttempt → List String
attempt_ids = map (λ a. a.model_id)

abbrev pub try_model : ModelRouter → ChatRequest → ModelInfo → Thrown ⊎ Attempt
try_model r req m = run_attempt r (record req { model_id = m.id })

-- The provider call of the model throws.
abbrev pub Fails : ModelRouter → ChatRequest → ModelInfo → Type 0
Fails r req m = (t : Thrown) × (try_model r req m ≡ inl t)

-- The run served the request by the first model of the chain that completed.
pub record Served (r : ModelRouter) (req : ChatRequest) (d : RouteDecision) (tried : List String)
    (chain : List ModelInfo) (run : Run) : Type 0 where
  pub before : List ModelInfo
  pub model : ModelInfo
  pub after : List ModelInfo
  pub attempt : Attempt
  pub answer : RoutedChatResult
  pub split : chain ≡ before ++ (model ∷ after)
  pub earlier_fail : All (Fails r req) before
  pub completes : try_model r req model ≡ inr attempt
  pub result : run.result ≡ ok answer
  pub chunks : answer.chunks ≡ attempt.chunks
  pub served_by : answer.outcome.model_id ≡ model.id
  pub failures : attempt_ids answer.outcome.failed_attempts ≡ tried ++ ids before
  pub recorded : run.recorded ≡ answer.outcome ∷ []
  pub called : run.called ≡ before ++ (model ∷ [])

-- Every model of the chain was called and failed, and the error names each, in order.
pub record Exhausted (r : ModelRouter) (req : ChatRequest) (tried : List String)
    (chain : List ModelInfo) (run : Run) : Type 0 where
  pub all_fail : All (Fails r req) chain
  pub attempts : List FallbackAttempt
  pub result : run.result ≡ err (provider_exhausted attempts)
  pub named : attempt_ids attempts ≡ tried ++ ids chain
  pub nothing_recorded : run.recorded ≡ []
  pub called : run.called ≡ chain

module _ (r : ModelRouter) (req : ChatRequest) (d : RouteDecision) (started : ℕ) where
  pub attempt_ids-snoc :
      (failed : List FallbackAttempt) (m : ModelInfo) (t : Thrown) (ms : List String)
      → attempt_ids (failed ++ (failed_attempt m t ∷ [])) ++ ms ≡ attempt_ids failed ++ (m.id ∷ ms)
  attempt_ids-snoc failed m t ms = simp (map-append, append_assoc)

  cons-Served :
      (m : ModelInfo) (t : Thrown) (failed : List FallbackAttempt) (ms : List ModelInfo) (run : Run)
      → try_model r req m ≡ inl t
      → Served r req d (attempt_ids (failed ++ (failed_attempt m t ∷ []))) ms run
      → Served r req d (attempt_ids failed) (m ∷ ms) (after_call m run)
  cons-Served m t failed ms run e s = record {
    before = m ∷ s.before;
    model = s.model;
    after = s.after;
    attempt = s.attempt;
    answer = s.answer;
    split = ap (◌∷◌ m) s.split;
    earlier_fail = ((t, e), s.earlier_fail);
    completes = s.completes;
    result = s.result;
    chunks = s.chunks;
    served_by = s.served_by;
    failures = s.failures ∙ attempt_ids-snoc failed m t (ids s.before);
    recorded = s.recorded;
    called = ap (◌∷◌ m) s.called;
  }

  cons-Exhausted :
      (m : ModelInfo) (t : Thrown) (failed : List FallbackAttempt) (ms : List ModelInfo) (run : Run)
      → try_model r req m ≡ inl t
      → Exhausted r req (attempt_ids (failed ++ (failed_attempt m t ∷ []))) ms run
      → Exhausted r req (attempt_ids failed) (m ∷ ms) (after_call m run)
  cons-Exhausted m t failed ms run e s = record {
    all_fail = ((t, e), s.all_fail);
    attempts = s.attempts;
    result = s.result;
    named = s.named ∙ attempt_ids-snoc failed m t (ids ms);
    nothing_recorded = s.nothing_recorded;
    called = ap (◌∷◌ m) s.called;
  }

  -- Where the recorder accepts every outcome, a run either serves the request by the first model of
  -- the chain whose call completes, records exactly that outcome, and lists the earlier failures in
  -- order; or every call fails, nothing is recorded, and the error lists every model in order.
  pub try_chain-Served :
      (reads : ℕ) (failed : List FallbackAttempt) (ms : List ModelInfo)
      → ((o : RequestOutcome) → r.record_outcome o ≡ none)
      → Served r req d (attempt_ids failed) ms (try_chain r req d started reads failed ms)
        ⊎ Exhausted r req (attempt_ids failed) ms (try_chain r req d started reads failed ms)
  unfolding try_chain
  try_chain-Served reads failed [] accepts = inr (record {
    all_fail = tt;
    attempts = failed;
    result = refl;
    named = sym (append-nil (attempt_ids failed));
    nothing_recorded = refl;
    called = refl;
  })
  try_chain-Served reads failed (m ∷ ms) accepts =
      step (try_model r req m) refl
        (λ t. try_chain-Served reads (failed ++ (failed_attempt m t ∷ [])) ms accepts)
    where
      step :
          (x : Thrown ⊎ Attempt)
          → try_model r req m ≡ x
          → ((t : Thrown)
              → Served r req d
                  (attempt_ids (failed ++ (failed_attempt m t ∷ [])))
                  ms
                  (try_chain r req d started reads (failed ++ (failed_attempt m t ∷ [])) ms)
                ⊎ Exhausted r req
                    (attempt_ids (failed ++ (failed_attempt m t ∷ [])))
                    ms
                    (try_chain r req d started reads (failed ++ (failed_attempt m t ∷ [])) ms))
          → Served r req d
              (attempt_ids failed)
              (m ∷ ms)
              (try_chain r req d started reads failed (m ∷ ms))
            ⊎ Exhausted r req
                (attempt_ids failed)
                (m ∷ ms)
                (try_chain r req d started reads failed (m ∷ ms))
      step (inl t) e ih =
          rw (e, try_chain)
            (elim (ih t) [
              | inl s ↦ inl (cons-Served m t failed ms _ e s)
              | inr s ↦ inr (cons-Exhausted m t failed ms _ e s)
            ])
      step (inr a) e ih =
          let outcome = outcome_of m d.mode (r.clock reads - started) a failed in
          rw (e, accepts outcome, try_chain)
            (inl (record {
              before = [];
              model = m;
              after = ms;
              attempt = a;
              answer = record {
                decision = final_decision d m;
                outcome = outcome;
                usage = a.usage;
                finish_reason = a.finish_reason;
                chunks = a.chunks;
              };
              split = refl;
              earlier_fail = tt;
              completes = e;
              result = refl;
              chunks = refl;
              served_by = refl;
              failures = sym (append-nil (attempt_ids failed));
              recorded = refl;
              called = refl;
            }))

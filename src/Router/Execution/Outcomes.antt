-- ===== src/Router/Execution/Outcomes.antt =====
-- How a whole call of `route` ends, once a model has been decided on.
use auxifyai.Prelude.{
  ℕ, suc, zero, ◌-◌, ◌≡◌, ◌≢◌, refl, sym, ap, ◌∙◌, subst, ◌⊎◌, inl, inr, true, Option, none, some,
  List, [], ◌∷◌, ◌++◌, All, arith, Option-cases, eq_iff, take,
}
use mathlib.Core.List.{append-nil}
use auxifyai.Identity.{Principal, ModelInfo}
use auxifyai.Router.{
  ChatRequest, RouteDecision, FallbackAttempt, Result, ok, err, provider_exhausted,
  request_has_image_input,
}
use auxifyai.Router.AutoMode.Selection.{auto_select-Selected}
use auxifyai.Router.Chain.{build_fallback_chain}
use auxifyai.Router.Chain.Distinct.{build_fallback_chain-IsChain}
use auxifyai.Router.Execution.{
  ModelRouter, Thrown, Attempt, failed_attempt, outcome_of, Run, RequestOutcome, try_chain,
  decide_route, attempted_chain, apply_attempt_cap, route, valid_max_attempts,
}
use auxifyai.Router.Execution.Fallback.{
  ids, attempt_ids, try_model, attempt_ids-snoc, Served, Exhausted, try_chain-Served,
}
use auxifyai.Router.Execution.Safety.{routable, chain-All, called-IsPart, recorder_down, All-part}

exhausted_names :
    (r : ModelRouter) (req : ChatRequest) (d : RouteDecision) (started reads : ℕ)
    (failed : List FallbackAttempt) (ms : List ModelInfo) (tried : List FallbackAttempt)
    → (try_chain r req d started reads failed ms).result ≡ err (provider_exhausted tried)
    → attempt_ids tried ≡ attempt_ids failed ++ ids ms
unfolding try_chain
exhausted_names r req d started reads failed [] tried h =
    let same : failed ≡ tried = ground arith in
    ap attempt_ids (sym same) ∙ sym (append-nil (attempt_ids failed))
exhausted_names r req d started reads failed (m ∷ ms) tried h =
    step (try_model r req m) refl (λ reads' t.
      exhausted_names r req d started reads' (failed ++ (failed_attempt m t ∷ [])) ms tried)
  where
    step :
        (x : Thrown ⊎ Attempt)
        → try_model r req m ≡ x
        → ((reads' : ℕ) (t : Thrown)
            → (try_chain r req d started reads' (failed ++ (failed_attempt m t ∷ [])) ms).result
              ≡ err (provider_exhausted tried)
            → attempt_ids tried ≡ attempt_ids (failed ++ (failed_attempt m t ∷ [])) ++ ids ms)
        → attempt_ids tried ≡ attempt_ids failed ++ ids (m ∷ ms)
    step (inl t) e ih =
        ih reads t (rw (e, try_chain) at h) ∙ attempt_ids-snoc r req d started failed m t (ids ms)
    step (inr a) e ih =
        elim (Option-cases
          (r.record_outcome (outcome_of m d.mode (r.clock reads - started) a failed))) [
            | inl k ↦ ground arith
            | inr (t, k) ↦
                ih (suc reads) t (rw (e, k, try_chain) at h)
                ∙ attempt_ids-snoc r req d started failed m t (ids ms)
          ]

module _ (r : ModelRouter) (req : ChatRequest) (p : Principal) (d : RouteDecision)
    (decided : decide_route r req p (routable r req p) ≡ ok d) where
  route-try_chain : route r req p ≡ try_chain r req d (r.clock 0) 1 [] (attempted_chain r req p d)
  unfolding route
  route-try_chain = ground arith

  -- Once a model is decided on, and where the recorder accepts every outcome, the request is served
  -- by the first model of the capped Fallback Chain whose call completes, its outcome is recorded
  -- once and lists the earlier failures in order; or every call fails, nothing is recorded, and the
  -- error names every model of the chain in order.
  pub route-Served :
      ((o : RequestOutcome) → r.record_outcome o ≡ none)
      → Served r req d [] (attempted_chain r req p d) (route r req p)
        ⊎ Exhausted r req [] (attempted_chain r req p d) (route r req p)
  route-Served accepts =
      subst
        (λ run.
          Served r req d [] (attempted_chain r req p d) run
          ⊎ Exhausted r req [] (attempted_chain r req p d) run)
        (sym route-try_chain)
        (try_chain-Served r req d (r.clock 0) 1 [] (attempted_chain r req p d) accepts)

  -- Where the outcome recorder always throws, no request is served, whatever the providers answer:
  -- every model of the chain is called, and the call ends as if all of them had failed.
  pub route-recorder_down :
      (t : Thrown)
      → ((o : RequestOutcome) → r.record_outcome o ≡ some t)
      → (tried : List FallbackAttempt) × ((route r req p).result ≡ err (provider_exhausted tried))
        × (attempt_ids tried ≡ ids (attempted_chain r req p d))
        × ((route r req p).called ≡ attempted_chain r req p d)
  route-recorder_down t down =
      let (tried, res, named, called) =
        recorder_down r req d (r.clock 0) t 1 [] (attempted_chain r req p d) down in
      (
        tried,
        ap (λ (x : Run). x.result) route-try_chain ∙ res,
        named,
        ap (λ (x : Run). x.called) route-try_chain ∙ called,
      )

  chain_nonempty : valid_max_attempts r.max_attempts ≡ true → attempted_chain r req p d ≢ []
  unfolding attempted_chain
  chain_nonempty valid = capped r.max_attempts valid
    where
      capped :
          (n : Option ℕ)
          → valid_max_attempts n ≡ true
          → apply_attempt_cap n (build_fallback_chain d.model (routable r req p) req) ≢ []
      capped none v e =
          cc (e, (build_fallback_chain-IsChain d.model (routable r req p) req).selected_first)
      capped (some zero) v e = ground arith
      capped (some (suc n)) v e = cc (
          subst (λ c. take (suc n) c ≡ [])
            (build_fallback_chain-IsChain d.model (routable r req p) req).selected_first e)

  -- An exhaustion error names the models of the capped Fallback Chain, each once and in order, and at
  -- least one, whatever the recorder does, where the attempt cap is one that the constructor accepts.
  pub route-exhausted :
      (tried : List FallbackAttempt)
      → valid_max_attempts r.max_attempts ≡ true
      → (route r req p).result ≡ err (provider_exhausted tried)
      → (attempt_ids tried ≡ ids (attempted_chain r req p d)) × (attempted_chain r req p d ≢ [])
  route-exhausted tried valid h = (
    exhausted_names r req d (r.clock 0) 1 [] (attempted_chain r req p d) tried
        (sym (ap (λ (x : Run). x.result) route-try_chain) ∙ h),
    chain_nonempty valid,
  )

-- In Auto Mode a request with an image is sent to models that support vision, and to no other.
pub route-vision :
    (r : ModelRouter) (req : ChatRequest) (p : Principal)
    → req.model_id ≡ "auto"
    → request_has_image_input req ≡ true
    → All (λ m. m.supports_vision ≡ true) (route r req p).called
unfolding decide_route
route-vision r req p is_auto image = of_decision (decide_route r req p (routable r req p)) refl
  where
    of_decision :
        (x : Result RouteDecision)
        → decide_route r req p (routable r req p) ≡ x
        → All (λ m. m.supports_vision ≡ true) (route r req p).called
    of_decision (err x) e =
        subst (All (λ m. m.supports_vision ≡ true)) (sym ((called-IsPart r req p _ e).1 x refl)) tt
    of_decision (ok d) e =
        let (rest, split) = (called-IsPart r req p _ e).0 d refl in
        let s =
          auto_select-Selected r.text_tests r.classifier req (routable r req p) d
            (ground (arith, eq_iff req.model_id "auto")) in
        All-part _ _ rest (
          subst (All (λ m. m.supports_vision ≡ true)) split
            (chain-All r req p (λ m. m.supports_vision ≡ true) d (s.sees image) (λ c i v. v image)))

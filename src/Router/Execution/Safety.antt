-- ===== src/Router/Execution/Safety.antt =====
-- Whole calls of `route`: which models it calls, how it ends, and what a failing recorder does.
use auxifyai.Prelude.{
  ℕ, suc, zero, ◌-◌, ◌≡◌, refl, sym, ap, ◌∙◌, subst, ◌⊎◌, inl, inr, true, Option, none, some, List,
  [], ◌∷◌, ◌++◌, All, All-map, All-take, All-Any, Any, arith, Option-cases, take,
}
use mathlib.Core.List.{append_assoc, append-nil, map-append}
use auxifyai.Identity.{Principal, ModelInfo}
use auxifyai.Access.Models.{MayUse}
use auxifyai.Router.{
  ChatRequest, RouteDecision, RouteError, FallbackAttempt, Result, ok, err, provider_exhausted,
  request_has_image_input,
}
use auxifyai.Router.Permissions.{
  permitted_models, routable-MayUse, route_explicit, route_explicit-MayUse,
}
use auxifyai.Router.AutoMode.{auto_select}
use auxifyai.Router.AutoMode.Selection.{auto_select-Selected}
use auxifyai.Router.Chain.{build_fallback_chain}
use auxifyai.Router.Chain.Distinct.{Distinct, build_fallback_chain-IsChain}
use auxifyai.Router.Execution.{
  ModelRouter, Thrown, Attempt, RequestOutcome, try_chain, failed_attempt, outcome_of, decide_route,
  attempted_chain, apply_attempt_cap, route,
}
use auxifyai.Router.Execution.Fallback.{ids, attempt_ids, try_model}

-- The models called are a first part of the chain.
abbrev pub IsPart : List ModelInfo → List ModelInfo → Type 0
IsPart called chain = (rest : List ModelInfo) × (chain ≡ called ++ rest)

module _ (r : ModelRouter) (req : ChatRequest) (d : RouteDecision) (started : ℕ) where
  try_chain-IsPart :
      (reads : ℕ) (failed : List FallbackAttempt) (ms : List ModelInfo)
      → IsPart (try_chain r req d started reads failed ms).called ms
  unfolding try_chain
  try_chain-IsPart reads failed [] = ([], refl)
  try_chain-IsPart reads failed (m ∷ ms) =
      step (try_model r req m) refl
        (λ reads' t. try_chain-IsPart reads' (failed ++ (failed_attempt m t ∷ [])) ms)
    where
      step :
          (x : Thrown ⊎ Attempt)
          → try_model r req m ≡ x
          → ((reads' : ℕ) (t : Thrown)
              → IsPart
                  (try_chain r req d started reads' (failed ++ (failed_attempt m t ∷ [])) ms).called
                  ms)
          → IsPart (try_chain r req d started reads failed (m ∷ ms)).called (m ∷ ms)
      step (inl t) e ih = let i = ih reads t in rw (e, try_chain) (i.0, ap (◌∷◌ m) i.1)
      step (inr a) e ih =
          elim (Option-cases
            (r.record_outcome (outcome_of m d.mode (r.clock reads - started) a failed))) [
              | inl k ↦ rw (e, k, try_chain) (ms, refl)
              | inr (t, k) ↦ let i = ih (suc reads) t in rw (e, k, try_chain) (i.0, ap (◌∷◌ m) i.1)
            ]

  -- Where the recorder always throws, no model serves: each is called, its answer dropped, and named
  -- as failed.
  pub recorder_down :
      (t : Thrown) (reads : ℕ) (failed : List FallbackAttempt) (ms : List ModelInfo)
      → ((o : RequestOutcome) → r.record_outcome o ≡ some t)
      → let run = try_chain r req d started reads failed ms in
        (tried : List FallbackAttempt) × (run.result ≡ err (provider_exhausted tried))
        × (attempt_ids tried ≡ attempt_ids failed ++ ids ms)
        × (run.called ≡ ms)
  unfolding try_chain
  recorder_down t reads failed [] down = (failed, refl, sym (append-nil (attempt_ids failed)), refl)
  recorder_down t reads failed (m ∷ ms) down =
      step (try_model r req m) refl
        (λ reads' t'. recorder_down t reads' (failed ++ (failed_attempt m t' ∷ [])) ms down)
    where
      step :
          (x : Thrown ⊎ Attempt)
          → try_model r req m ≡ x
          → ((reads' : ℕ) (t' : Thrown)
              → let run =
                  try_chain r req d started reads' (failed ++ (failed_attempt m t' ∷ [])) ms in
                (tried : List FallbackAttempt) × (run.result ≡ err (provider_exhausted tried))
                × (attempt_ids tried ≡ attempt_ids (failed ++ (failed_attempt m t' ∷ [])) ++ ids ms)
                × (run.called ≡ ms))
          → let run = try_chain r req d started reads failed (m ∷ ms) in
            (tried : List FallbackAttempt) × (run.result ≡ err (provider_exhausted tried))
            × (attempt_ids tried ≡ attempt_ids failed ++ ids (m ∷ ms))
            × (run.called ≡ m ∷ ms)
      step (inl t') e ih =
          let (tried, res, named, called) = ih reads t' in
          rw (e, try_chain) (tried, res, named ∙ simp (map-append, append_assoc), ap (◌∷◌ m) called)
      step (inr a) e ih =
          let (tried, res, named, called) = ih (suc reads) t in
          rw (e, down (outcome_of m d.mode (r.clock reads - started) a failed), try_chain)
            (tried, res, named ∙ simp (map-append, append_assoc), ap (◌∷◌ m) called)

pub All-part : (P : ModelInfo → Type 0) (xs ys : List ModelInfo) → All P (xs ++ ys) → All P xs
All-part P [] ys h = tt
All-part P (x ∷ xs) ys h = (h.0, All-part P xs ys h.1)

Distinct-part : (xs ys : List ModelInfo) → Distinct (xs ++ ys) → Distinct xs
Distinct-part [] ys h = tt
Distinct-part (x ∷ xs) ys h = (All-part _ xs ys h.0, Distinct-part xs ys h.1)

Distinct-take : (n : ℕ) (xs : List ModelInfo) → Distinct xs → Distinct (take n xs)
Distinct-take zero xs h = tt
Distinct-take (suc n) [] h = tt
Distinct-take (suc n) (x ∷ xs) h = (All-take _ n xs h.0, Distinct-take n xs h.1)

module _ (r : ModelRouter) (req : ChatRequest) (p : Principal) where
  abbrev pub routable : List ModelInfo
  routable = (permitted_models r.catalog p).routable

  pub decide-cases :
      (d : RouteDecision)
      → decide_route r req p routable ≡ ok d
      → (route_explicit r.catalog p req.model_id ≡ ok d)
        ⊎ (auto_select r.text_tests r.classifier req routable ≡ ok d)
  unfolding decide_route
  decide-cases d h = ground arith

  decide-MayUse : (d : RouteDecision) → decide_route r req p routable ≡ ok d → MayUse p d.model
  decide-MayUse d h = elim (decide-cases d h) [
    | inl e ↦ (route_explicit-MayUse r.catalog p req.model_id d e).1
    | inr e ↦
        let s = auto_select-Selected r.text_tests r.classifier req routable d e in
        All-Any (MayUse p) d.model routable
          (All-map _ _ (λ m h. h.0) routable (routable-MayUse r.catalog p)) s.listed
  ]

  pub chain-All :
      (P : ModelInfo → Type 0) (d : RouteDecision)
      → P d.model
      → ((c : ModelInfo)
          → Any (λ x. x ≡ c) routable
          → (request_has_image_input req ≡ true → c.supports_vision ≡ true)
          → P c)
      → All P (attempted_chain r req p d)
  unfolding attempted_chain
  chain-All P d h f = capped r.max_attempts
    where
      whole : All P (build_fallback_chain d.model routable req)
      whole =
          let c = build_fallback_chain-IsChain d.model routable req in
          subst (All P) (sym c.selected_first) (h, both c.rest c.drawn c.fallbacks)
        where
          both :
              (ms : List ModelInfo)
              → All (λ c. Any (λ x. x ≡ c) routable) ms
              → All
                  (λ c.
                    ¬ (c.id ≡ d.model.id)
                    × (request_has_image_input req ≡ true → c.supports_vision ≡ true))
                  ms
              → All P ms
          both [] i j = tt
          both (m ∷ ms) i j = (f m i.0 j.0.1, both ms i.1 j.1)

      capped :
          (n : Option ℕ) → All P (apply_attempt_cap n (build_fallback_chain d.model routable req))
      capped none = whole
      capped (some n) = All-take P n _ whole

  attempted-Distinct : (d : RouteDecision) → Distinct (attempted_chain r req p d)
  unfolding attempted_chain
  attempted-Distinct d = capped r.max_attempts
    where
      capped :
          (n : Option ℕ)
          → Distinct (apply_attempt_cap n (build_fallback_chain d.model routable req))
      capped none = (build_fallback_chain-IsChain d.model routable req).distinct
      capped (some n) =
          Distinct-take n _ (build_fallback_chain-IsChain d.model routable req).distinct

  pub called-IsPart :
      (x : Result RouteDecision)
      → decide_route r req p routable ≡ x
      → ((d : RouteDecision) → x ≡ ok d → IsPart (route r req p).called (attempted_chain r req p d))
        × ((e : RouteError) → x ≡ err e → (route r req p).called ≡ [])
  unfolding route
  called-IsPart (ok d) e = (
    λ d' k.
        rw (e, route)
          (let s : d ≡ d' = ground arith in
            subst
              (λ y.
                IsPart (try_chain r req d (r.clock 0) 1 [] (attempted_chain r req p d)).called
                  (attempted_chain r req p y))
              s (try_chain-IsPart r req d (r.clock 0) 1 [] (attempted_chain r req p d))),
    λ x k. ground arith,
  )
  called-IsPart (err x) e = (λ d k. ground arith, λ y k. ground arith)

  -- Every model that a call of `route` sends the request to is one that the principal may use, and no
  -- model (by id) is called twice.
  pub route-called-MayUse : All (MayUse p) (route r req p).called × Distinct (route r req p).called
  route-called-MayUse = of_decision (decide_route r req p routable) refl
    where
      of_decision :
          (x : Result RouteDecision)
          → decide_route r req p routable ≡ x
          → All (MayUse p) (route r req p).called × Distinct (route r req p).called
      of_decision (err x) e = rw ((called-IsPart _ e).1 x refl) (tt, tt)
      of_decision (ok d) e =
          let (rest, split) = (called-IsPart _ e).0 d refl in
          let all = chain-All (MayUse p) d (decide-MayUse d e) (λ c i v.
            All-Any (MayUse p) c routable
              (All-map _ _ (λ m h. h.0) routable (routable-MayUse r.catalog p)) i) in
          (
            All-part (MayUse p) _ rest (subst (All (MayUse p)) split all),
            Distinct-part _ rest (subst Distinct split (attempted-Distinct d)),
          )

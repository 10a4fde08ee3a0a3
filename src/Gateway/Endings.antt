-- ===== src/Gateway/Endings.antt =====
-- The ways a call of the gateway ends: the first stage that denies, or none.
use auxifyai.Prelude.{◌≡◌, inl, inr, refl, String, Option, none, some, Option-cases, Sum-cases}
use auxifyai.Identity.{Principal}
use auxifyai.RateLimit.{RateLimitDecision, Hits}
use auxifyai.Gateway.{GatewayRequest, GatewayPorts, Denial, Evaluation, deny, admit}
use auxifyai.Gateway.Stages.{
  rate_limit_keys, tls_stage, ip_stage, rate_stage, validation_stage, csrf_stage, auth_stage,
  authz_stage, evaluate_request, evaluate,
}

module _ (g : GatewayPorts) (r : GatewayRequest) (hits : Hits) where
  -- The rate limiter's answer, and the counters it leaves.
  abbrev pub limited : Option RateLimitDecision × Hits
  limited = g.consume_limit (rate_limit_keys g.rate_limit_config r) g.now hits

  -- The first stage that denies, with the counters at that point.
  pub data Fails : Denial → Hits → Type 0 where
    tls : {d : Denial} → tls_stage r ≡ some d → Fails d hits
    ip : {d : Denial} → tls_stage r ≡ none → ip_stage g r ≡ some d → Fails d hits
    rate :
        {d : Denial}
        → tls_stage r ≡ none
        → ip_stage g r ≡ none
        → rate_stage limited.0 ≡ some d
        → Fails d limited.1
    validation :
        {d : Denial}
        → tls_stage r ≡ none
        → ip_stage g r ≡ none
        → rate_stage limited.0 ≡ none
        → validation_stage g r ≡ inl d
        → Fails d limited.1
    csrf :
        {d : Denial} {body : Option String}
        → tls_stage r ≡ none
        → ip_stage g r ≡ none
        → rate_stage limited.0 ≡ none
        → validation_stage g r ≡ inr body
        → csrf_stage g r ≡ some d
        → Fails d limited.1
    auth :
        {d : Denial} {body : Option String}
        → tls_stage r ≡ none
        → ip_stage g r ≡ none
        → rate_stage limited.0 ≡ none
        → validation_stage g r ≡ inr body
        → csrf_stage g r ≡ none
        → auth_stage g r ≡ inl d
        → Fails d limited.1
    authz :
        {d : Denial} {body : Option String} {p : Principal}
        → tls_stage r ≡ none
        → ip_stage g r ≡ none
        → rate_stage limited.0 ≡ none
        → validation_stage g r ≡ inr body
        → csrf_stage g r ≡ none
        → auth_stage g r ≡ inr p
        → authz_stage g p r ≡ some d
        → Fails d limited.1

  pub data Ends (out : Evaluation) : Type 0 where
    denies : (d : Denial) (left : Hits) → Fails d left → out ≡ deny g r left d → Ends out
    passes :
        (p : Principal) (body : Option String)
        → tls_stage r ≡ none
        → ip_stage g r ≡ none
        → rate_stage limited.0 ≡ none
        → validation_stage g r ≡ inr body
        → csrf_stage g r ≡ none
        → auth_stage g r ≡ inr p
        → authz_stage g p r ≡ none
        → out ≡ admit p body limited.1
        → Ends out

  pub evaluate-Ends : Ends (evaluate g r hits)
  unfolding evaluate evaluate_request
  evaluate-Ends = elim (Option-cases (tls_stage r)) [
    | inr (d, e) ↦ denies d hits (tls e) (rw (evaluate, e) refl)
    | inl e1 ↦ elim (Option-cases (ip_stage g r)) [
      | inr (d, e) ↦ denies d hits (ip e1 e) (rw (evaluate, e1, e) refl)
      | inl e2 ↦ elim (Option-cases (rate_stage limited.0)) [
        | inr (d, e) ↦ denies d limited.1 (rate e1 e2 e) (rw (evaluate, e1, e2, e) refl)
        | inl e3 ↦ elim (Sum-cases (validation_stage g r)) [
          | inl (d, e) ↦
              denies d limited.1 (validation e1 e2 e3 e)
                (rw (evaluate, e1, e2, e3, evaluate_request, e) refl)
          | inr (body, e4) ↦ elim (Option-cases (csrf_stage g r)) [
            | inr (d, e) ↦
                denies d limited.1 (csrf e1 e2 e3 e4 e)
                  (rw (evaluate, e1, e2, e3, evaluate_request, e4, e) refl)
            | inl e5 ↦ elim (Sum-cases (auth_stage g r)) [
              | inl (d, e) ↦
                  denies d limited.1 (auth e1 e2 e3 e4 e5 e)
                    (rw (evaluate, e1, e2, e3, evaluate_request, e4, e5, e) refl)
              | inr (p, e6) ↦ elim (Option-cases (authz_stage g p r)) [
                | inr (d, e) ↦
                    denies d limited.1 (authz e1 e2 e3 e4 e5 e6 e)
                      (rw (evaluate, e1, e2, e3, evaluate_request, e4, e5, e6, e) refl)
                | inl e7 ↦
                    passes p body e1 e2 e3 e4 e5 e6 e7
                      (rw (evaluate, e1, e2, e3, evaluate_request, e4, e5, e6, e7) refl)
              ]
            ]
          ]
        ]
      ]
    ]
  ]

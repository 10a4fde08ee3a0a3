-- ===== src/Gateway/Admission.antt =====
-- Which requests the gateway admits.
use auxifyai.Prelude.{
  ◌≡◌, ◌∙◌, inl, inr, ◌↔◌, refl, sym, subst, ap, Bool, true, false, String, Option, none, some,
  arith, eq_iff, Option-cases, Bool-cases,
}
use auxifyai.Identity.{Principal}
use auxifyai.RateLimit.{RateLimitDecision, Hits}
use auxifyai.Gateway.{
  GatewayRequest, GatewayPorts, authenticated, ValidationResult, Denial, state_changing, Evaluation,
  deny, admit,
}
use auxifyai.Gateway.Stages.{
  tls_stage, ip_stage, rate_stage, validation_stage, csrf_stage, auth_stage, authz_stage,
  evaluate_request, evaluate,
}
use auxifyai.Gateway.Endings.{limited, Ends, denies, passes, evaluate-Ends}

-- Every guard passes, for this principal and this sanitized body.
pub record Admits (g : GatewayPorts) (r : GatewayRequest) (hits : Hits) (p : Principal)
    (body : Option String) : Type 0 where
  pub secure : r.tls_version ≡ "1.3"
  pub unblocked : g.ip_blocked r.ip ≡ some false
  pub decision : RateLimitDecision
  pub within_limits : (limited g r hits).0 ≡ some decision
  pub not_limited : decision.allowed ≡ true
  pub validation : ValidationResult
  pub validated : g.validate r ≡ some validation
  pub valid : validation.valid ≡ true
  pub sanitized : validation.sanitized_body ≡ body
  pub token_verified : state_changing r.method ≡ true → g.verify r ≡ some true
  pub identified : g.authenticate r ≡ some (authenticated p)
  pub authorized :
      (f : Principal → GatewayRequest → Option Bool) → g.authorize ≡ some f → f p r ≡ some true

pub tls_stage_iff : (r : GatewayRequest) → (tls_stage r ≡ none) ↔ (r.tls_version ≡ "1.3")
unfolding tls_stage
tls_stage_iff r =
    (ground (arith, eq_iff r.tls_version "1.3"), ground (arith, eq_iff r.tls_version "1.3"))

pub ip_stage_iff :
    (g : GatewayPorts) (r : GatewayRequest)
    → (ip_stage g r ≡ none) ↔ (g.ip_blocked r.ip ≡ some false)
unfolding ip_stage
ip_stage_iff g r = (ground arith, ground arith)

rate_stage_passes :
    (o : Option RateLimitDecision)
    → rate_stage o ≡ none
    → (d : RateLimitDecision) × (o ≡ some d) × (d.allowed ≡ true)
unfolding rate_stage
rate_stage_passes none h = ground arith
rate_stage_passes (some d) h = (d, refl, ground arith)

rate_stage_pass :
    (o : Option RateLimitDecision) (d : RateLimitDecision)
    → o ≡ some d
    → d.allowed ≡ true
    → rate_stage o ≡ none
unfolding rate_stage
rate_stage_pass o d e h = rw (e, h) refl

validation_stage_passes :
    (g : GatewayPorts) (r : GatewayRequest) (body : Option String)
    → validation_stage g r ≡ inr body
    → (v : ValidationResult) × (g.validate r ≡ some v)
      × (v.valid ≡ true)
      × (v.sanitized_body ≡ body)
unfolding validation_stage
validation_stage_passes g r body h = elim (Option-cases (g.validate r)) [
  | inl e ↦ absurd (ground arith)
  | inr (v, e) ↦ (v, e, ground arith, ground arith)
]

validation_stage_pass :
    (g : GatewayPorts) (r : GatewayRequest) (v : ValidationResult)
    → g.validate r ≡ some v
    → v.valid ≡ true
    → validation_stage g r ≡ inr v.sanitized_body
unfolding validation_stage
validation_stage_pass g r v e h = rw (validation_stage, e, h) refl

csrf_stage_iff :
    (g : GatewayPorts) (r : GatewayRequest)
    → (csrf_stage g r ≡ none) ↔ (state_changing r.method ≡ true → g.verify r ≡ some true)
unfolding csrf_stage
csrf_stage_iff g r = (
  λ h k. ground arith,
  λ h. elim (Bool-cases (state_changing r.method)) [
    | inl t ↦ rw (csrf_stage, t, h t) refl
    | inr f ↦ rw (csrf_stage, f) refl
  ],
)

pub auth_stage_iff :
    (g : GatewayPorts) (r : GatewayRequest) (p : Principal)
    → (auth_stage g r ≡ inr p) ↔ (g.authenticate r ≡ some (authenticated p))
unfolding auth_stage
auth_stage_iff g r p = (ground arith, ground arith)

authz_stage_iff :
    (g : GatewayPorts) (r : GatewayRequest) (p : Principal)
    → (authz_stage g p r ≡ none)
      ↔ ((f : Principal → GatewayRequest → Option Bool) → g.authorize ≡ some f → f p r ≡ some true)
unfolding authz_stage
authz_stage_iff g r p = (
  λ h f e. ground arith,
  λ h. elim (Option-cases g.authorize) [
    | inl e ↦ rw (authz_stage, e) refl
    | inr (f, e) ↦ rw (authz_stage, e, h f e) refl
  ],
)

deny-admit_absurd :
    (g : GatewayPorts) (r : GatewayRequest) (left left' : Hits) (d : Denial) (p : Principal)
    (body : Option String)
    → deny g r left d ≡ admit p body left'
    → ⊥
unfolding deny
deny-admit_absurd g r left left' d p body h = ground arith

admit-principal :
    (p p' : Principal) (body body' : Option String) (left left' : Hits)
    → admit p body left ≡ admit p' body' left'
    → p ≡ p'
admit-principal p p' body body' left left' h = ground (arith, ap (λ (y : Evaluation). y.verdict) h)

admit-body :
    (p p' : Principal) (body body' : Option String) (left left' : Hits)
    → admit p body left ≡ admit p' body' left'
    → body ≡ body'
admit-body p p' body body' left left' h = ground (arith, ap (λ (y : Evaluation). y.verdict) h)

module _ (g : GatewayPorts) (r : GatewayRequest) (hits : Hits) (p : Principal)
    (body : Option String) where
  pub stages→Admits :
      tls_stage r ≡ none
      → ip_stage g r ≡ none
      → rate_stage (limited g r hits).0 ≡ none
      → validation_stage g r ≡ inr body
      → csrf_stage g r ≡ none
      → auth_stage g r ≡ inr p
      → authz_stage g p r ≡ none
      → Admits g r hits p body
  stages→Admits e1 e2 e3 e4 e5 e6 e7 =
      let (d, answer, allowed) = rate_stage_passes (limited g r hits).0 e3 in
      let (v, validated, valid, sanitized) = validation_stage_passes g r body e4 in
      record {
        secure = (tls_stage_iff r).0 e1;
        unblocked = (ip_stage_iff g r).0 e2;
        decision = d;
        within_limits = answer;
        not_limited = allowed;
        validation = v;
        validated = validated;
        valid = valid;
        sanitized = sanitized;
        token_verified = (csrf_stage_iff g r).0 e5;
        identified = (auth_stage_iff g r p).0 e6;
        authorized = (authz_stage_iff g r p).0 e7;
      }

  Ends→Admits :
      (out : Evaluation)
      → Ends g r hits out
      → out ≡ admit p body (limited g r hits).1
      → Admits g r hits p body
  Ends→Admits out (denies d left f e) h =
      absurd (deny-admit_absurd g r left (limited g r hits).1 d p body (sym e ∙ h))
  Ends→Admits out (passes p' body' e1 e2 e3 e4 e5 e6 e7 e) h =
      let same = sym e ∙ h in
      let ep = admit-principal p' p body' body _ _ same in
      let eb = admit-body p' p body' body _ _ same in
      stages→Admits e1 e2 e3 (e4 ∙ ap inr eb) e5 (e6 ∙ ap inr ep)
        (subst (λ q. authz_stage g q r ≡ none) ep e7)

  Admits→admit : Admits g r hits p body → evaluate g r hits ≡ admit p body (limited g r hits).1
  unfolding evaluate evaluate_request
  Admits→admit a =
      let e1 = (tls_stage_iff r).1 a.secure in
      let e2 = (ip_stage_iff g r).1 a.unblocked in
      let e3 = rate_stage_pass (limited g r hits).0 a.decision a.within_limits a.not_limited in
      let e4 = validation_stage_pass g r a.validation a.validated a.valid ∙ ap inr a.sanitized in
      let e5 = (csrf_stage_iff g r).1 a.token_verified in
      let e6 = (auth_stage_iff g r p).1 a.identified in
      let e7 = (authz_stage_iff g r p).1 a.authorized in
      rw (evaluate, e1, e2, e3, evaluate_request, e4, e5, e6, e7) refl

  -- The gateway admits a request, as a principal and with a sanitized body, exactly when the
  -- connection is TLS 1.3, the address is not blocked, the rate limiter allows the request, it is
  -- valid with that body, it verifies its token where it changes state, it authenticates as that
  -- principal, and the authorizer, if there is one, allows it. A guard that throws admits nothing.
  pub evaluate-iff-Admits :
      (evaluate g r hits ≡ admit p body (limited g r hits).1) ↔ Admits g r hits p body
  evaluate-iff-Admits = (Ends→Admits (evaluate g r hits) (evaluate-Ends g r hits), Admits→admit)

-- ===== src/Gateway/Reasons.antt =====
-- What the guards said, for each code of a denial.
use auxifyai.Prelude.{
  ◌≡◌, ◌∙◌, refl, ap, subst, inl, inr, Bool, true, false, str_eq, eq_iff, Option-cases, Option,
  none, some, Bool-cases, arith, ◌≢◌,
}
use auxifyai.Identity.{Principal}
use auxifyai.RateLimit.{RateLimitDecision, Hits}
use auxifyai.Gateway.{
  GatewayRequest, GatewayPorts, Denial, GatewayDenialCode, tls_required, rate_limited,
  invalid_request, csrf_failed, unauthenticated, unauthorized, fail_closed, AuthOutcome,
  authenticated, not_authenticated, ValidationResult, plain_denial, state_changing,
}
use auxifyai.Gateway.Stages.{
  tls_stage, ip_stage, rate_stage, validation_stage, csrf_stage, auth_stage, authz_stage,
}
use auxifyai.Gateway.Endings.{Fails, tls, ip, rate, validation, csrf, auth, authz, limited}
use auxifyai.Gateway.Admission.{auth_stage_iff}

-- Some guard threw, or there is no answer of the rate limiter.
pub data GuardThrew (g : GatewayPorts) (r : GatewayRequest) (hits : Hits) : Type 0 where
  reputation : g.ip_blocked r.ip ≡ none → GuardThrew g r hits
  limiter : (limited g r hits).0 ≡ none → GuardThrew g r hits
  validator : g.validate r ≡ none → GuardThrew g r hits
  authenticator : g.authenticate r ≡ none → GuardThrew g r hits
  authorizer :
      (authorize : Principal → GatewayRequest → Option Bool) (p : Principal)
      → g.authorize ≡ some authorize
      → g.authenticate r ≡ some (authenticated p)
      → authorize p r ≡ none
      → GuardThrew g r hits

-- What the guards said where a request is denied with a code.
abbrev pub Because : GatewayPorts → GatewayRequest → Hits → GatewayDenialCode → Type 0
Because g r hits tls_required = r.tls_version ≢ "1.3"
Because g r hits GatewayDenialCode.ip_blocked = g.ip_blocked r.ip ≡ some true
Because g r hits rate_limited =
    (d : RateLimitDecision) × ((limited g r hits).0 ≡ some d) × (d.allowed ≡ false)
Because g r hits invalid_request =
    (v : ValidationResult) × (g.validate r ≡ some v) × (v.valid ≡ false)
Because g r hits csrf_failed = (state_changing r.method ≡ true) × (g.verify r ≢ some true)
Because g r hits unauthenticated = g.authenticate r ≡ some not_authenticated
Because g r hits unauthorized =
    (authorize : Principal → GatewayRequest → Option Bool) × (p : Principal) × (g.authorize
      ≡ some authorize)
    × (g.authenticate r ≡ some (authenticated p))
    × (authorize p r ≡ some false)
Because g r hits fail_closed = GuardThrew g r hits

module _ (g : GatewayPorts) (r : GatewayRequest) (hits : Hits) where
  tls-Because : (d : Denial) → tls_stage r ≡ some d → Because g r hits d.code
  unfolding tls_stage
  tls-Because d e = elim (Bool-cases (str_eq r.tls_version "1.3")) [
    | inl t ↦ absurd (ground arith)
    | inr f ↦
        let q : plain_denial tls_required ≡ d = ground arith in
        subst (λ (y : Denial). Because g r hits y.code) q
          (λ v. absurd (let k = (eq_iff r.tls_version "1.3").1 v in ground arith))
  ]

  ip-Because : (d : Denial) → ip_stage g r ≡ some d → Because g r hits d.code
  unfolding ip_stage
  ip-Because d e = answered (g.ip_blocked r.ip) refl
    where
      answered : (b : Option Bool) → g.ip_blocked r.ip ≡ b → Because g r hits d.code
      answered none q =
          let k : plain_denial fail_closed ≡ d = ground arith in
          subst (λ (y : Denial). Because g r hits y.code) k (reputation q)
      answered (some true) q =
          let k : plain_denial GatewayDenialCode.ip_blocked ≡ d = ground arith in
          subst (λ (y : Denial). Because g r hits y.code) k q
      answered (some false) q = absurd (ground arith)

  rate-Because : (d : Denial) → rate_stage (limited g r hits).0 ≡ some d → Because g r hits d.code
  unfolding rate_stage
  rate-Because d e = elim (Option-cases (limited g r hits).0) [
    | inl q ↦
        let k : plain_denial fail_closed ≡ d = ground arith in
        subst (λ (y : Denial). Because g r hits y.code) k (limiter q)
    | inr (x, q) ↦
        let no : x.allowed ≡ false = ground arith in
        let k : rate_limited ≡ d.code = ground arith in subst (Because g r hits) k (x, q, no)
  ]

  validation-Because : (d : Denial) → validation_stage g r ≡ inl d → Because g r hits d.code
  unfolding validation_stage
  validation-Because d e = elim (Option-cases (g.validate r)) [
    | inl q ↦
        let k : plain_denial fail_closed ≡ d = ground arith in
        subst (λ (y : Denial). Because g r hits y.code) k (validator q)
    | inr (v, q) ↦
        let no : v.valid ≡ false = ground arith in
        let k : invalid_request ≡ d.code = ground arith in subst (Because g r hits) k (v, q, no)
  ]

  csrf-Because : (d : Denial) → csrf_stage g r ≡ some d → Because g r hits d.code
  unfolding csrf_stage
  csrf-Because d e =
      let changing : state_changing r.method ≡ true = ground arith in
      let no : g.verify r ≢ some true = λ v. absurd (ground arith) in
      let k : csrf_failed ≡ d.code = ground arith in subst (Because g r hits) k (changing, no)

  auth-Because : (d : Denial) → auth_stage g r ≡ inl d → Because g r hits d.code
  unfolding auth_stage
  auth-Because d e = answered (g.authenticate r) refl
    where
      answered : (b : Option AuthOutcome) → g.authenticate r ≡ b → Because g r hits d.code
      answered none q =
          let k : fail_closed ≡ d.code = ground arith in
          subst (Because g r hits) k (authenticator q)
      answered (some not_authenticated) q =
          let k : unauthenticated ≡ d.code = ground arith in subst (Because g r hits) k q
      answered (some (authenticated p)) q = absurd (ground arith)

  authz-Because :
      (p : Principal) (d : Denial)
      → auth_stage g r ≡ inr p
      → authz_stage g p r ≡ some d
      → Because g r hits d.code
  unfolding authz_stage auth_stage
  authz-Because p d a e = elim (Option-cases g.authorize) [
    | inl q ↦ absurd (ground arith)
    | inr (authorize, q) ↦
        let known : g.authenticate r ≡ some (authenticated p) = (auth_stage_iff g r p).0 a in
        elim (Option-cases (authorize p r)) [
          | inl n ↦
              let k : fail_closed ≡ d.code = ground arith in
              subst (Because g r hits) k (authorizer authorize p q known n)
          | inr (b, n) ↦
              let no : b ≡ false = ground arith in
              let k : unauthorized ≡ d.code = ground arith in
              subst (Because g r hits) k (authorize, p, q, known, n ∙ ap some no)
        ]
  ]

  pub Fails-Because : {d : Denial} {left : Hits} → Fails g r hits d left → Because g r hits d.code
  Fails-Because (tls e) = tls-Because _ e
  Fails-Because (ip e1 e) = ip-Because _ e
  Fails-Because (rate e1 e2 e) = rate-Because _ e
  Fails-Because (validation e1 e2 e3 e) = validation-Because _ e
  Fails-Because (csrf e1 e2 e3 e4 e) = csrf-Because _ e
  Fails-Because (auth e1 e2 e3 e4 e5 e) = auth-Because _ e
  Fails-Because (authz e1 e2 e3 e4 e5 e6 e) = authz-Because _ _ e6 e

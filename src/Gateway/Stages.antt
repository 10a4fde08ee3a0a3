-- ===== src/Gateway/Stages.antt =====
-- The stages of `SecurityGateway.evaluate`, and the pipeline.
use auxifyai.Prelude.{
  ◌⊎◌, inl, inr, true, false, not, String, Option, none, some, List, [], ◌∷◌, ◌++◌, if◌then◌else◌,
  str_eq,
}
use auxifyai.Identity.{Principal}
use auxifyai.RateLimit.{RateLimitKey, RateLimitDecision, RateLimitDimension, Hits}
use auxifyai.Gateway.{
  GatewayRequest, GatewayPorts, GatewayVerdict, GatewayDenialCode, tls_required, rate_limited,
  unauthenticated, invalid_request, csrf_failed, unauthorized, fail_closed, RateLimitConfig,
  authenticated, not_authenticated, Denial, plain_denial, state_changing, Evaluation, deny, admit,
}

-- `rateLimitKeys`
unfoldable pub rate_limit_keys : RateLimitConfig → GatewayRequest → List RateLimitKey
rate_limit_keys c r =
    (record { dimension = RateLimitDimension.ip; id = r.ip; limit = c.ip } ∷ [])
    ++ (elim r.principal [
      | none ↦ []
      | some p ↦ record { dimension = RateLimitDimension.user; id = p.user_id; limit = c.user } ∷ []
    ])
    ++ (elim r.api_key_id [
      | none ↦ []
      | some k ↦ record { dimension = RateLimitDimension.api_key; id = k; limit = c.api_key } ∷ []
    ])

-- Stage 1.
unfoldable pub tls_stage : GatewayRequest → Option Denial
tls_stage r = if not (str_eq r.tls_version "1.3") then some (plain_denial tls_required) else none

-- Stage 2.
unfoldable pub ip_stage : GatewayPorts → GatewayRequest → Option Denial
ip_stage g r = elim (g.ip_blocked r.ip) [
  | none ↦ some (plain_denial fail_closed)
  | some true ↦ some (plain_denial GatewayDenialCode.ip_blocked)
  | some false ↦ none
]

-- Stage 3, of what the rate limiter answered.
unfoldable pub rate_stage : Option RateLimitDecision → Option Denial
rate_stage none = some (plain_denial fail_closed)
rate_stage (some d) =
    if not d.allowed
    then some (record {
      code = rate_limited;
      retry_after_seconds = d.retry_after_seconds;
      principal = none;
    })
    else none

-- Stage 4.
unfoldable pub validation_stage : GatewayPorts → GatewayRequest → Denial ⊎ Option String
validation_stage g r = elim (g.validate r) [
  | none ↦ inl (plain_denial fail_closed)
  | some v ↦ if not v.valid then inl (plain_denial invalid_request) else inr v.sanitized_body
]

-- Stage 5.
unfoldable pub csrf_stage : GatewayPorts → GatewayRequest → Option Denial
csrf_stage g r =
    if state_changing r.method
    then elim (g.verify r) [
      | some true ↦ none
      | some false ↦ some (plain_denial csrf_failed)
      | none ↦ some (plain_denial csrf_failed)
    ]
    else none

-- Stage 6.
unfoldable pub auth_stage : GatewayPorts → GatewayRequest → Denial ⊎ Principal
auth_stage g r = elim (g.authenticate r) [
  | none ↦ inl (plain_denial fail_closed)
  | some not_authenticated ↦ inl (plain_denial unauthenticated)
  | some (authenticated p) ↦ inr p
]

-- Stage 7.
unfoldable pub authz_stage : GatewayPorts → Principal → GatewayRequest → Option Denial
authz_stage g p r = elim g.authorize [
  | none ↦ none
  | some authorize ↦ elim (authorize p r) [
    | none ↦ some (record { code = fail_closed; retry_after_seconds = none; principal = some p })
    | some false ↦
        some (record { code = unauthorized; retry_after_seconds = none; principal = some p })
    | some true ↦ none
  ]
]

-- Stages 4 to 7, with the counters that stage 3 left.
unfoldable pub evaluate_request : GatewayPorts → GatewayRequest → Hits → Evaluation
evaluate_request g r hits = elim (validation_stage g r) [
  | inl d ↦ deny g r hits d
  | inr body ↦ elim (csrf_stage g r) [
    | some d ↦ deny g r hits d
    | none ↦ elim (auth_stage g r) [
      | inl d ↦ deny g r hits d
      | inr p ↦ elim (authz_stage g p r) [ some d ↦ deny g r hits d | none ↦ admit p body hits ]
    ]
  ]
]

unfoldable pub evaluate : GatewayPorts → GatewayRequest → Hits → Evaluation
evaluate g r hits = elim (tls_stage r) [
  | some d ↦ deny g r hits d
  | none ↦ elim (ip_stage g r) [
    | some d ↦ deny g r hits d
    | none ↦
        let (decision, left) = g.consume_limit (rate_limit_keys g.rate_limit_config r) g.now hits in
        elim (rate_stage decision) [ some d ↦ deny g r left d | none ↦ evaluate_request g r left ]
  ]
]

pub data Thrown : Type 0 where
  audit_failed : Thrown
  request_denied : GatewayVerdict → Thrown

unfoldable pub evaluate_or_throw : GatewayPorts → GatewayRequest → Hits → Thrown ⊎ GatewayVerdict
evaluate_or_throw g r hits = elim (evaluate g r hits).verdict [
  | none ↦ inl audit_failed
  | some v ↦ if not v.allowed then inl (request_denied v) else inr v
]

-- ===== src/Gateway.antt =====
-- `SecurityGateway` (services/core/src/security-gateway/security-gateway.ts, types.ts). Every guard is
-- a port, `none` where it throws; the rate limiter's counters are passed in and returned. Bodies are
-- serialised values, and the reason texts are left out.
pub mod Stages
pub mod Endings
pub mod Admission
pub mod Reasons
pub mod Audit
pub mod Limits
use auxifyai.Prelude.{
  ℕ, ◌≡◌, ◌⊎◌, inl, inr, Bool, true, false, not, ◌&&◌, ◌||◌, String, Option, none, some, List, [],
  ◌∷◌, ◌++◌, if◌then◌else◌, str_eq, get_or_else,
}
use auxifyai.Identity.{Principal, TenantContext}
use auxifyai.RateLimit.{RateLimit, RateLimitKey, RateLimitDecision, RateLimitDimension, Hits}

pub data HttpMethod : Type 0 where
  get head options post put patch delete : HttpMethod

pub record GatewayRequest : Type 0 where
  -- `transport.tlsVersion`
  pub tls_version : String
  pub method : HttpMethod
  pub path : String
  pub ip : String
  pub principal : Option Principal
  pub api_key_id : Option String
  pub csrf_token : Option String
  pub csrf_cookie : Option String
  pub headers : List (String × String)
  pub body : Option String
  pub user_agent : Option String

pub data GatewayDenialCode : Type 0 where
  tls_required ip_blocked rate_limited unauthenticated : GatewayDenialCode
  invalid_request csrf_failed unauthorized fail_closed : GatewayDenialCode

pub record GatewayVerdict : Type 0 where
  pub allowed : Bool
  pub denial_code : Option GatewayDenialCode
  pub principal : Option Principal
  pub sanitized_body : Option String
  pub retry_after_seconds : Option ℕ

pub record RateLimitConfig : Type 0 where
  pub user : RateLimit
  pub api_key : RateLimit
  pub ip : RateLimit

pub data AuthOutcome : Type 0 where
  authenticated : Principal → AuthOutcome
  not_authenticated : AuthOutcome

pub record ValidationResult : Type 0 where
  pub valid : Bool
  pub sanitized_body : Option String

-- A `security.denied` event. Its resource id is the method and the path.
pub record SecurityDenied : Type 0 where
  pub actor_id : String
  pub ip : String
  pub user_agent : Option String
  pub denial_code : GatewayDenialCode
  pub method : HttpMethod
  pub path : String
  pub retry_after_seconds : Option ℕ

pub record GatewayPorts : Type 0 where
  -- `IpReputation.evaluate`: whether the address is blocked.
  pub ip_blocked : String → Option Bool
  pub consume_limit : List RateLimitKey → ℕ → Hits → Option RateLimitDecision × Hits
  pub rate_limit_config : RateLimitConfig
  pub validate : GatewayRequest → Option ValidationResult
  -- `CsrfVerifier.verify`
  pub verify : GatewayRequest → Option Bool
  pub authenticate : GatewayRequest → Option AuthOutcome
  -- `Authorizer.authorize`, when there is one: whether the request is allowed.
  pub authorize : Option (Principal → GatewayRequest → Option Bool)
  pub now : ℕ
  -- `AuditRecorder.record`: whether the event was stored; it rejects otherwise.
  pub stores : TenantContext → SecurityDenied → Bool

-- What `deny` gets besides the request.
pub record Denial : Type 0 where
  pub code : GatewayDenialCode
  pub retry_after_seconds : Option ℕ
  pub principal : Option Principal

abbrev pub plain_denial : GatewayDenialCode → Denial
plain_denial code = record { code = code; retry_after_seconds = none; principal = none }

abbrev pub state_changing : HttpMethod → Bool
state_changing HttpMethod.post = true
state_changing HttpMethod.put = true
state_changing HttpMethod.patch = true
state_changing HttpMethod.delete = true
state_changing _ = false

-- What a call gives: the verdict (`none` when it rejects), the stored events, and the counters.
pub record Evaluation : Type 0 where
  pub verdict : Option GatewayVerdict
  pub events : List (TenantContext × SecurityDenied)
  pub hits : Hits

-- `extra.principal ?? request.principal`
abbrev pub identity_of : GatewayRequest → Denial → Option Principal
identity_of r d = elim d.principal [ some p ↦ some p | none ↦ r.principal ]

abbrev pub context_of : Option Principal → TenantContext
context_of none = record {
  organization_id = "system";
  user_id = "anonymous";
  team_id = none;
  project_id = none;
}
context_of (some p) = record {
  organization_id = p.organization_id;
  user_id = p.user_id;
  team_id = none;
  project_id = none;
}

abbrev pub event_of : GatewayRequest → Denial → SecurityDenied
event_of r d = record {
  actor_id = (context_of (identity_of r d)).user_id;
  ip = r.ip;
  user_agent = r.user_agent;
  denial_code = d.code;
  method = r.method;
  path = r.path;
  retry_after_seconds = d.retry_after_seconds;
}

abbrev pub verdict_of : Denial → GatewayVerdict
verdict_of d = record {
  allowed = false;
  denial_code = some d.code;
  principal = none;
  sanitized_body = none;
  retry_after_seconds = d.retry_after_seconds;
}

unfoldable pub deny : GatewayPorts → GatewayRequest → Hits → Denial → Evaluation
deny g r hits d =
    let ctx = context_of (identity_of r d) in
    if g.stores ctx (event_of r d)
    then record { verdict = some (verdict_of d); events = (ctx, event_of r d) ∷ []; hits = hits }
    else record { verdict = none; events = []; hits = hits }

abbrev pub admit : Principal → Option String → Hits → Evaluation
admit p body hits = record {
  verdict = some (record {
    allowed = true;
    denial_code = none;
    principal = some p;
    sanitized_body = body;
    retry_after_seconds = none;
  });
  events = [];
  hits = hits;
}

-- ===== src/Examples/Gateway.antt =====
-- Tests of the Security_Gateway and its rate limiter, and their theorems at concrete inputs.
use auxifyai.Prelude.{
  inl, eq_iff, arith, ℕ, ◌≡◌, refl, ◌⊎◌, Bool, true, false, String, Option, none, some, List, [],
  ◌∷◌, All, length,
}
use auxifyai.Examples.{alice}
use auxifyai.Gateway.{GatewayPorts, GatewayRequest, HttpMethod, authenticated, admit}
use auxifyai.Gateway.Stages.{evaluate}
use auxifyai.Gateway.Endings.{limited}
use auxifyai.Gateway.Admission.{Admits, evaluate-iff-Admits}
use auxifyai.Gateway.Limits.{in_memory}
use auxifyai.RateLimit.{
  RateLimitDecision, RateLimitKey, RateLimitDimension, ip, user, Hits, consume, admitted,
  counter_key,
}
use auxifyai.RateLimit.Counters.{DistinctKeys, UnderLimit}
use auxifyai.RateLimit.Windows.{Exceeds, consume-Verdict}
use auxifyai.RateLimit.Recording.{Counted, OthersKept, consume-Counted}

abbrev key_of : RateLimitDimension → String → ℕ → RateLimitKey
key_of d id n = record {
  dimension = d;
  id = id;
  limit = record { requests_per_window = n; window_seconds = 60 };
}

abbrev keys : List RateLimitKey
keys = key_of ip "10.0.0.1" 2 ∷ key_of user "alice" 5 ∷ []

abbrev hits : Hits
hits = ("ip:10.0.0.1", 1000 ∷ 70000 ∷ []) ∷ []

keys-DistinctKeys : DistinctKeys keys
unfolding counter_key
keys-DistinctKeys = ((refl, tt), (tt, tt))

-- The request at 1 s does not count any more at 80 s, and a third one is too many.
admits_example : (consume keys 80000 hits).0.allowed ≡ true
unfolding consume auxifyai.RateLimit.check_keys auxifyai.RateLimit.record_keys
    auxifyai.RateLimit.pruned counter_key auxifyai.Prelude.Maps.lookup auxifyai.Prelude.Maps.put
admits_example = refl

denies_example : (consume keys 50000 hits).0.allowed ≡ false
unfolding consume auxifyai.RateLimit.check_keys auxifyai.RateLimit.record_keys
    auxifyai.RateLimit.pruned counter_key auxifyai.Prelude.Maps.lookup auxifyai.Prelude.Maps.put
denies_example = refl

retry_example : (consume keys 50000 hits).0.retry_after_seconds ≡ some 11
unfolding consume auxifyai.RateLimit.check_keys auxifyai.RateLimit.record_keys
    auxifyai.RateLimit.pruned counter_key auxifyai.Prelude.Maps.lookup auxifyai.Prelude.Maps.put
    auxifyai.RateLimit.retry_seconds
retry_example = refl

consume-Verdict_example :
    ((consume keys 50000 hits).0 ≡ admitted × All (UnderLimit hits 50000) keys)
    ⊎ ((consume keys 50000 hits).0.allowed ≡ false
        × Exceeds hits 50000 keys (consume keys 50000 hits).0)
consume-Verdict_example = consume-Verdict keys 50000 hits keys-DistinctKeys

consume-Counted_example :
    All (Counted 80000 hits (consume keys 80000 hits).1) keys
    × OthersKept hits (consume keys 80000 hits).1 keys
consume-Counted_example = consume-Counted keys 80000 hits keys-DistinctKeys admits_example

abbrev gateway : GatewayPorts
gateway = record {
  ip_blocked = λ a. some false;
  consume_limit = in_memory;
  rate_limit_config = record {
    user = record { requests_per_window = 600; window_seconds = 60 };
    api_key = record { requests_per_window = 600; window_seconds = 60 };
    ip = record { requests_per_window = 120; window_seconds = 60 };
  };
  validate = λ r. some (record { valid = true; sanitized_body = r.body });
  verify = λ r. some true;
  authenticate = λ r. some (authenticated alice);
  authorize = none;
  now = 80000;
  stores = λ c e. true;
}

abbrev request : GatewayRequest
request = record {
  tls_version = "1.3";
  method = HttpMethod.post;
  path = "/chat";
  ip = "10.0.0.1";
  principal = some alice;
  api_key_id = none;
  csrf_token = some "t";
  csrf_cookie = some "t";
  headers = [];
  body = some "hello";
  user_agent = none;
}

abbrev old_request : GatewayRequest
old_request = record request { tls_version = "1.2" }

limited_allows : (limited gateway request hits).0 ≡ some admitted
unfolding consume auxifyai.RateLimit.check_keys auxifyai.RateLimit.record_keys
    auxifyai.RateLimit.pruned counter_key auxifyai.Prelude.Maps.lookup auxifyai.Prelude.Maps.put
    auxifyai.Gateway.Stages.rate_limit_keys
limited_allows = refl

request-Admits : Admits gateway request hits alice (some "hello")
request-Admits = record {
  secure = refl;
  unblocked = refl;
  decision = admitted;
  within_limits = limited_allows;
  not_limited = refl;
  validation = record { valid = true; sanitized_body = some "hello" };
  validated = refl;
  valid = refl;
  sanitized = refl;
  token_verified = λ h. refl;
  identified = refl;
  authorized = λ f e. ground arith;
}

evaluate-iff-Admits_example :
    evaluate gateway request hits ≡ admit alice (some "hello") (limited gateway request hits).1
evaluate-iff-Admits_example =
    (evaluate-iff-Admits gateway request hits alice (some "hello")).1 request-Admits

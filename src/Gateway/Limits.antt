-- ===== src/Gateway/Limits.antt =====
-- The gateway with the in-memory rate limiter.
use Prim.Native.String.{[] as empty, ◌∷◌ as char_cons, ◌++◌ as text_append}
use Prim.Native.String.append
use auxifyai.Prelude.{ℕ, String, Option, some, List}
use auxifyai.RateLimit.{
  RateLimitKey, RateLimitDecision, RateLimitDimension, user, api_key, ip, Hits, consume,
}
use auxifyai.Gateway.{GatewayPorts, GatewayRequest}
use auxifyai.Gateway.Stages.{rate_limit_keys}

-- The text of the first character.
first_char : String → String
first_char empty = ""
first_char (char_cons c s) = char_cons c ""

first_of : RateLimitDimension → String
first_of user = "u"
first_of api_key = "a"
first_of ip = "i"

abbrev pub in_memory : List RateLimitKey → ℕ → Hits → Option RateLimitDecision × Hits
in_memory keys now hits = (some (consume keys now hits).0, (consume keys now hits).1)

abbrev pub keys_of : GatewayPorts → GatewayRequest → List RateLimitKey
keys_of g r = rate_limit_keys g.rate_limit_config r

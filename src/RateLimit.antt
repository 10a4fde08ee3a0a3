-- ===== src/RateLimit.antt =====
-- The in-memory rate limiter of the Security_Gateway: services/core/src/security-gateway (types.ts,
-- rate-limiter.ts). The map of counters is passed in and returned. Times and windows are natural
-- numbers of milliseconds; a timestamp is compared with `now - window` by adding the window to it.
pub mod Counters
pub mod Windows
pub mod Recording
use Prim.Native.String.{◌++◌ as text_append}
use auxifyai.Prelude.{
  ℕ, suc, ◌+◌, ◌-◌, ◌*◌, ◌/◌, ◌≡◌, Bool, true, false, String, Option, none, some, List, [], ◌∷◌,
  ◌++◌, length, filter, get_or_else, if◌then◌else◌, ltb, leb,
}
use auxifyai.Prelude.Maps.{lookup, put}

pub record RateLimit : Type 0 where
  pub requests_per_window : ℕ
  pub window_seconds : ℕ

pub data RateLimitDimension : Type 0 where
  user api_key ip : RateLimitDimension

pub record RateLimitKey : Type 0 where
  pub dimension : RateLimitDimension
  pub id : String
  pub limit : RateLimit

pub record RateLimitDecision : Type 0 where
  pub allowed : Bool
  pub exceeded_dimension : Option RateLimitDimension
  pub retry_after_seconds : Option ℕ

abbrev pub Hits : Type 0
Hits = List (String × List ℕ)

abbrev pub dimension_name : RateLimitDimension → String
dimension_name user = "user"
dimension_name api_key = "api_key"
dimension_name ip = "ip"

unfoldable pub counter_key : RateLimitKey → String
counter_key k = text_append (dimension_name k.dimension) (text_append ":" k.id)

abbrev pub window_ms : RateLimitKey → ℕ
window_ms k = k.limit.window_seconds * 1000

-- `t > nowMs - windowMs`
abbrev pub in_window : ℕ → ℕ → ℕ → Bool
in_window now window t = ltb now (t + window)

unfoldable pub pruned : Hits → String → ℕ → ℕ → List ℕ
pruned hits id now window = filter (in_window now window) (get_or_else (lookup id hits) [])

-- `recentHits`: the pruned timestamps, and the counters with these in place.
abbrev pub recent_hits : Hits → String → ℕ → ℕ → List ℕ × Hits
recent_hits hits id now window =
    let recent = pruned hits id now window in (recent, put id recent hits)

abbrev pub first_or : ℕ → List ℕ → ℕ
first_or d [] = d
first_or d (t ∷ ts) = t

-- `Math.max(1, Math.ceil(ms / 1000))`
unfoldable pub retry_seconds : ℕ → ℕ
retry_seconds ms = let seconds = (ms + 999) / 1000 in if ltb 1 seconds then seconds else 1

-- The oldest request that counts is in the window, so the time left is never negative.
abbrev pub exceeded : RateLimitKey → ℕ → List ℕ → RateLimitDecision
exceeded k now recent = record {
  allowed = false;
  exceeded_dimension = some k.dimension;
  retry_after_seconds = some (retry_seconds (first_or now recent + window_ms k - now));
}

abbrev pub admitted : RateLimitDecision
admitted = record { allowed = true; exceeded_dimension = none; retry_after_seconds = none }

-- Phase 1, with the counters it leaves.
unfoldable pub check_keys : ℕ → List RateLimitKey → Hits → Option RateLimitDecision × Hits
check_keys now [] hits = (none, hits)
check_keys now (k ∷ ks) hits =
    let (recent, left) = recent_hits hits (counter_key k) now (window_ms k) in
    let rest = check_keys now ks left in
    if leb k.limit.requests_per_window (length recent)
    then (some (exceeded k now recent), left)
    else rest

-- Phase 2.
unfoldable pub record_keys : ℕ → List RateLimitKey → Hits → Hits
record_keys now [] hits = hits
record_keys now (k ∷ ks) hits =
    let (recent, left) = recent_hits hits (counter_key k) now (window_ms k) in
    record_keys now ks (put (counter_key k) (recent ++ (now ∷ [])) left)

unfoldable pub consume : List RateLimitKey → ℕ → Hits → RateLimitDecision × Hits
consume keys now hits = elim (check_keys now keys hits).0 [
  | some d ↦ (d, (check_keys now keys hits).1)
  | none ↦ (admitted, record_keys now keys (check_keys now keys hits).1)
]

-- ===== src/Router/Execution.antt =====
-- `ModelRouter.route` (fallback.ts): the chain is tried in turn. The provider call, the outcome
-- recorder and the clock are ports. A model's cost per 1000 tokens is a whole number of units, so
-- `compute_cost` is in thousandths of a unit and nothing is rounded.
pub mod Fallback
pub mod Safety
pub mod Outcomes
use auxifyai.Prelude.{
  ℕ, zero, suc, ◌+◌, ◌-◌, ◌*◌, ◌≡◌, ◌⊎◌, inl, inr, Bool, true, false, not, ◌&&◌, ◌||◌, String,
  Option, none, some, List, [], ◌∷◌, ◌++◌, if◌then◌else◌, str_eq, length, take, get_or_else, ltb,
}
use auxifyai.Identity.{Principal, ModelInfo}
use auxifyai.Router.{
  ChatRequest, ChatChunk, ChatFinishReason, TokenUsage, RouteDecision, RouteMode, FallbackAttempt,
  AttemptFailureKind, timeout, provider_error, Result, ok, err, ◌>>=◌, provider_exhausted,
}
use auxifyai.Router.Permissions.{ModelCatalog, permitted_models, route_explicit}
use auxifyai.Router.AutoMode.{TextTests, QueryClassifier, auto_select}
use auxifyai.Router.Chain.{build_fallback_chain}

-- A thrown value: an Error with its name, a ProviderTimeoutError, or something else as a text.
pub data Thrown : Type 0 where
  provider_timeout : String → Thrown
  an_error : String → String → Thrown
  other : String → Thrown

-- A chunk stream that ends, or throws after its chunks.
pub record Stream : Type 0 where
  pub chunks : List ChatChunk
  pub failure : Option Thrown

pub record RequestOutcome : Type 0 where
  pub model_id : String
  pub mode : RouteMode
  pub latency_ms : ℕ
  pub input_tokens : ℕ
  pub output_tokens : ℕ
  pub cost : ℕ
  pub failed_attempts : List FallbackAttempt

pub record RoutedChatResult : Type 0 where
  pub decision : RouteDecision
  pub outcome : RequestOutcome
  pub usage : TokenUsage
  pub finish_reason : Option ChatFinishReason
  pub chunks : List ChatChunk

pub record ModelRouter : Type 0 where
  pub catalog : ModelCatalog
  pub text_tests : TextTests
  pub classifier : Option QueryClassifier
  -- `ProviderCallPort.chat`
  pub chat : ChatRequest → Stream
  -- `OutcomeRecorder.record`; what it throws, if it does.
  pub record_outcome : RequestOutcome → Option Thrown
  -- The clock's readings in turn.
  pub clock : ℕ → ℕ
  pub max_attempts : Option ℕ

abbrev pub no_usage : TokenUsage
no_usage = record { input_tokens = 0; output_tokens = 0 }

unfoldable pub compute_cost : ModelInfo → TokenUsage → ℕ
compute_cost m u =
    u.input_tokens * m.cost.per_1k_input_tokens + u.output_tokens * m.cost.per_1k_output_tokens

abbrev pub is_abort_name : String → Bool
is_abort_name name = str_eq name "TimeoutError" || str_eq name "AbortError"

unfoldable pub classify_failure : Thrown → AttemptFailureKind × String
classify_failure (provider_timeout message) = (timeout, message)
classify_failure (an_error name message) =
    (if is_abort_name name then timeout else provider_error, message)
classify_failure (other value) = (provider_error, value)

-- What a later chunk overrides.
abbrev pub latest {ℓ} : {A : Type ℓ} → Option A → Option A → Option A
latest old none = old
latest old (some new) = some new

unfoldable pub last_usage : Option TokenUsage → List ChatChunk → Option TokenUsage
last_usage u [] = u
last_usage u (c ∷ cs) = last_usage (latest u c.usage) cs

unfoldable pub last_finish : Option ChatFinishReason → List ChatChunk → Option ChatFinishReason
last_finish r [] = r
last_finish r (c ∷ cs) = last_finish (latest r c.finish_reason) cs

pub record Attempt : Type 0 where
  pub chunks : List ChatChunk
  pub usage : TokenUsage
  pub finish_reason : Option ChatFinishReason

-- `runAttempt`
unfoldable pub run_attempt : ModelRouter → ChatRequest → Thrown ⊎ Attempt
run_attempt r req =
    let s = r.chat req in
    elim s.failure [
      | some t ↦ inl t
      | none ↦ inr (record {
        chunks = s.chunks;
        usage = get_or_else (last_usage none s.chunks) no_usage;
        finish_reason = last_finish none s.chunks;
      })
    ]

-- `applyAttemptCap`
abbrev pub apply_attempt_cap : Option ℕ → List ModelInfo → List ModelInfo
apply_attempt_cap none chain = chain
apply_attempt_cap (some n) chain = take n chain

unfoldable pub final_decision : RouteDecision → ModelInfo → RouteDecision
final_decision original served_by =
    if str_eq served_by.id original.model.id
    then original
    else record { model = served_by; mode = original.mode }

abbrev pub failed_attempt : ModelInfo → Thrown → FallbackAttempt
failed_attempt m t =
    let (kind, reason) = classify_failure t in
    record { model_id = m.id; kind = kind; reason = reason }

abbrev pub outcome_of : ModelInfo → RouteMode → ℕ → Attempt → List FallbackAttempt → RequestOutcome
outcome_of m mode latency a failed = record {
  model_id = m.id;
  mode = mode;
  latency_ms = latency;
  input_tokens = a.usage.input_tokens;
  output_tokens = a.usage.output_tokens;
  cost = compute_cost m a.usage;
  failed_attempts = failed;
}

-- What a call did: its result, the outcomes that the recorder accepted, and the models called.
pub record Run : Type 0 where
  pub result : Result RoutedChatResult
  pub recorded : List RequestOutcome
  pub called : List ModelInfo

abbrev pub after_call : ModelInfo → Run → Run
after_call m run = record run { called = m ∷ run.called }

-- The loop of `route`. `reads` counts the clock's readings; `Math.max(0, now - startedAt)` is the
-- truncated difference.
unfoldable pub try_chain :
    ModelRouter → ChatRequest → RouteDecision → ℕ → ℕ → List FallbackAttempt → List ModelInfo → Run
try_chain r req d started reads failed [] = record {
  result = err (provider_exhausted failed);
  recorded = [];
  called = [];
}
try_chain r req d started reads failed (m ∷ ms) =
    elim (run_attempt r (record req { model_id = m.id })) [
      | inl t ↦
          after_call m (try_chain r req d started reads (failed ++ (failed_attempt m t ∷ [])) ms)
      | inr a ↦
          let outcome = outcome_of m d.mode (r.clock reads - started) a failed in
          elim (r.record_outcome outcome) [
            | some t ↦
                after_call m
                  (try_chain r req d started (suc reads) (failed ++ (failed_attempt m t ∷ [])) ms)
            | none ↦ record {
              result = ok (record {
                decision = final_decision d m;
                outcome = outcome;
                usage = a.usage;
                finish_reason = a.finish_reason;
                chunks = a.chunks;
              });
              recorded = outcome ∷ [];
              called = m ∷ [];
            }
          ]
    ]

-- `decide`
unfoldable pub decide_route :
    ModelRouter → ChatRequest → Principal → List ModelInfo → Result RouteDecision
decide_route r req p routable =
    if not (str_eq req.model_id "auto")
    then route_explicit r.catalog p req.model_id
    else auto_select r.text_tests r.classifier req routable

unfoldable pub attempted_chain :
    ModelRouter → ChatRequest → Principal → RouteDecision → List ModelInfo
attempted_chain r req p d =
    apply_attempt_cap r.max_attempts
      (build_fallback_chain d.model (permitted_models r.catalog p).routable req)

unfoldable pub route : ModelRouter → ChatRequest → Principal → Run
unfolding decide_route attempted_chain
route r req p = elim (decide_route r req p (permitted_models r.catalog p).routable) [
  | err e ↦ record { result = err e; recorded = []; called = [] }
  | ok d ↦ try_chain r req d (r.clock 0) 1 [] (attempted_chain r req p d)
]

-- The constructor's check of `maxAttempts`, a whole number here: it throws on 0.
abbrev pub valid_max_attempts : Option ℕ → Bool
valid_max_attempts none = true
valid_max_attempts (some n) = ltb 0 n

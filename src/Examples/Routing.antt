-- ===== src/Examples/Routing.antt =====
-- The Model_Router at concrete inputs.
use auxifyai.Prelude.{
  ◌+◌, ◌*◌, ◌≡◌, refl, ◌⊎◌, true, false, none, some, [], ◌∷◌, List, String, All, if◌then◌else◌,
  str_eq,
}
use auxifyai.Prelude.Sort.{sort_by}
use auxifyai.Identity.{Principal, ModelInfo, ModelTier}
use auxifyai.Access.{check_model_access}
use auxifyai.Access
use auxifyai.Access.Models.{MayUse}
use auxifyai.Router.{
  ChatRequest, ChatChunk, ChatRole, plain, parts, image, RouteDecision, explicit, auto,
  FallbackAttempt, ok, err, provider_exhausted, no_eligible_model, no_vision_capable_model,
  request_has_image_input, tier_rank, TokenUsage,
}
use auxifyai.Router.Permissions.{ModelCatalog, route_explicit, permitted_models, is_permitted}
use auxifyai.Router.AutoMode.{TextTests, select_nearest_tier}
use auxifyai.Router.AutoMode.Nearest.{IsNearest, select_nearest_tier-IsNearest}
use auxifyai.Router.Chain.{build_fallback_chain, ordered_others, dedupe, indexed, entry_le}
use auxifyai.Router.Chain.Distinct.{IsChain, Distinct, build_fallback_chain-IsChain}
use auxifyai.Router.Execution.{
  ModelRouter, provider_timeout, an_error, decide_route, attempted_chain, route, run_attempt,
  try_chain,
}
use auxifyai.Router.Execution.Fallback.{Served, Exhausted, ids, attempt_ids}
use auxifyai.Router.Execution.Safety.{route-called-MayUse}
use auxifyai.Router.Execution.Outcomes.{route-Served, route-recorder_down}
use auxifyai.Examples.{alice, bob, mini, large, model_of}

abbrev medium : ModelInfo
medium = model_of "medium" ModelTier.standard true

abbrev models : List ModelInfo
models = mini ∷ medium ∷ large ∷ []

abbrev anyone : Principal
anyone = record bob { allowed_models = [] }

abbrev catalog : ModelCatalog
catalog = record {
  list = models;
  get = λ i.
      if str_eq i "mini"
      then some mini
      else if str_eq i "medium"
      then some medium
      else if str_eq i "large"
      then some large
      else none;
}

abbrev no_tests : TextTests
no_tests = record {
  code_fence = λ s. false;
  code_indicators = [];
  code_phrases = [];
  complexity_indicators = [];
  text_length = λ s. 10;
}

abbrev last_chunk : ChatChunk
last_chunk = record {
  delta = "hi";
  done = some true;
  model = none;
  usage = some (record { input_tokens = 10; output_tokens = 5 });
  finish_reason = none;
}

-- The large model times out; the others answer.
abbrev router : ModelRouter
router = record {
  catalog = catalog;
  text_tests = no_tests;
  classifier = none;
  chat = λ req. record {
    chunks = last_chunk ∷ [];
    failure = if str_eq req.model_id "large" then some (provider_timeout "late") else none;
  };
  record_outcome = λ o. none;
  clock = λ k. 100 + 7 * k;
  max_attempts = none;
}

abbrev ask : String → ChatRequest
ask id = record {
  model_id = id;
  messages = record { role = ChatRole.user; content = plain "hello"; name = none } ∷ [];
  system_prompt = none;
}

abbrev show : String → ChatRequest
show id = record {
  model_id = id;
  messages =
      record {
        role = ChatRole.user;
        content =
            parts (image (record { mime_type = "image/png"; base64 = none; url = some "u" }) ∷ []);
        name = none;
      }
      ∷ [];
  system_prompt = none;
}

abbrev to_large : RouteDecision
to_large = record { model = large; mode = explicit }

large_decided : decide_route router (ask "large") anyone models ≡ ok to_large
unfolding decide_route route_explicit check_model_access Access.is_viewer
large_decided = refl

all_routable : (permitted_models catalog anyone).routable ≡ models
unfolding permitted_models is_permitted check_model_access Access.is_viewer
all_routable = refl

-- The request falls back to the nearest tier, and the latency counts the failed attempt.
fallback_run : (route router (ask "large") anyone).called ≡ large ∷ medium ∷ []
unfolding route decide_route route_explicit attempted_chain permitted_models is_permitted
    check_model_access Access.is_viewer build_fallback_chain ordered_others dedupe indexed entry_le
    sort_by try_chain run_attempt request_has_image_input
fallback_run = refl

route-Served_example :
    Served router
      (ask "large")
      to_large
      []
      (attempted_chain router (ask "large") anyone to_large)
      (route router (ask "large") anyone)
    ⊎ Exhausted router
        (ask "large")
        []
        (attempted_chain router (ask "large") anyone to_large)
        (route router (ask "large") anyone)
unfolding permitted_models is_permitted check_model_access Access.is_viewer
route-Served_example = route-Served router (ask "large") anyone to_large large_decided (λ o. refl)

route-called-MayUse_example :
    All (MayUse alice) (route router (ask "mini") alice).called
    × Distinct (route router (ask "mini") alice).called
route-called-MayUse_example = route-called-MayUse router (ask "mini") alice

-- The recorder's store is down.
abbrev down : ModelRouter
down = record router { record_outcome = λ o. some (an_error "StoreError" "down") }

route-recorder_down_example :
    (tried : List FallbackAttempt) × ((route down (ask "large") anyone).result
      ≡ err (provider_exhausted tried))
    × (attempt_ids tried ≡ ids (attempted_chain down (ask "large") anyone to_large))
    × ((route down (ask "large") anyone).called
        ≡ attempted_chain down (ask "large") anyone to_large)
unfolding permitted_models is_permitted check_model_access Access.is_viewer decide_route
route-recorder_down_example =
    route-recorder_down down (ask "large") anyone to_large large_decided
      (an_error "StoreError" "down") (λ o. refl)

-- Only the large model is tried, and it times out.
abbrev capped : ModelRouter
capped = record router { max_attempts = some 1 }

abbrev late : FallbackAttempt
late = record { model_id = "large"; kind = auxifyai.Router.timeout; reason = "late" }

build_fallback_chain-IsChain_example :
    IsChain large models (ask "large") (build_fallback_chain large models (ask "large"))
build_fallback_chain-IsChain_example = build_fallback_chain-IsChain large models (ask "large")

select_nearest_tier-IsNearest_example :
    IsNearest 2 (select_nearest_tier ModelTier.premium mini (medium ∷ [])) (mini ∷ medium ∷ [])
select_nearest_tier-IsNearest_example =
    select_nearest_tier-IsNearest ModelTier.premium mini (medium ∷ [])

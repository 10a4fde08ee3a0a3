-- ===== src/Router.antt =====
-- The Model_Router: services/core/src/router, with packages/types/src/providers.ts. This file has
-- its data. Of a ChatRequest the fields that the router only passes through (temperature, maxTokens,
-- tools, metadata) are left out, and so are the human-readable reasons of decisions.
pub mod Permissions
pub mod AutoMode
pub mod Chain
pub mod Execution
use auxifyai.Prelude.{ℕ, ◌≡◌, Bool, true, false, String, Option, none, some, List, [], ◌∷◌, any}
use auxifyai.Identity.{ModelInfo, ModelTier, economy, standard, premium}
use auxifyai.Access.{AuthzDenialCode}

pub data ChatRole : Type 0 where
  system user assistant tool : ChatRole

pub record ImageInput : Type 0 where
  pub mime_type : String
  pub base64 : Option String
  pub url : Option String

pub data ChatContentPart : Type 0 where
  text : String → ChatContentPart
  image : ImageInput → ChatContentPart

-- `string | ChatContentPart[]`
pub data ChatContent : Type 0 where
  plain : String → ChatContent
  parts : List ChatContentPart → ChatContent

pub record ChatMessage : Type 0 where
  pub role : ChatRole
  pub content : ChatContent
  pub name : Option String

pub record ChatRequest : Type 0 where
  pub model_id : String
  pub messages : List ChatMessage
  pub system_prompt : Option String

pub record TokenUsage : Type 0 where
  pub input_tokens : ℕ
  pub output_tokens : ℕ

pub data ChatFinishReason : Type 0 where
  stop length tool_calls content_filter cancelled error : ChatFinishReason

pub record ChatChunk : Type 0 where
  pub delta : String
  pub done : Option Bool
  pub model : Option String
  pub usage : Option TokenUsage
  pub finish_reason : Option ChatFinishReason

pub data QueryClass : Type 0 where
  simple complex_reasoning code vision : QueryClass

pub data RouteMode : Type 0 where
  explicit auto : RouteMode

pub record RouteDecision : Type 0 where
  pub model : ModelInfo
  pub mode : RouteMode

pub data AttemptFailureKind : Type 0 where
  provider_error timeout : AttemptFailureKind

pub record FallbackAttempt : Type 0 where
  pub model_id : String
  pub kind : AttemptFailureKind
  pub reason : String

pub data NoEligibleModelCause : Type 0 where
  no_routable_model no_vision_capable_model : NoEligibleModelCause

-- What `route` throws.
pub data RouteError : Type 0 where
  model_not_found : String → RouteError
  model_not_authorized : String → Option AuthzDenialCode → RouteError
  no_eligible_model : NoEligibleModelCause → RouteError
  -- the injected query classifier rejected
  classifier_failed : RouteError
  provider_exhausted : List FallbackAttempt → RouteError

pub data Result (A : Type 0) : Type 0 where
  ok : A → Result A
  err : RouteError → Result A

infixl 5 ◌>>=◌
abbrev pub ◌>>=◌ : {A B : Type 0} → Result A → (A → Result B) → Result B
ok a >>= f = f a
err e >>= f = err e

-- `TIER_RANK`
abbrev pub tier_rank : ModelTier → ℕ
tier_rank economy = 0
tier_rank standard = 1
tier_rank premium = 2

abbrev pub is_image : ChatContentPart → Bool
is_image (text t) = false
is_image (image i) = true

abbrev pub has_image : ChatMessage → Bool
has_image m = elim m.content [ plain t ↦ false | parts ps ↦ any is_image ps ]

-- `requestHasImageInput`; the routing layer has its own copy, `hasImageInput`.
unfoldable pub request_has_image_input : ChatRequest → Bool
request_has_image_input req = any has_image req.messages

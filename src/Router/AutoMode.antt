-- ===== src/Router/AutoMode.antt =====
-- The Hybrid_Routing_Layer (hybrid-routing-layer.ts): the class of a query and the model for it.
pub mod Nearest
pub mod Selection
use Prim.Native.String.{◌++◌ as append}
use auxifyai.Prelude.{
  ℕ, ◌+◌, ◌-◌, ◌≡◌, refl, Bool, true, false, ◌&&◌, ◌||◌, String, Option, none, some, List, [], ◌∷◌,
  ◌++◌, if◌then◌else◌, ltb, leb, ◌==◌, length, filter, any,
}
use auxifyai.Identity.{ModelInfo, ModelTier, economy, standard, premium}
use auxifyai.Router.{
  ChatContentPart, ChatContent, ChatMessage, ChatRequest, text, image, plain, parts, QueryClass,
  simple, complex_reasoning, code, vision, RouteDecision, auto, Result, ok, err, ◌>>=◌,
  no_eligible_model, no_routable_model, no_vision_capable_model, classifier_failed, tier_rank,
  request_has_image_input,
}

-- The regular expressions of the source, as tests on the text: JavaScript's RegExp engine and its
-- text lengths in UTF-16 units are not modelled.
pub record TextTests : Type 0 where
  pub code_fence : String → Bool
  pub code_indicators : List (String → Bool)
  pub code_phrases : List (String → Bool)
  pub complexity_indicators : List (String → Bool)
  pub text_length : String → ℕ

-- The optional model-based classifier; its reply is `none` when it rejects.
abbrev pub QueryClassifier : Type 0
QueryClassifier = String → Option QueryClass

abbrev pub complexity_length_chars : ℕ
complexity_length_chars = 1500

abbrev pub text_parts : List ChatContentPart → List String
text_parts [] = []
text_parts (text t ∷ ps) = t ∷ text_parts ps
text_parts (image i ∷ ps) = text_parts ps

abbrev pub message_texts : ChatContent → List String
message_texts (plain t) = t ∷ []
message_texts (parts ps) = text_parts ps

abbrev pub all_texts : List ChatMessage → List String
all_texts [] = []
all_texts (m ∷ ms) = message_texts m.content ++ all_texts ms

-- `parts.join('\n')`
abbrev pub join_lines : List String → String
join_lines [] = ""
join_lines (t ∷ []) = t
join_lines (t ∷ u ∷ ts) = append t (append "\n" (join_lines (u ∷ ts)))

unfoldable pub extract_text : ChatRequest → String
extract_text req =
    join_lines (elim req.system_prompt [
      | none ↦ all_texts req.messages
      | some s ↦ s ∷ all_texts req.messages
    ])

unfoldable pub heuristic_class : TextTests → String → QueryClass
heuristic_class t s =
    if any (λ re. re s) t.code_phrases || leb 2 (length (filter (λ re. re s) t.code_indicators))
    then code
    else if any (λ re. re s) t.complexity_indicators
        || leb complexity_length_chars (t.text_length s)
    then complex_reasoning
    else simple

-- A `vision` reply of the classifier is coerced away.
abbrev pub not_vision : QueryClass → QueryClass
not_vision vision = simple
not_vision k = k

abbrev pub default_class : Option QueryClassifier → String → Result QueryClass
default_class none s = ok simple
default_class (some f) s = elim (f s) [ none ↦ err classifier_failed | some k ↦ ok (not_vision k) ]

unfoldable pub classify : TextTests → Option QueryClassifier → ChatRequest → Result QueryClass
unfolding request_has_image_input
classify t f req =
    let s = extract_text req in
    if request_has_image_input req
    then ok vision
    else if t.code_fence s
    then ok code
    else elim (heuristic_class t s) [ simple ↦ default_class f s | k ↦ ok k ]

-- `Math.abs(a - b)`
abbrev pub distance : ℕ → ℕ → ℕ
distance a b = (a - b) + (b - a)

-- The loop of `selectNearestTier`, with its three variables.
unfoldable pub nearest_loop : ℕ → ModelInfo → ℕ → ℕ → List ModelInfo → ModelInfo
nearest_loop desired best best_distance best_rank [] = best
nearest_loop desired best best_distance best_rank (c ∷ cs) =
    let rank = tier_rank c.tier in
    let d = distance rank desired in
    let move = nearest_loop desired c d rank cs in
    let stay = nearest_loop desired best best_distance best_rank cs in
    if ltb d best_distance || (d == best_distance && ltb rank best_rank) then move else stay

unfoldable pub select_nearest_tier : ModelTier → ModelInfo → List ModelInfo → ModelInfo
unfolding nearest_loop
select_nearest_tier desired first rest =
    let rank = tier_rank first.tier in
    nearest_loop (tier_rank desired) first (distance rank (tier_rank desired)) rank rest

-- `allowed.find((model) => model.supportsVision)`
unfoldable pub find_vision : List ModelInfo → Option ModelInfo
find_vision [] = none
find_vision (m ∷ ms) = if m.supports_vision then some m else find_vision ms

-- `TIER_FOR_QUERY_CLASS`, which has no entry for `vision`.
abbrev pub tier_for_query_class : QueryClass → ModelTier
tier_for_query_class complex_reasoning = premium
tier_for_query_class code = standard
tier_for_query_class _ = economy

unfoldable pub select_model : QueryClass → List ModelInfo → Result ModelInfo
select_model k [] = err (no_eligible_model no_routable_model)
select_model vision (m ∷ ms) = elim (find_vision (m ∷ ms)) [
  | none ↦ err (no_eligible_model no_vision_capable_model)
  | some v ↦ ok v
]
select_model k (m ∷ ms) = ok (select_nearest_tier (tier_for_query_class k) m ms)

unfoldable pub auto_select :
    TextTests → Option QueryClassifier → ChatRequest → List ModelInfo → Result RouteDecision
auto_select t f req allowed = do
  k ← classify t f req
  m ← select_model k allowed
  ok (record { model = m; mode = auto })

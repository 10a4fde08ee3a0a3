-- ===== src/Registry.antt =====
-- The model registry: services/core/src/providers/types.ts, model-registry.ts. The catalog is a list
-- from id to model in the order of loading. A configuration is read from a file, so what its types
-- promise is not so before it is checked: a text that is not a tier or modality, and a number that is
-- negative or not finite, are values here. The checks that a value is an object, an array or a text are
-- left out.
pub mod Loading
pub mod Providers
pub mod Validity
pub mod Availability
use auxifyai.Prelude.{
  ℕ, suc, ◌+◌, ◌⊎◌, inl, inr, Bool, true, false, not, ◌&&◌, ◌||◌, String, Option, none, some, List,
  [], ◌∷◌, map, length, if◌then◌else◌, str_eq, contains, ltb, get_or_else, is_some, ◌==◌,
}
use auxifyai.Prelude.Maps.{lookup, put}
use auxifyai.Identity.{ModelInfo, ModelTier, ModelModality, ModelCost, chat, economy}
use auxifyai.Router.Permissions.{ModelCatalog}

-- Of a ProviderConfig the registry reads the id.
pub record ProviderConfig : Type 0 where
  pub id : String

-- A number of a configuration.
pub data ConfigNumber : Type 0 where
  number : ℕ → ConfigNumber
  negative not_finite : ConfigNumber

pub record CostConfig : Type 0 where
  pub per_1k_input_tokens : ConfigNumber
  pub per_1k_output_tokens : ConfigNumber

-- The modality and the tier are `none` where they are none of the valid ones, and the cost where it is
-- undefined.
pub record ModelConfig : Type 0 where
  pub id : String
  pub provider : String
  pub provider_model_id : String
  pub display_name : String
  pub modality : Option ModelModality
  pub tier : Option ModelTier
  pub max_tokens : ConfigNumber
  pub supports_vision : Bool
  pub supports_tools : Bool
  pub supports_reasoning : Bool
  pub cost : Option CostConfig
  pub available : Option Bool

pub record RegistryConfig : Type 0 where
  pub providers : Option (List ProviderConfig)
  pub models : List ModelConfig

-- What an InvalidRegistryConfigError names.
pub data ConfigProblem : Type 0 where
  empty_model_id empty_provider empty_provider_model_id : ℕ → ConfigProblem
  invalid_modality invalid_tier no_max_tokens no_cost : ℕ → ConfigProblem
  empty_provider_id : ConfigProblem
  duplicate_provider_id duplicate_model_id : String → ConfigProblem
  undeclared_provider : String → String → ConfigProblem

abbrev pub Registry : Type 0
Registry = List (String × ModelInfo)

abbrev pub amount : ConfigNumber → ℕ
amount (number n) = n
amount negative = 0
amount not_finite = 0

abbrev pub cost_of : Option CostConfig → ModelCost
cost_of none = record { per_1k_input_tokens = 0; per_1k_output_tokens = 0 }
cost_of (some c) = record {
  per_1k_input_tokens = amount c.per_1k_input_tokens;
  per_1k_output_tokens = amount c.per_1k_output_tokens;
}

-- It copies the fields of an entry that has been checked; the values that stand for others here are
-- never reached.
unfoldable pub to_model_info : ModelConfig → ModelInfo
to_model_info c = record {
  id = c.id;
  provider = c.provider;
  provider_model_id = c.provider_model_id;
  display_name = c.display_name;
  modality = get_or_else c.modality chat;
  tier = get_or_else c.tier economy;
  max_tokens = amount c.max_tokens;
  supports_vision = c.supports_vision;
  supports_tools = c.supports_tools;
  supports_reasoning = c.supports_reasoning;
  cost = cost_of c.cost;
  available = get_or_else c.available true;
}

-- `Number.isFinite(n) && n > 0`, and `Number.isFinite(n) && n >= 0`
abbrev pub is_positive : ConfigNumber → Bool
is_positive (number n) = ltb 0 n
is_positive negative = false
is_positive not_finite = false

abbrev pub is_non_negative : ConfigNumber → Bool
is_non_negative (number n) = true
is_non_negative negative = false
is_non_negative not_finite = false

abbrev pub valid_cost : Option CostConfig → Bool
valid_cost none = false
valid_cost (some c) =
    is_non_negative c.per_1k_input_tokens && is_non_negative c.per_1k_output_tokens

unfoldable pub validate_model_config : ModelConfig → ℕ → Option ConfigProblem
validate_model_config m index =
    if str_eq m.id ""
    then some (empty_model_id index)
    else if str_eq m.provider ""
    then some (empty_provider index)
    else if str_eq m.provider_model_id ""
    then some (empty_provider_model_id index)
    else if not (is_some m.modality)
    then some (invalid_modality index)
    else if not (is_some m.tier)
    then some (invalid_tier index)
    else if not (is_positive m.max_tokens)
    then some (no_max_tokens index)
    else if not (valid_cost m.cost)
    then some (no_cost index)
    else none

-- The loop over the providers; `declared` has the ids so far.
unfoldable pub declare_providers : List String → List ProviderConfig → ConfigProblem ⊎ List String
declare_providers declared [] = inr declared
declare_providers declared (p ∷ ps) =
    let rest = declare_providers (p.id ∷ declared) ps in
    if str_eq p.id ""
    then inl empty_provider_id
    else if contains declared p.id
    then inl (duplicate_provider_id p.id)
    else rest

-- The loop over the models; `staged` is the staging map.
unfoldable pub stage_models :
    List String → ℕ → Registry → List ModelConfig → ConfigProblem ⊎ Registry
stage_models declared index staged [] = inr staged
stage_models declared index staged (m ∷ ms) = elim (validate_model_config m index) [
  | some e ↦ inl e
  | none ↦
      let rest = stage_models declared (suc index) (put m.id (to_model_info m) staged) ms in
      if is_some (lookup m.id staged)
      then inl (duplicate_model_id m.id)
      else if ltb 0 (length declared) && not (contains declared m.provider)
      then inl (undeclared_provider m.id m.provider)
      else rest
]

abbrev pub declared_of : Option (List ProviderConfig) → ConfigProblem ⊎ List String
declared_of none = inr []
declared_of (some ps) = declare_providers [] ps

-- `load`: what it throws, and the catalog after it.
unfoldable pub load : RegistryConfig → Registry → Option ConfigProblem × Registry
load c models = elim (declared_of c.providers) [
  | inl e ↦ (some e, models)
  | inr declared ↦ elim (stage_models declared 0 [] c.models) [
    | inl e ↦ (some e, models)
    | inr staged ↦ (none, staged)
  ]
]

-- `get`, `none` where it throws ModelNotFoundError.
abbrev pub get : Registry → String → Option ModelInfo
get models id = lookup id models

abbrev pub list : Registry → List ModelInfo
list = map (λ e. e.1)

-- `markAvailable` and `markUnavailable`, `none` where they throw.
unfoldable pub set_availability : String → Bool → Registry → Option Registry
set_availability id available models = elim (lookup id models) [
  | none ↦ none
  | some info ↦ some (put id (record info { available = available }) models)
]

-- The registry is the catalog of the router.
abbrev pub catalog_of : Registry → ModelCatalog
catalog_of models = record { list = list models; get = get models }

-- ===== src/Examples/Catalog.antt =====
-- The model registry at concrete inputs.
use auxifyai.Prelude.{
  ◌≢◌, arith, eq_iff, ◌≡◌, refl, ◌⊎◌, inl, inr, true, false, String, Option, none, some, List, [],
  ◌∷◌, map, All, str_eq,
}
use auxifyai.Identity.{ModelTier, ModelModality}
use auxifyai.Registry.{
  ModelConfig, RegistryConfig, ConfigProblem, duplicate_model_id, undeclared_provider, number,
  Registry, load, list, to_model_info, set_availability, catalog_of,
}
use auxifyai.Registry.Availability.{WellKeyed, set_availability-routable}
use auxifyai.Registry.Validity.{ValidModel, ValidModels, load-iff-ValidModels}
use auxifyai.Registry.Loading.{load-Loaded}
use auxifyai.Router.Permissions.{permitted_models}
use auxifyai.Examples.{bob, mini, large}

abbrev config_of : String → ModelConfig
config_of id = record {
  id = id;
  provider = "azure";
  provider_model_id = id;
  display_name = id;
  modality = some ModelModality.chat;
  tier = some ModelTier.economy;
  max_tokens = number 1000;
  supports_vision = false;
  supports_tools = false;
  supports_reasoning = false;
  cost = some (record { per_1k_input_tokens = number 1; per_1k_output_tokens = number 2 });
  available = none;
}

abbrev config : RegistryConfig
config = record {
  providers = some (record { id = "azure" } ∷ []);
  models = config_of "a" ∷ config_of "b" ∷ [];
}

abbrev models : Registry
models = ("mini", mini) ∷ ("large", large) ∷ []

abbrev after : Registry
after = ("mini", record mini { available = false }) ∷ ("large", large) ∷ []

models-WellKeyed : WellKeyed models
models-WellKeyed = (refl, (refl, tt), (refl, tt, tt))

marked : set_availability "mini" false models ≡ some after
unfolding set_availability auxifyai.Prelude.Maps.lookup auxifyai.Prelude.Maps.put
marked = refl

twice_refused :
    (load (record { providers = none; models = config_of "a" ∷ config_of "a" ∷ [] }) models).0
    ≡ some (duplicate_model_id "a")
unfolding load auxifyai.Registry.stage_models auxifyai.Registry.validate_model_config
    auxifyai.Prelude.Maps.lookup auxifyai.Prelude.Maps.put
twice_refused = refl

undeclared_refused :
    (load
      (record { providers = some (record { id = "other" } ∷ []); models = config_of "a" ∷ [] })
      models).0
    ≡ some (undeclared_provider "a" "azure")
unfolding load auxifyai.Registry.stage_models auxifyai.Registry.validate_model_config
    auxifyai.Registry.declare_providers auxifyai.Prelude.Maps.lookup auxifyai.Prelude.Maps.put
undeclared_refused = refl

config-ValidModels : ValidModels ("azure" ∷ []) [] config.models
config-ValidModels = (
  valid "a" (λ e. ground (arith, (eq_iff "a" "").1 e)),
  (λ k. k),
  inr (inl refl),
  (
    valid "b" (λ e. ground (arith, (eq_iff "b" "").1 e)),
    (λ k. elim k [ inl e ↦ ground (arith, (eq_iff "b" "a").1 e) | inr n ↦ n ]),
    inr (inl refl),
    tt,
  ),
)
  where
    valid : (id : String) → id ≢ "" → ValidModel (config_of id)
    valid id h = record {
      named = h;
      served = λ e. ground (arith, (eq_iff "azure" "").1 e);
      deployed = h;
      of_modality = λ e. ground arith;
      of_tier = λ e. ground arith;
      bounded = (1000, refl, omega arith);
      priced = (
        record { per_1k_input_tokens = number 1; per_1k_output_tokens = number 2 },
        1,
        2,
        refl,
        refl,
        refl,
      );
    }

load-Loaded_example :
    ((load config models).0 ≡ none
      × (list (load config models).1 ≡ map to_model_info config.models)
      × WellKeyed (load config models).1)
    ⊎ ((problem : ConfigProblem) × ((load config models).0 ≡ some problem)
        × ((load config models).1 ≡ models))
load-Loaded_example = load-Loaded config models

set_availability-routable_example :
    All (λ m. str_eq "mini" m.id ≡ false) (permitted_models (catalog_of after) bob).routable
set_availability-routable_example =
    set_availability-routable "mini" models after bob models-WellKeyed marked

load-iff-ValidModels_example : (load config models).0 ≡ none
load-iff-ValidModels_example =
    (load-iff-ValidModels config models).1
      (((λ e. ground (arith, (eq_iff "azure" "").1 e)), (λ k. k), tt), config-ValidModels)

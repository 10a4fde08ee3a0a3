-- ===== src/Examples.antt =====
-- Tests, and the theorems at concrete inputs. This file has the shared data.
pub mod Guards
pub mod Routing
pub mod Workflows
pub mod Gateway
pub mod Catalog
pub mod Agents
pub mod Schedules
pub mod Budgets
pub mod Devices
pub mod Caches
use auxifyai.Prelude.{true, false, none, some, [], ◌∷◌, List, String, Option, Bool}
use auxifyai.Identity.{
  Principal, ResourceRef, ResourceType, Role, Action, ModelInfo, ModelTier, ModelModality,
  ModelCost,
}
use auxifyai.Policy.{Policy, AllowListEntry, OrAny, every, exactly, PolicyScope, PolicyEffect}

abbrev pub alice : Principal
alice = record {
  user_id = "alice";
  organization_id = "acme";
  roles = Role.viewer ∷ Role.standard_user ∷ [];
  team_ids = "core" ∷ [];
  project_ids = [];
  allowed_models = "mini" ∷ "large" ∷ [];
  premium_authorized = false;
  email = none;
  session_id = none;
}

-- Like alice, but no viewer, and with Premium authorization.
abbrev pub bob : Principal
bob = record alice { user_id = "bob"; roles = Role.power_user ∷ []; premium_authorized = true }

abbrev pub shared_chat : ResourceRef
shared_chat = record {
  type = ResourceType.conversation;
  id = "c1";
  organization_id = "acme";
  team_id = some "core";
  project_id = none;
}

abbrev pub foreign_chat : ResourceRef
foreign_chat = record shared_chat { organization_id = "globex" }

abbrev pub model_of : String → ModelTier → Bool → ModelInfo
model_of id tier vision = record {
  id = id;
  provider = "azure";
  provider_model_id = id;
  display_name = id;
  modality = ModelModality.chat;
  tier = tier;
  max_tokens = 128000;
  supports_vision = vision;
  supports_tools = true;
  supports_reasoning = false;
  cost = record { per_1k_input_tokens = 2; per_1k_output_tokens = 6 };
  available = true;
}

abbrev pub mini : ModelInfo
mini = model_of "mini" ModelTier.economy true

abbrev pub large : ModelInfo
large = model_of "large" ModelTier.premium false

abbrev pub entry : OrAny Action → Option PolicyEffect → AllowListEntry
entry a e = record { action = a; resource_type = exactly ResourceType.conversation; effect = e }

abbrev pub policy_of : PolicyScope → String → List AllowListEntry → Policy
policy_of s i es = record {
  id = i;
  organization_id = "acme";
  scope = s;
  scope_id = i;
  allow_list = es;
}

-- The team lets its members do anything with conversations; the user's policy forbids deleting.
abbrev pub team_policy : Policy
team_policy = policy_of PolicyScope.team "core" (entry every none ∷ [])

abbrev pub user_policy : Policy
user_policy =
    policy_of PolicyScope.user "alice" (entry (exactly Action.delete) (some PolicyEffect.deny) ∷ [])

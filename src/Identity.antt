-- ===== src/Identity.antt =====
-- The shared identity and model types: packages/types/src/identity.ts and models.ts. Ids are texts.
-- A model's costs are counted in whole units of a fixed small fraction of the accounting currency.
use auxifyai.Prelude.{
  ℕ, ◌≡◌, ◌↔◌, Bool, true, false, String, Option, none, some, List, decide, decide_iff,
}

pub data Role : Type 0 where
  super_admin admin power_user standard_user viewer : Role

pub data ResourceType : Type 0 where
  organization team project user membership policy conversation message persona : ResourceType
  prompt_template artifact file knowledge_collection knowledge_source : ResourceType
  knowledge_document knowledge_chunk knowledge_page channel channel_message : ResourceType
  document agent agent_run workflow usage_record api_key audit_log model : ResourceType

pub data Action : Type 0 where
  create read list update delete share export execute invoke approve manage : Action

pub record ResourceRef : Type 0 where
  pub type : ResourceType
  pub id : String
  pub organization_id : String
  pub team_id : Option String
  pub project_id : Option String

pub record Principal : Type 0 where
  pub user_id : String
  pub organization_id : String
  pub roles : List Role
  pub team_ids : List String
  pub project_ids : List String
  pub allowed_models : List String
  pub premium_authorized : Bool
  pub email : Option String
  pub session_id : Option String

pub record TenantContext : Type 0 where
  pub organization_id : String
  pub user_id : String
  pub team_id : Option String
  pub project_id : Option String

-- The optional `scope` argument; `none` for a field that is left out.
pub record ContextScope : Type 0 where
  pub team_id : Option String
  pub project_id : Option String

unfoldable pub tenant_context_from_principal : Principal → Option ContextScope → TenantContext
tenant_context_from_principal p none = record {
  organization_id = p.organization_id;
  user_id = p.user_id;
  team_id = none;
  project_id = none;
}
tenant_context_from_principal p (some s) = record {
  organization_id = p.organization_id;
  user_id = p.user_id;
  team_id = s.team_id;
  project_id = s.project_id;
}

pub data ModelTier : Type 0 where
  economy standard premium : ModelTier

pub data ModelModality : Type 0 where
  chat reasoning realtime image embedding : ModelModality

-- Comparisons with one literal, as the code writes them.
abbrev pub is_viewer_role : Role → Bool
is_viewer_role viewer = true
is_viewer_role _ = false

abbrev pub is_economy : ModelTier → Bool
is_economy economy = true
is_economy _ = false

abbrev pub is_premium : ModelTier → Bool
is_premium premium = true
is_premium _ = false

pub record ModelCost : Type 0 where
  pub per_1k_input_tokens : ℕ
  pub per_1k_output_tokens : ℕ

pub record ModelInfo : Type 0 where
  pub id : String
  pub provider : String
  pub provider_model_id : String
  pub display_name : String
  pub modality : ModelModality
  pub tier : ModelTier
  pub max_tokens : ℕ
  pub supports_vision : Bool
  pub supports_tools : Bool
  pub supports_reasoning : Bool
  pub cost : ModelCost
  pub available : Bool

pub Action-discrete : Discrete Action
Action-discrete = hlevel

pub ResourceType-discrete : Discrete ResourceType
ResourceType-discrete = hlevel

-- `===` on the literal unions.
unfoldable pub same_action : Action → Action → Bool
unfolding decide Action-discrete
same_action a b = decide (Action-discrete a b)

unfoldable pub same_type : ResourceType → ResourceType → Bool
unfolding decide ResourceType-discrete
same_type a b = decide (ResourceType-discrete a b)

pub same_action_iff : (a b : Action) → (same_action a b ≡ true) ↔ (a ≡ b)
unfolding same_action
same_action_iff a b = decide_iff (Action-discrete a b)

pub same_type_iff : (a b : ResourceType) → (same_type a b ≡ true) ↔ (a ≡ b)
unfolding same_type
same_type_iff a b = decide_iff (ResourceType-discrete a b)

-- ===== src/Access.antt =====
-- Access_Control: services/core/src/access (types.ts, model-access.ts, access-control.ts). The
-- Policy_Engine and the Audit_Service are the two ports of the class; either may reject. A call
-- gives its decision (`none` when the promise rejects) and the audit events it stored. The reason
-- texts are left out.
pub mod Models
pub mod Conditions
pub mod Stages
pub mod Audit
pub mod Tenancy
use auxifyai.Prelude.{
  ◌≡◌, ◌⊎◌, inl, inr, Bool, true, false, not, ◌&&◌, ◌||◌, String, Option, none, some, List, [], ◌∷◌,
  length, if◌then◌else◌, str_eq, contains, any, ltb,
}
use auxifyai.Identity.{
  Role, Action, ResourceType, ResourceRef, Principal, TenantContext, tenant_context_from_principal,
  ModelInfo, ModelTier, is_viewer_role, is_economy, is_premium, same_type,
}
use auxifyai.Policy.{PolicyDecision}

pub record AuthorizeOptions : Type 0 where
  pub model : Option ModelInfo
  pub shared : Option Bool
  pub ip : Option String
  pub user_agent : Option String

pub data AuthzDenialCode : Type 0 where
  cross_tenant policy_denied viewer_resource_restricted : AuthzDenialCode
  viewer_model_restricted premium_unauthorized model_not_allowed : AuthzDenialCode

pub record AuthzDecision : Type 0 where
  pub allowed : Bool
  pub denial_code : Option AuthzDenialCode
  pub policy_decision : Option PolicyDecision

pub record ModelAccessResult : Type 0 where
  pub allowed : Bool
  pub denial_code : Option AuthzDenialCode

abbrev pub permit_model : ModelAccessResult
permit_model = record { allowed = true; denial_code = none }

abbrev pub refuse_model : AuthzDenialCode → ModelAccessResult
refuse_model code = record { allowed = false; denial_code = some code }

-- `principal.roles.includes('viewer')`
unfoldable pub is_viewer : Principal → Bool
is_viewer p = any is_viewer_role p.roles

unfoldable pub check_model_access : Principal → ModelInfo → ModelAccessResult
check_model_access p m =
    if is_viewer p && not (is_economy m.tier)
    then refuse_model AuthzDenialCode.viewer_model_restricted
    else if is_premium m.tier && not p.premium_authorized
    then refuse_model AuthzDenialCode.premium_unauthorized
    else if ltb 0 (length p.allowed_models) && not (contains p.allowed_models m.id)
    then refuse_model AuthzDenialCode.model_not_allowed
    else permit_model

-- `VIEWER_READ_ONLY_ACTIONS`
abbrev pub viewer_read_only : Action → Bool
viewer_read_only Action.read = true
viewer_read_only Action.list = true
viewer_read_only _ = false

-- `VIEWER_SHAREABLE_RESOURCE_TYPES`
unfoldable pub viewer_shareable : ResourceType → Bool
viewer_shareable t =
    same_type t ResourceType.conversation || same_type t ResourceType.prompt_template

abbrev pub deny : AuthzDenialCode → AuthzDecision
deny code = record { allowed = false; denial_code = some code; policy_decision = none }

-- A scope id that the resource does not have is no restriction.
abbrev pub outside : Option String → List String → Bool
outside none ids = false
outside (some i) ids = not (contains ids i)

unfoldable pub check_membership : Principal → ResourceRef → Option AuthzDecision
check_membership p r =
    if not (str_eq r.organization_id p.organization_id)
    then some (deny AuthzDenialCode.cross_tenant)
    else if outside r.team_id p.team_ids
    then some (deny AuthzDenialCode.cross_tenant)
    else if outside r.project_id p.project_ids
    then some (deny AuthzDenialCode.cross_tenant)
    else none

-- `options.shared === true`
abbrev pub is_shared : AuthorizeOptions → Bool
is_shared o = elim o.shared [ some true ↦ true | some false ↦ false | none ↦ false ]

unfoldable pub check_viewer_resource :
    Principal → ResourceRef → Action → AuthorizeOptions → Option AuthzDecision
check_viewer_resource p r a o =
    if not (is_viewer p)
    then none
    else if not (viewer_read_only a)
    then some (deny AuthzDenialCode.viewer_resource_restricted)
    else if viewer_shareable r.type && not (is_shared o)
    then some (deny AuthzDenialCode.viewer_resource_restricted)
    else none

-- An `access.denied` event.
pub record AccessDenied : Type 0 where
  pub resource_type : ResourceType
  pub resource_id : String
  pub actor_id : String
  pub ip : Option String
  pub user_agent : Option String
  pub attempted_action : Action
  pub denial_code : Option AuthzDenialCode
  pub resource_organization_id : String
  pub resource_team_id : Option String
  pub resource_project_id : Option String

pub record AccessPorts : Type 0 where
  -- `PolicyResolver.resolve`; `none` when it rejects.
  pub resolve : Principal → ResourceRef → Action → Option PolicyDecision
  -- `AuditRecorder.record`: whether the event was stored; it rejects otherwise.
  pub stores : TenantContext → AccessDenied → Bool

abbrev pub Outcome : Type 0
Outcome = Option AuthzDecision × List (TenantContext × AccessDenied)

abbrev pub denial_event :
    Principal → ResourceRef → Action → AuthzDecision → AuthorizeOptions → AccessDenied
denial_event p r a d o = record {
  resource_type = r.type;
  resource_id = r.id;
  actor_id = p.user_id;
  ip = o.ip;
  user_agent = o.user_agent;
  attempted_action = a;
  denial_code = d.denial_code;
  resource_organization_id = r.organization_id;
  resource_team_id = r.team_id;
  resource_project_id = r.project_id;
}

-- Records the denial and returns the decision unchanged.
unfoldable pub denied :
    AccessPorts → Principal → ResourceRef → Action → AuthzDecision → AuthorizeOptions → Outcome
denied ports p r a d o =
    let ctx = tenant_context_from_principal p none in
    let event = denial_event p r a d o in
    if ports.stores ctx event then (some d, (ctx, event) ∷ []) else (none, [])

-- Stage 4, for a request that names a model.
abbrev pub check_model : Principal → Option ModelInfo → Option AuthzDecision
check_model p none = none
check_model p (some m) =
    let result = check_model_access p m in
    if result.allowed
    then none
    else some (record { allowed = false; denial_code = result.denial_code; policy_decision = none })

unfoldable pub authorize :
    AccessPorts → Principal → ResourceRef → Action → AuthorizeOptions → Outcome
authorize ports p r a o = elim (check_membership p r) [
  | some d ↦ denied ports p r a d o
  | none ↦ elim (ports.resolve p r a) [
    | none ↦ (none, [])
    | some policy ↦
        if not policy.allowed
        then denied ports p r a
            (record {
              allowed = false;
              denial_code = some AuthzDenialCode.policy_denied;
              policy_decision = some policy;
            })
            o
        else elim (check_viewer_resource p r a o) [
          | some d ↦ denied ports p r a d o
          | none ↦ elim (check_model p o.model) [
            | some d ↦ denied ports p r a d o
            | none ↦ (
              some (record { allowed = true; denial_code = none; policy_decision = some policy }),
              [],
            )
          ]
        ]
  ]
]

pub data Thrown : Type 0 where
  -- a port rejected
  port_failed : Thrown
  access_denied : AuthzDecision → Thrown

-- `authorizeOrThrow`: the allow decision, or what is thrown.
unfoldable pub authorize_or_throw :
    AccessPorts
    → Principal
    → ResourceRef
    → Action
    → AuthorizeOptions
    → (Thrown ⊎ AuthzDecision) × List (TenantContext × AccessDenied)
authorize_or_throw ports p r a o =
    let (result, events) = authorize ports p r a o in
    elim result [
      | none ↦ (inl port_failed, events)
      | some d ↦ (if not d.allowed then inl (access_denied d) else inr d, events)
    ]

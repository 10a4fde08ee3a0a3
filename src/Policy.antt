-- ===== src/Policy.antt =====
-- The Policy_Engine: services/core/src/policy (types.ts, policy-engine.ts, policy-repository.ts).
-- The reads of the repository are in Policy/Repository. The reason texts of a decision are left out.
pub mod Scope
pub mod Grants
pub mod Repository
pub mod Resolution
use auxifyai.Prelude.{
  ◌≡◌, Bool, true, false, ◌&&◌, ◌||◌, String, Option, none, some, List, [], ◌∷◌, get_or_else,
}
use auxifyai.Identity.{
  Action, ResourceType, ResourceRef, Principal, TenantContext, tenant_context_from_principal,
  same_action, same_type,
}

pub data PolicyScope : Type 0 where
  org team user : PolicyScope

pub data PolicyEffect : Type 0 where
  allow deny : PolicyEffect

-- A literal of `A`, or the wildcard '*'.
pub data OrAny (A : Type 0) : Type 0 where
  every : OrAny A
  exactly : A → OrAny A

pub record AllowListEntry : Type 0 where
  pub action : OrAny Action
  pub resource_type : OrAny ResourceType
  pub effect : Option PolicyEffect

pub record Policy : Type 0 where
  pub id : String
  pub organization_id : String
  pub scope : PolicyScope
  pub scope_id : String
  pub allow_list : List AllowListEntry

pub record PolicyDecision : Type 0 where
  pub allowed : Bool
  pub deciding_scope : Option PolicyScope

pub record PoliciesByScope : Type 0 where
  pub org : List Policy
  pub team : List Policy
  pub user : List Policy

unfoldable pub action_matches : OrAny Action → Action → Bool
action_matches every a = true
action_matches (exactly b) a = same_action b a

unfoldable pub resource_matches : OrAny ResourceType → ResourceType → Bool
resource_matches every r = true
resource_matches (exactly s) r = same_type s r

unfoldable pub entry_matches : AllowListEntry → Action → ResourceType → Bool
unfolding action_matches resource_matches
entry_matches e a r = action_matches e.action a && resource_matches e.resource_type r

-- `entry.effect ?? 'allow'`
abbrev pub effect_of : AllowListEntry → PolicyEffect
effect_of e = get_or_else e.effect allow

-- The inner loop of `decideScope`: `none` when it returns 'deny', else the new `sawAllow`.
unfoldable pub scan_entries : Action → ResourceType → List AllowListEntry → Bool → Option Bool
scan_entries a r [] saw_allow = some saw_allow
scan_entries a r (e ∷ es) saw_allow = elim (entry_matches e a r) [
  | false ↦ scan_entries a r es saw_allow
  | true ↦ elim (effect_of e) [ deny ↦ none | allow ↦ scan_entries a r es true ]
]

unfoldable pub scan_policies : Action → ResourceType → List Policy → Bool → Option Bool
scan_policies a r [] saw_allow = some saw_allow
scan_policies a r (p ∷ ps) saw_allow = elim (scan_entries a r p.allow_list saw_allow) [
  | none ↦ none
  | some saw ↦ scan_policies a r ps saw
]

unfoldable pub decide_scope : List Policy → Action → ResourceType → Option PolicyEffect
decide_scope policies a r = elim (scan_policies a r policies false) [
  | none ↦ some deny
  | some true ↦ some allow
  | some false ↦ none
]

-- `POLICY_SCOPE_PRECEDENCE`
abbrev pub policy_scope_precedence : List PolicyScope
policy_scope_precedence = org ∷ team ∷ user ∷ []

abbrev pub at_scope : PoliciesByScope → PolicyScope → List Policy
at_scope ps org = ps.org
at_scope ps team = ps.team
at_scope ps user = ps.user

-- The loop of `decidePolicy` over the scopes that are left.
unfoldable pub decide_from :
    List PolicyScope → PoliciesByScope → Action → ResourceType → PolicyDecision
decide_from [] ps a r = record { allowed = false; deciding_scope = none }
decide_from (s ∷ rest) ps a r = elim (decide_scope (at_scope ps s) a r) [
  | none ↦ decide_from rest ps a r
  | some allow ↦ record { allowed = true; deciding_scope = some s }
  | some deny ↦ record { allowed = false; deciding_scope = some s }
]

unfoldable pub decide_policy : PoliciesByScope → Action → ResourceType → PolicyDecision
unfolding decide_from
decide_policy = decide_from policy_scope_precedence

-- The scope ids of a principal at each level (`scopeIdsForPrincipal`).
abbrev pub scope_ids : Principal → PolicyScope → List String
scope_ids p org = p.organization_id ∷ []
scope_ids p team = p.team_ids
scope_ids p user = p.user_id ∷ []

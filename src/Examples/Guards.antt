-- ===== src/Examples/Guards.antt =====
-- The Policy_Engine, Access_Control and the Billing_Guard at concrete inputs.
use auxifyai.Prelude.{
  ◌≡◌, refl, inl, inr, true, false, none, some, [], ◌∷◌, String, Bool, arith, if◌then◌else◌, str_eq,
  eq_iff, subst, filter, all, All, All-map, All-filter, List,
}
use auxifyai.Identity.{
  ResourceType, Action, TenantContext, tenant_context_from_principal, same_type,
}
use auxifyai.Policy.{
  team, allow, Policy, decide_scope, decide_policy, decide_from, scan_policies, scan_entries,
  entry_matches,
}
use auxifyai.Policy.Scope.{decide_scope-iff-Decides}
use auxifyai.Policy.Grants.{at_team, decide_policy-iff-Granted}
use auxifyai.Policy.Repository.{
  Predicate, SqlQuery, resolve, applicable, find_by_scope, select_rows, build_where, valid_context,
}
use auxifyai.Policy.Resolution.{Satisfies, RunsWhere, holds, Grant}
use auxifyai.Access.{
  AuthorizeOptions, AccessPorts, AccessDenied, AuthzDenialCode, authorize, check_model_access,
  denial_event,
}
use auxifyai.Access
use auxifyai.Access.Stages.{MayAccess, Grants, authorize-iff-MayAccess}
use auxifyai.Access.Conditions.{Member}
use auxifyai.Access.Audit
use auxifyai.Access.Tenancy.{engine_ports, authorize-Grant}
use auxifyai.Billing.{
  BillableDependency, BillingComplianceStatus, BillingPorts, BillingDenialCode, StatusReply,
  resolved, verify, decide_billing, VerifyOptions, DependencyCategory, CreditProvider,
}
use auxifyai.Billing
use auxifyai.Billing.Governance.{
  Adopts, BlockedFor, decide_billing-iff-BlockedFor, verify-iff-Compliant,
}
use auxifyai.Billing.Governance
use auxifyai.Examples.{alice, shared_chat, foreign_chat, mini, team_policy, user_policy}

decide_scope-iff-Decides_example :
    decide_scope (team_policy ∷ []) Action.read ResourceType.conversation ≡ some allow
decide_scope-iff-Decides_example =
    (decide_scope-iff-Decides (team_policy ∷ []) Action.read ResourceType.conversation
        (some allow)).1
      (inl (inl refl, inr refl), ((λ m. refl), tt))

-- The user's denial of the deletion comes too late: the team has decided.
decide_policy-iff-Granted_example :
    (decide_policy
      (record { org = []; team = team_policy ∷ []; user = user_policy ∷ [] })
      Action.delete
      ResourceType.conversation).allowed
    ≡ true
decide_policy-iff-Granted_example =
    (decide_policy-iff-Granted
        (record { org = []; team = team_policy ∷ []; user = user_policy ∷ [] }) Action.delete
        ResourceType.conversation).1
      (at_team tt (inl (inl refl, inr refl), ((λ m. refl), tt)))

-- A database with the one team policy.
abbrev database : SqlQuery
database conditions = some (filter (λ row. all (holds row) conditions) (team_policy ∷ []))

all-Satisfies :
    (conditions : List Predicate) (row : Policy)
    → all (holds row) conditions ≡ true
    → Satisfies conditions row
all-Satisfies [] row h = tt
all-Satisfies (c ∷ cs) row h = (ground arith, all-Satisfies cs row (ground arith))

database-RunsWhere : RunsWhere database
database-RunsWhere conditions rows e =
    let kept = All-filter (λ row. all (holds row) conditions) (team_policy ∷ []) in
    let q : filter (λ row. all (holds row) conditions) (team_policy ∷ []) ≡ rows = ground arith in
    subst (All (Satisfies conditions)) q (All-map _ _ (all-Satisfies conditions) _ kept)

abbrev stores_all : TenantContext → AccessDenied → Bool
stores_all ctx e = true

abbrev wired : AccessPorts
wired = engine_ports database stores_all

abbrev plain_options : AuthorizeOptions
plain_options = record { model = none; shared = some true; ip = some "10.0.0.1"; user_agent = none }

-- alice, a viewer, reads a shared conversation with an Economy model.
abbrev mini_options : AuthorizeOptions
mini_options = record plain_options { model = some mini }

wired-Grants : Grants (authorize wired alice shared_chat Action.read mini_options)
unfolding authorize Access.check_membership Access.check_viewer_resource Access.viewer_shareable
    Access.is_viewer check_model_access resolve applicable find_by_scope select_rows build_where
    valid_context holds decide_policy decide_from decide_scope scan_policies scan_entries
    entry_matches same_type tenant_context_from_principal
wired-Grants = (
  record {
    allowed = true;
    denial_code = none;
    policy_decision = some (record { allowed = true; deciding_scope = some team });
  },
  refl,
  refl,
)

authorize-iff-MayAccess_example : MayAccess wired alice shared_chat Action.read mini_options
authorize-iff-MayAccess_example =
    (authorize-iff-MayAccess wired alice shared_chat Action.read mini_options).0 wired-Grants

foreign : ¬ Member alice foreign_chat
foreign m = ground (arith, eq_iff "globex" "acme", m.same_organization)

authorize-Grant_example :
    ◌≡◌ {A = String} "acme" "acme" × Grant alice Action.read ResourceType.conversation
authorize-Grant_example =
    authorize-Grant database stores_all alice shared_chat Action.read mini_options
      database-RunsWhere wired-Grants

abbrev search_api : BillableDependency
search_api = record {
  id = "search";
  name = "Search";
  category = DependencyCategory.web_search;
  organization_id = "acme";
  description = none;
}

abbrev unlisted : BillingComplianceStatus
unlisted = record {
  credit_billable = false;
  credit_provider = none;
  verifiable = true;
  owner_approved = none;
}

-- The registry knows that the search API has no credit-billable option, and that all else is billed
-- through Azure.
abbrev registry : BillingPorts
registry = record {
  get_status = λ d. resolved (
      some (
        if str_eq d.id "search" then unlisted else record {
          credit_billable = true;
          credit_provider = some CreditProvider.azure;
          verifiable = true;
          owner_approved = none;
        }));
  stores = λ ctx e. true;
}

abbrev no_options : VerifyOptions
no_options = record { ip = none; user_agent = none }

verify-iff-Compliant_example :
    Adopts (verify registry (record search_api { id = "model" }) no_options)
verify-iff-Compliant_example =
    (verify-iff-Compliant registry (record search_api { id = "model" }) no_options).1
      (_, refl, inr (refl, refl))

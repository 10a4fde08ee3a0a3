-- ===== src/Access/Tenancy.antt =====
-- Tenant isolation of Access_Control, alone and wired to the Policy_Engine.
use auxifyai.Prelude.{◌≡◌, inl, inr, Bool, true, none, some, [], ◌∷◌, arith, Option-cases}
use auxifyai.Identity.{Action, ResourceRef, Principal, TenantContext, tenant_context_from_principal}
use auxifyai.Policy.Repository.{SqlQuery, resolve}
use auxifyai.Policy.Resolution.{RunsWhere, Grant, resolve-Grant}
use auxifyai.Access.{
  AuthorizeOptions, AuthzDenialCode, AccessPorts, AccessDenied, denial_event, check_membership,
  authorize, denied, deny,
}
use auxifyai.Access.Conditions.{Member, check_membership-iff-Member}
use auxifyai.Access.Stages.{Grants, cross_tenant_code, authorize-iff-MayAccess}

-- A reference outside the principal's Organization, Teams or Projects is denied as cross-tenant,
-- whatever the policy engine would have said, and is stored in the actor's own Organization.
pub authorize-cross_tenant :
    (ports : AccessPorts) (p : Principal) (r : ResourceRef) (a : Action) (o : AuthorizeOptions)
    → ¬ Member p r
    → ((ctx : TenantContext) (e : AccessDenied) → ports.stores ctx e ≡ true)
    → authorize ports p r a o ≡ (
      some (deny AuthzDenialCode.cross_tenant),
      (
        tenant_context_from_principal p none,
        denial_event p r a (deny AuthzDenialCode.cross_tenant) o,
      )
          ∷ [],
    )
unfolding authorize denied
authorize-cross_tenant ports p r a o out st = elim (Option-cases (check_membership p r)) [
  | inl e ↦ absurd (out ((check_membership-iff-Member p r).0 e))
  | inr (d, e) ↦ ground (
    arith,
    cross_tenant_code p r d e,
    st (tenant_context_from_principal p none)
        (denial_event p r a (deny AuthzDenialCode.cross_tenant) o),
  )
]

-- The platform's wiring: the Policy_Engine is the resolver.
abbrev pub engine_ports : SqlQuery → (TenantContext → AccessDenied → Bool) → AccessPorts
engine_ports query stores = record { resolve = resolve query; stores = stores }

-- With the engine and the policy repository wired in, over a database that runs the WHERE clause of a
-- statement, a granted access is to a resource of the principal's own Organization and rests on an
-- explicit allow entry of a policy of that same Organization.
pub authorize-Grant :
    (query : SqlQuery) (stores : TenantContext → AccessDenied → Bool) (p : Principal)
    (r : ResourceRef) (a : Action) (o : AuthorizeOptions)
    → RunsWhere query
    → Grants (authorize (engine_ports query stores) p r a o)
    → (r.organization_id ≡ p.organization_id) × Grant p a r.type
authorize-Grant query stores p r a o runs g =
    let m = (authorize-iff-MayAccess (engine_ports query stores) p r a o).0 g in
    (m.member.same_organization, resolve-Grant query p r a m.policy runs m.resolved m.policy_allows)

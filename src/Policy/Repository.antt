-- ===== src/Policy/Repository.antt =====
-- The reads of the Policy_Engine: `PolicyRepository.findByScope` (policy-repository.ts) over the
-- tenant-scoped `selectRows` of services/core/src/repositories/base-repository.ts, and
-- `PolicyEngine.resolve`. A statement is the list of the conditions that its WHERE clause joins by
-- AND; the database that runs it is the parameter `query`, which gives decoded rows or rejects.
use auxifyai.Prelude.{
  Bool, ◌&&◌, not, String, Option, none, some, List, [], ◌∷◌, if◌then◌else◌, str_eq,
}
use auxifyai.Identity.{Action, ResourceRef, Principal, TenantContext, tenant_context_from_principal}
use auxifyai.Policy.{
  PolicyScope, org, team, user, Policy, PolicyDecision, PoliciesByScope, decide_policy, scope_ids,
}

-- The columns of `policies` that the conditions name.
pub data Column : Type 0 where
  organization_id scope scope_id : Column

-- `Predicate`, with its operator `=` or `in`.
pub data Predicate : Type 0 where
  equals : Column → String → Predicate
  is_in : Column → List String → Predicate

abbrev pub scope_name : PolicyScope → String
scope_name org = "org"
scope_name team = "team"
scope_name user = "user"

abbrev pub SqlQuery : Type 0
SqlQuery = List Predicate → Option (List Policy)

-- `renderTenantPredicate`, for a direct scope.
abbrev pub tenant_predicate : TenantContext → Predicate
tenant_predicate ctx = equals organization_id ctx.organization_id

unfoldable pub build_where : TenantContext → List Predicate → List Predicate
build_where ctx extra = tenant_predicate ctx ∷ extra

-- `assertTenantContext` throws otherwise.
unfoldable pub valid_context : TenantContext → Bool
valid_context ctx = not (str_eq ctx.organization_id "") && not (str_eq ctx.user_id "")

-- Without an order, a limit or an offset; no value is a rejection.
unfoldable pub select_rows : SqlQuery → TenantContext → List Predicate → Option (List Policy)
select_rows query ctx extra = if valid_context ctx then query (build_where ctx extra) else none

-- An empty id list issues no query.
unfoldable pub find_by_scope :
    SqlQuery → TenantContext → PolicyScope → List String → Option (List Policy)
find_by_scope query ctx s [] = some []
find_by_scope query ctx s (i ∷ ids) =
    select_rows query ctx (equals scope (scope_name s) ∷ is_in scope_id (i ∷ ids) ∷ [])

-- The three reads of `resolve`.
unfoldable pub applicable : SqlQuery → Principal → Option PoliciesByScope
applicable query p =
    let ctx = tenant_context_from_principal p none in
    elim (find_by_scope query ctx org (scope_ids p org)) [
      | none ↦ none
      | some of_org ↦ elim (find_by_scope query ctx team (scope_ids p team)) [
        | none ↦ none
        | some of_teams ↦ elim (find_by_scope query ctx user (scope_ids p user)) [
          | none ↦ none
          | some of_user ↦ some (record { org = of_org; team = of_teams; user = of_user })
        ]
      ]
    ]

unfoldable pub resolve : SqlQuery → Principal → ResourceRef → Action → Option PolicyDecision
resolve query p resource a = elim (applicable query p) [
  | none ↦ none
  | some by_scope ↦ some (decide_policy by_scope a resource.type)
]

-- ===== src/Policy/Resolution.antt =====
-- `PolicyEngine.resolve`: which stored policies can grant an access.
use auxifyai.Prelude.{
  ◌≡◌, refl, subst, ◌⊎◌, inl, inr, Bool, true, none, some, String, List, [], ◌∷◌, ◌++◌, All,
  All-map, Any, str_eq, eq_iff, contains, contains_iff, arith, Option-cases,
}
use auxifyai.Identity.{
  Action, ResourceType, ResourceRef, Principal, TenantContext, tenant_context_from_principal,
}
use auxifyai.Policy.{
  PolicyScope, org, team, user, allow, Policy, AllowListEntry, PolicyDecision, PoliciesByScope,
  decide_policy, scope_ids, effect_of,
}
use auxifyai.Policy.Repository.{
  Column, organization_id, scope, scope_id, Predicate, equals, is_in, scope_name, SqlQuery,
  build_where, select_rows, find_by_scope, applicable, resolve,
}
use auxifyai.Policy.Scope.{Allows, Matches, Admits, entries}
use auxifyai.Policy.Grants.{at_org, at_team, at_user, decide_policy-iff-Granted}

-- The value of a row's column, and whether a row satisfies a condition.
abbrev pub column : Column → Policy → String
column organization_id p = p.organization_id
column scope p = scope_name p.scope
column scope_id p = p.scope_id

unfoldable pub holds : Policy → Predicate → Bool
holds p (equals c v) = str_eq (column c p) v
holds p (is_in c vs) = contains vs (column c p)

abbrev pub Satisfies : List Predicate → Policy → Type 0
Satisfies conditions p = All (λ c. holds p c ≡ true) conditions

-- A database returns only rows that satisfy each condition of the WHERE clause.
abbrev pub RunsWhere : SqlQuery → Type 0
RunsWhere query =
    (conditions : List Predicate) (rows : List Policy)
    → query conditions ≡ some rows
    → All (Satisfies conditions) rows

-- Of the context's Organization, at the level, with a listed id.
abbrev pub IsSelected : TenantContext → PolicyScope → List String → Policy → Type 0
IsSelected ctx s ids p =
    (p.organization_id ≡ ctx.organization_id) × (p.scope ≡ s) × Any (λ i. p.scope_id ≡ i) ids

-- A policy of the principal's Organization and of a level that concerns the principal, with an entry
-- that covers the permission and allows it.
pub record Grant (p : Principal) (a : Action) (r : ResourceType) : Type 0 where
  pub policy : Policy
  pub entry : AllowListEntry
  pub in_tenant : policy.organization_id ≡ p.organization_id
  pub concerns : Any (λ i. policy.scope_id ≡ i) (scope_ids p policy.scope)
  pub listed : Any (λ e. e ≡ entry) policy.allow_list
  pub matches : Matches a r entry
  pub allows : effect_of entry ≡ allow

abbrev Entry : List AllowListEntry → Action → ResourceType → Type 0
Entry es a r = (e : AllowListEntry) × Any (λ e'. e' ≡ e) es × Matches a r e × (effect_of e ≡ allow)

pick_entry :
    (a : Action) (r : ResourceType) (es : List AllowListEntry)
    → Any (Matches a r) es
    → Admits a r es
    → Entry es a r
pick_entry a r [] h k = absurd h
pick_entry a r (e ∷ es) (inl h) k = (e, inl refl, h, k.0 h)
pick_entry a r (e ∷ es) (inr h) k = let (f, i, m, n) = pick_entry a r es h k.1 in (f, inr i, m, n)

Any-split : {A : Type 0} (P : A → Type 0) (xs ys : List A) → Any P (xs ++ ys) → Any P xs ⊎ Any P ys
Any-split P [] ys h = inr h
Any-split P (x ∷ xs) ys (inl h) = inl (inl h)
Any-split P (x ∷ xs) ys (inr h) = elim (Any-split P xs ys h) [ inl k ↦ inl (inr k) | inr k ↦ inr k ]

-- The policy that an entry of a level comes from.
owner :
    (Q : Policy → Type 0) (e : AllowListEntry) (ps : List Policy)
    → All Q ps
    → Any (λ e'. e' ≡ e) (entries ps)
    → (p : Policy) × Q p × Any (λ e'. e' ≡ e) p.allow_list
owner Q e [] h k = absurd k
owner Q e (p ∷ ps) h k = elim (Any-split _ p.allow_list (entries ps) k) [
  | inl i ↦ (p, h.0, i)
  | inr i ↦ owner Q e ps h.1 i
]

scope_name-injective : (s t : PolicyScope) → scope_name s ≡ scope_name t → s ≡ t
scope_name-injective org org e = refl
scope_name-injective team team e = refl
scope_name-injective user user e = refl
scope_name-injective org team e = absurd (ground (arith, (eq_iff "org" "team").1 e))
scope_name-injective org user e = absurd (ground (arith, (eq_iff "org" "user").1 e))
scope_name-injective team org e = absurd (ground (arith, (eq_iff "team" "org").1 e))
scope_name-injective team user e = absurd (ground (arith, (eq_iff "team" "user").1 e))
scope_name-injective user org e = absurd (ground (arith, (eq_iff "user" "org").1 e))
scope_name-injective user team e = absurd (ground (arith, (eq_iff "user" "team").1 e))

-- What the conditions of a read by scope say of a row.
Satisfies-IsSelected :
    (ctx : TenantContext) (s : PolicyScope) (ids : List String) (p : Policy)
    → Satisfies (build_where ctx (equals scope (scope_name s) ∷ is_in scope_id ids ∷ [])) p
    → IsSelected ctx s ids p
unfolding build_where holds
Satisfies-IsSelected ctx s ids p h = (
  (eq_iff p.organization_id ctx.organization_id).0 h.0,
  scope_name-injective p.scope s ((eq_iff (scope_name p.scope) (scope_name s)).0 h.1.0),
  (contains_iff ids p.scope_id).0 h.1.1.0,
)

find_by_scope-IsSelected :
    (query : SqlQuery)
    → RunsWhere query
    → (ctx : TenantContext) (s : PolicyScope) (ids : List String) (rows : List Policy)
    → find_by_scope query ctx s ids ≡ some rows
    → All (IsSelected ctx s ids) rows
unfolding find_by_scope select_rows
find_by_scope-IsSelected query h ctx s [] rows e =
    let q : [] ≡ rows = ground arith in subst (All (IsSelected ctx s [])) q tt
find_by_scope-IsSelected query h ctx s (i ∷ ids) rows e =
    let where_clause =
      build_where ctx (equals scope (scope_name s) ∷ is_in scope_id (i ∷ ids) ∷ []) in
    let ran : query where_clause ≡ some rows = ground arith in
    All-map _ _ (Satisfies-IsSelected ctx s (i ∷ ids)) rows (h where_clause rows ran)

-- The three reads give what the engine decides on.
applicable-reads :
    (query : SqlQuery) (p : Principal) (by_scope : PoliciesByScope)
    → applicable query p ≡ some by_scope
    → (find_by_scope query (tenant_context_from_principal p none) org (scope_ids p org)
        ≡ some by_scope.org)
      × (find_by_scope query (tenant_context_from_principal p none) team (scope_ids p team)
          ≡ some by_scope.team)
      × (find_by_scope query (tenant_context_from_principal p none) user (scope_ids p user)
          ≡ some by_scope.user)
unfolding applicable
applicable-reads query p by_scope h =
    let ctx = tenant_context_from_principal p none in
    elim (Option-cases (find_by_scope query ctx org (scope_ids p org))) [
      | inl e ↦ absurd (ground arith)
      | inr (a, e) ↦ elim (Option-cases (find_by_scope query ctx team (scope_ids p team))) [
        | inl f ↦ absurd (ground arith)
        | inr (b, f) ↦ elim (Option-cases (find_by_scope query ctx user (scope_ids p user))) [
          | inl g ↦ absurd (ground arith)
          | inr (c, g) ↦
              let q : by_scope ≡ record { org = a; team = b; user = c } = ground arith in
              rw q (e, f, g)
        ]
      ]
    ]

module _ (query : SqlQuery) (runs : RunsWhere query) (p : Principal) (a : Action)
    (r : ResourceType) where
  level_grant :
      (s : PolicyScope) (ps : List Policy)
      → find_by_scope query (tenant_context_from_principal p none) s (scope_ids p s) ≡ some ps
      → Allows ps a r
      → Grant p a r
  unfolding tenant_context_from_principal
  level_grant s ps read (some_match, admits) =
      let ctx = tenant_context_from_principal p none in
      let (e, i, m, k) = pick_entry a r _ some_match admits in
      let (q, (t, w, c), l) =
        owner _ e _ (find_by_scope-IsSelected query runs ctx s (scope_ids p s) ps read) i in
      record {
        policy = q;
        entry = e;
        in_tenant = t;
        concerns = rw w c;
        listed = l;
        matches = m;
        allows = k;
      }

-- Over a database that runs the WHERE clause of a statement, an access that the engine allows rests
-- on an explicit allow entry, covering the action and the resource's type, of a policy in the
-- principal's own Organization that is filed under that Organization, one of the principal's Teams,
-- or the user.
pub resolve-Grant :
    (query : SqlQuery) (p : Principal) (resource : ResourceRef) (a : Action) (d : PolicyDecision)
    → RunsWhere query
    → resolve query p resource a ≡ some d
    → d.allowed ≡ true
    → Grant p a resource.type
unfolding resolve
resolve-Grant query p resource a d runs h allowed = elim (Option-cases (applicable query p)) [
  | inl e ↦ absurd (ground arith)
  | inr (by_scope, e) ↦
      let reads = applicable-reads query p by_scope e in
      let decided : (decide_policy by_scope a resource.type).allowed ≡ true = ground arith in
      elim ((decide_policy-iff-Granted by_scope a resource.type).0 decided) [
        | at_org g ↦ level_grant query runs p a resource.type org _ reads.0 g
        | at_team _ g ↦ level_grant query runs p a resource.type team _ reads.1 g
        | at_user _ _ g ↦ level_grant query runs p a resource.type user _ reads.2 g
      ]
]

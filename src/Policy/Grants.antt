-- ===== src/Policy/Grants.antt =====
-- Precedence and default deny: `decidePolicy` against a declarative relation.
use auxifyai.Prelude.{◌≡◌, refl, ◌↔◌, true, Option, none, some, List, arith}
use auxifyai.Identity.{Action, ResourceType}
use auxifyai.Policy.{
  PolicyEffect, allow, deny, Policy, PoliciesByScope, decide_scope, decide_from, decide_policy,
}
use auxifyai.Policy.Scope.{Silent, Allows, decide_scope-iff-Decides}

-- A permission is granted at the highest level that is not silent.
pub data Granted (ps : PoliciesByScope) (a : Action) (r : ResourceType) : Type 0 where
  at_org : Allows ps.org a r → Granted ps a r
  at_team : Silent ps.org a r → Allows ps.team a r → Granted ps a r
  at_user : Silent ps.org a r → Silent ps.team a r → Allows ps.user a r → Granted ps a r

module _ (ps : PoliciesByScope) (a : Action) (r : ResourceType) where
  allowed→Granted :
      (o t u : Option PolicyEffect)
      → decide_scope ps.org a r ≡ o
      → decide_scope ps.team a r ≡ t
      → decide_scope ps.user a r ≡ u
      → (decide_policy ps a r).allowed ≡ true
      → Granted ps a r
  unfolding decide_policy decide_from
  allowed→Granted (some allow) t u eo et eu h = at_org ((decide_scope-iff-Decides _ a r _).0 eo)
  allowed→Granted (some deny) t u eo et eu h = ground arith
  allowed→Granted none (some allow) u eo et eu h =
      at_team ((decide_scope-iff-Decides _ a r _).0 eo) ((decide_scope-iff-Decides _ a r _).0 et)
  allowed→Granted none (some deny) u eo et eu h = ground arith
  allowed→Granted none none (some allow) eo et eu h =
      at_user ((decide_scope-iff-Decides _ a r _).0 eo) ((decide_scope-iff-Decides _ a r _).0 et)
        ((decide_scope-iff-Decides _ a r _).0 eu)
  allowed→Granted none none (some deny) eo et eu h = ground arith
  allowed→Granted none none none eo et eu h = ground arith

  Granted→allowed : Granted ps a r → (decide_policy ps a r).allowed ≡ true
  unfolding decide_policy decide_from
  Granted→allowed (at_org h) =
      ground (arith, (decide_scope-iff-Decides ps.org a r (some allow)).1 h)
  Granted→allowed (at_team s h) = ground (
    arith,
    (decide_scope-iff-Decides ps.org a r none).1 s,
    (decide_scope-iff-Decides ps.team a r (some allow)).1 h,
  )
  Granted→allowed (at_user s t h) = ground (
    arith,
    (decide_scope-iff-Decides ps.org a r none).1 s,
    (decide_scope-iff-Decides ps.team a r none).1 t,
    (decide_scope-iff-Decides ps.user a r (some allow)).1 h,
  )

  -- The engine allows a permission exactly when the highest level with a covering entry has no
  -- covering denial; with no covering entry at any level it denies.
  pub decide_policy-iff-Granted : ((decide_policy ps a r).allowed ≡ true) ↔ Granted ps a r
  decide_policy-iff-Granted = (allowed→Granted _ _ _ refl refl refl, Granted→allowed)

-- What the Organization decides is final: Team and User policies change nothing.
pub decide_policy-org_final :
    (o t t' u u' : List Policy) (a : Action) (r : ResourceType) (e : PolicyEffect)
    → decide_scope o a r ≡ some e
    → decide_policy (record { org = o; team = t; user = u }) a r
      ≡ decide_policy (record { org = o; team = t'; user = u' }) a r
unfolding decide_policy decide_from
decide_policy-org_final o t t' u u' a r allow h = ground arith
decide_policy-org_final o t t' u u' a r deny h = ground arith

-- Where the Organization is silent, what the Teams decide is final: User policies change nothing.
pub decide_policy-team_final :
    (o t u u' : List Policy) (a : Action) (r : ResourceType) (e : PolicyEffect)
    → decide_scope o a r ≡ none
    → decide_scope t a r ≡ some e
    → decide_policy (record { org = o; team = t; user = u }) a r
      ≡ decide_policy (record { org = o; team = t; user = u' }) a r
unfolding decide_policy decide_from
decide_policy-team_final o t u u' a r allow h k = ground arith
decide_policy-team_final o t u u' a r deny h k = ground arith

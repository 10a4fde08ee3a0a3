-- ===== src/Access/Stages.antt =====
-- The decision pipeline of `authorize`: all stages together.
use auxifyai.Prelude.{
  ◌≡◌, refl, ap, inl, inr, ◌↔◌, true, false, Option, none, some, [], arith, Option-cases,
  Bool-cases,
}
use auxifyai.Identity.{Action, ResourceRef, Principal, ModelInfo}
use auxifyai.Policy.{PolicyDecision}
use auxifyai.Access.{
  AuthorizeOptions, AuthzDecision, AuthzDenialCode, AccessPorts, Outcome, check_membership,
  check_viewer_resource, check_model, authorize, denied, deny,
}
use auxifyai.Access.Conditions.{
  Member, ViewerMay, ModelMay, check_membership-iff-Member, check_viewer_resource-iff-ViewerMay,
  check_model-iff-ModelMay,
}

-- The call ends with a decision that allows.
abbrev pub Grants : Outcome → Type 0
Grants out = (d : AuthzDecision) × (out.0 ≡ some d) × (d.allowed ≡ true)

-- All four stages pass; the policy stage is a decision of the engine that allows.
pub record MayAccess (ports : AccessPorts) (p : Principal) (r : ResourceRef) (a : Action)
    (o : AuthorizeOptions) : Type 0 where
  pub member : Member p r
  pub policy : PolicyDecision
  pub resolved : ports.resolve p r a ≡ some policy
  pub policy_allows : policy.allowed ≡ true
  pub viewer_may : ViewerMay p r a o
  pub model_may : ModelMay p o.model

-- Why a decision denies: the resource is out of reach and the policy engine is not asked, the engine
-- resolved to a decision that does not allow, or it allowed and the viewer or model gate does not.
pub data Refuses (ports : AccessPorts) (p : Principal) (r : ResourceRef) (a : Action)
    (o : AuthorizeOptions) (d : AuthzDecision) : Type 0 where
  out_of_reach :
      ¬ Member p r → d.denial_code ≡ some AuthzDenialCode.cross_tenant → Refuses ports p r a o d
  by_policy :
      (policy : PolicyDecision)
      → Member p r
      → ports.resolve p r a ≡ some policy
      → policy.allowed ≡ false
      → d.denial_code ≡ some AuthzDenialCode.policy_denied
      → Refuses ports p r a o d
  by_gate :
      (policy : PolicyDecision)
      → Member p r
      → ports.resolve p r a ≡ some policy
      → policy.allowed ≡ true
      → ¬ (ViewerMay p r a o × ModelMay p o.model)
      → Refuses ports p r a o d

-- The decision of a denial is the one that is passed in, and does not allow.
abbrev pub Denial : Option AuthzDecision → Type 0
Denial none = Unit {0}
Denial (some d) = d.allowed ≡ false

check_membership-Denial : (p : Principal) (r : ResourceRef) → Denial (check_membership p r)
unfolding check_membership
check_membership-Denial p r = ground arith

check_viewer_resource-Denial :
    (p : Principal) (r : ResourceRef) (a : Action) (o : AuthorizeOptions)
    → Denial (check_viewer_resource p r a o)
unfolding check_viewer_resource
check_viewer_resource-Denial p r a o = ground arith

check_model-Denial : (p : Principal) (m : Option ModelInfo) → Denial (check_model p m)
check_model-Denial p none = tt
check_model-Denial p (some m) = ground arith

pub cross_tenant_code :
    (p : Principal) (r : ResourceRef) (d : AuthzDecision)
    → check_membership p r ≡ some d
    → d ≡ deny AuthzDenialCode.cross_tenant
unfolding check_membership
cross_tenant_code p r d e = ground arith

denied-not-Grants :
    (ports : AccessPorts) (p : Principal) (r : ResourceRef) (a : Action) (d : AuthzDecision)
    (o : AuthorizeOptions)
    → d.allowed ≡ false
    → ¬ Grants (denied ports p r a d o)
unfolding denied
denied-not-Grants ports p r a d o h (g, e, k) = ground arith

module _ (ports : AccessPorts) (p : Principal) (r : ResourceRef) (a : Action)
    (o : AuthorizeOptions) where
  -- The three ways a call ends: it records a denial, a port rejects, or every stage has passed.
  pub data Ends (out : Outcome) : Type 0 where
    denies :
        (d : AuthzDecision)
        → Refuses ports p r a o d
        → d.allowed ≡ false
        → out ≡ denied ports p r a d o
        → Ends out
    rejects : Member p r → ports.resolve p r a ≡ none → out ≡ (none, []) → Ends out
    passes :
        (policy : PolicyDecision)
        → check_membership p r ≡ none
        → ports.resolve p r a ≡ some policy
        → policy.allowed ≡ true
        → check_viewer_resource p r a o ≡ none
        → check_model p o.model ≡ none
        → out ≡ (
          some (record { allowed = true; denial_code = none; policy_decision = some policy }),
          [],
        )
        → Ends out

  member : check_membership p r ≡ none → Member p r
  member e = (check_membership-iff-Member p r).0 e

  pub authorize-Ends : Ends (authorize ports p r a o)
  unfolding authorize
  authorize-Ends = elim (Option-cases (check_membership p r)) [
    | inr (d, e) ↦
        denies d
          (out_of_reach
            (λ m. absurd (let q = (check_membership-iff-Member p r).1 m in ground arith))
            (ap (λ (y : AuthzDecision). y.denial_code) (cross_tenant_code p r d e)))
          (rw e at (check_membership-Denial p r)) (ground arith)
    | inl em ↦ elim (Option-cases (ports.resolve p r a)) [
      | inl e ↦ rejects (member em) e (ground arith)
      | inr (policy, ep) ↦ elim (Bool-cases policy.allowed) [
        | inr f ↦
            denies
              (record {
                allowed = false;
                denial_code = some AuthzDenialCode.policy_denied;
                policy_decision = some policy;
              })
              (by_policy policy (member em) ep f refl) refl (ground arith)
        | inl t ↦ elim (Option-cases (check_viewer_resource p r a o)) [
          | inr (d, e) ↦
              denies d
                (by_gate policy (member em) ep t (λ (v, m).
                  absurd
                    (let q = (check_viewer_resource-iff-ViewerMay p r a o).1 v in ground arith)))
                (rw e at (check_viewer_resource-Denial p r a o)) (ground arith)
          | inl ev ↦ elim (Option-cases (check_model p o.model)) [
            | inr (d, e) ↦
                denies d
                  (by_gate policy (member em) ep t (λ (v, m).
                    absurd (let q = (check_model-iff-ModelMay p o.model).1 m in ground arith)))
                  (rw e at (check_model-Denial p o.model)) (ground arith)
            | inl eo ↦ passes policy em ep t ev eo (ground arith)
          ]
        ]
      ]
    ]
  ]

  pub Ends→MayAccess : {out : Outcome} → Ends out → Grants out → MayAccess ports p r a o
  Ends→MayAccess (denies d w f e) (g, eg, k) =
      absurd (denied-not-Grants ports p r a d o f (g, ground arith, k))
  Ends→MayAccess (rejects m q e) (g, eg, k) = ground arith
  Ends→MayAccess (passes policy em ep t ev eo e) g = record {
    member = (check_membership-iff-Member p r).0 em;
    policy = policy;
    resolved = ep;
    policy_allows = t;
    viewer_may = (check_viewer_resource-iff-ViewerMay p r a o).0 ev;
    model_may = (check_model-iff-ModelMay p o.model).0 eo;
  }

  MayAccess→granted : MayAccess ports p r a o → Grants (authorize ports p r a o)
  unfolding authorize
  MayAccess→granted m = (
    record { allowed = true; denial_code = none; policy_decision = some m.policy },
    ground (
      arith,
      (check_membership-iff-Member p r).1 m.member,
      m.resolved,
      m.policy_allows,
      (check_viewer_resource-iff-ViewerMay p r a o).1 m.viewer_may,
      (check_model-iff-ModelMay p o.model).1 m.model_may,
    ),
    refl,
  )

  -- A call grants exactly when the principal is a member of the resource's Organization and of its
  -- Team and Project, the engine resolves to a decision that allows, a viewer stays within what
  -- viewers may see, and the named model (if any) is one the principal may use.
  pub authorize-iff-MayAccess : Grants (authorize ports p r a o) ↔ MayAccess ports p r a o
  authorize-iff-MayAccess = (Ends→MayAccess authorize-Ends, MayAccess→granted)

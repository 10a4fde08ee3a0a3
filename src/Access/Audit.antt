-- ===== src/Access/Audit.antt =====
-- The audit trail of `authorize`: every denial is recorded, once, where the actor belongs.
use auxifyai.Prelude.{◌≡◌, true, false, none, some, [], ◌∷◌}
use auxifyai.Identity.{Action, ResourceRef, Principal, tenant_context_from_principal}
use auxifyai.Access.{AuthorizeOptions, AuthzDecision, AccessPorts, Outcome, denial_event}
use auxifyai.Access.Conditions.{Member}
use auxifyai.Access.Stages.{Refuses, MayAccess}

-- What a call may return together with what it stored.
pub data Audited (ports : AccessPorts) (p : Principal) (r : ResourceRef) (a : Action)
    (o : AuthorizeOptions) : Outcome → Type 0 where
  granted :
      (d : AuthzDecision)
      → MayAccess ports p r a o
      → d.allowed ≡ true
      → d.denial_code ≡ none
      → Audited ports p r a o (some d, [])
  refused :
      (d : AuthzDecision)
      → Refuses ports p r a o d
      → d.allowed ≡ false
      → ports.stores (tenant_context_from_principal p none) (denial_event p r a d o) ≡ true
      → Audited ports p r a o
          (some d, (tenant_context_from_principal p none, denial_event p r a d o) ∷ [])
  unrecorded :
      (d : AuthzDecision)
      → Refuses ports p r a o d
      → d.allowed ≡ false
      → ports.stores (tenant_context_from_principal p none) (denial_event p r a d o) ≡ false
      → Audited ports p r a o (none, [])
  unresolved : Member p r → ports.resolve p r a ≡ none → Audited ports p r a o (none, [])

-- ===== src/Billing.antt =====
-- Billing_Guard: services/core/src/billing-guard (types.ts, billing-guard.ts). The compliance
-- registry and the Audit_Service are ports, and either may reject. The reason texts are left out.
pub mod Governance
use auxifyai.Prelude.{
  ◌≡◌, ◌⊎◌, inl, inr, Bool, true, false, not, String, Option, none, some, List, [], ◌∷◌,
  if◌then◌else◌,
}
use auxifyai.Identity.{TenantContext}

pub data CreditProvider : Type 0 where
  aws azure : CreditProvider

pub data DependencyCategory : Type 0 where
  ai_model web_search hosting storage database cache networking other : DependencyCategory

pub record BillableDependency : Type 0 where
  pub id : String
  pub name : String
  pub category : DependencyCategory
  pub organization_id : String
  pub description : Option String

pub record BillingComplianceStatus : Type 0 where
  pub credit_billable : Bool
  pub credit_provider : Option CreditProvider
  pub verifiable : Bool
  pub owner_approved : Option Bool

pub data BillingDenialCode : Type 0 where
  no_credit_billable_option unverifiable verification_unavailable : BillingDenialCode

pub record BillingDecision : Type 0 where
  pub allowed : Bool
  pub denial_code : Option BillingDenialCode
  pub flagged_for_owner_approval : Bool
  pub credit_provider : Option CreditProvider

pub record VerifyOptions : Type 0 where
  pub ip : Option String
  pub user_agent : Option String

abbrev pub block : BillingDenialCode → Bool → BillingDecision
block code flagged = record {
  allowed = false;
  denial_code = some code;
  flagged_for_owner_approval = flagged;
  credit_provider = none;
}

abbrev pub adopt : Option CreditProvider → BillingDecision
adopt provider = record {
  allowed = true;
  denial_code = none;
  flagged_for_owner_approval = false;
  credit_provider = provider;
}

-- `status.ownerApproved === true`
abbrev pub approved : Option Bool → Bool
approved (some true) = true
approved (some false) = false
approved none = false

-- Rules 2 to 5, for a status that could be obtained.
unfoldable pub decide_status : BillingComplianceStatus → BillingDecision
decide_status s =
    if approved s.owner_approved
    then adopt s.credit_provider
    else if not s.credit_billable
    then block no_credit_billable_option true
    else if not s.verifiable
    then block unverifiable false
    else adopt s.credit_provider

unfoldable pub decide_billing : Option BillingComplianceStatus → BillingDecision
unfolding decide_status
decide_billing none = block verification_unavailable false
decide_billing (some s) = decide_status s

-- A `billing.blocked` event.
pub record BillingBlocked : Type 0 where
  pub resource_id : String
  pub ip : Option String
  pub user_agent : Option String
  pub dependency_category : DependencyCategory
  pub denial_code : Option BillingDenialCode
  pub flagged_for_owner_approval : Bool

-- What a call of the registry gives: a status or `undefined`, or a rejection.
pub data StatusReply : Type 0 where
  resolved : Option BillingComplianceStatus → StatusReply
  threw : StatusReply

pub record BillingPorts : Type 0 where
  pub get_status : BillableDependency → StatusReply
  -- `AuditRecorder.record`: whether the event was stored; it rejects otherwise.
  pub stores : TenantContext → BillingBlocked → Bool

-- The `catch` turns a rejection into an undetermined status.
unfoldable pub resolve_status : BillingPorts → BillableDependency → Option BillingComplianceStatus
resolve_status ports d = elim (ports.get_status d) [ resolved s ↦ s | threw ↦ none ]

abbrev pub block_context : BillableDependency → TenantContext
block_context d = record {
  organization_id = d.organization_id;
  user_id = "system";
  team_id = none;
  project_id = none;
}

abbrev pub block_event : BillableDependency → BillingDecision → VerifyOptions → BillingBlocked
block_event d decision o = record {
  resource_id = d.id;
  ip = o.ip;
  user_agent = o.user_agent;
  dependency_category = d.category;
  denial_code = decision.denial_code;
  flagged_for_owner_approval = decision.flagged_for_owner_approval;
}

-- The decision (`none` when the promise rejects) and the events that the call stored.
abbrev pub Outcome : Type 0
Outcome = Option BillingDecision × List (TenantContext × BillingBlocked)

unfoldable pub verify : BillingPorts → BillableDependency → VerifyOptions → Outcome
unfolding resolve_status
verify ports d o =
    let decision = decide_billing (resolve_status ports d) in
    if not decision.allowed
    then (if ports.stores (block_context d) (block_event d decision o)
        then (some decision, (block_context d, block_event d decision o) ∷ [])
        else (none, []))
    else (some decision, [])

pub data Thrown : Type 0 where
  -- the audit recorder rejected
  port_failed : Thrown
  billing_blocked : String → BillingDecision → Thrown

unfoldable pub verify_or_throw :
    BillingPorts
    → BillableDependency
    → VerifyOptions
    → (Thrown ⊎ BillingDecision) × List (TenantContext × BillingBlocked)
verify_or_throw ports d o =
    let (result, events) = verify ports d o in
    elim result [
      | none ↦ (inl port_failed, events)
      | some decision ↦ (
        if not decision.allowed then inl (billing_blocked d.id decision) else inr decision,
        events,
      )
    ]

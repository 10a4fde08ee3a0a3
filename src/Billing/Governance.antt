-- ===== src/Billing/Governance.antt =====
-- Fail-closed governance: what is adopted, why the rest is blocked, and what is recorded.
use auxifyai.Prelude.{
  ◌≡◌, refl, ◌⊎◌, inl, inr, ◌↔◌, ◌≢◌, Bool-cases, true, false, Option, none, some, [], ◌∷◌, arith,
}
use auxifyai.Billing.{
  BillingComplianceStatus, BillableDependency, BillingDecision, BillingDenialCode, BillingPorts,
  VerifyOptions, Outcome, decide_billing, decide_status, resolve_status, verify, block_context,
  block_event, StatusReply, resolved, threw,
}

-- Credit-billable and verified, or approved by an owner.
abbrev pub Compliant : BillingComplianceStatus → Type 0
Compliant s = (s.owner_approved ≡ some true) ⊎ ((s.credit_billable ≡ true) × (s.verifiable ≡ true))

-- Why a status does not lead to adoption, by code.
abbrev pub BlockedFor : Option BillingComplianceStatus → BillingDenialCode → Type 0
BlockedFor none c = c ≡ BillingDenialCode.verification_unavailable
BlockedFor (some s) BillingDenialCode.no_credit_billable_option =
    (s.owner_approved ≢ some true) × (s.credit_billable ≡ false)
BlockedFor (some s) BillingDenialCode.unverifiable =
    (s.owner_approved ≢ some true) × (s.credit_billable ≡ true) × (s.verifiable ≡ false)
BlockedFor (some s) BillingDenialCode.verification_unavailable = ⊥

-- A status is blocked with a code exactly for that code's reason; only the absence of a
-- credit-billable option is flagged for owner approval.
pub decide_billing-iff-BlockedFor :
    (s : Option BillingComplianceStatus) (c : BillingDenialCode)
    → (((decide_billing s).denial_code ≡ some c) ↔ BlockedFor s c)
      × (((decide_billing s).flagged_for_owner_approval ≡ true)
          ↔ ((decide_billing s).denial_code ≡ some BillingDenialCode.no_credit_billable_option))
unfolding decide_billing
decide_billing-iff-BlockedFor none c = ((ground arith, ground arith), (ground arith, ground arith))
decide_billing-iff-BlockedFor (some s) BillingDenialCode.no_credit_billable_option =
    ((ground arith, ground arith), (ground arith, ground arith))
decide_billing-iff-BlockedFor (some s) BillingDenialCode.unverifiable =
    ((ground arith, ground arith), (ground arith, ground arith))
decide_billing-iff-BlockedFor (some s) BillingDenialCode.verification_unavailable =
    ((ground arith, ground arith), (ground arith, ground arith))

-- The call ends with a decision to adopt.
abbrev pub Adopts : Outcome → Type 0
Adopts out = (d : BillingDecision) × (out.0 ≡ some d) × (d.allowed ≡ true)

decide_status-iff-Compliant :
    (s : BillingComplianceStatus) → ((decide_status s).allowed ≡ true) ↔ Compliant s
unfolding decide_status
decide_status-iff-Compliant s = (ground arith, ground arith)

adopts→Compliant :
    (ports : BillingPorts) (d : BillableDependency) (o : VerifyOptions) (x : StatusReply)
    → ports.get_status d ≡ x
    → Adopts (verify ports d o)
    → (s : BillingComplianceStatus) × (x ≡ resolved (some s)) × Compliant s
unfolding verify decide_billing
adopts→Compliant ports d o threw e g = ground arith
adopts→Compliant ports d o (resolved none) e g = ground arith
adopts→Compliant ports d o (resolved (some s)) e g = (
  s,
  refl,
  (decide_status-iff-Compliant s).0
      (elim (Bool-cases (decide_status s).allowed) [ inl t ↦ t | inr f ↦ ground arith ]),
)

Compliant→adopts :
    (ports : BillingPorts) (d : BillableDependency) (o : VerifyOptions)
    (s : BillingComplianceStatus)
    → ports.get_status d ≡ resolved (some s)
    → Compliant s
    → Adopts (verify ports d o)
unfolding verify decide_billing
Compliant→adopts ports d o s e c = (
  decide_status s,
  ground (arith, (decide_status-iff-Compliant s).1 c),
  (decide_status-iff-Compliant s).1 c,
)

-- Adoption is allowed exactly when the registry answers with a status that is owner-approved, or
-- credit-billable and verifiable. A registry that rejects, or does not know, adopts nothing.
pub verify-iff-Compliant :
    (ports : BillingPorts) (d : BillableDependency) (o : VerifyOptions)
    → Adopts (verify ports d o)
      ↔ ((s : BillingComplianceStatus) × (ports.get_status d ≡ resolved (some s)) × Compliant s)
verify-iff-Compliant ports d o =
    (adopts→Compliant ports d o _ refl, λ (s, e, c). Compliant→adopts ports d o s e c)

-- A decision to block, for the reason that its code names.
pub record Blocks (ports : BillingPorts) (d : BillableDependency) (x : BillingDecision)
    : Type 0 where
  pub code : BillingDenialCode
  pub coded : x.denial_code ≡ some code
  pub refused : x.allowed ≡ false
  pub reason : BlockedFor (resolve_status ports d) code

-- What a call may return together with what it stored.
pub data Audited (ports : BillingPorts) (d : BillableDependency) (o : VerifyOptions)
    : Outcome → Type 0 where
  adopted :
      (x : BillingDecision) (s : BillingComplianceStatus)
      → x.allowed ≡ true
      → ports.get_status d ≡ resolved (some s)
      → Compliant s
      → Audited ports d o (some x, [])
  blocked :
      (x : BillingDecision)
      → Blocks ports d x
      → ports.stores (block_context d) (block_event d x o) ≡ true
      → Audited ports d o (some x, (block_context d, block_event d x o) ∷ [])
  rejected :
      (x : BillingDecision)
      → Blocks ports d x
      → ports.stores (block_context d) (block_event d x o) ≡ false
      → Audited ports d o (none, [])

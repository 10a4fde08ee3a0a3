-- ===== src/Gateway/Audit.antt =====
-- The audit trail of the gateway, and what a denial costs.
use auxifyai.Prelude.{
  ◌≡◌, ◌∙◌, refl, ap, ◌⊎◌, inl, inr, true, false, String, Option, none, some, [], ◌∷◌, arith, ◌≢◌,
}
use auxifyai.Identity.{Principal}
use auxifyai.RateLimit.{Hits}
use auxifyai.Gateway.{
  GatewayRequest, GatewayPorts, Denial, Evaluation, deny, admit, identity_of, context_of, event_of,
  verdict_of,
}
use auxifyai.Gateway.Stages.{tls_stage, ip_stage, evaluate}
use auxifyai.Gateway.Endings.{
  Fails, tls, ip, rate, validation, csrf, auth, authz, Ends, denies, passes, evaluate-Ends, limited,
}
use auxifyai.Gateway.Reasons.{Because}
use auxifyai.Gateway.Admission.{Admits, tls_stage_iff, ip_stage_iff}

-- What a call may give, with the stage that denied, and why.
pub data Audited (g : GatewayPorts) (r : GatewayRequest) (hits : Hits) : Evaluation → Type 0 where
  admitted :
      (p : Principal) (body : Option String)
      → Admits g r hits p body
      → Audited g r hits (admit p body (limited g r hits).1)
  refused :
      {d : Denial} {left : Hits}
      → Fails g r hits d left
      → Because g r hits d.code
      → g.stores (context_of (identity_of r d)) (event_of r d) ≡ true
      → Audited g r hits (record {
        verdict = some (verdict_of d);
        events = (context_of (identity_of r d), event_of r d) ∷ [];
        hits = left;
      })
  rejected :
      {d : Denial} {left : Hits}
      → Fails g r hits d left
      → Because g r hits d.code
      → g.stores (context_of (identity_of r d)) (event_of r d) ≡ false
      → Audited g r hits (record { verdict = none; events = []; hits = left })

deny-hits :
    (g : GatewayPorts) (r : GatewayRequest) (left : Hits) (d : Denial)
    → (deny g r left d).hits ≡ left
unfolding deny
deny-hits g r left d = ground arith

-- A request that is not on TLS 1.3, or whose address is not known to be free of a block, leaves the
-- counters of the rate limiter as they are.
pub evaluate-uncounted :
    (g : GatewayPorts) (r : GatewayRequest) (hits : Hits)
    → (r.tls_version ≢ "1.3") ⊎ (g.ip_blocked r.ip ≢ some false)
    → (evaluate g r hits).hits ≡ hits
evaluate-uncounted g r hits h = screened (evaluate-Ends g r hits)
  where
    late : tls_stage r ≡ none → ip_stage g r ≡ none → ⊥
    late e1 e2 = elim h [ inl n ↦ n ((tls_stage_iff r).0 e1) | inr n ↦ n ((ip_stage_iff g r).0 e2) ]

    early : {d : Denial} {left : Hits} → Fails g r hits d left → left ≡ hits
    early (tls e) = refl
    early (ip e1 e2) = refl
    early (rate e1 e2 _) = absurd (late e1 e2)
    early (validation e1 e2 _ _) = absurd (late e1 e2)
    early (csrf e1 e2 _ _ _) = absurd (late e1 e2)
    early (auth e1 e2 _ _ _ _) = absurd (late e1 e2)
    early (authz e1 e2 _ _ _ _ _) = absurd (late e1 e2)

    screened : {out : Evaluation} → Ends g r hits out → out.hits ≡ hits
    screened (denies d left f e) =
        ap (λ (y : Evaluation). y.hits) e ∙ deny-hits g r left d ∙ early f
    screened (passes p body e1 e2 _ _ _ _ _ e) = absurd (late e1 e2)

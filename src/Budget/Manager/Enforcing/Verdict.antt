-- ===== src/Budget/Manager/Enforcing/Verdict.antt =====
-- What `enforce` decides.
use auxifyai.Prelude.{
  ℕ, ◌*◌, ◌≡◌, ◌≢◌, ◌≤◌, ◌↔◌, refl, subst, ◌∙◌, sym, ap, ◌⊎◌, inl, inr, ◌&&◌, Bool, true, false,
  not, String, some, length, leb, leb→le, str_eq, eq_iff, arith, Bool-cases, Option-cases,
}
use auxifyai.Identity.{TenantContext, ModelTier, economy}
use auxifyai.Budget.{
  team_scope, BudgetScope, BudgetRecord, at_or_over_cap, BudgetEvaluation, BudgetDecision,
  block_user_cap, restrict_to_economy, reject_model_daily_limit, BillableRequest,
}
use auxifyai.Budget.Manager.{BudgetState, get_budget, evaluate, consumed, status_for}
use auxifyai.Budget.Manager.Enforcing.{
  caller_scope, at_cap, model_limit, messages_today, is_economy, allowed_decision, restricts,
  enforce_team, over_model_limit, enforce,
}

-- A scope whose spending has reached the cap of its budget.
pub record AtCap (st : BudgetState) (now : ℕ) (s : BudgetScope) : Type 0 where
  pub budget : BudgetRecord
  pub has_budget : get_budget st s ≡ some budget
  pub reached : budget.limit ≤ consumed st s now

-- A user who has used up the messages that the day's limit allows for a model.
pub record OverLimit (st : BudgetState) (now : ℕ) (ctx : TenantContext) (m : String) : Type 0 where
  pub limit : ℕ
  pub limited : model_limit (get_budget st (caller_scope ctx)) m ≡ some limit
  pub reached : limit ≤ length (messages_today st ctx m now)

-- A Team at its cap that asks for a model that is not an Economy one.
pub record Restricted (st : BudgetState) (now : ℕ) (ctx : TenantContext) (t : ModelTier)
    : Type 0 where
  pub id : String
  pub named : ctx.team_id ≡ some id
  pub is_named : id ≢ ""
  pub costly : t ≢ economy
  pub at_cap : AtCap st now (team_scope ctx.organization_id id)

below :
    {st : BudgetState} {now : ℕ} {s : BudgetScope} (a : AtCap st now s) (b : BudgetRecord)
    → leb b.limit (consumed st s now) ≡ false
    → some b ≡ some a.budget
    → ⊥
below {st} {now} {s} a b f e =
    let same : b ≡ a.budget = ground arith in
    let l : b.limit ≤ consumed st s now =
      subst (λ c. c.limit ≤ consumed st s now) (sym same) a.reached in
    ground arith

le_of_limit :
    {st : BudgetState} {now : ℕ} {ctx : TenantContext} {m : String} (o : OverLimit st now ctx m)
    (limit : ℕ)
    → model_limit (get_budget st (caller_scope ctx)) m ≡ some limit
    → leb limit (length (messages_today st ctx m now)) ≡ true
le_of_limit {st} {now} {ctx} {m} o limit q =
    let same : limit ≡ o.limit = (let e = o.limited in ground arith) in
    let l = o.reached in ground arith

not_reached :
    (spent limit threshold : ℕ)
    → leb limit spent ≡ false
    → status_for spent limit threshold ≢ at_or_over_cap
unfolding status_for
not_reached spent limit threshold f h = ground arith

reached_cap : (e : BudgetEvaluation) → at_cap e ≡ true → e.status ≡ at_or_over_cap
reached_cap e h = ground arith

at_cap-AtCap :
    (st : BudgetState) (now : ℕ) (s : BudgetScope)
    → (at_cap (evaluate st s now) ≡ true) ↔ AtCap st now s
unfolding evaluate status_for
at_cap-AtCap st now s = elim (Option-cases (get_budget st s)) [
  | inl n ↦ (
    λ h.
        absurd (let g : at_cap (evaluate st s now) ≡ false = rw (evaluate, n) refl in ground arith),
    λ a. absurd (let q = a.has_budget in ground arith),
  )
  | inr (b, q) ↦
      let status : (evaluate st s now).status
          ≡ status_for (consumed st s now) b.limit (b.limit * b.alert_threshold) =
        rw (evaluate, q) refl in
      elim (Bool-cases (leb b.limit (consumed st s now))) [
        | inl t ↦ (
          λ h. record { budget = b; has_budget = q; reached = leb→le _ _ t },
          λ a. rw (evaluate, q, status_for, t) refl,
        )
        | inr f ↦ (
          λ h. absurd (not_reached _ _ _ f (sym status ∙ reached_cap (evaluate st s now) h)),
          λ a. absurd (below a b f (sym q ∙ a.has_budget)),
        )
      ]
]

over_model_limit-OverLimit :
    (st : BudgetState) (now : ℕ) (ctx : TenantContext) (req : BillableRequest)
    → (over_model_limit st ctx req now ≡ true) ↔ OverLimit st now ctx req.model_id
unfolding over_model_limit
over_model_limit-OverLimit st now ctx req =
    elim (Option-cases (model_limit (get_budget st (caller_scope ctx)) req.model_id)) [
      | inl n ↦ (
        λ h. absurd (
            let g : over_model_limit st ctx req now ≡ false = rw (over_model_limit, n) refl in
            ground arith),
        λ o. absurd (let q = o.limited in ground arith),
      )
      | inr (limit, q) ↦ (
        λ h. record {
          limit = limit;
          limited = q;
          reached = leb→le _ _ (
              let g : over_model_limit st ctx req now
                  ≡ leb limit (length (messages_today st ctx req.model_id now)) =
                rw (over_model_limit, q) refl in
              sym g ∙ h);
        },
        λ o. rw (over_model_limit, q) (le_of_limit o limit q),
      )
    ]

not_economy : (t : ModelTier) → (not (is_economy t) ≡ true) ↔ (t ≢ economy)
not_economy t = ground arith

not_empty : (id : String) → (not (str_eq id "") ≡ true) ↔ (id ≢ "")
not_empty id = let name = eq_iff id "" in (λ h e. ground arith, λ n. ground arith)

and_parts : (a b c : Bool) → (a && (b && c) ≡ true) ↔ ((a ≡ true) × (b ≡ true) × (c ≡ true))
and_parts a b c = ground arith

restricts-lem :
    (st : BudgetState) (org : String) (req : BillableRequest) (now : ℕ) (id : String)
    → (restricts st org req now id ≡ true)
      ↔ ((id ≢ "") × AtCap st now (team_scope org id) × (req.model_tier ≢ economy))
unfolding restricts
restricts-lem st org req now id =
    let cap = at_cap-AtCap st now (team_scope org id) in
    let tier = not_economy req.model_tier in
    let parts =
      and_parts (not (str_eq id "")) (at_cap (evaluate st (team_scope org id) now))
        (not (is_economy req.model_tier)) in
    (
      λ h. let p = parts.0 h in ((not_empty id).0 p.0, cap.0 p.1, tier.0 p.2),
      λ r. parts.1 ((not_empty id).1 r.0, cap.1 r.1, tier.1 r.2),
    )

not-Restricted :
    (st : BudgetState) (now : ℕ) (ctx : TenantContext) (req : BillableRequest)
    (r : Restricted st now ctx req.model_tier) (id : String)
    → ctx.team_id ≡ some id
    → restricts st ctx.organization_id req now id ≡ false
    → ⊥
not-Restricted st now ctx req r id q f =
    let same : r.id ≡ id = (let n = r.named in ground arith) in
    let t =
      (restricts-lem st ctx.organization_id req now r.id).1 (r.is_named, r.at_cap, r.costly) in
    let u : restricts st ctx.organization_id req now id ≡ true =
      subst (λ i. restricts st ctx.organization_id req now i ≡ true) same t in
    ground arith

not_of : {b : Bool} {P : Type 0} → (b ≡ true) ↔ P → b ≡ false → ¬ P
not_of i f p = absurd (let t = i.1 p in ground arith)

-- The outcomes, in the order of the checks.
pub data Decided (st : BudgetState) (ctx : TenantContext) (req : BillableRequest) (now : ℕ)
    : BudgetDecision → Type 0 where
  user_blocked :
      {d : BudgetDecision}
      → AtCap st now (caller_scope ctx)
      → d.allowed ≡ false
      → d.kind ≡ block_user_cap
      → d.scope ≡ some (caller_scope ctx)
      → Decided st ctx req now d
  model_rejected :
      {d : BudgetDecision}
      → ¬ AtCap st now (caller_scope ctx)
      → OverLimit st now ctx req.model_id
      → d.allowed ≡ false
      → d.kind ≡ reject_model_daily_limit
      → d.scope ≡ some (caller_scope ctx)
      → Decided st ctx req now d
  team_restricted :
      {d : BudgetDecision}
      → ¬ AtCap st now (caller_scope ctx)
      → ¬ OverLimit st now ctx req.model_id
      → Restricted st now ctx req.model_tier
      → d.allowed ≡ false
      → d.kind ≡ restrict_to_economy
      → Decided st ctx req now d
  permitted :
      {d : BudgetDecision}
      → ¬ AtCap st now (caller_scope ctx)
      → ¬ OverLimit st now ctx req.model_id
      → ¬ Restricted st now ctx req.model_tier
      → d ≡ allowed_decision
      → Decided st ctx req now d

-- What the check of the Team decides.
enforce_team-cases :
    (st : BudgetState) (ctx : TenantContext) (req : BillableRequest) (now : ℕ)
    → (¬ Restricted st now ctx req.model_tier)
        × (enforce_team st ctx.organization_id req ctx.team_id now ≡ allowed_decision)
      ⊎ Restricted st now ctx req.model_tier
        × ((enforce_team st ctx.organization_id req ctx.team_id now).allowed ≡ false)
        × ((enforce_team st ctx.organization_id req ctx.team_id now).kind ≡ restrict_to_economy)
unfolding enforce_team
enforce_team-cases st ctx req now = elim (Option-cases ctx.team_id) [
  | inl n ↦ inl (λ r. absurd (let q = r.named in ground arith), rw (n, enforce_team) refl)
  | inr (id, q) ↦ elim (Bool-cases (restricts st ctx.organization_id req now id)) [
    | inl t ↦
        let r = (restricts-lem st ctx.organization_id req now id).0 t in
        inr (
          record { id = id; named = q; is_named = r.0; costly = r.2; at_cap = r.1 },
          rw (q, enforce_team, t) refl,
          rw (q, enforce_team, t) refl,
        )
    | inr f ↦
        inl (λ r. absurd (not-Restricted st now ctx req r id q f), rw (q, enforce_team, f) refl)
  ]
]

-- A request is refused for the cap of the user, else for the day's limit of the model, else, where
-- the Team is at its cap, for a model that is not an Economy one; it is allowed where none of these
-- applies, and only there.
pub enforce-Decided :
    (st : BudgetState) (ctx : TenantContext) (req : BillableRequest) (now : ℕ)
    → Decided st ctx req now (enforce st ctx req now)
unfolding enforce
enforce-Decided st ctx req now = elim (Bool-cases (at_cap (evaluate st (caller_scope ctx) now))) [
  | inl t ↦
      user_blocked ((at_cap-AtCap st now (caller_scope ctx)).0 t) (rw (enforce, t) refl)
        (rw (enforce, t) refl) (rw (enforce, t) refl)
  | inr f ↦
      let under_cap : ¬ AtCap st now (caller_scope ctx) =
        not_of (at_cap-AtCap st now (caller_scope ctx)) f in
      elim (Bool-cases (over_model_limit st ctx req now)) [
        | inl t ↦
            model_rejected under_cap ((over_model_limit-OverLimit st now ctx req).0 t)
              (rw (enforce, f, t) refl) (rw (enforce, f, t) refl) (rw (enforce, f, t) refl)
        | inr g ↦
            let in_limit : ¬ OverLimit st now ctx req.model_id =
              not_of (over_model_limit-OverLimit st now ctx req) g in
            let same : enforce st ctx req now
                ≡ enforce_team st ctx.organization_id req ctx.team_id now =
              rw (enforce, f, g) refl in
            elim (enforce_team-cases st ctx req now) [
              | inl (n, e) ↦ permitted under_cap in_limit n (same ∙ e)
              | inr r ↦
                  team_restricted under_cap in_limit r.0 (ap (λ d. d.allowed) same ∙ r.1)
                    (ap (λ d. d.kind) same ∙ r.2)
            ]
      ]
]

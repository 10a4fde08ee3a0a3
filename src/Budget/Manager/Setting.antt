-- ===== src/Budget/Manager/Setting.antt =====
-- Setting a budget and reading it back.
use auxifyai.Prelude.{
  ℕ, ◌≡◌, ◌≤◌, ◌≢◌, ◌↔◌, refl, ap, ◌∙◌, Bool, ◌⊎◌, inl, inr, true, false, not, String, Option, none,
  some, List, [], ◌∷◌, ◌++◌, All, all, ◌==◌, str_eq, eq_iff, arith, Bool-cases, get_or_else,
}
use auxifyai.Prelude.Maps.{lookup, put, lookup-put, lookup-same, lookup-other}
use auxifyai.Identity.{TenantContext}
use auxifyai.Budget.{BudgetScope, BudgetConfig, BudgetRecord}
use auxifyai.Budget.Store.{set, budget_key}
use auxifyai.Budget.Manager.{
  BudgetState, BudgetEvent, scope_key, created_of, valid_config, record_of, set_event, get_budget,
  set_budget,
}

-- A configuration that may be set: the alert fraction is in (0, 1], and each limit is positive.
pub record ValidConfig (c : BudgetConfig) : Type 0 where
  pub positive : 1 ≤ c.alert_threshold
  pub fraction : c.alert_threshold ≤ 1000
  pub limits : All (λ (m, n). 1 ≤ n) (get_or_else c.per_model_daily_message_limits [])

all_positive :
    (xs : List (String × ℕ)) → all (λ (m, n). not (n == 0)) xs ≡ true → All (λ (m, n). 1 ≤ n) xs
all_positive [] h = tt
all_positive ((m, n) ∷ xs) h = (ground arith, all_positive xs (ground arith))

positive_all :
    (xs : List (String × ℕ)) → All (λ (m, n). 1 ≤ n) xs → all (λ (m, n). not (n == 0)) xs ≡ true
positive_all [] h = refl
positive_all ((m, n) ∷ xs) h = let rest = positive_all xs h.1 in let l = h.0 in ground arith

valid_config-ValidConfig : (c : BudgetConfig) → (valid_config c ≡ true) ↔ ValidConfig c
unfolding valid_config
valid_config-ValidConfig c = (
  λ h. record {
    positive = ground arith;
    fraction = ground arith;
    limits = all_positive _ (ground arith);
  },
  λ v. let a = v.positive in let b = v.fraction in let l = positive_all _ v.limits in ground arith,
)

-- The budget of a scope as a configuration says, with the time at which the scope first had one.
pub record ConfiguredAs (s : BudgetScope) (c : BudgetConfig) (now : ℕ)
    (before : Option BudgetRecord) (b : BudgetRecord) : Type 0 where
  pub of_organization : b.organization_id ≡ s.organization_id
  pub at_level : b.level ≡ s.level
  pub of_ref : b.ref_id ≡ s.ref_id
  pub limit_is : b.limit ≡ c.limit
  pub threshold_is : b.alert_threshold ≡ c.alert_threshold
  pub period_is : b.period ≡ c.period
  pub limits_are : b.per_model_daily_message_limits ≡ c.per_model_daily_message_limits
  pub updated : b.updated_at ≡ now
  pub kept : (old : BudgetRecord) → before ≡ some old → b.created_at ≡ old.created_at
  pub created : before ≡ none → b.created_at ≡ now

-- The scope has the budget, and other scopes and the usage are as they were.
pub record Stored (s : BudgetScope) (st after : BudgetState) (b : BudgetRecord) : Type 0 where
  pub found : get_budget after s ≡ some b
  pub others :
      (o : BudgetScope)
      → budget_key o.organization_id o.level o.ref_id
        ≢ budget_key s.organization_id s.level s.ref_id
      → get_budget after o ≡ get_budget st o
  pub usage_same : after.usage ≡ st.usage
  pub notified_same : after.notified ≡ st.notified

-- The audit event of a budget that is set.
pub record IsEvent (s : BudgetScope) (c : BudgetConfig) (now : ℕ) (e : BudgetEvent) : Type 0 where
  pub action_is : e.action ≡ "budget.set"
  pub resource_is : e.resource_id ≡ scope_key s
  pub at : e.timestamp ≡ now
  pub level_is : e.level ≡ s.level
  pub ref_is : e.ref_id ≡ s.ref_id
  pub limit_is : e.limit ≡ c.limit
  pub threshold_is : e.alert_threshold ≡ c.alert_threshold
  pub period_is : e.period ≡ some c.period

-- What setting a budget does.
pub data Accepts (stores : TenantContext → BudgetEvent → Bool) (ctx : TenantContext)
    (s : BudgetScope) (c : BudgetConfig) (now : ℕ) (st : BudgetState)
    (r : Option BudgetRecord × BudgetState) : Type 0 where
  accepted :
      (b : BudgetRecord) (e : BudgetEvent)
      → s.organization_id ≡ ctx.organization_id
      → ValidConfig c
      → ConfiguredAs s c now (get_budget st s) b
      → IsEvent s c now e
      → stores ctx e ≡ true
      → Stored s st r.1 b
      → r.0 ≡ some b
      → r.1.audited ≡ st.audited ++ ((ctx, e) ∷ [])
      → Accepts stores ctx s c now st r
  unaudited :
      (b : BudgetRecord) (e : BudgetEvent)
      → s.organization_id ≡ ctx.organization_id
      → ValidConfig c
      → ConfiguredAs s c now (get_budget st s) b
      → IsEvent s c now e
      → stores ctx e ≡ false
      → Stored s st r.1 b
      → r.0 ≡ none
      → r.1.audited ≡ st.audited
      → Accepts stores ctx s c now st r
  refused :
      (s.organization_id ≢ ctx.organization_id) ⊎ (¬ ValidConfig c)
      → r ≡ (none, st)
      → Accepts stores ctx s c now st r

get-set :
    (bs : List (String × BudgetRecord)) (k i : String) (b : BudgetRecord)
    → k ≢ i
    → lookup k (put i b bs) ≡ lookup k bs
get-set bs k i b n =
    let f : str_eq k i ≡ false = (let e = eq_iff k i in ground arith) in
    lookup-put k i b bs ∙ lookup-other k i b bs f

record_of-ConfiguredAs :
    (s : BudgetScope) (c : BudgetConfig) (now : ℕ) (before : Option BudgetRecord)
    → ConfiguredAs s c now before (record_of s c before now)
record_of-ConfiguredAs s c now before = record {
  of_organization = refl;
  at_level = refl;
  of_ref = refl;
  limit_is = refl;
  threshold_is = refl;
  period_is = refl;
  limits_are = refl;
  updated = refl;
  kept = λ old e. ap (λ o. created_of o now) e;
  created = λ e. ap (λ o. created_of o now) e;
}

set_event-IsEvent :
    (s : BudgetScope) (c : BudgetConfig) (now : ℕ) → IsEvent s c now (set_event s c now)
set_event-IsEvent s c now = record {
  action_is = refl;
  resource_is = refl;
  at = refl;
  level_is = refl;
  ref_is = refl;
  limit_is = refl;
  threshold_is = refl;
  period_is = refl;
}

set-Stored :
    (s : BudgetScope) (c : BudgetConfig) (now : ℕ) (st : BudgetState)
    (audited : List (TenantContext × BudgetEvent))
    → Stored s st
        (record st {
          budgets = set (record_of s c (get_budget st s) now) st.budgets;
          audited = audited;
        })
        (record_of s c (get_budget st s) now)
set-Stored s c now st audited =
    let b : BudgetRecord = record_of s c (get_budget st s) now in
    let k : String = budget_key s.organization_id s.level s.ref_id in
    record {
      found = lookup-put k k b st.budgets ∙ lookup-same k k b st.budgets ((eq_iff k k).1 refl);
      others = λ o n. get-set st.budgets (budget_key o.organization_id o.level o.ref_id) k b n;
      usage_same = refl;
      notified_same = refl;
    }

-- A budget is set exactly where its scope is of the caller's Organization and its configuration is
-- valid. It is read back as it was set, it keeps the time at which the scope first had one, and the
-- budgets under other keys are as they were. The change is audited once; where the recorder rejects,
-- the call gives no budget, though the budget is set. A setting that is refused changes nothing.
pub set_budget-Accepts :
    (stores : TenantContext → BudgetEvent → Bool) (ctx : TenantContext) (s : BudgetScope)
    (c : BudgetConfig) (now : ℕ) (st : BudgetState)
    → Accepts stores ctx s c now st (set_budget stores ctx s c now st)
unfolding set_budget
set_budget-Accepts stores ctx s c now st =
    elim (Bool-cases (str_eq s.organization_id ctx.organization_id)) [
      | inr f ↦
          refused
            (inl (λ e.
              absurd (let q = (eq_iff s.organization_id ctx.organization_id).1 e in ground arith)))
            (rw (set_budget, f) refl)
      | inl t ↦ elim (Bool-cases (valid_config c)) [
        | inr f ↦
            refused (inr (λ v. absurd (let q = (valid_config-ValidConfig c).1 v in ground arith)))
              (rw (set_budget, t, f) refl)
        | inl v ↦
            let b : BudgetRecord = record_of s c (get_budget st s) now in
            let e : BudgetEvent = set_event s c now in
            let own = (eq_iff s.organization_id ctx.organization_id).0 t in
            let valid = (valid_config-ValidConfig c).0 v in
            let is_set = record_of-ConfiguredAs s c now (get_budget st s) in
            let is_event = set_event-IsEvent s c now in
            elim (Bool-cases (stores ctx e)) [
              | inl a ↦
                  rw (set_budget, t, v, a)
                    (accepted b e own valid is_set is_event a (set-Stored s c now st _) refl refl)
              | inr a ↦
                  rw (set_budget, t, v, a)
                    (unaudited b e own valid is_set is_event a (set-Stored s c now st _) refl refl)
            ]
      ]
    ]

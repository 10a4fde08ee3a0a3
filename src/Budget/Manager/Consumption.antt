-- ===== src/Budget/Manager/Consumption.antt =====
-- What is consumed, and by whom.
use auxifyai.Prelude.{
  ℕ, ◌+◌, ◌≡◌, refl, ap, ◌∙◌, inl, inr, Bool, String, none, List, [], ◌∷◌, if◌then◌else◌, arith,
  Bool-cases,
}
use auxifyai.Identity.{TenantContext}
use auxifyai.Budget.{
  BudgetScope, UsageRecord, RecordUsageInput, PeriodWindow, UsageQuery, BudgetAlert,
}
use auxifyai.Budget.Store.{matches, append}
use auxifyai.Budget.Manager.{BudgetState, total_cost, consumed_in_window}
use auxifyai.Budget.Manager.Recording.{
  usage_record, record_alert, record_alerts, alert_scopes, attributed_scopes, detect_crossings,
  record_usage,
}

-- The records of a scope within a window.
abbrev pub query : BudgetScope → PeriodWindow → UsageQuery
query s w = record {
  organization_id = s.organization_id;
  level = s.level;
  ref_id = s.ref_id;
  from_ms = w.start_ms;
  to_ms = w.end_ms;
  model = none;
}

-- What a record adds to what a scope consumes within a window.
abbrev pub share : UsageRecord → BudgetScope → PeriodWindow → ℕ
share r s w = if matches (query s w) r then r.cost else 0

pub consumed-cons :
    (r : UsageRecord) (rs : List UsageRecord) (s : BudgetScope) (w : PeriodWindow)
    → consumed_in_window (r ∷ rs) s w ≡ share r s w + consumed_in_window rs s w
unfolding consumed_in_window total_cost
consumed-cons r rs s w = elim (Bool-cases (matches (query s w) r)) [
  | inl t ↦ rw (t, total_cost) refl
  | inr f ↦ rw (f, total_cost) (omega arith)
]

pub consumed-append :
    (r : UsageRecord) (rs : List UsageRecord) (s : BudgetScope) (w : PeriodWindow)
    → consumed_in_window (append r rs) s w ≡ consumed_in_window rs s w + share r s w
unfolding consumed_in_window total_cost
consumed-append r [] s w = consumed-cons r [] s w ∙ omega arith
consumed-append r (q ∷ rs) s w =
    let a = consumed-cons q (append r rs) s w in
    let b = consumed-append r rs s w in let c = consumed-cons q rs s w in a ∙ omega (arith, b, c)

pub alerts_keep :
    (notifies : Bool) (ctx : TenantContext) (t : ℕ) (alerts : List BudgetAlert) (st : BudgetState)
    → ((record_alerts notifies ctx t alerts st).usage ≡ st.usage)
      × ((record_alerts notifies ctx t alerts st).budgets ≡ st.budgets)
unfolding record_alerts record_alert
alerts_keep notifies ctx t [] st = (refl, refl)
alerts_keep notifies ctx t (a ∷ alerts) st =
    alerts_keep notifies ctx t alerts (record_alert notifies ctx t a st)

scopes_keep :
    (notifies : Bool) (ctx : TenantContext) (r : UsageRecord) (ss : List BudgetScope)
    (st : BudgetState)
    → ((alert_scopes notifies ctx r ss st).1.usage ≡ st.usage)
      × ((alert_scopes notifies ctx r ss st).1.budgets ≡ st.budgets)
unfolding alert_scopes
scopes_keep notifies ctx r [] st = (refl, refl)
scopes_keep notifies ctx r (s ∷ ss) st =
    let found = detect_crossings st s r in
    let next = record_alerts notifies ctx r.created_at found st in
    let a = scopes_keep notifies ctx r ss next in
    let b = alerts_keep notifies ctx r.created_at found st in (a.0 ∙ b.0, a.1 ∙ b.1)

-- Recording a request adds its one record to the usage, and leaves the budgets.
pub record_usage-keep :
    (notifies : Bool) (ctx : TenantContext) (i : RecordUsageInput) (now : ℕ) (fresh : String)
    (st : BudgetState)
    → ((record_usage notifies ctx i now fresh st).1.usage
        ≡ append (usage_record ctx i now fresh) st.usage)
      × ((record_usage notifies ctx i now fresh st).1.budgets ≡ st.budgets)
unfolding record_usage
record_usage-keep notifies ctx i now fresh st =
    let r = usage_record ctx i now fresh in
    scopes_keep notifies ctx r (attributed_scopes r) (record st { usage = append r st.usage })

-- Recording a request adds its cost to what each scope that it is attributed to consumes in a window
-- with its time, and nothing to any other scope or window.
pub record_usage-consumes :
    (notifies : Bool) (ctx : TenantContext) (i : RecordUsageInput) (now : ℕ) (fresh : String)
    (st : BudgetState) (s : BudgetScope) (w : PeriodWindow)
    → consumed_in_window (record_usage notifies ctx i now fresh st).1.usage s w
      ≡ consumed_in_window st.usage s w + share (usage_record ctx i now fresh) s w
record_usage-consumes notifies ctx i now fresh st s w =
    ap (λ rs. consumed_in_window rs s w) (record_usage-keep notifies ctx i now fresh st).0
    ∙ consumed-append (usage_record ctx i now fresh) st.usage s w

-- ===== src/Budget/Manager.antt =====
-- The class `BudgetManager` (budget-manager.ts) over the in-memory stores. The state of the stores
-- is passed in and returned, with the events that are audited and the alerts that are notified.
pub mod Enforcing
pub mod Setting
pub mod Recording
pub mod Consumption
pub mod Reconciling
pub mod Crossings
pub mod Alerts
use Prim.Native.String.{◌++◌ as text_append}
use auxifyai.Prelude.{
  ℕ, ◌+◌, ◌-◌, ◌*◌, ◌&&◌, ◌⊎◌, inl, inr, Bool, true, false, not, String, Option, none, some, List,
  [], ◌∷◌, ◌++◌, length, all, if◌then◌else◌, ltb, leb, ◌==◌, str_eq, get_or_else,
}
use auxifyai.Prelude.Maps.{lookup}
use auxifyai.Identity.{TenantContext, ModelTier, economy}
use auxifyai.Budget.{
  BudgetScope, BudgetScopeLevel, organization, team, project, user, BudgetPeriod, month,
  BudgetConfig, BudgetRecord, UsageRecord, RecordUsageInput, PeriodWindow, BudgetStatusLevel,
  no_budget, under, threshold_warning, at_or_over_cap, Remaining, left, over, BudgetEvaluation,
  BudgetDecision, allow, block_user_cap, restrict_to_economy, reject_model_daily_limit,
  BillableRequest, BudgetAlert, BudgetAlertKind, threshold_crossed, cap_reached, period_window,
  day_window,
}
use auxifyai.Budget.Store.{Budgets, level_name, get, set, append, list}

-- An audit event of the manager. A set has the period, a crossing what is consumed.
pub record BudgetEvent : Type 0 where
  pub action : String
  pub resource_id : String
  pub timestamp : ℕ
  pub level : BudgetScopeLevel
  pub ref_id : String
  pub limit : ℕ
  pub consumed : Option ℕ
  pub alert_threshold : ℕ
  pub period : Option BudgetPeriod

pub record BudgetState : Type 0 where
  pub budgets : Budgets
  pub usage : List UsageRecord
  pub audited : List (TenantContext × BudgetEvent)
  pub notified : List (TenantContext × BudgetAlert)

unfoldable pub scope_key : BudgetScope → String
scope_key s = text_append (level_name s.level) (text_append ":" s.ref_id)

-- A number that is not finite or not an integer, and another text for the period, have no value here.
unfoldable pub valid_config : BudgetConfig → Bool
valid_config c =
    not (c.alert_threshold == 0)
    && (leb c.alert_threshold 1000
        && all (λ (model, n). not (n == 0)) (get_or_else c.per_model_daily_message_limits []))

abbrev pub created_of : Option BudgetRecord → ℕ → ℕ
created_of none now = now
created_of (some b) now = b.created_at

abbrev pub record_of : BudgetScope → BudgetConfig → Option BudgetRecord → ℕ → BudgetRecord
record_of s c existing now = record {
  organization_id = s.organization_id;
  level = s.level;
  ref_id = s.ref_id;
  limit = c.limit;
  alert_threshold = c.alert_threshold;
  period = c.period;
  per_model_daily_message_limits = c.per_model_daily_message_limits;
  created_at = created_of existing now;
  updated_at = now;
}

abbrev pub set_event : BudgetScope → BudgetConfig → ℕ → BudgetEvent
set_event s c now = record {
  action = "budget.set";
  resource_id = scope_key s;
  timestamp = now;
  level = s.level;
  ref_id = s.ref_id;
  limit = c.limit;
  consumed = none;
  alert_threshold = c.alert_threshold;
  period = some c.period;
}

abbrev pub get_budget : BudgetState → BudgetScope → Option BudgetRecord
get_budget st s = get st.budgets s.organization_id s.level s.ref_id

-- No value is an InvalidBudgetConfigError, or an audit recorder that rejects: `stores` says whether it
-- stores an event. The budget is set by then.
unfoldable pub set_budget :
    (TenantContext → BudgetEvent → Bool)
    → TenantContext
    → BudgetScope
    → BudgetConfig
    → ℕ
    → BudgetState
    → Option BudgetRecord × BudgetState
set_budget stores ctx s c now st =
    if not (str_eq s.organization_id ctx.organization_id)
    then (none, st)
    else if not (valid_config c)
    then (none, st)
    else if stores ctx (set_event s c now)
    then (
      some (record_of s c (get_budget st s) now),
      record st {
        budgets = set (record_of s c (get_budget st s) now) st.budgets;
        audited = st.audited ++ ((ctx, set_event s c now) ∷ []);
      },
    )
    else (none, record st { budgets = set (record_of s c (get_budget st s) now) st.budgets })

unfoldable pub total_cost : List UsageRecord → ℕ
total_cost [] = 0
total_cost (r ∷ rs) = r.cost + total_cost rs

unfoldable pub consumed_in_window : List UsageRecord → BudgetScope → PeriodWindow → ℕ
consumed_in_window rs s w = total_cost (
    list
      (record {
        organization_id = s.organization_id;
        level = s.level;
        ref_id = s.ref_id;
        from_ms = w.start_ms;
        to_ms = w.end_ms;
        model = none;
      })
      rs)

-- `DEFAULT_NO_BUDGET_PERIOD` is the month.
abbrev pub period_of : Option BudgetRecord → BudgetPeriod
period_of none = month
period_of (some b) = b.period

abbrev pub window_of : BudgetState → BudgetScope → ℕ → PeriodWindow
window_of st s now = period_window (period_of (get_budget st s)) now

unfoldable pub consumed : BudgetState → BudgetScope → ℕ → ℕ
consumed st s now = consumed_in_window st.usage s (window_of st s now)

-- The threshold amount, and so what is compared with it, is in thousandths.
unfoldable pub status_for : ℕ → ℕ → ℕ → BudgetStatusLevel
status_for spent limit threshold =
    if leb limit spent
    then at_or_over_cap
    else if leb threshold (spent * 1000)
    then threshold_warning
    else under

unfoldable pub remaining_of : ℕ → ℕ → Remaining
remaining_of limit spent = if leb spent limit then left (limit - spent) else over (spent - limit)

unfoldable pub evaluate : BudgetState → BudgetScope → ℕ → BudgetEvaluation
evaluate st s now = elim (get_budget st s) [
  | none ↦ record {
    scope = s;
    status = no_budget;
    limit = none;
    consumed = consumed st s now;
    remaining = none;
    alert_threshold = none;
    threshold_amount = none;
    period = window_of st s now;
  }
  | some b ↦ record {
    scope = s;
    status = status_for (consumed st s now) b.limit (b.limit * b.alert_threshold);
    limit = some b.limit;
    consumed = consumed st s now;
    remaining = some (remaining_of b.limit (consumed st s now));
    alert_threshold = some b.alert_threshold;
    threshold_amount = some (b.limit * b.alert_threshold);
    period = window_of st s now;
  }
]

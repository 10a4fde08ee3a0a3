-- ===== src/Budget.antt =====
-- The Budget_Manager: services/core/src/budget (types.ts, period.ts). Amounts are natural numbers of the
-- accounting currency's smallest unit, and an alert fraction is a number of thousandths. Instants,
-- which the source writes as ISO text, are natural numbers of milliseconds. The reason texts are left
-- out.
pub mod Store
pub mod Manager
pub mod Windows
use auxifyai.Prelude.{ℕ, ◌+◌, ◌-◌, ◌*◌, ◌/◌, Bool, true, false, String, Option, none, some, List}
use auxifyai.Prelude.Calendar.{Civil, civil, utc_days}
use auxifyai.Identity.{ModelTier}

pub data BudgetScopeLevel : Type 0 where
  organization team project user : BudgetScopeLevel

pub record BudgetScope : Type 0 where
  pub organization_id : String
  pub level : BudgetScopeLevel
  pub ref_id : String

abbrev pub organization_scope : String → BudgetScope
organization_scope org = record { organization_id = org; level = organization; ref_id = org }

abbrev pub team_scope : String → String → BudgetScope
team_scope org id = record { organization_id = org; level = team; ref_id = id }

abbrev pub project_scope : String → String → BudgetScope
project_scope org id = record { organization_id = org; level = project; ref_id = id }

abbrev pub user_scope : String → String → BudgetScope
user_scope org id = record { organization_id = org; level = user; ref_id = id }

pub data BudgetPeriod : Type 0 where
  day month : BudgetPeriod

pub record BudgetConfig : Type 0 where
  pub limit : ℕ
  pub alert_threshold : ℕ
  pub period : BudgetPeriod
  pub per_model_daily_message_limits : Option (List (String × ℕ))

pub record BudgetRecord : Type 0 where
  pub organization_id : String
  pub level : BudgetScopeLevel
  pub ref_id : String
  pub limit : ℕ
  pub alert_threshold : ℕ
  pub period : BudgetPeriod
  pub per_model_daily_message_limits : Option (List (String × ℕ))
  pub created_at : ℕ
  pub updated_at : ℕ

pub record UsageRecord : Type 0 where
  pub id : String
  pub organization_id : String
  pub team_id : String
  pub project_id : String
  pub user_id : String
  pub model : String
  pub provider : String
  pub input_tokens : ℕ
  pub output_tokens : ℕ
  pub cost : ℕ
  pub latency_ms : ℕ
  pub request_type : String
  pub tool_call_count : ℕ
  pub created_at : ℕ

pub record RecordUsageInput : Type 0 where
  pub id : Option String
  pub team_id : Option String
  pub project_id : Option String
  pub user_id : Option String
  pub model : String
  pub provider : String
  pub input_tokens : Option ℕ
  pub output_tokens : Option ℕ
  pub cost : ℕ
  pub latency_ms : Option ℕ
  pub request_type : Option String
  pub tool_call_count : Option ℕ
  pub created_at : Option ℕ

pub record PeriodWindow : Type 0 where
  pub start_ms : ℕ
  pub end_ms : ℕ

pub data BudgetStatusLevel : Type 0 where
  no_budget under threshold_warning at_or_over_cap : BudgetStatusLevel

-- `limit - consumed`, which may be negative.
pub data Remaining : Type 0 where
  left over : ℕ → Remaining

-- The threshold amount is in thousandths.
pub record BudgetEvaluation : Type 0 where
  pub scope : BudgetScope
  pub status : BudgetStatusLevel
  pub limit : Option ℕ
  pub consumed : ℕ
  pub remaining : Option Remaining
  pub alert_threshold : Option ℕ
  pub threshold_amount : Option ℕ
  pub period : PeriodWindow

pub data BudgetDecisionKind : Type 0 where
  allow block_user_cap restrict_to_economy reject_model_daily_limit : BudgetDecisionKind

pub record BudgetDecision : Type 0 where
  pub allowed : Bool
  pub kind : BudgetDecisionKind
  pub scope : Option BudgetScope
  pub evaluation : Option BudgetEvaluation

pub record BillableRequest : Type 0 where
  pub model_id : String
  pub model_tier : ModelTier

pub record UsageQuery : Type 0 where
  pub organization_id : String
  pub level : BudgetScopeLevel
  pub ref_id : String
  pub from_ms : ℕ
  pub to_ms : ℕ
  pub model : Option String

pub data BudgetAlertKind : Type 0 where
  threshold_crossed cap_reached : BudgetAlertKind

pub record BudgetAlert : Type 0 where
  pub kind : BudgetAlertKind
  pub scope : BudgetScope
  pub limit : ℕ
  pub consumed : ℕ
  pub alert_threshold : ℕ
  pub period : PeriodWindow

abbrev pub day_ms : ℕ
day_ms = 86_400_000

unfoldable pub period_window : BudgetPeriod → ℕ → PeriodWindow
period_window day now =
    let c = civil (now / day_ms) in
    record {
      start_ms = utc_days c.year (c.month - 1) c.date * day_ms;
      end_ms = utc_days c.year (c.month - 1) (c.date + 1) * day_ms;
    }
period_window month now =
    let c = civil (now / day_ms) in
    record {
      start_ms = utc_days c.year (c.month - 1) 1 * day_ms;
      end_ms = utc_days c.year (c.month - 1 + 1) 1 * day_ms;
    }

abbrev pub day_window : ℕ → PeriodWindow
day_window now = period_window day now

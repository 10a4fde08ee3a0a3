-- ===== src/Budget/Manager/Alerts.antt =====
-- Each alert of a user's budget is raised once.
use auxifyai.Prelude.{ℕ, Bool, String, List, [], ◌∷◌, ◌++◌}
use auxifyai.Identity.{TenantContext}
use auxifyai.Budget.{
  user_scope, BudgetRecord, UsageRecord, RecordUsageInput, PeriodWindow, BudgetAlert,
  BudgetAlertKind,
}
use auxifyai.Budget.Manager.{BudgetState, consumed_in_window}
use auxifyai.Budget.Manager.Recording.{record_usage}

module _ (k : BudgetAlertKind) (org id : String) (b : BudgetRecord) (w : PeriodWindow) where
  abbrev spent : List UsageRecord → ℕ
  spent rs = consumed_in_window rs (user_scope org id) w

-- Requests of one caller, with the time and the fresh id of each.
pub record Billed : Type 0 where
  pub input : RecordUsageInput
  pub now : ℕ
  pub fresh : String

unfoldable pub record_all :
    Bool → TenantContext → List Billed → BudgetState → List BudgetAlert × BudgetState
record_all notifies ctx [] st = ([], st)
record_all notifies ctx (q ∷ qs) st =
    let (r, next) = record_usage notifies ctx q.input q.now q.fresh st in
    let (rest, last) = record_all notifies ctx qs next in (r.alerts ++ rest, last)

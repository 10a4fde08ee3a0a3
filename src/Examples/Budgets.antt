-- ===== src/Examples/Budgets.antt =====
-- Tests of the Budget_Manager, and its theorems at concrete inputs.
use auxifyai.Prelude.{
  ℕ, ◌+◌, ◌≡◌, ◌↔◌, refl, inl, inr, Bool, true, false, none, some, List, [], ◌∷◌, arith,
}
use auxifyai.Prelude.Maps.{lookup}
use auxifyai.Prelude.Calendar.{
  civil, years_of, last_year, days_before, months_before, find_month, days_in_month, utc_days,
}
use auxifyai.Identity.{TenantContext, standard}
use auxifyai.Budget.{
  user, user_scope, team_scope, organization_scope, month, BudgetConfig, BudgetRecord, UsageRecord,
  period_window,
}
use auxifyai.Budget.Windows.{Contains, SamePeriod, period_window-Contains, period_window-same}
use auxifyai.Budget.Store.{budget_key}
use auxifyai.Budget.Manager.{BudgetState, BudgetEvent, set_budget, valid_config, consumed_in_window}
use auxifyai.Budget.Manager.Setting.{Accepts, set_budget-Accepts}
use auxifyai.Budget.Manager.Enforcing.{enforce}
use auxifyai.Budget.Manager.Enforcing.Verdict.{Decided, enforce-Decided}
use auxifyai.Budget.Manager.Recording.{record_usage, usage_record}
use auxifyai.Budget.Manager.Consumption.{share, record_usage-consumes}
use auxifyai.Budget.Manager.Reconciling.{consumed_by, consumed-reconciles}
use auxifyai.Budget.Manager.Alerts.{Billed}

abbrev caller : TenantContext
caller = record { organization_id = "o1"; user_id = "u1"; team_id = some "t1"; project_id = none }

-- A cap of 100 a month, with an alert at 80 %.
abbrev config : BudgetConfig
config = record {
  limit = 100;
  alert_threshold = 800;
  period = month;
  per_model_daily_message_limits = some (("gpt", 2) ∷ []);
}

abbrev nothing : BudgetState
nothing = record { budgets = []; usage = []; audited = []; notified = [] }

-- The second of January 2024.
abbrev second : ℕ
second = 1_704_153_600_000

abbrev budget : BudgetRecord
budget = record {
  organization_id = "o1";
  level = user;
  ref_id = "u1";
  limit = 100;
  alert_threshold = 800;
  period = month;
  per_model_daily_message_limits = some (("gpt", 2) ∷ []);
  created_at = second;
  updated_at = second;
}

abbrev with_budget : BudgetState
with_budget = record {
  budgets = (budget_key "o1" user "u1", budget) ∷ [];
  usage = [];
  audited = [];
  notified = [];
}

abbrev request : ℕ → ℕ → Billed
request cost at = record {
  input = record {
    id = none;
    team_id = none;
    project_id = none;
    user_id = none;
    model = "gpt";
    provider = "p";
    input_tokens = none;
    output_tokens = none;
    cost = cost;
    latency_ms = none;
    request_type = none;
    tool_call_count = none;
    created_at = some at;
  };
  now = at;
  fresh = "f";
}

january :
    period_window month second ≡ record { start_ms = 1_704_067_200_000; end_ms = 1_706_745_600_000 }
unfolding period_window civil years_of last_year days_before find_month days_in_month utc_days
    months_before
january = refl

abbrev recorded : TenantContext → BudgetEvent → Bool
recorded ctx e = true

-- Where the recorder rejects, the budget is set all the same.
unrecorded_set :
    (set_budget (λ ctx e. false) caller (user_scope "o1" "u1") config second nothing).0 ≡ none
unfolding set_budget valid_config
unrecorded_set = refl

budget_set :
    (set_budget recorded caller (user_scope "o1" "u1") config second nothing).0 ≡ some budget
unfolding set_budget valid_config lookup
budget_set = refl

set_budget-Accepts_example :
    Accepts recorded caller
      (user_scope "o1" "u1")
      config
      second
      nothing
      (set_budget recorded caller (user_scope "o1" "u1") config second nothing)
set_budget-Accepts_example =
    set_budget-Accepts recorded caller (user_scope "o1" "u1") config second nothing

enforce-Decided_example :
    Decided with_budget caller
      (record { model_id = "gpt"; model_tier = standard })
      second
      (enforce with_budget caller (record { model_id = "gpt"; model_tier = standard }) second)
enforce-Decided_example =
    enforce-Decided with_budget caller (record { model_id = "gpt"; model_tier = standard }) second

period_window-Contains_example : Contains (period_window month second) second
period_window-Contains_example = period_window-Contains month second

in_january : Contains (period_window month second) 1_704_240_000_000
unfolding period_window civil years_of last_year days_before find_month days_in_month utc_days
    months_before
in_january = record { from = omega arith; to = omega arith }

period_window-same_example :
    Contains (period_window month second) second
    × (Contains (period_window month second) 1_704_240_000_000
        ↔ SamePeriod month second 1_704_240_000_000)
    × (SamePeriod month second 1_704_240_000_000
        → period_window month 1_704_240_000_000 ≡ period_window month second)
period_window-same_example = period_window-same month second 1_704_240_000_000

record_usage-consumes_example :
    consumed_in_window
      (record_usage true caller (request 60 second).input second "f" with_budget).1.usage
      (team_scope "o1" "t1")
      (period_window month second)
    ≡ consumed_in_window with_budget.usage (team_scope "o1" "t1") (period_window month second)
      + share
          (usage_record caller (request 60 second).input second "f")
          (team_scope "o1" "t1")
          (period_window month second)
record_usage-consumes_example =
    record_usage-consumes true caller (request 60 second).input second "f" with_budget
      (team_scope "o1" "t1") (period_window month second)

abbrev usage : List UsageRecord
usage =
    usage_record caller (request 60 second).input second "f"
    ∷ usage_record (record caller { user_id = "u2" }) (request 5 second).input second "g"
    ∷ []

consumed-reconciles_example :
    consumed_in_window usage (organization_scope "o1") (period_window month second)
    ≡ consumed_by usage "o1" user (period_window month second) ("u1" ∷ "u2" ∷ [])
consumed-reconciles_example =
    consumed-reconciles usage "o1" user (period_window month second) ("u1" ∷ "u2" ∷ [])
      ((refl, tt), (tt, tt)) (inl refl, (inr (inl refl), tt))

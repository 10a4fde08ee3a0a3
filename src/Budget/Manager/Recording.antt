-- ===== src/Budget/Manager/Recording.antt =====
-- `BudgetManager.recordUsage`: the attribution of a cost, and the alerts that it raises.
use auxifyai.Prelude.{
  ℕ, ◌-◌, ◌*◌, ◌&&◌, ◌||◌, Bool, String, none, some, List, [], ◌∷◌, ◌++◌, if◌then◌else◌, ltb, leb,
  ◌==◌, str_eq, get_or_else,
}
use auxifyai.Identity.{TenantContext}
use auxifyai.Budget.{
  organization_scope, team_scope, project_scope, user_scope, BudgetScope, BudgetRecord, UsageRecord,
  RecordUsageInput, PeriodWindow, BudgetAlert, BudgetAlertKind, threshold_crossed, cap_reached,
  period_window,
}
use auxifyai.Budget.Store.{append}
use auxifyai.Budget.Manager.{BudgetState, BudgetEvent, scope_key, get_budget, consumed_in_window}

pub record RecordUsageResult : Type 0 where
  pub record_ : UsageRecord
  pub alerts : List BudgetAlert

-- `fresh` is the id that the generator would give.
abbrev pub usage_record : TenantContext → RecordUsageInput → ℕ → String → UsageRecord
usage_record ctx i now fresh = record {
  id = get_or_else i.id fresh;
  organization_id = ctx.organization_id;
  team_id = get_or_else i.team_id (get_or_else ctx.team_id "");
  project_id = get_or_else i.project_id (get_or_else ctx.project_id "");
  user_id = get_or_else i.user_id ctx.user_id;
  model = i.model;
  provider = i.provider;
  input_tokens = get_or_else i.input_tokens 0;
  output_tokens = get_or_else i.output_tokens 0;
  cost = i.cost;
  latency_ms = get_or_else i.latency_ms 0;
  request_type = get_or_else i.request_type "chat";
  tool_call_count = get_or_else i.tool_call_count 0;
  created_at = get_or_else i.created_at now;
}

-- A Team or a Project that is empty is not attributed to.
abbrev pub scope_at : BudgetScope → List BudgetScope
scope_at s = if str_eq s.ref_id "" then [] else s ∷ []

unfoldable pub attributed_scopes : UsageRecord → List BudgetScope
attributed_scopes r =
    organization_scope r.organization_id
    ∷ (scope_at (team_scope r.organization_id r.team_id)
        ++ (scope_at (project_scope r.organization_id r.project_id)
            ++ (user_scope r.organization_id r.user_id ∷ [])))

abbrev pub build_alert :
    BudgetAlertKind → BudgetScope → BudgetRecord → ℕ → PeriodWindow → BudgetAlert
build_alert k s b spent w = record {
  kind = k;
  scope = s;
  limit = b.limit;
  consumed = spent;
  alert_threshold = b.alert_threshold;
  period = w;
}

abbrev pub crossing : Bool → BudgetAlert → List BudgetAlert
crossing c a = if c then a ∷ [] else []

-- The alerts where spending goes from `before` to `after`.
abbrev pub crossings : BudgetScope → BudgetRecord → PeriodWindow → ℕ → ℕ → List BudgetAlert
crossings s b w before after =
    crossing
      (ltb (before * 1000) (b.limit * b.alert_threshold)
        && leb (b.limit * b.alert_threshold) (after * 1000))
      (build_alert threshold_crossed s b after w)
    ++ crossing (ltb before b.limit && leb b.limit after) (build_alert cap_reached s b after w)

-- The record is stored already.
unfoldable pub detect_crossings : BudgetState → BudgetScope → UsageRecord → List BudgetAlert
detect_crossings st s r = elim (get_budget st s) [
  | none ↦ []
  | some b ↦
      let w = period_window b.period r.created_at in
      let after = consumed_in_window st.usage s w in
      if (r.cost == 0) || (ltb r.created_at w.start_ms || leb w.end_ms r.created_at)
      then []
      else crossings s b w (after - r.cost) after
]

abbrev pub action_of : BudgetAlertKind → String
action_of cap_reached = "budget.cap_reached"
action_of threshold_crossed = "budget.threshold_warning"

abbrev pub alert_event : BudgetAlert → ℕ → BudgetEvent
alert_event a timestamp = record {
  action = action_of a.kind;
  resource_id = scope_key a.scope;
  timestamp = timestamp;
  level = a.scope.level;
  ref_id = a.scope.ref_id;
  limit = a.limit;
  consumed = some a.consumed;
  alert_threshold = a.alert_threshold;
  period = none;
}

-- `recordAlert`; the notifier is optional.
unfoldable pub record_alert : Bool → TenantContext → ℕ → BudgetAlert → BudgetState → BudgetState
record_alert notifies ctx timestamp a st = record st {
  audited = st.audited ++ ((ctx, alert_event a timestamp) ∷ []);
  notified = if notifies then st.notified ++ ((ctx, a) ∷ []) else st.notified;
}

unfoldable pub record_alerts :
    Bool → TenantContext → ℕ → List BudgetAlert → BudgetState → BudgetState
record_alerts notifies ctx timestamp [] st = st
record_alerts notifies ctx timestamp (a ∷ alerts) st =
    record_alerts notifies ctx timestamp alerts (record_alert notifies ctx timestamp a st)

-- The loop over the scopes.
unfoldable pub alert_scopes :
    Bool
    → TenantContext
    → UsageRecord
    → List BudgetScope
    → BudgetState
    → List BudgetAlert × BudgetState
alert_scopes notifies ctx r [] st = ([], st)
alert_scopes notifies ctx r (s ∷ ss) st =
    let found = detect_crossings st s r in
    let (rest, after) =
      alert_scopes notifies ctx r ss (record_alerts notifies ctx r.created_at found st) in
    (found ++ rest, after)

unfoldable pub record_usage :
    Bool
    → TenantContext
    → RecordUsageInput
    → ℕ
    → String
    → BudgetState
    → RecordUsageResult × BudgetState
record_usage notifies ctx i now fresh st =
    let r = usage_record ctx i now fresh in
    let (alerts, after) =
      alert_scopes notifies ctx r (attributed_scopes r) (record st { usage = append r st.usage }) in
    (record { record_ = r; alerts = alerts }, after)

-- ===== src/Budget/Manager/Enforcing.antt =====
-- `BudgetManager.enforce`: the checks in order.
pub mod Verdict
use auxifyai.Prelude.{
  ℕ, ◌*◌, ◌≡◌, ◌≢◌, ◌≤◌, ◌↔◌, refl, subst, ◌∙◌, sym, ap, ◌⊎◌, inl, inr, ◌&&◌, Bool, true, false,
  not, String, Option, none, some, List, length, if◌then◌else◌, leb, leb→le, str_eq, eq_iff, arith,
  Bool-cases, Option-cases,
}
use auxifyai.Prelude.Maps.{lookup}
use auxifyai.Identity.{TenantContext, ModelTier, economy}
use auxifyai.Budget.{
  team_scope, user_scope, BudgetScope, user, BudgetRecord, UsageRecord, at_or_over_cap,
  BudgetEvaluation, BudgetDecision, allow, block_user_cap, restrict_to_economy,
  reject_model_daily_limit, BillableRequest, day_window,
}
use auxifyai.Budget.Store.{list}
use auxifyai.Budget.Manager.{BudgetState, get_budget, evaluate, consumed, status_for}

abbrev pub caller_scope : TenantContext → BudgetScope
caller_scope ctx = user_scope ctx.organization_id ctx.user_id

abbrev pub at_cap : BudgetEvaluation → Bool
at_cap e = elim e.status [ at_or_over_cap ↦ true | _ ↦ false ]

-- `userBudget?.perModelDailyMessageLimits?.[req.modelId]`
abbrev pub model_limit : Option BudgetRecord → String → Option ℕ
model_limit none m = none
model_limit (some b) m = elim b.per_model_daily_message_limits [
  | none ↦ none
  | some limits ↦ lookup m limits
]

unfoldable pub messages_today : BudgetState → TenantContext → String → ℕ → List UsageRecord
messages_today st ctx m now =
    list
      (record {
        organization_id = ctx.organization_id;
        level = user;
        ref_id = ctx.user_id;
        from_ms = (day_window now).start_ms;
        to_ms = (day_window now).end_ms;
        model = some m;
      })
      st.usage

abbrev pub is_economy : ModelTier → Bool
is_economy t = elim t [ economy ↦ true | _ ↦ false ]

abbrev pub allowed_decision : BudgetDecision
allowed_decision = record { allowed = true; kind = allow; scope = none; evaluation = none }

-- A named Team at its cap, and a model that is not an Economy one.
unfoldable pub restricts : BudgetState → String → BillableRequest → ℕ → String → Bool
restricts st org req now id =
    not (str_eq id "")
    && (at_cap (evaluate st (team_scope org id) now) && not (is_economy req.model_tier))

-- The check of the Team, where the context names one.
unfoldable pub enforce_team :
    BudgetState → String → BillableRequest → Option String → ℕ → BudgetDecision
enforce_team st org req none now = allowed_decision
enforce_team st org req (some id) now =
    if restricts st org req now id
    then record {
      allowed = false;
      kind = restrict_to_economy;
      scope = some (team_scope org id);
      evaluation = some (evaluate st (team_scope org id) now);
    }
    else allowed_decision

unfoldable pub over_model_limit : BudgetState → TenantContext → BillableRequest → ℕ → Bool
over_model_limit st ctx req now =
    elim (model_limit (get_budget st (caller_scope ctx)) req.model_id) [
      | none ↦ false
      | some limit ↦ leb limit (length (messages_today st ctx req.model_id now))
    ]

unfoldable pub enforce : BudgetState → TenantContext → BillableRequest → ℕ → BudgetDecision
enforce st ctx req now =
    let e = evaluate st (caller_scope ctx) now in
    if at_cap e
    then record {
      allowed = false;
      kind = block_user_cap;
      scope = some (caller_scope ctx);
      evaluation = some e;
    }
    else if over_model_limit st ctx req now
    then record {
      allowed = false;
      kind = reject_model_daily_limit;
      scope = some (caller_scope ctx);
      evaluation = none;
    }
    else enforce_team st ctx.organization_id req ctx.team_id now

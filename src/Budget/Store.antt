-- ===== src/Budget/Store.antt =====
-- The in-memory stores (fakes.ts), which stand for the durable ones in tests.
use Prim.Native.String.{◌++◌ as text_append}
use auxifyai.Prelude.{
  ◌&&◌, Bool, true, String, Option, none, some, List, [], ◌∷◌, ◌++◌, filter, ltb, leb, str_eq,
}
use auxifyai.Prelude.Maps.{lookup, put}
use auxifyai.Budget.{
  BudgetScopeLevel, organization, team, project, user, BudgetRecord, UsageRecord, UsageQuery,
}

abbrev pub Budgets : Type 0
Budgets = List (String × BudgetRecord)

abbrev pub level_name : BudgetScopeLevel → String
level_name organization = "organization"
level_name team = "team"
level_name project = "project"
level_name user = "user"

unfoldable pub budget_key : String → BudgetScopeLevel → String → String
budget_key org level ref =
    text_append org (text_append "\0" (text_append (level_name level) (text_append "\0" ref)))

abbrev pub get : Budgets → String → BudgetScopeLevel → String → Option BudgetRecord
get bs org level ref = lookup (budget_key org level ref) bs

abbrev pub set : BudgetRecord → Budgets → Budgets
set b bs = put (budget_key b.organization_id b.level b.ref_id) b bs

unfoldable pub matches_scope : UsageRecord → BudgetScopeLevel → String → Bool
matches_scope r organization ref = str_eq r.organization_id ref
matches_scope r team ref = str_eq r.team_id ref
matches_scope r project ref = str_eq r.project_id ref
matches_scope r user ref = str_eq r.user_id ref

abbrev pub matches_model : Option String → UsageRecord → Bool
matches_model none r = true
matches_model (some m) r = str_eq r.model m

unfoldable pub matches : UsageQuery → UsageRecord → Bool
matches q r =
    str_eq r.organization_id q.organization_id
    && (matches_scope r q.level q.ref_id
        && (matches_model q.model r && (leb q.from_ms r.created_at && ltb r.created_at q.to_ms)))

abbrev pub append : UsageRecord → List UsageRecord → List UsageRecord
append r rs = rs ++ (r ∷ [])

abbrev pub list : UsageQuery → List UsageRecord → List UsageRecord
list q rs = filter (matches q) rs

-- ===== src/Budget/Manager/Crossings.antt =====
-- The alerts of a user's budget over a sequence of requests.
use auxifyai.Prelude.{
  ℕ, ◌+◌, ◌-◌, ◌*◌, ◌≡◌, refl, ◌∙◌, ap, inl, inr, ◌&&◌, ◌||◌, Bool, true, false, not, String, some,
  List, [], ◌∷◌, ◌++◌, if◌then◌else◌, filter, length, leb, ltb, ◌==◌, str_eq, arith, Bool-cases,
  Option-cases,
}
use auxifyai.Identity.{TenantContext}
use auxifyai.Budget.{
  BudgetScope, BudgetScopeLevel, user, organization_scope, team_scope, project_scope, user_scope,
  BudgetRecord, UsageRecord, PeriodWindow, BudgetAlert, BudgetAlertKind, threshold_crossed,
  cap_reached, period_window,
}
use auxifyai.Budget.Manager.{BudgetState, get_budget, consumed_in_window}
use auxifyai.Budget.Manager.Recording.{
  crossings, detect_crossings, record_alerts, alert_scopes, scope_at, attributed_scopes,
}
use auxifyai.Budget.Manager.Consumption.{alerts_keep}

-- Spending that has reached the alert threshold, or the cap.
abbrev pub reach : BudgetAlertKind → BudgetRecord → ℕ → Bool
reach threshold_crossed b spent = leb (b.limit * b.alert_threshold) (spent * 1000)
reach cap_reached b spent = leb b.limit spent

abbrev same_kind : BudgetAlertKind → BudgetAlertKind → Bool
same_kind threshold_crossed threshold_crossed = true
same_kind threshold_crossed cap_reached = false
same_kind cap_reached threshold_crossed = false
same_kind cap_reached cap_reached = true

abbrev is_user : BudgetScopeLevel → Bool
is_user l = elim l [ user ↦ true | _ ↦ false ]

abbrev pub of_user : BudgetAlertKind → String → BudgetAlert → Bool
of_user k id a = same_kind k a.kind && (is_user a.scope.level && str_eq a.scope.ref_id id)

-- How many alerts of a kind are about a user.
unfoldable pub alerts_of : BudgetAlertKind → String → List BudgetAlert → ℕ
alerts_of k id alerts = length (filter (of_user k id) alerts)

-- One alert, where spending goes from below a bound to it or past it.
abbrev pub once_if : Bool → Bool → ℕ
once_if before after = if not before && after then 1 else 0

pub alerts_of-append :
    (k : BudgetAlertKind) (id : String) (xs ys : List BudgetAlert)
    → alerts_of k id (xs ++ ys) ≡ alerts_of k id xs + alerts_of k id ys
unfolding alerts_of
alerts_of-append k id [] ys = omega arith
alerts_of-append k id (x ∷ xs) ys = ground (arith, alerts_of-append k id xs ys)

crossings-count :
    (k : BudgetAlertKind) (id : String) (s : BudgetScope) (b : BudgetRecord) (w : PeriodWindow)
    (before after : ℕ)
    → alerts_of k id (crossings s b w before after) ≡ (
        if is_user s.level && str_eq s.ref_id id
        then once_if (reach k b before) (reach k b after)
        else 0)
unfolding alerts_of
crossings-count threshold_crossed id s b w before after = ground arith
crossings-count cap_reached id s b w before after = ground arith

-- The alerts for some scopes, with the stores as they are.
abbrev pub detected : BudgetState → UsageRecord → List BudgetScope → List BudgetAlert
detected st r [] = []
detected st r (s ∷ ss) = detect_crossings st s r ++ detected st r ss

detect-same :
    (st st' : BudgetState) (s : BudgetScope) (r : UsageRecord)
    → st'.usage ≡ st.usage
    → st'.budgets ≡ st.budgets
    → detect_crossings st' s r ≡ detect_crossings st s r
unfolding detect_crossings
detect-same st st' s r u b = rw (u, b) refl

detected-same :
    (st st' : BudgetState) (r : UsageRecord) (ss : List BudgetScope)
    → st'.usage ≡ st.usage
    → st'.budgets ≡ st.budgets
    → detected st' r ss ≡ detected st r ss
detected-same st st' r [] u b = refl
detected-same st st' r (s ∷ ss) u b =
    ap (λ xs. xs ++ detected st' r ss) (detect-same st st' s r u b)
    ∙ ap (λ xs. detect_crossings st s r ++ xs) (detected-same st st' r ss u b)

pub alert_scopes-detected :
    (notifies : Bool) (ctx : TenantContext) (r : UsageRecord) (ss : List BudgetScope)
    (st : BudgetState)
    → (alert_scopes notifies ctx r ss st).0 ≡ detected st r ss
unfolding alert_scopes
alert_scopes-detected notifies ctx r [] st = refl
alert_scopes-detected notifies ctx r (s ∷ ss) st =
    let found = detect_crossings st s r in
    let next = record_alerts notifies ctx r.created_at found st in
    let keep = alerts_keep notifies ctx r.created_at found st in
    ap (λ xs. found ++ xs)
      (alert_scopes-detected notifies ctx r ss next ∙ detected-same st next r ss keep.0 keep.1)

-- Whether a record is skipped: it costs nothing, or is outside of its own window.
abbrev pub skipped : BudgetRecord → UsageRecord → Bool
skipped b r =
    (r.cost == 0)
    || (ltb r.created_at (period_window b.period r.created_at).start_ms
        || leb (period_window b.period r.created_at).end_ms r.created_at)

-- What a scope consumes with and without a record.
abbrev after_of : BudgetState → BudgetScope → BudgetRecord → UsageRecord → ℕ
after_of st s b r = consumed_in_window st.usage s (period_window b.period r.created_at)

no_alerts : (k : BudgetAlertKind) (id : String) → alerts_of k id [] ≡ 0
unfolding alerts_of
no_alerts k id = refl

no_count : (b : Bool) (n : ℕ) → (if b && false then n else 0) ≡ 0
no_count b n = ground arith

pub detect-count :
    (k : BudgetAlertKind) (id : String) (st : BudgetState) (s : BudgetScope) (r : UsageRecord)
    (b : BudgetRecord)
    → get_budget st s ≡ some b
    → alerts_of k id (detect_crossings st s r) ≡ (
        if not (skipped b r) && (is_user s.level && str_eq s.ref_id id)
        then once_if (reach k b (after_of st s b r - r.cost)) (reach k b (after_of st s b r))
        else 0)
unfolding detect_crossings
detect-count k id st s r b q = elim (Bool-cases (skipped b r)) [
  | inl t ↦ rw (detect_crossings, q, t) (no_alerts k id)
  | inr f ↦
      rw (detect_crossings, q, f)
        (crossings-count k id s b (period_window b.period r.created_at) (after_of st s b r - r.cost)
          (after_of st s b r))
]

-- Only the scope of the user counts.
pub detected-other :
    (k : BudgetAlertKind) (id : String) (st : BudgetState) (s : BudgetScope) (r : UsageRecord)
    → (is_user s.level && str_eq s.ref_id id) ≡ false
    → alerts_of k id (detect_crossings st s r) ≡ 0
unfolding detect_crossings
detected-other k id st s r f = elim (Option-cases (get_budget st s)) [
  | inl n ↦ rw (detect_crossings, n) (no_alerts k id)
  | inr (b, q) ↦ detect-count k id st s r b q ∙ rw f (no_count (not (skipped b r)) _)
]

detected-scope_at :
    (k : BudgetAlertKind) (id : String) (st : BudgetState) (s : BudgetScope) (r : UsageRecord)
    (ss : List BudgetScope)
    → (is_user s.level && str_eq s.ref_id id) ≡ false
    → alerts_of k id (detected st r (scope_at s ++ ss)) ≡ alerts_of k id (detected st r ss)
detected-scope_at k id st s r ss f = elim (Bool-cases (str_eq s.ref_id "")) [
  | inl t ↦ rw t refl
  | inr g ↦ rw g (
      let a = alerts_of-append k id (detect_crossings st s r) (detected st r ss) in
      let b = detected-other k id st s r f in a ∙ omega (arith, b))
]

-- The alerts about a user that a record raises are those of the user's scope.
pub detected-user :
    (k : BudgetAlertKind) (id : String) (st : BudgetState) (r : UsageRecord)
    → alerts_of k id (detected st r (attributed_scopes r))
      ≡ alerts_of k id (detect_crossings st (user_scope r.organization_id r.user_id) r)
unfolding attributed_scopes
detected-user k id st r =
    let org = r.organization_id in
    let user_part = user_scope org r.user_id ∷ [] in
    let a = alerts_of-append k id (detect_crossings st (organization_scope org) r) (
      detected st r (
        scope_at (team_scope org r.team_id)
        ++ (scope_at (project_scope org r.project_id) ++ user_part))) in
    let b = detected-other k id st (organization_scope org) r refl in
    let c =
      detected-scope_at k id st (team_scope org r.team_id) r
        (scope_at (project_scope org r.project_id) ++ user_part) refl in
    let d = detected-scope_at k id st (project_scope org r.project_id) r user_part refl in
    let e = alerts_of-append k id (detect_crossings st (user_scope org r.user_id) r) [] in
    let z = no_alerts k id in a ∙ omega (arith, b, c, d, e, z)

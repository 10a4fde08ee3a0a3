-- ===== src/Budget/Windows.antt =====
-- The windows of the periods.
use auxifyai.Prelude.{ℕ, suc, ◌+◌, ◌-◌, ◌*◌, ◌/◌, ◌≡◌, ◌≤◌, ◌<◌, ◌↔◌, sym, ap, subst, ◌∙◌, arith}
use auxifyai.Prelude.Calendar.{Civil, civil, utc_days, days_before, months_before, days_in_month}
use auxifyai.Prelude.Calendar.Dates.{IsCivil, civil-IsCivil, utc_days-month, utc_days-next_month}
use auxifyai.Prelude.Calendar.Months.{month_start, same_month}
use auxifyai.Budget.{BudgetPeriod, day, month, PeriodWindow, period_window, day_ms}

-- A window that runs from an instant at or before a time to one after it.
pub record Contains (w : PeriodWindow) (now : ℕ) : Type 0 where
  pub from : w.start_ms ≤ now
  pub to : now < w.end_ms

month_day :
    (n : ℕ) (c : Civil) (i : IsCivil n c) (e : ℕ)
    → utc_days c.year (c.month - 1) e ≡ days_before i.n + months_before (1970 + i.n) i.b + (e - 1)
month_day n c i e =
    let m : c.month - 1 ≡ i.b = (let q = i.month_is in omega arith) in
    rw (i.year_is, m) (utc_days-month i.n i.b e i.month_bound)

next_month :
    (n : ℕ) (c : Civil) (i : IsCivil n c)
    → utc_days c.year (c.month - 1 + 1) 1
      ≡ days_before i.n + months_before (1970 + i.n) i.b + days_in_month (1970 + i.n) (suc i.b)
next_month n c i =
    let m : c.month - 1 ≡ i.b = (let q = i.month_is in omega arith) in
    rw (i.year_is, m) (utc_days-next_month i.n i.b i.month_bound)

abbrev pub window : ℕ → ℕ → PeriodWindow
window a z = record { start_ms = a * day_ms; end_ms = z * day_ms }

same_window : {a b x y : ℕ} → a ≡ b → x ≡ y → window a x ≡ window b y
same_window e f = cc

start_eq : {n n' b b' : ℕ} → n ≡ n' → b ≡ b' → month_start n b ≡ month_start n' b'
start_eq {n' = n'} {b = b} e f = ap (λ n. month_start n b) e ∙ ap (λ b. month_start n' b) f

end_eq :
    {n n' b b' : ℕ}
    → n ≡ n'
    → b ≡ b'
    → month_start n b + days_in_month (1970 + n) (suc b)
      ≡ month_start n' b' + days_in_month (1970 + n') (suc b')
end_eq {n' = n'} {b = b} e f =
    ap (λ n. month_start n b + days_in_month (1970 + n) (suc b)) e
    ∙ ap (λ b. month_start n' b + days_in_month (1970 + n') (suc b)) f

day_window-days : (now : ℕ) → period_window day now ≡ window (now / day_ms) (suc (now / day_ms))
unfolding period_window
day_window-days now =
    let c = civil-IsCivil (now / day_ms) in
    let e = month_day (now / day_ms) _ c (civil (now / day_ms)).date in
    let f = month_day (now / day_ms) _ c ((civil (now / day_ms)).date + 1) in
    let p = c.place in
    let q = c.date_is in same_window (omega (arith, e, p, q)) (omega (arith, f, p, q))

-- The month of a time.
abbrev month_of : (now : ℕ) → IsCivil (now / day_ms) (civil (now / day_ms))
month_of now = civil-IsCivil (now / day_ms)

abbrev month_end : ℕ → ℕ → ℕ
month_end n b = month_start n b + days_in_month (1970 + n) (suc b)

month_window-days :
    (now : ℕ)
    → period_window month now
      ≡ window
          (month_start (month_of now).n (month_of now).b)
          (month_end (month_of now).n (month_of now).b)
unfolding period_window
month_window-days now =
    same_window (month_day (now / day_ms) _ (month_of now) 1 ∙ omega arith)
      (next_month (now / day_ms) _ (month_of now))

month_of-bounds :
    (now : ℕ)
    → (month_start (month_of now).n (month_of now).b ≤ now / day_ms)
      × (now / day_ms < month_end (month_of now).n (month_of now).b)
month_of-bounds now =
    let p = (month_of now).place in let q = (month_of now).date_bound in (omega arith, omega arith)

in_days : (a z now : ℕ) → a ≤ now / day_ms → now / day_ms < z → Contains (window a z) now
in_days a z now h k = record { from = omega arith; to = omega arith }

days_in : (a z now : ℕ) → Contains (window a z) now → (a ≤ now / day_ms) × (now / day_ms < z)
days_in a z now c = let f = c.from in let t = c.to in (omega arith, omega arith)

-- The window of a period contains the time that it is taken at.
pub period_window-Contains : (p : BudgetPeriod) (now : ℕ) → Contains (period_window p now) now
period_window-Contains day now =
    subst (λ w. Contains w now) (sym (day_window-days now))
      (in_days _ _ now (omega arith) (omega arith))
period_window-Contains month now =
    let b = month_of-bounds now in
    subst (λ w. Contains w now) (sym (month_window-days now)) (in_days _ _ now b.0 b.1)

window-same :
    (p : BudgetPeriod) (now t : ℕ)
    → Contains (period_window p now) t
    → period_window p t ≡ period_window p now
window-same day now t c =
    let d = days_in _ _ t (subst (λ w. Contains w t) (day_window-days now) c) in
    let e : t / day_ms ≡ now / day_ms = omega (arith, d.0, d.1) in
    day_window-days t ∙ ap (λ n. window n (suc n)) e ∙ sym (day_window-days now)
window-same month now t c =
    let d = days_in _ _ t (subst (λ w. Contains w t) (month_window-days now) c) in
    let b = month_of-bounds t in
    let i = month_of t in
    let j = month_of now in
    let e = same_month i.n i.b j.n j.b (t / day_ms) i.month_bound j.month_bound b.0 b.1 d.0 d.1 in
    month_window-days t
    ∙ same_window (start_eq e.0 e.1) (end_eq e.0 e.1)
    ∙ sym (month_window-days now)

-- Two times on one day, or in one month of one year, in UTC.
abbrev pub SamePeriod : BudgetPeriod → ℕ → ℕ → Type 0
SamePeriod day now t = t / day_ms ≡ now / day_ms
SamePeriod month now t =
    ((civil (t / day_ms)).year ≡ (civil (now / day_ms)).year)
    × ((civil (t / day_ms)).month ≡ (civil (now / day_ms)).month)

SamePeriod-Contains :
    (p : BudgetPeriod) (now t : ℕ) → SamePeriod p now t → Contains (period_window p now) t
SamePeriod-Contains day now t s =
    subst (λ w. Contains w t) (sym (day_window-days now))
      (in_days _ _ t (omega (arith, s)) (omega (arith, s)))
SamePeriod-Contains month now t s =
    let i = month_of t in
    let j = month_of now in
    let n : i.n ≡ j.n = omega (arith, i.year_is, j.year_is, s.0) in
    let b : i.b ≡ j.b = omega (arith, i.month_is, j.month_is, s.1) in
    let e : period_window month t ≡ period_window month now =
      month_window-days t ∙ same_window (start_eq n b) (end_eq n b) ∙ sym (month_window-days now) in
    subst (λ w. Contains w t) e (period_window-Contains month t)

Contains-SamePeriod :
    (p : BudgetPeriod) (now t : ℕ) → Contains (period_window p now) t → SamePeriod p now t
Contains-SamePeriod day now t c =
    let d = days_in _ _ t (subst (λ w. Contains w t) (day_window-days now) c) in
    omega (arith, d.0, d.1)
Contains-SamePeriod month now t c =
    let d = days_in _ _ t (subst (λ w. Contains w t) (month_window-days now) c) in
    let b = month_of-bounds t in
    let i = month_of t in
    let j = month_of now in
    let e = same_month i.n i.b j.n j.b (t / day_ms) i.month_bound j.month_bound b.0 b.1 d.0 d.1 in
    (omega (arith, i.year_is, j.year_is, e.0), omega (arith, i.month_is, j.month_is, e.1))

-- The windows of a period part the time into the days, or the months, of UTC: a window contains the
-- time that it is taken at, and has just the times of the same day or month, and each of these has
-- the same window.
pub period_window-same :
    (p : BudgetPeriod) (now t : ℕ)
    → Contains (period_window p now) now
      × (Contains (period_window p now) t ↔ SamePeriod p now t)
      × (SamePeriod p now t → period_window p t ≡ period_window p now)
period_window-same p now t = (
  period_window-Contains p now,
  (Contains-SamePeriod p now t, SamePeriod-Contains p now t),
  λ s. window-same p now t (SamePeriod-Contains p now t s),
)

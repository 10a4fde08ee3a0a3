-- ===== src/Prelude/Calendar.antt =====
-- The UTC getters of JavaScript's `Date` on days since 1970-01-01, as ECMAScript defines them: the
-- year is the last one that starts no later than the day.
pub mod Dates
pub mod Months
use auxifyai.Prelude.{
  ℕ, zero, suc, ◌+◌, ◌-◌, ◌*◌, ◌/◌, ◌≡◌, ◌≤◌, ◌<◌, refl, Bool, true, false, not, ◌||◌, ltb, leb,
  ◌==◌, if◌then◌else◌, arith, ◌⊎◌, Bool-cases, subst, sym, ap, inl, inr, ltb→lt,
}
use Prim.Native.Nat.{◌%◌}

abbrev pub is_leap : ℕ → Bool
is_leap y = if not (y % 4 == 0) then false else if not (y % 100 == 0) then true else y % 400 == 0

unfoldable pub days_in_month : ℕ → ℕ → ℕ
days_in_month y m =
    if m == 2
    then (if is_leap y then 29 else 28)
    else if (m == 4) || ((m == 6) || ((m == 9) || (m == 11)))
    then 30
    else 31

abbrev pub days_in_year : ℕ → ℕ
days_in_year y = if is_leap y then 366 else 365

-- `DayFromYear(1970 + n)`
unfoldable pub days_before : ℕ → ℕ
days_before n = 365 * n + (n + 1) / 4 - (n + 69) / 100 + (n + 369) / 400

-- The last of the years up to n, counted from 1970, that starts no later than the day.
unfoldable pub last_year : ℕ → ℕ → ℕ
last_year day zero = 0
last_year day (suc n) = elim (leb (days_before (suc n)) day) [
  | true ↦ suc n
  | false ↦ last_year day n
]

unfoldable pub years_of : ℕ → ℕ
years_of day = last_year day (day / 365)

-- The month and the day of the month, from the days that are left after month m starts.
unfoldable pub find_month : ℕ → ℕ → ℕ → ℕ → ℕ × ℕ
find_month y zero m d = (m, suc d)
find_month y (suc left) m d = elim (ltb d (days_in_month y m)) [
  | true ↦ (m, suc d)
  | false ↦ find_month y left (suc m) (d - days_in_month y m)
]

pub record Civil : Type 0 where
  pub year : ℕ
  pub month : ℕ
  pub date : ℕ

unfoldable pub civil : ℕ → Civil
civil day =
    let n = years_of day in
    let (m, d) = find_month (1970 + n) 11 1 (day - days_before n) in
    record { year = 1970 + n; month = m; date = d }

-- The days of the year before month m.
unfoldable pub months_before : ℕ → ℕ → ℕ
months_before y zero = 0
months_before y (suc m) = months_before y m + days_in_month y (suc m)

-- `Date.UTC(y, m, d)` in days: months count from 0, and what is past the end of a year or a month
-- goes into the next.
unfoldable pub utc_days : ℕ → ℕ → ℕ → ℕ
utc_days y m d =
    let year = y + m / 12 in days_before (year - 1970) + months_before year (m % 12) + (d - 1)

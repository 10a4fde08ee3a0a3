-- ===== src/Prelude/Calendar/Dates.antt =====
-- The date of a day, and the day of a date.
use auxifyai.Prelude.{
  ℕ, zero, suc, ◌+◌, ◌-◌, ◌*◌, ◌/◌, ◌≡◌, ◌≤◌, ◌<◌, refl, false, ltb, arith, ◌⊎◌, Bool-cases, subst,
  sym, ap, inl, inr, ltb→lt,
}
use Prim.Native.Nat.{◌%◌}
use auxifyai.Prelude.Calendar.{
  days_in_month, days_in_year, days_before, last_year, years_of, find_month, Civil, civil,
  months_before, utc_days,
}

pub days_before-suc : (n : ℕ) → days_before (suc n) ≡ days_before n + days_in_year (1970 + n)
unfolding days_before
days_before-suc n = ground arith

pub days_before-ge : (n : ℕ) → 365 * n ≤ days_before n
unfolding days_before
days_before-ge n = omega arith

days_before_zero : (day : ℕ) → days_before 0 ≤ day
unfolding days_before
days_before_zero day = omega arith

last_year-bounds :
    (day n : ℕ)
    → day < days_before (suc n)
    → (days_before (last_year day n) ≤ day) × (day < days_before (suc (last_year day n)))
unfolding last_year
last_year-bounds day zero h = (days_before_zero day, h)
last_year-bounds day (suc n) h = ground (arith, last_year-bounds day n)

pub years_of-bounds :
    (day : ℕ) → (days_before (years_of day) ≤ day) × (day < days_before (suc (years_of day)))
unfolding years_of
years_of-bounds day =
    last_year-bounds day (day / 365) (let g = days_before-ge (suc (day / 365)) in omega arith)

-- Month r.0 and day r.1 of the month are those of day d of the year.
pub record InMonth (y d : ℕ) (r : ℕ × ℕ) : Type 0 where
  pub before : ℕ
  pub is_month : r.0 ≡ suc before
  pub month_bound : before ≤ 11
  pub first : 1 ≤ r.1
  pub last : r.1 ≤ days_in_month y (suc before)
  pub place : months_before y before + r.1 ≡ suc d

leb_of : (a b : ℕ) → ltb a b ≡ false → b ≤ a
leb_of a b h = ground arith

pub december : (y m : ℕ) → m ≡ 11 → months_before y 12 ≡ months_before y m + days_in_month y (suc m)
unfolding months_before
december y m e =
    subst (λ k. months_before y 12 ≡ months_before y k + days_in_month y (suc k)) (sym e) refl

find_month-InMonth :
    (y left m d n : ℕ)
    → m + left ≡ 11
    → n ≡ months_before y m + d
    → n < months_before y 12
    → InMonth y n (find_month y left (suc m) d)
unfolding find_month months_before
find_month-InMonth y zero m d n e k b =
    let e' : m ≡ 11 = omega arith in
    let q : months_before y 12 ≡ months_before y m + days_in_month y (suc m) = december y m e' in
    record {
      before = m;
      is_month = refl;
      month_bound = omega arith;
      first = omega arith;
      last = omega (arith, q, k, b);
      place = omega (arith, k);
    }
find_month-InMonth y (suc left) m d n e k b = elim (Bool-cases (ltb d (days_in_month y (suc m)))) [
  | inl t ↦
      rw (find_month, t)
        (record {
          before = m;
          is_month = refl;
          month_bound = omega arith;
          first = omega arith;
          last = (let l = ltb→lt _ _ t in omega arith);
          place = omega (arith, k);
        })
  | inr f ↦
      rw (find_month, f)
        (find_month-InMonth y left (suc m) (d - days_in_month y (suc m)) n (omega arith)
          (let l = leb_of _ _ f in omega arith) b)
]

pub year_length : (y : ℕ) → months_before y 12 ≡ days_in_year y
unfolding months_before days_in_month
year_length y = ground arith

-- The civil date of a day: n years after 1970, b months and d days into them.
pub record IsCivil (day : ℕ) (c : Civil) : Type 0 where
  pub n : ℕ
  pub b : ℕ
  pub d : ℕ
  pub year_is : c.year ≡ 1970 + n
  pub month_is : c.month ≡ suc b
  pub date_is : c.date ≡ suc d
  pub month_bound : b ≤ 11
  pub date_bound : d < days_in_month (1970 + n) (suc b)
  pub place : days_before n + months_before (1970 + n) b + d ≡ day

day_of_year : {a d y z m : ℕ} → a ≤ d → d < z → z ≡ a + y → m ≡ y → d - a < m
day_of_year h k e w = omega arith

pub civil-IsCivil : (day : ℕ) → IsCivil day (civil day)
unfolding civil months_before
civil-IsCivil day =
    let n : ℕ = years_of day in
    let b = years_of-bounds day in
    let l = days_before-suc n in
    let w = year_length (1970 + n) in
    let m =
      find_month-InMonth (1970 + n) 11 0 (day - days_before n) (day - days_before n) (omega arith)
        (omega arith) (day_of_year b.0 b.1 l w) in
    let p = m.place in
    let f = m.first in
    let g = m.last in
    let before = b.0 in
    record {
      n = n;
      b = m.before;
      d = (find_month (1970 + n) 11 1 (day - days_before n)).1 - 1;
      year_is = refl;
      month_is = m.is_month;
      date_is = omega arith;
      month_bound = m.month_bound;
      date_bound = omega (arith, f, g);
      place = omega (arith, p, f, before);
    }

-- `Date.UTC` of a month that is given from 0.
pub utc_days-month :
    (n b d : ℕ)
    → b ≤ 11
    → utc_days (1970 + n) b d ≡ days_before n + months_before (1970 + n) b + (d - 1)
unfolding utc_days
utc_days-month n b d h =
    let q : b / 12 ≡ 0 = omega arith in
    let r : b % 12 ≡ b = omega arith in
    let y : 1970 + n + b / 12 ≡ 1970 + n = omega arith in
    let z : 1970 + n + b / 12 - 1970 ≡ n = omega arith in
    rw (y, r) (ap (λ k. days_before k + months_before (1970 + n) b + (d - 1)) (omega arith))

last_or_not : (b : ℕ) → b ≤ 11 → (b ≡ 11) ⊎ (suc b ≤ 11)
last_or_not b h = ground arith

new_year : (n : ℕ) → utc_days (1970 + n) (11 + 1) 1 ≡ days_before (suc n)
unfolding utc_days months_before
new_year n = let z : 1970 + n + 1 - 1970 ≡ suc n = omega arith in rw z (omega arith)

-- The month after the last one is the first of the next year.
pub utc_days-next_month :
    (n b : ℕ)
    → b ≤ 11
    → utc_days (1970 + n) (b + 1) 1
      ≡ days_before n + months_before (1970 + n) b + days_in_month (1970 + n) (suc b)
unfolding utc_days months_before
utc_days-next_month n b h = elim (last_or_not b h) [
  | inl e ↦
      let w = year_length (1970 + n) in
      let l = days_before-suc n in
      let q = december (1970 + n) b e in
      subst
        (λ k.
          utc_days (1970 + n) (k + 1) 1
          ≡ days_before n + months_before (1970 + n) b + days_in_month (1970 + n) (suc b))
        (sym e) (rw (new_year n) (omega (arith, l, w, q)))
  | inr g ↦
      let m = utc_days-month n (suc b) 1 g in
      subst
        (λ k.
          utc_days (1970 + n) k 1
          ≡ days_before n + months_before (1970 + n) b + days_in_month (1970 + n) (suc b))
        (let e : suc b ≡ b + 1 = omega arith in e) (omega (arith, m))
]

-- ===== src/Prelude/Calendar/Months.antt =====
-- The months part the days.
use auxifyai.Prelude.{ℕ, zero, suc, ◌+◌, ◌-◌, ◌≡◌, ◌≤◌, ◌<◌, arith, ◌⊎◌, subst, sym, inl, inr}
use auxifyai.Prelude.Calendar.{days_in_month, days_before, months_before}
use auxifyai.Prelude.Calendar.Dates.{days_before-suc, year_length}

days_before-grows : (n k : ℕ) → days_before n ≤ days_before (n + k)
days_before-grows n zero =
    subst (λ m. days_before n ≤ days_before m) (let e : n ≡ n + 0 = omega arith in e) (omega arith)
days_before-grows n (suc k) =
    let g = days_before-grows n k in
    let l = days_before-suc (n + k) in
    subst (λ m. days_before n ≤ days_before m) (let e : suc (n + k) ≡ n + suc k = omega arith in e)
      (omega (arith, l, g))

months_before-grows : (y b k : ℕ) → months_before y b ≤ months_before y (b + k)
unfolding months_before
months_before-grows y b zero =
    subst (λ m. months_before y b ≤ months_before y m) (let e : b ≡ b + 0 = omega arith in e)
      (omega arith)
months_before-grows y b (suc k) =
    let g = months_before-grows y b k in
    subst (λ m. months_before y b ≤ months_before y m)
      (let e : suc (b + k) ≡ b + suc k = omega arith in e) (omega (arith, g))

-- The days up to month b of the year n.
abbrev pub month_start : ℕ → ℕ → ℕ
month_start n b = days_before n + months_before (1970 + n) b

-- A later month starts no earlier than a month ends.
months_apart :
    (y b k : ℕ) → months_before y b + days_in_month y (suc b) ≤ months_before y (suc b + k)
unfolding months_before
months_apart y b k = months_before-grows y (suc b) k

years_apart :
    (n b k : ℕ)
    → b ≤ 11
    → month_start n b + days_in_month (1970 + n) (suc b) ≤ days_before (suc n + k)
years_apart n b k h =
    let g = days_before-grows (suc n) k in
    let l = days_before-suc n in
    let w = year_length (1970 + n) in
    let m = months_apart (1970 + n) b (11 - b) in
    let e : suc b + (11 - b) ≡ 12 = omega arith in
    let m' =
      subst
        (λ j.
          months_before (1970 + n) b + days_in_month (1970 + n) (suc b)
          ≤ months_before (1970 + n) j)
        e m in
    omega (arith, g, l, w, m')

trichotomy : (a b : ℕ) → (a < b) ⊎ (b < a) ⊎ (a ≡ b)
trichotomy a b = ground arith

three_ways : (a b : ℕ) → ((k : ℕ) × (b ≡ suc a + k)) ⊎ ((k : ℕ) × (a ≡ suc b + k)) ⊎ (a ≡ b)
three_ways a b = elim (trichotomy a b) [
  | inl l ↦ inl (b - suc a, omega arith)
  | inr (inl l) ↦ inr (inl (a - suc b, omega arith))
  | inr (inr e) ↦ inr (inr e)
]

same_month_of_year :
    (n b b' day : ℕ)
    → month_start n b ≤ day
    → day < month_start n b + days_in_month (1970 + n) (suc b)
    → month_start n b' ≤ day
    → day < month_start n b' + days_in_month (1970 + n) (suc b')
    → b ≡ b'
same_month_of_year n b b' day l u l' u' = elim (three_ways b b') [
  | inl (k, e) ↦ absurd (
      let a =
        subst
          (λ m.
            months_before (1970 + n) b + days_in_month (1970 + n) (suc b)
            ≤ months_before (1970 + n) m)
          (sym e) (months_apart (1970 + n) b k) in
      omega (arith, a, u, l'))
  | inr (inl (k, e)) ↦ absurd (
      let a =
        subst
          (λ m.
            months_before (1970 + n) b' + days_in_month (1970 + n) (suc b')
            ≤ months_before (1970 + n) m)
          (sym e) (months_apart (1970 + n) b' k) in
      omega (arith, a, u', l))
  | inr (inr e) ↦ e
]

-- Months that share a day are the same.
pub same_month :
    (n b n' b' day : ℕ)
    → b ≤ 11
    → b' ≤ 11
    → month_start n b ≤ day
    → day < month_start n b + days_in_month (1970 + n) (suc b)
    → month_start n' b' ≤ day
    → day < month_start n' b' + days_in_month (1970 + n') (suc b')
    → (n ≡ n') × (b ≡ b')
same_month n b n' b' day h h' l u l' u' = elim (three_ways n n') [
  | inl (k, e) ↦ absurd (
      let a =
        subst (λ m. month_start n b + days_in_month (1970 + n) (suc b) ≤ days_before m) (sym e)
          (years_apart n b k h) in
      omega (arith, a, u, l'))
  | inr (inl (k, e)) ↦ absurd (
      let a =
        subst (λ m. month_start n' b' + days_in_month (1970 + n') (suc b') ≤ days_before m) (sym e)
          (years_apart n' b' k h') in
      omega (arith, a, u', l))
  | inr (inr e) ↦ (
    e,
    same_month_of_year n b b' day l u (subst (λ m. month_start m b' ≤ day) (sym e) l')
        (subst (λ m. day < month_start m b' + days_in_month (1970 + m) (suc b')) (sym e) u'),
  )
]

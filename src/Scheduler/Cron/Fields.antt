-- ===== src/Scheduler/Cron/Fields.antt =====
-- What the fields of a cron expression stand for.
use auxifyai.Prelude.{
  ℕ, zero, suc, ◌+◌, ◌-◌, ◌*◌, ◌≡◌, ◌≤◌, ◌<◌, ◌↔◌, refl, sym, ap, subst, ◌∙◌, ◌⊎◌, inl, inr, ◌||◌,
  Bool, true, false, Option, none, some, List, [], ◌∷◌, ◌++◌, Any, arith, Bool-cases, Option-cases,
  leb, ltb, ◌==◌, get_or_else,
}
use auxifyai.Scheduler.Cron.{
  CronPart, empty, part, CronRange, step_of, range_of, count_up, in_bounds, part_values,
  parse_cron_field, has,
}

-- A part that stands for a value: its range is within the bounds of the field, and the value is in
-- the range, a number of steps from the first.
pub record Covers (min max n : ℕ) (r : CronRange) (s : Option (Option ℕ)) : Type 0 where
  pub lo : ℕ
  pub hi : ℕ
  pub step : ℕ
  pub is_step : step_of s ≡ some step
  pub spans : range_of r min max ≡ some (lo, hi)
  pub low : min ≤ lo
  pub high : hi ≤ max
  pub steps : ℕ
  pub place : n ≡ lo + steps * step
  pub below : n ≤ hi

abbrev pub StandsFor : ℕ → ℕ → ℕ → CronPart → Type 0
StandsFor min max n empty = ⊥
StandsFor min max n (part r s) = Covers min max n r s

or_right : (a b : Bool) → b ≡ true → (a || b) ≡ true
or_right a b h = ground arith

count_up-has :
    (rounds v hi step k : ℕ)
    → 1 ≤ step
    → hi < v + rounds
    → v + k * step ≤ hi
    → has (count_up rounds v hi step) (v + k * step) ≡ true
unfolding count_up
count_up-has zero v hi step k p e l = absurd (let m : v ≤ v + k * step = omega arith in omega arith)
count_up-has (suc rounds) v hi step zero p e l =
    let t : leb v hi ≡ true = ground arith in
    let s : (v == v + 0 * step) ≡ true = ground arith in rw (count_up, t, s) refl
count_up-has (suc rounds) v hi step (suc k) p e l =
    let t : leb v hi ≡ true = ground arith in
    let q : v + step + k * step ≡ v + suc k * step = omega arith in
    let rest = count_up-has rounds (v + step) hi step k p (omega arith) (omega (arith, q)) in
    let rest' = subst (λ n. has (count_up rounds (v + step) hi step) n ≡ true) q rest in
    rw (count_up, t) (or_right _ _ rest')

has-count_up :
    (rounds v hi step n : ℕ)
    → has (count_up rounds v hi step) n ≡ true
    → (k : ℕ) × (n ≡ v + k * step) × (n ≤ hi)
unfolding count_up
has-count_up zero v hi step n h = absurd (ground arith)
has-count_up (suc rounds) v hi step n h = elim (Bool-cases (leb v hi)) [
  | inr f ↦ absurd (
      let g : has (count_up (suc rounds) v hi step) n ≡ false = rw (count_up, f) refl in
      ground arith)
  | inl t ↦ elim (Bool-cases (v == n)) [
    | inl e ↦ (0, ground arith, ground arith)
    | inr d ↦
        let same : has (count_up (suc rounds) v hi step) n
            ≡ has (count_up rounds (v + step) hi step) n =
          rw (count_up, t, d) refl in
        let rest = has-count_up rounds (v + step) hi step n (sym same ∙ h) in
        let e = rest.1 in (suc rest.0, omega (arith, e), rest.2)
  ]
]

has-append : (vs ws : List ℕ) (n : ℕ) → has (vs ++ ws) n ≡ (has vs n || has ws n)
has-append [] ws n = refl
has-append (v ∷ vs) ws n = ground (arith, has-append vs ws n)

-- What a part without an error gives.
record Valued (min max : ℕ) (r : CronRange) (s : Option (Option ℕ)) (vs : List ℕ) : Type 0 where
  lo : ℕ
  hi : ℕ
  step : ℕ
  is_step : step_of s ≡ some step
  spans : range_of r min max ≡ some (lo, hi)
  low : min ≤ lo
  high : hi ≤ max
  values : vs ≡ count_up (hi + 1 - lo) lo hi step

in_bounds-some :
    (lo hi step min max : ℕ) (vs : List ℕ)
    → in_bounds (lo, hi) step min max ≡ some vs
    → (min ≤ lo) × (hi ≤ max) × (vs ≡ count_up (hi + 1 - lo) lo hi step)
unfolding in_bounds
in_bounds-some lo hi step min max vs h =
    elim (Bool-cases (ltb lo min || (ltb max hi || ltb hi lo))) [
      | inl t ↦
          absurd (
            let g : in_bounds (lo, hi) step min max ≡ none = rw (in_bounds, t) refl in ground arith)
      | inr f ↦
          let g : in_bounds (lo, hi) step min max ≡ some (count_up (hi + 1 - lo) lo hi step) =
            rw (in_bounds, f) refl in
          (ground arith, ground arith, ground arith)
    ]

part_values-Valued :
    (min max : ℕ) (r : CronRange) (s : Option (Option ℕ)) (vs : List ℕ)
    → part_values (part r s) min max ≡ some vs
    → Valued min max r s vs
unfolding part_values
part_values-Valued min max r s vs h = elim (Option-cases (step_of s)) [
  | inl n ↦
      absurd
        (let g : part_values (part r s) min max ≡ none = rw (part_values, n) refl in ground arith)
  | inr (step, q) ↦ elim (Option-cases (range_of r min max)) [
    | inl n ↦ absurd (
        let g : part_values (part r s) min max ≡ none = rw (part_values, q, n) refl in ground arith)
    | inr (b, e) ↦
        let g : part_values (part r s) min max ≡ in_bounds b step min max =
          rw (part_values, q, e) refl in
        let i = in_bounds-some b.0 b.1 step min max vs (sym g ∙ h) in
        record {
          lo = b.0;
          hi = b.1;
          step = step;
          is_step = q;
          spans = e;
          low = i.0;
          high = i.1;
          values = i.2;
        }
  ]
]

positive_step : (s : Option (Option ℕ)) (n : ℕ) → step_of s ≡ some n → 1 ≤ n
positive_step none n h = ground arith
positive_step (some none) n h = ground arith
positive_step (some (some m)) n h = ground arith

pub some_injective : {A : Type 0} {a b : A} → some a ≡ some b → a ≡ b
some_injective {a = a} h = ap (λ o. get_or_else o a) h

either_iff :
    {x a b : Bool} {P Q : Type 0}
    → x ≡ (a || b)
    → (a ≡ true) ↔ P
    → (b ≡ true) ↔ Q
    → (x ≡ true) ↔ (P ⊎ Q)
either_iff {a = true} e f g = (λ t. inl (f.0 refl), λ s. e)
either_iff {a = false} {b = b} e f g = (
  λ t. inr (g.0 (sym e ∙ t)),
  λ s. elim s [ inl p ↦ absurd (let t = f.1 p in ground arith) | inr q ↦ e ∙ g.1 q ],
)

part_values-StandsFor :
    (min max : ℕ) (p : CronPart) (vs : List ℕ)
    → part_values p min max ≡ some vs
    → (n : ℕ) → (has vs n ≡ true) ↔ StandsFor min max n p
unfolding part_values
part_values-StandsFor min max empty vs h n = absurd (ground arith)
part_values-StandsFor min max (part r s) vs h n =
    let v = part_values-Valued min max r s vs h in
    (
      λ t.
          let c =
            has-count_up (v.hi + 1 - v.lo) v.lo v.hi v.step n
              (subst (λ ws. has ws n ≡ true) v.values t) in
          record {
            lo = v.lo;
            hi = v.hi;
            step = v.step;
            is_step = v.is_step;
            spans = v.spans;
            low = v.low;
            high = v.high;
            steps = c.0;
            place = c.1;
            below = c.2;
          },
      λ c.
          let es : c.step ≡ v.step = some_injective (sym c.is_step ∙ v.is_step) in
          let eb : (c.lo, c.hi) ≡ (v.lo, v.hi) = some_injective (sym c.spans ∙ v.spans) in
          let el : c.lo ≡ v.lo = ap (λ b. b.0) eb in
          let eh : c.hi ≡ v.hi = ap (λ b. b.1) eb in
          let place : n ≡ v.lo + c.steps * v.step =
            subst (λ m. n ≡ m + c.steps * v.step) el
              (subst (λ m. n ≡ c.lo + c.steps * m) es c.place) in
          let below : n ≤ v.hi = subst (λ m. n ≤ m) eh c.below in
          subst (λ ws. has ws n ≡ true) (sym v.values)
            (subst (λ m. has (count_up (v.hi + 1 - v.lo) v.lo v.hi v.step) m ≡ true) (sym place)
              (count_up-has (v.hi + 1 - v.lo) v.lo v.hi v.step c.steps
                (positive_step s v.step v.is_step)
                (let m : v.lo ≤ v.lo + c.steps * v.step = omega arith in
                  omega (arith, m, place, below))
                (omega (arith, place, below)))),
    )

-- A field that parses has exactly the values that one of its parts stands for.
pub parse_cron_field-StandsFor :
    (min max : ℕ) (ps : List CronPart) (vs : List ℕ)
    → parse_cron_field ps min max ≡ some vs
    → (n : ℕ) → (has vs n ≡ true) ↔ Any (StandsFor min max n) ps
unfolding parse_cron_field
parse_cron_field-StandsFor min max [] vs h n = (λ t. absurd (ground arith), λ a. absurd a)
parse_cron_field-StandsFor min max (p ∷ ps) vs h n = elim (Option-cases (part_values p min max)) [
  | inl e ↦ absurd (
      let g : parse_cron_field (p ∷ ps) min max ≡ none = rw (parse_cron_field, e) refl in
      ground arith)
  | inr (us, e) ↦ elim (Option-cases (parse_cron_field ps min max)) [
    | inl f ↦ absurd (
        let g : parse_cron_field (p ∷ ps) min max ≡ none = rw (parse_cron_field, e, f) refl in
        ground arith)
    | inr (ws, f) ↦
        let g : parse_cron_field (p ∷ ps) min max ≡ some (us ++ ws) =
          rw (parse_cron_field, e, f) refl in
        let q : has vs n ≡ (has us n || has ws n) =
          ap (λ xs. has xs n) (some_injective (sym h ∙ g)) ∙ has-append us ws n in
        let head = part_values-StandsFor min max p us e n in
        let rest = parse_cron_field-StandsFor min max ps ws f n in either_iff q head rest
  ]
]

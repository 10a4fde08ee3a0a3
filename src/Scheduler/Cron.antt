-- ===== src/Scheduler/Cron.antt =====
-- Cron expressions: `parseCronField`, `parseCron`, `cronMatches` and `nextCronTime`. A field is given
-- as the parts that its commas separate, and a number as what `Number` reads: no value is one that is
-- not an integer or is negative, which every use refuses alike.
pub mod Fields
pub mod Matching
pub mod Next
use Prim.Native.Nat.{◌%◌}
use auxifyai.Prelude.{
  ℕ, zero, suc, ◌+◌, ◌-◌, ◌*◌, ◌/◌, Bool, true, false, ◌&&◌, ◌||◌, Option, none, some, List, [],
  ◌∷◌, ◌++◌, any, if◌then◌else◌, ltb, leb, ◌==◌,
}
use auxifyai.Prelude.Calendar.{civil}

abbrev pub minute_ms : ℕ
minute_ms = 60_000

-- The text before the slash of a part.
pub data CronRange : Type 0 where
  star : CronRange
  -- with a dash
  range : Option ℕ → Option ℕ → CronRange
  value : Option ℕ → CronRange

-- A step is the text after the slash, where there is one.
pub data CronPart : Type 0 where
  empty : CronPart
  part : CronRange → Option (Option ℕ) → CronPart

pub record ParsedCron : Type 0 where
  pub minutes : List ℕ
  pub hours : List ℕ
  pub days_of_month : List ℕ
  pub months : List ℕ
  pub days_of_week : List ℕ

abbrev pub step_of : Option (Option ℕ) → Option ℕ
step_of none = some 1
step_of (some none) = none
step_of (some (some n)) = if n == 0 then none else some n

abbrev pub range_of : CronRange → ℕ → ℕ → Option (ℕ × ℕ)
range_of star min max = some (min, max)
range_of (range none hi) min max = none
range_of (range (some lo) none) min max = none
range_of (range (some lo) (some hi)) min max = some (lo, hi)
range_of (value none) min max = none
range_of (value (some n)) min max = some (n, n)

-- `for (let v = lo; v <= hi; v += step)`; a step is positive, so the loop has at most
-- hi + 1 - lo rounds.
unfoldable pub count_up : ℕ → ℕ → ℕ → ℕ → List ℕ
count_up zero v hi step = []
count_up (suc rounds) v hi step = elim (leb v hi) [
  | true ↦ v ∷ count_up rounds (v + step) hi step
  | false ↦ []
]

unfoldable pub in_bounds : ℕ × ℕ → ℕ → ℕ → ℕ → Option (List ℕ)
in_bounds (lo, hi) step min max =
    if ltb lo min || (ltb max hi || ltb hi lo)
    then none
    else some (count_up (hi + 1 - lo) lo hi step)

-- The values of one part; no value is the error.
unfoldable pub part_values : CronPart → ℕ → ℕ → Option (List ℕ)
part_values empty min max = none
part_values (part r s) min max = elim (step_of s) [
  | none ↦ none
  | some step ↦ elim (range_of r min max) [
    | none ↦ none
    | some bounds ↦ in_bounds bounds step min max
  ]
]

unfoldable pub parse_cron_field : List CronPart → ℕ → ℕ → Option (List ℕ)
parse_cron_field [] min max = some []
parse_cron_field (p ∷ ps) min max = elim (part_values p min max) [
  | none ↦ none
  | some vs ↦ elim (parse_cron_field ps min max) [ none ↦ none | some ws ↦ some (vs ++ ws) ]
]

infixl 5 ◌>>=◌
abbrev pub ◌>>=◌ : {A B : Type 0} → Option A → (A → Option B) → Option B
none >>= f = none
some a >>= f = f a

unfoldable pub parse_cron : List (List CronPart) → Option ParsedCron
parse_cron (mi ∷ h ∷ d ∷ mo ∷ w ∷ []) = do
  minutes ← parse_cron_field mi 0 59
  hours ← parse_cron_field h 0 23
  days_of_month ← parse_cron_field d 1 31
  months ← parse_cron_field mo 1 12
  days_of_week ← parse_cron_field w 0 6
  some (record {
    minutes = minutes;
    hours = hours;
    days_of_month = days_of_month;
    months = months;
    days_of_week = days_of_week;
  })
parse_cron _ = none

abbrev pub has : List ℕ → ℕ → Bool
has vs n = any (λ v. v == n) vs

-- The first of January 1970 was a Thursday.
unfoldable pub cron_matches : ParsedCron → ℕ → Bool
cron_matches c ms =
    let day = ms / 86_400_000 in
    has c.minutes (ms / minute_ms % 60)
    && (has c.hours (ms / 3_600_000 % 24)
        && (has c.days_of_month (civil day).date
            && (has c.months (civil day).month && has c.days_of_week ((day + 4) % 7))))

-- The rounds of the loop that are left: `candidate <= horizon` as long as there is one.
unfoldable pub search : ParsedCron → ℕ → ℕ → Option ℕ
search c zero candidate = none
search c (suc rounds) candidate = elim (cron_matches c candidate) [
  | true ↦ some candidate
  | false ↦ search c rounds (candidate + minute_ms)
]

abbrev pub horizon_minutes : ℕ
horizon_minutes = 366 * 4 * 24 * 60

unfoldable pub next_cron_time : ParsedCron → ℕ → Option ℕ
next_cron_time c after = search c (suc horizon_minutes) (after / minute_ms * minute_ms + minute_ms)

-- `nextCronTime(parsed, fromMs - 1)`; from 0 this looks from the minute that starts at 0.
unfoldable pub cron_time_from : ParsedCron → ℕ → Option ℕ
cron_time_from c zero = search c (suc horizon_minutes) 0
cron_time_from c (suc n) = next_cron_time c n

-- ===== src/Scheduler/Cron/Matching.antt =====
-- The times that match a cron expression.
use Prim.Native.Nat.{◌%◌}
use auxifyai.Prelude.{
  ℕ, ◌+◌, ◌/◌, ◌≡◌, ◌↔◌, refl, subst, ◌&&◌, Bool, true, false, Option, none, some, List, [], ◌∷◌,
  Any, arith,
}
use auxifyai.Prelude.Calendar.{civil}
use auxifyai.Scheduler.Cron.{
  CronPart, ParsedCron, parse_cron_field, parse_cron, ◌>>=◌, cron_matches, minute_ms,
}
use auxifyai.Scheduler.Cron.Fields.{StandsFor, some_injective, parse_cron_field-StandsFor}

-- A field has a part that stands for a value.
abbrev pub FieldHas : ℕ → ℕ → List CronPart → ℕ → Type 0
FieldHas min max field n = Any (StandsFor min max n) field

-- The minute, the hour, the day of the month, the month and the day of the week of a time, in UTC, are
-- each in their field.
pub record IsMatch (mi h d mo w : List CronPart) (ms : ℕ) : Type 0 where
  pub minute : FieldHas 0 59 mi (ms / minute_ms % 60)
  pub hour : FieldHas 0 23 h (ms / 3_600_000 % 24)
  pub date : FieldHas 1 31 d (civil (ms / 86_400_000)).date
  pub month : FieldHas 1 12 mo (civil (ms / 86_400_000)).month
  pub weekday : FieldHas 0 6 w ((ms / 86_400_000 + 4) % 7)

bind_some :
    {A B : Type 0} (o : Option A) (f : A → Option B) (b : B)
    → (o >>= f) ≡ some b
    → (a : A) × (o ≡ some a) × (f a ≡ some b)
bind_some none f b h = absurd (ground arith)
bind_some (some a) f b h = (a, refl, h)

-- The fields of an expression that parses.
record Parsed (mi h d mo w : List CronPart) (c : ParsedCron) : Type 0 where
  minutes : parse_cron_field mi 0 59 ≡ some c.minutes
  hours : parse_cron_field h 0 23 ≡ some c.hours
  days_of_month : parse_cron_field d 1 31 ≡ some c.days_of_month
  months : parse_cron_field mo 1 12 ≡ some c.months
  days_of_week : parse_cron_field w 0 6 ≡ some c.days_of_week

parse_cron-Parsed :
    (mi h d mo w : List CronPart) (c : ParsedCron)
    → parse_cron (mi ∷ h ∷ d ∷ mo ∷ w ∷ []) ≡ some c
    → Parsed mi h d mo w c
unfolding parse_cron
parse_cron-Parsed mi h d mo w c e =
    let a = bind_some (parse_cron_field mi 0 59) _ c e in
    let b = bind_some (parse_cron_field h 0 23) _ c a.2 in
    let f = bind_some (parse_cron_field d 1 31) _ c b.2 in
    let g = bind_some (parse_cron_field mo 1 12) _ c f.2 in
    let k = bind_some (parse_cron_field w 0 6) _ c g.2 in
    let same = some_injective k.2 in
    subst (Parsed mi h d mo w) same
      (record { minutes = a.1; hours = b.1; days_of_month = f.1; months = g.1; days_of_week = k.1 })

and_iff : {a b : Bool} {P Q : Type 0} → (a ≡ true) ↔ P → (b ≡ true) ↔ Q → (a && b ≡ true) ↔ (P × Q)
and_iff {a = true} f g = (λ t. (f.0 refl, g.0 t), λ s. g.1 s.1)
and_iff {a = false} f g = (λ t. absurd (ground arith), λ s. f.1 s.0)

-- A cron expression that parses matches a time exactly where each part of the time in UTC is in its
-- field: a number of steps from the first value of one of the field's ranges, up to its last.
pub cron_matches-iff-IsMatch :
    (mi h d mo w : List CronPart) (c : ParsedCron) (ms : ℕ)
    → parse_cron (mi ∷ h ∷ d ∷ mo ∷ w ∷ []) ≡ some c
    → (cron_matches c ms ≡ true) ↔ IsMatch mi h d mo w ms
unfolding cron_matches
cron_matches-iff-IsMatch mi h d mo w c ms e =
    let p = parse_cron-Parsed mi h d mo w c e in
    let i = and_iff (parse_cron_field-StandsFor 0 59 mi c.minutes p.minutes (ms / minute_ms % 60)) (
      and_iff (parse_cron_field-StandsFor 0 23 h c.hours p.hours (ms / 3_600_000 % 24)) (
        and_iff
          (parse_cron_field-StandsFor 1 31 d c.days_of_month p.days_of_month
            (civil (ms / 86_400_000)).date)
          (and_iff
            (parse_cron_field-StandsFor 1 12 mo c.months p.months (civil (ms / 86_400_000)).month)
            (parse_cron_field-StandsFor 0 6 w c.days_of_week p.days_of_week
              ((ms / 86_400_000 + 4) % 7))))) in
    (
      λ t.
          let r = i.0 t in
          record {
            minute = r.0;
            hour = r.1.0;
            date = r.1.1.0;
            month = r.1.1.1.0;
            weekday = r.1.1.1.1;
          },
      λ m. i.1 (m.minute, (m.hour, (m.date, (m.month, m.weekday)))),
    )

-- ===== src/Examples/Schedules.antt =====
-- Tests of the Scheduler, and its theorems at concrete inputs.
use auxifyai.Prelude.{◌≡◌, ◌↔◌, refl, true, false, String, none, some, List, [], ◌∷◌, arith}
use auxifyai.Prelude.Maps.{lookup, put}
use auxifyai.Prelude.Calendar.{civil, years_of, last_year, days_before, find_month, days_in_month}
use auxifyai.Workflow.{Workflow}
use auxifyai.Scheduler.{
  one_shot, interval, on_grid, on_instant, compile_cadence, grid_after, next_due_after,
}
use auxifyai.Scheduler.Cron.{
  CronPart, part, star, value, range, ParsedCron, parse_cron, parse_cron_field, part_values,
  in_bounds, count_up, cron_matches, search, next_cron_time,
}
use auxifyai.Scheduler.Cron.Next.{FirstMatch, end_after, next_cron_time-FirstMatch}
use auxifyai.Scheduler.Cron.Matching.{IsMatch, cron_matches-iff-IsMatch}
use auxifyai.Scheduler.Due.{Earliest, next_due_after-Earliest}
use auxifyai.Scheduler.Ticks.{Schedules, scheduled, schedule, registered, tick}
use auxifyai.Scheduler.Ticks.Rounds.{Round, tick-Round}
use auxifyai.Scheduler.Ticks.Keys.{WellKeyed, schedule-WellKeyed}
use auxifyai.Scheduler.Ticks.Firings.{ticks, runs_of, alone, ticks-alone}
use auxifyai.Scheduler.Ticks.Slots.{once, one_shot-once, InOrder, ticks-InOrder}

abbrev flow : String → Workflow
flow id = record { id = id; organization_id = "o1"; project_id = "p1"; steps = [] }

-- The first of January 2024, and the last day of February of that year.
civil_2024 : civil 19_723 ≡ record { year = 2024; month = 1; date = 1 }
unfolding civil years_of last_year days_before find_month days_in_month
civil_2024 = refl

civil_leap : civil 19_782 ≡ record { year = 2024; month = 2; date = 29 }
unfolding civil years_of last_year days_before find_month days_in_month
civil_leap = refl

-- Each quarter of an hour of the first day of a month.
abbrev quarters : List (List CronPart)
quarters =
    (part star (some (some 15)) ∷ [])
    ∷ (part star none ∷ [])
    ∷ (part (value (some 1)) none ∷ [])
    ∷ (part star none ∷ [])
    ∷ (part (range (some 0) (some 6)) none ∷ [])
    ∷ []

minutes_parsed :
    parse_cron_field (part star (some (some 15)) ∷ []) 0 59 ≡ some (0 ∷ 15 ∷ 30 ∷ 45 ∷ [])
unfolding parse_cron_field part_values in_bounds count_up
minutes_parsed = refl

abbrev on_the_first : ParsedCron
on_the_first = record {
  minutes = 0 ∷ 30 ∷ [];
  hours = 9 ∷ 10 ∷ [];
  days_of_month = 1 ∷ [];
  months = 1 ∷ 7 ∷ [];
  days_of_week = 1 ∷ 2 ∷ [];
}

-- At 8:58 on the first of January 2024, a Monday.
next_nine : next_cron_time on_the_first 1_704_099_480_000 ≡ some 1_704_099_600_000
unfolding next_cron_time search cron_matches civil years_of last_year days_before find_month
    days_in_month
next_nine = refl

next_cron_time-FirstMatch_example :
    FirstMatch on_the_first 1_704_099_480_001
      (end_after 1_704_099_480_000)
      (next_cron_time on_the_first 1_704_099_480_000)
next_cron_time-FirstMatch_example = next_cron_time-FirstMatch on_the_first 1_704_099_480_000

grid_test : next_due_after (on_grid 1000 300) 1600 ≡ some 1900
unfolding next_due_after grid_after
grid_test = refl

next_due_after-Earliest_example :
    Earliest (on_grid 1000 300) 1601 (end_after 1600) (next_due_after (on_grid 1000 300) 1600)
next_due_after-Earliest_example = next_due_after-Earliest (on_grid 1000 300) 1600 (omega arith)

-- A one-shot at 500, and an interval of 100 from 50 on.
abbrev one : Schedules
one = ("a", registered (flow "a") (on_instant 500) 40) ∷ []

abbrev two : Schedules
two = put "b" (registered (flow "b") (on_grid 50 100) 60) one

one_scheduled : schedule (flow "a") (one_shot 500) 40 [] ≡ scheduled one
unfolding schedule lookup compile_cadence put
one_scheduled = refl

two_scheduled : schedule (flow "b") (interval 100 (some 50)) 60 one ≡ scheduled two
unfolding schedule lookup compile_cadence put
two_scheduled = refl

one-WellKeyed : WellKeyed one
unfolding lookup
one-WellKeyed = (refl, refl, tt)

two_found : lookup "b" two ≡ some (registered (flow "b") (on_grid 50 100) 60)
unfolding lookup put
two_found = refl

two-WellKeyed : WellKeyed two
two-WellKeyed =
    schedule-WellKeyed (flow "b") (interval 100 (some 50)) 60 one two one-WellKeyed two_scheduled

tick-Round_example : Round (λ c. true) 520 two (tick (λ c. true) 520 two)
tick-Round_example = tick-Round (λ c. true) 520 two

one_shot-once_example :
    runs_of "a" (ticks (λ c. true) (100 ∷ 499 ∷ 520 ∷ 700 ∷ []) one).1
    ≡ once (flow "a") 500 (100 ∷ 499 ∷ 520 ∷ 700 ∷ [])
one_shot-once_example =
    one_shot-once (λ c. true) (100 ∷ 499 ∷ 520 ∷ 700 ∷ []) (flow "a") 500 40 [] one (λ c. refl) tt
      (omega arith) one_scheduled

ticks-alone_example :
    runs_of "b" (ticks (λ c. true) (100 ∷ 499 ∷ 520 ∷ 700 ∷ []) two).1
    ≡ alone (100 ∷ 499 ∷ 520 ∷ 700 ∷ []) (registered (flow "b") (on_grid 50 100) 60)
ticks-alone_example =
    ticks-alone (λ c. true) (100 ∷ 499 ∷ 520 ∷ 700 ∷ []) two "b"
      (registered (flow "b") (on_grid 50 100) 60) (λ c. refl) two-WellKeyed two_found

ticks-InOrder_example :
    InOrder 0 (runs_of "b" (ticks (λ c. false) (100 ∷ 499 ∷ 520 ∷ 700 ∷ []) two).1)
ticks-InOrder_example =
    ticks-InOrder (λ c. false) (100 ∷ 499 ∷ 520 ∷ 700 ∷ []) two "b"
      (registered (flow "b") (on_grid 50 100) 60) two-WellKeyed two_found (omega arith)

abbrev quarter_hours : ParsedCron
quarter_hours = record {
  minutes = 0 ∷ 15 ∷ 30 ∷ 45 ∷ [];
  hours =
      0 ∷ 1 ∷ 2 ∷ 3 ∷ 4 ∷ 5 ∷ 6 ∷ 7 ∷ 8 ∷ 9 ∷ 10 ∷ 11 ∷ 12 ∷ 13 ∷ 14 ∷ 15 ∷ 16 ∷ 17 ∷ 18 ∷ 19 ∷ 20
      ∷ 21 ∷ 22 ∷ 23 ∷ [];
  days_of_month = 1 ∷ [];
  months = 1 ∷ 2 ∷ 3 ∷ 4 ∷ 5 ∷ 6 ∷ 7 ∷ 8 ∷ 9 ∷ 10 ∷ 11 ∷ 12 ∷ [];
  days_of_week = 0 ∷ 1 ∷ 2 ∷ 3 ∷ 4 ∷ 5 ∷ 6 ∷ [];
}

quarters_parsed : parse_cron quarters ≡ some quarter_hours
unfolding parse_cron parse_cron_field part_values in_bounds count_up
quarters_parsed = refl

-- At 9 on the first of January 2024.
cron_matches-iff-IsMatch_example :
    (cron_matches quarter_hours 1_704_099_600_000 ≡ true)
    ↔ IsMatch
        (part star (some (some 15)) ∷ [])
        (part star none ∷ [])
        (part (value (some 1)) none ∷ [])
        (part star none ∷ [])
        (part (range (some 0) (some 6)) none ∷ [])
        1_704_099_600_000
cron_matches-iff-IsMatch_example =
    cron_matches-iff-IsMatch (part star (some (some 15)) ∷ []) (part star none ∷ [])
      (part (value (some 1)) none ∷ []) (part star none ∷ [])
      (part (range (some 0) (some 6)) none ∷ []) quarter_hours 1_704_099_600_000 quarters_parsed

-- ===== src/Scheduler.antt =====
-- The cadences of the Scheduler: services/core/src/scheduler (types.ts, cadence.ts). Times are natural
-- numbers of milliseconds since 1970. `Cron` has the cron expressions, `Ticks` the Scheduler itself.
pub mod Cron
pub mod Due
pub mod Ticks
use auxifyai.Prelude.{
  ℕ, zero, suc, ◌+◌, ◌-◌, ◌*◌, ◌/◌, Option, none, some, List, if◌then◌else◌, ltb, leb, ◌==◌,
  get_or_else,
}
use auxifyai.Scheduler.Cron.{CronPart, ParsedCron, parse_cron, next_cron_time, cron_time_from}

pub data CadenceKind : Type 0 where
  cron_kind interval_kind one_shot_kind : CadenceKind

-- An expression is given as its fields, which white space separates.
pub data Cadence : Type 0 where
  cron : List (List CronPart) → Cadence
  -- the interval, and the anchor
  interval : ℕ → Option ℕ → Cadence
  one_shot : ℕ → Cadence

-- What the closures of a CompiledCadence keep.
pub data CompiledCadence : Type 0 where
  on_cron : ParsedCron → CompiledCadence
  -- the anchor, and the interval
  on_grid : ℕ → ℕ → CompiledCadence
  on_instant : ℕ → CompiledCadence

abbrev pub kind_of : CompiledCadence → CadenceKind
kind_of (on_cron c) = cron_kind
kind_of (on_grid a n) = interval_kind
kind_of (on_instant t) = one_shot_kind

-- No value is an InvalidCadenceError.
unfoldable pub compile_cadence : Cadence → ℕ → Option CompiledCadence
compile_cadence (interval ms anchor) registration =
    if ms == 0 then none else some (on_grid (get_or_else anchor registration) ms)
compile_cadence (one_shot at) registration = some (on_instant at)
compile_cadence (cron fields) registration = elim (parse_cron fields) [
  | none ↦ none
  | some c ↦ some (on_cron c)
]

unfoldable pub grid_after : ℕ → ℕ → ℕ → ℕ
grid_after anchor ms bound =
    if ltb bound anchor then anchor else anchor + ((bound - anchor) / ms + 1) * ms

unfoldable pub first_due_at_or_after : CompiledCadence → ℕ → Option ℕ
first_due_at_or_after (on_grid anchor ms) from = some (grid_after anchor ms from)
first_due_at_or_after (on_instant at) from = if leb from at then some at else none
first_due_at_or_after (on_cron c) from = cron_time_from c from

unfoldable pub next_due_after : CompiledCadence → ℕ → Option ℕ
next_due_after (on_grid anchor ms) after = some (grid_after anchor ms after)
next_due_after (on_instant at) after = if ltb after at then some at else none
next_due_after (on_cron c) after = next_cron_time c after

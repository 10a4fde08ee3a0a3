-- ===== src/Scheduler/Ticks.antt =====
-- The class `Scheduler` (scheduler.ts): `schedule`, `unschedule`, `peek` and `tick` on the map of
-- schedules, which is passed in and returned. The clock's reading is an argument; the trigger says
-- whether a run's promise resolves. A trigger that calls the Scheduler back is left out.
pub mod Rounds
pub mod Keys
pub mod Firings
pub mod Steps
pub mod Slots
use auxifyai.Prelude.{
  ℕ, ◌+◌, ◌-◌, ◌≡◌, Bool, true, false, String, Option, none, some, List, [], ◌∷◌, ◌++◌,
  if◌then◌else◌, ltb, str_eq, is_some, length,
}
use auxifyai.Prelude.Maps.{lookup, put}
use auxifyai.Workflow.{Workflow}
use auxifyai.Scheduler.{
  Cadence, CadenceKind, CompiledCadence, kind_of, compile_cadence, first_due_at_or_after,
  next_due_after,
}

pub record RegisteredSchedule : Type 0 where
  pub workflow : Workflow
  pub compiled : CompiledCadence
  pub next_due_ms : Option ℕ

pub record ScheduleSnapshot : Type 0 where
  pub workflow_id : String
  pub cadence_kind : CadenceKind
  pub next_due_ms : Option ℕ

pub record TriggerContext : Type 0 where
  pub workflow : Workflow
  pub scheduled_for_ms : ℕ
  pub fired_at_ms : ℕ

abbrev pub Schedules : Type 0
Schedules = List (String × RegisteredSchedule)

pub data ScheduleResult : Type 0 where
  duplicate_schedule invalid_cadence : ScheduleResult
  scheduled : Schedules → ScheduleResult

abbrev pub registered : Workflow → CompiledCadence → ℕ → RegisteredSchedule
registered w c now = record {
  workflow = w;
  compiled = c;
  next_due_ms = first_due_at_or_after c now;
}

unfoldable pub schedule : Workflow → Cadence → ℕ → Schedules → ScheduleResult
schedule w cadence now ss = elim (lookup w.id ss) [
  | some e ↦ duplicate_schedule
  | none ↦ elim (compile_cadence cadence now) [
    | none ↦ invalid_cadence
    | some c ↦ scheduled (put w.id (registered w c now) ss)
  ]
]

-- Whether there was one, and what is left.
unfoldable pub unschedule : String → Schedules → Bool × Schedules
unschedule id [] = (false, [])
unschedule id ((i, e) ∷ ss) =
    let rest = unschedule id ss in if str_eq id i then (true, ss) else (rest.0, (i, e) ∷ rest.1)

abbrev pub size : Schedules → ℕ
size ss = length ss

unfoldable pub peek : String → Schedules → Option ScheduleSnapshot
peek id ss = elim (lookup id ss) [
  | none ↦ none
  | some e ↦
      some (record {
        workflow_id = id;
        cadence_kind = kind_of e.compiled;
        next_due_ms = e.next_due_ms;
      })
]

-- The slot that is due, if any: `nextDueMs === null || nextDueMs > now` passes on.
unfoldable pub due : ℕ → RegisteredSchedule → Option ℕ
due now e = elim e.next_due_ms [
  | none ↦ none
  | some slot ↦ if ltb now slot then none else some slot
]

abbrev pub advance : RegisteredSchedule → ℕ → RegisteredSchedule
advance e slot = record e { next_due_ms = next_due_after e.compiled slot }

abbrev pub context_of : ℕ → RegisteredSchedule → ℕ → TriggerContext
context_of now e slot = record { workflow = e.workflow; scheduled_for_ms = slot; fired_at_ms = now }

-- The schedules after a tick, the runs that were triggered, and the ids that it returns; no value is
-- a trigger that rejected.
pub record Ticked : Type 0 where
  pub schedules : Schedules
  pub triggered : List TriggerContext
  pub fired : Option (List String)

abbrev pub prepend_id : String → Option (List String) → Option (List String)
prepend_id id none = none
prepend_id id (some ids) = some (id ∷ ids)

unfoldable pub tick : (TriggerContext → Bool) → ℕ → Schedules → Ticked
tick resolves now [] = record { schedules = []; triggered = []; fired = some [] }
tick resolves now ((id, e) ∷ ss) = elim (due now e) [
  | none ↦ let rest = tick resolves now ss in record rest { schedules = (id, e) ∷ rest.schedules }
  | some slot ↦ elim (resolves (context_of now e slot)) [
    | false ↦ record {
      schedules = (id, advance e slot) ∷ ss;
      triggered = context_of now e slot ∷ [];
      fired = none;
    }
    | true ↦
        let rest = tick resolves now ss in
        record {
          schedules = (id, advance e slot) ∷ rest.schedules;
          triggered = context_of now e slot ∷ rest.triggered;
          fired = prepend_id id rest.fired;
        }
  ]
]

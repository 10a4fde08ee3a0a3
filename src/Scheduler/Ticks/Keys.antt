-- ===== src/Scheduler/Ticks/Keys.antt =====
-- The keys of the map of schedules.
use auxifyai.Prelude.{
  ℕ, ◌≡◌, refl, sym, ap, subst, ◌∙◌, inl, inr, String, none, some, [], ◌∷◌, map, Bool-cases,
  Option-cases, str_eq, eq_iff, arith, if◌then◌else◌, str_eq-false_sym, is_some,
}
use auxifyai.Prelude.Maps.{lookup, put, lookup-put, lookup-other}
use auxifyai.Workflow.{Workflow}
use auxifyai.Scheduler.{Cadence, CompiledCadence, compile_cadence}
use auxifyai.Scheduler.Ticks.{
  RegisteredSchedule, Schedules, scheduled, registered, due, schedule, unschedule,
}
use auxifyai.Scheduler.Ticks.Rounds.{moved, moved_entry}

-- Each schedule is under its workflow's id, and no two are under the same.
abbrev pub WellKeyed : Schedules → Type 0
WellKeyed [] = Unit
WellKeyed ((id, e) ∷ ss) = (e.workflow.id ≡ id) × (lookup id ss ≡ none) × WellKeyed ss

lookup-moved :
    (now : ℕ) (id : String) (ss : Schedules)
    → lookup id ss ≡ none
    → lookup id (map (moved_entry now) ss) ≡ none
unfolding lookup
lookup-moved now id [] h = refl
lookup-moved now id ((i, e) ∷ ss) h = ground (arith, lookup-moved now id ss)

moved-workflow : (now : ℕ) (e : RegisteredSchedule) → (moved now e).workflow ≡ e.workflow
unfolding moved
moved-workflow now e = elim (Option-cases (due now e)) [
  | inl q ↦ rw (moved, q) refl
  | inr (slot, q) ↦ rw (moved, q) refl
]

pub moved-WellKeyed :
    (now : ℕ) (ss : Schedules) → WellKeyed ss → WellKeyed (map (moved_entry now) ss)
moved-WellKeyed now [] k = tt
moved-WellKeyed now ((id, e) ∷ ss) k = (
  ap (λ w. w.id) (moved-workflow now e) ∙ k.0,
  lookup-moved now id ss k.1,
  moved-WellKeyed now ss k.2,
)

put-WellKeyed :
    (w : Workflow) (e : RegisteredSchedule) (ss : Schedules)
    → e.workflow.id ≡ w.id
    → lookup w.id ss ≡ none
    → WellKeyed ss
    → WellKeyed (put w.id e ss)
unfolding put lookup
put-WellKeyed w e [] n h k = (n, refl, tt)
put-WellKeyed w e ((i, f) ∷ ss) n h k = elim (Bool-cases (str_eq w.id i)) [
  | inl t ↦ absurd (ground arith)
  | inr g ↦
      let other = str_eq-false_sym w.id i g in
      let here : lookup w.id ss ≡ none = sym (lookup-other w.id i f ss g) ∙ h in
      rw (put, g)
        (
          k.0,
          lookup-put i w.id e ss ∙ (lookup-other i w.id e ss other ∙ k.1),
          put-WellKeyed w e ss n here k.2,
        )
]

-- A workflow that is scheduled was not, and its cadence compiles.
pub schedule-scheduled :
    (w : Workflow) (cadence : Cadence) (now : ℕ) (ss after : Schedules)
    → schedule w cadence now ss ≡ scheduled after
    → (c : CompiledCadence) × (lookup w.id ss ≡ none)
      × (compile_cadence cadence now ≡ some c)
      × (after ≡ put w.id (registered w c now) ss)
unfolding schedule
schedule-scheduled w cadence now ss after h = elim (Option-cases (lookup w.id ss)) [
  | inr (e, q) ↦ absurd (ground arith)
  | inl q ↦ elim (Option-cases (compile_cadence cadence now)) [
    | inl n ↦ absurd (ground arith)
    | inr (c, s) ↦ (c, q, s, sym (ground arith))
  ]
]

-- Scheduling a workflow keeps the map well keyed.
pub schedule-WellKeyed :
    (w : Workflow) (cadence : Cadence) (now : ℕ) (ss after : Schedules)
    → WellKeyed ss
    → schedule w cadence now ss ≡ scheduled after
    → WellKeyed after
schedule-WellKeyed w cadence now ss after k h =
    let a = schedule-scheduled w cadence now ss after h in
    subst WellKeyed (sym a.3) (put-WellKeyed w (registered w a.0 now) ss refl a.1 k)

unschedule-none :
    (i id : String) (ss : Schedules) → lookup i ss ≡ none → lookup i (unschedule id ss).1 ≡ none
unfolding lookup unschedule
unschedule-none i id [] h = refl
unschedule-none i id ((j, e) ∷ ss) h = ground (arith, unschedule-none i id ss)

-- Unscheduling keeps the map well keyed.
pub unschedule-WellKeyed :
    (id : String) (ss : Schedules) → WellKeyed ss → WellKeyed (unschedule id ss).1
unfolding unschedule
unschedule-WellKeyed id [] k = tt
unschedule-WellKeyed id ((i, e) ∷ ss) k = elim (Bool-cases (str_eq id i)) [
  | inl t ↦ rw (unschedule, t) k.2
  | inr f ↦ rw (unschedule, f) (k.0, unschedule-none i id ss k.1, unschedule-WellKeyed id ss k.2)
]

-- Unscheduling says whether there was a schedule under the id, which is gone then, and leaves the
-- others as they were.
pub unschedule-lookup :
    (i id : String) (ss : Schedules)
    → WellKeyed ss
    → ((unschedule id ss).0 ≡ is_some (lookup id ss))
      × (lookup i (unschedule id ss).1 ≡ (if str_eq i id then none else lookup i ss))
unfolding unschedule lookup
unschedule-lookup i id [] k = ground arith
unschedule-lookup i id ((j, e) ∷ ss) k =
    let rest = unschedule-lookup i id ss k.2 in
    let gone = k.1 in ground (arith, eq_iff i id, eq_iff id j, eq_iff i j)

-- ===== src/Scheduler/Ticks/Slots.antt =====
-- The slots that fire: a one-shot's single one, and the order of all.
use auxifyai.Prelude.{
  ℕ, suc, ◌≡◌, ◌≤◌, refl, sym, ap, subst, ◌∙◌, inl, inr, Bool, true, false, String, Option, none,
  some, List, [], ◌∷◌, Bool-cases, Option-cases, ltb, leb, eq_iff, arith, if◌then◌else◌,
}
use auxifyai.Prelude.Maps.{lookup, lookup-put, lookup-same}
use auxifyai.Workflow.{Workflow}
use auxifyai.Scheduler.{
  one_shot, CompiledCadence, on_instant, compile_cadence, first_due_at_or_after, next_due_after,
}
use auxifyai.Scheduler.Due.{Earliest, fires, never, IsCompiled, next_due_after-Earliest}
use auxifyai.Scheduler.Ticks.{
  RegisteredSchedule, TriggerContext, Schedules, scheduled, registered, due, advance, context_of,
  schedule, tick,
}
use auxifyai.Scheduler.Ticks.Rounds.{moved}
use auxifyai.Scheduler.Ticks.Keys.{WellKeyed, schedule-WellKeyed, schedule-scheduled}
use auxifyai.Scheduler.Ticks.Firings.{ticks, runs_of, alone, ticks-alone}
use auxifyai.Scheduler.Ticks.Steps.{tick-schedule, tick-WellKeyed}

-- The run of a one-shot schedule: at the first reading that has reached its instant, and no other.
unfoldable pub once : Workflow → ℕ → List ℕ → List TriggerContext
once w at [] = []
once w at (now ∷ later) =
    let rest = once w at later in
    if leb at now
    then record { workflow = w; scheduled_for_ms = at; fired_at_ms = now } ∷ []
    else rest

abbrev pub pending_at : Workflow → ℕ → RegisteredSchedule
pending_at w at = record { workflow = w; compiled = on_instant at; next_due_ms = some at }

alone-retired :
    (times : List ℕ) (e : RegisteredSchedule) → e.next_due_ms ≡ none → alone times e ≡ []
unfolding alone due moved
alone-retired [] e h = refl
alone-retired (now ∷ later) e h = rw (alone, moved, due, h) (alone-retired later e h)

alone-once :
    (w : Workflow) (at : ℕ) (times : List ℕ) → alone times (pending_at w at) ≡ once w at times
unfolding alone once due moved next_due_after
alone-once w at [] = refl
alone-once w at (now ∷ later) = elim (Bool-cases (ltb now at)) [
  | inl t ↦
      let l : leb at now ≡ false = ground arith in
      rw (alone, moved, due, t, l) (alone-once w at later)
  | inr f ↦
      let l : leb at now ≡ true = ground arith in
      let stop : ltb at at ≡ false = ground arith in
      rw (alone, moved, due, f, l, next_due_after, stop)
        (ap (λ cs. context_of now (registered w (on_instant at) now) at ∷ cs)
          (alone-retired later _ refl))
]

-- Over schedules that stand under their own, distinct ids, and where no trigger rejects, a one-shot
-- that is scheduled at or before its instant fires once: at the first tick that reads its instant or
-- a later time, and at no other. It does not fire where no tick reads such a time.
pub one_shot-once :
    (resolves : TriggerContext → Bool) (times : List ℕ) (w : Workflow) (at now : ℕ)
    (ss after : Schedules)
    → ((c : TriggerContext) → resolves c ≡ true)
    → WellKeyed ss
    → now ≤ at
    → schedule w (one_shot at) now ss ≡ scheduled after
    → runs_of w.id (ticks resolves times after).1 ≡ once w at times
unfolding compile_cadence first_due_at_or_after
one_shot-once resolves times w at now ss after r k l h =
    let a = schedule-scheduled w (one_shot at) now ss after h in
    let same : on_instant at ≡ a.0 = (let q = a.2 in ground arith) in
    let reached : leb now at ≡ true = ground arith in
    let seeded : first_due_at_or_after (on_instant at) now ≡ some at = rw reached refl in
    let fresh : registered w a.0 now ≡ pending_at w at =
      subst (λ c. registered w c now ≡ pending_at w at) same
        (ap (λ o. record { workflow = w; compiled = on_instant at; next_due_ms = o }) seeded) in
    let found : lookup w.id after ≡ some (pending_at w at) =
      subst (λ xs. lookup w.id xs ≡ some (pending_at w at)) (sym a.3)
        (lookup-put w.id w.id (registered w a.0 now) ss
          ∙ (lookup-same w.id w.id (registered w a.0 now) ss ((eq_iff w.id w.id).1 refl)
              ∙ ap some fresh)) in
    ticks-alone resolves times after w.id (pending_at w at) r
      (schedule-WellKeyed w (one_shot at) now ss after k h) found
    ∙ alone-once w at times

-- The slots of the runs follow one another, from a bound on, and none is fired before its time.
abbrev pub InOrder : ℕ → List TriggerContext → Type 0
InOrder low [] = Unit
InOrder low (c ∷ cs) =
    (low ≤ c.scheduled_for_ms)
    × (c.scheduled_for_ms ≤ c.fired_at_ms)
    × InOrder (suc c.scheduled_for_ms) cs

-- The pending slot is at a bound or later.
abbrev pub PendingFrom : ℕ → Option ℕ → Type 0
PendingFrom low none = Unit
PendingFrom low (some slot) = low ≤ slot

PendingFrom-Earliest :
    (c : CompiledCadence) (low end : ℕ) (o : Option ℕ) → Earliest c low end o → PendingFrom low o
PendingFrom-Earliest c low end _ (fires t l f k) = l
PendingFrom-Earliest c low end _ (never k) = tt

due-some :
    (now : ℕ) (e : RegisteredSchedule) (slot : ℕ)
    → due now e ≡ some slot
    → (e.next_due_ms ≡ some slot) × (slot ≤ now)
unfolding due
due-some now e slot h = ground arith

moved-none : (now : ℕ) (e : RegisteredSchedule) → due now e ≡ none → moved now e ≡ e
unfolding moved
moved-none now e h = rw (moved, h) refl

moved-some :
    (now : ℕ) (e : RegisteredSchedule) (slot : ℕ)
    → due now e ≡ some slot
    → moved now e ≡ advance e slot
unfolding moved
moved-some now e slot h = rw (moved, h) refl

-- Over any ticks from a state on, where the slot of the schedule is at a bound or later.
ticks_from-InOrder :
    (resolves : TriggerContext → Bool) (low : ℕ) (times : List ℕ) (ss : Schedules) (id : String)
    (e : RegisteredSchedule)
    → WellKeyed ss
    → lookup id ss ≡ some e
    → IsCompiled e.compiled
    → PendingFrom low e.next_due_ms
    → InOrder low (runs_of id (ticks resolves times ss).1)
unfolding ticks
ticks_from-InOrder resolves low [] ss id e k h c p = tt
ticks_from-InOrder resolves low (now ∷ later) ss id e k h c p =
    let after = (tick resolves now ss).schedules in
    let keyed = tick-WellKeyed resolves now ss k in
    let tail = (ticks resolves later after).1 in
    elim (tick-schedule resolves now id ss e k h) [
      | inl (same, none_run) ↦
          rw (none_run tail) (ticks_from-InOrder resolves low later after id e keyed same c p)
      | inr (next, run) ↦ elim (Option-cases (due now e)) [
        | inl q ↦
            let same : lookup id after ≡ some e = next ∙ ap some (moved-none now e q) in
            rw (run tail, q) (ticks_from-InOrder resolves low later after id e keyed same c p)
        | inr (slot, q) ↦
            let d = due-some now e slot q in
            let l : low ≤ slot = subst (PendingFrom low) d.0 p in
            let pending =
              PendingFrom-Earliest _ _ _ _ (next_due_after-Earliest e.compiled slot c) in
            let advanced : lookup id after ≡ some (advance e slot) =
              next ∙ ap some (moved-some now e slot q) in
            rw (run tail, q)
              (
                l,
                d.1,
                ticks_from-InOrder resolves (suc slot) later after id (advance e slot) keyed
                    advanced c pending,
              )
      ]
    ]

pending_any : (o : Option ℕ) → PendingFrom 0 o
pending_any none = tt
pending_any (some slot) = omega arith

-- Over schedules that stand under their own, distinct ids, no slot of one with a compiled cadence
-- fires twice, whatever the ticks and whichever triggers reject: the slots of the runs of a workflow
-- increase strictly, and each run starts at its slot or later.
pub ticks-InOrder :
    (resolves : TriggerContext → Bool) (times : List ℕ) (ss : Schedules) (id : String)
    (e : RegisteredSchedule)
    → WellKeyed ss
    → lookup id ss ≡ some e
    → IsCompiled e.compiled
    → InOrder 0 (runs_of id (ticks resolves times ss).1)
ticks-InOrder resolves times ss id e k h c =
    ticks_from-InOrder resolves 0 times ss id e k h c (pending_any e.next_due_ms)

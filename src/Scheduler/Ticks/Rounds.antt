-- ===== src/Scheduler/Ticks/Rounds.antt =====
-- What one tick does.
use auxifyai.Prelude.{
  ℕ, ◌≡◌, refl, ap, inl, inr, Bool, true, false, String, Option, none, some, List, [], ◌∷◌, ◌++◌,
  map, All, Bool-cases, Option-cases,
}
use auxifyai.Scheduler.Ticks.{
  RegisteredSchedule, TriggerContext, Schedules, due, advance, context_of, Ticked, prepend_id, tick,
}

-- A schedule after a tick that fires it where it is due.
unfoldable pub moved : ℕ → RegisteredSchedule → RegisteredSchedule
moved now e = elim (due now e) [ none ↦ e | some slot ↦ advance e slot ]

abbrev pub moved_entry : ℕ → String × RegisteredSchedule → String × RegisteredSchedule
moved_entry now (id, e) = (id, moved now e)

-- The run of a schedule that is due, before the runs of others.
abbrev pub with_run : ℕ → RegisteredSchedule → Option ℕ → List TriggerContext → List TriggerContext
with_run now e none cs = cs
with_run now e (some slot) cs = context_of now e slot ∷ cs

-- The runs of the schedules that are due, in the order of registration, and their ids.
unfoldable pub runs : ℕ → Schedules → List TriggerContext
runs now [] = []
runs now ((id, e) ∷ ss) = with_run now e (due now e) (runs now ss)

abbrev pub with_id : String → Option ℕ → List String → List String
with_id id none ids = ids
with_id id (some slot) ids = id ∷ ids

unfoldable pub due_ids : ℕ → Schedules → List String
due_ids now [] = []
due_ids now ((id, e) ∷ ss) = with_id id (due now e) (due_ids now ss)

-- A tick fires every schedule that is due once and moves it on, or stops at the first whose trigger
-- rejects: that slot is spent, and the schedules after it are left as they were.
pub data Round (resolves : TriggerContext → Bool) (now : ℕ) (ss : Schedules) (t : Ticked)
    : Type 0 where
  complete :
      All (λ c. resolves c ≡ true) (runs now ss)
      → t.schedules ≡ map (moved_entry now) ss
      → t.triggered ≡ runs now ss
      → t.fired ≡ some (due_ids now ss)
      → Round resolves now ss t
  broken :
      (before after : Schedules) (id : String) (e : RegisteredSchedule) (slot : ℕ)
      → ss ≡ before ++ ((id, e) ∷ after)
      → All (λ c. resolves c ≡ true) (runs now before)
      → due now e ≡ some slot
      → resolves (context_of now e slot) ≡ false
      → t.schedules ≡ map (moved_entry now) before ++ ((id, advance e slot) ∷ after)
      → t.triggered ≡ runs now before ++ (context_of now e slot ∷ [])
      → t.fired ≡ none
      → Round resolves now ss t

module _ (resolves : TriggerContext → Bool) (now : ℕ) (id : String) (e : RegisteredSchedule) where
  passes :
      (ss : Schedules) (t : Ticked)
      → due now e ≡ none
      → Round resolves now ss t
      → Round resolves now ((id, e) ∷ ss) (record t { schedules = (id, e) ∷ t.schedules })
  unfolding moved runs due_ids
  passes ss t q (complete h a b c) =
      complete (rw (runs, q) h) (rw (moved, q) (ap (λ xs. (id, e) ∷ xs) a)) (rw (runs, q) b)
        (rw (due_ids, q) c)
  passes ss t q (broken before after i f slot k h d x a b c) =
      broken ((id, e) ∷ before) after i f slot (ap (λ xs. (id, e) ∷ xs) k) (rw (runs, q) h) d x
        (rw (moved, q) (ap (λ xs. (id, e) ∷ xs) a)) (rw (runs, q) b) c

  goes_on :
      (ss : Schedules) (t : Ticked) (slot : ℕ)
      → due now e ≡ some slot
      → resolves (context_of now e slot) ≡ true
      → Round resolves now ss t
      → Round resolves now ((id, e) ∷ ss) (record {
        schedules = (id, advance e slot) ∷ t.schedules;
        triggered = context_of now e slot ∷ t.triggered;
        fired = prepend_id id t.fired;
      })
  unfolding moved runs due_ids
  goes_on ss t slot q r (complete h a b c) =
      complete (rw (runs, q) (r, h)) (rw (moved, q) (ap (λ xs. (id, advance e slot) ∷ xs) a))
        (rw (runs, q) (ap (λ xs. context_of now e slot ∷ xs) b))
        (rw (due_ids, q) (ap (prepend_id id) c))
  goes_on ss t slot q r (broken before after i f s k h d x a b c) =
      broken ((id, e) ∷ before) after i f s (ap (λ xs. (id, e) ∷ xs) k) (rw (runs, q) (r, h)) d x
        (rw (moved, q) (ap (λ xs. (id, advance e slot) ∷ xs) a))
        (rw (runs, q) (ap (λ xs. context_of now e slot ∷ xs) b)) (ap (prepend_id id) c)

-- A tick reads one time. It triggers, in the order of registration, the run of every schedule that
-- is due and moves it on to its next time, and returns their ids; it leaves the other schedules as
-- they are. A trigger that rejects ends the tick: the slot of its schedule is spent, and the
-- schedules after it are as they were.
pub tick-Round :
    (resolves : TriggerContext → Bool) (now : ℕ) (ss : Schedules)
    → Round resolves now ss (tick resolves now ss)
unfolding tick runs due_ids
tick-Round resolves now [] = complete tt refl refl refl
tick-Round resolves now ((id, e) ∷ ss) = elim (Option-cases (due now e)) [
  | inl q ↦ rw (tick, q) (passes resolves now id e ss _ q (tick-Round resolves now ss))
  | inr (slot, q) ↦ elim (Bool-cases (resolves (context_of now e slot))) [
    | inl r ↦ rw (tick, q, r) (goes_on resolves now id e ss _ slot q r (tick-Round resolves now ss))
    | inr r ↦ rw (tick, q, r) (broken [] ss id e slot refl tt q r refl refl refl)
  ]
]

-- ===== src/Scheduler/Ticks/Firings.antt =====
-- What fires over a sequence of ticks.
use auxifyai.Prelude.{
  ℕ, ◌≡◌, refl, sym, ap, subst, ◌∙◌, inl, inr, Bool, true, false, String, Option, none, some, List,
  [], ◌∷◌, ◌++◌, map, Bool-cases, filter, str_eq, eq_iff, arith, if◌then◌else◌,
}
use auxifyai.Prelude.Maps.{lookup, lookup-same, lookup-other}
use auxifyai.Scheduler.Ticks.{RegisteredSchedule, TriggerContext, Schedules, due, context_of, tick}
use auxifyai.Scheduler.Ticks.Rounds.{
  moved, moved_entry, runs, with_run, complete, broken, tick-Round,
}
use auxifyai.Scheduler.Ticks.Keys.{WellKeyed, moved-WellKeyed}

-- Ticks at the given readings of the clock, and all the runs that they trigger.
unfoldable pub ticks :
    (TriggerContext → Bool) → List ℕ → Schedules → Schedules × List TriggerContext
ticks resolves [] ss = (ss, [])
ticks resolves (now ∷ later) ss =
    let t = tick resolves now ss in
    let (left, cs) = ticks resolves later t.schedules in (left, t.triggered ++ cs)

-- The runs of the workflow with an id.
abbrev pub runs_of : String → List TriggerContext → List TriggerContext
runs_of id cs = filter (λ c. str_eq id c.workflow.id) cs

-- What one schedule would fire by itself.
unfoldable pub alone : List ℕ → RegisteredSchedule → List TriggerContext
alone [] e = []
alone (now ∷ later) e = with_run now e (due now e) (alone later (moved now e))

runs_of-with_run :
    (now : ℕ) (id : String) (e : RegisteredSchedule) (o : Option ℕ) (cs tail : List TriggerContext)
    → runs_of id (with_run now e o cs ++ tail) ≡ (
        if str_eq id e.workflow.id
        then with_run now e o (runs_of id (cs ++ tail))
        else runs_of id (cs ++ tail))
runs_of-with_run now id e none cs tail = ground arith
runs_of-with_run now id e (some slot) cs tail = ground arith

runs-miss :
    (now : ℕ) (id : String) (ss : Schedules) (tail : List TriggerContext)
    → WellKeyed ss
    → lookup id ss ≡ none
    → runs_of id (runs now ss ++ tail) ≡ runs_of id tail
unfolding runs lookup
runs-miss now id [] tail k h = refl
runs-miss now id ((i, e) ∷ ss) tail k h = elim (Bool-cases (str_eq id i)) [
  | inl t ↦ absurd (ground arith)
  | inr f ↦
      let g : str_eq id e.workflow.id ≡ false = subst (λ j. str_eq id j ≡ false) (sym k.0) f in
      runs_of-with_run now id e (due now e) (runs now ss) tail
      ∙ rw g (runs-miss now id ss tail k.2 (sym (lookup-other id i e ss f) ∙ h))
]

runs-one :
    (now : ℕ) (id : String) (ss : Schedules) (e : RegisteredSchedule) (tail : List TriggerContext)
    → WellKeyed ss
    → lookup id ss ≡ some e
    → runs_of id (runs now ss ++ tail) ≡ with_run now e (due now e) (runs_of id tail)
unfolding runs lookup
runs-one now id [] e tail k h = absurd (ground arith)
runs-one now id ((i, f) ∷ ss) e tail k h = elim (Bool-cases (str_eq id i)) [
  | inl t ↦
      let g : str_eq id f.workflow.id ≡ true = subst (λ j. str_eq id j ≡ true) (sym k.0) t in
      let same : f ≡ e = ground (arith, lookup-same id i f ss t) in
      let gone : lookup id ss ≡ none =
        subst (λ j. lookup j ss ≡ none) (sym ((eq_iff id i).0 t)) k.1 in
      runs_of-with_run now id f (due now f) (runs now ss) tail
      ∙ rw g (
          ap (λ cs. with_run now f (due now f) cs) (runs-miss now id ss tail k.2 gone)
          ∙ ap (λ x. with_run now x (due now x) (runs_of id tail)) same)
  | inr n ↦
      let g : str_eq id f.workflow.id ≡ false = subst (λ j. str_eq id j ≡ false) (sym k.0) n in
      runs_of-with_run now id f (due now f) (runs now ss) tail
      ∙ rw g (runs-one now id ss e tail k.2 (sym (lookup-other id i f ss n) ∙ h))
]

lookup-moved-some :
    (now : ℕ) (id : String) (ss : Schedules) (e : RegisteredSchedule)
    → lookup id ss ≡ some e
    → lookup id (map (moved_entry now) ss) ≡ some (moved now e)
unfolding lookup
lookup-moved-some now id [] e h = absurd (ground arith)
lookup-moved-some now id ((i, f) ∷ ss) e h = elim (Bool-cases (str_eq id i)) [
  | inl t ↦
      let same : f ≡ e = ground (arith, lookup-same id i f ss t) in
      subst (λ x. lookup id ((i, moved now f) ∷ map (moved_entry now) ss) ≡ some (moved now x)) same
        (lookup-same id i (moved now f) _ t)
  | inr n ↦
      lookup-other id i (moved now f) _ n
      ∙ lookup-moved-some now id ss e (sym (lookup-other id i f ss n) ∙ h)
]

tick_complete :
    (resolves : TriggerContext → Bool) (now : ℕ) (ss : Schedules)
    → ((c : TriggerContext) → resolves c ≡ true)
    → ((tick resolves now ss).schedules ≡ map (moved_entry now) ss)
      × ((tick resolves now ss).triggered ≡ runs now ss)
tick_complete resolves now ss r = elim (tick-Round resolves now ss) [
  | complete h a b c ↦ (a, b)
  | broken before after i f slot k h d x a b c ↦
      absurd (let y = r (context_of now f slot) in ground arith)
]

-- Other schedules do not interfere: over any ticks, a workflow has the runs that its schedule would
-- have alone.
pub ticks-alone :
    (resolves : TriggerContext → Bool) (times : List ℕ) (ss : Schedules) (id : String)
    (e : RegisteredSchedule)
    → ((c : TriggerContext) → resolves c ≡ true)
    → WellKeyed ss
    → lookup id ss ≡ some e
    → runs_of id (ticks resolves times ss).1 ≡ alone times e
unfolding ticks alone
ticks-alone resolves [] ss id e r k h = refl
ticks-alone resolves (now ∷ later) ss id e r k h =
    let t = tick_complete resolves now ss r in
    let moved_ss : Schedules = map (moved_entry now) ss in
    let rest =
      ticks-alone resolves later moved_ss id (moved now e) r (moved-WellKeyed now ss k)
        (lookup-moved-some now id ss e h) in
    rw (t.0, t.1)
      (runs-one now id ss e (ticks resolves later moved_ss).1 k h
        ∙ ap (λ cs. with_run now e (due now e) cs) rest)

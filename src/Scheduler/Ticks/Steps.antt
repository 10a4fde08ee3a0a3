-- ===== src/Scheduler/Ticks/Steps.antt =====
-- What one tick does to one schedule, whichever triggers reject.
use auxifyai.Prelude.{
  ℕ, ◌≡◌, refl, sym, ap, subst, ◌∙◌, ◌⊎◌, inl, inr, Bool, true, false, String, none, some, List, [],
  ◌∷◌, ◌++◌, Bool-cases, Option-cases, str_eq, eq_iff, arith,
}
use auxifyai.Prelude.Maps.{lookup, lookup-same, lookup-other}
use auxifyai.Scheduler.Ticks.{
  RegisteredSchedule, TriggerContext, Schedules, due, advance, context_of, tick,
}
use auxifyai.Scheduler.Ticks.Rounds.{moved, with_run}
use auxifyai.Scheduler.Ticks.Keys.{WellKeyed}
use auxifyai.Scheduler.Ticks.Firings.{runs_of}

module _ (resolves : TriggerContext → Bool) (now : ℕ) where
  tick-lookup-none :
      (id : String) (ss : Schedules)
      → lookup id ss ≡ none
      → lookup id (tick resolves now ss).schedules ≡ none
  unfolding tick lookup
  tick-lookup-none id [] h = refl
  tick-lookup-none id ((i, f) ∷ ss) h =
      let other : str_eq id i ≡ false = ground arith in
      let rest = tick-lookup-none id ss (sym (lookup-other id i f ss other) ∙ h) in
      elim (Option-cases (due now f)) [
        | inl q ↦ rw (tick, q, other) rest
        | inr (slot, q) ↦ elim (Bool-cases (resolves (context_of now f slot))) [
          | inl r ↦ rw (tick, q, r, other) rest
          | inr r ↦ rw (tick, q, r, other) (sym (lookup-other id i f ss other) ∙ h)
        ]
      ]

  pub tick-WellKeyed : (ss : Schedules) → WellKeyed ss → WellKeyed (tick resolves now ss).schedules
  unfolding tick
  tick-WellKeyed [] k = tt
  tick-WellKeyed ((i, f) ∷ ss) k =
      let gone = tick-lookup-none i ss k.1 in
      let rest = tick-WellKeyed ss k.2 in
      elim (Option-cases (due now f)) [
        | inl q ↦ rw (tick, q) (k.0, gone, rest)
        | inr (slot, q) ↦ elim (Bool-cases (resolves (context_of now f slot))) [
          | inl r ↦ rw (tick, q, r) (k.0, gone, rest)
          | inr r ↦ rw (tick, q, r) (k.0, k.1, k.2)
        ]
      ]

  runs_of-other :
      (id : String) (c : TriggerContext) (cs : List TriggerContext)
      → str_eq id c.workflow.id ≡ false
      → runs_of id (c ∷ cs) ≡ runs_of id cs
  runs_of-other id c cs h = rw h refl

  runs_of-own :
      (id : String) (c : TriggerContext) (cs : List TriggerContext)
      → str_eq id c.workflow.id ≡ true
      → runs_of id (c ∷ cs) ≡ c ∷ runs_of id cs
  runs_of-own id c cs h = rw h refl

  tick-no_run :
      (id : String) (ss : Schedules)
      → WellKeyed ss
      → lookup id ss ≡ none
      → (tail : List TriggerContext)
      → runs_of id ((tick resolves now ss).triggered ++ tail) ≡ runs_of id tail
  unfolding tick lookup
  tick-no_run id [] k h tail = refl
  tick-no_run id ((i, f) ∷ ss) k h tail =
      let other : str_eq id i ≡ false = ground arith in
      let g : str_eq id f.workflow.id ≡ false = subst (λ j. str_eq id j ≡ false) (sym k.0) other in
      let rest = tick-no_run id ss k.2 (sym (lookup-other id i f ss other) ∙ h) tail in
      elim (Option-cases (due now f)) [
        | inl q ↦ rw (tick, q) rest
        | inr (slot, q) ↦ elim (Bool-cases (resolves (context_of now f slot))) [
          | inl r ↦ rw (tick, q, r) (runs_of-other id (context_of now f slot) _ g ∙ rest)
          | inr r ↦ rw (tick, q, r) (runs_of-other id (context_of now f slot) _ g)
        ]
      ]

  -- A schedule is as it was and did not run, or ran where it was due and has moved on.
  abbrev pub Steps : String → RegisteredSchedule → Schedules → List TriggerContext → Type 0
  Steps id e after triggered =
      ((lookup id after ≡ some e)
        × ((tail : List TriggerContext) → runs_of id (triggered ++ tail) ≡ runs_of id tail))
      ⊎ ((lookup id after ≡ some (moved now e))
          × ((tail : List TriggerContext)
              → runs_of id (triggered ++ tail) ≡ with_run now e (due now e) (runs_of id tail)))

  own-Steps :
      (id : String) (e : RegisteredSchedule) (ss : Schedules)
      → str_eq id e.workflow.id ≡ true
      → str_eq id id ≡ true
      → WellKeyed ss
      → lookup id ss ≡ none
      → Steps id e
          (tick resolves now ((id, e) ∷ ss)).schedules
          (tick resolves now ((id, e) ∷ ss)).triggered
  unfolding tick moved
  own-Steps id e ss g s k h =
      let rest = tick-no_run id ss k h in
      elim (Option-cases (due now e)) [
        | inl q ↦ rw (tick, q) (inl (lookup-same id id e _ s, rest))
        | inr (slot, q) ↦ elim (Bool-cases (resolves (context_of now e slot))) [
          | inl r ↦
              rw (tick, moved, q, r)
                (inr (
                  lookup-same id id (advance e slot) _ s,
                  λ tail.
                      runs_of-own id (context_of now e slot) _ g
                      ∙ ap (λ cs. context_of now e slot ∷ cs) (rest tail),
                ))
          | inr r ↦
              rw (tick, moved, q, r)
                (inr (
                  lookup-same id id (advance e slot) _ s,
                  λ tail. runs_of-own id (context_of now e slot) tail g,
                ))
        ]
      ]

  other-Steps :
      (id i : String) (e f : RegisteredSchedule) (after : Schedules) (cs : List TriggerContext)
      → str_eq id i ≡ false
      → Steps id e after cs
      → Steps id e ((i, f) ∷ after) cs
  other-Steps id i e f after cs o (inl h) = inl (lookup-other id i f after o ∙ h.0, h.1)
  other-Steps id i e f after cs o (inr h) = inr (lookup-other id i f after o ∙ h.0, h.1)

  run-Steps :
      (id : String) (e : RegisteredSchedule) (after : Schedules) (c : TriggerContext)
      (cs : List TriggerContext)
      → str_eq id c.workflow.id ≡ false
      → Steps id e after cs
      → Steps id e after (c ∷ cs)
  run-Steps id e after c cs o (inl h) =
      inl (h.0, λ tail. runs_of-other id c (cs ++ tail) o ∙ h.1 tail)
  run-Steps id e after c cs o (inr h) =
      inr (h.0, λ tail. runs_of-other id c (cs ++ tail) o ∙ h.1 tail)

  pub tick-schedule :
      (id : String) (ss : Schedules) (e : RegisteredSchedule)
      → WellKeyed ss
      → lookup id ss ≡ some e
      → Steps id e (tick resolves now ss).schedules (tick resolves now ss).triggered
  unfolding tick lookup
  tick-schedule id [] e k h = absurd (ground arith)
  tick-schedule id ((i, f) ∷ ss) e k h = elim (Bool-cases (str_eq id i)) [
    | inl t ↦
        let same : f ≡ e = ground (arith, lookup-same id i f ss t) in
        let key : i ≡ id = sym ((eq_iff id i).0 t) in
        let own : str_eq id e.workflow.id ≡ true =
          (eq_iff id e.workflow.id).1
            (sym (ap (λ (x : RegisteredSchedule). x.workflow.id) (sym same) ∙ k.0 ∙ key)) in
        let gone : lookup id ss ≡ none = subst (λ j. lookup j ss ≡ none) key k.1 in
        let head : ((i, f) ∷ ss) ≡ ((id, e) ∷ ss) =
          ap (λ j. (j, f) ∷ ss) key ∙ ap (λ x. (id, x) ∷ ss) same in
        subst
          (λ (xs : Schedules).
            Steps id e (tick resolves now xs).schedules (tick resolves now xs).triggered)
          (sym head) (own-Steps id e ss own ((eq_iff id id).1 refl) k.2 gone)
    | inr n ↦
        let g : str_eq id f.workflow.id ≡ false = subst (λ j. str_eq id j ≡ false) (sym k.0) n in
        let found : lookup id ss ≡ some e = sym (lookup-other id i f ss n) ∙ h in
        let rest = tick-schedule id ss e k.2 found in
        elim (Option-cases (due now f)) [
          | inl q ↦ rw (tick, q) (other-Steps id i e f _ _ n rest)
          | inr (slot, q) ↦ elim (Bool-cases (resolves (context_of now f slot))) [
            | inl r ↦
                rw (tick, q, r)
                  (run-Steps id e ((i, advance f slot) ∷ (tick resolves now ss).schedules)
                    (context_of now f slot) _ g (other-Steps id i e (advance f slot) _ _ n rest))
            | inr r ↦
                rw (tick, q, r)
                  (run-Steps id e ((i, advance f slot) ∷ ss) (context_of now f slot) [] g
                    (other-Steps id i e (advance f slot) ss [] n (inl (found, λ tail. refl))))
          ]
        ]
  ]

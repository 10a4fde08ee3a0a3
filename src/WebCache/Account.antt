-- ===== src/WebCache/Account.antt =====
-- The account of computations and callers, and what one step does to it.
use mathlib.Core.List.{map-append}
use auxifyai.Prelude.{
  ℕ, ◌+◌, ◌≡◌, sym, ap, subst, inl, inr, String, Option, none, some, List, [], ◌∷◌, ◌++◌, map, ◌∙◌,
  if◌then◌else◌, str_eq, eq_iff, arith, Bool-cases, is_some,
}
use auxifyai.Prelude.Maps.{lookup, put, lookup-put, lookup-same, lookup-other}
use auxifyai.WebCache.{Value, Flight, Missed, WebCacheState, remove, answer}
use auxifyai.WebCache.Waiting.{
  count, OneEach, waiting, flying, remove-lookup, map-answer, one, times, times-append,
}

-- The callers that were answered, and those that missed.
abbrev pub answered_callers : WebCacheState → List ℕ
answered_callers st = map (λ a. a.0) st.answered

abbrev pub missed_callers : WebCacheState → List ℕ
missed_callers st = map (λ m. m.caller) st.missed

-- The computations of a key that have started are those that have ended, and the one in flight if
-- there is one. Each caller was answered, waits, or missed, as often in all as it has called.
pub record Flown (calls_made : ℕ → ℕ) (st : WebCacheState) : Type 0 where
  pub one_each : OneEach st.in_flight
  pub single : (k : String) → count k st.computed ≡ count k st.settled + flying k st.in_flight
  pub all_answered :
      (c : ℕ)
      → times c (answered_callers st) + waiting c st.in_flight + times c (missed_callers st)
        ≡ calls_made c

abbrev pub with_call : ℕ → (ℕ → ℕ) → ℕ → ℕ
with_call caller n c = one c caller + n c

pub times-answered :
    (c d : ℕ) (v : Option Value) (given : List (ℕ × Option Value))
    → times c (map (λ a. a.0) (given ++ ((d, v) ∷ []))) ≡ times c (map (λ a. a.0) given) + one c d
unfolding times
times-answered c d v given =
    ap (times c) (map-append (λ (a : ℕ × Option Value). a.0) given ((d, v) ∷ []))
    ∙ times-append c (map (λ a. a.0) given) (d ∷ [])
    ∙ omega arith

pub times-missed :
    (c : ℕ) (m : Missed) (ms : List Missed)
    → times c (map (λ n. n.caller) (ms ++ (m ∷ [])))
      ≡ times c (map (λ n. n.caller) ms) + one c m.caller
unfolding times
times-missed c m ms =
    ap (times c) (map-append (λ (n : Missed). n.caller) ms (m ∷ []))
    ∙ times-append c (map (λ n. n.caller) ms) (m.caller ∷ [])
    ∙ omega arith

pub started :
    (k i : String) (new : Flight) (st : WebCacheState)
    → (n : ℕ → ℕ) → Flown n st
    → lookup i st.in_flight ≡ none
    → count k (i ∷ st.computed) ≡ count k st.settled + flying k (put i new st.in_flight)
unfolding count
started k i new st n f q =
    let s = f.single k in
    let l = lookup-put k i new st.in_flight in
    elim (Bool-cases (str_eq k i)) [
      | inl t ↦
          let same : k ≡ i = (eq_iff k i).0 t in
          let none_k : lookup k st.in_flight ≡ none =
            subst (λ j. lookup j st.in_flight ≡ none) (sym same) q in
          let s' : count k st.computed ≡ count k st.settled + 0 =
            subst (λ o. count k st.computed ≡ count k st.settled + (if is_some o then 1 else 0))
              none_k s in
          rw (l, lookup-same k i new st.in_flight t, t) (omega (arith, s'))
      | inr d ↦ rw (l, lookup-other k i new st.in_flight d, d) (omega (arith, s))
    ]

pub joined :
    (k i : String) (new old : Flight) (st : WebCacheState)
    → (n : ℕ → ℕ) → Flown n st
    → lookup i st.in_flight ≡ some old
    → count k st.computed ≡ count k st.settled + flying k (put i new st.in_flight)
joined k i new old st n f q =
    let s = f.single k in
    let l = lookup-put k i new st.in_flight in
    elim (Bool-cases (str_eq k i)) [
      | inl t ↦
          let same : k ≡ i = (eq_iff k i).0 t in
          let here : lookup k st.in_flight ≡ some old =
            subst (λ j. lookup j st.in_flight ≡ some old) (sym same) q in
          let s' : count k st.computed ≡ count k st.settled + 1 =
            subst (λ o. count k st.computed ≡ count k st.settled + (if is_some o then 1 else 0))
              here s in
          rw (l, lookup-same k i new st.in_flight t) s'
      | inr d ↦ rw (l, lookup-other k i new st.in_flight d) s
    ]

pub ended :
    (k i : String) (old : Flight) (st : WebCacheState)
    → (n : ℕ → ℕ) → Flown n st
    → lookup i st.in_flight ≡ some old
    → count k st.computed ≡ count k (i ∷ st.settled) + flying k (remove i st.in_flight)
unfolding count
ended k i old st n f q =
    let s = f.single k in
    let l = remove-lookup k i st.in_flight f.one_each in
    elim (Bool-cases (str_eq k i)) [
      | inl t ↦
          let same : k ≡ i = (eq_iff k i).0 t in
          let here : lookup k st.in_flight ≡ some old =
            subst (λ j. lookup j st.in_flight ≡ some old) (sym same) q in
          let s' : count k st.computed ≡ count k st.settled + 1 =
            subst (λ o. count k st.computed ≡ count k st.settled + (if is_some o then 1 else 0))
              here s in
          rw (l, t) (omega (arith, s'))
      | inr d ↦ rw (l, d) (omega (arith, s))
    ]

pub times-answer :
    (v : Option Value) (cs : List ℕ) (st : WebCacheState) (c : ℕ)
    → times c (map (λ a. a.0) (st.answered ++ answer v cs))
      ≡ times c (answered_callers st) + times c cs
times-answer v cs st c =
    ap (times c) (map-append (λ (a : ℕ × Option Value). a.0) st.answered (answer v cs))
    ∙ times-append c (answered_callers st) (map (λ a. a.0) (answer v cs))
    ∙ ap (λ ds. times c (answered_callers st) + times c ds) (map-answer v cs)

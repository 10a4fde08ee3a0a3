-- ===== src/WebCache/Flights.antt =====
-- One computation at a time for a key, and an answer for each caller.
use auxifyai.Prelude.{
  ℕ, ◌+◌, ◌≡◌, ap, inl, inr, String, Option, none, some, List, [], ◌∷◌, ◌++◌, map, ◌∙◌, arith,
  Bool-cases, Option-cases, List-cases,
}
use auxifyai.Prelude.Maps.{lookup}
use auxifyai.WebCache.{
  Value, Flight, Missed, WebCacheState, Event, calls, resumes, settles, valid_ttl, get, call,
  join_or_start, resume, settle, step, play, empty_state,
}
use auxifyai.WebCache.Waiting.{
  count, waiting, put-OneEach, remove-OneEach, waiting-put_new, waiting-put_old, waiting-remove,
  one, times, times-append,
}
use auxifyai.WebCache.Account.{
  missed_callers, Flown, with_call, times-answered, times-missed, started, joined, ended,
  times-answer,
}

call-Flown :
    (n : ℕ → ℕ) (caller : ℕ) (k : String) (ttl now : ℕ) (st : WebCacheState)
    → Flown n st
    → Flown (with_call caller n) (call caller k ttl now st)
unfolding call
call-Flown n caller k ttl now st f =
    let a = f.all_answered in
    elim (Bool-cases (valid_ttl ttl)) [
      | inr b ↦
          rw (call, b)
            (record {
              one_each = f.one_each;
              single = f.single;
              all_answered = λ c. omega (arith, a c, times-answered c caller none st.answered);
            })
      | inl b ↦ elim (Option-cases (get k now st.store).0) [
        | inl q ↦
            let m : Missed = record { caller = caller; key = k; ttl = ttl } in
            rw (call, b, q)
              (record {
                one_each = f.one_each;
                single = f.single;
                all_answered = λ c. omega (arith, a c, times-missed c m st.missed);
              })
        | inr (e, q) ↦
            rw (call, b, q)
              (record {
                one_each = f.one_each;
                single = f.single;
                all_answered =
                    λ c. omega (arith, a c, times-answered c caller (some e.value) st.answered);
              })
      ]
    ]

-- A caller that missed is no longer among these.
join_or_start-Flown :
    (n : ℕ → ℕ) (m : Missed) (ms : List Missed) (st : WebCacheState)
    → st.missed ≡ m ∷ ms
    → Flown n st
    → Flown n (join_or_start m (record st { missed = ms }))
unfolding join_or_start times
join_or_start-Flown n m ms st e f =
    let a = f.all_answered in
    let l : (c : ℕ) → times c (missed_callers st) ≡ times c (map (λ n. n.caller) (m ∷ ms)) =
      λ c. ap (λ xs. times c (map (λ n. n.caller) xs)) e in
    elim (Option-cases (lookup m.key st.in_flight)) [
      | inl q ↦
          let new : Flight = record { ttl = m.ttl; callers = m.caller ∷ [] } in
          let w = λ (c : ℕ). waiting-put_new c m.key new st.in_flight q in
          rw (join_or_start, q)
            (record {
              one_each = put-OneEach m.key new st.in_flight f.one_each;
              single = λ k. started k m.key new st n f q;
              all_answered = λ c. omega (arith, a c, l c, w c);
            })
      | inr (g, q) ↦
          let new : Flight = record g { callers = g.callers ++ (m.caller ∷ []) } in
          let w = λ (c : ℕ). waiting-put_old c m.key new g st.in_flight q in
          let t = λ (c : ℕ). times-append c g.callers (m.caller ∷ []) in
          rw (join_or_start, q)
            (record {
              one_each = put-OneEach m.key new st.in_flight f.one_each;
              single = λ k. joined k m.key new g st n f q;
              all_answered = λ c. omega (arith, a c, l c, w c, t c);
            })
    ]

resume-Flown : (n : ℕ → ℕ) (st : WebCacheState) → Flown n st → Flown n (resume st)
unfolding resume
resume-Flown n st f = elim (List-cases st.missed) [
  | inl e ↦ rw (resume, e) f
  | inr (m, ms, e) ↦ rw (resume, e) (join_or_start-Flown n m ms st e f)
]

settle-Flown :
    (n : ℕ → ℕ) (k : String) (result : Option Value) (now : ℕ) (st : WebCacheState)
    → Flown n st
    → Flown n (settle k result now st)
unfolding settle
settle-Flown n k result now st f = elim (Option-cases (lookup k st.in_flight)) [
  | inl q ↦ rw (settle, q) f
  | inr (g, q) ↦
      let a = f.all_answered in
      let w = λ (c : ℕ). waiting-remove c k g st.in_flight q in
      let l = times-answer result g.callers st in
      rw (settle, q)
        (record {
          one_each = remove-OneEach k st.in_flight f.one_each;
          single = λ i. ended i k g st n f q;
          all_answered = λ c. omega (arith, a c, w c, l c);
        })
]

-- How often a caller calls among some events.
unfoldable pub calls_in : List Event → ℕ → ℕ
calls_in [] c = 0
calls_in (calls caller k ttl now ∷ es) c = one c caller + calls_in es c
calls_in (resumes ∷ es) c = calls_in es c
calls_in (settles k result now ∷ es) c = calls_in es c

Flown-same : (n m : ℕ → ℕ) (st : WebCacheState) → ((c : ℕ) → n c ≡ m c) → Flown n st → Flown m st
Flown-same n m st e f = record {
  one_each = f.one_each;
  single = f.single;
  all_answered = λ c. f.all_answered c ∙ e c;
}

play_from-Flown :
    (n : ℕ → ℕ) (es : List Event) (st : WebCacheState)
    → Flown n st
    → Flown (λ c. calls_in es c + n c) (play es st)
unfolding play calls_in step
play_from-Flown n [] st f = Flown-same n _ st (λ c. omega arith) f
play_from-Flown n (calls caller k ttl now ∷ es) st f =
    Flown-same _ _ _ (λ c. omega arith)
      (play_from-Flown (with_call caller n) es (call caller k ttl now st)
        (call-Flown n caller k ttl now st f))
play_from-Flown n (resumes ∷ es) st f = play_from-Flown n es (resume st) (resume-Flown n st f)
play_from-Flown n (settles k result now ∷ es) st f =
    play_from-Flown n es (settle k result now st) (settle-Flown n k result now st f)

-- However calls and computations take turns, at most one computation of a key is in flight at a time,
-- and each call is accounted for once: a caller was answered, waits for a computation, or is about to
-- join or start one, as often in all as it has called.
pub play-Flown : (es : List Event) → Flown (calls_in es) (play es empty_state)
unfolding count lookup waiting times
play-Flown es =
    Flown-same (λ c. calls_in es c + 0) (calls_in es) (play es empty_state) (λ c. omega arith)
      (play_from-Flown (λ c. 0) es empty_state
        (record { one_each = tt; single = λ k. omega arith; all_answered = λ c. omega arith }))

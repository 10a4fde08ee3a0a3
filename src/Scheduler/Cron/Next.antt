-- ===== src/Scheduler/Cron/Next.antt =====
-- The search for the next minute.
use Prim.Native.Nat.{◌%◌}
use auxifyai.Prelude.{
  ℕ, zero, suc, ◌+◌, ◌*◌, ◌/◌, ◌≡◌, ◌≤◌, ◌<◌, subst, ◌⊎◌, inl, inr, true, false, Option, none, some,
  arith, Bool-cases,
}
use auxifyai.Scheduler.Cron.{
  ParsedCron, cron_matches, minute_ms, horizon_minutes, search, next_cron_time, cron_time_from,
}

-- The minutes that start from a first time to the one before an end, without a match.
abbrev pub NoMatch : ParsedCron → ℕ → ℕ → Type 0
NoMatch c first end = (u : ℕ) → first ≤ u → u < end → u % 60_000 ≡ 0 → cron_matches c u ≡ false

-- The first matching minute of those that start from a first time to the one before an end; nothing
-- where there is none.
pub data FirstMatch (c : ParsedCron) (first end : ℕ) : Option ℕ → Type 0 where
  match :
      (t : ℕ)
      → first ≤ t
      → t < end
      → t % 60_000 ≡ 0
      → cron_matches c t ≡ true
      → NoMatch c first t
      → FirstMatch c first end (some t)
  no_match : NoMatch c first end → FirstMatch c first end none

later_or_same : (a u : ℕ) → a % 60_000 ≡ 0 → u % 60_000 ≡ 0 → a ≤ u → (a ≡ u) ⊎ (a + 60_000 ≤ u)
later_or_same a u r m l = ground arith

-- A minute that starts at `first` and does not match is no obstacle.
NoMatch-step :
    (c : ParsedCron) (first end : ℕ)
    → first % 60_000 ≡ 0
    → cron_matches c first ≡ false
    → NoMatch c (first + minute_ms) end
    → NoMatch c first end
NoMatch-step c first end r f k u l h m = elim (later_or_same first u r m l) [
  | inl e ↦ subst (λ v. cron_matches c v ≡ false) e f
  | inr g ↦ k u g h m
]

after_miss :
    (c : ParsedCron) (first rounds : ℕ)
    → first % 60_000 ≡ 0
    → cron_matches c first ≡ false
    → {o : Option ℕ} → FirstMatch c (first + minute_ms) (first + minute_ms + rounds * 60_000) o
    → FirstMatch c first (first + suc rounds * 60_000) o
after_miss c first rounds r f (match t a b q e k) =
    match t (omega arith) (omega arith) q e (NoMatch-step c first t r f k)
after_miss c first rounds r f (no_match k) =
    no_match (NoMatch-step c first _ r f (λ u h i m. k u h (omega arith) m))

pub search-FirstMatch :
    (c : ParsedCron) (rounds first : ℕ)
    → first % 60_000 ≡ 0
    → FirstMatch c first (first + rounds * 60_000) (search c rounds first)
unfolding search
search-FirstMatch c zero first r = no_match (λ u l h m. absurd (omega arith))
search-FirstMatch c (suc rounds) first r = elim (Bool-cases (cron_matches c first)) [
  | inl t ↦
      rw (search, t) (match first (omega arith) (omega arith) r t (λ u l h m. absurd (omega arith)))
  | inr f ↦
      rw (search, f)
        (after_miss c first rounds r f
          (search-FirstMatch c rounds (first + minute_ms) (omega (arith, r))))
]

-- The end of the search for a minute after a time, and for one from a time on.
abbrev pub end_after : ℕ → ℕ
end_after after = after / 60_000 * 60_000 + 60_000 + suc horizon_minutes * 60_000

abbrev pub end_from : ℕ → ℕ
end_from zero = suc horizon_minutes * 60_000
end_from (suc n) = end_after n

-- The minutes from a minute on are those after any time in the minute before.
widen :
    (c : ParsedCron) (low first end : ℕ)
    → low ≤ first
    → ((u : ℕ) → low ≤ u → u % 60_000 ≡ 0 → first ≤ u)
    → (o : Option ℕ) → FirstMatch c first end o
    → FirstMatch c low end o
widen c low first end l g _ (match t a b r e k) =
    match t (omega arith) b r e (λ u h i m. k u (g u h m) i m)
widen c low first end l g _ (no_match k) = no_match (λ u h i m. k u (g u h m) i m)

-- The next time of a cron expression is the start of the first minute after the given time that
-- matches it, among those up to the horizon of four years; there is none only where none matches.
pub next_cron_time-FirstMatch :
    (c : ParsedCron) (after : ℕ)
    → FirstMatch c (suc after) (end_after after) (next_cron_time c after)
unfolding next_cron_time
next_cron_time-FirstMatch c after =
    let first : ℕ = after / 60_000 * 60_000 + 60_000 in
    widen c (suc after) first _ (omega arith) (λ u h m. omega arith) _
      (search-FirstMatch c (suc horizon_minutes) first (omega arith))

pub cron_time_from-FirstMatch :
    (c : ParsedCron) (from : ℕ) → FirstMatch c from (end_from from) (cron_time_from c from)
unfolding cron_time_from
cron_time_from-FirstMatch c zero = search-FirstMatch c (suc horizon_minutes) 0 (omega arith)
cron_time_from-FirstMatch c (suc n) = next_cron_time-FirstMatch c n

-- ===== src/Scheduler/Due.antt =====
-- When a schedule is due next.
use Prim.Native.Nat.{◌%◌}
use native.Mathlib.Nat.{lt-div-mul-add, div-lt_iff_lt-mul, mul-le-mul_right}
use auxifyai.Prelude.{
  ℕ, suc, ◌+◌, ◌-◌, ◌*◌, ◌/◌, ◌≡◌, ◌≤◌, ◌<◌, refl, inl, inr, true, false, Option, none, some, arith,
  Bool-cases, ltb, ltb→lt, leb, leb→le,
}
use auxifyai.Scheduler.{
  Cadence, cron, interval, one_shot, CompiledCadence, on_cron, on_grid, on_instant, compile_cadence,
  grid_after, first_due_at_or_after, next_due_after,
}
use auxifyai.Scheduler.Cron.{ParsedCron, cron_matches}
use auxifyai.Scheduler.Cron.Next.{
  FirstMatch, match, no_match, end_after, end_from, next_cron_time-FirstMatch,
  cron_time_from-FirstMatch,
}

-- The times at which a cadence fires: the grid points from the anchor on, the instant, or the
-- minutes that match.
abbrev pub Fires : CompiledCadence → ℕ → Type 0
Fires (on_grid anchor ms) t = (k : ℕ) × (t ≡ anchor + k * ms)
Fires (on_instant at) t = t ≡ at
Fires (on_cron c) t = (t % 60_000 ≡ 0) × (cron_matches c t ≡ true)

-- The times that the search covers: all, but up to its horizon for cron.
abbrev pub Within : CompiledCadence → ℕ → ℕ → Type 0
Within (on_cron c) end t = t < end
Within (on_grid anchor ms) end t = Unit
Within (on_instant at) end t = Unit

-- The earliest time from a bound on at which a cadence fires, if there is one.
pub data Earliest (c : CompiledCadence) (low end : ℕ) : Option ℕ → Type 0 where
  fires :
      (t : ℕ)
      → low ≤ t
      → Fires c t
      → ((u : ℕ) → low ≤ u → u < t → Fires c u → ⊥)
      → Earliest c low end (some t)
  never : ((u : ℕ) → low ≤ u → Within c end u → Fires c u → ⊥) → Earliest c low end none

-- The interval of a grid is positive.
abbrev pub IsCompiled : CompiledCadence → Type 0
IsCompiled (on_grid anchor ms) = 1 ≤ ms
IsCompiled (on_instant at) = Unit
IsCompiled (on_cron c) = Unit

pub compile_cadence-IsCompiled :
    (cadence : Cadence) (registration : ℕ) (c : CompiledCadence)
    → compile_cadence cadence registration ≡ some c
    → IsCompiled c
unfolding compile_cadence
compile_cadence-IsCompiled (interval ms anchor) registration c h = ground arith
compile_cadence-IsCompiled (one_shot at) registration c h = ground arith
compile_cadence-IsCompiled (cron fields) registration c h = ground arith

Earliest-cron :
    (c : ParsedCron) (low end : ℕ) (o : Option ℕ)
    → FirstMatch c low end o
    → Earliest (on_cron c) low end o
Earliest-cron c low end _ (match t a b r e k) =
    fires t a (r, e) (λ u h i m. absurd (let q = k u h i m.0 in let e' = m.1 in ground arith))
Earliest-cron c low end _ (no_match k) =
    never (λ u h i m. absurd (let q = k u h i m.0 in let e' = m.1 in ground arith))

grid_least :
    (anchor ms bound u k : ℕ)
    → 1 ≤ ms
    → anchor ≤ bound
    → bound < u
    → u ≡ anchor + k * ms
    → anchor + ((bound - anchor) / ms + 1) * ms ≤ u
grid_least anchor ms bound u k p a b e =
    let d : bound - anchor < k * ms = omega arith in
    let q : (bound - anchor) / ms < k = (div-lt_iff_lt-mul p).1 d in
    let r = mul-le-mul_right ms (let s : (bound - anchor) / ms + 1 ≤ k = omega arith in s) in
    omega arith

leb_of : (a b : ℕ) → ltb a b ≡ false → b ≤ a
leb_of a b h = ground arith

grid_after-Earliest :
    (anchor ms bound end : ℕ)
    → 1 ≤ ms
    → Earliest (on_grid anchor ms) (suc bound) end (some (grid_after anchor ms bound))
unfolding grid_after
grid_after-Earliest anchor ms bound end p = elim (Bool-cases (ltb bound anchor)) [
  | inl t ↦
      rw (grid_after, t)
        (fires anchor (ltb→lt _ _ t) (0, omega arith) (λ u h i f. let e = f.1 in omega arith))
  | inr f ↦
      let d = lt-div-mul-add {a = bound - anchor} p in
      rw (grid_after, f)
        (fires _ (let g = leb_of _ _ f in omega arith) ((bound - anchor) / ms + 1, refl)
          (λ u h i g.
            absurd
              (let l = grid_least anchor ms bound u g.0 p (leb_of _ _ f) h g.1 in omega arith)))
]

-- The next due time is the earliest time after the given one at which the cadence fires, if there
-- is one (for cron, up to its horizon).
pub next_due_after-Earliest :
    (c : CompiledCadence) (after : ℕ)
    → IsCompiled c
    → Earliest c (suc after) (end_after after) (next_due_after c after)
unfolding next_due_after
next_due_after-Earliest (on_grid anchor ms) after p = grid_after-Earliest anchor ms after _ p
next_due_after-Earliest (on_instant at) after p = elim (Bool-cases (ltb after at)) [
  | inl t ↦
      rw (next_due_after, t)
        (fires at (ltb→lt _ _ t) refl (λ u h i f. let e : u ≡ at = f in omega arith))
  | inr f ↦
      rw (next_due_after, f)
        (never (λ u h i g. let e : u ≡ at = g in let l = leb_of _ _ f in omega arith))
]
next_due_after-Earliest (on_cron c) after p =
    Earliest-cron c _ _ _ (next_cron_time-FirstMatch c after)

-- A schedule may fire at once, but an interval fires after the time it is registered.
abbrev pub seed_bound : CompiledCadence → ℕ → ℕ
seed_bound (on_grid anchor ms) from = suc from
seed_bound (on_instant at) from = from
seed_bound (on_cron c) from = from

pub first_due_at_or_after-Earliest :
    (c : CompiledCadence) (from : ℕ)
    → IsCompiled c
    → Earliest c (seed_bound c from) (end_from from) (first_due_at_or_after c from)
unfolding first_due_at_or_after
first_due_at_or_after-Earliest (on_grid anchor ms) from p = grid_after-Earliest anchor ms from _ p
first_due_at_or_after-Earliest (on_instant at) from p = elim (Bool-cases (leb from at)) [
  | inl t ↦
      rw (first_due_at_or_after, t)
        (fires at (leb→le _ _ t) refl (λ u h i f. let e : u ≡ at = f in omega arith))
  | inr f ↦
      rw (first_due_at_or_after, f)
        (never
          (λ u h i g. let e : u ≡ at = g in let l : suc at ≤ from = ground arith in omega arith))
]
first_due_at_or_after-Earliest (on_cron c) from p =
    Earliest-cron c _ _ _ (cron_time_from-FirstMatch c from)

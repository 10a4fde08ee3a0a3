-- ===== src/RateLimit/Windows.antt =====
-- What `consume` admits, and what it counts.
use auxifyai.Prelude.{
  ℕ, ◌+◌, ◌-◌, ◌*◌, ◌/◌, ltb, ◌≡◌, ◌∙◌, ◌≤◌, ◌<◌, refl, subst, ap, ◌⊎◌, inl, inr, true, false,
  String, Option, none, some, List, [], ◌∷◌, length, if◌then◌else◌, leb, arith, All, All-always,
  leb→le, Bool-cases, Option-cases,
}
use auxifyai.Prelude.Maps.{put}
use auxifyai.RateLimit.{
  RateLimitKey, RateLimitDecision, Hits, counter_key, exceeded, admitted, retry_seconds, first_or,
  check_keys, consume,
}
use auxifyai.RateLimit.Counters.{
  Apart, DistinctKeys, counted, UnderLimit, SameCounts, SameCounts-put, counted-pruned,
  counted-lookup, counted-apart, check_keys-Apart,
}

pub check_keys-SameCounts :
    (now : ℕ) (ks : List RateLimitKey) (hits : Hits)
    → DistinctKeys ks
    → SameCounts now hits (check_keys now ks hits).1 ks
unfolding check_keys
check_keys-SameCounts now [] hits d = tt
check_keys-SameCounts now (k ∷ ks) hits d =
    let r = counted hits now k in
    let left = put (counter_key k) r hits in
    let rest =
      SameCounts-put now hits (check_keys now ks left).1 (counter_key k) r ks d.0
        (check_keys-SameCounts now ks left d.1) in
    elim (leb k.limit.requests_per_window (length r))
      as (λ b.
        SameCounts now hits
          (if b then (some (exceeded k now r), left) else check_keys now ks left).1 (k ∷ ks)) [
            | true ↦ (
              λ later h. counted-pruned hits now later k h,
              SameCounts-put now hits left (counter_key k) r ks d.0
                  (All-always _ (λ j later h. refl) ks),
            )
            | false ↦ (
              λ later h.
                  counted-lookup left (check_keys now ks left).1 later k
                    (check_keys-Apart (counter_key k) now ks left d.0)
                  ∙ counted-pruned hits now later k h,
              rest,
            )
          ]

-- The first recorded of the requests that count, and the present where none does.
abbrev pub oldest : ℕ → List ℕ → ℕ
oldest now [] = now
oldest now (t ∷ ts) = t

-- The refusal for a key, of the requests that count against it. The time to wait is the least positive
-- number of seconds after which the first recorded one has left the window.
pub record Refusal (k : RateLimitKey) (now : ℕ) (recent : List ℕ) (d : RateLimitDecision)
    : Type 0 where
  pub refused : d.allowed ≡ false
  pub dimension_is : d.exceeded_dimension ≡ some k.dimension
  pub seconds : ℕ
  pub retry_is : d.retry_after_seconds ≡ some seconds
  pub positive : 1 ≤ seconds
  pub left : oldest now recent + k.limit.window_seconds * 1000 ≤ now + seconds * 1000
  pub least :
      (n : ℕ)
      → 1 ≤ n
      → oldest now recent + k.limit.window_seconds * 1000 ≤ now + n * 1000
      → seconds ≤ n

retry_seconds-least :
    (ms : ℕ)
    → (1 ≤ retry_seconds ms)
      × (ms ≤ retry_seconds ms * 1000)
      × ((n : ℕ) → 1 ≤ n → ms ≤ n * 1000 → retry_seconds ms ≤ n)
unfolding retry_seconds
retry_seconds-least ms = elim (Bool-cases (ltb 1 ((ms + 999) / 1000))) [
  | inl t ↦
      let l : 1 < (ms + 999) / 1000 = ground arith in
      rw (retry_seconds, t) (omega (arith, l), omega (arith, l), λ n p h. omega (arith, p, h))
  | inr f ↦
      let l : (ms + 999) / 1000 ≤ 1 = ground arith in
      rw (retry_seconds, f) (omega arith, omega (arith, l), λ n p h. p)
]

exceeded-Refusal :
    (k : RateLimitKey) (now : ℕ) (recent : List ℕ) → Refusal k now recent (exceeded k now recent)
exceeded-Refusal k now recent =
    let r = retry_seconds-least (oldest now recent + k.limit.window_seconds * 1000 - now) in
    record {
      refused = refl;
      dimension_is = refl;
      seconds = retry_seconds (oldest now recent + k.limit.window_seconds * 1000 - now);
      retry_is =
          ap (λ t. some (retry_seconds (t + k.limit.window_seconds * 1000 - now))) (first recent);
      positive = r.0;
      left = omega (arith, r.1);
      least = λ n p h. r.2 n p (omega (arith, h));
    }
  where
    first : (ts : List ℕ) → first_or now ts ≡ oldest now ts
    first [] = refl
    first (t ∷ ts) = refl

-- The first key that is at its limit, where there is one.
abbrev pub Exceeds : Hits → ℕ → List RateLimitKey → RateLimitDecision → Type 0
Exceeds hits now [] d = ⊥
Exceeds hits now (k ∷ ks) d =
    ((k.limit.requests_per_window ≤ length (counted hits now k))
      × Refusal k now (counted hits now k) d)
    ⊎ (UnderLimit hits now k × Exceeds hits now ks d)

-- Phase 1 finds nothing, or the first key at its limit.
abbrev pub Verdict : Hits → ℕ → List RateLimitKey → Option RateLimitDecision → Type 0
Verdict hits now ks none = All (UnderLimit hits now) ks
Verdict hits now ks (some d) = Exceeds hits now ks d

All-UnderLimit-put :
    (hits : Hits) (now : ℕ) (i : String) (ts : List ℕ) (ks : List RateLimitKey)
    → Apart i ks
    → All (UnderLimit (put i ts hits) now) ks
    → All (UnderLimit hits now) ks
All-UnderLimit-put hits now i ts [] a h = tt
All-UnderLimit-put hits now i ts (k ∷ ks) a h = (
  subst (λ c. length c < k.limit.requests_per_window) (counted-apart hits now i ts k a.0) h.0,
  All-UnderLimit-put hits now i ts ks a.1 h.1,
)

Exceeds-put :
    (hits : Hits) (now : ℕ) (i : String) (ts : List ℕ) (ks : List RateLimitKey)
    (d : RateLimitDecision)
    → Apart i ks
    → Exceeds (put i ts hits) now ks d
    → Exceeds hits now ks d
Exceeds-put hits now i ts [] d a h = h
Exceeds-put hits now i ts (k ∷ ks) d a (inl h) = inl (
    subst (λ c. (k.limit.requests_per_window ≤ length c) × Refusal k now c d)
      (counted-apart hits now i ts k a.0) h)
Exceeds-put hits now i ts (k ∷ ks) d a (inr h) = inr (
  subst (λ c. length c < k.limit.requests_per_window) (counted-apart hits now i ts k a.0) h.0,
  Exceeds-put hits now i ts ks d a.1 h.1,
)

Verdict-next :
    (hits : Hits) (now : ℕ) (k : RateLimitKey) (ts : List ℕ) (ks : List RateLimitKey)
    (o : Option RateLimitDecision)
    → Apart (counter_key k) ks
    → UnderLimit hits now k
    → Verdict (put (counter_key k) ts hits) now ks o
    → Verdict hits now (k ∷ ks) o
Verdict-next hits now k ts ks none a u h =
    (u, All-UnderLimit-put hits now (counter_key k) ts ks a h)
Verdict-next hits now k ts ks (some d) a u h =
    inr (u, Exceeds-put hits now (counter_key k) ts ks d a h)

pub check_keys-Verdict :
    (now : ℕ) (ks : List RateLimitKey) (hits : Hits)
    → DistinctKeys ks
    → Verdict hits now ks (check_keys now ks hits).0
unfolding check_keys
check_keys-Verdict now [] hits d = tt
check_keys-Verdict now (k ∷ ks) hits d =
    let r = counted hits now k in
    let left = put (counter_key k) r hits in
    let ih = check_keys-Verdict now ks left d.1 in
    elim (Bool-cases (leb k.limit.requests_per_window (length r))) [
      | inl t ↦
          rw t (inl (leb→le k.limit.requests_per_window (length r) t, exceeded-Refusal k now r))
      | inr f ↦
          let u : UnderLimit hits now k = ground arith in
          rw f (Verdict-next hits now k r ks (check_keys now ks left).0 d.0 u ih)
    ]

pub Exceeds-refuses :
    (hits : Hits) (now : ℕ) (ks : List RateLimitKey) (d : RateLimitDecision)
    → Exceeds hits now ks d
    → d.allowed ≡ false
Exceeds-refuses hits now [] d h = absurd h
Exceeds-refuses hits now (k ∷ ks) d (inl h) = h.1.refused
Exceeds-refuses hits now (k ∷ ks) d (inr h) = Exceeds-refuses hits now ks d h.1

-- With each key in a counter of its own, a request is admitted exactly where every key is under its
-- limit in its window. Otherwise the decision names the dimension of the first key at its limit, with
-- the least positive number of whole seconds after which the first recorded of its counted requests
-- (or the present, where none counts) has left the window.
pub consume-Verdict :
    (ks : List RateLimitKey) (now : ℕ) (hits : Hits)
    → DistinctKeys ks
    → ((consume ks now hits).0 ≡ admitted × All (UnderLimit hits now) ks)
      ⊎ ((consume ks now hits).0.allowed ≡ false × Exceeds hits now ks (consume ks now hits).0)
unfolding consume
consume-Verdict ks now hits d =
    let v = check_keys-Verdict now ks hits d in
    elim (Option-cases (check_keys now ks hits).0) [
      | inl e ↦ rw (consume, e) (inl (refl, subst (Verdict hits now ks) e v))
      | inr (r, e) ↦
          rw (consume, e)
            (inr (
              Exceeds-refuses hits now ks r (subst (Verdict hits now ks) e v),
              subst (Verdict hits now ks) e v,
            ))
    ]

-- ===== src/RateLimit/Recording.antt =====
-- What `consume` leaves in the counters, after a denial and after an admission.
use auxifyai.Prelude.{
  ℕ, ◌≡◌, ◌∙◌, ◌≤◌, sym, subst, ap, inl, inr, true, false, String, some, List, [], ◌∷◌, ◌++◌,
  length, length-append, filter, arith, All, length-filter, get_or_else, Option-cases,
}
use auxifyai.Prelude.Maps.{lookup, put}
use auxifyai.RateLimit.{
  RateLimitKey, Hits, counter_key, window_ms, in_window, pruned, check_keys, record_keys, consume,
}
use auxifyai.RateLimit.Counters.{
  Apart, DistinctKeys, counted, UnderLimit, SameCounts, counted-apart, check_keys-Apart,
  record_keys-Apart, put-at,
}
use auxifyai.RateLimit.Windows.{check_keys-SameCounts, check_keys-Verdict, Verdict, Exceeds-refuses}

-- The key's counter has the requests that counted, and this one.
abbrev pub Recorded : ℕ → Hits → Hits → RateLimitKey → Type 0
Recorded now hits after k = lookup (counter_key k) after ≡ some (counted hits now k ++ (now ∷ []))

Recorded-Apart :
    (now : ℕ) (hits after : Hits) (i : String) (ts us : List ℕ) (ks : List RateLimitKey)
    → Apart i ks
    → All (Recorded now (put i us (put i ts hits)) after) ks
    → All (Recorded now hits after) ks
Recorded-Apart now hits after i ts us [] a h = tt
Recorded-Apart now hits after i ts us (k ∷ ks) a h = (
  h.0
      ∙ ap (λ c. some (c ++ (now ∷ [])))
          (counted-apart (put i ts hits) now i us k a.0 ∙ counted-apart hits now i ts k a.0),
  Recorded-Apart now hits after i ts us ks a.1 h.1,
)

record_keys-Recorded :
    (now : ℕ) (ks : List RateLimitKey) (hits : Hits)
    → DistinctKeys ks
    → All (Recorded now hits (record_keys now ks hits)) ks
unfolding record_keys
record_keys-Recorded now [] hits d = tt
record_keys-Recorded now (k ∷ ks) hits d =
    let r = counted hits now k in
    let left = put (counter_key k) r hits in
    let next = put (counter_key k) (r ++ (now ∷ [])) left in
    (
      record_keys-Apart (counter_key k) now ks next d.0
          ∙ put-at (counter_key k) (r ++ (now ∷ [])) left,
      Recorded-Apart now hits _ (counter_key k) r (r ++ (now ∷ [])) ks d.0
          (record_keys-Recorded now ks next d.1),
    )

-- A key after an admission: the request is in its counter once, and no more than the limit count.
abbrev pub Counted : ℕ → Hits → Hits → RateLimitKey → Type 0
Counted now hits after k =
    Recorded now hits after k × (length (counted after now k) ≤ k.limit.requests_per_window)

counted-Recorded :
    (now : ℕ) (hits after : Hits) (k : RateLimitKey)
    → Recorded now hits after k
    → UnderLimit hits now k
    → length (counted after now k) ≤ k.limit.requests_per_window
unfolding pruned
counted-Recorded now hits after k h u =
    let before = counted hits now k in
    let e : counted after now k ≡ filter (in_window now (window_ms k)) (before ++ (now ∷ [])) =
      ap (λ o. filter (in_window now (window_ms k)) (get_or_else o [])) h in
    let short = length-filter (in_window now (window_ms k)) (before ++ (now ∷ [])) in
    let long = length-append before (now ∷ []) in
    subst (λ c. length c ≤ k.limit.requests_per_window) (sym e) (omega (arith, short, long, u))

-- The counters of other keys are as before.
abbrev pub OthersKept : Hits → Hits → List RateLimitKey → Type 0
OthersKept hits after ks = (c : String) → Apart c ks → lookup c after ≡ lookup c hits

All-Counted :
    (now : ℕ) (hits left after : Hits) (ks : List RateLimitKey)
    → SameCounts now hits left ks
    → All (UnderLimit hits now) ks
    → All (Recorded now left after) ks
    → All (Counted now hits after) ks
All-Counted now hits left after [] same u h = tt
All-Counted now hits left after (k ∷ ks) same u h =
    let e : Recorded now hits after k =
      subst (λ c. lookup (counter_key k) after ≡ some (c ++ (now ∷ []))) (same.0 now (omega arith))
        h.0 in
    (
      (e, counted-Recorded now hits after k e u.0),
      All-Counted now hits left after ks same.1 u.1 h.1,
    )

-- With each key in a counter of its own, an admitted request is counted once for each key, next to
-- the requests that still counted, and no key has then more than its limit in its window. The
-- counters of other keys are as before.
pub consume-Counted :
    (ks : List RateLimitKey) (now : ℕ) (hits : Hits)
    → DistinctKeys ks
    → (consume ks now hits).0.allowed ≡ true
    → All (Counted now hits (consume ks now hits).1) ks × OthersKept hits (consume ks now hits).1 ks
unfolding consume
consume-Counted ks now hits d h =
    let v = check_keys-Verdict now ks hits d in
    let left = (check_keys now ks hits).1 in
    elim (Option-cases (check_keys now ks hits).0) [
      | inl e ↦
          rw (consume, e)
            (
              All-Counted now hits left (record_keys now ks left) ks
                  (check_keys-SameCounts now ks hits d) (subst (Verdict hits now ks) e v)
                  (record_keys-Recorded now ks left d),
              λ c a. record_keys-Apart c now ks left a ∙ check_keys-Apart c now ks hits a,
            )
      | inr (r, e) ↦
          let no = Exceeds-refuses hits now ks r (subst (Verdict hits now ks) e v) in
          absurd (ground arith)
    ]

-- With each key in a counter of its own, a denied request is not counted: what counts for each key,
-- at that time and at every later one, is as before, and so are the counters of other keys.
pub consume-SameCounts :
    (ks : List RateLimitKey) (now : ℕ) (hits : Hits)
    → DistinctKeys ks
    → (consume ks now hits).0.allowed ≡ false
    → SameCounts now hits (consume ks now hits).1 ks × OthersKept hits (consume ks now hits).1 ks
unfolding consume
consume-SameCounts ks now hits d h = elim (Option-cases (check_keys now ks hits).0) [
  | inl e ↦ absurd (ground arith)
  | inr (r, e) ↦
      rw (consume, e) (check_keys-SameCounts now ks hits d, λ c a. check_keys-Apart c now ks hits a)
]

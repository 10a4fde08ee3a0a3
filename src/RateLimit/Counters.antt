-- ===== src/RateLimit/Counters.antt =====
-- What pruning and recording leave in the counters.
use auxifyai.Prelude.{
  ℕ, ◌≡◌, ◌∙◌, ◌≤◌, ◌<◌, refl, ap, true, false, String, some, List, [], ◌∷◌, ◌++◌, length, filter,
  get_or_else, if◌then◌else◌, leb, str_eq, str_eq-false_sym, eq_iff, arith, All,
}
use auxifyai.Prelude.Maps.{lookup, put, lookup-put, lookup-same, lookup-other}
use auxifyai.RateLimit.{
  RateLimitKey, Hits, counter_key, window_ms, in_window, pruned, exceeded, check_keys, record_keys,
}

-- The keys count in different counters from c.
abbrev pub Apart : String → List RateLimitKey → Type 0
Apart c ks = All (λ k. str_eq c (counter_key k) ≡ false) ks

-- No two keys share a counter.
abbrev pub DistinctKeys : List RateLimitKey → Type 0
DistinctKeys [] = Unit
DistinctKeys (k ∷ ks) = Apart (counter_key k) ks × DistinctKeys ks

-- The requests that count against a key at a time.
abbrev pub counted : Hits → ℕ → RateLimitKey → List ℕ
counted hits now k = pruned hits (counter_key k) now (window_ms k)

abbrev pub UnderLimit : Hits → ℕ → RateLimitKey → Type 0
UnderLimit hits now k = length (counted hits now k) < k.limit.requests_per_window

pub put-apart :
    (c i : String) (v : List ℕ) (hits : Hits)
    → str_eq c i ≡ false
    → lookup c (put i v hits) ≡ lookup c hits
put-apart c i v hits h = lookup-put c i v hits ∙ lookup-other c i v hits h

pub put-at : (c : String) (v : List ℕ) (hits : Hits) → lookup c (put c v hits) ≡ some v
put-at c v hits = lookup-put c c v hits ∙ lookup-same c c v hits ((eq_iff c c).1 refl)

pub check_keys-Apart :
    (c : String) (now : ℕ) (ks : List RateLimitKey) (hits : Hits)
    → Apart c ks
    → lookup c (check_keys now ks hits).1 ≡ lookup c hits
unfolding check_keys
check_keys-Apart c now [] hits a = refl
check_keys-Apart c now (k ∷ ks) hits a =
    let r = pruned hits (counter_key k) now (window_ms k) in
    let left = put (counter_key k) r hits in
    let e : lookup c left ≡ lookup c hits = put-apart c (counter_key k) r hits a.0 in
    elim (leb k.limit.requests_per_window (length r))
      as (λ b.
        lookup c (if b then (some (exceeded k now r), left) else check_keys now ks left).1
        ≡ lookup c hits) [ true ↦ e | false ↦ check_keys-Apart c now ks left a.1 ∙ e ]

pub record_keys-Apart :
    (c : String) (now : ℕ) (ks : List RateLimitKey) (hits : Hits)
    → Apart c ks
    → lookup c (record_keys now ks hits) ≡ lookup c hits
unfolding record_keys
record_keys-Apart c now [] hits a = refl
record_keys-Apart c now (k ∷ ks) hits a =
    let r = pruned hits (counter_key k) now (window_ms k) in
    record_keys-Apart c now ks _ a.1
    ∙ put-apart c (counter_key k) (r ++ (now ∷ [])) (put (counter_key k) r hits) a.0
    ∙ put-apart c (counter_key k) r hits a.0

-- What a shorter past keeps of a longer one.
pub filter-in_window :
    (now later window : ℕ) (ts : List ℕ)
    → now ≤ later
    → filter (in_window later window) (filter (in_window now window) ts)
      ≡ filter (in_window later window) ts
filter-in_window now later window [] h = refl
filter-in_window now later window (t ∷ ts) h =
    ground (arith, filter-in_window now later window ts h)

pub counted-lookup :
    (hits hits' : Hits) (now : ℕ) (k : RateLimitKey)
    → lookup (counter_key k) hits' ≡ lookup (counter_key k) hits
    → counted hits' now k ≡ counted hits now k
unfolding pruned
counted-lookup hits hits' now k e =
    ap (λ o. filter (in_window now (window_ms k)) (get_or_else o [])) e

pub counted-put :
    (hits : Hits) (now : ℕ) (k : RateLimitKey) (ts : List ℕ)
    → counted (put (counter_key k) ts hits) now k ≡ filter (in_window now (window_ms k)) ts
unfolding pruned
counted-put hits now k ts =
    ap (λ o. filter (in_window now (window_ms k)) (get_or_else o []))
      (put-at (counter_key k) ts hits)

pub counted-pruned :
    (hits : Hits) (now later : ℕ) (k : RateLimitKey)
    → now ≤ later
    → counted (put (counter_key k) (counted hits now k) hits) later k ≡ counted hits later k
unfolding pruned
counted-pruned hits now later k h =
    counted-put hits later k (counted hits now k)
    ∙ filter-in_window now later (window_ms k) (get_or_else (lookup (counter_key k) hits) []) h

pub counted-apart :
    (hits : Hits) (now : ℕ) (i : String) (ts : List ℕ) (k : RateLimitKey)
    → str_eq i (counter_key k) ≡ false
    → counted (put i ts hits) now k ≡ counted hits now k
counted-apart hits now i ts k a =
    counted-lookup hits (put i ts hits) now k
      (put-apart (counter_key k) i ts hits (str_eq-false_sym i (counter_key k) a))

-- The counts of all keys, now and later, are as before.
abbrev pub SameCounts : ℕ → Hits → Hits → List RateLimitKey → Type 0
SameCounts now hits hits' ks =
    All (λ k. (later : ℕ) → now ≤ later → counted hits' later k ≡ counted hits later k) ks

pub SameCounts-put :
    (now : ℕ) (hits hits' : Hits) (i : String) (ts : List ℕ) (ks : List RateLimitKey)
    → Apart i ks
    → SameCounts now (put i ts hits) hits' ks
    → SameCounts now hits hits' ks
SameCounts-put now hits hits' i ts [] a h = tt
SameCounts-put now hits hits' i ts (k ∷ ks) a h = (
  λ later le. h.0 later le ∙ counted-apart hits later i ts k a.0,
  SameCounts-put now hits hits' i ts ks a.1 h.1,
)

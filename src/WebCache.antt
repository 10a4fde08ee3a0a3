-- ===== src/WebCache.antt =====
-- The Cache_Manager of web searches and scrapes: services/core/src/web-cache/web-cache-manager.ts, over the
-- in-memory store of services/core/src/storage/memory.ts. Keys are the derived ones, and values are
-- serialised. `getOrCompute` waits at two places, for the store and for the computation, so callers
-- may take turns there: its three parts are steps on a state, and a run is a sequence of them.
pub mod Waiting
pub mod Account
pub mod Flights
use auxifyai.Prelude.{
  ℕ, zero, suc, ◌+◌, ◌*◌, Bool, true, false, not, String, Option, none, some, List, [], ◌∷◌, ◌++◌,
  map, if◌then◌else◌, ltb, leb, ◌==◌, str_eq,
}
use auxifyai.Prelude.Maps.{lookup, put}

abbrev pub Value : Type 0
Value = String

pub record CachedEntry : Type 0 where
  pub value : Value
  pub cached_at : ℕ

-- `CacheEntry`
pub record StoredEntry : Type 0 where
  pub entry : CachedEntry
  pub expires_at : Option ℕ

abbrev pub Store : Type 0
Store = List (String × StoredEntry)

-- `Map.delete`
unfoldable pub remove : {V : Type 0} → String → List (String × V) → List (String × V)
remove k [] = []
remove k ((i, v) ∷ xs) = let rest = remove k xs in if str_eq k i then xs else (i, v) ∷ rest

abbrev pub is_expired : ℕ → StoredEntry → Bool
is_expired now e = elim e.expires_at [ none ↦ false | some t ↦ leb t now ]

-- `InMemoryCacheStore.live`: the entry, and the store without it where it has expired.
unfoldable pub live : String → ℕ → Store → Option StoredEntry × Store
live k now s = elim (lookup k s) [
  | none ↦ (none, s)
  | some e ↦ if is_expired now e then (none, remove k s) else (some e, s)
]

abbrev pub entry_of : Option StoredEntry → Option CachedEntry
entry_of none = none
entry_of (some e) = some e.entry

unfoldable pub get : String → ℕ → Store → Option CachedEntry × Store
get k now s = (entry_of (live k now s).0, (live k now s).1)

unfoldable pub set : String → CachedEntry → ℕ → ℕ → Store → Store
set k e ttl now s =
    put k (record { entry = e; expires_at = if ltb 0 ttl then some (now + ttl * 1000) else none }) s

-- `assertValidTtl`
abbrev pub valid_ttl : ℕ → Bool
valid_ttl ttl = ltb 0 ttl

unfoldable pub write_entry : String → Value → ℕ → ℕ → Store → Store
write_entry k v ttl now s = set k (record { value = v; cached_at = now }) ttl now s

-- `putSearch` and `putScrape`; no value is an InvalidCacheTtlError.
unfoldable pub put_value : String → Value → ℕ → ℕ → Store → Option Store
put_value k v ttl now s = if valid_ttl ttl then some (write_entry k v ttl now s) else none

-- `getSearch` and `getScrape`
unfoldable pub get_value : String → ℕ → Store → Option Value × Store
get_value k now s = elim (get k now s).0 [
  | none ↦ (none, (get k now s).1)
  | some e ↦ (some e.value, (get k now s).1)
]

-- A computation that is in flight, with the callers that wait for it.
pub record Flight : Type 0 where
  pub ttl : ℕ
  pub callers : List ℕ

-- A caller whose read of the store missed.
pub record Missed : Type 0 where
  pub caller : ℕ
  pub key : String
  pub ttl : ℕ

-- `computed` and `settled` are the keys whose computations have started and have ended, and `answered`
-- the callers with what they got: nothing where the computation, or the check of the lifetime, failed.
pub record WebCacheState : Type 0 where
  pub store : Store
  pub missed : List Missed
  pub in_flight : List (String × Flight)
  pub computed : List String
  pub settled : List String
  pub answered : List (ℕ × Option Value)

pub data Event : Type 0 where
  -- a call, up to its read of the store
  calls : ℕ → String → ℕ → ℕ → Event
  -- the first of the callers that missed goes on
  resumes : Event
  -- the computation of a key ends with a value or an error
  settles : String → Option Value → ℕ → Event

abbrev pub answer : Option Value → List ℕ → List (ℕ × Option Value)
answer v [] = []
answer v (c ∷ cs) = (c, v) ∷ answer v cs

unfoldable pub call : ℕ → String → ℕ → ℕ → WebCacheState → WebCacheState
call caller k ttl now st =
    if not (valid_ttl ttl)
    then record st { answered = st.answered ++ ((caller, none) ∷ []) }
    else elim (get k now st.store).0 [
      | some e ↦ record st {
        store = (get k now st.store).1;
        answered = st.answered ++ ((caller, some e.value) ∷ []);
      }
      | none ↦ record st {
        store = (get k now st.store).1;
        missed = st.missed ++ (record { caller = caller; key = k; ttl = ttl } ∷ []);
      }
    ]

-- Join the computation that is in flight, or start one.
unfoldable pub join_or_start : Missed → WebCacheState → WebCacheState
join_or_start m st = elim (lookup m.key st.in_flight) [
  | some f ↦ record st {
    in_flight = put m.key (record f { callers = f.callers ++ (m.caller ∷ []) }) st.in_flight;
  }
  | none ↦ record st {
    in_flight = put m.key (record { ttl = m.ttl; callers = m.caller ∷ [] }) st.in_flight;
    computed = m.key ∷ st.computed;
  }
]

unfoldable pub resume : WebCacheState → WebCacheState
resume st = elim st.missed [ [] ↦ st | (m ∷ ms) ↦ join_or_start m (record st { missed = ms }) ]

-- A computation that succeeds is written to the store; the callers get what it gave.
unfoldable pub settle : String → Option Value → ℕ → WebCacheState → WebCacheState
settle k result now st = elim (lookup k st.in_flight) [
  | none ↦ st
  | some f ↦ record st {
    store = elim result [ none ↦ st.store | some v ↦ write_entry k v f.ttl now st.store ];
    in_flight = remove k st.in_flight;
    settled = k ∷ st.settled;
    answered = st.answered ++ answer result f.callers;
  }
]

unfoldable pub step : Event → WebCacheState → WebCacheState
step (calls caller k ttl now) st = call caller k ttl now st
step resumes st = resume st
step (settles k result now) st = settle k result now st

unfoldable pub play : List Event → WebCacheState → WebCacheState
play [] st = st
play (e ∷ es) st = play es (step e st)

abbrev pub empty_state : WebCacheState
empty_state = record {
  store = [];
  missed = [];
  in_flight = [];
  computed = [];
  settled = [];
  answered = [];
}

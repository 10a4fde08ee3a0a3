-- ===== src/Examples/Caches.antt =====
-- Tests of the Cache_Manager, and its theorem at a concrete input.
use auxifyai.Prelude.{◌≡◌, refl, some, List, [], ◌∷◌}
use auxifyai.Prelude.Maps.{lookup, put}
use auxifyai.WebCache.{
  Event, calls, resumes, settles, play, step, call, resume, settle, join_or_start, get, live, set,
  write_entry, remove, empty_state,
}
use auxifyai.WebCache.Account.{Flown}
use auxifyai.WebCache.Flights.{calls_in, play-Flown}

-- Two callers share a computation, and a third finds its value.
abbrev shared : List Event
shared =
    calls 1 "k" 60 0
    ∷ calls 2 "k" 60 0
    ∷ resumes
    ∷ resumes
    ∷ settles "k" (some "v") 5
    ∷ calls 3 "k" 60 9
    ∷ []

shared_answers :
    (play shared empty_state).answered ≡ (1, some "v") ∷ (2, some "v") ∷ (3, some "v") ∷ []
unfolding play step call resume settle join_or_start get live set write_entry remove lookup put
shared_answers = refl

shared_computed : (play shared empty_state).computed ≡ "k" ∷ []
unfolding play step call resume settle join_or_start get live set write_entry remove lookup put
shared_computed = refl

-- A caller that goes on only after the computation has ended computes again.
abbrev late : List Event
late = calls 1 "k" 60 0 ∷ calls 2 "k" 60 0 ∷ resumes ∷ settles "k" (some "v") 5 ∷ resumes ∷ []

late_computed : (play late empty_state).computed ≡ "k" ∷ "k" ∷ []
unfolding play step call resume settle join_or_start get live set write_entry remove lookup put
late_computed = refl

play-Flown_example : Flown (calls_in shared) (play shared empty_state)
play-Flown_example = play-Flown shared

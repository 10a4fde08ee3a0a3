-- ===== src/WebCache/Waiting.antt =====
-- The map of the computations in flight, and who waits for them.
use auxifyai.Prelude.{
  ℕ, ◌+◌, ◌≡◌, refl, ap, ◌∙◌, inl, inr, String, Option, none, some, List, [], ◌∷◌, ◌++◌, map, ◌==◌,
  if◌then◌else◌, str_eq, eq_iff, str_eq-false_sym, arith, Bool-cases, is_some,
}
use auxifyai.Prelude.Maps.{lookup, put, lookup-put, lookup-other}
use auxifyai.WebCache.{Value, Flight, remove, answer}

-- How often a key is in a log.
unfoldable pub count : String → List String → ℕ
count k [] = 0
count k (i ∷ is) = (if str_eq k i then 1 else 0) + count k is

-- No key is twice in the map of computations.
abbrev pub OneEach : List (String × Flight) → Type 0
OneEach [] = Unit
OneEach ((k, f) ∷ fs) = (lookup k fs ≡ none) × OneEach fs

unfoldable pub one : ℕ → ℕ → ℕ
one c d = if c == d then 1 else 0

-- How often a caller is in a list.
unfoldable pub times : ℕ → List ℕ → ℕ
times c [] = 0
times c (d ∷ ds) = one c d + times c ds

pub times-append : (c : ℕ) (xs ys : List ℕ) → times c (xs ++ ys) ≡ times c xs + times c ys
unfolding times
times-append c [] ys = omega arith
times-append c (x ∷ xs) ys = omega (arith, times-append c xs ys)

-- How often a caller waits for a computation.
unfoldable pub waiting : ℕ → List (String × Flight) → ℕ
waiting c [] = 0
waiting c ((k, f) ∷ fs) = times c f.callers + waiting c fs

abbrev pub flying : String → List (String × Flight) → ℕ
flying k fs = if is_some (lookup k fs) then 1 else 0

pub put-OneEach :
    (k : String) (f : Flight) (fs : List (String × Flight)) → OneEach fs → OneEach (put k f fs)
unfolding put lookup
put-OneEach k f [] o = (refl, tt)
put-OneEach k f ((i, g) ∷ fs) o = elim (Bool-cases (str_eq k i)) [
  | inl t ↦ rw (put, t) o
  | inr n ↦
      rw (put, n)
        (
          lookup-put i k f fs ∙ (lookup-other i k f fs (str_eq-false_sym k i n) ∙ o.0),
          put-OneEach k f fs o.1,
        )
]

remove-none :
    (i k : String) (fs : List (String × Flight))
    → lookup i fs ≡ none
    → lookup i (remove k fs) ≡ none
unfolding remove lookup
remove-none i k [] h = refl
remove-none i k ((j, f) ∷ fs) h = ground (arith, remove-none i k fs)

pub remove-OneEach : (k : String) (fs : List (String × Flight)) → OneEach fs → OneEach (remove k fs)
unfolding remove
remove-OneEach k [] o = tt
remove-OneEach k ((i, g) ∷ fs) o = elim (Bool-cases (str_eq k i)) [
  | inl t ↦ rw (remove, t) o.1
  | inr n ↦ rw (remove, n) (remove-none i k fs o.0, remove-OneEach k fs o.1)
]

pub remove-lookup :
    (i k : String) (fs : List (String × Flight))
    → OneEach fs
    → lookup i (remove k fs) ≡ (if str_eq i k then none else lookup i fs)
unfolding remove lookup
remove-lookup i k [] o = ground arith
remove-lookup i k ((j, f) ∷ fs) o =
    let rest = remove-lookup i k fs o.1 in
    let gone = o.0 in ground (arith, eq_iff i k, eq_iff k j, eq_iff i j)

pub waiting-put_new :
    (c : ℕ) (k : String) (f : Flight) (fs : List (String × Flight))
    → lookup k fs ≡ none
    → waiting c (put k f fs) ≡ waiting c fs + times c f.callers
unfolding waiting put lookup
waiting-put_new c k f [] h = omega arith
waiting-put_new c k f ((i, g) ∷ fs) h = ground (arith, waiting-put_new c k f fs)

pub waiting-put_old :
    (c : ℕ) (k : String) (f g : Flight) (fs : List (String × Flight))
    → lookup k fs ≡ some g
    → waiting c (put k f fs) + times c g.callers ≡ waiting c fs + times c f.callers
unfolding waiting put lookup
waiting-put_old c k f g [] h = absurd (ground arith)
waiting-put_old c k f g ((i, e) ∷ fs) h = ground (arith, waiting-put_old c k f g fs)

pub waiting-remove :
    (c : ℕ) (k : String) (g : Flight) (fs : List (String × Flight))
    → lookup k fs ≡ some g
    → waiting c (remove k fs) + times c g.callers ≡ waiting c fs
unfolding waiting remove lookup
waiting-remove c k g [] h = absurd (ground arith)
waiting-remove c k g ((i, e) ∷ fs) h = ground (arith, waiting-remove c k g fs)

-- The callers that are answered are those that wait.
pub map-answer : (v : Option Value) (cs : List ℕ) → map (λ a. a.0) (answer v cs) ≡ cs
map-answer v [] = refl
map-answer v (c ∷ cs) = ap (λ ds. c ∷ ds) (map-answer v cs)

-- ===== src/Prelude/Maps.antt =====
-- A `Map`, or an object with text keys: a list of entries in the order they were first set.
use auxifyai.Prelude.{
  ◌≡◌, refl, true, false, String, Option, none, some, List, [], ◌∷◌, if◌then◌else◌, str_eq, eq_iff,
  arith,
}

module _ {V : Type 0} where
  unfoldable pub lookup : String → List (String × V) → Option V
  lookup k [] = none
  lookup k ((i, v) ∷ rest) = if str_eq k i then some v else lookup k rest

  unfoldable pub put : String → V → List (String × V) → List (String × V)
  put k v [] = (k, v) ∷ []
  put k v ((i, w) ∷ rest) =
      let later = put k v rest in if str_eq k i then (i, v) ∷ rest else (i, w) ∷ later

pub lookup-put :
    {V : Type 0} (k i : String) (v : V) (xs : List (String × V))
    → lookup k (put i v xs) ≡ lookup k ((i, v) ∷ xs)
unfolding lookup put
lookup-put k i v [] = refl
lookup-put k i v ((j, u) ∷ xs) =
    ground (arith, eq_iff i j, eq_iff k i, eq_iff k j, lookup-put k i v xs)

pub lookup-same :
    {V : Type 0} (k i : String) (v : V) (xs : List (String × V))
    → str_eq k i ≡ true
    → lookup k ((i, v) ∷ xs) ≡ some v
unfolding lookup
lookup-same k i v xs h = rw h refl

pub lookup-other :
    {V : Type 0} (k i : String) (v : V) (xs : List (String × V))
    → str_eq k i ≡ false
    → lookup k ((i, v) ∷ xs) ≡ lookup k xs
unfolding lookup
lookup-other k i v xs h = rw h refl

-- ===== src/Prelude/Lists.antt =====
-- JavaScript's array methods over lists (`length`, `filter`, `some`, `every`, `slice`), with
-- predicates by recursion for statements about every or some element.
use Prim.Native.Nat.{ℕ, zero, suc, ◌+◌, ◌≤◌}
use mathlib.Core.Path.{◌≡◌, refl, subst, sym}
use mathlib.Core.Logic.{◌⊎◌, inl, inr}
use mathlib.Core.Bool.{Bool, true, false, ◌&&◌, ◌||◌}
use mathlib.Core.List.{List, [], ◌∷◌, ◌++◌}
use native.Mathlib.Omega.{arith}
use auxifyai.Prelude.Tests.{if◌then◌else◌}

abbrev pub All {ℓ κ} : {A : Type ℓ} → (A → Type κ) → List A → Type κ
All P [] = Unit
All P (x ∷ xs) = P x × All P xs

-- There is an element with the property, and it is named.
abbrev pub Any : {A : Type 0} → (A → Type 0) → List A → Type 0
Any P [] = ⊥
Any P (x ∷ xs) = P x ⊎ Any P xs

module _ {ℓ} {A : Type ℓ} where
  abbrev pub length : List A → ℕ
  length [] = 0
  length (x ∷ xs) = suc (length xs)

  abbrev pub filter : (A → Bool) → List A → List A
  filter p [] = []
  filter p (x ∷ xs) = if p x then x ∷ filter p xs else filter p xs

  abbrev pub any : (A → Bool) → List A → Bool
  any p [] = false
  any p (x ∷ xs) = p x || any p xs

  abbrev pub all : (A → Bool) → List A → Bool
  all p [] = true
  all p (x ∷ xs) = p x && all p xs

  -- `xs.slice(0, n)`
  abbrev pub take : ℕ → List A → List A
  take zero xs = []
  take (suc n) [] = []
  take (suc n) (x ∷ xs) = x ∷ take n xs

  pub List-cases : (xs : List A) → (xs ≡ []) ⊎ ((y : A) × (ys : List A) × (xs ≡ y ∷ ys))
  List-cases [] = inl refl
  List-cases (y ∷ ys) = inr (y, ys, refl)

  pub length-append : (xs ys : List A) → length (xs ++ ys) ≡ length xs + length ys
  length-append [] ys = omega arith
  length-append (x ∷ xs) ys = omega (arith, length-append xs ys)

  pub All-append {κ} : (P : A → Type κ) (xs ys : List A) → All P xs → All P ys → All P (xs ++ ys)
  All-append P [] ys hx hy = hy
  All-append P (x ∷ xs) ys hx hy = (hx.0, All-append P xs ys hx.1 hy)

  pub All-map {κ μ} :
      (P : A → Type κ) (Q : A → Type μ) (f : (a : A) → P a → Q a) (xs : List A)
      → All P xs
      → All Q xs
  All-map P Q f [] h = tt
  All-map P Q f (x ∷ xs) h = (f x h.0, All-map P Q f xs h.1)

  pub All-always {κ} : (P : A → Type κ) → ((a : A) → P a) → (xs : List A) → All P xs
  All-always P f [] = tt
  All-always P f (x ∷ xs) = (f x, All-always P f xs)

  pub length-filter : (p : A → Bool) (xs : List A) → length (filter p xs) ≤ length xs
  length-filter p [] = omega arith
  length-filter p (x ∷ xs) = ground (arith, length-filter p xs)

  pub All-filter : (p : A → Bool) (xs : List A) → All (λ x. p x ≡ true) (filter p xs)
  All-filter p [] = tt
  All-filter p (x ∷ xs) = ground (arith, All-filter p xs)

  -- What holds of a list holds of what a filter keeps.
  pub All-filter_keep {κ} :
      (P : A → Type κ) (p : A → Bool) (xs : List A) → All P xs → All P (filter p xs)
  All-filter_keep P p [] h = tt
  All-filter_keep P p (x ∷ xs) h =
      let rest : All P (filter p xs) = All-filter_keep P p xs h.1 in
      elim (p x) as (λ b. All P (if b then x ∷ filter p xs else filter p xs)) [
        | true ↦ (h.0, rest)
        | false ↦ rest
      ]

  pub All-take {κ} : (P : A → Type κ) (n : ℕ) (xs : List A) → All P xs → All P (take n xs)
  All-take P zero xs h = tt
  All-take P (suc n) [] h = tt
  All-take P (suc n) (x ∷ xs) h = (h.0, All-take P n xs h.1)

pub Any-All_absurd :
    {A : Type 0} (P Q : A → Type 0)
    → ((a : A) → P a → Q a → ⊥)
    → (xs : List A) → Any P xs
    → All Q xs
    → ⊥
Any-All_absurd P Q f [] h k = h
Any-All_absurd P Q f (x ∷ xs) (inl h) k = f x h k.0
Any-All_absurd P Q f (x ∷ xs) (inr h) k = Any-All_absurd P Q f xs h k.1

module _ {A : Type 0} where
  pub Any-map : (P Q : A → Type 0) → ((a : A) → P a → Q a) → (xs : List A) → Any P xs → Any Q xs
  Any-map P Q f [] h = h
  Any-map P Q f (x ∷ xs) (inl h) = inl (f x h)
  Any-map P Q f (x ∷ xs) (inr h) = inr (Any-map P Q f xs h)

  -- A member that passes the test stays.
  pub Any-filter :
      (p : A → Bool) (c : A) (xs : List A)
      → p c ≡ true
      → Any (λ x. x ≡ c) xs
      → Any (λ x. x ≡ c) (filter p xs)
  Any-filter p c [] h k = k
  Any-filter p c (x ∷ xs) h (inl e) =
      let t : p x ≡ true = subst (λ y. p y ≡ true) (sym e) h in rw t (inl e)
  Any-filter p c (x ∷ xs) h (inr k) =
      let rest : Any (λ y. y ≡ c) (filter p xs) = Any-filter p c xs h k in
      elim (p x) as (λ b. Any (λ y. y ≡ c) (if b then x ∷ filter p xs else filter p xs)) [
        | true ↦ inr rest
        | false ↦ rest
      ]

  -- Every element of a list is a member of it.
  pub All-self : (xs : List A) → All (λ c. Any (λ x. x ≡ c) xs) xs
  All-self [] = tt
  All-self (x ∷ xs) = (inl refl, All-map _ _ (λ c h. inr h) xs (All-self xs))

  pub All-Any : (P : A → Type 0) (c : A) (xs : List A) → All P xs → Any (λ x. x ≡ c) xs → P c
  All-Any P c [] h k = absurd k
  All-Any P c (x ∷ xs) h (inl e) = subst P e h.0
  All-Any P c (x ∷ xs) h (inr k) = All-Any P c xs h.1 k

-- ===== src/Prelude/Sort.antt =====
-- `Array.prototype.sort` with a comparator, which is stable: an insertion sort.
use mathlib.Core.List.Perm
use auxifyai.Prelude.{
  ◌≡◌, ◌⊎◌, Bool, true, List, [], ◌∷◌, Perm, if◌then◌else◌, Bool-cases, inl, inr, All, Any, arith,
}

-- `le a b` says that the comparator's value on (a, b) is at most 0.
module _ {ℓ} {A : Type ℓ} (le : A → A → Bool) where
  pub insert_by : A → List A → List A
  insert_by a [] = a ∷ []
  insert_by a (x ∷ xs) = if le a x then a ∷ x ∷ xs else x ∷ insert_by a xs

  unfoldable pub sort_by : List A → List A
  unfolding insert_by
  sort_by [] = []
  sort_by (x ∷ xs) = insert_by x (sort_by xs)

  insert_by-perm : (a : A) (xs : List A) → Perm (insert_by a xs) (a ∷ xs)
  unfolding insert_by
  insert_by-perm a [] = Perm.refl (a ∷ [])
  insert_by-perm a (x ∷ xs) = elim (Bool-cases (le a x)) [
    | inl h ↦ rw h (Perm.refl _)
    | inr h ↦ rw h (Perm.trans (Perm.cons x (insert_by-perm a xs)) (Perm.swap a x xs))
  ]

  pub sort_by-perm : (xs : List A) → Perm (sort_by xs) xs
  unfolding sort_by
  sort_by-perm [] = Perm.refl []
  sort_by-perm (x ∷ xs) = Perm.trans (insert_by-perm x (sort_by xs)) (Perm.cons x (sort_by-perm xs))

  -- Each element is at most every later one.
  abbrev pub Ordered : List A → Type ℓ
  Ordered [] = Unit
  Ordered (x ∷ xs) = All (λ y. le x y ≡ true) xs × Ordered xs

  All-insert_by_keep {κ} :
      (P : A → Type κ) (a : A) (xs : List A) → P a → All P xs → All P (insert_by a xs)
  unfolding insert_by
  All-insert_by_keep P a [] h k = (h, tt)
  All-insert_by_keep P a (x ∷ xs) h k = elim (Bool-cases (le a x)) [
    | inl t ↦ rw t (h, k)
    | inr f ↦ rw f (k.0, All-insert_by_keep P a xs h k.1)
  ]

  pub All-sort_by {κ} : (P : A → Type κ) (xs : List A) → All P xs → All P (sort_by xs)
  unfolding sort_by
  All-sort_by P [] h = tt
  All-sort_by P (x ∷ xs) h = All-insert_by_keep P x (sort_by xs) h.0 (All-sort_by P xs h.1)

module _ {A : Type 0} (le : A → A → Bool) where
  Any-insert_by :
      (P : A → Type 0) (a : A) (xs : List A) → P a ⊎ Any P xs → Any P (insert_by le a xs)
  unfolding insert_by
  Any-insert_by P a [] h = h
  Any-insert_by P a (x ∷ xs) h = elim (Bool-cases (le a x)) [
    | inl t ↦ rw t h
    | inr f ↦ rw f (elim h [
      | inl i ↦ inr (Any-insert_by P a xs (inl i))
      | inr (inl i) ↦ inl i
      | inr (inr i) ↦ inr (Any-insert_by P a xs (inr i))
    ])
  ]

  pub Any-sort_by : (P : A → Type 0) (xs : List A) → Any P xs → Any P (sort_by le xs)
  unfolding sort_by
  Any-sort_by P [] h = h
  Any-sort_by P (x ∷ xs) (inl h) = Any-insert_by P x (sort_by le xs) (inl h)
  Any-sort_by P (x ∷ xs) (inr h) = Any-insert_by P x (sort_by le xs) (inr (Any-sort_by P xs h))

module _ {ℓ} {A : Type ℓ} (le : A → A → Bool)
    (total : (a b : A) → (le a b ≡ true) ⊎ (le b a ≡ true))
    (transitive : (a b c : A) → le a b ≡ true → le b c ≡ true → le a c ≡ true) where
  All-le_weaken :
      (a b : A) (xs : List A)
      → le a b ≡ true
      → All (λ y. le b y ≡ true) xs
      → All (λ y. le a y ≡ true) xs
  All-le_weaken a b [] h k = tt
  All-le_weaken a b (x ∷ xs) h k = (transitive a b x h k.0, All-le_weaken a b xs h k.1)

  All-insert_by :
      (c a : A) (xs : List A)
      → le c a ≡ true
      → All (λ y. le c y ≡ true) xs
      → All (λ y. le c y ≡ true) (insert_by le a xs)
  unfolding insert_by
  All-insert_by c a [] h k = (h, tt)
  All-insert_by c a (x ∷ xs) h k = ground (arith, All-insert_by c a xs h k.1)

  insert_by-Ordered : (a : A) (xs : List A) → Ordered le xs → Ordered le (insert_by le a xs)
  unfolding insert_by
  insert_by-Ordered a [] o = (tt, tt)
  insert_by-Ordered a (x ∷ xs) o = elim (Bool-cases (le a x)) [
    | inl h ↦ rw h ((h, All-le_weaken a x xs h o.0), o)
    | inr h ↦
        rw h (All-insert_by x a xs (ground (arith, total a x)) o.0, insert_by-Ordered a xs o.1)
  ]

  pub sort_by-Ordered : (xs : List A) → Ordered le (sort_by le xs)
  unfolding sort_by
  sort_by-Ordered [] = tt
  sort_by-Ordered (x ∷ xs) = insert_by-Ordered x (sort_by le xs) (sort_by-Ordered xs)

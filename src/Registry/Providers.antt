-- ===== src/Registry/Providers.antt =====
-- The providers that a configuration declares.
use auxifyai.Prelude.{
  ◌≡◌, ◌≢◌, ◌↔◌, refl, sym, subst, map, Option, some, ◌⊎◌, inl, inr, false, String, none, List, [],
  ◌∷◌, str_eq, contains, contains_iff, eq_iff, Any, arith, Bool-cases,
}
use auxifyai.Registry.{declared_of, declare_providers, ProviderConfig}

-- Each provider has an id, and no id stands twice (or in `seen`).
abbrev pub ValidProviders : List String → List ProviderConfig → Type 0
ValidProviders seen [] = Unit
ValidProviders seen (p ∷ ps) =
    (p.id ≢ "") × (Any (λ x. p.id ≡ x) seen → ⊥) × ValidProviders (p.id ∷ seen) ps

-- The ids of the providers that a configuration declares; none where it declares none.
abbrev pub provider_ids : Option (List ProviderConfig) → List String
provider_ids none = []
provider_ids (some ps) = map (λ p. p.id) ps

abbrev pub ProvidersAreValid : Option (List ProviderConfig) → Type 0
ProvidersAreValid none = Unit
ProvidersAreValid (some ps) = ValidProviders [] ps

-- Two lists of declared ids say the same of the providers of models.
abbrev pub SameIds : List String → List String → Type 0
SameIds xs ys = ((k : String) → Any (λ x. k ≡ x) xs ↔ Any (λ x. k ≡ x) ys) × ((xs ≡ []) ↔ (ys ≡ []))

declares :
    (seen : List String) (p : ProviderConfig) (ps : List ProviderConfig) (out : List String)
    → declare_providers seen (p ∷ ps) ≡ inr out
    → (p.id ≢ "") × (Any (λ x. p.id ≡ x) seen → ⊥) × (declare_providers (p.id ∷ seen) ps ≡ inr out)
unfolding declare_providers
declares seen p ps out h = (
  λ e. ground (arith, (eq_iff p.id "").1 e),
  λ k. ground (arith, (contains_iff seen p.id).1 k),
  ground arith,
)

declare_providers-ValidProviders :
    (seen : List String) (ps : List ProviderConfig) (out : List String)
    → declare_providers seen ps ≡ inr out
    → ValidProviders seen ps
      × ((k : String)
          → Any (λ x. k ≡ x) out ↔ (Any (λ x. k ≡ x) seen ⊎ Any (λ x. k ≡ x) (map (λ p. p.id) ps)))
unfolding declare_providers
declare_providers-ValidProviders seen [] out h =
    let e : seen ≡ out = ground arith in
    (
      tt,
      λ k. (
        λ a. inl (subst (Any (λ x. k ≡ x)) (sym e) a),
        λ a. elim a [ inl b ↦ subst (Any (λ x. k ≡ x)) e b | inr b ↦ absurd b ],
      ),
    )
declare_providers-ValidProviders seen (p ∷ ps) out h =
    let (named, fresh, next) = declares seen p ps out h in
    let (valid, ids) = declare_providers-ValidProviders (p.id ∷ seen) ps out next in
    (
      (named, fresh, valid),
      λ k. (
        λ a. elim ((ids k).0 a) [
          | inl (inl e) ↦ inr (inl e)
          | inl (inr s) ↦ inl s
          | inr r ↦ inr (inr r)
        ],
        λ a.
            (ids k).1
              (elim a [ inl s ↦ inl (inr s) | inr (inl e) ↦ inl (inl e) | inr (inr r) ↦ inr r ]),
      ),
    )

ValidProviders-declare_providers :
    (seen : List String) (ps : List ProviderConfig)
    → ValidProviders seen ps
    → (out : List String) × (declare_providers seen ps ≡ inr out)
unfolding declare_providers
ValidProviders-declare_providers seen [] v = (seen, refl)
ValidProviders-declare_providers seen (p ∷ ps) v =
    let (out, rest) = ValidProviders-declare_providers (p.id ∷ seen) ps v.2 in
    let named : str_eq p.id "" ≡ false = elim (Bool-cases (str_eq p.id "")) [
      | inl t ↦ absurd (v.0 ((eq_iff p.id "").0 t))
      | inr f ↦ f
    ] in
    let fresh : contains seen p.id ≡ false = elim (Bool-cases (contains seen p.id)) [
      | inl t ↦ absurd (v.1 ((contains_iff seen p.id).0 t))
      | inr f ↦ f
    ] in
    (out, ground arith)

none_listed : (xs : List String) → ((k : String) → Any (λ x. k ≡ x) xs → ⊥) → xs ≡ []
none_listed [] h = refl
none_listed (x ∷ xs) h = absurd (h x (inl refl))

same_empty :
    (xs ys : List String)
    → ((k : String) → Any (λ x. k ≡ x) xs → Any (λ x. k ≡ x) ys)
    → ys ≡ []
    → xs ≡ []
same_empty xs ys h e = none_listed xs (λ k a. subst (Any (λ x. k ≡ x)) e (h k a))

pub declared_of-ids :
    (o : Option (List ProviderConfig)) (out : List String)
    → declared_of o ≡ inr out
    → ProvidersAreValid o × SameIds out (provider_ids o)
declared_of-ids none out h =
    let e : [] ≡ out = ground arith in
    (tt, subst (λ (xs : List String). SameIds xs []) e ((λ k. (λ a. a, λ a. a)), (λ q. q, λ q. q)))
declared_of-ids (some ps) out h =
    let (valid, ids) = declare_providers-ValidProviders [] ps out h in
    let to : (k : String) → Any (λ x. k ≡ x) out → Any (λ x. k ≡ x) (map (λ p. p.id) ps) =
      λ k a. elim ((ids k).0 a) [ inl b ↦ absurd b | inr b ↦ b ] in
    let from : (k : String) → Any (λ x. k ≡ x) (map (λ p. p.id) ps) → Any (λ x. k ≡ x) out =
      λ k a. (ids k).1 (inr a) in
    (valid, (λ k. (to k, from k), (same_empty _ out from, same_empty out _ to)))

pub valid-declared :
    (o : Option (List ProviderConfig))
    → ProvidersAreValid o
    → (out : List String) × (declared_of o ≡ inr out)
valid-declared none v = ([], refl)
valid-declared (some ps) v = ValidProviders-declare_providers [] ps v

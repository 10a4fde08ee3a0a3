-- ===== src/Registry/Validity.antt =====
-- Which configurations `load` accepts.
use auxifyai.Prelude.{
  ℕ, suc, ◌<◌, ◌≡◌, ◌≢◌, ◌∙◌, ◌↔◌, refl, sym, ap, Option, some, true, ◌&&◌, ◌⊎◌, inl, inr, false,
  not, String, none, List, [], ◌∷◌, length, str_eq, contains, contains_iff, eq_iff, ltb, Any,
  is_some, arith, Bool-cases, Sum-cases,
}
use auxifyai.Prelude.Maps.{lookup, put, lookup-put}
use auxifyai.Registry.{
  Registry, ModelConfig, RegistryConfig, to_model_info, validate_model_config, stage_models, load,
  declared_of, ConfigNumber, number, negative, not_finite, CostConfig, is_positive, is_non_negative,
  valid_cost,
}
use auxifyai.Registry.Providers.{
  provider_ids, ProvidersAreValid, SameIds, declared_of-ids, valid-declared,
}

-- A positive token limit, and a cost whose parts are numbers that are not negative.
abbrev pub Bounded : ConfigNumber → Type 0
Bounded c = (n : ℕ) × (c ≡ number n) × (0 < n)

abbrev pub Priced : Option CostConfig → Type 0
Priced o =
    (c : CostConfig) × (i : ℕ) × (j : ℕ) × (o ≡ some c)
    × (c.per_1k_input_tokens ≡ number i)
    × (c.per_1k_output_tokens ≡ number j)

-- The entry has the texts that it must have, a modality, a tier, a positive token limit and a cost.
pub record ValidModel (m : ModelConfig) : Type 0 where
  pub named : m.id ≢ ""
  pub served : m.provider ≢ ""
  pub deployed : m.provider_model_id ≢ ""
  pub of_modality : m.modality ≢ none
  pub of_tier : m.tier ≢ none
  pub bounded : Bounded m.max_tokens
  pub priced : Priced m.cost

-- Every entry is valid, no id stands twice (or in `seen`), and each provider is declared where any is.
abbrev pub ValidModels : List String → List String → List ModelConfig → Type 0
ValidModels declared seen [] = Unit
ValidModels declared seen (m ∷ ms) =
    ValidModel m
    × (Any (λ x. m.id ≡ x) seen → ⊥)
    × ((declared ≡ []) ⊎ Any (λ x. m.provider ≡ x) declared)
    × ValidModels declared (m.id ∷ seen) ms

is_positive-Bounded : (c : ConfigNumber) → (is_positive c ≡ true) ↔ Bounded c
is_positive-Bounded (number n) = (λ h. (n, refl, ground arith), λ (k, e, l). ground arith)
is_positive-Bounded negative = (λ h. absurd (ground arith), λ (k, e, l). absurd (ground arith))
is_positive-Bounded not_finite = (λ h. absurd (ground arith), λ (k, e, l). absurd (ground arith))

is_non_negative-number :
    (c : ConfigNumber) → (is_non_negative c ≡ true) ↔ ((n : ℕ) × (c ≡ number n))
is_non_negative-number (number n) = (λ h. (n, refl), λ k. refl)
is_non_negative-number negative = (λ h. absurd (ground arith), λ (k, e). absurd (ground arith))
is_non_negative-number not_finite = (λ h. absurd (ground arith), λ (k, e). absurd (ground arith))

valid_cost-Priced : (o : Option CostConfig) → (valid_cost o ≡ true) ↔ Priced o
valid_cost-Priced none = (λ h. absurd (ground arith), λ (c, i, j, e, a, b). absurd (ground arith))
valid_cost-Priced (some c) = (
  λ h.
      let (i, a) = (is_non_negative-number c.per_1k_input_tokens).0 (ground arith) in
      let (j, b) = (is_non_negative-number c.per_1k_output_tokens).0 (ground arith) in
      (c, i, j, refl, a, b),
  λ (d, i, j, e, a, b).
      let same : c ≡ d = ground arith in
      let x =
        (is_non_negative-number c.per_1k_input_tokens).1
          (i, ap (λ (y : CostConfig). y.per_1k_input_tokens) same ∙ a) in
      let z =
        (is_non_negative-number c.per_1k_output_tokens).1
          (j, ap (λ (y : CostConfig). y.per_1k_output_tokens) same ∙ b) in
      ground arith,
)

some_iff : {A : Type 0} → (o : Option A) → (is_some o ≡ true) ↔ (o ≢ none)
some_iff none = (λ h. absurd (ground arith), λ n. absurd (n refl))
some_iff (some x) = (λ h e. absurd (ground arith), λ n. refl)

validate-ValidModel : (m : ModelConfig) (i : ℕ) → validate_model_config m i ≡ none → ValidModel m
unfolding validate_model_config
validate-ValidModel m i h = record {
  named = λ e. ground (arith, (eq_iff m.id "").1 e);
  served = λ e. ground (arith, (eq_iff m.provider "").1 e);
  deployed = λ e. ground (arith, (eq_iff m.provider_model_id "").1 e);
  of_modality = (some_iff m.modality).0 (ground arith);
  of_tier = (some_iff m.tier).0 (ground arith);
  bounded = (is_positive-Bounded m.max_tokens).0 (ground arith);
  priced = (valid_cost-Priced m.cost).0 (ground arith);
}

ValidModel-validate : (m : ModelConfig) (i : ℕ) → ValidModel m → validate_model_config m i ≡ none
unfolding validate_model_config
ValidModel-validate m i v = elim (Bool-cases (str_eq m.id "")) [
  | inl t ↦ absurd (v.named ((eq_iff m.id "").0 t))
  | inr a ↦ elim (Bool-cases (str_eq m.provider "")) [
    | inl t ↦ absurd (v.served ((eq_iff m.provider "").0 t))
    | inr b ↦ elim (Bool-cases (str_eq m.provider_model_id "")) [
      | inl t ↦ absurd (v.deployed ((eq_iff m.provider_model_id "").0 t))
      | inr c ↦
          let d = (some_iff m.modality).1 v.of_modality in
          let e = (some_iff m.tier).1 v.of_tier in
          let f = (is_positive-Bounded m.max_tokens).1 v.bounded in
          let g = (valid_cost-Priced m.cost).1 v.priced in ground arith
    ]
  ]
]

declared_iff :
    (declared : List String) (p : String)
    → (ltb 0 (length declared) && not (contains declared p) ≡ false)
      ↔ ((declared ≡ []) ⊎ Any (λ x. p ≡ x) declared)
declared_iff [] p = (λ h. inl refl, λ h. refl)
declared_iff (d ∷ ds) p = (
  λ h. inr ((contains_iff (d ∷ ds) p).0 (ground arith)),
  λ h. elim h [
    | inl e ↦ ground arith
    | inr k ↦ let c = (contains_iff (d ∷ ds) p).1 k in ground arith
  ],
)

-- The staged ids are the ids seen.
abbrev Staged : Registry → List String → Type 0
Staged staged seen = (k : String) → is_some (lookup k staged) ≡ contains seen k

Staged-put :
    (staged : Registry) (seen : List String) (m : ModelConfig)
    → Staged staged seen
    → Staged (put m.id (to_model_info m) staged) (m.id ∷ seen)
unfolding lookup
Staged-put staged seen m h k =
    ap is_some (lookup-put k m.id (to_model_info m) staged) ∙ ground (arith, h k)

stage_models-ValidModels :
    (declared : List String) (i : ℕ) (staged after : Registry) (seen : List String)
    (ms : List ModelConfig)
    → Staged staged seen
    → stage_models declared i staged ms ≡ inr after
    → ValidModels declared seen ms
unfolding stage_models
stage_models-ValidModels declared i staged after seen [] g h = tt
stage_models-ValidModels declared i staged after seen (m ∷ ms) g h =
    let valid : validate_model_config m i ≡ none = ground arith in
    let fresh : is_some (lookup m.id staged) ≡ false = ground arith in
    let served : ltb 0 (length declared) && not (contains declared m.provider) ≡ false =
      ground arith in
    let rest : stage_models declared (suc i) (put m.id (to_model_info m) staged) ms ≡ inr after =
      ground arith in
    (
      validate-ValidModel m i valid,
      λ k. ground (arith, (contains_iff seen m.id).1 k, g m.id),
      (declared_iff declared m.provider).0 served,
      stage_models-ValidModels declared (suc i) _ after (m.id ∷ seen) ms
          (Staged-put staged seen m g) rest,
    )

ValidModels-stage_models :
    (declared : List String) (i : ℕ) (staged : Registry) (seen : List String)
    (ms : List ModelConfig)
    → Staged staged seen
    → ValidModels declared seen ms
    → (after : Registry) × (stage_models declared i staged ms ≡ inr after)
unfolding stage_models
ValidModels-stage_models declared i staged seen [] g v = (staged, refl)
ValidModels-stage_models declared i staged seen (m ∷ ms) g v =
    let valid = ValidModel-validate m i v.0 in
    let fresh : is_some (lookup m.id staged) ≡ false =
      elim (Bool-cases (is_some (lookup m.id staged))) [
        | inl t ↦ absurd (v.1 ((contains_iff seen m.id).0 (sym (g m.id) ∙ t)))
        | inr f ↦ f
      ] in
    let served = (declared_iff declared m.provider).1 v.2 in
    let (after, rest) =
      ValidModels-stage_models declared (suc i) (put m.id (to_model_info m) staged) (m.id ∷ seen) ms
        (Staged-put staged seen m g) v.3 in
    (after, ground arith)

ValidModels-ids :
    (xs ys seen : List String) (ms : List ModelConfig)
    → SameIds xs ys
    → ValidModels xs seen ms
    → ValidModels ys seen ms
ValidModels-ids xs ys seen [] s v = tt
ValidModels-ids xs ys seen (m ∷ ms) s v = (
  v.0,
  v.1,
  elim v.2 [ inl e ↦ inl (s.1.0 e) | inr a ↦ inr ((s.0 m.provider).0 a) ],
  ValidModels-ids xs ys (m.id ∷ seen) ms s v.3,
)

SameIds-sym : (xs ys : List String) → SameIds xs ys → SameIds ys xs
SameIds-sym xs ys s = (λ k. ((s.0 k).1, (s.0 k).0), (s.1.1, s.1.0))

load-ValidModels :
    (c : RegistryConfig) (models : Registry) (declared : List String)
    → declared_of c.providers ≡ inr declared
    → ((load c models).0 ≡ none) ↔ ValidModels declared [] c.models
unfolding load lookup
load-ValidModels c models declared h = (
  λ k. elim (Sum-cases (stage_models declared 0 [] c.models)) [
    | inl (e, s) ↦ absurd (ground arith)
    | inr (after, s) ↦ stage_models-ValidModels declared 0 [] after [] c.models none_staged s
  ],
  λ v.
      let (after, s) = ValidModels-stage_models declared 0 [] [] c.models none_staged v in
      rw (load, h, s) refl,
)
  where
    none_staged : Staged [] []
    none_staged k = refl

-- A configuration loads exactly when its providers have ids, no two the same, and each model has an
-- id, a provider and a deployment name, a modality, a tier, a positive token limit and a cost that is
-- not negative, no id stands twice, and each provider is declared where the configuration declares
-- any.
pub load-iff-ValidModels :
    (c : RegistryConfig) (models : Registry)
    → ((load c models).0 ≡ none)
      ↔ (ProvidersAreValid c.providers × ValidModels (provider_ids c.providers) [] c.models)
unfolding load
load-iff-ValidModels c models = (
  λ k. elim (Sum-cases (declared_of c.providers)) [
    | inl (e, h) ↦ absurd (ground arith)
    | inr (declared, h) ↦
        let (valid, same) = declared_of-ids c.providers declared h in
        (
          valid,
          ValidModels-ids declared _ [] c.models same ((load-ValidModels c models declared h).0 k),
        )
  ],
  λ v.
      let (declared, h) = valid-declared c.providers v.0 in
      let (valid, same) = declared_of-ids c.providers declared h in
      (load-ValidModels c models declared h).1
        (ValidModels-ids _ declared [] c.models (SameIds-sym declared _ same) v.1),
)

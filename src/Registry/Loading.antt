-- ===== src/Registry/Loading.antt =====
-- What `load` accepts and what the catalog is after it.
use mathlib.Core.List.{append_assoc, append-nil}
use auxifyai.Prelude.{
  ℕ, suc, ◌≡◌, ◌∙◌, refl, sym, subst, ap, ◌⊎◌, inl, inr, Bool, false, String, none, some, List, [],
  ◌∷◌, ◌++◌, map, str_eq, str_eq-false_sym, eq_iff, All, All-append, arith, Option-cases,
  Bool-cases, Sum-cases,
}
use auxifyai.Prelude.Maps.{lookup, put, lookup-other}
use auxifyai.Identity.{ModelInfo}
use auxifyai.Registry.{
  Registry, ModelConfig, RegistryConfig, ConfigProblem, to_model_info, stage_models, load, list,
  declared_of, set_availability,
}
use auxifyai.Registry.Availability.{WellKeyed, lookup-head}

-- Not a key.
abbrev Fresh : String → Registry → Type 0
Fresh i models = All (λ e. str_eq i e.0 ≡ false) models

lookup-Fresh : (i : String) (models : Registry) → lookup i models ≡ none → Fresh i models
unfolding lookup
lookup-Fresh i [] h = tt
lookup-Fresh i ((j, m) ∷ rest) h = elim (Bool-cases (str_eq i j)) [
  | inl t ↦ absurd (ground arith)
  | inr f ↦ (f, lookup-Fresh i rest (ground arith))
]

put-Fresh :
    (i : String) (v : ModelInfo) (models : Registry)
    → Fresh i models
    → put i v models ≡ models ++ ((i, v) ∷ [])
unfolding put
put-Fresh i v [] h = refl
put-Fresh i v ((j, m) ∷ rest) h = rw (h.0) (ap (λ r. (j, m) ∷ r) (put-Fresh i v rest h.1))

WellKeyed-append :
    (models : Registry) (i : String) (v : ModelInfo)
    → WellKeyed models
    → Fresh i models
    → v.id ≡ i
    → WellKeyed (models ++ ((i, v) ∷ []))
WellKeyed-append [] i v w f e = (e, tt, tt)
WellKeyed-append ((j, m) ∷ rest) i v w f e = (
  w.0,
  All-append _ rest ((i, v) ∷ []) w.1 (str_eq-false_sym i j f.0, tt),
  WellKeyed-append rest i v w.2 f.1 e,
)

to_model_info-id : (m : ModelConfig) → (to_model_info m).id ≡ m.id
unfolding to_model_info
to_model_info-id m = refl

abbrev pub entry_of : ModelConfig → String × ModelInfo
entry_of m = (m.id, to_model_info m)

stage_models-entries :
    (declared : List String) (index : ℕ) (staged after : Registry) (ms : List ModelConfig)
    → WellKeyed staged
    → stage_models declared index staged ms ≡ inr after
    → (after ≡ staged ++ map entry_of ms) × WellKeyed after
unfolding stage_models
stage_models-entries declared index staged after [] w h =
    let e : staged ≡ after = ground arith in (sym e ∙ sym (append-nil staged), subst WellKeyed e w)
stage_models-entries declared index staged after (m ∷ ms) w h =
    elim (Option-cases (lookup m.id staged)) [
      | inr (info, e) ↦ absurd (ground arith)
      | inl e ↦
          let f = lookup-Fresh m.id staged e in
          let next = put-Fresh m.id (to_model_info m) staged f in
          let rest : stage_models declared (suc index) (put m.id (to_model_info m) staged) ms
              ≡ inr after =
            ground arith in
          let rest' = subst (λ r. stage_models declared (suc index) r ms ≡ inr after) next rest in
          let (entries, keyed) =
            stage_models-entries declared (suc index) (staged ++ (entry_of m ∷ [])) after ms
              (WellKeyed-append staged m.id (to_model_info m) w f (to_model_info-id m)) rest' in
          (entries ∙ append_assoc staged (entry_of m ∷ []) (map entry_of ms), keyed)
    ]

put-WellKeyed :
    (i : String) (v info : ModelInfo) (models : Registry)
    → WellKeyed models
    → lookup i models ≡ some info
    → v.id ≡ i
    → WellKeyed (put i v models) × ((j : String) → Fresh j models → Fresh j (put i v models))
unfolding lookup put
put-WellKeyed i v info [] w h e = ground arith
put-WellKeyed i v info ((j, m) ∷ rest) w h e = elim (Bool-cases (str_eq i j)) [
  | inl t ↦ rw t ((e ∙ (eq_iff i j).0 t, w.1, w.2), λ k f. f)
  | inr f ↦
      let found : lookup i rest ≡ some info = ground arith in
      let (keyed, fresh) = put-WellKeyed i v info rest w.2 found e in
      rw f ((w.0, fresh j w.1, keyed), λ k g. (g.0, fresh k g.1))
]

-- A load that succeeds replaces the catalog by the configured models, in their order and each under
-- its own id, and no id stands twice; a load that throws leaves the catalog as it was.
pub load-Loaded :
    (c : RegistryConfig) (models : Registry)
    → ((load c models).0 ≡ none
        × (list (load c models).1 ≡ map to_model_info c.models)
        × WellKeyed (load c models).1)
      ⊎ ((problem : ConfigProblem) × ((load c models).0 ≡ some problem)
          × ((load c models).1 ≡ models))
unfolding load
load-Loaded c models = elim (Sum-cases (declared_of c.providers)) [
  | inl (e, h) ↦ rw (load, h) (inr (e, refl, refl))
  | inr (declared, h) ↦ elim (Sum-cases (stage_models declared 0 [] c.models)) [
    | inl (e, k) ↦ rw (load, h, k) (inr (e, refl, refl))
    | inr (after, k) ↦
        let (entries, keyed) = stage_models-entries declared 0 [] after c.models tt k in
        rw (load, h, k) (inl (refl, ap list entries ∙ listed c.models, keyed))
  ]
]
  where
    listed : (ms : List ModelConfig) → list (map entry_of ms) ≡ map to_model_info ms
    listed [] = refl
    listed (m ∷ ms) = ap (λ r. to_model_info m ∷ r) (listed ms)

lookup-id :
    (i : String) (models : Registry) (v : ModelInfo)
    → WellKeyed models
    → lookup i models ≡ some v
    → v.id ≡ i
unfolding lookup
lookup-id i [] v w h = ground arith
lookup-id i ((j, m) ∷ rest) v w h = elim (Bool-cases (str_eq i j)) [
  | inl t ↦
      ap (λ (x : ModelInfo). x.id) (sym (lookup-head i j m v rest t h))
      ∙ w.0
      ∙ sym ((eq_iff i j).0 t)
  | inr f ↦ lookup-id i rest v w.2 (sym (lookup-other i j m rest f) ∙ h)
]

-- Marking a model keeps the catalog well keyed.
pub set_availability-WellKeyed :
    (id : String) (b : Bool) (models after : Registry)
    → WellKeyed models
    → set_availability id b models ≡ some after
    → WellKeyed after
unfolding set_availability
set_availability-WellKeyed id b models after w h = elim (Option-cases (lookup id models)) [
  | inl e ↦ absurd (ground arith)
  | inr (info, e) ↦
      let put_is : put id (record info { available = b }) models ≡ after = ground arith in
      subst WellKeyed put_is
        (put-WellKeyed id (record info { available = b }) info models w e
          (lookup-id id models info w e)).0
]

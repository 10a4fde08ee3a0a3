-- ===== src/Registry/Availability.antt =====
-- Availability in the catalog, and what the router makes of it.
use auxifyai.Prelude.{
  ◌≡◌, ◌∙◌, refl, sym, subst, ap, inl, inr, Bool, true, false, String, some, List, [], ◌∷◌, map,
  filter, if◌then◌else◌, str_eq, eq_iff, All, All-filter, All-filter_keep, All-map, arith,
  Option-cases, Bool-cases,
}
use auxifyai.Prelude.Maps.{lookup, put, lookup-same, lookup-other}
use auxifyai.Identity.{Principal, ModelInfo}
use auxifyai.Registry.{Registry, list, set_availability, catalog_of}
use auxifyai.Router.Permissions.{permitted_models, is_permitted}

-- Each model stands under its own id, and no id stands twice.
abbrev pub WellKeyed : Registry → Type 0
WellKeyed [] = Unit
WellKeyed ((i, m) ∷ rest) = (m.id ≡ i) × All (λ e. str_eq i e.0 ≡ false) rest × WellKeyed rest

abbrev pub with_availability : String → Bool → ModelInfo → ModelInfo
with_availability id available m = if str_eq id m.id then record m { available = available } else m

with_other :
    (id : String) (b : Bool) (m : ModelInfo) → str_eq id m.id ≡ false → with_availability id b m ≡ m
with_other id b m h = rw h refl

with_same :
    (id : String) (b : Bool) (m : ModelInfo)
    → str_eq id m.id ≡ true
    → with_availability id b m ≡ record m { available = b }
with_same id b m h = rw h refl

cons_eq :
    {A : Type 0} (x y : A) (xs ys : List A) → x ≡ y → xs ≡ ys → Path (List A) (x ∷ xs) (y ∷ ys)
cons_eq x y xs ys e k = ap (λ z. z ∷ xs) e ∙ ap (λ z. y ∷ z) k

same_elsewhere :
    (id : String) (b : Bool) (models : Registry)
    → WellKeyed models
    → All (λ e. str_eq id e.0 ≡ false) models
    → map (with_availability id b) (list models) ≡ list models
same_elsewhere id b [] w a = refl
same_elsewhere id b ((i, m) ∷ rest) w a =
    cons_eq _ _ _ _ (with_other id b m (ap (str_eq id) w.0 ∙ a.0))
      (same_elsewhere id b rest w.2 a.1)

pub lookup-head :
    (id i : String) (m info : ModelInfo) (rest : Registry)
    → str_eq id i ≡ true
    → lookup id ((i, m) ∷ rest) ≡ some info
    → m ≡ info
lookup-head id i m info rest t h = ground (arith, sym (lookup-same id i m rest t) ∙ h)

put-list :
    (id : String) (b : Bool) (models : Registry) (info : ModelInfo)
    → WellKeyed models
    → lookup id models ≡ some info
    → list (put id (record info { available = b }) models)
      ≡ map (with_availability id b) (list models)
unfolding lookup put
put-list id b [] info w h = ground arith
put-list id b ((i, m) ∷ rest) info w h = elim (Bool-cases (str_eq id i)) [
  | inl t ↦
      let here = with_same id b m (ap (str_eq id) w.0 ∙ t) in
      let e =
        ap (λ (x : ModelInfo). record x { available = b }) (lookup-head id i m info rest t h) in
      let away : All (λ e. str_eq id e.0 ≡ false) rest =
        All-map _ _ (λ e k. subst (λ z. str_eq z e.0 ≡ false) (sym ((eq_iff id i).0 t)) k) rest
          w.1 in
      rw t (cons_eq _ _ _ _ (sym (here ∙ e)) (sym (same_elsewhere id b rest w.2 away)))
  | inr f ↦
      let here = with_other id b m (ap (str_eq id) w.0 ∙ f) in
      let there = put-list id b rest info w.2 (sym (lookup-other id i m rest f) ∙ h) in
      rw f (cons_eq _ _ _ _ (sym here) there)
]

-- Over a catalog of models under their own, distinct ids, marking a model changes the availability
-- of that model and nothing else: the listing keeps its order and its other entries.
pub set_availability-list :
    (id : String) (b : Bool) (models after : Registry)
    → WellKeyed models
    → set_availability id b models ≡ some after
    → list after ≡ map (with_availability id b) (list models)
unfolding set_availability
set_availability-list id b models after w h = elim (Option-cases (lookup id models)) [
  | inl e ↦ absurd (ground arith)
  | inr (info, e) ↦
      let put_is : put id (record info { available = b }) models ≡ after = ground arith in
      ap list (sym put_is) ∙ put-list id b models info w e
]

All-unmarked :
    (id : String) (ms : List ModelInfo)
    → All (λ m. (str_eq id m.id ≡ true) → m.available ≡ false) (map (with_availability id false) ms)
All-unmarked id [] = tt
All-unmarked id (m ∷ ms) = (ground arith, All-unmarked id ms)

unroutable :
    (id : String) (ms : List ModelInfo)
    → All (λ m. (str_eq id m.id ≡ true) → m.available ≡ false) ms
    → All (λ m. m.available ≡ true) ms
    → All (λ m. str_eq id m.id ≡ false) ms
unroutable id [] h k = tt
unroutable id (m ∷ ms) h k =
    let here : str_eq id m.id ≡ false = elim (Bool-cases (str_eq id m.id)) [
      | inl t ↦ absurd (ground (arith, h.0 t, k.0))
      | inr f ↦ f
    ] in
    (here, unroutable id ms h.1 k.1)

-- After a model of a catalog of distinct ids is marked unavailable, the routable ones of the models
-- that are permitted to a principal do not have it.
pub set_availability-routable :
    (id : String) (models after : Registry) (p : Principal)
    → WellKeyed models
    → set_availability id false models ≡ some after
    → All (λ m. str_eq id m.id ≡ false) (permitted_models (catalog_of after) p).routable
unfolding permitted_models
set_availability-routable id models after p w h =
    let marked =
      subst (All (λ m. (str_eq id m.id ≡ true) → m.available ≡ false))
        (sym (set_availability-list id false models after w h)) (All-unmarked id (list models)) in
    let permitted = All-filter_keep _ (is_permitted p) (list after) marked in
    unroutable id _
      (All-filter_keep _ (λ m. m.available) (filter (is_permitted p) (list after)) permitted)
      (All-filter (λ m. m.available) (filter (is_permitted p) (list after)))

-- ===== src/Router/Permissions.antt =====
-- ModelPermissionResolver (model-permission-resolver.ts), over a model catalog.
use auxifyai.Prelude.{
  ◌≡◌, inl, inr, subst, Bool, true, String, Option, none, some, List, [], ◌∷◌, filter, All,
  All-filter, All-filter_keep, All-map, if◌then◌else◌, arith, Option-cases, Bool-cases,
}
use auxifyai.Identity.{Principal, ModelInfo}
use auxifyai.Access.{check_model_access}
use auxifyai.Access.Models.{MayUse, check_model_access-iff-MayUse}
use auxifyai.Router.{
  RouteDecision, Result, ok, err, explicit, model_not_found, model_not_authorized,
}

-- The read surface of the registry; `get` is `none` where the source throws ModelNotFoundError.
pub record ModelCatalog : Type 0 where
  pub list : List ModelInfo
  pub get : String → Option ModelInfo

pub record PermittedModelSet : Type 0 where
  pub permitted : List ModelInfo
  pub routable : List ModelInfo

unfoldable pub is_permitted : Principal → ModelInfo → Bool
is_permitted p m = (check_model_access p m).allowed

unfoldable pub permitted_models : ModelCatalog → Principal → PermittedModelSet
unfolding is_permitted
permitted_models c p =
    let permitted = filter (is_permitted p) c.list in
    record { permitted = permitted; routable = filter (λ m. m.available) permitted }

unfoldable pub route_explicit : ModelCatalog → Principal → String → Result RouteDecision
route_explicit c p id = elim (c.get id) [
  | none ↦ err (model_not_found id)
  | some m ↦
      let result = check_model_access p m in
      if result.allowed
      then ok (record { model = m; mode = explicit })
      else err (model_not_authorized id result.denial_code)
]

-- Every routable model is one that the principal may use, and is available.
pub routable-MayUse :
    (c : ModelCatalog) (p : Principal)
    → All (λ m. MayUse p m × (m.available ≡ true)) (permitted_models c p).routable
unfolding permitted_models
routable-MayUse c p =
    both (filter (λ m. m.available) permitted)
      (All-filter_keep (MayUse p) (λ m. m.available) permitted
        (All-map _ _ (λ m h. (check_model_access-iff-MayUse p m).0 h) _
          (All-filter (is_permitted p) c.list)))
      (All-filter (λ m. m.available) permitted)
  where
    permitted : List ModelInfo
    permitted = filter (is_permitted p) c.list

    both :
        (ms : List ModelInfo)
        → All (MayUse p) ms
        → All (λ m. m.available ≡ true) ms
        → All (λ m. MayUse p m × (m.available ≡ true)) ms
    both [] h k = tt
    both (m ∷ ms) h k = ((h.0, k.0), both ms h.1 k.1)

pub route_explicit-MayUse :
    (c : ModelCatalog) (p : Principal) (id : String) (d : RouteDecision)
    → route_explicit c p id ≡ ok d
    → (c.get id ≡ some d.model) × MayUse p d.model
unfolding route_explicit
route_explicit-MayUse c p id d h = elim (Option-cases (c.get id)) [
  | inl e ↦ ground arith
  | inr (m, e) ↦ elim (Bool-cases (check_model_access p m).allowed) [
    | inr f ↦ ground arith
    | inl t ↦
        let same : m ≡ d.model = ground arith in
        (ground arith, subst (MayUse p) same ((check_model_access-iff-MayUse p m).0 t))
  ]
]

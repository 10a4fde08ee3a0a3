-- ===== src/Access/Models.antt =====
-- `checkModelAccess`: what a principal may run on which model.
use auxifyai.Prelude.{◌≡◌, ◌⊎◌, ◌↔◌, true, List, [], ◌∷◌, arith, Any, contains_iff, any}
use auxifyai.Identity.{Role, Principal, ModelInfo, ModelTier, is_viewer_role}
use auxifyai.Access.{is_viewer, check_model_access}

-- The principal holds the `viewer` role.
abbrev pub Viewer : Principal → Type 0
Viewer p = Any (λ r. r ≡ Role.viewer) p.roles

any_viewer_iff : (rs : List Role) → (any is_viewer_role rs ≡ true) ↔ Any (λ r. r ≡ Role.viewer) rs
any_viewer_iff [] = (λ h. cc, λ h. absurd h)
any_viewer_iff (r ∷ rs) = (ground (arith, any_viewer_iff rs), ground (arith, any_viewer_iff rs))

pub is_viewer_iff : (p : Principal) → (is_viewer p ≡ true) ↔ Viewer p
unfolding is_viewer
is_viewer_iff p = any_viewer_iff p.roles

-- The three gates, each a condition on the principal and the model.
pub record MayUse (p : Principal) (m : ModelInfo) : Type 0 where
  pub viewer_economy : Viewer p → m.tier ≡ ModelTier.economy
  pub premium_granted : m.tier ≡ ModelTier.premium → p.premium_authorized ≡ true
  pub on_allow_list : (p.allowed_models ≡ []) ⊎ Any (λ i. m.id ≡ i) p.allowed_models

-- A model is permitted exactly when a viewer stays on Economy models, a Premium model has explicit
-- authorization, and an assigned allow list (a non-empty one) names the model.
pub check_model_access-iff-MayUse :
    (p : Principal) (m : ModelInfo) → ((check_model_access p m).allowed ≡ true) ↔ MayUse p m
unfolding check_model_access
check_model_access-iff-MayUse p m = (permitted, allows)
  where
    permitted : (check_model_access p m).allowed ≡ true → MayUse p m
    permitted h = record {
      viewer_economy = ground (arith, is_viewer_iff p);
      premium_granted = ground arith;
      on_allow_list = ground (arith, contains_iff p.allowed_models m.id);
    }

    allows : MayUse p m → (check_model_access p m).allowed ≡ true
    allows u = ground (arith, is_viewer_iff p, contains_iff p.allowed_models m.id)

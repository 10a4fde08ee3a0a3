-- ===== src/Access/Conditions.antt =====
-- Each stage of `authorize` against the condition that it stands for.
use auxifyai.Prelude.{
  ◌≡◌, refl, ◌⊎◌, inl, inr, ◌↔◌, true, false, String, Option, none, some, List, arith, Any,
  contains_iff, Bool-cases, eq_iff,
}
use auxifyai.Identity.{Action, ResourceType, ResourceRef, Principal, ModelInfo, same_type_iff}
use auxifyai.Access.{
  AuthorizeOptions, check_membership, check_viewer_resource, check_model, outside, is_viewer,
  viewer_shareable, viewer_read_only, is_shared,
}
use auxifyai.Access.Models.{Viewer, is_viewer_iff, MayUse, check_model_access-iff-MayUse}

-- The resource has no such scope, or one that the principal belongs to.
abbrev pub Within : Option String → List String → Type 0
Within none ids = Unit {0}
Within (some i) ids = Any (λ j. i ≡ j) ids

pub record Member (p : Principal) (r : ResourceRef) : Type 0 where
  pub same_organization : r.organization_id ≡ p.organization_id
  pub in_team : Within r.team_id p.team_ids
  pub in_project : Within r.project_id p.project_ids

-- A viewer reads and lists only, and sees conversations and prompts only when they are shared.
pub record ViewerMay (p : Principal) (r : ResourceRef) (a : Action) (o : AuthorizeOptions)
    : Type 0 where
  pub reads_only : Viewer p → (a ≡ Action.read) ⊎ (a ≡ Action.list)
  pub shared_only :
      Viewer p
      → (r.type ≡ ResourceType.conversation) ⊎ (r.type ≡ ResourceType.prompt_template)
      → o.shared ≡ some true

abbrev pub ModelMay : Principal → Option ModelInfo → Type 0
ModelMay p none = Unit {0}
ModelMay p (some m) = MayUse p m

outside_iff : (i : Option String) (ids : List String) → (outside i ids ≡ false) ↔ Within i ids
outside_iff none ids = (λ h. tt, λ h. refl)
outside_iff (some i) ids = (ground (arith, contains_iff ids i), ground (arith, contains_iff ids i))

pub check_membership-iff-Member :
    (p : Principal) (r : ResourceRef) → (check_membership p r ≡ none) ↔ Member p r
unfolding check_membership
check_membership-iff-Member p r = (member, passes)
  where
    member : check_membership p r ≡ none → Member p r
    member h = record {
      same_organization = ground (arith, eq_iff r.organization_id p.organization_id);
      in_team = (outside_iff r.team_id p.team_ids).0 (ground arith);
      in_project = (outside_iff r.project_id p.project_ids).0 (ground arith);
    }

    passes : Member p r → check_membership p r ≡ none
    passes m = ground (
      arith,
      eq_iff r.organization_id p.organization_id,
      (outside_iff r.team_id p.team_ids).1 m.in_team,
      (outside_iff r.project_id p.project_ids).1 m.in_project,
    )

viewer_shareable_iff :
    (t : ResourceType)
    → (viewer_shareable t ≡ true)
      ↔ ((t ≡ ResourceType.conversation) ⊎ (t ≡ ResourceType.prompt_template))
unfolding viewer_shareable
viewer_shareable_iff t = (
  ground (
    arith,
    same_type_iff t ResourceType.conversation,
    same_type_iff t ResourceType.prompt_template,
  ),
  ground (
    arith,
    same_type_iff t ResourceType.conversation,
    same_type_iff t ResourceType.prompt_template,
  ),
)

read_only_iff : (a : Action) → (viewer_read_only a ≡ true) ↔ ((a ≡ Action.read) ⊎ (a ≡ Action.list))
read_only_iff a = (ground arith, ground arith)

shared_iff : (o : AuthorizeOptions) → (is_shared o ≡ true) ↔ (o.shared ≡ some true)
shared_iff o = (ground arith, ground arith)

pub check_viewer_resource-iff-ViewerMay :
    (p : Principal) (r : ResourceRef) (a : Action) (o : AuthorizeOptions)
    → (check_viewer_resource p r a o ≡ none) ↔ ViewerMay p r a o
unfolding check_viewer_resource
check_viewer_resource-iff-ViewerMay p r a o = (may, passes)
  where
    may : check_viewer_resource p r a o ≡ none → ViewerMay p r a o
    may h = record {
      reads_only = λ v. (read_only_iff a).0 (ground (arith, is_viewer_iff p));
      shared_only =
          λ v t. (shared_iff o).0 (ground (arith, is_viewer_iff p, viewer_shareable_iff r.type));
    }

    passes : ViewerMay p r a o → check_viewer_resource p r a o ≡ none
    passes m = elim (Bool-cases (is_viewer p)) [
      | inr f ↦ rw (f, check_viewer_resource)
      | inl t ↦
          let v = (is_viewer_iff p).0 t in
          ground (
            arith,
            (read_only_iff a).1 (m.reads_only v),
            m.shared_only v,
            viewer_shareable_iff r.type,
            shared_iff o,
          )
    ]

pub check_model-iff-ModelMay :
    (p : Principal) (m : Option ModelInfo) → (check_model p m ≡ none) ↔ ModelMay p m
check_model-iff-ModelMay p none = (λ h. tt, λ h. refl)
check_model-iff-ModelMay p (some m) = (
  λ h. (check_model_access-iff-MayUse p m).0 (ground arith),
  λ h. ground (arith, (check_model_access-iff-MayUse p m).1 h),
)

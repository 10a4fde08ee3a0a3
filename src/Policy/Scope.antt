-- ===== src/Policy/Scope.antt =====
-- What one precedence level decides: `decideScope` against a description over all its entries.
use mathlib.Core.Logic.{◌↔◌}
use auxifyai.Prelude.{
  ◌≡◌, refl, ◌⊎◌, inl, inr, Bool, true, false, Option, none, some, List, [], ◌∷◌, ◌++◌, arith, All,
  Any, Bool-cases, Any-All_absurd,
}
use auxifyai.Identity.{Action, ResourceType, same_action_iff, same_type_iff}
use auxifyai.Policy.{
  OrAny, every, exactly, PolicyEffect, allow, deny, AllowListEntry, Policy, action_matches,
  resource_matches, entry_matches, effect_of, scan_entries, scan_policies, decide_scope,
}

-- The wildcard covers everything, a literal covers itself.
abbrev pub Covers : {A : Type 0} → OrAny A → A → Type 0
Covers p a = (p ≡ every) ⊎ (p ≡ exactly a)

-- The entry is about this permission.
abbrev pub Matches : Action → ResourceType → AllowListEntry → Type 0
Matches a r e = Covers e.action a × Covers e.resource_type r

abbrev pub entries : List Policy → List AllowListEntry
entries [] = []
entries (p ∷ ps) = p.allow_list ++ entries ps

-- No entry of the level is about this permission.
abbrev pub Silent : List Policy → Action → ResourceType → Type 0
Silent ps a r = All (λ e. ¬ Matches a r e) (entries ps)

-- Some entry is about it, and none of those is a denial.
abbrev pub Allows : List Policy → Action → ResourceType → Type 0
Allows ps a r =
    Any (Matches a r) (entries ps) × All (λ e. Matches a r e → effect_of e ≡ allow) (entries ps)

action_matches_iff : (p : OrAny Action) (a : Action) → (action_matches p a ≡ true) ↔ Covers p a
unfolding action_matches
action_matches_iff every a = (λ h. inl refl, λ h. refl)
action_matches_iff (exactly b) a =
    (ground (arith, same_action_iff b a), ground (arith, same_action_iff b a))

resource_matches_iff :
    (p : OrAny ResourceType) (r : ResourceType) → (resource_matches p r ≡ true) ↔ Covers p r
unfolding resource_matches
resource_matches_iff every a = (λ h. inl refl, λ h. refl)
resource_matches_iff (exactly b) a =
    (ground (arith, same_type_iff b a), ground (arith, same_type_iff b a))

pub entry_matches_iff :
    (e : AllowListEntry) (a : Action) (r : ResourceType)
    → (entry_matches e a r ≡ true) ↔ Matches a r e
unfolding entry_matches
entry_matches_iff e a r = (
  ground (arith, action_matches_iff e.action a, resource_matches_iff e.resource_type r),
  ground (arith, action_matches_iff e.action a, resource_matches_iff e.resource_type r),
)

scan_entries-append :
    (a : Action) (r : ResourceType) (es fs : List AllowListEntry) (saw : Bool)
    → scan_entries a r (es ++ fs) saw ≡ elim (scan_entries a r es saw) as (λ _. Option Bool) [
      | none ↦ none
      | some s ↦ scan_entries a r fs s
    ]
unfolding scan_entries
scan_entries-append a r [] fs saw = refl
scan_entries-append a r (e ∷ es) fs saw =
    ground (arith, scan_entries-append a r es fs saw, scan_entries-append a r es fs true)

-- The two loops together are one loop over all entries.
scan_policies-entries :
    (a : Action) (r : ResourceType) (ps : List Policy) (saw : Bool)
    → scan_policies a r ps saw ≡ scan_entries a r (entries ps) saw
unfolding scan_policies scan_entries
scan_policies-entries a r [] saw = refl
scan_policies-entries a r (p ∷ ps) saw =
    rw (scan_entries-append a r p.allow_list (entries ps) saw)
      (elim (scan_entries a r p.allow_list saw)
        as (λ o.
          Path (Option Bool)
            (elim o as (λ _. Option Bool) [ none ↦ none | some s ↦ scan_policies a r ps s ])
            (elim o as (λ _. Option Bool) [
              | none ↦ none
              | some s ↦ scan_entries a r (entries ps) s
            ])) [ none ↦ refl | some s ↦ scan_policies-entries a r ps s ])

-- Some entry about this permission is a denial.
abbrev pub Denies : Action → ResourceType → List AllowListEntry → Type 0
Denies a r = Any (λ e. Matches a r e × (effect_of e ≡ deny))

abbrev pub Admits : Action → ResourceType → List AllowListEntry → Type 0
Admits a r = All (λ e. Matches a r e → effect_of e ≡ allow)

abbrev Scans : Action → ResourceType → List AllowListEntry → Bool → Option Bool → Type 0
Scans a r es saw none = Denies a r es
Scans a r es saw (some true) = Admits a r es × ((saw ≡ true) ⊎ Any (Matches a r) es)
Scans a r es saw (some false) = All (λ e. ¬ Matches a r e) es × (saw ≡ false)

effect-cases : (e : AllowListEntry) → (effect_of e ≡ allow) ⊎ (effect_of e ≡ deny)
effect-cases e = ground arith

scan_entries-skip :
    (a : Action) (r : ResourceType) (e : AllowListEntry) (es : List AllowListEntry) (saw : Bool)
    (o : Option Bool)
    → ¬ Matches a r e
    → Scans a r es saw o
    → Scans a r (e ∷ es) saw o
scan_entries-skip a r e es saw none n s = inr s
scan_entries-skip a r e es saw (some true) n (ad, inl s) = ((λ m. absurd (n m), ad), inl s)
scan_entries-skip a r e es saw (some true) n (ad, inr s) = ((λ m. absurd (n m), ad), inr (inr s))
scan_entries-skip a r e es saw (some false) n s = ((n, s.0), s.1)

scan_entries-take :
    (a : Action) (r : ResourceType) (e : AllowListEntry) (es : List AllowListEntry) (saw : Bool)
    (o : Option Bool)
    → Matches a r e
    → effect_of e ≡ allow
    → Scans a r es true o
    → Scans a r (e ∷ es) saw o
scan_entries-take a r e es saw none m k s = inr s
scan_entries-take a r e es saw (some true) m k s = ((λ _. k, s.0), inr (inl m))
scan_entries-take a r e es saw (some false) m k s = cc (s.1)

scan_entries-Scans :
    (a : Action) (r : ResourceType) (es : List AllowListEntry) (saw : Bool)
    → Scans a r es saw (scan_entries a r es saw)
unfolding scan_entries
scan_entries-Scans a r [] true = (tt, inl refl)
scan_entries-Scans a r [] false = (tt, refl)
scan_entries-Scans a r (e ∷ es) saw = elim (Bool-cases (entry_matches e a r)) [
  | inr f ↦
      rw (f, scan_entries)
        (scan_entries-skip a r e es saw _ (λ m. cc (f, (entry_matches_iff e a r).1 m))
          (scan_entries-Scans a r es saw))
  | inl t ↦ elim (effect-cases e) [
    | inr d ↦ rw (t, d, scan_entries) (inl ((entry_matches_iff e a r).0 t, d))
    | inl k ↦
        rw (t, k, scan_entries)
          (scan_entries-take a r e es saw _ ((entry_matches_iff e a r).0 t) k
            (scan_entries-Scans a r es true))
  ]
]

-- What a level decides, by its outcome: silent (`none`), allow, or deny.
abbrev pub Decides : List Policy → Action → ResourceType → Option PolicyEffect → Type 0
Decides ps a r none = Silent ps a r
Decides ps a r (some allow) = Allows ps a r
Decides ps a r (some deny) = Denies a r (entries ps)

of_scan :
    (ps : List Policy) (a : Action) (r : ResourceType) (o : Option Bool)
    → Scans a r (entries ps) false o
    → Decides ps a r (elim o [ none ↦ some deny | some true ↦ some allow | some false ↦ none ])
of_scan ps a r none s = s
of_scan ps a r (some true) (ad, inl e) = cc (e)
of_scan ps a r (some true) (ad, inr m) = (m, ad)
of_scan ps a r (some false) s = s.0

pub decide_scope-Decides :
    (ps : List Policy) (a : Action) (r : ResourceType) → Decides ps a r (decide_scope ps a r)
unfolding decide_scope
decide_scope-Decides ps a r =
    of_scan ps a r (scan_policies a r ps false)
      (rw (scan_policies-entries a r ps false) (scan_entries-Scans a r (entries ps) false))

Decides-unique :
    (ps : List Policy) (a : Action) (r : ResourceType) (o o' : Option PolicyEffect)
    → Decides ps a r o
    → Decides ps a r o'
    → o ≡ o'
Decides-unique ps a r none none h k = refl
Decides-unique ps a r none (some allow) h k =
    absurd (Any-All_absurd _ _ (λ e m n. n m) (entries ps) k.0 h)
Decides-unique ps a r none (some deny) h k =
    absurd (Any-All_absurd _ _ (λ e m n. n m.0) (entries ps) k h)
Decides-unique ps a r (some allow) none h k =
    absurd (Any-All_absurd _ _ (λ e m n. n m) (entries ps) h.0 k)
Decides-unique ps a r (some allow) (some allow) h k = refl
Decides-unique ps a r (some allow) (some deny) h k =
    absurd (Any-All_absurd _ _ (λ e m n. cc (n m.0, m.1)) (entries ps) k h.1)
Decides-unique ps a r (some deny) none h k =
    absurd (Any-All_absurd _ _ (λ e m n. n m.0) (entries ps) h k)
Decides-unique ps a r (some deny) (some allow) h k =
    absurd (Any-All_absurd _ _ (λ e m n. cc (n m.0, m.1)) (entries ps) h k.1)
Decides-unique ps a r (some deny) (some deny) h k = refl

-- A level is silent exactly when no entry of its policies covers the permission, denies exactly
-- when some covering entry is a denial, and allows exactly when some entry covers it and every
-- covering entry allows.
pub decide_scope-iff-Decides :
    (ps : List Policy) (a : Action) (r : ResourceType) (o : Option PolicyEffect)
    → (decide_scope ps a r ≡ o) ↔ Decides ps a r o
decide_scope-iff-Decides ps a r o = (
  λ e. rw (← e) (decide_scope-Decides ps a r),
  λ d. Decides-unique ps a r _ o (decide_scope-Decides ps a r) d,
)

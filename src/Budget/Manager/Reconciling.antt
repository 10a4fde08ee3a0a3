-- ===== src/Budget/Manager/Reconciling.antt =====
-- The levels of the hierarchy reconcile.
use auxifyai.Prelude.{
  ℕ, ◌+◌, ◌≡◌, refl, ◌∙◌, sym, subst, inl, inr, ◌&&◌, Bool, true, false, String, List, [], ◌∷◌, All,
  Any, if◌then◌else◌, leb, ltb, str_eq, eq_iff, arith, str_eq-false_sym,
}
use auxifyai.Budget.{
  BudgetScope, BudgetScopeLevel, organization, team, project, user, organization_scope, UsageRecord,
  PeriodWindow,
}
use auxifyai.Budget.Store.{matches, matches_scope}
use auxifyai.Budget.Manager.{total_cost, consumed_in_window}
use auxifyai.Budget.Manager.Consumption.{query, share, consumed-cons}

-- The id that a record is attributed to at a level.
abbrev pub column : BudgetScopeLevel → UsageRecord → String
column organization r = r.organization_id
column team r = r.team_id
column project r = r.project_id
column user r = r.user_id

abbrev pub at_level : String → BudgetScopeLevel → String → BudgetScope
at_level org level id = record { organization_id = org; level = level; ref_id = id }

-- What the ids of a level consume within a window, in all.
unfoldable pub consumed_by :
    List UsageRecord → String → BudgetScopeLevel → PeriodWindow → List String → ℕ
consumed_by rs org level w [] = 0
consumed_by rs org level w (id ∷ ids) =
    consumed_in_window rs (at_level org level id) w + consumed_by rs org level w ids

-- No id is in the list twice.
abbrev pub Distinct : List String → Type 0
Distinct [] = Unit
Distinct (id ∷ ids) = All (λ i. str_eq id i ≡ false) ids × Distinct ids

-- What a record adds to the sum.
abbrev shares : UsageRecord → String → BudgetScopeLevel → PeriodWindow → List String → ℕ
shares r org level w [] = 0
shares r org level w (id ∷ ids) = share r (at_level org level id) w + shares r org level w ids

consumed_by-cons :
    (r : UsageRecord) (rs : List UsageRecord) (org : String) (level : BudgetScopeLevel)
    (w : PeriodWindow) (ids : List String)
    → consumed_by (r ∷ rs) org level w ids
      ≡ shares r org level w ids + consumed_by rs org level w ids
unfolding consumed_by
consumed_by-cons r rs org level w [] = omega arith
consumed_by-cons r rs org level w (id ∷ ids) =
    let a = consumed-cons r rs (at_level org level id) w in
    let b = consumed_by-cons r rs org level w ids in omega (arith, a, b)

consumed_by-none :
    (org : String) (level : BudgetScopeLevel) (w : PeriodWindow) (ids : List String)
    → consumed_by [] org level w ids ≡ 0
unfolding consumed_by consumed_in_window total_cost
consumed_by-none org level w [] = refl
consumed_by-none org level w (id ∷ ids) =
    let b = consumed_by-none org level w ids in omega (arith, b)

matches-column :
    (r : UsageRecord) (org : String) (level : BudgetScopeLevel) (w : PeriodWindow) (id : String)
    → matches (query (at_level org level id) w) r ≡ (
        str_eq r.organization_id org
        && (str_eq (column level r) id
            && (leb w.start_ms r.created_at && ltb r.created_at w.end_ms)))
unfolding matches matches_scope
matches-column r org organization w id = refl
matches-column r org team w id = refl
matches-column r org project w id = refl
matches-column r org user w id = refl

-- What a record of an Organization within a window costs; nothing for another record.
abbrev amount : UsageRecord → String → PeriodWindow → ℕ
amount r org w =
    if str_eq r.organization_id org && (leb w.start_ms r.created_at && ltb r.created_at w.end_ms)
    then r.cost
    else 0

move_test :
    (a b c : Bool) (n : ℕ)
    → (if a && (b && c) then n else 0) ≡ (if b then (if a && c then n else 0) else 0)
move_test a b c n = ground arith

share-column :
    (r : UsageRecord) (org : String) (level : BudgetScopeLevel) (w : PeriodWindow) (id : String)
    → share r (at_level org level id) w ≡ (if str_eq (column level r) id then amount r org w else 0)
share-column r org level w id = rw (matches-column r org level w id) (
    move_test (str_eq r.organization_id org) (str_eq (column level r) id)
      (leb w.start_ms r.created_at && ltb r.created_at w.end_ms) r.cost)

shares-miss :
    (r : UsageRecord) (org : String) (level : BudgetScopeLevel) (w : PeriodWindow)
    (ids : List String)
    → All (λ i. str_eq (column level r) i ≡ false) ids
    → shares r org level w ids ≡ 0
shares-miss r org level w [] h = refl
shares-miss r org level w (id ∷ ids) h =
    let a = share-column r org level w id in
    let b = shares-miss r org level w ids h.1 in let f = h.0 in ground arith

apart :
    (c i : String) (ids : List String)
    → c ≡ i
    → All (λ j. str_eq i j ≡ false) ids
    → All (λ j. str_eq c j ≡ false) ids
apart c i ids e h = subst (λ x. All (λ j. str_eq x j ≡ false) ids) (sym e) h

not_first :
    (c i : String) (ids : List String)
    → All (λ j. str_eq i j ≡ false) ids
    → Any (λ j. c ≡ j) ids
    → str_eq c i ≡ false
not_first c i [] h m = absurd m
not_first c i (j ∷ ids) h (inl e) =
    str_eq-false_sym i c (subst (λ x. str_eq i x ≡ false) (sym e) h.0)
not_first c i (j ∷ ids) h (inr m) = not_first c i ids h.1 m

share-organization :
    (r : UsageRecord) (org : String) (w : PeriodWindow)
    → share r (organization_scope org) w ≡ amount r org w
share-organization r org w = let a = share-column r org organization w org in ground arith

shares-one :
    (r : UsageRecord) (org : String) (level : BudgetScopeLevel) (w : PeriodWindow)
    (ids : List String)
    → Distinct ids
    → Any (λ i. column level r ≡ i) ids
    → shares r org level w ids ≡ amount r org w
shares-one r org level w [] d m = absurd m
shares-one r org level w (id ∷ ids) d (inl e) =
    let t : str_eq (column level r) id ≡ true = (eq_iff (column level r) id).1 e in
    let a = share-column r org level w id in
    let b = shares-miss r org level w ids (apart (column level r) id ids e d.0) in ground arith
shares-one r org level w (id ∷ ids) d (inr m) =
    let f : str_eq (column level r) id ≡ false = not_first (column level r) id ids d.0 m in
    let a = share-column r org level w id in
    let b = shares-one r org level w ids d.1 m in ground arith

-- The cost of each request counts once at every level: for every level and window, an Organization
-- consumes what the Teams, Projects or users consume in all, given each of their ids once and the
-- empty id where a record has none.
pub consumed-reconciles :
    (rs : List UsageRecord) (org : String) (level : BudgetScopeLevel) (w : PeriodWindow)
    (ids : List String)
    → Distinct ids
    → All (λ r. Any (λ i. column level r ≡ i) ids) rs
    → consumed_in_window rs (organization_scope org) w ≡ consumed_by rs org level w ids
unfolding consumed_in_window total_cost
consumed-reconciles [] org level w ids d h = sym (consumed_by-none org level w ids)
consumed-reconciles (r ∷ rs) org level w ids d h =
    let a = consumed-cons r rs (organization_scope org) w in
    let b = consumed_by-cons r rs org level w ids in
    let c = shares-one r org level w ids d h.0 in
    let e = share-organization r org w in
    let rest = consumed-reconciles rs org level w ids d h.1 in a ∙ omega (arith, b, c, e, rest)

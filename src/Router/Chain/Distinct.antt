-- ===== src/Router/Chain/Distinct.antt =====
-- The Fallback Chain as a whole: selected first, then every fallback once, nearest tiers first.
use auxifyai.Prelude.{
  ℕ, ◌≡◌, ◌≤◌, ◌<◌, refl, sym, subst, ◌⊎◌, inl, inr, true, false, String, List, [], ◌∷◌, map,
  filter, All, Any, All-map, Any-map, ap, All-filter, arith, Bool-cases, contains, str_eq, eq_iff,
  Any-filter, All-self,
}
use auxifyai.Prelude.Sort.{Ordered, sort_by-Ordered, All-sort_by, Any-sort_by}
use auxifyai.Identity.{ModelInfo}
use auxifyai.Router.{ChatRequest, tier_rank, request_has_image_input}
use auxifyai.Router.AutoMode.{distance}
use auxifyai.Router.Chain.{
  Entry, indexed, entry_le, is_candidate, ordered_others, dedupe, build_fallback_chain,
}
use auxifyai.Router.Chain.Members.{
  Fallback, is_candidate-Fallback, Fallback-is_candidate, All-ordered_others, All-dedupe,
  Any-indexed, Any-candidates, All-indexed, All-candidates,
}

abbrev pub Distinct : List ModelInfo → Type 0
Distinct [] = Unit
Distinct (m ∷ ms) = All (λ x. ¬ (x.id ≡ m.id)) ms × Distinct ms

-- Of a nearer tier than `b`, or as near and of no higher tier.
abbrev pub NoFarther : ℕ → ModelInfo → ModelInfo → Type 0
NoFarther selected a b =
    (distance (tier_rank a.tier) selected < distance (tier_rank b.tier) selected)
    ⊎ ((distance (tier_rank a.tier) selected ≡ distance (tier_rank b.tier) selected)
        × (tier_rank a.tier ≤ tier_rank b.tier))

abbrev pub NearestFirst : ℕ → List ModelInfo → Type 0
NearestFirst s [] = Unit
NearestFirst s (m ∷ ms) = All (NoFarther s m) ms × NearestFirst s ms

pub record IsChain (model : ModelInfo) (routable : List ModelInfo) (req : ChatRequest)
    (chain : List ModelInfo) : Type 0 where
  pub rest : List ModelInfo
  pub selected_first : chain ≡ model ∷ rest
  pub distinct : Distinct chain
  pub fallbacks : All (Fallback model req) rest
  pub drawn : All (λ c. Any (λ x. x ≡ c) routable) rest
  pub complete :
      (c : ModelInfo)
      → Any (λ x. x ≡ c) routable
      → Fallback model req c
      → Any (λ x. x.id ≡ c.id) rest
  pub nearest_first : NearestFirst (tier_rank model.tier) rest

dedupe_unseen :
    (seen : List String) (i : String) (ms : List ModelInfo)
    → contains seen i ≡ true
    → All (λ x. ¬ (x.id ≡ i)) (dedupe seen ms)
unfolding dedupe
dedupe_unseen seen i [] h = tt
dedupe_unseen seen i (m ∷ ms) h = elim (Bool-cases (contains seen m.id)) [
  | inl t ↦ rw t (dedupe_unseen seen i ms h)
  | inr f ↦ rw f (λ e. cc (f, h, e), dedupe_unseen (m.id ∷ seen) i ms (ground arith))
]

dedupe-Distinct : (seen : List String) (ms : List ModelInfo) → Distinct (dedupe seen ms)
unfolding dedupe
dedupe-Distinct seen [] = tt
dedupe-Distinct seen (m ∷ ms) = elim (Bool-cases (contains seen m.id)) [
  | inl t ↦ rw t (dedupe-Distinct seen ms)
  | inr f ↦ rw f (
    dedupe_unseen (m.id ∷ seen) m.id ms (ground (arith, eq_iff m.id m.id)),
    dedupe-Distinct (m.id ∷ seen) ms,
  )
]

dedupe_complete :
    (seen : List String) (i : String) (ms : List ModelInfo)
    → contains seen i ≡ false
    → Any (λ x. x.id ≡ i) ms
    → Any (λ x. x.id ≡ i) (dedupe seen ms)
unfolding dedupe
dedupe_complete seen i [] h k = k
dedupe_complete seen i (m ∷ ms) h (inl e) =
    let f : contains seen m.id ≡ false = subst (λ j. contains seen j ≡ false) (sym e) h in
    rw f (inl e)
dedupe_complete seen i (m ∷ ms) h (inr k) = elim (Bool-cases (contains seen m.id)) [
  | inl t ↦ rw t (dedupe_complete seen i ms h k)
  | inr f ↦ elim (Bool-cases (str_eq i m.id)) [
    | inl same ↦ rw f (inl (sym ((eq_iff i m.id).0 same)))
    | inr other ↦ rw f (inr (dedupe_complete (m.id ∷ seen) i ms (ground arith) k))
  ]
]

NearestFirst-dedupe :
    (s : ℕ) (seen : List String) (ms : List ModelInfo)
    → NearestFirst s ms
    → NearestFirst s (dedupe seen ms)
unfolding dedupe
NearestFirst-dedupe s seen [] h = tt
NearestFirst-dedupe s seen (m ∷ ms) h = elim (Bool-cases (contains seen m.id)) [
  | inl t ↦ rw t (NearestFirst-dedupe s seen ms h.1)
  | inr f ↦
      rw f (
        All-dedupe (NoFarther s m) (m.id ∷ seen) ms h.0,
        NearestFirst-dedupe s (m.id ∷ seen) ms h.1,
      )
]

entry_le_total : (s : ℕ) (a b : Entry) → (entry_le s a b ≡ true) ⊎ (entry_le s b a ≡ true)
unfolding entry_le
entry_le_total s a b = ground arith

entry_le_trans :
    (s : ℕ) (a b c : Entry) → entry_le s a b ≡ true → entry_le s b c ≡ true → entry_le s a c ≡ true
unfolding entry_le
entry_le_trans s a b c h k = ground arith

entry_le-NoFarther :
    (s : ℕ) (a b : Entry) → entry_le s a b ≡ true → NoFarther s a.candidate b.candidate
unfolding entry_le
entry_le-NoFarther s a b h = ground arith

NearestFirst-candidates :
    (s : ℕ) (es : List Entry) → Ordered (entry_le s) es → NearestFirst s (map (λ e. e.candidate) es)
NearestFirst-candidates s [] h = tt
NearestFirst-candidates s (e ∷ es) h = (
  All-candidates (NoFarther s e.candidate) es
      (All-map _ _ (λ x k. entry_le-NoFarther s e x k) es h.0),
  NearestFirst-candidates s es h.1,
)

others_self :
    (model : ModelInfo) (routable : List ModelInfo) (req : ChatRequest)
    → All (Fallback model req) (ordered_others model routable req)
unfolding ordered_others
others_self model routable req =
    let others = filter (is_candidate model (request_has_image_input req)) routable in
    All-candidates (Fallback model req) _ (
      All-sort_by _ (λ e. Fallback model req e.candidate) (indexed 0 others)
        (All-indexed (Fallback model req) 0 others (
          All-map _ (Fallback model req) (is_candidate-Fallback model req) others
            (All-filter _ routable))))

others_complete :
    (model : ModelInfo) (routable : List ModelInfo) (req : ChatRequest) (c : ModelInfo)
    → Any (λ x. x ≡ c) routable
    → Fallback model req c
    → Any (λ x. x.id ≡ c.id) (ordered_others model routable req)
unfolding ordered_others
others_complete model routable req c i f =
    let p = is_candidate model (request_has_image_input req) in
    Any-candidates (λ x. x.id ≡ c.id) _
      (Any-sort_by _ (λ e. e.candidate.id ≡ c.id) _
        (Any-indexed (λ x. x.id ≡ c.id) 0 (filter p routable)
          (Any-map _ (λ x. x.id ≡ c.id) (λ x e. ap (λ (y : ModelInfo). y.id) e) (filter p routable)
            (Any-filter p c routable (Fallback-is_candidate model req c f) i))))

others-NearestFirst :
    (model : ModelInfo) (routable : List ModelInfo) (req : ChatRequest)
    → NearestFirst (tier_rank model.tier) (ordered_others model routable req)
unfolding ordered_others
others-NearestFirst model routable req =
    let s = tier_rank model.tier in
    NearestFirst-candidates s _
      (sort_by-Ordered (entry_le s) (entry_le_total s) (entry_le_trans s) _)

-- The chain starts with the selected model and holds no id twice. Each fallback comes from the
-- routable models, differs from the selected one, and supports vision where the request has an
-- image; every routable model of that kind is in it, by its id. The fallbacks stand by growing tier
-- distance from the selected model, the lower tier first where two are as far.
pub build_fallback_chain-IsChain :
    (model : ModelInfo) (routable : List ModelInfo) (req : ChatRequest)
    → IsChain model routable req (build_fallback_chain model routable req)
unfolding build_fallback_chain dedupe
build_fallback_chain-IsChain model routable req =
    let os = ordered_others model routable req in
    let seen = model.id ∷ [] in
    record {
      rest = dedupe seen os;
      selected_first = refl;
      distinct = dedupe-Distinct [] (model ∷ os);
      fallbacks = All-dedupe (Fallback model req) seen os (others_self model routable req);
      drawn = All-dedupe _ seen os (
          All-ordered_others (λ c. Any (λ x. x ≡ c) routable) model routable req
            (All-self routable));
      complete = λ c i f.
          dedupe_complete seen c.id os (ground (arith, eq_iff c.id model.id))
            (others_complete model routable req c i f);
      nearest_first = NearestFirst-dedupe _ seen os (others-NearestFirst model routable req);
    }

-- ===== src/Router/Chain/Members.antt =====
-- What the Fallback Chain contains, and in which order.
use auxifyai.Prelude.{
  ℕ, suc, ◌≡◌, inl, inr, true, String, List, [], ◌∷◌, map, filter, All, Any, All-filter_keep, arith,
  Bool-cases, contains, eq_iff,
}
use auxifyai.Prelude.Sort.{All-sort_by}
use auxifyai.Identity.{ModelInfo}
use auxifyai.Router.{ChatRequest, request_has_image_input}
use auxifyai.Router.Chain.{Entry, indexed, is_candidate, ordered_others, dedupe}

pub All-indexed :
    (P : ModelInfo → Type 0) (i : ℕ) (ms : List ModelInfo)
    → All P ms
    → All (λ e. P e.candidate) (indexed i ms)
unfolding indexed
All-indexed P i [] h = tt
All-indexed P i (m ∷ ms) h = (h.0, All-indexed P (suc i) ms h.1)

pub Any-indexed :
    (P : ModelInfo → Type 0) (i : ℕ) (ms : List ModelInfo)
    → Any P ms
    → Any (λ e. P e.candidate) (indexed i ms)
unfolding indexed
Any-indexed P i (m ∷ ms) (inl h) = inl h
Any-indexed P i (m ∷ ms) (inr h) = inr (Any-indexed P (suc i) ms h)
Any-indexed P i [] h = h

pub All-candidates :
    (P : ModelInfo → Type 0) (es : List Entry)
    → All (λ e. P e.candidate) es
    → All P (map (λ e. e.candidate) es)
All-candidates P [] h = tt
All-candidates P (e ∷ es) h = (h.0, All-candidates P es h.1)

pub Any-candidates :
    (P : ModelInfo → Type 0) (es : List Entry)
    → Any (λ e. P e.candidate) es
    → Any P (map (λ e. e.candidate) es)
Any-candidates P [] h = h
Any-candidates P (e ∷ es) (inl h) = inl h
Any-candidates P (e ∷ es) (inr h) = inr (Any-candidates P es h)

pub All-dedupe :
    (P : ModelInfo → Type 0) (seen : List String) (ms : List ModelInfo)
    → All P ms
    → All P (dedupe seen ms)
unfolding dedupe
All-dedupe P seen [] h = tt
All-dedupe P seen (m ∷ ms) h = elim (Bool-cases (contains seen m.id)) [
  | inl t ↦ rw t (All-dedupe P seen ms h.1)
  | inr f ↦ rw f (h.0, All-dedupe P (m.id ∷ seen) ms h.1)
]

-- Every fallback is routable, is another model, and sees where the request has an image.
abbrev pub Fallback : ModelInfo → ChatRequest → ModelInfo → Type 0
Fallback model req c =
    ¬ (c.id ≡ model.id) × (request_has_image_input req ≡ true → c.supports_vision ≡ true)

pub is_candidate-Fallback :
    (model : ModelInfo) (req : ChatRequest) (c : ModelInfo)
    → is_candidate model (request_has_image_input req) c ≡ true
    → Fallback model req c
is_candidate-Fallback model req c h = (ground (arith, eq_iff c.id model.id), ground arith)

pub Fallback-is_candidate :
    (model : ModelInfo) (req : ChatRequest) (c : ModelInfo)
    → Fallback model req c
    → is_candidate model (request_has_image_input req) c ≡ true
Fallback-is_candidate model req c (n, v) = ground (arith, eq_iff c.id model.id)

pub All-ordered_others :
    (P : ModelInfo → Type 0) (model : ModelInfo) (routable : List ModelInfo) (req : ChatRequest)
    → All P routable
    → All P (ordered_others model routable req)
unfolding ordered_others
All-ordered_others P model routable req h =
    let others = filter (is_candidate model (request_has_image_input req)) routable in
    All-candidates P _ (
      All-sort_by _ (λ e. P e.candidate) (indexed 0 others)
        (All-indexed P 0 others (All-filter_keep P _ routable h)))

-- ===== src/Router/AutoMode/Selection.antt =====
-- Auto Mode chooses among the models it is given, and never serves an image without vision.
use auxifyai.Prelude.{
  ◌≡◌, refl, inl, inr, ◌↔◌, true, false, Option, none, some, List, [], ◌∷◌, ◌++◌, Any, All, arith,
  Option-cases, Bool-cases, ◌≢◌, subst, sym, Any-All_absurd,
}
use auxifyai.Identity.{ModelInfo}
use auxifyai.Router.{
  ChatRequest, QueryClass, vision, simple, complex_reasoning, code, RouteDecision, auto, Result, ok,
  err, no_eligible_model, no_vision_capable_model, request_has_image_input,
}
use auxifyai.Router.AutoMode.{
  TextTests, QueryClassifier, classify, select_model, auto_select, find_vision, select_nearest_tier,
  tier_for_query_class,
}
use auxifyai.Router.AutoMode.Nearest.{select_nearest_tier-IsNearest}

classify-vision :
    (t : TextTests) (f : Option QueryClassifier) (req : ChatRequest)
    → request_has_image_input req ≡ true
    → classify t f req ≡ ok vision
unfolding classify
classify-vision t f req h = ground arith

find_vision-Any :
    (ms : List ModelInfo) (m : ModelInfo)
    → find_vision ms ≡ some m
    → Any (λ x. x ≡ m) ms × (m.supports_vision ≡ true)
unfolding find_vision
find_vision-Any [] m h = cc
find_vision-Any (x ∷ ms) m h = elim (Bool-cases x.supports_vision) [
  | inl t ↦ let e : x ≡ m = ground arith in (inl e, ground arith)
  | inr f ↦ let r = find_vision-Any ms m (ground arith) in (inr r.0, r.1)
]

find_vision-none :
    (ms : List ModelInfo) → find_vision ms ≡ none → All (λ x. x.supports_vision ≡ false) ms
unfolding find_vision
find_vision-none [] h = tt
find_vision-none (x ∷ ms) h = (ground arith, find_vision-none ms (ground arith))

-- What a selection may be for a request: a routable model, of vision where there is an image.
pub record Selected (req : ChatRequest) (allowed : List ModelInfo) (d : RouteDecision)
    : Type 0 where
  pub listed : Any (λ x. x ≡ d.model) allowed
  pub sees : request_has_image_input req ≡ true → d.model.supports_vision ≡ true
  pub in_auto_mode : d.mode ≡ auto

Any-middle : (m : ModelInfo) (xs ys : List ModelInfo) → Any (λ x. x ≡ m) (xs ++ (m ∷ ys))
Any-middle m [] ys = inl refl
Any-middle m (x ∷ xs) ys = inr (Any-middle m xs ys)

nearest-Any :
    (k : QueryClass) (m : ModelInfo) (ms : List ModelInfo)
    → Any (λ x. x ≡ select_nearest_tier (tier_for_query_class k) m ms) (m ∷ ms)
nearest-Any k m ms =
    let n = select_nearest_tier-IsNearest (tier_for_query_class k) m ms in
    subst (Any (λ x. x ≡ select_nearest_tier (tier_for_query_class k) m ms)) (sym n.split)
      (Any-middle (select_nearest_tier (tier_for_query_class k) m ms) n.before n.after)

select_model-Any :
    (k : QueryClass) (ms : List ModelInfo) (m : ModelInfo)
    → select_model k ms ≡ ok m
    → Any (λ x. x ≡ m) ms × (k ≡ vision → m.supports_vision ≡ true)
unfolding select_model
select_model-Any k [] m h = ground arith
select_model-Any vision (x ∷ ms) m h = elim (Option-cases (find_vision (x ∷ ms))) [
  | inl e ↦ ground arith
  | inr (v, e) ↦ let r = find_vision-Any (x ∷ ms) m (ground arith) in (r.0, λ _. r.1)
]
select_model-Any simple (x ∷ ms) m h =
    let e : select_nearest_tier (tier_for_query_class simple) x ms ≡ m = ground arith in
    (subst (λ n. Any (λ y. y ≡ n) (x ∷ ms)) e (nearest-Any simple x ms), λ q. cc)
select_model-Any complex_reasoning (x ∷ ms) m h =
    let e : select_nearest_tier (tier_for_query_class complex_reasoning) x ms ≡ m = ground arith in
    (subst (λ n. Any (λ y. y ≡ n) (x ∷ ms)) e (nearest-Any complex_reasoning x ms), λ q. cc)
select_model-Any code (x ∷ ms) m h =
    let e : select_nearest_tier (tier_for_query_class code) x ms ≡ m = ground arith in
    (subst (λ n. Any (λ y. y ≡ n) (x ∷ ms)) e (nearest-Any code x ms), λ q. cc)

select_model-ok :
    (k : QueryClass) (d : RouteDecision) (ms : List ModelInfo) (t : TextTests)
    (f : Option QueryClassifier) (req : ChatRequest)
    → classify t f req ≡ ok k
    → auto_select t f req ms ≡ ok d
    → (select_model k ms ≡ ok d.model) × (d.mode ≡ auto)
unfolding auto_select
select_model-ok k d ms t f req e h = (ground arith, ground arith)

-- A successful Auto Mode selection is one of the models it was given, and supports vision where the
-- request carries an image.
pub auto_select-Selected :
    (t : TextTests) (f : Option QueryClassifier) (req : ChatRequest) (ms : List ModelInfo)
    (d : RouteDecision)
    → auto_select t f req ms ≡ ok d
    → Selected req ms d
unfolding auto_select
auto_select-Selected t f req ms d h = of_class (classify t f req) refl
  where
    of_class : (c : Result QueryClass) → classify t f req ≡ c → Selected req ms d
    of_class (ok k) e =
        let s = select_model-ok k d ms t f req e h in
        let r = select_model-Any k ms d.model s.0 in
        record {
          listed = r.0;
          sees = λ i. r.1 (ground (arith, classify-vision t f req i));
          in_auto_mode = s.1;
        }
    of_class (err x) e = absurd (ground arith)

-- A request with an image is refused exactly where no model given supports vision.
pub auto_select-no_vision :
    (t : TextTests) (f : Option QueryClassifier) (req : ChatRequest) (ms : List ModelInfo)
    → request_has_image_input req ≡ true
    → ms ≢ []
    → (auto_select t f req ms ≡ err (no_eligible_model no_vision_capable_model))
      ↔ All (λ m. m.supports_vision ≡ false) ms
unfolding auto_select select_model
auto_select-no_vision t f req [] i ne = absurd (ne refl)
auto_select-no_vision t f req (m ∷ ms) i ne = (
  λ h. find_vision-none (m ∷ ms) (elim (Option-cases (find_vision (m ∷ ms))) [
    | inl e ↦ e
    | inr (v, e) ↦ ground (arith, classify-vision t f req i)
  ]),
  λ h. elim (Option-cases (find_vision (m ∷ ms))) [
    | inl e ↦ ground (arith, classify-vision t f req i)
    | inr (v, e) ↦
        let r = find_vision-Any (m ∷ ms) v e in
        absurd (Any-All_absurd _ _ (λ x p q. cc (p, q, r.1)) (m ∷ ms) r.0 h)
  ],
)

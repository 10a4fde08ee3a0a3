-- ===== src/Router/AutoMode/Nearest.antt =====
-- `selectNearestTier` finds the first of the models nearest to the desired tier.
use auxifyai.Prelude.{
  ℕ, ◌≡◌, ◌<◌, ◌⊎◌, inl, inr, Bool, true, false, ◌&&◌, ◌||◌, List, [], ◌∷◌, ◌++◌, All, All-append,
  All-map, arith, ltb, ◌==◌, Bool-cases, subst,
}
use mathlib.Core.List.{append-nil, append_assoc}
use auxifyai.Identity.{ModelInfo, ModelTier}
use auxifyai.Router.{tier_rank}
use auxifyai.Router.AutoMode.{distance, nearest_loop, select_nearest_tier}

module _ (desired : ℕ) where
  -- Strictly nearer to the desired tier, or as near and of a lower tier.
  abbrev pub Closer : ModelInfo → ModelInfo → Type 0
  Closer a b =
      (distance (tier_rank a.tier) desired < distance (tier_rank b.tier) desired)
      ⊎ ((distance (tier_rank a.tier) desired ≡ distance (tier_rank b.tier) desired)
          × (tier_rank a.tier < tier_rank b.tier))

  -- The model's place in the list: all before it are worse, none after it is better.
  pub record IsNearest (m : ModelInfo) (ms : List ModelInfo) : Type 0 where
    pub before : List ModelInfo
    pub after : List ModelInfo
    pub split : ms ≡ before ++ (m ∷ after)
    pub first : All (Closer m) before
    pub best : All (λ c. ¬ Closer c m) after

  abbrev closer : ModelInfo → ModelInfo → Bool
  closer c b =
      let d = distance (tier_rank c.tier) desired in
      let e = distance (tier_rank b.tier) desired in
      ltb d e || (d == e && ltb (tier_rank c.tier) (tier_rank b.tier))

  closer→Closer : (c b : ModelInfo) → closer c b ≡ true → Closer c b
  closer→Closer c b h = ground arith

  not_closer : (c b : ModelInfo) → closer c b ≡ false → ¬ Closer c b
  not_closer c b h k = ground arith

  Closer-trans : (a b c : ModelInfo) → Closer a b → Closer b c → Closer a c
  Closer-trans a b c h k = ground arith

  Closer-trans_not : (a b c : ModelInfo) → Closer a b → ¬ Closer c b → Closer a c
  Closer-trans_not a b c h k = ground arith

  -- `seen` is what the loop has passed: worse models, the best one, and none better.
  loop-IsNearest :
      (b : ModelInfo) (xs ys cs : List ModelInfo)
      → All (Closer b) xs
      → All (λ c. ¬ Closer c b) ys
      → IsNearest
          (nearest_loop desired b (distance (tier_rank b.tier) desired) (tier_rank b.tier) cs)
          ((xs ++ (b ∷ ys)) ++ cs)
  unfolding nearest_loop
  loop-IsNearest b xs ys [] hx hy = record {
    before = xs;
    after = ys;
    split = append-nil (xs ++ (b ∷ ys));
    first = hx;
    best = hy;
  }
  loop-IsNearest b xs ys (c ∷ cs) hx hy = elim (Bool-cases (closer c b)) [
    | inl t ↦
        let k = closer→Closer c b t in
        let ahead =
          All-append (Closer c) xs (b ∷ ys)
            (All-map (Closer b) (Closer c) (λ x h. Closer-trans c b x k h) xs hx)
            (k, All-map (λ x. ¬ Closer x b) (Closer c) (λ x h. Closer-trans_not c b x k h) ys hy) in
        rw t (
          subst
            (IsNearest
              (nearest_loop desired c (distance (tier_rank c.tier) desired) (tier_rank c.tier) cs))
            (append_assoc (xs ++ (b ∷ ys)) (c ∷ []) cs)
            (loop-IsNearest c (xs ++ (b ∷ ys)) [] cs ahead tt))
    | inr f ↦ rw f (
        subst
          (IsNearest
            (nearest_loop desired b (distance (tier_rank b.tier) desired) (tier_rank b.tier) cs))
          (simp append_assoc)
          (loop-IsNearest b xs (ys ++ (c ∷ [])) cs hx
            (All-append (λ x. ¬ Closer x b) ys (c ∷ []) hy (not_closer c b f, tt))))
  ]

-- Of a non-empty list the layer selects the first model of the least tier distance from the desired
-- tier, the lower tier where two are as near: every model before it is strictly worse, and no model
-- after it is strictly better.
pub select_nearest_tier-IsNearest :
    (desired : ModelTier) (m : ModelInfo) (ms : List ModelInfo)
    → IsNearest (tier_rank desired) (select_nearest_tier desired m ms) (m ∷ ms)
unfolding select_nearest_tier
select_nearest_tier-IsNearest desired m ms = loop-IsNearest (tier_rank desired) m [] [] ms tt tt

-- ===== src/Router/Chain.antt =====
-- `buildFallbackChain` (fallback.ts).
pub mod Members
pub mod Distinct
use auxifyai.Prelude.{
  ℕ, suc, ◌+◌, ◌-◌, ◌≡◌, Bool, true, false, not, ◌&&◌, ◌||◌, String, List, [], ◌∷◌, map, filter,
  if◌then◌else◌, str_eq, contains, ltb, leb, ◌==◌,
}
use auxifyai.Prelude.Sort.{sort_by}
use auxifyai.Identity.{ModelInfo}
use auxifyai.Router.{ChatRequest, tier_rank, request_has_image_input}
use auxifyai.Router.AutoMode.{distance}

-- `others.map((candidate, index) => ({ candidate, index }))`
pub record Entry : Type 0 where
  pub candidate : ModelInfo
  pub index : ℕ

unfoldable pub indexed : ℕ → List ModelInfo → List Entry
indexed i [] = []
indexed i (m ∷ ms) = record { candidate = m; index = i } ∷ indexed (suc i) ms

-- The comparator gives at most 0: by distance, then rank, then index.
unfoldable pub entry_le : ℕ → Entry → Entry → Bool
entry_le selected a b =
    let distance_a = distance (tier_rank a.candidate.tier) selected in
    let distance_b = distance (tier_rank b.candidate.tier) selected in
    let rank_a = tier_rank a.candidate.tier in
    let rank_b = tier_rank b.candidate.tier in
    if not (distance_a == distance_b)
    then leb distance_a distance_b
    else if not (rank_a == rank_b)
    then leb rank_a rank_b
    else leb a.index b.index

-- The models that may follow the selected one.
abbrev pub is_candidate : ModelInfo → Bool → ModelInfo → Bool
is_candidate model vision_only c =
    not (str_eq c.id model.id) && (not vision_only || c.supports_vision)

unfoldable pub ordered_others : ModelInfo → List ModelInfo → ChatRequest → List ModelInfo
unfolding indexed
ordered_others model routable req =
    let others = filter (is_candidate model (request_has_image_input req)) routable in
    map (λ e. e.candidate) (sort_by (entry_le (tier_rank model.tier)) (indexed 0 others))

-- The last loop: keep the first of each id.
unfoldable pub dedupe : List String → List ModelInfo → List ModelInfo
dedupe seen [] = []
dedupe seen (m ∷ ms) =
    let skip = dedupe seen ms in
    let push = m ∷ dedupe (m.id ∷ seen) ms in if not (contains seen m.id) then push else skip

unfoldable pub build_fallback_chain : ModelInfo → List ModelInfo → ChatRequest → List ModelInfo
unfolding ordered_others dedupe
build_fallback_chain model routable req = dedupe [] (model ∷ ordered_others model routable req)

-- ===== src/Workflow/Graph/Order.antt =====
-- The execution order: a stable sort of the steps by `order`.
use mathlib.Core.List.Perm
use auxifyai.Prelude.{
  ℕ, suc, ◌≡◌, refl, ap, subst, ◌⊎◌, true, List, [], ◌∷◌, map, Perm, All, ◌≤◌, arith,
}
use auxifyai.Prelude.Sort.{sort_by, sort_by-perm, Ordered, sort_by-Ordered}
use auxifyai.Workflow.{WorkflowStep}
use auxifyai.Workflow.Graph.{Entry, indexed, entry_le, step_of, ordered_steps}

entry_le_trans : (a b c : Entry) → entry_le a b ≡ true → entry_le b c ≡ true → entry_le a c ≡ true
unfolding entry_le
entry_le_trans a b c h k = ground arith

entry_le_total : (a b : Entry) → (entry_le a b ≡ true) ⊎ (entry_le b a ≡ true)
unfolding entry_le
entry_le_total a b = ground arith

map-indexed : (i : ℕ) (ss : List WorkflowStep) → map step_of (indexed i ss) ≡ ss
unfolding indexed
map-indexed i [] = refl
map-indexed i (s ∷ ss) = ap (λ r. s ∷ r) (map-indexed (suc i) ss)

-- Rising by `order`, and between equal orders rising by the position in the workflow.
abbrev pub InOrder : List Entry → Type 0
InOrder es = Ordered entry_le es

-- The steps of an order, each at most a later one.
abbrev pub Rising : List WorkflowStep → Type 0
Rising [] = Unit
Rising (s ∷ ss) = All (λ t. s.order ≤ t.order) ss × Rising ss

entry_le-order : (a b : Entry) → entry_le a b ≡ true → a.step.order ≤ b.step.order
unfolding entry_le
entry_le-order a b h = ground arith

All-order :
    (a : Entry) (es : List Entry)
    → All (λ b. entry_le a b ≡ true) es
    → All (λ t. a.step.order ≤ t.order) (map step_of es)
All-order a [] h = tt
All-order a (b ∷ es) h = (entry_le-order a b h.0, All-order a es h.1)

InOrder-Rising : (es : List Entry) → InOrder es → Rising (map step_of es)
InOrder-Rising [] h = tt
InOrder-Rising (e ∷ es) h = (All-order e es h.0, InOrder-Rising es h.1)

-- The execution order has every step of the workflow as often as the workflow does, rises by
-- `order`, and keeps the workflow's order between steps of equal `order`: it is the projection of a
-- list of the steps with their positions that rises by `order` first and position second.
pub ordered_steps-Stable :
    (ss : List WorkflowStep)
    → Perm (ordered_steps ss) ss
      × Rising (ordered_steps ss)
      × ((es : List Entry) × Perm es (indexed 0 ss)
          × InOrder es
          × (map step_of es ≡ ordered_steps ss))
unfolding ordered_steps
ordered_steps-Stable ss =
    let es = sort_by entry_le (indexed 0 ss) in
    let p : Perm es (indexed 0 ss) = sort_by-perm entry_le (indexed 0 ss) in
    let o : InOrder es = sort_by-Ordered entry_le entry_le_total entry_le_trans (indexed 0 ss) in
    (
      subst (Perm (map step_of es)) (map-indexed 0 ss) (Perm.map step_of p),
      InOrder-Rising es o,
      (es, p, o, refl),
    )

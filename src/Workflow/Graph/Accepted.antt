-- ===== src/Workflow/Graph/Accepted.antt =====
-- Which workflows `validateWorkflowGraph` accepts.
use auxifyai.Prelude.{
  ◌≡◌, ◌∙◌, refl, sym, subst, ap, inl, inr, ◌↔◌, true, false, String, none, List, [], ◌∷◌, map,
  str_eq, contains, All, Any, contains_iff, eq_iff, arith, Bool-cases,
}
use auxifyai.Workflow.{Workflow, WorkflowStep}
use auxifyai.Workflow.Graph.{
  check_ids, check_refs, check_order, id_of, ordered_steps, validate_workflow_graph,
}

-- The text is in the list.
abbrev pub In : List String → String → Type 0
In xs a = Any (λ x. a ≡ x) xs

-- No step repeats the id of an earlier one (or of `before`), and each reference names an earlier one.
abbrev pub Executable : List String → List WorkflowStep → Type 0
Executable before [] = Unit
Executable before (s ∷ ss) =
    (In before s.id → ⊥) × All (In before) s.input_refs × Executable (s.id ∷ before) ss

abbrev Distinct : List String → List WorkflowStep → Type 0
Distinct before [] = Unit
Distinct before (s ∷ ss) = (In before s.id → ⊥) × Distinct (s.id ∷ before) ss

check_ids-Distinct :
    (w : Workflow) (seen : List String) (ss : List WorkflowStep)
    → check_ids w seen ss ≡ none
    → Distinct seen ss
unfolding check_ids
check_ids-Distinct w seen [] h = tt
check_ids-Distinct w seen (s ∷ ss) h = elim (Bool-cases (contains seen s.id)) [
  | inl t ↦ ground arith
  | inr f ↦
      (ground (arith, contains_iff seen s.id), check_ids-Distinct w (s.id ∷ seen) ss (ground arith))
]

Distinct-check_ids :
    (w : Workflow) (seen : List String) (ss : List WorkflowStep)
    → Distinct seen ss
    → check_ids w seen ss ≡ none
unfolding check_ids
Distinct-check_ids w seen [] h = refl
Distinct-check_ids w seen (s ∷ ss) h =
    ground (arith, contains_iff seen s.id, Distinct-check_ids w (s.id ∷ seen) ss h.1)

check_refs-All :
    (w : Workflow) (seen executed : List String) (s : WorkflowStep) (refs : List String)
    → check_refs w seen executed s refs ≡ none
    → All (In executed) refs
unfolding check_refs
check_refs-All w seen executed s [] h = tt
check_refs-All w seen executed s (r ∷ rs) h =
    let rest : check_refs w seen executed s rs ≡ none = ground arith in
    (ground (arith, contains_iff executed r), check_refs-All w seen executed s rs rest)

-- The ids in `executed` are all in `seen`.
All-check_refs :
    (w : Workflow) (seen executed : List String) (s : WorkflowStep) (refs : List String)
    → ((a : String) → In executed a → In seen a)
    → (In executed s.id → ⊥)
    → All (In executed) refs
    → check_refs w seen executed s refs ≡ none
unfolding check_refs
All-check_refs w seen executed s [] sub new h = refl
All-check_refs w seen executed s (r ∷ rs) sub new h =
    let other : str_eq r s.id ≡ false = elim (Bool-cases (str_eq r s.id)) [
      | inl t ↦ absurd (new (subst (In executed) ((eq_iff r s.id).0 t) h.0))
      | inr f ↦ f
    ] in
    let known : contains seen r ≡ true = (contains_iff seen r).1 (sub r h.0) in
    let earlier : contains executed r ≡ true = (contains_iff executed r).1 h.0 in
    ground (arith, All-check_refs w seen executed s rs sub new h.1)

check_order-Executable :
    (w : Workflow) (seen executed : List String) (ss : List WorkflowStep)
    → Distinct executed ss
    → check_order w seen executed ss ≡ none
    → Executable executed ss
unfolding check_order
check_order-Executable w seen executed [] d h = tt
check_order-Executable w seen executed (s ∷ ss) d h =
    let refs : check_refs w seen executed s s.input_refs ≡ none = ground arith in
    let rest : check_order w seen (s.id ∷ executed) ss ≡ none = ground arith in
    (
      d.0,
      check_refs-All w seen executed s s.input_refs refs,
      check_order-Executable w seen (s.id ∷ executed) ss d.1 rest,
    )

Executable-check_order :
    (w : Workflow) (seen executed : List String) (ss : List WorkflowStep)
    → ((a : String) → In executed a → In seen a)
    → ((a : String) → In (map id_of ss) a → In seen a)
    → Executable executed ss
    → check_order w seen executed ss ≡ none
unfolding check_order
Executable-check_order w seen executed [] sub ids h = refl
Executable-check_order w seen executed (s ∷ ss) sub ids h =
    let refs = All-check_refs w seen executed s s.input_refs sub h.0 h.1 in
    let sub' : (a : String) → In (s.id ∷ executed) a → In seen a =
      λ a i. elim i [ inl e ↦ ids a (inl e) | inr k ↦ sub a k ] in
    let rest = Executable-check_order w seen (s.id ∷ executed) ss sub' (λ a i. ids a (inr i)) h.2 in
    rw (check_order, refs, rest) refl

Executable-Distinct :
    (before : List String) (ss : List WorkflowStep) → Executable before ss → Distinct before ss
Executable-Distinct before [] h = tt
Executable-Distinct before (s ∷ ss) h = (h.0, Executable-Distinct (s.id ∷ before) ss h.2)

-- The order is returned exactly when both loops pass.
graph_accepted :
    (w : Workflow)
    → check_ids w [] (ordered_steps w.steps) ≡ none
    → check_order w (map id_of (ordered_steps w.steps)) [] (ordered_steps w.steps) ≡ none
    → validate_workflow_graph w ≡ inr (ordered_steps w.steps)
unfolding validate_workflow_graph
graph_accepted w h k = rw (validate_workflow_graph, h, k) refl

-- A workflow is accepted with an order exactly when that is its execution order, no two of its steps
-- have the same id, and each reference names the id of a strictly earlier step of the order.
pub validate_workflow_graph-iff-Executable :
    (w : Workflow) (ss : List WorkflowStep)
    → (validate_workflow_graph w ≡ inr ss) ↔ ((ordered_steps w.steps ≡ ss) × Executable [] ss)
unfolding validate_workflow_graph
validate_workflow_graph-iff-Executable w ss = (
  λ h.
      let ordered = ordered_steps w.steps in
      let ids : check_ids w [] ordered ≡ none = ground arith in
      let refs : check_order w (map id_of ordered) [] ordered ≡ none = ground arith in
      let e : ordered ≡ ss = ground arith in
      (
        e,
        subst (Executable []) e (
            check_order-Executable w (map id_of ordered) [] ordered
              (check_ids-Distinct w [] ordered ids) refs),
      ),
  λ (e, x).
      let ordered = ordered_steps w.steps in
      let x' = subst (Executable []) (sym e) x in
      let ids = Distinct-check_ids w [] ordered (Executable-Distinct [] ordered x') in
      let refs =
        Executable-check_order w (map id_of ordered) [] ordered (λ a i. absurd i) (λ a i. i) x' in
      graph_accepted w ids refs ∙ ap inr e,
)

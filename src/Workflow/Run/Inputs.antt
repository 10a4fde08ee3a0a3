-- ===== src/Workflow/Run/Inputs.antt =====
-- `resolveInputs`: a step gets the outputs that it references, and nothing else.
use auxifyai.Prelude.{
  ◌≡◌, ◌∙◌, refl, sym, subst, ap, inl, inr, true, false, String, none, some, List, [], ◌∷◌,
  if◌then◌else◌, str_eq, contains, is_some, All, All-map, Bool-cases, Option-cases, eq_iff, arith,
}
use auxifyai.Workflow.{Value, Workflow, WorkflowStep}
use auxifyai.Prelude.Maps.{lookup, put, lookup-put, lookup-same, lookup-other}
use auxifyai.Workflow.Run.{resolve_inputs}

abbrev pub Outputs : Type 0
Outputs = List (String × Value)

-- The inputs are the outputs of the references, and there is one for each.
abbrev pub Supplies : Outputs → List String → Outputs → Type 0
Supplies done refs inputs =
    All (λ r. is_some (lookup r done) ≡ true) refs
    × ((k : String) → lookup k inputs ≡ (if contains refs k then lookup k done else none))

resolve_inputs-lookup :
    (w : Workflow) (s : WorkflowStep) (outputs : Outputs) (refs : List String) (acc : Outputs)
    → All (λ r. is_some (lookup r outputs) ≡ true) refs
    → (inputs : Outputs) × (resolve_inputs w s outputs refs acc ≡ inr inputs)
      × ((k : String)
          → lookup k inputs ≡ (if contains refs k then lookup k outputs else lookup k acc))
unfolding resolve_inputs
resolve_inputs-lookup w s outputs [] acc h = (acc, refl, λ k. refl)
resolve_inputs-lookup w s outputs (r ∷ rs) acc h = elim (Option-cases (lookup r outputs)) [
  | inl e ↦ absurd (ground (arith, h.0))
  | inr (v, e) ↦
      let (inputs, res, at) = resolve_inputs-lookup w s outputs rs (put r v acc) h.1 in
      (
        inputs,
        rw (resolve_inputs, e) res,
        λ k. elim (Bool-cases (str_eq k r)) [
          | inl t ↦
              let same : lookup k outputs ≡ some v =
                subst (λ z. lookup z outputs ≡ some v) (sym ((eq_iff k r).0 t)) e in
              let acc' : lookup k (put r v acc) ≡ some v =
                lookup-put k r v acc ∙ lookup-same k r v acc t in
              ground (arith, at k)
          | inr f ↦
              let acc' : lookup k (put r v acc) ≡ lookup k acc =
                lookup-put k r v acc ∙ lookup-other k r v acc f in
              ground (arith, at k)
        ],
      )
]

pub resolve_inputs-Supplies :
    (w : Workflow) (s : WorkflowStep) (done outputs : Outputs)
    → ((k : String) → lookup k outputs ≡ lookup k done)
    → All (λ r. is_some (lookup r done) ≡ true) s.input_refs
    → (inputs : Outputs) × (resolve_inputs w s outputs s.input_refs [] ≡ inr inputs)
      × Supplies done s.input_refs inputs
unfolding lookup
resolve_inputs-Supplies w s done outputs same h =
    let h' =
      All-map (λ r. is_some (lookup r done) ≡ true) (λ r. is_some (lookup r outputs) ≡ true)
        (λ r e. ap is_some (same r) ∙ e) s.input_refs h in
    let (inputs, res, at) = resolve_inputs-lookup w s outputs s.input_refs [] h' in
    (inputs, res, (h, λ k. at k ∙ supplied k))
  where
    supplied :
        (k : String)
        → (if contains s.input_refs k then lookup k outputs else lookup k [])
          ≡ (if contains s.input_refs k then lookup k done else none)
    supplied k =
        elim (contains s.input_refs k)
          as (λ b.
            (if b then lookup k outputs else lookup k []) ≡ (if b then lookup k done else none)) [
              | true ↦ same k
              | false ↦ refl
            ]

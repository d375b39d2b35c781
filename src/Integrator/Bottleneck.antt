-- ===== src/Integrator/Bottleneck.antt =====
-- src/federation/integrator.py: the capacity that an integrator answers, as its nodes come and go.
use neural_pubsub_experiment.Prelude.{
  ◌≡◌, refl, sym, ap, ℕ, ◌+◌, String, Bool, true, not, ◌==◌, Option, none, some, List, [], ◌∷◌,
  ◌++◌, map, filter, lookup, lookup-insert_self, ◌∙◌, Error, Result, ok, raised, arith,
  if◌then◌else◌,
}
use neural_pubsub_experiment.Placement.{ExecutionUnit}
use neural_pubsub_experiment.Integrator.{
  PipelineStages, register_pipeline_type, node_available, node_supports_stage, sum, min_of,
  stage_capacity, bottleneck, compute_composite_capacity, Integrator, add_node, remove_node,
  composite_capacity,
}

-- The spare capacity of the nodes whose name passes the test.
unfoldable pub spare : (String → Bool) → List ExecutionUnit → ℕ
spare test [] = 0
spare test (n ∷ ns) = (if test n.node_id then node_available n else 0) + spare test ns

abbrev pub any_name : String → Bool
any_name s = true

stage_capacity_lem :
    (ns : List ExecutionUnit) (s : String) → stage_capacity ns s ≡ spare any_name ns
unfolding stage_capacity spare sum node_supports_stage
stage_capacity_lem [] s = refl
stage_capacity_lem (n ∷ ns) s = ap (λ rest. node_available n + rest) (stage_capacity_lem ns s)

min_of-stage_capacity :
    (ns : List ExecutionUnit) (ss : List String)
    → min_of (spare any_name ns) (map (stage_capacity ns) ss) ≡ spare any_name ns
unfolding min_of
min_of-stage_capacity ns [] = refl
min_of-stage_capacity ns (s ∷ ss) =
    ground (arith, stage_capacity_lem ns s, min_of-stage_capacity ns ss)

bottleneck_lem :
    (ns : List ExecutionUnit) (s : String) (ss : List String)
    → bottleneck ns (s ∷ ss) ≡ spare any_name ns
unfolding bottleneck
bottleneck_lem ns s ss = rw (stage_capacity_lem ns s) (min_of-stage_capacity ns ss)

spare-append :
    (test : String → Bool) (ms ns : List ExecutionUnit)
    → spare test (ms ++ ns) ≡ spare test ms + spare test ns
unfolding spare
spare-append test [] ns = omega arith
spare-append test (m ∷ ms) ns = omega (arith, spare-append test ms ns)

spare-filter :
    (node_id : String) (ns : List ExecutionUnit)
    → spare any_name (filter (λ n. not (n.node_id == node_id)) ns) + spare (λ i. i == node_id) ns
      ≡ spare any_name ns
unfolding spare
spare-filter node_id [] = refl
spare-filter node_id (n ∷ ns) = ground (arith, spare-filter node_id ns)

-- What an integrator with that much spare capacity answers for the stages of a type.
abbrev pub answer : ℕ → Option (List String) → Result ℕ
answer total none = raised Error.unknown_pipeline
answer total (some []) = ok 0
answer total (some (stage ∷ stages)) = ok total

answer_lem :
    (nodes : List ExecutionUnit) (found : Option (List String))
    → (elim found [
      | none ↦ raised Error.unknown_pipeline
      | some stages ↦ ok (bottleneck nodes stages)
    ])
      ≡ answer (spare any_name nodes) found
unfolding bottleneck
answer_lem nodes none = refl
answer_lem nodes (some []) = refl
answer_lem nodes (some (stage ∷ stages)) = ap ok (bottleneck_lem nodes stage stages)

-- The integrator raises an exception for a type that is not registered, answers 0 for a type
-- without stages, and otherwise answers the spare capacity of all its nodes.
pub composite_capacity_lem :
    (registry : PipelineStages) (kind : String) (i : Integrator)
    → composite_capacity registry kind i ≡ answer (spare any_name i.nodes) (lookup kind registry)
unfolding composite_capacity compute_composite_capacity
composite_capacity_lem registry kind i = answer_lem i.nodes (lookup kind registry)

-- Condition: the type is registered with some stage. Then removing a node id lowers the answer by
-- the spare capacity of all nodes of that id.
pub composite_capacity-remove_node :
    (registry : PipelineStages) (kind stage : String) (stages : List String) (node_id : String)
    (i : Integrator)
    → lookup kind registry ≡ some (stage ∷ stages)
    → (left : ℕ) × (composite_capacity registry kind (remove_node node_id i) ≡ ok left)
      × (composite_capacity registry kind i ≡ ok (left + spare (λ s. s == node_id) i.nodes))
unfolding remove_node
composite_capacity-remove_node registry kind stage stages node_id i found =
    let j = remove_node node_id i in
    (
      spare any_name j.nodes,
      composite_capacity_lem registry kind j ∙ ap (answer (spare any_name j.nodes)) found,
      composite_capacity_lem registry kind i
          ∙ ap (answer (spare any_name i.nodes)) found
          ∙ ap ok (sym (spare-filter node_id i.nodes)),
    )

-- For a type that has just been registered with some stage, the integrator has an answer, and
-- adding a node raises it by the spare capacity of the node.
pub composite_capacity-add_node :
    (registry : PipelineStages) (kind stage : String) (stages : List String) (node : ExecutionUnit)
    (i : Integrator)
    → (before : ℕ) × (composite_capacity
          (register_pipeline_type kind (stage ∷ stages) registry)
          kind
          i
        ≡ ok before)
      × (composite_capacity
            (register_pipeline_type kind (stage ∷ stages) registry)
            kind
            (add_node node i)
          ≡ ok (before + node_available node))
unfolding add_node register_pipeline_type spare
composite_capacity-add_node registry kind stage stages node i =
    let registry' = register_pipeline_type kind (stage ∷ stages) registry in
    let found = lookup-insert_self kind (stage ∷ stages) registry in
    let total : spare any_name (i.nodes ++ node ∷ [])
        ≡ spare any_name i.nodes + node_available node =
      omega (arith, spare-append any_name i.nodes (node ∷ [])) in
    (
      spare any_name i.nodes,
      composite_capacity_lem registry' kind i ∙ ap (answer (spare any_name i.nodes)) found,
      composite_capacity_lem registry' kind (add_node node i)
          ∙ ap (answer (spare any_name (i.nodes ++ node ∷ []))) found
          ∙ ap ok total,
    )

-- ===== src/Integrator.antt =====
-- src/federation/integrator.py: how much of a type of pipeline a domain can still take. The registry
-- of pipeline types, a dictionary of the module, is an argument.
pub mod Bottleneck
use neural_pubsub_experiment.Prelude.{
  ℕ, ◌+◌, ◌-◌, String, Bool, true, not, ◌==◌, leb, if◌then◌else◌, Option, none, some, List, [], ◌∷◌,
  ◌++◌, map, filter, Dict, lookup, insert, Error, Result, ok, raised,
}
use neural_pubsub_experiment.Placement.{ExecutionUnit}

abbrev pub PipelineStages : Type 0
PipelineStages = Dict (List String)

unfoldable pub register_pipeline_type : String → List String → PipelineStages → PipelineStages
register_pipeline_type pipeline_type stages registry = insert pipeline_type stages registry

-- max(0.0, node.residual_capacity)
abbrev pub node_available : ExecutionUnit → ℕ
node_available node = node.capacity - node.current_load

unfoldable pub node_supports_stage : ExecutionUnit → String → Bool
node_supports_stage node stage_type = true

unfoldable pub sum : List ℕ → ℕ
sum [] = 0
sum (x ∷ xs) = x + sum xs

-- min(…) of the list with the item in front
unfoldable pub min_of : ℕ → List ℕ → ℕ
min_of least [] = least
min_of least (x ∷ xs) = min_of (if leb least x then least else x) xs

unfoldable pub stage_capacity : List ExecutionUnit → String → ℕ
stage_capacity domain_nodes stage =
    sum (map node_available (filter (λ node. node_supports_stage node stage) domain_nodes))

-- The bottleneck of the stages.
unfoldable pub bottleneck : List ExecutionUnit → List String → ℕ
bottleneck domain_nodes [] = 0
bottleneck domain_nodes (stage ∷ stages) =
    min_of (stage_capacity domain_nodes stage) (map (stage_capacity domain_nodes) stages)

unfoldable pub compute_composite_capacity : PipelineStages → List ExecutionUnit → String → Result ℕ
compute_composite_capacity registry domain_nodes pipeline_type =
    elim (lookup pipeline_type registry) [
      | none ↦ raised Error.unknown_pipeline
      | some stages ↦ ok (bottleneck domain_nodes stages)
    ]

pub record Integrator : Type 0 where
  pub domain_id : String
  pub nodes : List ExecutionUnit

unfoldable pub new_integrator : String → Integrator
new_integrator domain_id = record { domain_id = domain_id; nodes = [] }

unfoldable pub add_node : ExecutionUnit → Integrator → Integrator
add_node node integrator = record integrator { nodes = integrator.nodes ++ node ∷ [] }

unfoldable pub remove_node : String → Integrator → Integrator
remove_node node_id integrator = record integrator {
  nodes = filter (λ n. not (n.node_id == node_id)) integrator.nodes;
}

unfoldable pub composite_capacity : PipelineStages → String → Integrator → Result ℕ
composite_capacity registry pipeline_type integrator =
    compute_composite_capacity registry integrator.nodes pipeline_type

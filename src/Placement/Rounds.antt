-- ===== src/Placement/Rounds.antt =====
-- src/broker/placement.py: the loop that `_greedy_placement`, `locality_placement`,
-- `latency_greedy_placement` and `spillover_placement` share. For each stage in the order the body
-- picks a node, records it and books the demand on it; only the pick differs.
use neural_pubsub_experiment.Prelude.{
  ℕ, ◌+◌, String, Option, none, some, List, [], ◌∷◌, Dict, insert, get_or, Error, Result, ok,
  raised, ◌>>=◌,
}
use neural_pubsub_experiment.Dag.{Stage, PipelineDag, get_stage}
use neural_pubsub_experiment.Dag.Kahn.{topological_sort}

abbrev pub Pick : Type 0
Pick = Stage → Dict String → Dict ℕ → Result (Option String)

-- additional_load[n] = additional_load.get(n, 0.0) + demand
abbrev pub book : String → ℕ → Dict ℕ → Dict ℕ
book node_id demand load = insert node_id (get_or node_id 0 load + demand) load

module _ (dag : PipelineDag) (pick : Pick) where
  unfoldable pub place_all : List String → Dict String → Dict ℕ → Result (Dict String)
  place_all [] placement load = ok placement
  place_all (stage_id ∷ order) placement load = do
    stage ← get_stage dag stage_id
    best ← pick stage placement load
    elim best [
      | none ↦ raised Error.no_feasible_node
      | some node_id ↦
          place_all order (insert stage_id node_id placement)
            (book node_id stage.computational_demand load)
    ]

  unfoldable pub place_in_order : Result (Dict String)
  place_in_order = do order ← topological_sort dag; place_all order [] []

-- ===== src/Placement/Greedy.antt =====
-- src/broker/placement.py, `_greedy_placement`.
use neural_pubsub_experiment.Prelude.{
  ℕ, ◌+◌, String, Option, none, some, List, [], ◌∷◌, ◌==◌, not, if◌then◌else◌, Dict, lookup, Result,
  ok, ◌>>=◌,
}
use neural_pubsub_experiment.Dag.{Stage, PipelineDag}
use neural_pubsub_experiment.Placement.{
  ExecutionUnit, NetworkTopology, GovernancePolicy, get_node, latency, is_node_feasible,
}
use neural_pubsub_experiment.Placement.Float.{Floats}
use neural_pubsub_experiment.Placement.Rounds.{place_in_order}

module _ (topology : NetworkTopology) where
  -- The latency to the placed predecessors, and how many of them lie in another domain.
  unfoldable pub pred_increments :
      ExecutionUnit → Dict String → List String → ℕ → ℕ → Result (ℕ × ℕ)
  pred_increments node placement [] latency_inc domain_inc = ok (latency_inc, domain_inc)
  pred_increments node placement (pred_id ∷ preds) latency_inc domain_inc =
      elim (lookup pred_id placement) [
        | none ↦ pred_increments node placement preds latency_inc domain_inc
        | some pred_node_id ↦ do
          l ← latency topology pred_node_id node.node_id
          pred_node ← get_node topology pred_node_id
          pred_increments node placement preds (latency_inc + l)
              (if pred_node.domain_id == node.domain_id then domain_inc else domain_inc + 1)
      ]

module _ (F : Floats) (dag : PipelineDag) (topology : NetworkTopology)
    (governance : GovernancePolicy) (alpha beta gamma : F.Float) where
  open F use {Float, of_ℕ, plus, times, over, maximum, tiny, infinite, less}

  -- alpha * latency_inc + beta * load_inc + gamma * domain_inc
  unfoldable pub node_cost : Stage → Dict String → ExecutionUnit → Result Float
  node_cost stage placement node = do
    (latency_inc, domain_inc) ←
        pred_increments topology node placement (dag.predecessors stage.id) 0 0
    let load_inc = over (of_ℕ stage.computational_demand) (maximum (of_ℕ node.capacity) tiny)
    ok (
        plus (plus (times alpha (of_ℕ latency_inc)) (times beta load_inc))
          (times gamma (of_ℕ domain_inc)))

  -- for node in topology.nodes, with the best node and its cost so far
  unfoldable pub choose :
      Stage
      → Dict String
      → Dict ℕ
      → List ExecutionUnit
      → Option String
      → Float
      → Result (Option String)
  choose stage placement load [] best_node best_cost = ok best_node
  choose stage placement load (node ∷ nodes) best_node best_cost = do
    feasible ← is_node_feasible dag topology governance stage node placement load
    if not feasible then choose stage placement load nodes best_node best_cost else do
      cost ← node_cost stage placement node
      choose stage placement load nodes
          (if less cost best_cost then some node.node_id else best_node)
          (if less cost best_cost then cost else best_cost)

  unfoldable pub greedy_pick : Stage → Dict String → Dict ℕ → Result (Option String)
  greedy_pick stage placement load = choose stage placement load topology.nodes none infinite

  unfoldable pub greedy_placement : Result (Dict String)
  greedy_placement = place_in_order dag greedy_pick

-- ===== src/Placement/Baselines.antt =====
-- src/broker/placement.py: `locality_placement`, `latency_greedy_placement`, `spillover_placement`.
use Prim.Native.String.{compare}
use Prim.Native.Nat.{Ordering}
use neural_pubsub_experiment.Prelude.{
  ℕ, ◌+◌, String, Bool, true, false, Option, none, some, List, [], ◌∷◌, ◌==◌, ◌&&◌, ◌||◌, not, ltb,
  eqb, filter, if◌then◌else◌, Dict, lookup, get_or, Error, Result, ok, raised, ◌>>=◌,
}
use neural_pubsub_experiment.Prelude.Cost.{Cost, fin, inf}
use neural_pubsub_experiment.Dag.{Stage, PipelineDag}
use neural_pubsub_experiment.Placement.{
  ExecutionUnit, NetworkTopology, GovernancePolicy, latency, exceeds, is_node_feasible_simple,
}
use neural_pubsub_experiment.Placement.Rounds.{place_in_order}

-- `<` on texts
abbrev str_less : String → String → Bool
str_less s t = elim (compare s t) [ Ordering.lt ↦ true | _ ↦ false ]

module _ (governance : GovernancePolicy) where
  -- residual >= demand - 1e-9, and the checks on the node alone
  abbrev pub has_room : Stage → Dict ℕ → ExecutionUnit → Bool
  has_room stage load node =
      not (exceeds stage.computational_demand node (get_or node.node_id 0 load))
      && is_node_feasible_simple stage node governance

  -- for worker in workers: … break
  unfoldable pub first_with_room : Stage → Dict ℕ → List ExecutionUnit → Option String
  first_with_room stage load [] = none
  first_with_room stage load (worker ∷ workers) =
      if has_room stage load worker then some worker.node_id else first_with_room stage load workers

abbrev pub in_domain : String → ExecutionUnit → Bool
in_domain domain node = node.domain_id == domain

-- The node's own compute time for the stage's type, if it is known.
unfoldable pub compute_time : ExecutionUnit → String → ℕ
compute_time node stage_type = elim (node.compute_times) [
  | none ↦ 0
  | some times ↦ get_or stage_type 0 times
]

abbrev name_less : String → Option String → Bool
name_less node_id none = true
name_less node_id (some best) = str_less node_id best

-- lat_sum < best_latency, or equal with a smaller name
abbrev pub improves : ℕ → String → Cost → Option String → Bool
improves lat_sum node_id inf best_node = true
improves lat_sum node_id (fin best) best_node =
    ltb lat_sum best || (eqb lat_sum best && name_less node_id best_node)

-- The latencies to the placed predecessors, added to `lat_sum`.
unfoldable pub latency_sum :
    NetworkTopology → ExecutionUnit → Dict String → List String → ℕ → Result ℕ
latency_sum topology node placement [] lat_sum = ok lat_sum
latency_sum topology node placement (pred_id ∷ preds) lat_sum = elim (lookup pred_id placement) [
  | none ↦ latency_sum topology node placement preds lat_sum
  | some pred_node_id ↦ do
    l ← latency topology pred_node_id node.node_id
    latency_sum topology node placement preds (lat_sum + l)
]

module _ (dag : PipelineDag) (topology : NetworkTopology) (governance : GovernancePolicy) where
  unfoldable pub locality_pick : String → Stage → Dict String → Dict ℕ → Result (Option String)
  locality_pick local_domain stage placement load =
      ok (first_with_room governance stage load (filter (in_domain local_domain) topology.nodes))

  unfoldable pub locality_placement : String → Result (Dict String)
  locality_placement local_domain = elim (filter (in_domain local_domain) topology.nodes) [
    | [] ↦ raised Error.no_local_workers
    | _ ∷ _ ↦ place_in_order dag (locality_pick local_domain)
  ]

  unfoldable pub spillover_pick : String → Stage → Dict String → Dict ℕ → Result (Option String)
  spillover_pick local_domain stage placement load =
      ok
        (elim (first_with_room governance stage load
          (filter (in_domain local_domain) topology.nodes)) [
            | some worker ↦ some worker
            | none ↦
                first_with_room governance stage load
                  (filter (λ n. not (in_domain local_domain n)) topology.nodes)
          ])

  unfoldable pub spillover_placement : String → Result (Dict String)
  spillover_placement local_domain = place_in_order dag (spillover_pick local_domain)

  unfoldable pub fastest :
      Stage
      → Dict String
      → Dict ℕ
      → List ExecutionUnit
      → Option String
      → Cost
      → Result (Option String)
  fastest stage placement load [] best_node best_latency = ok best_node
  fastest stage placement load (node ∷ nodes) best_node best_latency =
      if not (has_room governance stage load node)
      then fastest stage placement load nodes best_node best_latency
      else do
        to_preds ← latency_sum topology node placement (dag.predecessors stage.id) 0
        let lat_sum = to_preds + compute_time node stage.stage_type
        fastest stage placement load nodes
            (if improves lat_sum node.node_id best_latency best_node
              then some node.node_id
              else best_node)
            (if improves lat_sum node.node_id best_latency best_node
              then fin lat_sum
              else best_latency)

  unfoldable pub latency_pick : Stage → Dict String → Dict ℕ → Result (Option String)
  latency_pick stage placement load = fastest stage placement load topology.nodes none inf

  unfoldable pub latency_greedy_placement : Result (Dict String)
  latency_greedy_placement = place_in_order dag latency_pick

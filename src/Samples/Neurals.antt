-- ===== src/Samples/Neurals.antt =====
-- The theorems on the neural broker (src/broker/neural_broker.py) and its solver at the samples.
use neural_pubsub_experiment.Prelude.{
  ◌≡◌, refl, String, true, false, some, [], ◌∷◌, str_dec, contains, arith, Dict, lookup, insert, ok,
}
use neural_pubsub_experiment.Dag.{
  empty_dag, append_at, index_at, get_stage, sinks, is_tree, is_tree_from,
}
use neural_pubsub_experiment.Dag.Kahn.{
  raise_at, lower_at, in_degrees, release, kahn, topological_sort,
}
use neural_pubsub_experiment.Placement.{
  node_map, get_node, latency, get_trust, slice_matches, is_node_feasible_simple,
}
use neural_pubsub_experiment.Placement.Check.{node_loads, sovereignty_violations, slice_violations}
use neural_pubsub_experiment.Placement.Traced.{IsOrdered}
use neural_pubsub_experiment.Placement.Dp.{
  nth, for_choices, keep_better, child_step, best_child, row_of, fill_preds, fill_cell, fill_row,
  fill_table, best_position, trace, trace_sink,
}
use neural_pubsub_experiment.Placement.Spread.{
  group_preds, best_alternative, move_to, move_sibling, move_siblings, spread_groups, spread_all,
  dp_placement, find_placement,
}
use neural_pubsub_experiment.Placement.Chosen.{find_placement-respects}
use neural_pubsub_experiment.Prelude.{ap, ◌⊎◌, remove}
use neural_pubsub_experiment.Prelude.Cost.{fin}
use neural_pubsub_experiment.Prelude.Pairs.{find, assign, assign_all}
use neural_pubsub_experiment.Funnel.{find_funnel_predecessor_stages}
use neural_pubsub_experiment.Broker.{WorkerInfo, PipelineState, new_pipeline}
use neural_pubsub_experiment.Sharded.{
  ShardTopology, as_topology, merge_topologies, merge_shards, merge_nodes,
}
use neural_pubsub_experiment.Sharded.Merged.{all_nodes}
use neural_pubsub_experiment.Sharded.Decide.{decide_globally, decide_globally-respects}
use neural_pubsub_experiment.Static.Recovery.{stages_to_replace, dead_stages_of}
use neural_pubsub_experiment.Neural.{
  NeuralBroker, new_neural, units, rebuild_topology, latency_pairs, pairs_with,
}
use neural_pubsub_experiment.Neural.Decision.{
  PlacementMode, DecisionContext, IsDecision, placed, solve_in, dispatch_placement_on,
  dispatch_placement_on-IsDecision,
}
use neural_pubsub_experiment.Neural.Recovery.{
  Replacement, replaced, evict, cherry_pick, place_anew, replace_stages_in,
}
use neural_pubsub_experiment.Neural.Gone.{replace_stages_in-evict}
use neural_pubsub_experiment.Samples.Shards.{west_shard, east_shard, between}
use neural_pubsub_experiment.Samples.{linked, linked-IsGraph, topology, governance, distinct, whole}

whole-IsOrdered : IsOrdered whole
whole-IsOrdered = record { top = refl; trans = λ a b c h k. ground (arith, h, k) }

tree_run : (p : Dict String) × (find_placement linked topology governance whole 1 1 1 ≡ ok p)
unfolding find_placement dp_placement spread_all spread_groups move_siblings move_sibling move_to
    best_alternative group_preds trace_sink trace best_position fill_table fill_row fill_cell
    fill_preds row_of best_child child_step keep_better for_choices nth is_tree is_tree_from
    topological_sort kahn release in_degrees raise_at lower_at append_at index_at get_stage sinks
    node_loads empty_dag is_node_feasible_simple get_trust latency get_node node_map slice_matches
    insert lookup contains str_dec
tree_run = (_, refl)

find_placement-respects_example :
    (sovereignty_violations linked topology governance tree_run.0 ≡ ok [])
    × (slice_violations linked topology tree_run.0 ≡ ok [])
find_placement-respects_example =
    find_placement-respects linked topology governance whole 1 1 1 linked-IsGraph distinct
      whole-IsOrdered tree_run.0 tree_run.1

abbrev as_coordinator : DecisionContext whole
as_coordinator = record {
  mode = PlacementMode.sharded_oracle;
  domain_id = "west";
  wan_cost = fin 3;
  load_aware = false;
  is_coordinator = true;
  peer_topologies = east_shard ∷ [];
  cross_latencies = between;
  alpha = 1;
  beta = 1;
  gamma = 1;
}

global_run :
    (p : Dict String) × (decide_globally whole 1 1 1 linked west_shard
        (east_shard ∷ [])
        between
        governance
      ≡ ok p)
unfolding decide_globally merge_topologies merge_shards merge_nodes find assign assign_all
    find_placement dp_placement spread_all spread_groups move_siblings move_sibling move_to
    best_alternative group_preds trace_sink trace best_position fill_table fill_row fill_cell
    fill_preds row_of best_child child_step keep_better for_choices nth is_tree is_tree_from
    topological_sort kahn release in_degrees raise_at lower_at append_at index_at get_stage sinks
    node_loads empty_dag is_node_feasible_simple get_trust latency get_node node_map slice_matches
    insert lookup contains str_dec
global_run = (_, refl)

decide_globally-respects_example :
    (m : ShardTopology) × (merge_topologies (west_shard ∷ east_shard ∷ []) between ≡ ok m)
    × (m.nodes ≡ all_nodes (west_shard ∷ east_shard ∷ []))
    × (sovereignty_violations linked (as_topology m) governance global_run.0 ≡ ok [])
    × (slice_violations linked (as_topology m) global_run.0 ≡ ok [])
decide_globally-respects_example =
    decide_globally-respects whole 1 1 1 whole-IsOrdered linked west_shard (east_shard ∷ []) between
      governance global_run.0 linked-IsGraph global_run.1

decided_run :
    dispatch_placement_on whole as_coordinator linked west_shard governance []
    ≡ ok (some global_run.0)
unfolding dispatch_placement_on solve_in
decided_run = ap placed global_run.1

dispatch_placement_on-IsDecision_example :
    IsDecision whole as_coordinator linked west_shard governance [] as_coordinator.mode global_run.0
unfolding contains
dispatch_placement_on-IsDecision_example =
    dispatch_placement_on-IsDecision whole as_coordinator linked west_shard governance []
      whole-IsOrdered linked-IsGraph (refl, tt) (λ e. cc) global_run.0 decided_run

abbrev worker_at : String → String → String → WorkerInfo
worker_at name domain slice = record {
  node_id = name;
  domain_id = domain;
  slice_id = slice;
  capacity = 10;
  url = "http://host";
  current_load = 0;
  bid_cost_ms = 0;
}

abbrev two_workers : NeuralBroker
two_workers = record new_neural {
  workers = ("w1", worker_at "w1" "west" "flat") ∷ ("e1", worker_at "e1" "east" "fast") ∷ [];
}

abbrev on_w1 : PipelineState
on_w1 = record (new_pipeline "p" "chain" linked (("a", "w1") ∷ ("b", "w1") ∷ [])) {
  completed_stages = "a" ∷ [];
}

abbrev after_w1 : PipelineState × Replacement
after_w1 = replace_stages_in whole governance 1 1 1 false "w1" on_w1 (evict "w1" two_workers)

replaced_run : after_w1.1 ≡ replaced
unfolding replace_stages_in place_anew cherry_pick stages_to_replace dead_stages_of evict
    rebuild_topology units latency_pairs pairs_with new_pipeline remove find assign find_placement
    dp_placement spread_all spread_groups move_siblings move_sibling move_to best_alternative
    group_preds trace_sink trace best_position fill_table fill_row fill_cell fill_preds row_of
    best_child child_step keep_better for_choices nth is_tree is_tree_from topological_sort kahn
    release in_degrees raise_at lower_at append_at index_at get_stage sinks node_loads empty_dag
    is_node_feasible_simple get_trust latency get_node node_map slice_matches insert lookup contains
    str_dec
replaced_run = refl

left_run : lookup "a" after_w1.0.placement ≡ some "w1"
unfolding replace_stages_in place_anew cherry_pick stages_to_replace dead_stages_of evict
    rebuild_topology units latency_pairs pairs_with new_pipeline remove find assign find_placement
    dp_placement spread_all spread_groups move_siblings move_sibling move_to best_alternative
    group_preds trace_sink trace best_position fill_table fill_row fill_cell fill_preds row_of
    best_child child_step keep_better for_choices nth is_tree is_tree_from topological_sort kahn
    release in_degrees raise_at lower_at append_at index_at get_stage sinks node_loads empty_dag
    is_node_feasible_simple get_trust latency get_node node_map slice_matches insert lookup contains
    str_dec
left_run = refl

replace_stages_in-evict_example :
    (contains "a" on_w1.completed_stages ≡ true)
    ⊎ ((false ≡ true) × (contains "a" (find_funnel_predecessor_stages on_w1.dag) ≡ true))
unfolding evict rebuild_topology units remove contains new_pipeline str_dec
replace_stages_in-evict_example =
    replace_stages_in-evict whole governance 1 1 1 whole-IsOrdered false "w1" on_w1 two_workers
      linked-IsGraph (refl, (refl, tt)) refl (refl, tt) replaced_run "a" left_run

-- ===== src/Samples.antt =====
-- A small graph, topology and broker on which the theorems and the definitions are run.
mod Graphs
mod Placements
mod Brokers
mod Federations
mod Shards
mod Recoveries
mod Neurals
mod Requests
use neural_pubsub_experiment.Prelude.{
  ℕ, ◌+◌, ◌-◌, ◌*◌, ◌/◌, ◌≤◌, ◌<◌, ◌≡◌, refl, ◌↔◌, String, Bool, true, false, ◌&&◌, ◌||◌, not,
  Option, none, some, List, [], ◌∷◌, if◌then◌else◌, ltb, str_dec, contains, arith, Dict, lookup,
  insert, remove, Unique, All, Result, ok,
}
use neural_pubsub_experiment.Prelude.Int.{ℤ, pos, negsuc}
use neural_pubsub_experiment.Prelude.Cost.{Cost, fin, inf}
use neural_pubsub_experiment.Dag.{
  Stage, Edge, PipelineDag, empty_dag, with_stage, with_edge, add_stage, add_edge, stage_ids,
  can_reach, append_at, index_at, get_stage, accepts_cost,
}
use neural_pubsub_experiment.Dag.Search.{scan, bfs, can_reach_from}
use neural_pubsub_experiment.Dag.Reach.{Reaches, can_reach_iff}
use neural_pubsub_experiment.Dag.Graph.{
  IsGraph, empty_dag-IsGraph, add_stage-IsGraph, add_edge-IsGraph,
}
use neural_pubsub_experiment.Dag.Kahn.{
  raise_at, lower_at, in_degrees, release, kahn, topological_sort,
}
use neural_pubsub_experiment.Dag.Order.{IsOrdered, topological_sort-IsOrdered}
use neural_pubsub_experiment.Placement.{
  ExecutionUnit, NetworkTopology, GovernancePolicy, one, node_map, get_node, latency, get_trust,
  slice_matches, is_node_feasible_simple, none_bad, edge_too_slow, pred_too_slow, succ_too_slow,
  pred_untrusted, succ_untrusted, is_node_feasible,
}
use neural_pubsub_experiment.Placement.Float.{Floats}
use neural_pubsub_experiment.Placement.Rounds.{place_all, place_in_order}
use neural_pubsub_experiment.Placement.Greedy.{
  pred_increments, node_cost, choose, greedy_pick, greedy_placement,
}
use neural_pubsub_experiment.Placement.Check.{check_feasibility}
use neural_pubsub_experiment.Placement.Fits.{node_ids}
use neural_pubsub_experiment.Placement.Sound.{greedy_placement-feasible}

abbrev pub stage_a : Stage
stage_a = record {
  id = "a";
  stage_type = "ingest";
  computational_demand = 2;
  output_data_rate = 1;
  slice_requirement = none;
  data_sovereignty_domain = none;
  metadata = none;
}

abbrev pub stage_b : Stage
stage_b = record {
  id = "b";
  stage_type = "infer";
  computational_demand = 3;
  output_data_rate = 1;
  slice_requirement = some "fast";
  data_sovereignty_domain = some "east";
  metadata = none;
}

abbrev pub link : Edge
link = record { source_id = "a"; target_id = "b"; latency_bound = 10 }

abbrev pub only_a : PipelineDag
only_a = with_stage (empty_dag (some 90)) stage_a

abbrev pub unlinked : PipelineDag
unlinked = with_stage only_a stage_b

abbrev pub linked : PipelineDag
linked = with_edge unlinked link

pub a_accepted : add_stage (empty_dag (some 90)) stage_a ≡ ok only_a
unfolding add_stage empty_dag contains
a_accepted = refl

pub b_accepted : add_stage only_a stage_b ≡ ok unlinked
unfolding add_stage empty_dag contains insert str_dec
b_accepted = refl

pub unlinked-IsGraph : IsGraph unlinked
unlinked-IsGraph =
    add_stage-IsGraph (add_stage-IsGraph (empty_dag-IsGraph (some 90)) stage_a only_a a_accepted)
      stage_b unlinked b_accepted

pub link_accepted : add_edge unlinked link ≡ ok linked
unfolding add_edge empty_dag contains insert str_dec can_reach can_reach_from bfs scan
link_accepted = refl

pub linked-IsGraph : IsGraph linked
linked-IsGraph = add_edge-IsGraph unlinked-IsGraph link linked link_accepted

abbrev pub west : ExecutionUnit
west = record {
  node_id = "west1";
  domain_id = "west";
  slice_id = "flat";
  capacity = 10;
  current_load = 1;
  compute_times = none;
}

abbrev pub east : ExecutionUnit
east = record {
  node_id = "east1";
  domain_id = "east";
  slice_id = "fast";
  capacity = 8;
  current_load = 0;
  compute_times = none;
}

abbrev pub topology : NetworkTopology
topology = record { nodes = west ∷ east ∷ []; latency_matrix = λ a b. some 5 }

abbrev pub governance : GovernancePolicy
governance = record { local_stage_types = "infer" ∷ []; trust_levels = λ a b. some one }

pub distinct : Unique (node_ids topology.nodes)
unfolding contains str_dec
distinct = (refl, (refl, tt))

-- Sums that need no rounding.
abbrev shifted_exactly : ℕ → ℤ → ℕ
shifted_exactly load (pos d) = load + d
shifted_exactly load (negsuc d) = load - (d + 1)

-- Floats that are whole numbers.
abbrev pub whole : Floats
whole = record {
  Float = ℕ;
  of_ℕ = λ n. n;
  plus = λ a b. a + b;
  times = λ a b. a * b;
  over = λ a b. a / b;
  maximum = λ a b. if ltb a b then b else a;
  tiny = 1;
  infinite = 1_000_000;
  less = ltb;
  shifted = shifted_exactly;
}

abbrev pub spread : Dict String
spread = ("a", "west1") ∷ ("b", "east1") ∷ []

abbrev pub together : Dict String
together = ("a", "east1") ∷ ("b", "east1") ∷ []

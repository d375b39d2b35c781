-- ===== src/Samples/Graphs.antt =====
-- The theorems on graphs (src/pipeline/dag.py) at the samples.
use neural_pubsub_experiment.Prelude.{
  ◌≡◌, refl, ◌↔◌, String, true, List, [], ◌∷◌, str_dec, contains, insert, Unique, ok,
}
use neural_pubsub_experiment.Dag.{empty_dag, stage_ids, can_reach, append_at}
use neural_pubsub_experiment.Dag.{is_tree, sinks}
use neural_pubsub_experiment.Dag.Tree.{is_tree_lem}
use neural_pubsub_experiment.Prelude.{all, leb, length, eqb, ◌&&◌}
use neural_pubsub_experiment.Dag.Reach.{Reaches, can_reach_iff}
use neural_pubsub_experiment.Dag.Graph.{IsGraph, add_edge-IsGraph}
use neural_pubsub_experiment.Dag.Kahn.{
  raise_at, lower_at, in_degrees, release, kahn, topological_sort,
}
use neural_pubsub_experiment.Dag.Order.{IsOrdered, topological_sort-IsOrdered}
use neural_pubsub_experiment.Samples.{link, linked, link_accepted, unlinked-IsGraph, linked-IsGraph}

can_reach_iff_example : (can_reach linked "a" "b" ≡ true) ↔ Reaches linked.successors "a" "b"
can_reach_iff_example = can_reach_iff linked linked-IsGraph.known_target "a" "b"

add_edge-IsGraph_example : IsGraph linked
add_edge-IsGraph_example = add_edge-IsGraph unlinked-IsGraph link linked link_accepted

topological_sort-IsOrdered_example :
    (order : List String) × (topological_sort linked ≡ ok order)
    × Unique order
    × ((x : String) → contains x order ≡ contains x (stage_ids linked))
    × IsOrdered linked.predecessors [] order
topological_sort-IsOrdered_example = topological_sort-IsOrdered linked linked-IsGraph

sorted_run : topological_sort linked ≡ ok ("a" ∷ "b" ∷ [])
unfolding topological_sort kahn release in_degrees raise_at lower_at append_at empty_dag insert
    str_dec
sorted_run = refl

is_tree_lem_example : is_tree linked ≡ (
    all (λ sid. leb (length (linked.successors sid)) 1) (stage_ids linked)
    && eqb (length (sinks linked)) 1)
is_tree_lem_example = is_tree_lem linked

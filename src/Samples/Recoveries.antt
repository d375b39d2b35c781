-- ===== src/Samples/Recoveries.antt =====
-- The theorems on the static broker (src/broker/static_broker.py) at a broker with two workers.
use neural_pubsub_experiment.Prelude.{
  ℕ, Bool, ◌≡◌, refl, ◌↔◌, ◌⊎◌, String, true, false, none, some, List, [], ◌∷◌, contains, lookup,
  insert, remove, Dict, Error, ok, raised, str_dec,
}
use neural_pubsub_experiment.Prelude.Sorts.{Among, first, later, sort_with, sort_onto, insert_with}
use neural_pubsub_experiment.Dag.{Stage, get_stage, empty_dag, append_at, index_at}
use neural_pubsub_experiment.Dag.Kahn.{
  raise_at, lower_at, in_degrees, release, kahn, topological_sort,
}
use neural_pubsub_experiment.Placement.{slice_matches}
use neural_pubsub_experiment.Funnel.{find_funnel_predecessor_stages}
use neural_pubsub_experiment.Broker.{WorkerInfo, PipelineState, new_pipeline}
use neural_pubsub_experiment.Static.{
  PlacementStrategy, StaticBroker, matching, eligible_workers, rebuild_cycle, join, leave,
  start_broker, next_of, pick_turn, pick_worker, place_stages, compute_placement,
}
use neural_pubsub_experiment.Static.Eligible.{
  IsEligible, IsCurrent, ChoosesMember, rebuild_cycle-IsCurrent,
}
use neural_pubsub_experiment.Static.Placed.{
  Event, joined, step, run, run-compute_placement, run-IsCurrent, start_broker-IsCurrent,
}
use neural_pubsub_experiment.Static.Sorted.{IsSorted, named, serving}
use neural_pubsub_experiment.Static.Turns.{picks, AtTurn, picks-rebuild_cycle, pick_worker-raised}
use neural_pubsub_experiment.Static.Recovery.{
  dead_stages_of, stages_to_replace, replace_stages, replace_in, count_probes,
}
use neural_pubsub_experiment.Static.Replaced.{replace_in-leave}
use neural_pubsub_experiment.Static.Capacity.{
  cluster_for, spare_in, build_capacity_summary, build_capacity_summary_offers,
}
use neural_pubsub_experiment.Static.Counted.{nothing_yet, FailsTooOften, count_probes_iff}
use neural_pubsub_experiment.Samples.{linked}

-- A generator that gives the first item.
abbrev first_of : ℕ → List String → String × ℕ
first_of g [] = ("", g)
first_of g (w ∷ ws) = (w, g)

first_of_member : ChoosesMember first_of
first_of_member g w ws = first refl

abbrev worker_named : String → String → WorkerInfo
worker_named name slice = record {
  node_id = name;
  domain_id = "west";
  slice_id = slice;
  capacity = 10;
  url = "http://host";
  current_load = 0;
  bid_cost_ms = 0;
}

abbrev two_joined : List (Event first_of)
two_joined = joined (worker_named "w1" "flat") ∷ joined (worker_named "w2" "fast") ∷ []

abbrev static : StaticBroker ℕ
static = run first_of two_joined (start_broker PlacementStrategy.round_robin 0)

abbrev by_turns : Dict String
by_turns = ("a", "w1") ∷ ("b", "w1") ∷ []

placed_run : (compute_placement first_of linked static).0 ≡ ok by_turns
unfolding compute_placement run step join rebuild_cycle start_broker topological_sort kahn release
    lower_at raise_at in_degrees place_stages get_stage pick_worker pick_turn next_of
    eligible_workers matching sort_with sort_onto insert_with slice_matches empty_dag append_at
    index_at insert lookup contains str_dec
placed_run = refl

run-compute_placement_example :
    (stage : Stage) × (get_stage linked "b" ≡ ok stage)
    × IsEligible stage.slice_requirement static.workers "w1"
unfolding lookup str_dec
run-compute_placement_example =
    run-compute_placement first_of first_of_member PlacementStrategy.round_robin 0 two_joined linked
      by_turns placed_run "b" "w1" refl

in_turns : static.placement ≡ PlacementStrategy.round_robin
unfolding run step join rebuild_cycle start_broker
in_turns = refl

both : eligible_workers (some "fast") static.workers ≡ "w1" ∷ "w2" ∷ []
unfolding run step join rebuild_cycle start_broker eligible_workers matching sort_with sort_onto
    insert_with slice_matches insert str_dec
both = refl

picks-rebuild_cycle_example :
    ((b' : StaticBroker ℕ) × (picks first_of 2 (some "fast") (rebuild_cycle static)
        ≡ ok ("w1" ∷ "w2" ∷ [], b'))
      × AtTurn first_of (some "fast") ("w1" ∷ "w2" ∷ []) b')
    × IsSorted ("w1" ∷ "w2" ∷ [])
    × ((wid : String) → named wid ("w1" ∷ "w2" ∷ []) ≡ serving wid (some "fast") static.workers)
picks-rebuild_cycle_example =
    picks-rebuild_cycle first_of (some "fast") "w1" ("w2" ∷ []) static in_turns both

pick_worker-raised_example :
    ((e : Error) × (pick_worker first_of (some "slow") (rebuild_cycle static) ≡ raised e))
    ↔ ((wid : String) → ¬ IsEligible (some "slow") (rebuild_cycle static).workers wid)
pick_worker-raised_example =
    pick_worker-raised first_of first_of_member (some "slow") (rebuild_cycle static)
      (rebuild_cycle-IsCurrent static)

static-IsCurrent : IsCurrent static
static-IsCurrent =
    run-IsCurrent first_of first_of_member two_joined (start_broker PlacementStrategy.round_robin 0)
      (start_broker-IsCurrent first_of PlacementStrategy.round_robin 0)

abbrev running : PipelineState
running = record (new_pipeline "p" "chain" linked by_turns) { completed_stages = "a" ∷ [] }

replaced_run : (replace_in first_of false "w1" running (leave "w1" static)).error ≡ none
unfolding new_pipeline leave run step join rebuild_cycle start_broker replace_in stages_to_replace
    dead_stages_of replace_stages get_stage pick_worker pick_turn next_of eligible_workers matching
    sort_with sort_onto insert_with slice_matches empty_dag append_at index_at insert remove lookup
    contains str_dec
replaced_run = refl

left_run :
    lookup "a" (replace_in first_of false "w1" running (leave "w1" static)).ps.placement ≡ some "w1"
unfolding new_pipeline leave run step join rebuild_cycle start_broker replace_in stages_to_replace
    dead_stages_of replace_stages get_stage pick_worker pick_turn next_of eligible_workers matching
    sort_with sort_onto insert_with slice_matches empty_dag append_at index_at insert remove lookup
    contains str_dec
left_run = refl

replace_in-leave_example :
    (contains "a" running.completed_stages ≡ true)
    ⊎ ((false ≡ true) × (contains "a" (find_funnel_predecessor_stages running.dag) ≡ true))
replace_in-leave_example =
    replace_in-leave first_of first_of_member false "w1" running static static-IsCurrent
      replaced_run "a" left_run

abbrev ill_results : List (String × Bool)
ill_results = ("w1", false) ∷ ("w2", true) ∷ ("w1", false) ∷ []

count_probes_iff_example :
    (contains "w1" (count_probes 2 ill_results nothing_yet).dead_workers ≡ true)
    ↔ FailsTooOften 2 "w1" 0 ill_results
count_probes_iff_example = count_probes_iff 2 "w1" ill_results

abbrev no_vector : ℕ
no_vector = 0

abbrev offering : Dict WorkerInfo
offering =
    ("w1", worker_named "w1" "flat")
    ∷ ("w2", worker_named "w2" "fast")
    ∷ ("w3", worker_named "w3" "flat")
    ∷ []

build_capacity_summary_offers_example :
    Among
      (cluster_for no_vector "flat" (spare_in "flat" offering))
      (build_capacity_summary no_vector "west" 5 offering).clusters
build_capacity_summary_offers_example =
    build_capacity_summary_offers no_vector "west" 5 offering "w3" (worker_named "w3" "flat")
      (later (later (first refl)))

-- ===== src/Samples/Placements.antt =====
-- The theorems on placements and prices (src/broker/placement.py and market.py) at the samples.
use neural_pubsub_experiment.Prelude.{
  ℕ, ◌≤◌, ◌<◌, ◌≡◌, refl, String, true, some, List, [], ◌∷◌, str_dec, contains, arith, Dict, lookup,
  insert, All, ok,
}
use neural_pubsub_experiment.Prelude.Cost.{Cost, fin}
use neural_pubsub_experiment.Dag.{
  empty_dag, stage_ids, append_at, index_at, get_stage, accepts_cost,
}
use neural_pubsub_experiment.Dag.Kahn.{
  raise_at, lower_at, in_degrees, release, kahn, topological_sort,
}
use neural_pubsub_experiment.Placement.{
  node_map, get_node, latency, get_trust, slice_matches, is_node_feasible_simple, none_bad,
  edge_too_slow, pred_too_slow, succ_too_slow, pred_untrusted, succ_untrusted, is_node_feasible,
}
use neural_pubsub_experiment.Placement.Rounds.{place_all, place_in_order}
use neural_pubsub_experiment.Placement.Greedy.{
  pred_increments, node_cost, choose, greedy_pick, greedy_placement,
}
use neural_pubsub_experiment.Placement.Check.{check_feasibility}
use neural_pubsub_experiment.Placement.Sound.{greedy_placement-feasible}
use neural_pubsub_experiment.Samples.{
  linked, linked-IsGraph, topology, governance, distinct, whole, spread, together,
}
use neural_pubsub_experiment.Placement.Check.{node_loads, capacity_violations}
use neural_pubsub_experiment.Placement.Baselines.{
  first_with_room, compute_time, latency_sum, locality_pick, locality_placement, spillover_pick,
  spillover_placement, fastest, latency_pick, latency_greedy_placement,
}
use neural_pubsub_experiment.Placement.Heuristics.{Respects, AllLocal, locality_placement-AllLocal}
use neural_pubsub_experiment.Placement.Costs.{Untimed}
use neural_pubsub_experiment.Placement.MarketMode.{
  least_loaded, choose_worker, best_remote, worker_in, choose_domain, place_stage, place_stages,
  market_mode_placement,
}
use neural_pubsub_experiment.Placement.MarketSound.{market_mode_placement-within}
use neural_pubsub_experiment.Prelude.Sorts.{sort_with, sort_onto, insert_with}
use neural_pubsub_experiment.Market.{
  WorkerBid, sort_bids, cost_at, clearing_price, should_trade_cross_domain,
}
use neural_pubsub_experiment.Market.Marginal.{at_most, below, clearing_price-marginal}
use neural_pubsub_experiment.Prelude.{keys, values}

single : All (λ e. linked.edge_index e.source_id e.target_id ≡ some e) linked.edges
unfolding empty_dag index_at str_dec
single = (refl, tt)

greedy_run : greedy_placement whole linked topology governance 1 1 1 ≡ ok spread
unfolding greedy_placement place_in_order place_all greedy_pick choose node_cost pred_increments
    empty_dag is_node_feasible is_node_feasible_simple none_bad edge_too_slow pred_too_slow
    succ_too_slow pred_untrusted succ_untrusted get_trust latency get_node node_map slice_matches
    insert lookup contains str_dec topological_sort kahn release in_degrees raise_at lower_at
    append_at index_at get_stage
greedy_run = refl

greedy_placement-feasible_example :
    check_feasibility spread linked topology governance ≡ ok (true, [])
greedy_placement-feasible_example =
    greedy_placement-feasible whole linked topology governance 1 1 1 linked-IsGraph distinct single
      spread greedy_run

latency_run : latency_greedy_placement linked topology governance ≡ ok together
unfolding latency_greedy_placement latency_pick fastest latency_sum compute_time place_in_order
    place_all empty_dag is_node_feasible_simple latency slice_matches insert lookup contains str_dec
    topological_sort kahn release in_degrees raise_at lower_at append_at get_stage
latency_run = refl

spillover_run : spillover_placement linked topology governance "west" ≡ ok spread
unfolding spillover_placement spillover_pick first_with_room place_in_order place_all empty_dag
    is_node_feasible_simple slice_matches insert lookup contains str_dec topological_sort kahn
    release in_degrees raise_at lower_at append_at get_stage
spillover_run = refl

locality_run : locality_placement linked topology governance "east" ≡ ok together
unfolding locality_placement locality_pick first_with_room place_in_order place_all empty_dag
    is_node_feasible_simple slice_matches insert lookup contains str_dec topological_sort kahn
    release in_degrees raise_at lower_at append_at get_stage
locality_run = refl

locality_placement-AllLocal_example :
    Respects linked topology governance together
    × AllLocal linked topology governance linked-IsGraph distinct "east" together
locality_placement-AllLocal_example =
    locality_placement-AllLocal linked topology governance linked-IsGraph distinct "east" together
      locality_run

untimed : Untimed whole linked topology
unfolding get_node node_map insert lookup
untimed k node h = elim (str_dec "west1" k) [ yes w ↦ ground arith | no n ↦ ground arith ]

abbrev bid : ℕ → WorkerBid
bid cost = record {
  worker_id = "w";
  domain_id = "west";
  stage_type = "infer";
  compute_ms = 7;
  cost_per_stage = cost;
}

abbrev bids : List WorkerBid
bids = bid 9 ∷ bid 4 ∷ bid 6 ∷ []

price_run : clearing_price 2 bids ≡ 6
unfolding clearing_price sort_bids sort_with sort_onto insert_with cost_at
price_run = refl

clearing_price-marginal_example :
    (2 ≤ at_most (clearing_price 2 bids) bids) × (below (clearing_price 2 bids) bids < 2)
clearing_price-marginal_example = clearing_price-marginal 2 bids (omega arith) (omega arith)

abbrev prices : Dict (Dict ℕ)
prices =
    ("west", ("ingest", 20) ∷ ("infer", 60) ∷ [])
    ∷ ("east", ("ingest", 18) ∷ ("infer", 40) ∷ [])
    ∷ []

abbrev Accepted : Dict String → Type 0
Accepted p =
    (load : Dict ℕ) × (total : Cost) × (place_stages topology prices (fin 5) "west" true
        (values linked.stages) [] [] (fin 0)
      ≡ some (p, load, total))
    × (accepts_cost linked total ≡ true)
    × (node_loads linked p [] ≡ ok load)
    × (capacity_violations topology load ≡ ok [])
    × (keys p ≡ stage_ids linked)

market_run : market_mode_placement topology prices (fin 5) "west" true linked ≡ some spread
unfolding market_mode_placement place_stages place_stage worker_in choose_domain best_remote
    choose_worker least_loaded should_trade_cross_domain accepts_cost empty_dag insert lookup
    str_dec
market_run = refl

market_mode_placement-within_example : Accepted spread
market_mode_placement-within_example =
    market_mode_placement-within linked topology prices (fin 5) "west" true distinct linked-IsGraph
      spread market_run

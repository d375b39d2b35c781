-- ===== src/Placement/MarketMode.antt =====
-- src/broker/placement.py, `market_mode_placement`. The source groups the workers by domain first; here
-- they are filtered where they are used. The governance argument is not used by the source.
use neural_pubsub_experiment.Prelude.{
  ℕ, ◌+◌, String, Bool, false, Option, none, some, List, [], ◌∷◌, ◌==◌, ltb, leb, filter,
  if◌then◌else◌, Dict, lookup, insert, get_or, values,
}
use neural_pubsub_experiment.Prelude.Cost.{Cost, fin, inf, add_cost, sub_cost, lt_cost}
use neural_pubsub_experiment.Dag.{Stage, PipelineDag, accepts_cost}
use neural_pubsub_experiment.Market.{should_trade_cross_domain}
use neural_pubsub_experiment.Placement.{ExecutionUnit, NetworkTopology}
use neural_pubsub_experiment.Placement.Rounds.{book}
use neural_pubsub_experiment.Placement.Baselines.{in_domain}

-- _effective_current_load
abbrev pub effective_load : Dict ℕ → ExecutionUnit → ℕ
effective_load additional worker = worker.current_load + get_or worker.node_id 0 additional

-- _effective_residual(worker) >= demand
abbrev pub has_residual : Dict ℕ → ℕ → ExecutionUnit → Bool
has_residual additional demand worker =
    leb (demand + effective_load additional worker) worker.capacity

-- min(candidates, key=_effective_current_load): the first of the least
unfoldable pub least_loaded : Dict ℕ → ExecutionUnit → List ExecutionUnit → ExecutionUnit
least_loaded additional best [] = best
least_loaded additional best (w ∷ ws) =
    least_loaded additional
      (if ltb (effective_load additional w) (effective_load additional best) then w else best) ws

unfoldable pub choose_worker : Bool → Dict ℕ → List ExecutionUnit → Option ExecutionUnit
choose_worker load_aware additional [] = none
choose_worker load_aware additional (w ∷ ws) =
    some (if load_aware then least_loaded additional w ws else w)

-- prices.get(stage_type, inf)
abbrev pub price_in : String → Dict ℕ → Cost
price_in stage_type prices = elim (lookup stage_type prices) [ none ↦ inf | some p ↦ fin p ]

-- The loop over the prices, with the best remote domain and its price so far.
unfoldable pub best_remote :
    String → String → Cost → Cost → Dict (Dict ℕ) → Option String → Cost → Option String × Cost
best_remote local_domain stage_type local_price wan_cost [] best_domain best_price =
    (best_domain, best_price)
best_remote local_domain stage_type local_price wan_cost ((domain_id, prices) ∷ rest) best_domain
      best_price =
    let remote_price = price_in stage_type prices in
    let better =
      if domain_id == local_domain
      then false
      else if should_trade_cross_domain local_price remote_price wan_cost
      then lt_cost (add_cost remote_price wan_cost) (add_cost best_price wan_cost)
      else false in
    best_remote local_domain stage_type local_price wan_cost rest
      (if better then some domain_id else best_domain) (if better then remote_price else best_price)

module _ (topology : NetworkTopology) (clearing_prices : Dict (Dict ℕ)) (wan_cost : Cost)
    (local_domain : String) (load_aware : Bool) where
  -- The worker of a domain for a demand, net of what is booked.
  unfoldable pub worker_in : String → ℕ → Dict ℕ → Option ExecutionUnit
  worker_in domain demand additional =
      choose_worker load_aware additional
        (filter (has_residual additional demand) (filter (in_domain domain) topology.nodes))

  abbrev pub local_price : String → Cost
  local_price stage_type = price_in stage_type (get_or local_domain [] clearing_prices)

  -- The domain chosen for a type of stage, and what a stage costs there.
  unfoldable pub choose_domain : String → String × Cost
  choose_domain stage_type =
      let best =
        best_remote local_domain stage_type (local_price stage_type) wan_cost clearing_prices none
          inf in
      elim (best.0) [
        | some domain ↦ (domain, add_cost best.1 wan_cost)
        | none ↦ (local_domain, local_price stage_type)
      ]

  -- The worker of a stage and the total cost with it: the chosen domain first, then the local one.
  unfoldable pub place_stage : Stage → Dict ℕ → Cost → Option (ExecutionUnit × Cost)
  place_stage stage additional total_cost =
      let chosen = choose_domain stage.stage_type in
      let total = add_cost total_cost chosen.1 in
      elim (worker_in chosen.0 stage.computational_demand additional) [
        | some worker ↦ some (worker, total)
        | none ↦ elim (worker_in local_domain stage.computational_demand additional) [
          | some worker ↦
              some (worker, add_cost (sub_cost total chosen.1) (local_price stage.stage_type))
          | none ↦ none
        ]
      ]

  unfoldable pub place_stages :
      List Stage → Dict String → Dict ℕ → Cost → Option (Dict String × Dict ℕ × Cost)
  place_stages [] placement additional total_cost = some (placement, additional, total_cost)
  place_stages (stage ∷ stages) placement additional total_cost =
      elim (place_stage stage additional total_cost) [
        | none ↦ none
        | some (worker, total) ↦
            place_stages stages (insert stage.id worker.node_id placement)
              (book worker.node_id stage.computational_demand additional) total
      ]

  unfoldable pub market_mode_placement : PipelineDag → Option (Dict String)
  market_mode_placement dag = elim (place_stages (values dag.stages) [] [] (fin 0)) [
    | none ↦ none
    | some (placement, additional, total_cost) ↦
        if accepts_cost dag total_cost then some placement else none
  ]

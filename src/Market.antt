-- ===== src/Market.antt =====
-- src/broker/market.py: bids, clearing prices and the rule for trade across domains. Costs are natural
-- numbers of one unit, prices that may be missing are `inf`, and the demand is a count.
pub mod Marginal
use Prim.Native.Nat.{Ordering, compare}
use neural_pubsub_experiment.Prelude.{
  ℕ, zero, suc, ◌-◌, String, Bool, true, false, Option, none, some, List, [], ◌∷◌, ◌++◌, ◌==◌, ◌&&◌,
  ltb, leb, eqb, if◌then◌else◌, length, Dict, insert, get_or,
}
use neural_pubsub_experiment.Prelude.Sorts.{sort_by}
use neural_pubsub_experiment.Prelude.Cost.{Cost, fin, inf, add_cost, lt_cost}

pub record WorkerBid : Type 0 where
  pub worker_id : String
  pub domain_id : String
  pub stage_type : String
  pub compute_ms : ℕ
  pub cost_per_stage : ℕ

-- One entry of `grouped`, whose keys are pairs.
pub record Group : Type 0 where
  pub group_domain : String
  pub group_type : String
  pub domain_bids : List WorkerBid

pub record PriceSignal : Type 0 where
  pub signal_domain : String
  pub prices : Dict ℕ

unfoldable pub from_clearing_prices : Dict (Dict ℕ) → String → PriceSignal
from_clearing_prices clearing domain_id = record {
  signal_domain = domain_id;
  prices = get_or domain_id [] clearing;
}

-- grouped.setdefault(key, []).append(bid)
unfoldable pub add_bid : WorkerBid → List Group → List Group
add_bid bid [] =
    record { group_domain = bid.domain_id; group_type = bid.stage_type; domain_bids = bid ∷ [] }
    ∷ []
add_bid bid (g ∷ gs) =
    if g.group_domain == bid.domain_id && g.group_type == bid.stage_type
    then record g { domain_bids = g.domain_bids ++ bid ∷ [] } ∷ gs
    else g ∷ add_bid bid gs

unfoldable pub group_bids : List WorkerBid → List Group → List Group
group_bids [] grouped = grouped
group_bids (bid ∷ bids) grouped = group_bids bids (add_bid bid grouped)

-- domain_bids.sort(key=lambda b: b.cost_per_stage)
unfoldable pub sort_bids : List WorkerBid → List WorkerBid
sort_bids domain_bids = sort_by (λ b. b.cost_per_stage) domain_bids

-- The cost at an index; a group is never empty, so that an index in use is in range.
unfoldable pub cost_at : ℕ → List WorkerBid → ℕ
cost_at i [] = 0
cost_at zero (b ∷ bs) = b.cost_per_stage
cost_at (suc i) (b ∷ bs) = cost_at i bs

abbrev pub minimum : ℕ → ℕ → ℕ
minimum a b = if leb a b then a else b

-- The price of one group.
unfoldable pub clearing_price : ℕ → List WorkerBid → ℕ
clearing_price stage_demand domain_bids =
    if eqb stage_demand 0
    then 0
    else cost_at (minimum stage_demand (length domain_bids) - 1) (sort_bids domain_bids)

-- result.setdefault(domain_id, {})[stage_type] = price
abbrev pub set_price : String → String → ℕ → Dict (Dict ℕ) → Dict (Dict ℕ)
set_price domain_id stage_type price result =
    insert domain_id (insert stage_type price (get_or domain_id [] result)) result

unfoldable pub clear_groups : Dict ℕ → List Group → Dict (Dict ℕ) → Dict (Dict ℕ)
clear_groups demand [] result = result
clear_groups demand (g ∷ gs) result = clear_groups demand gs (
    set_price g.group_domain g.group_type
      (clearing_price (get_or g.group_type 0 demand) g.domain_bids) result)

unfoldable pub compute_clearing_prices : List WorkerBid → Dict ℕ → Dict (Dict ℕ)
compute_clearing_prices [] demand = []
compute_clearing_prices (bid ∷ bids) demand = clear_groups demand (group_bids (bid ∷ bids) []) []

unfoldable pub should_trade_cross_domain : Cost → Cost → Cost → Bool
should_trade_cross_domain local_price remote_price wan_cost =
    lt_cost (add_cost remote_price wan_cost) local_price

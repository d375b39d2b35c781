-- ===== src/Neural/Decision.antt =====
-- src/broker/neural_broker.py, `_dispatch_placement_on`: each mode has its solver. In market mode the
-- prices are an argument: they are the clearing prices of the workers' bids and those of the peers.
use neural_pubsub_experiment.Prelude.{
  ℕ, ◌≡◌, ◌≢◌, inl, inr, refl, sym, subst, Bool-cases, true, false, ◌∷◌, String, Bool, Option, some,
  List, [], if◌then◌else◌, Unique, Dict, Result, ok, raised,
}
use neural_pubsub_experiment.Prelude.Cost.{Cost}
use neural_pubsub_experiment.Prelude.Pairs.{Pairs}
use neural_pubsub_experiment.Dag.{PipelineDag}
use neural_pubsub_experiment.Dag.Graph.{IsGraph}
use neural_pubsub_experiment.Placement.{GovernancePolicy}
use neural_pubsub_experiment.Placement.Float.{Floats}
use neural_pubsub_experiment.Placement.Baselines.{
  locality_placement, latency_greedy_placement, spillover_placement,
}
use neural_pubsub_experiment.Placement.Check.{sovereignty_violations, slice_violations}
use neural_pubsub_experiment.Placement.Fits.{node_ids}
use neural_pubsub_experiment.Placement.Heuristics.{
  Respects, latency_greedy_placement-Respects, spillover_placement-Respects,
  locality_placement-AllLocal,
}
use neural_pubsub_experiment.Placement.MarketMode.{market_mode_placement}
use neural_pubsub_experiment.Placement.Traced.{IsOrdered}
use neural_pubsub_experiment.Placement.Spread.{find_placement}
use neural_pubsub_experiment.Placement.Chosen.{find_placement-respects}
use neural_pubsub_experiment.Sharded.{ShardTopology, as_topology, merge_topologies}
use neural_pubsub_experiment.Sharded.Decide.{decide_globally, decide_globally-respects}

pub data PlacementMode : Type 0 where
  market sharded_oracle locality latency_first spillover neural : PlacementMode

-- What the decision reads of the configuration and of the broker.
pub record DecisionContext (F : Floats) : Type 0 where
  pub mode : PlacementMode
  pub domain_id : String
  pub wan_cost : Cost
  pub load_aware : Bool
  pub is_coordinator : Bool
  pub peer_topologies : List ShardTopology
  pub cross_latencies : Pairs ℕ
  pub alpha : F.Float
  pub beta : F.Float
  pub gamma : F.Float

-- A solver that always answers or raises.
abbrev pub placed : Result (Dict String) → Result (Option (Dict String))
placed (raised e) = raised e
placed (ok p) = ok (some p)

module _ (F : Floats) (ctx : DecisionContext F) (dag : PipelineDag) (local : ShardTopology)
    (governance : GovernancePolicy) (prices : Dict (Dict ℕ)) where
  abbrev pub solve_local : Result (Dict String)
  solve_local = find_placement dag (as_topology local) governance F ctx.alpha ctx.beta ctx.gamma

  unfoldable pub solve_in : PlacementMode → Result (Option (Dict String))
  solve_in PlacementMode.market = ok (
      market_mode_placement (as_topology local) prices ctx.wan_cost ctx.domain_id ctx.load_aware
        dag)
  solve_in PlacementMode.sharded_oracle =
      if ctx.is_coordinator
      then placed (
          decide_globally F ctx.alpha ctx.beta ctx.gamma dag local ctx.peer_topologies
            ctx.cross_latencies governance)
      else placed solve_local
  solve_in PlacementMode.locality =
      placed (locality_placement dag (as_topology local) governance ctx.domain_id)
  solve_in PlacementMode.latency_first =
      placed (latency_greedy_placement dag (as_topology local) governance)
  solve_in PlacementMode.spillover =
      placed (spillover_placement dag (as_topology local) governance ctx.domain_id)
  solve_in PlacementMode.neural = placed solve_local

  unfoldable pub dispatch_placement_on : Result (Option (Dict String))
  dispatch_placement_on = solve_in ctx.mode

  placed-injective :
      (r : Result (Dict String)) (p : Dict String) → placed r ≡ ok (some p) → r ≡ ok p
  placed-injective (raised e) p h = cc
  placed-injective (ok q) p h = cc

  -- A coordinator of the sharded oracle decides on all shards, every other broker on its own.
  abbrev pub is_global : PlacementMode → Bool
  is_global PlacementMode.sharded_oracle = ctx.is_coordinator
  is_global _ = false

  abbrev pub IsBasis : Bool → ShardTopology → Type 0
  IsBasis true topology =
      merge_topologies (local ∷ ctx.peer_topologies) ctx.cross_latencies ≡ ok topology
  IsBasis false topology = topology ≡ local

  -- The topology that a decision is about, and what the placement keeps on it.
  pub record IsDecision (mode : PlacementMode) (p : Dict String) : Type 0 where
    pub topology : ShardTopology
    pub about : IsBasis (is_global mode) topology
    pub sovereignty : sovereignty_violations dag (as_topology topology) governance p ≡ ok []
    pub slices : slice_violations dag (as_topology topology) p ≡ ok []

  module _ (ord : IsOrdered F) (g : IsGraph dag) (distinct : Unique (node_ids local.nodes)) where
    local-IsDecision :
        (mode : PlacementMode) (p : Dict String)
        → is_global mode ≡ false
        → (sovereignty_violations dag (as_topology local) governance p ≡ ok [])
          × (slice_violations dag (as_topology local) p ≡ ok [])
        → IsDecision mode p
    local-IsDecision mode p own (so, sl) = record {
      topology = local;
      about = subst (λ g. IsBasis g local) (sym own) refl;
      sovereignty = so;
      slices = sl;
    }

    respectful :
        (mode : PlacementMode) (p : Dict String)
        → is_global mode ≡ false
        → Respects dag (as_topology local) governance p
        → IsDecision mode p
    respectful mode p own (load, loads, room, so, sl, all) = local-IsDecision mode p own (so, sl)

    solve_local-IsDecision :
        (mode : PlacementMode) (p : Dict String)
        → is_global mode ≡ false
        → placed solve_local ≡ ok (some p)
        → IsDecision mode p
    solve_local-IsDecision mode p own h = local-IsDecision mode p own (
        find_placement-respects dag (as_topology local) governance F ctx.alpha ctx.beta ctx.gamma g
          distinct ord p (placed-injective solve_local p h))

    solve_in-IsDecision :
        (mode : PlacementMode) (p : Dict String)
        → mode ≢ PlacementMode.market
        → solve_in mode ≡ ok (some p)
        → IsDecision mode p
    unfolding solve_in
    solve_in-IsDecision PlacementMode.market p not_market h = absurd (not_market refl)
    solve_in-IsDecision PlacementMode.sharded_oracle p not_market h =
        elim (Bool-cases ctx.is_coordinator) [
          | inr owner ↦ solve_local-IsDecision PlacementMode.sharded_oracle p owner (rw owner at h)
          | inl coordinator ↦
              let (m, merged, _, so, sl) =
                decide_globally-respects F ctx.alpha ctx.beta ctx.gamma ord dag local
                  ctx.peer_topologies ctx.cross_latencies governance p g
                  (placed-injective _ p (rw coordinator at h)) in
              record {
                topology = m;
                about = subst (λ g. IsBasis g m) (sym coordinator) merged;
                sovereignty = so;
                slices = sl;
              }
        ]
    solve_in-IsDecision PlacementMode.locality p not_market h =
        respectful PlacementMode.locality p refl
          (locality_placement-AllLocal dag (as_topology local) governance g distinct ctx.domain_id p
            (placed-injective _ p h)).0
    solve_in-IsDecision PlacementMode.latency_first p not_market h =
        respectful PlacementMode.latency_first p refl (
          latency_greedy_placement-Respects dag (as_topology local) governance g distinct p
            (placed-injective _ p h))
    solve_in-IsDecision PlacementMode.spillover p not_market h =
        respectful PlacementMode.spillover p refl (
          spillover_placement-Respects dag (as_topology local) governance g distinct ctx.domain_id p
            (placed-injective _ p h))
    solve_in-IsDecision PlacementMode.neural p not_market h =
        solve_local-IsDecision PlacementMode.neural p refl h

    -- Conditions: the mode is not market, the graph is well formed, the local nodes have distinct
    -- names, the floats are ordered, and the decision is a placement. Then the placement breaks no
    -- sovereignty and no slice requirement: on the merge of all shards if the mode is
    -- sharded_oracle and the broker coordinates, and else on the local topology.
    pub dispatch_placement_on-IsDecision :
        ctx.mode ≢ PlacementMode.market
        → (p : Dict String) → dispatch_placement_on ≡ ok (some p)
        → IsDecision ctx.mode p
    unfolding dispatch_placement_on
    dispatch_placement_on-IsDecision not_market p h = solve_in-IsDecision ctx.mode p not_market h

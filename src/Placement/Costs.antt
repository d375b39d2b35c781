-- ===== src/Placement/Costs.antt =====
-- src/broker/placement.py, `_placement_cost` and `compute_placement_cost`. Latencies, compute times and
-- crossings are summed exactly; the sum of load ratios and the weighted sum are in the floats given.
use neural_pubsub_experiment.Prelude.{
  ℕ, ◌+◌, ◌≡◌, refl, String, none, some, List, [], ◌∷◌, ◌==◌, if◌then◌else◌, arith, Dict, lookup,
  Error, Result, ok, raised, ◌>>=◌, >>=-eq-ok,
}
use neural_pubsub_experiment.Dag.{Edge, PipelineDag, get_stage}
use neural_pubsub_experiment.Placement.{ExecutionUnit, NetworkTopology, get_node, latency}
use neural_pubsub_experiment.Placement.Float.{Floats}
use neural_pubsub_experiment.Placement.Baselines.{compute_time}

-- placement[stage_id]
unfoldable pub node_of : Dict String → String → Result String
node_of placement stage_id = elim (lookup stage_id placement) [
  | none ↦ raised Error.not_placed
  | some node_id ↦ ok node_id
]

-- L_total and D_cross
unfoldable pub edge_sums : NetworkTopology → Dict String → List Edge → ℕ → ℕ → Result (ℕ × ℕ)
edge_sums topology placement [] l_total d_cross = ok (l_total, d_cross)
edge_sums topology placement (edge ∷ edges) l_total d_cross = do
  src_node ← node_of placement edge.source_id
  tgt_node ← node_of placement edge.target_id
  l ← latency topology src_node tgt_node
  src ← get_node topology src_node
  tgt ← get_node topology tgt_node
  edge_sums topology placement edges (l_total + l)
      (if src.domain_id == tgt.domain_id then d_cross else d_cross + 1)

-- C_total
unfoldable pub compute_sum : PipelineDag → NetworkTopology → Dict String → ℕ → Result ℕ
compute_sum dag topology [] c_total = ok c_total
compute_sum dag topology ((stage_id, node_id) ∷ items) c_total = do
  stage ← get_stage dag stage_id
  node ← get_node topology node_id
  compute_sum dag topology items (c_total + compute_time node stage.stage_type)

module _ (F : Floats) (dag : PipelineDag) (topology : NetworkTopology) where
  open F use {Float, of_ℕ, plus, times, over, maximum, tiny}

  -- U_total
  unfoldable pub load_sum : Dict String → Float → Result Float
  load_sum [] u_total = ok u_total
  load_sum ((stage_id, node_id) ∷ items) u_total = do
    stage ← get_stage dag stage_id
    node ← get_node topology node_id
    load_sum items
        (plus u_total (over (of_ℕ stage.computational_demand) (maximum (of_ℕ node.capacity) tiny)))

  module _ (alpha beta gamma : Float) where
    abbrev pub weighted : ℕ → Float → ℕ → Float
    weighted l u d = plus (plus (times alpha (of_ℕ l)) (times beta u)) (times gamma (of_ℕ d))

    -- _placement_cost
    unfoldable pub placement_cost : Dict String → Result Float
    placement_cost placement = do
      (l_total, d_cross) ← edge_sums topology placement dag.edges 0 0
      u_total ← load_sum placement (of_ℕ 0)
      ok (weighted l_total u_total d_cross)

    unfoldable pub compute_placement_cost : Dict String → Result Float
    compute_placement_cost placement = do
      (l_total, d_cross) ← edge_sums topology placement dag.edges 0 0
      u_total ← load_sum placement (of_ℕ 0)
      c_total ← compute_sum dag topology placement 0
      ok (weighted (l_total + c_total) u_total d_cross)

  -- A node that is found tells no compute time.
  abbrev pub Untimed : Type 0
  Untimed =
      (node_id : String) (node : ExecutionUnit)
      → get_node topology node_id ≡ ok node
      → node.compute_times ≡ none

  compute_sum_untimed :
      Untimed
      → (items : Dict String) (u v : Float) (c : ℕ) → load_sum items u ≡ ok v
      → compute_sum dag topology items c ≡ ok c
  unfolding load_sum compute_sum compute_time
  compute_sum_untimed plain [] u v c h = refl
  compute_sum_untimed plain ((stage_id, node_id) ∷ items) u v c h =
      let (stage, got, h1) = >>=-eq-ok (get_stage dag stage_id) _ h in
      let (node, has, h2) = >>=-eq-ok (get_node topology node_id) _ h1 in
      ground (arith, got, has, plain node_id node has, compute_sum_untimed plain items _ v c h2)

  -- Condition: no node of the topology has compute times. Then the cost with compute times is the
  -- cost without them, and fails where it fails.
  pub compute_placement_cost_untimed :
      Untimed
      → (alpha beta gamma : Float) (placement : Dict String)
      → compute_placement_cost alpha beta gamma placement
        ≡ placement_cost alpha beta gamma placement
  unfolding compute_placement_cost placement_cost
  compute_placement_cost_untimed plain alpha beta gamma placement =
      by_sums (edge_sums topology placement dag.edges 0 0) (load_sum placement (of_ℕ 0)) refl refl
    where
      by_sums :
          (s : Result (ℕ × ℕ)) (r : Result Float)
          → edge_sums topology placement dag.edges 0 0 ≡ s
          → load_sum placement (of_ℕ 0) ≡ r
          → compute_placement_cost alpha beta gamma placement
            ≡ placement_cost alpha beta gamma placement
      by_sums (raised e) r p q = ground (arith, p)
      by_sums (ok (l, d)) (raised e) p q = ground (arith, p, q)
      by_sums (ok (l, d)) (ok u) p q =
          ground (arith, p, q, compute_sum_untimed plain placement (of_ℕ 0) u 0 q)

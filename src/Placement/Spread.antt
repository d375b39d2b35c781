-- ===== src/Placement/Spread.antt =====
-- src/broker/placement.py, `_dp_placement`, from the redistribution of stages that share a node on, and
-- `find_placement`.
use neural_pubsub_experiment.Prelude.{
  ℕ, ◌+◌, ◌-◌, String, Bool, true, false, Option, none, some, List, [], ◌∷◌, ◌++◌, ◌==◌, ◌||◌, not,
  ltb, if◌then◌else◌, length, Dict, lookup, insert, get_or, Result, ok, ◌>>=◌,
}
use neural_pubsub_experiment.Prelude.Sorts.{sort_with}
use neural_pubsub_experiment.Dag.{Stage, PipelineDag, get_stage, stage_ids, sinks, is_tree}
use neural_pubsub_experiment.Dag.Kahn.{topological_sort}
use neural_pubsub_experiment.Placement.{
  ExecutionUnit, NetworkTopology, GovernancePolicy, exceeds, is_node_feasible_simple,
}
use neural_pubsub_experiment.Placement.Float.{Floats}
use neural_pubsub_experiment.Placement.Check.{node_loads}
use neural_pubsub_experiment.Placement.Costs.{node_of}
use neural_pubsub_experiment.Placement.Greedy.{greedy_placement}
use neural_pubsub_experiment.Placement.Dp.{fill_table, trace_sink}

-- The placement and the load that it commits to each node.
pub record Spread : Type 0 where
  pub placement : Dict String
  pub committed : Dict ℕ

abbrev is_nil {ℓ} : {A : Type ℓ} → List A → Bool
is_nil [] = true
is_nil _ = false

module _ (dag : PipelineDag) (topology : NetworkTopology) (governance : GovernancePolicy) where
  -- node_to_preds.setdefault(nid, []).append(pred_id)
  unfoldable pub group_preds :
      Dict String → List String → Dict (List String) → Result (Dict (List String))
  group_preds placement [] groups = ok groups
  group_preds placement (pred_id ∷ preds) groups = do
    nid ← node_of placement pred_id
    group_preds placement preds (insert nid (get_or nid [] groups ++ pred_id ∷ []) groups)

  abbrev pub demand_of : String → ℕ
  demand_of sid = elim (lookup sid dag.stages) [
    | none ↦ 0
    | some stage ↦ stage.computational_demand
  ]

  -- colocated.sort(key=lambda s: -demand)
  abbrev pub heavier : String → String → Bool
  heavier s t = ltb (demand_of t) (demand_of s)

  -- The current load is below the best one so far, which starts at inf.
  abbrev pub lighter : ℕ → Option (ℕ × String) → Bool
  lighter current none = true
  lighter current (some (best_load, best)) = ltb current best_load

  -- The loop over the nodes for another place, with the least load and its node so far.
  unfoldable pub best_alternative :
      Stage → String → Dict ℕ → List ExecutionUnit → Option (ℕ × String) → Option (ℕ × String)
  best_alternative stage nid committed [] best = best
  best_alternative stage nid committed (node ∷ nodes) best =
      let current = get_or node.node_id 0 committed in
      best_alternative stage nid committed nodes (
        if node.node_id == nid
          || (not (is_node_feasible_simple stage node governance)
              || (exceeds stage.computational_demand node current || not (lighter current best)))
        then best
        else some (current, node.node_id))

  -- The sibling moves to the other node.
  unfoldable pub move_to : String → ℕ → String → String → Spread → Spread
  move_to pred_id demand old_nid best_alt s =
      let lowered = insert old_nid (get_or old_nid 0 s.committed - demand) s.committed in
      record {
        placement = insert pred_id best_alt s.placement;
        committed = insert best_alt (get_or best_alt 0 lowered + demand) lowered;
      }

  unfoldable pub move_sibling : String → String → Spread → Result Spread
  move_sibling nid pred_id s = do
    stage ← get_stage dag pred_id
    elim (best_alternative stage nid s.committed topology.nodes none) [
      | none ↦ ok s
      | some (_, best_alt) ↦
          node_of s.placement pred_id
          >>= (λ old_nid. ok (move_to pred_id stage.computational_demand old_nid best_alt s))
    ]

  unfoldable pub move_siblings : String → List String → Spread → Result Spread
  move_siblings nid [] s = ok s
  move_siblings nid (pred_id ∷ preds) s = do
    s' ← move_sibling nid pred_id s
    move_siblings nid preds s'

  -- colocated[1:]
  abbrev pub others : List String → List String
  others [] = []
  others (_ ∷ xs) = xs

  -- for nid, colocated in node_to_preds.items()
  unfoldable pub spread_groups : Dict (List String) → Spread → Result Spread
  spread_groups [] s = ok s
  spread_groups ((nid, colocated) ∷ groups) s = do
    s' ← move_siblings nid (others (sort_with heavier colocated)) s
    spread_groups groups s'

  -- for stage_id in topo
  unfoldable pub spread_all : List String → Spread → Result Spread
  spread_all [] s = ok s
  spread_all (stage_id ∷ topo) s =
      if ltb (length (dag.predecessors stage_id)) 2 then spread_all topo s else do
        groups ← group_preds s.placement (dag.predecessors stage_id) []
        s' ← spread_groups groups s
        spread_all topo s'

  module _ (F : Floats) (alpha beta gamma : F.Float) where
    unfoldable pub dp_placement : Result (Dict String)
    dp_placement = do
      topo ← topological_sort dag
      table ← fill_table F dag topology governance alpha beta gamma topo []
      placement ← trace_sink F dag topology governance alpha beta gamma table (sinks dag)
      committed ← node_loads dag placement []
      spread ← spread_all topo (record { placement = placement; committed = committed })
      ok spread.placement

    unfoldable pub find_placement : Result (Dict String)
    find_placement =
        if is_nil (stage_ids dag)
        then ok []
        else if is_tree dag
        then dp_placement
        else greedy_placement F dag topology governance alpha beta gamma

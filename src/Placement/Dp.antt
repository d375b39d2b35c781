-- ===== src/Placement/Dp.antt =====
-- src/broker/placement.py, `_dp_placement`: the table of costs, and the tracing of the choices in it.
-- A node of the topology is named by its position, as in the source.
use neural_pubsub_experiment.Prelude.{
  ℕ, zero, suc, ◌+◌, String, Bool, false, Option, none, some, List, [], ◌∷◌, ◌==◌, ◌&&◌, ◌||◌, not,
  leb, ltb, if◌then◌else◌, Dict, lookup, insert, Error, Result, ok, raised, ◌>>=◌, str_dec,
}
use neural_pubsub_experiment.Dag.{Stage, Edge, PipelineDag, get_stage, get_edge}
use neural_pubsub_experiment.Placement.{
  ExecutionUnit, NetworkTopology, GovernancePolicy, get_node, latency, get_trust,
  is_node_feasible_simple,
}
use neural_pubsub_experiment.Placement.Float.{Floats}

-- dp[stage_id][ni] and choice[stage_id][ni]
pub record Cell (Float : Type 0) : Type 0 where
  pub cost : Float
  pub choices : List (String × ℕ)

-- The rows of the stages handled so far, the newest first.
abbrev pub Table : Type 0 → Type 0
Table Float = List (String × List (Cell Float))

-- xs[i]
unfoldable pub nth {ℓ} : {A : Type ℓ} → ℕ → List A → Option A
nth i [] = none
nth zero (x ∷ xs) = some x
nth (suc i) (x ∷ xs) = nth i xs

-- for pred_id, pred_ni in choice[...].items()
unfoldable pub for_choices {ℓ} :
    {S : Type ℓ} → (String → ℕ → S → Result S) → List (String × ℕ) → S → Result S
for_choices f [] s = ok s
for_choices f ((pred_id, pred_ni) ∷ choices) s = do
  s' ← f pred_id pred_ni s
  for_choices f choices s'

-- edge and lat > edge.latency_bound + 1e-9
abbrev pub too_far : Option Edge → ℕ → Bool
too_far none lat = false
too_far (some edge) lat = ltb (edge.latency_bound + 1) lat

module _ (F : Floats) (dag : PipelineDag) (topology : NetworkTopology)
    (governance : GovernancePolicy) where
  open F use {Float, of_ℕ, plus, times, over, maximum, tiny, infinite, less}

  abbrev pub is_finite : Float → Bool
  is_finite cost = less cost infinite

  -- Domains differ, and the one does not trust the other.
  abbrev pub untrusted : ExecutionUnit → ExecutionUnit → Bool
  untrusted pred_node node =
      not (pred_node.domain_id == node.domain_id)
      && leb (get_trust governance pred_node.domain_id node.domain_id) 0

  abbrev pub cross_of : ExecutionUnit → ExecutionUnit → ℕ
  cross_of pred_node node = if pred_node.domain_id == node.domain_id then 0 else 1

  module _ (alpha beta gamma : Float) where
    abbrev pub child_cost : Float → ℕ → ℕ → Float
    child_cost cost lat cross = plus (plus cost (times alpha (of_ℕ lat))) (times gamma (of_ℕ cross))

    -- The better of a new cost and the best so far, unless the node is ruled out.
    unfoldable pub keep_better : Bool → Float → ℕ → Float × Option ℕ → Float × Option ℕ
    keep_better ruled_out cost mi best =
        if ruled_out then best else if less cost best.0 then (cost, some mi) else best

    -- One node of a predecessor, with the best cost and position so far.
    unfoldable pub child_step :
        ExecutionUnit
        → Option Edge
        → ℕ
        → ExecutionUnit
        → Cell Float
        → Float × Option ℕ
        → Result (Float × Option ℕ)
    child_step node edge mi m cell best = if not (is_finite cell.cost) then ok best else do
      lat ← latency topology node.node_id m.node_id
      pred_node ← get_node topology m.node_id
      ok (
          keep_better (too_far edge lat || untrusted pred_node node)
            (child_cost cell.cost lat (cross_of pred_node node)) mi best)

    -- The loop over the nodes of a predecessor, from position `mi` on.
    unfoldable pub best_child :
        ExecutionUnit
        → Option Edge
        → List ExecutionUnit
        → List (Cell Float)
        → ℕ
        → Float × Option ℕ
        → Result (Float × Option ℕ)
    best_child node edge (m ∷ ms) (cell ∷ cells) mi best = do
      best' ← child_step node edge mi m cell best
      best_child node edge ms cells (suc mi) best'
    best_child node edge ms cells mi best = ok best

    -- dp[pred_id]
    unfoldable pub row_of : Table Float → String → Result (List (Cell Float))
    row_of table pred_id = elim (lookup pred_id table) [
      | none ↦ raised Error.no_stage
      | some row ↦ ok row
    ]

    abbrev pub no_cell : Cell Float
    no_cell = record { cost = infinite; choices = [] }

    -- The loop over the predecessors, with the cost and the choices so far.
    unfoldable pub fill_preds :
        Table Float → String → ExecutionUnit → List String → Cell Float → Result (Cell Float)
    fill_preds table stage_id node [] cell = ok cell
    fill_preds table stage_id node (pred_id ∷ preds) cell = do
      row ← row_of table pred_id
      (best_cost, best) ←
          best_child node (get_edge dag pred_id stage_id) topology.nodes row 0 (infinite, none)
      elim best [
        | none ↦ ok no_cell
        | some mi ↦
            fill_preds table stage_id node preds
              (record { cost = plus cell.cost best_cost; choices = insert pred_id mi cell.choices })
      ]

    abbrev pub local_cost : Stage → ExecutionUnit → Float
    local_cost stage node =
        times beta (over (of_ℕ stage.computational_demand) (maximum (of_ℕ node.capacity) tiny))

    -- dp[stage_id][ni], for one node
    unfoldable pub fill_cell : Table Float → String → Stage → ExecutionUnit → Result (Cell Float)
    fill_cell table stage_id stage n = do
      node ← get_node topology n.node_id
      if not (is_node_feasible_simple stage node governance)
          then ok no_cell
          else fill_preds table stage_id node (dag.predecessors stage_id)
              (record { cost = local_cost stage node; choices = [] })

    unfoldable pub fill_row :
        Table Float → String → Stage → List ExecutionUnit → Result (List (Cell Float))
    fill_row table stage_id stage [] = ok []
    fill_row table stage_id stage (n ∷ ns) = do
      cell ← fill_cell table stage_id stage n
      cells ← fill_row table stage_id stage ns
      ok (cell ∷ cells)

    unfoldable pub fill_table : List String → Table Float → Result (Table Float)
    fill_table [] table = ok table
    fill_table (stage_id ∷ topo) table = do
      stage ← get_stage dag stage_id
      row ← fill_row table stage_id stage topology.nodes
      fill_table topo ((stage_id, row) ∷ table)

    -- The position of the least cost in the row of the sink.
    unfoldable pub best_position : List (Cell Float) → ℕ → Float → Option ℕ → Option ℕ
    best_position [] ni best_cost best = best
    best_position (cell ∷ cells) ni best_cost best =
        best_position cells (suc ni) (if less cell.cost best_cost then cell.cost else best_cost)
          (if less cell.cost best_cost then some ni else best)

    -- What a choice names: the node id and the cell at its position.
    abbrev pub at_position : List (Cell Float) → ℕ → Option (ExecutionUnit × Cell Float)
    at_position row ni = elim (nth ni topology.nodes) [
      | none ↦ none
      | some n ↦ elim (nth ni row) [ none ↦ none | some cell ↦ some (n, cell) ]
    ]

    -- _trace; a choice names an older row, which is below in the table.
    unfoldable pub trace : Table Float → String → ℕ → Dict String → Result (Dict String)
    trace [] stage_id ni placement = raised Error.no_stage
    trace ((sid, row) ∷ older) stage_id ni placement = elim (str_dec sid stage_id) [
      | no _ ↦ trace older stage_id ni placement
      | yes _ ↦ elim (at_position row ni) [
        | none ↦ raised Error.no_node
        | some (n, cell) ↦
            for_choices (trace older) cell.choices (insert stage_id n.node_id placement)
      ]
    ]

    -- The row of the only sink, the best node in it, and the choices from there.
    unfoldable pub trace_sink : Table Float → List String → Result (Dict String)
    trace_sink table [] = raised Error.no_stage
    trace_sink table (sink_id ∷ _) = do
      row ← row_of table sink_id
      elim (best_position row 0 infinite none) [
        | none ↦ raised Error.no_feasible_node
        | some ni ↦ trace table sink_id ni []
      ]

-- ===== src/Placement/Check.antt =====
-- src/broker/placement.py, `check_feasibility`: a finished placement is validated. A violation is a
-- value in place of its text.
use neural_pubsub_experiment.Prelude.{
  ℕ, ◌+◌, String, Bool, true, false, none, some, List, [], ◌∷◌, ◌++◌, ◌==◌, ◌&&◌, not, leb, ltb,
  contains, Dict, lookup, Result, ok, ◌>>=◌,
}
use neural_pubsub_experiment.Dag.{Edge, PipelineDag, get_stage}
use neural_pubsub_experiment.Placement.{
  NetworkTopology, GovernancePolicy, get_node, latency, get_trust, slice_matches, outside_domain,
  exceeds,
}
use neural_pubsub_experiment.Placement.Rounds.{book}

pub data Violation : Type 0 where
  overloaded : (node_id : String) → Violation
  unplaced too_slow no_trust : Edge → Violation
  wrong_domain local_only wrong_slice : (stage_id node_id : String) → Violation

-- [v] if the test holds
abbrev pub when : Bool → Violation → List Violation
when true v = v ∷ []
when false v = []

unfoldable pub node_loads : PipelineDag → Dict String → Dict ℕ → Result (Dict ℕ)
node_loads dag [] node_load = ok node_load
node_loads dag ((stage_id, node_id) ∷ items) node_load = do
  stage ← get_stage dag stage_id
  node_loads dag items (book node_id stage.computational_demand node_load)

unfoldable pub capacity_violations : NetworkTopology → Dict ℕ → Result (List Violation)
capacity_violations topology [] = ok []
capacity_violations topology ((node_id, load) ∷ items) = do
  node ← get_node topology node_id
  rest ← capacity_violations topology items
  ok (when (exceeds load node 0) (overloaded node_id) ++ rest)

module _ (topology : NetworkTopology) (governance : GovernancePolicy) where
  -- One edge whose ends are both placed.
  unfoldable pub link_violations : Edge → String → String → Result (List Violation)
  link_violations edge src_node_id tgt_node_id = do
    actual ← latency topology src_node_id tgt_node_id
    src ← get_node topology src_node_id
    tgt ← get_node topology tgt_node_id
    ok (
        when (ltb (edge.latency_bound + 1) actual) (too_slow edge)
        ++ when
            (not (src.domain_id == tgt.domain_id)
              && leb (get_trust governance src.domain_id tgt.domain_id) 0)
            (no_trust edge))

  unfoldable pub edge_violations : Dict String → Edge → Result (List Violation)
  edge_violations placement edge = elim (lookup edge.source_id placement) [
    | none ↦ ok (unplaced edge ∷ [])
    | some src_node_id ↦ elim (lookup edge.target_id placement) [
      | none ↦ ok (unplaced edge ∷ [])
      | some tgt_node_id ↦ link_violations edge src_node_id tgt_node_id
    ]
  ]

  unfoldable pub edges_violations : Dict String → List Edge → Result (List Violation)
  edges_violations placement [] = ok []
  edges_violations placement (edge ∷ edges) = do
    found ← edge_violations placement edge
    rest ← edges_violations placement edges
    ok (found ++ rest)

module _ (dag : PipelineDag) (topology : NetworkTopology) where
  unfoldable pub sovereignty_violations : GovernancePolicy → Dict String → Result (List Violation)
  sovereignty_violations governance [] = ok []
  sovereignty_violations governance ((stage_id, node_id) ∷ items) = do
    stage ← get_stage dag stage_id
    node ← get_node topology node_id
    rest ← sovereignty_violations governance items
    ok (
        when (outside_domain stage node) (wrong_domain stage_id node_id)
        ++ when
            (contains stage.stage_type governance.local_stage_types && outside_domain stage node)
            (local_only stage_id node_id)
        ++ rest)

  unfoldable pub slice_violations : Dict String → Result (List Violation)
  slice_violations [] = ok []
  slice_violations ((stage_id, node_id) ∷ items) = do
    stage ← get_stage dag stage_id
    node ← get_node topology node_id
    rest ← slice_violations items
    ok (
        when (not (slice_matches node.slice_id stage.slice_requirement))
          (wrong_slice stage_id node_id)
        ++ rest)

abbrev none_found : List Violation → Bool
none_found [] = true
none_found (v ∷ vs) = false

unfoldable pub check_feasibility :
    Dict String → PipelineDag → NetworkTopology → GovernancePolicy → Result (Bool × List Violation)
check_feasibility placement dag topology governance = do
  node_load ← node_loads dag placement []
  capacity ← capacity_violations topology node_load
  links ← edges_violations topology governance placement dag.edges
  sovereignty ← sovereignty_violations dag topology governance placement
  slices ← slice_violations dag topology placement
  let violations = capacity ++ links ++ sovereignty ++ slices
  ok (none_found violations, violations)

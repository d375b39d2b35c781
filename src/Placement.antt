-- ===== src/Placement.antt =====
-- src/broker/placement.py: the data of a placement and the checks on one stage and one node.
-- Amounts (demands, capacities, loads, latencies, trust) are natural numbers of the unit 1e-9, so that
-- the tolerance 1e-9 of the source is 1. `x > c - l + 1e-9` is written `c + 1 < x + l`, since `-`
-- stops at 0 here: the difference of floats in the source may be negative.
pub mod Float
pub mod Rounds
pub mod Greedy
pub mod Baselines
pub mod Check
pub mod Fits
pub mod Links
pub mod Sound
pub mod Heuristics
pub mod Costs
pub mod Dp
pub mod Spread
pub mod Traced
pub mod Chosen
pub mod MarketMode
pub mod MarketSound
use neural_pubsub_experiment.Prelude.{
  ℕ, zero, suc, ◌+◌, String, Bool, true, false, Option, none, some, List, [], ◌∷◌, ◌==◌, ◌&&◌, ◌||◌,
  not, ltb, leb, if◌then◌else◌, contains, Dict, lookup, insert, get_or, Error, Result, ok, raised,
  ◌>>=◌,
}
use neural_pubsub_experiment.Dag.{Stage, Edge, PipelineDag, get_edge}

pub record ExecutionUnit : Type 0 where
  pub node_id : String
  pub domain_id : String
  pub slice_id : String
  pub capacity : ℕ
  pub current_load : ℕ
  pub compute_times : Option (Dict ℕ)

-- The matrix is only looked up, and is a function of the pair.
pub record NetworkTopology : Type 0 where
  pub nodes : List ExecutionUnit
  pub latency_matrix : String → String → Option ℕ

pub record GovernancePolicy : Type 0 where
  pub local_stage_types : List String
  pub trust_levels : String → String → Option ℕ

-- The float 1.0.
abbrev pub one : ℕ
one = 1_000_000_000

-- {n.node_id: n for n in self.nodes}: of two nodes with one id the later stands.
unfoldable pub node_map : List ExecutionUnit → Dict ExecutionUnit → Dict ExecutionUnit
node_map [] m = m
node_map (n ∷ ns) m = node_map ns (insert n.node_id n m)

unfoldable pub get_node : NetworkTopology → String → Result ExecutionUnit
get_node topology node_id = elim (lookup node_id (node_map topology.nodes [])) [
  | some node ↦ ok node
  | none ↦ raised Error.no_node
]

unfoldable pub latency : NetworkTopology → String → String → Result ℕ
latency topology a b = if a == b then ok 0 else elim (topology.latency_matrix a b) [
  | some l ↦ ok l
  | none ↦ elim (topology.latency_matrix b a) [ some l ↦ ok l | none ↦ raised Error.no_latency ]
]

unfoldable pub get_trust : GovernancePolicy → String → String → ℕ
get_trust governance domain_a domain_b =
    if domain_a == domain_b then one else elim (governance.trust_levels domain_a domain_b) [
      | some t ↦ t
      | none ↦ elim (governance.trust_levels domain_b domain_a) [ some t ↦ t | none ↦ 0 ]
    ]

unfoldable pub slice_matches : String → Option String → Bool
slice_matches worker_slice none = true
slice_matches worker_slice (some required) =
    if worker_slice == "flat" then true else worker_slice == required

-- The node lies outside the domain that the stage must stay in, if it must stay in one.
abbrev pub outside_domain : Stage → ExecutionUnit → Bool
outside_domain stage node = elim (stage.data_sovereignty_domain) [
  | none ↦ false
  | some domain ↦ not (node.domain_id == domain)
]

-- stage.computational_demand > node.residual_capacity - committed + 1e-9
abbrev pub exceeds : ℕ → ExecutionUnit → ℕ → Bool
exceeds demand node committed = ltb (node.capacity + 1) (demand + (node.current_load + committed))

-- _is_node_feasible_simple
unfoldable pub is_node_feasible_simple : Stage → ExecutionUnit → GovernancePolicy → Bool
is_node_feasible_simple stage node governance =
    if exceeds stage.computational_demand node 0
    then false
    else if not (slice_matches node.slice_id stage.slice_requirement)
    then false
    else if outside_domain stage node
    then false
    else if contains stage.stage_type governance.local_stage_types && outside_domain stage node
    then false
    else true

-- for x in xs: if bad(x): return False
unfoldable pub none_bad : (String → Result Bool) → List String → Result Bool
none_bad bad [] = ok true
none_bad bad (x ∷ xs) = do found ← bad x; if found then ok false else none_bad bad xs

module _ (dag : PipelineDag) (topology : NetworkTopology) (governance : GovernancePolicy) where
  -- `actual > edge.latency_bound + 1e-9` for the edge between two stages, if there is one.
  unfoldable pub edge_too_slow : Option Edge → String → String → Result Bool
  edge_too_slow none from_node to_node = ok false
  edge_too_slow (some edge) from_node to_node = do
    actual ← latency topology from_node to_node
    ok (ltb (edge.latency_bound + 1) actual)

  unfoldable pub pred_too_slow : Stage → ExecutionUnit → Dict String → String → Result Bool
  pred_too_slow stage node placement pred_id = elim (lookup pred_id placement) [
    | none ↦ ok false
    | some pred_node ↦ edge_too_slow (get_edge dag pred_id stage.id) pred_node node.node_id
  ]

  unfoldable pub succ_too_slow : Stage → ExecutionUnit → Dict String → String → Result Bool
  succ_too_slow stage node placement succ_id = elim (lookup succ_id placement) [
    | none ↦ ok false
    | some succ_node ↦ edge_too_slow (get_edge dag stage.id succ_id) node.node_id succ_node
  ]

  unfoldable pub pred_untrusted : ExecutionUnit → Dict String → String → Result Bool
  pred_untrusted node placement pred_id = elim (lookup pred_id placement) [
    | none ↦ ok false
    | some pred_node_id ↦ do
      pred_node ← get_node topology pred_node_id
      ok (
          not (pred_node.domain_id == node.domain_id)
          && leb (get_trust governance pred_node.domain_id node.domain_id) 0)
  ]

  unfoldable pub succ_untrusted : ExecutionUnit → Dict String → String → Result Bool
  succ_untrusted node placement succ_id = elim (lookup succ_id placement) [
    | none ↦ ok false
    | some succ_node_id ↦ do
      succ_node ← get_node topology succ_node_id
      ok (
          not (succ_node.domain_id == node.domain_id)
          && leb (get_trust governance node.domain_id succ_node.domain_id) 0)
  ]

  -- _is_node_feasible
  unfoldable pub is_node_feasible : Stage → ExecutionUnit → Dict String → Dict ℕ → Result Bool
  is_node_feasible stage node partial_placement additional_load =
      let committed = get_or node.node_id 0 additional_load in
      if not (is_node_feasible_simple stage node governance)
      then ok false
      else if ltb 0 committed && exceeds stage.computational_demand node committed
      then ok false
      else do
        preds_fast ←
            none_bad (pred_too_slow stage node partial_placement) (dag.predecessors stage.id)
        if not preds_fast then ok false else do
          succs_fast ←
              none_bad (succ_too_slow stage node partial_placement) (dag.successors stage.id)
          if not succs_fast then ok false else do
            preds_trusted ←
                none_bad (pred_untrusted node partial_placement) (dag.predecessors stage.id)
            if not preds_trusted
                then ok false
                else do none_bad (succ_untrusted node partial_placement) (dag.successors stage.id)

-- ===== src/Dag.antt =====
-- src/pipeline/dag.py: the service-dependency graph of a pipeline. Floats (demands, data rates,
-- latency bounds, budgets) are natural numbers of one fixed small unit. `_stages` is a dictionary in
-- the order of insertion; the default dictionaries `_successors` and `_predecessors`, and
-- `_edge_index`, are never iterated over and are functions.
pub mod Search
pub mod Reach
pub mod Graph
pub mod Kahn
pub mod Degrees
pub mod Order
pub mod Tree
use neural_pubsub_experiment.Prelude.{
  ℕ, zero, suc, String, Bool, true, false, Option, none, some, List, [], ◌∷◌, ◌++◌, ◌==◌, ◌&&◌, eqb,
  ltb, if◌then◌else◌, contains, length, Dict, lookup, insert, keys, filter, Error, Result, ok,
  raised,
}
use neural_pubsub_experiment.Prelude.Cost.{Cost, fin, le_cost}
use Search.{can_reach_from}

pub record Stage : Type 0 where
  pub id : String
  pub stage_type : String
  pub computational_demand : ℕ
  pub output_data_rate : ℕ
  pub slice_requirement : Option String
  pub data_sovereignty_domain : Option String
  pub metadata : Option (Dict String)

pub record Edge : Type 0 where
  pub source_id : String
  pub target_id : String
  pub latency_bound : ℕ

pub record PipelineDag : Type 0 where
  pub stages : Dict Stage
  pub edges : List Edge
  pub edge_index : String → String → Option Edge
  pub successors : String → List String
  pub predecessors : String → List String
  pub value_budget : Option ℕ

-- PipelineDAG(value_budget=…)
unfoldable pub empty_dag : Option ℕ → PipelineDag
empty_dag budget = record {
  stages = [];
  edges = [];
  edge_index = λ s t. none;
  successors = λ s. [];
  predecessors = λ s. [];
  value_budget = budget;
}

unfoldable pub accepts_cost : PipelineDag → Cost → Bool
accepts_cost dag total_cost = elim (dag.value_budget) [
  | none ↦ true
  | some budget ↦ le_cost total_cost (fin budget)
]

abbrev pub stage_ids : PipelineDag → List String
stage_ids dag = keys dag.stages

-- self._stages[stage.id] = stage
abbrev pub with_stage : PipelineDag → Stage → PipelineDag
with_stage dag stage = record dag { stages = insert stage.id stage dag.stages }

unfoldable pub add_stage : PipelineDag → Stage → Result PipelineDag
add_stage dag stage =
    if contains stage.id (stage_ids dag)
    then raised Error.stage_exists
    else ok (with_stage dag stage)

-- d[k].append(x) on a `defaultdict(list)`
unfoldable pub append_at : (String → List String) → String → String → String → List String
append_at d k x j = if k == j then d j ++ x ∷ [] else d j

-- d[(s, t)] = e
unfoldable pub index_at :
    (String → String → Option Edge) → String → String → Edge → String → String → Option Edge
index_at d s t e i j = if s == i && t == j then some e else d i j

unfoldable pub can_reach : PipelineDag → String → String → Bool
can_reach dag from to = can_reach_from (stage_ids dag) dag.successors from to

-- What `add_edge` appends to the four containers.
abbrev pub with_edge : PipelineDag → Edge → PipelineDag
with_edge dag edge = record dag {
  edges = dag.edges ++ edge ∷ [];
  edge_index = index_at dag.edge_index edge.source_id edge.target_id edge;
  successors = append_at dag.successors edge.source_id edge.target_id;
  predecessors = append_at dag.predecessors edge.target_id edge.source_id;
}

unfoldable pub add_edge : PipelineDag → Edge → Result PipelineDag
add_edge dag edge =
    if contains edge.source_id (stage_ids dag)
    then if contains edge.target_id (stage_ids dag)
      then if can_reach dag edge.target_id edge.source_id
        then raised Error.would_cycle
        else ok (with_edge dag edge)
      else raised Error.target_missing
    else raised Error.source_missing

unfoldable pub get_stage : PipelineDag → String → Result Stage
get_stage dag stage_id = elim (lookup stage_id dag.stages) [
  | none ↦ raised Error.no_stage
  | some stage ↦ ok stage
]

abbrev pub get_edge : PipelineDag → String → String → Option Edge
get_edge dag source_id target_id = dag.edge_index source_id target_id

abbrev pub is_nil : List String → Bool
is_nil [] = true
is_nil (x ∷ xs) = false

unfoldable pub sources : PipelineDag → List String
sources dag = filter (λ sid. is_nil (dag.predecessors sid)) (stage_ids dag)

unfoldable pub sinks : PipelineDag → List String
sinks dag = filter (λ sid. is_nil (dag.successors sid)) (stage_ids dag)

-- The loop of `is_tree`, with the sinks counted so far.
unfoldable pub is_tree_from : (String → List String) → List String → ℕ → Bool
is_tree_from succs [] sink_count = eqb sink_count 1
is_tree_from succs (sid ∷ sids) sink_count =
    let rest =
      is_tree_from succs sids (if eqb (length (succs sid)) 0 then suc sink_count else sink_count) in
    if ltb 1 (length (succs sid)) then false else rest

unfoldable pub is_tree : PipelineDag → Bool
unfolding is_tree_from
is_tree dag = is_tree_from dag.successors (stage_ids dag) 0

-- ===== src/Sharded.antt =====
-- src/broker/sharded_oracle_broker.py: the states of several shards are merged into one. Here a
-- topology and a policy keep their dictionaries as entries, since they are iterated over; Placement
-- only looks up in them.
pub mod Merged
pub mod Policies
pub mod Snapshot
pub mod Decide
use neural_pubsub_experiment.Prelude.{
  ℕ, ◌+◌, String, Bool, true, false, Option, none, some, List, [], ◌∷◌, ◌++◌, ltb, if◌then◌else◌,
  contains, Error, Result, ok, raised, ◌>>=◌,
}
use neural_pubsub_experiment.Prelude.Pairs.{Pairs, find, assign, assign_all}
use neural_pubsub_experiment.Placement.{ExecutionUnit, NetworkTopology, GovernancePolicy}

pub record ShardTopology : Type 0 where
  pub nodes : List ExecutionUnit
  pub latency_matrix : Pairs ℕ

pub record ShardPolicy : Type 0 where
  pub local_stage_types : List String
  pub trust_levels : Pairs ℕ

-- What the solvers look up in.
abbrev pub as_topology : ShardTopology → NetworkTopology
as_topology t = record { nodes = t.nodes; latency_matrix = λ a b. find (a, b) t.latency_matrix }

abbrev pub as_policy : ShardPolicy → GovernancePolicy
as_policy p = record {
  local_stage_types = p.local_stage_types;
  trust_levels = λ a b. find (a, b) p.trust_levels;
}

-- The nodes of one shard, after those seen before.
unfoldable pub merge_nodes :
    List ExecutionUnit
    → List String
    → List ExecutionUnit
    → Result (List String × List ExecutionUnit)
merge_nodes [] seen merged = ok (seen, merged)
merge_nodes (n ∷ ns) seen merged =
    let rest = merge_nodes ns (n.node_id ∷ seen) (merged ++ n ∷ []) in
    if contains n.node_id seen then raised Error.node_collision else rest

unfoldable pub merge_shards :
    List ShardTopology → List String → List ExecutionUnit → Pairs ℕ → Result ShardTopology
merge_shards [] seen merged lat = ok (record { nodes = merged; latency_matrix = lat })
merge_shards (t ∷ ts) seen merged lat = do
  (seen', merged') ← merge_nodes t.nodes seen merged
  merge_shards ts seen' merged' (assign_all t.latency_matrix lat)

unfoldable pub merge_topologies : List ShardTopology → Pairs ℕ → Result ShardTopology
merge_topologies topologies cross_latencies = do
  merged ← merge_shards topologies [] [] []
  ok (record merged { latency_matrix = assign_all cross_latencies merged.latency_matrix })

-- union_local |= set(…)
unfoldable pub union : List String → List String → List String
union xs [] = xs
union xs (y ∷ ys) = union (if contains y xs then xs else y ∷ xs) ys

-- existing is None or lvl < existing
abbrev pub lowers : ℕ → Option ℕ → Bool
lowers lvl none = true
lowers lvl (some existing) = ltb lvl existing

unfoldable pub merge_trust : Pairs ℕ → Pairs ℕ → Pairs ℕ
merge_trust [] min_trust = min_trust
merge_trust ((pair, lvl) ∷ levels) min_trust =
    merge_trust levels
      (if lowers lvl (find pair min_trust) then assign pair lvl min_trust else min_trust)

unfoldable pub merge_policies : List ShardPolicy → List String → Pairs ℕ → ShardPolicy
merge_policies [] union_local min_trust = record {
  local_stage_types = union_local;
  trust_levels = min_trust;
}
merge_policies (p ∷ ps) union_local min_trust =
    merge_policies ps (union union_local p.local_stage_types) (merge_trust p.trust_levels min_trust)

unfoldable pub merge_governance : List ShardPolicy → ShardPolicy
merge_governance policies = merge_policies policies [] []

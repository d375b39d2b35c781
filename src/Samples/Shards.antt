-- ===== src/Samples/Shards.antt =====
-- The theorems on the merge of shards (src/broker/sharded_oracle_broker.py) at two shards.
use neural_pubsub_experiment.Prelude.{
  ℕ, ◌≤◌, ◌≡◌, refl, String, none, some, [], ◌∷◌, contains, any, Dict, Unique, ok, str_dec,
}
use neural_pubsub_experiment.Prelude.Pairs.{Pairs, find}
use neural_pubsub_experiment.Prelude.Sorts.{first}
use neural_pubsub_experiment.Placement.Fits.{node_ids}
use neural_pubsub_experiment.Sharded.{
  ShardTopology, ShardPolicy, merge_topologies, merge_shards, merge_nodes, merge_governance,
}
use neural_pubsub_experiment.Sharded.Merged.{
  all_nodes, find_last, last_latency, merge_topologies_lem,
}
use neural_pubsub_experiment.Sharded.Policies.{Given, merge_governance-strictest}
use neural_pubsub_experiment.Sharded.Snapshot.{
  topology_to_snapshot, snapshot_to_topology, snapshot_to_worker_urls,
  snapshot_to_topology-topology_to_snapshot,
}
use neural_pubsub_experiment.Samples.{west, east}

abbrev pub west_shard : ShardTopology
west_shard = record {
  nodes = west ∷ [];
  latency_matrix = (("west1", "west1"), 0) ∷ (("west1", "east1"), 4) ∷ [];
}

abbrev pub east_shard : ShardTopology
east_shard = record { nodes = east ∷ []; latency_matrix = (("east1", "east1"), 0) ∷ [] }

abbrev pub between : Pairs ℕ
between = (("west1", "east1"), 9) ∷ (("east1", "west1"), 8) ∷ []

shards_apart : Unique (node_ids (all_nodes (west_shard ∷ east_shard ∷ [])))
unfolding contains str_dec
shards_apart = (refl, (refl, tt))

merge_topologies_lem_example :
    (m : ShardTopology) × (merge_topologies (west_shard ∷ east_shard ∷ []) between ≡ ok m)
    × (m.nodes ≡ all_nodes (west_shard ∷ east_shard ∷ []))
    × (find ("west1", "east1") m.latency_matrix
        ≡ find_last
            ("west1", "east1")
            between
            (last_latency ("west1", "east1") (west_shard ∷ east_shard ∷ []) none))
merge_topologies_lem_example =
    merge_topologies_lem (west_shard ∷ east_shard ∷ []) between ("west1", "east1") shards_apart

merged : (m : ShardTopology) × (merge_topologies (west_shard ∷ east_shard ∷ []) [] ≡ ok m)
unfolding merge_topologies merge_shards merge_nodes contains str_dec
merged = (_, refl)

abbrev west_policy : ShardPolicy
west_policy = record { local_stage_types = "infer" ∷ []; trust_levels = (("west", "east"), 7) ∷ [] }

abbrev east_policy : ShardPolicy
east_policy = record { local_stage_types = "store" ∷ []; trust_levels = (("west", "east"), 5) ∷ [] }

merge_governance-strictest_example :
    (contains "store" (merge_governance (west_policy ∷ east_policy ∷ [])).local_stage_types
      ≡ any (λ p. contains "store" p.local_stage_types) (west_policy ∷ east_policy ∷ []))
    × ((u : ℕ) × (find
            ("west", "east")
            (merge_governance (west_policy ∷ east_policy ∷ [])).trust_levels
          ≡ some u)
        × (u ≤ 7)
        × Given ("west", "east") u (west_policy ∷ east_policy ∷ []))
merge_governance-strictest_example =
    merge_governance-strictest (west_policy ∷ east_policy ∷ []) "store" ("west", "east") 7
      (west_policy, first refl, first refl)

abbrev urls : Dict String
urls = ("west1", "http://west1") ∷ []

snapshot_to_topology-topology_to_snapshot_example :
    (snapshot_to_topology (topology_to_snapshot west_shard urls) ≡ ok west_shard)
    × (snapshot_to_worker_urls (topology_to_snapshot west_shard urls) ≡ ok urls)
unfolding find contains str_dec
snapshot_to_topology-topology_to_snapshot_example =
    snapshot_to_topology-topology_to_snapshot west_shard urls (refl, (refl, tt)) (refl, tt)

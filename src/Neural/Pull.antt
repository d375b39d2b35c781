-- ===== src/Neural/Pull.antt =====
-- src/broker/neural_broker.py, `_fetch_sharded_oracle_peer_topologies`: a coordinator pulls the states
-- of the peers. The answer of a peer is its snapshot, or `none` if the request fails.
use neural_pubsub_experiment.Prelude.{
  String, Option, none, some, List, [], ◌∷◌, ◌++◌, Dict, ok, raised,
}
use neural_pubsub_experiment.Wire.{Value}
use neural_pubsub_experiment.Sharded.{ShardTopology}
use neural_pubsub_experiment.Sharded.Snapshot.{
  snapshot_to_topology, snapshot_to_worker_urls, insert_all,
}
use neural_pubsub_experiment.Neural.{NeuralBroker}

-- `peers` and `peer_urls`
pub record Pulled : Type 0 where
  pub topologies : List ShardTopology
  pub urls : Dict String

-- The urls of a snapshot are read after its topology is kept; either may raise, and is then skipped.
unfoldable pub pull_urls : Value → Pulled → Pulled
pull_urls snap p = elim (snapshot_to_worker_urls snap) [
  | raised e ↦ p
  | ok urls ↦ record p { urls = insert_all urls p.urls }
]

unfoldable pub pull : Option Value → Pulled → Pulled
pull none p = p
pull (some snap) p = elim (snapshot_to_topology snap) [
  | raised e ↦ p
  | ok topology ↦ pull_urls snap (record p { topologies = p.topologies ++ topology ∷ [] })
]

unfoldable pub pull_all : List (Option Value) → Pulled → Pulled
pull_all [] p = p
pull_all (answer ∷ answers) p = pull_all answers (pull answer p)

unfoldable pub fetch_peer_topologies : List (Option Value) → NeuralBroker → NeuralBroker
fetch_peer_topologies answers b =
    let p = pull_all answers (record { topologies = []; urls = [] }) in
    record b { sharded_peer_topologies = p.topologies; peer_worker_urls = p.urls }

-- ===== src/Neural.antt =====
-- src/broker/neural_broker.py: the state of a neural broker, its registry of workers and the topology
-- that is rebuilt from it. The summary that a rebuild sends to peers is Static/Capacity's.
pub mod Mirror
pub mod Decision
pub mod Recovery
pub mod Pull
pub mod Requests
pub mod Gone
pub mod Forwarding
pub mod Concluded
pub mod Requested
use neural_pubsub_experiment.Prelude.{
  ℕ, ◌+◌, ◌-◌, ◌*◌, String, Bool, true, false, Option, none, some, List, [], ◌∷◌, ◌++◌, ◌==◌, ◌&&◌,
  not, contains, map, if◌then◌else◌, Dict, lookup, insert, remove, keys, values,
}
use neural_pubsub_experiment.Prelude.Int.{ℤ, pos, negsuc, sub_ℕ}
use neural_pubsub_experiment.Prelude.Pairs.{Pairs, assign}
use neural_pubsub_experiment.Placement.{ExecutionUnit, one}
use neural_pubsub_experiment.Placement.Float.{Floats}
use neural_pubsub_experiment.Broker.{WorkerInfo, Failure, PipelineState}
use neural_pubsub_experiment.Sharded.{ShardTopology}

pub record NeuralBroker : Type 0 where
  pub workers : Dict WorkerInfo
  pub topology : ShardTopology
  pub active_pipelines : Dict PipelineState
  pub worker_failures : Dict ℕ
  -- urls of the workers of other shards, at a coordinator
  pub peer_worker_urls : Dict String
  -- the states of the other shards, as a coordinator last pulled them
  pub sharded_peer_topologies : List ShardTopology
  -- (pipeline, success), as given to the metrics collector
  pub completions : List (String × Bool)
  -- (stage, worker), as given to a transport
  pub sent : List (String × String)

abbrev pub unit_of : WorkerInfo → ExecutionUnit
unit_of w = record {
  node_id = w.node_id;
  domain_id = w.domain_id;
  slice_id = w.slice_id;
  capacity = w.capacity;
  current_load = w.current_load;
  compute_times = none;
}

-- 2.0 within a domain, 20.0 across
abbrev pub assumed_latency : WorkerInfo → WorkerInfo → ℕ
assumed_latency a b = if a.domain_id == b.domain_id then 2 * one else 20 * one

-- The pairs of one worker with the later ones.
unfoldable pub pairs_with : WorkerInfo → List WorkerInfo → Pairs ℕ → Pairs ℕ
pairs_with a [] matrix = matrix
pairs_with a (b ∷ bs) matrix =
    pairs_with a bs (assign (a.node_id, b.node_id) (assumed_latency a b) matrix)

unfoldable pub latency_pairs : List WorkerInfo → Pairs ℕ → Pairs ℕ
latency_pairs [] matrix = matrix
latency_pairs (a ∷ later) matrix = latency_pairs later (pairs_with a later matrix)

unfoldable pub units : List WorkerInfo → List ExecutionUnit
units [] = []
units (w ∷ ws) = unit_of w ∷ units ws

unfoldable pub rebuild_topology : NeuralBroker → NeuralBroker
rebuild_topology b = record b {
  topology = record {
    nodes = units (values b.workers);
    latency_matrix = latency_pairs (values b.workers) [];
  };
}

-- The first unit of that id gets the load.
unfoldable pub set_load : String → ℕ → List ExecutionUnit → List ExecutionUnit
set_load node_id load [] = []
set_load node_id load (eu ∷ eus) =
    if eu.node_id == node_id
    then record eu { current_load = load } ∷ eus
    else eu ∷ set_load node_id load eus

-- The worker found, with its load shifted, in the registry and in the topology.
unfoldable pub load_worker : Floats → String → ℤ → WorkerInfo → NeuralBroker → NeuralBroker
load_worker F node_id delta worker b =
    let load = F.shifted worker.current_load delta in
    record b {
      workers = insert node_id (record worker { current_load = load }) b.workers;
      topology = record b.topology { nodes = set_load node_id load b.topology.nodes };
    }

unfoldable pub update_worker_load : Floats → String → ℤ → NeuralBroker → NeuralBroker
update_worker_load F node_id delta b = elim (lookup node_id b.workers) [
  | none ↦ b
  | some worker ↦ load_worker F node_id delta worker b
]

abbrev pub new_neural : NeuralBroker
new_neural = record {
  workers = [];
  topology = record { nodes = []; latency_matrix = [] };
  active_pipelines = [];
  worker_failures = [];
  peer_worker_urls = [];
  sharded_peer_topologies = [];
  completions = [];
  sent = [];
}

-- A registration replaces a worker of the same id, and starts with no load.
unfoldable pub register_worker : WorkerInfo → NeuralBroker → NeuralBroker
register_worker worker b =
    rebuild_topology
      (record b { workers = insert worker.node_id (record worker { current_load = 0 }) b.workers })

abbrev pub uses : String → PipelineState → Bool
uses node_id ps = contains node_id (values ps.placement)

-- The pipelines that use the node fail, and stay among the active ones.
unfoldable pub fail_users : String → Dict PipelineState → Dict PipelineState
fail_users node_id [] = []
fail_users node_id ((pid, ps) ∷ active) =
    (
      pid,
      if uses node_id ps && not ps.failed
          then record ps { failed = true; error = some Failure.worker_missing }
          else ps,
    )
    ∷ fail_users node_id active

-- DELETE /register, with the answer 404 as `none`
unfoldable pub deregister_worker : String → NeuralBroker → Option NeuralBroker
deregister_worker node_id b =
    if contains node_id (keys b.workers)
    then some (
        let b' = rebuild_topology (record b { workers = remove node_id b.workers }) in
        record b' { active_pipelines = fail_users node_id b'.active_pipelines })
    else none

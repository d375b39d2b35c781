-- ===== src/Neural/Requests.antt =====
-- src/broker/neural_broker.py: the handlers of /publish and /result. A request runs to its end before
-- the next. The graph is the one built from the template, with its `__local__` domains resolved; the check
-- that follows a placement only counts violations and is left out.
use neural_pubsub_experiment.Prelude.{
  ℕ, String, Bool, true, false, Option, none, some, List, [], ◌∷◌, ◌++◌, not, contains, filter,
  if◌then◌else◌, Dict, lookup, insert, remove, keys, values, Error, Result, ok, raised,
}
use neural_pubsub_experiment.Prelude.Int.{sub_ℕ}
use neural_pubsub_experiment.Dag.{PipelineDag, get_stage}
use neural_pubsub_experiment.Funnel.{FunnelMode}
use neural_pubsub_experiment.Placement.{GovernancePolicy}
use neural_pubsub_experiment.Placement.Float.{Floats}
use neural_pubsub_experiment.Broker.{PipelineState, new_pipeline}
use neural_pubsub_experiment.Broker.Ready.{Scan, find_ready_stages}
use neural_pubsub_experiment.Broker.Handlers.{same_set, ends_pipeline, ending, record_result}
use neural_pubsub_experiment.Static.{is_empty}
use neural_pubsub_experiment.Neural.{NeuralBroker, update_worker_load}
use neural_pubsub_experiment.Wire.{Value}
use neural_pubsub_experiment.Neural.Pull.{fetch_peer_topologies}
use neural_pubsub_experiment.Neural.Recovery.{Job, drop_pipeline, dispatch_stage, is_runtime}

pub data NeuralReply : Type 0 where
  forwarded : String → NeuralReply
  no_placement dispatched unknown_pipeline pipeline_failed pipeline_complete stage_recorded :
      NeuralReply
  crashed : Error → NeuralReply

-- What stays the same over all requests.
pub record NeuralSetting (F : Floats) : Type 0 where
  pub mode : FunnelMode
  -- the mode is sharded_oracle, and the environment says that this broker coordinates
  pub is_coordinator : Bool
  pub timeout_s : ℕ
  pub governance : GovernancePolicy
  pub alpha : F.Float
  pub beta : F.Float
  pub gamma : F.Float

-- for peer_url in self._propagator.peers: the first that accepts
unfoldable pub try_federation_forward : (String → Bool) → List String → Option String
try_federation_forward accepts [] = none
try_federation_forward accepts (peer ∷ peers) =
    if accepts peer then some peer else try_federation_forward accepts peers

-- The pipeline object is shared with the dictionary of active pipelines.
unfoldable pub keep : Job → Job
keep j =
    if contains j.ps.pipeline_id (keys j.broker.active_pipelines)
    then record j {
      broker = record j.broker {
        active_pipelines = insert j.ps.pipeline_id j.ps j.broker.active_pipelines;
      };
    }
    else j

abbrev pub first_crash : Option Error → Option Error → Option Error
first_crash none later = later
first_crash (some e) later = some e

-- complete_pipeline, and the pipeline leaves the active ones
unfoldable pub end_pipeline : String → Bool → NeuralBroker → NeuralBroker
end_pipeline pid success b = record b {
  active_pipelines = remove pid b.active_pipelines;
  completions = b.completions ++ (pid, success) ∷ [];
}

abbrev pub reply_of : Option Error → NeuralReply → NeuralReply
reply_of none r = r
reply_of (some e) r = crashed e

-- placement_workers - live_workers
abbrev pub dead_workers : NeuralBroker → PipelineState → List String
dead_workers b ps = filter (λ n. not (contains n (keys b.workers))) (values ps.placement)

module _ (F : Floats) (send : String → String → Bool) (setting : NeuralSetting F) where
  -- asyncio.gather
  unfoldable pub dispatch_all : List String → Job → Job
  dispatch_all [] j = j
  dispatch_all (stage_id ∷ ids) j =
      let j' = keep (
        dispatch_stage F setting.governance setting.alpha setting.beta setting.gamma send stage_id
          j.ps j.broker) in
      dispatch_all ids (record j' { crash = first_crash j.crash j'.crash })

  -- _dispatch_ready_stages, once the ready stages are found
  unfoldable pub dispatch_found : Scan → Job → Job
  dispatch_found scan j =
      let found = keep (record j { ps = scan.ps }) in
      if ends_pipeline send scan.funnel_result
      then (let dropped = drop_pipeline (ending send scan.funnel_result) found in
          record dropped {
            broker = record dropped.broker {
              completions = dropped.broker.completions ++ (j.ps.pipeline_id, false) ∷ [];
            };
          })
      else if is_empty scan.ready
      then found
      else dispatch_all scan.ready (
          keep (record j {
            ps = record scan.ps { dispatched_stages = scan.ready ++ scan.ps.dispatched_stages };
          }))

  unfoldable pub dispatch_ready_stages : ℕ → Job → Job
  dispatch_ready_stages now j =
      if j.ps.failed
      then j
      else dispatch_found
          (find_ready_stages setting.mode setting.timeout_s now (dead_workers j.broker j.ps) j.ps) j

  -- POST /publish, once a placement is found
  unfoldable pub publish_placed :
      ℕ → String → String → PipelineDag → Dict String → NeuralBroker → NeuralBroker × NeuralReply
  publish_placed now pipeline_id pipeline_type dag placement b =
      let ps = new_pipeline pipeline_id pipeline_type dag placement in
      let active = record b { active_pipelines = insert pipeline_id ps b.active_pipelines } in
      let j = dispatch_ready_stages now (record { broker = active; ps = ps; crash = none }) in
      (j.broker, reply_of j.crash dispatched)

  -- Without a placement: a peer may take the request, unless it was forwarded here.
  unfoldable pub publish_elsewhere :
      Bool → (String → Bool) → List String → NeuralBroker → NeuralBroker × NeuralReply
  publish_elsewhere is_forwarded accepts peers b =
      if is_forwarded then (b, no_placement) else elim (try_federation_forward accepts peers) [
        | none ↦ (b, no_placement)
        | some peer ↦ (b, forwarded peer)
      ]

  -- A coordinator pulls the states of the peers first.
  unfoldable pub refreshed : List (Option Value) → NeuralBroker → NeuralBroker
  refreshed answers b = if setting.is_coordinator then fetch_peer_topologies answers b else b

  -- POST /publish, with what _dispatch_placement_on answers
  unfoldable pub publish_decided :
      ℕ
      → String
      → String
      → PipelineDag
      → Bool
      → (String → Bool)
      → List String
      → NeuralBroker
      → Result (Option (Dict String))
      → NeuralBroker × NeuralReply
  publish_decided now pipeline_id pipeline_type dag is_forwarded accepts peers b (raised e) =
      if is_runtime e then publish_elsewhere is_forwarded accepts peers b else (b, crashed e)
  publish_decided now pipeline_id pipeline_type dag is_forwarded accepts peers b (ok none) =
      publish_elsewhere is_forwarded accepts peers b
  publish_decided now pipeline_id pipeline_type dag is_forwarded accepts peers b
        (ok (some placement)) =
      publish_placed now pipeline_id pipeline_type dag placement b

  -- POST /publish: `decide` is _dispatch_placement_on for the graph, and `answers` are those of the
  -- peers to the pull of a coordinator.
  unfoldable pub publish :
      ℕ
      → String
      → String
      → PipelineDag
      → (NeuralBroker → Result (Option (Dict String)))
      → List (Option Value)
      → Bool
      → (String → Bool)
      → List String
      → NeuralBroker
      → NeuralBroker × NeuralReply
  publish now pipeline_id pipeline_type dag decide answers is_forwarded accepts peers b =
      let b' = refreshed answers b in
      if is_empty b'.topology.nodes
      then publish_elsewhere is_forwarded accepts peers b'
      else publish_decided now pipeline_id pipeline_type dag is_forwarded accepts peers b'
          (decide b')

  -- POST /result, once the report is recorded and the load of the stage is released
  unfoldable pub conclude : ℕ → String → NeuralBroker → PipelineState → NeuralBroker × NeuralReply
  conclude now pid b ps =
      if ps.failed
      then (end_pipeline pid false b, pipeline_failed)
      else if same_set send ps.completed_stages ps.all_stages
      then (end_pipeline pid true b, pipeline_complete)
      else let j = dispatch_ready_stages now (record { broker = b; ps = ps; crash = none }) in
        (j.broker, reply_of j.crash stage_recorded)

  -- The report goes into the pipeline, which is active.
  unfoldable pub handle_report :
      ℕ → String → String → String → PipelineState → NeuralBroker → NeuralBroker × NeuralReply
  handle_report now pid stage_id node_id ps b =
      let b' = record b { active_pipelines = insert pid ps b.active_pipelines } in
      elim (get_stage ps.dag stage_id) [
        | raised e ↦ (b', crashed e)
        | ok stage ↦
            conclude now pid (update_worker_load F node_id (sub_ℕ 0 stage.computational_demand) b')
              ps
      ]

  unfoldable pub handle_result :
      ℕ → String → String → String → Bool → NeuralBroker → NeuralBroker × NeuralReply
  handle_result now pid stage_id node_id success b = elim (lookup pid b.active_pipelines) [
    | none ↦ (b, unknown_pipeline)
    | some ps ↦ handle_report now pid stage_id node_id (record_result send stage_id success ps) b
  ]

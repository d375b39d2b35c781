-- ===== src/Broker/Handlers.antt =====
-- src/broker/base.py: the requests that change a baseline broker. A request runs to its end before
-- the next. `send` says whether a stage reaches a worker, by HTTP or by Kafka; `sent` lists the
-- attempts. A KeyError in a task ends the request with `crashed`, after all tasks have run.
use neural_pubsub_experiment.Prelude.{
  ℕ, String, Bool, true, false, Option, none, some, List, [], ◌∷◌, ◌++◌, ◌&&◌, not, if◌then◌else◌,
  contains, filter, Dict, lookup, insert, remove, keys, values, Error, Result, ok, raised,
}
use neural_pubsub_experiment.Dag.{PipelineDag}
use neural_pubsub_experiment.Funnel.{FunnelMode, FunnelAction, FunnelPolicyResult, is_subset}
use neural_pubsub_experiment.Broker.{WorkerInfo, Failure, PipelineState, new_pipeline}
use neural_pubsub_experiment.Broker.Ready.{Scan, find_ready_stages, is_empty}

pub record Broker : Type 0 where
  pub workers : Dict WorkerInfo
  pub active_pipelines : Dict PipelineState
  -- (pipeline, success), as given to the metrics collector
  pub completions : List (String × Bool)
  -- (pipeline, stage), as given to a transport
  pub sent : List (String × String)

pub data Reply : Type 0 where
  registered deregistered not_registered : Reply
  bad_type no_workers dispatched : Reply
  unknown_pipeline pipeline_failed pipeline_complete stage_recorded : Reply
  crashed : Error → Reply

-- What stays the same over all requests: the environment, and the subclass's placement.
pub record Setting : Type 0 where
  pub mode : FunnelMode
  pub timeout_s : ℕ
  pub compute_placement : Dict WorkerInfo → PipelineDag → Result (Dict String)

-- A broker at work on a pipeline: the pipeline object may have left `active_pipelines`.
pub record Work : Type 0 where
  pub broker : Broker
  pub ps : PipelineState
  pub crash : Option Error

-- ps.failed = True; ps.error = …; pop; complete_pipeline(success=False)
unfoldable pub fail_pipeline : Failure → Work → Work
fail_pipeline failure w = record w {
  broker = record w.broker {
    active_pipelines = remove w.ps.pipeline_id w.broker.active_pipelines;
    completions = w.broker.completions ++ (w.ps.pipeline_id, false) ∷ [];
  };
  ps = record w.ps { failed = true; error = some failure };
}

-- The pipeline object is shared with the dictionary of active pipelines.
unfoldable pub store : Work → Work
store w =
    if contains w.ps.pipeline_id (keys w.broker.active_pipelines)
    then record w {
      broker = record w.broker {
        active_pipelines = insert w.ps.pipeline_id w.ps w.broker.active_pipelines;
      };
    }
    else w

-- The stage goes to the transport.
unfoldable pub attempted : String → Work → Work
attempted stage_id w = record w {
  broker = record w.broker { sent = w.broker.sent ++ (w.ps.pipeline_id, stage_id) ∷ [] };
}

module _ (send : String → String → Bool) where
  -- _dispatch_stage, with the worker of the stage
  unfoldable pub dispatch_to : String → String → Work → Work
  dispatch_to stage_id node_id w =
      if contains node_id (keys w.broker.workers)
      then if send stage_id node_id
        then attempted stage_id w
        else fail_pipeline Failure.dispatch_failed (attempted stage_id w)
      else fail_pipeline Failure.worker_missing w

  unfoldable pub dispatch_stage : String → Work → Work
  dispatch_stage stage_id w = elim (lookup stage_id w.ps.placement) [
    | none ↦ record w { crash = some Error.not_placed }
    | some node_id ↦ dispatch_to stage_id node_id w
  ]

  -- asyncio.gather
  unfoldable pub dispatch_all : List String → Work → Work
  dispatch_all [] w = w
  dispatch_all (stage_id ∷ ids) w = dispatch_all ids (dispatch_stage stage_id w)

  abbrev pub failure_of : FunnelAction → Failure
  failure_of FunnelAction.abort_now = Failure.funnel_abort
  failure_of _ = Failure.funnel_fail

  abbrev pub ends_pipeline : Option FunnelPolicyResult → Bool
  ends_pipeline none = false
  ends_pipeline (some r) = r.pipeline_failed

  abbrev pub ending : Option FunnelPolicyResult → Failure
  ending none = Failure.funnel_fail
  ending (some r) = failure_of r.action

  -- _dispatch_ready_stages, once the ready stages are found
  unfoldable pub dispatch_found : Scan → Work → Work
  dispatch_found scan w =
      let w' = store (record w { ps = scan.ps }) in
      if ends_pipeline scan.funnel_result
      then fail_pipeline (ending scan.funnel_result) w'
      else if is_empty scan.ready
      then w'
      else dispatch_all scan.ready (
          store (record w {
            ps = record scan.ps { dispatched_stages = scan.ready ++ scan.ps.dispatched_stages };
          }))

  -- placement_workers - live_workers
  abbrev pub dead_workers : Broker → PipelineState → List String
  dead_workers b ps = filter (λ n. not (contains n (keys b.workers))) (values ps.placement)

  unfoldable pub dispatch_ready_stages : Setting → ℕ → Work → Work
  dispatch_ready_stages setting now w =
      if w.ps.failed
      then w
      else dispatch_found
          (find_ready_stages setting.mode setting.timeout_s now (dead_workers w.broker w.ps) w.ps) w

  abbrev pub reply_of : Option Error → Reply → Reply
  reply_of none r = r
  reply_of (some e) r = crashed e

  -- completed == all, on sets
  abbrev pub same_set : List String → List String → Bool
  same_set xs ys = is_subset xs ys && is_subset ys xs

  -- The report on a stage, as recorded in the pipeline.
  unfoldable pub record_result : String → Bool → PipelineState → PipelineState
  record_result stage_id success ps =
      if success
      then record ps { completed_stages = stage_id ∷ ps.completed_stages }
      else record ps { failed = true; error = some Failure.stage_failed }

  -- _handle_result, for a pipeline that is active
  unfoldable pub handle_report : Setting → ℕ → String → Broker → PipelineState → Broker × Reply
  handle_report setting now pid b ps =
      if ps.failed
      then (
        record b {
          active_pipelines = remove pid b.active_pipelines;
          completions = b.completions ++ (pid, false) ∷ [];
        },
        pipeline_failed,
      )
      else if same_set ps.completed_stages ps.all_stages
      then (
        record b {
          active_pipelines = remove pid b.active_pipelines;
          completions = b.completions ++ (pid, true) ∷ [];
        },
        pipeline_complete,
      )
      else let w =
          dispatch_ready_stages setting now
            (store (record { broker = b; ps = ps; crash = none })) in
        (w.broker, reply_of w.crash stage_recorded)

  unfoldable pub handle_result : Setting → ℕ → String → String → Bool → Broker → Broker × Reply
  handle_result setting now pipeline_id stage_id success b =
      elim (lookup pipeline_id b.active_pipelines) [
        | none ↦ (b, unknown_pipeline)
        | some ps ↦ handle_report setting now pipeline_id b (record_result stage_id success ps)
      ]

  -- POST /publish, once a placement is computed.
  unfoldable pub publish_placed :
      Setting → ℕ → String → String → PipelineDag → Broker → Result (Dict String) → Broker × Reply
  publish_placed setting now pipeline_id pipeline_type dag b (raised e) = (b, crashed e)
  publish_placed setting now pipeline_id pipeline_type dag b (ok placement) =
      let ps = new_pipeline pipeline_id pipeline_type dag placement in
      let b' = record b { active_pipelines = insert pipeline_id ps b.active_pipelines } in
      let w = dispatch_ready_stages setting now (record { broker = b'; ps = ps; crash = none }) in
      (w.broker, reply_of w.crash dispatched)

  -- POST /publish: the graph is what `_build_dag` made of the request, if the type is known.
  unfoldable pub publish :
      Setting → ℕ → String → String → Option PipelineDag → Broker → Broker × Reply
  publish setting now pipeline_id pipeline_type none b = (b, bad_type)
  publish setting now pipeline_id pipeline_type (some dag) b =
      if is_empty (keys b.workers)
      then (b, no_workers)
      else publish_placed setting now pipeline_id pipeline_type dag b
          (setting.compute_placement b.workers dag)

unfoldable pub register : WorkerInfo → Broker → Broker × Reply
register worker b = (record b { workers = insert worker.node_id worker b.workers }, registered)

unfoldable pub deregister : String → Broker → Broker × Reply
deregister node_id b =
    if contains node_id (keys b.workers)
    then (record b { workers = remove node_id b.workers }, deregistered)
    else (b, not_registered)

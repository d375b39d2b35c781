-- ===== src/Neural/Requested.antt =====
-- src/broker/neural_broker.py: the topology mirrors the registry of workers, over all requests. The
-- health loop is left out here: the load that a probe reports goes into the registry alone.
use neural_pubsub_experiment.Prelude.{
  ℕ, String, Bool, Option, none, some, List, [], ◌∷◌, ◌++◌, if_ind, Dict, lookup, insert, keys,
  contains, Error, Result, ok, raised,
}
use neural_pubsub_experiment.Prelude.Int.{pos, sub_ℕ}
use neural_pubsub_experiment.Dag.{PipelineDag, Stage, get_stage}
use neural_pubsub_experiment.Placement.Float.{Floats}
use neural_pubsub_experiment.Broker.{Failure, PipelineState, new_pipeline}
use neural_pubsub_experiment.Broker.Ready.{Scan}
use neural_pubsub_experiment.Broker.Handlers.{same_set, ends_pipeline, ending, record_result}
use neural_pubsub_experiment.Static.{is_empty}
use neural_pubsub_experiment.Neural.{NeuralBroker, update_worker_load, new_neural}
use neural_pubsub_experiment.Wire.{Value}
use neural_pubsub_experiment.Neural.Pull.{fetch_peer_topologies}
use neural_pubsub_experiment.Neural.Mirror.{
  Change, IsMirror, change, change-IsMirror, new_neural-IsMirror, update_worker_load-IsMirror,
}
use neural_pubsub_experiment.Neural.Recovery.{
  Job, Replacement, replaced, not_replaced, broken, is_runtime, reachable, attempt, count_failure,
  drop_pipeline, after_retry, dispatch_known, dispatch_stage,
}
use neural_pubsub_experiment.Neural.Requests.{
  NeuralReply, NeuralSetting, keep, try_federation_forward, publish_elsewhere, dispatch_all,
  dispatch_found, dispatch_ready_stages, publish_placed, publish, publish_decided, refreshed,
  end_pipeline, conclude, handle_report, handle_result,
}

module _ {ℓ κ ρ} {A : Type ℓ} {B : Type κ} where
  option_ind :
      (P : B → Type ρ) (n : B) (f : A → B) (o : Option A)
      → P n
      → ((x : A) → P (f x))
      → P (elim o [ none ↦ n | some x ↦ f x ])
  option_ind P n f none h g = h
  option_ind P n f (some x) h g = g x

  result_ind :
      (P : B → Type ρ) (r : Error → B) (f : A → B) (o : Result A)
      → ((e : Error) → P (r e))
      → ((x : A) → P (f x))
      → P (elim o [ raised e ↦ r e | ok x ↦ f x ])
  result_ind P r f (raised e) h g = h e
  result_ind P r f (ok x) h g = g x

-- The broker of a job, and of a reply.
abbrev Still : Job → Type 0
Still j = IsMirror j.broker

abbrev Kept : NeuralBroker × NeuralReply → Type 0
Kept r = IsMirror r.0

drop_pipeline-Still : (failure : Failure) (j : Job) → Still j → Still (drop_pipeline failure j)
unfolding drop_pipeline
drop_pipeline-Still failure j m = record { same = m.same; keyed = m.keyed }

attempt-IsMirror :
    (stage_id node_id : String) (b : NeuralBroker)
    → IsMirror b
    → IsMirror (attempt stage_id node_id b)
unfolding attempt
attempt-IsMirror stage_id node_id b m = record { same = m.same; keyed = m.keyed }

keep-Still : (j : Job) → Still j → Still (keep j)
unfolding keep
keep-Still j m =
    if_ind Still (contains j.ps.pipeline_id (keys j.broker.active_pipelines))
      (λ _. record { same = m.same; keyed = m.keyed }) (λ _. m)

-- The requests of a broker, each run to its end: a change of the registry, /publish with the
-- decision on a placement and the answers of the peers, and /result.
pub data NeuralRequest : Type 0 where
  on_registry : Change → NeuralRequest
  on_publish :
      ℕ
      → String
      → String
      → PipelineDag
      → (NeuralBroker → Result (Option (Dict String)))
      → List (Option Value)
      → Bool
      → (String → Bool)
      → List String
      → NeuralRequest
  on_result : ℕ → String → String → String → Bool → NeuralRequest

module _ (F : Floats) (send : String → String → Bool) (setting : NeuralSetting F) where
  -- The stage is given up, and its load released.
  given_up :
      (node_id : String) (demand : ℕ) (b : NeuralBroker) (ps : PipelineState)
      → IsMirror b
      → Still (
          drop_pipeline Failure.dispatch_failed (record {
            broker = update_worker_load F node_id (sub_ℕ 0 demand) b;
            ps = ps;
            crash = none;
          }))
  given_up node_id demand b ps m =
      drop_pipeline-Still Failure.dispatch_failed _
        (update_worker_load-IsMirror F node_id (sub_ℕ 0 demand) b m)

  after_retry-Still :
      (stage_id node_id : String) (demand : ℕ) (b : NeuralBroker) (r : PipelineState × Replacement)
      → IsMirror b
      → Still (
          after_retry F setting.governance setting.alpha setting.beta setting.gamma send stage_id
            node_id demand b r)
  unfolding after_retry
  after_retry-Still stage_id node_id demand b (ps, broken e) m = m
  after_retry-Still stage_id node_id demand b (ps, not_replaced) m = given_up node_id demand b ps m
  after_retry-Still stage_id node_id demand b (ps, replaced) m =
      option_ind Still _ _ (lookup stage_id ps.placement) m λ new.
        if_ind Still (contains new (keys b.workers))
          (λ _.
            if_ind Still (send stage_id new) (λ _. attempt-IsMirror stage_id new b m)
              (λ _.
                given_up node_id demand (attempt stage_id new b) ps
                  (attempt-IsMirror stage_id new b m)))
          (λ _. given_up node_id demand b ps m)

  dispatch_known-Still :
      (stage_id node_id : String) (stage : Stage) (ps : PipelineState) (b : NeuralBroker)
      → IsMirror b
      → Still (
          dispatch_known F setting.governance setting.alpha setting.beta setting.gamma send stage_id
            node_id stage ps b)
  unfolding dispatch_known count_failure
  dispatch_known-Still stage_id node_id stage ps b m =
      let reserved = update_worker_load F node_id (pos stage.computational_demand) b in
      let m' =
        attempt-IsMirror stage_id node_id reserved
          (update_worker_load-IsMirror F node_id (pos stage.computational_demand) b m) in
      if_ind Still (send stage_id node_id) (λ _. m')
        (λ _.
          after_retry-Still stage_id node_id stage.computational_demand
            (count_failure node_id (attempt stage_id node_id reserved)) _
            (record { same = m'.same; keyed = m'.keyed }))

  dispatch_stage-Still :
      (stage_id : String) (ps : PipelineState) (b : NeuralBroker)
      → IsMirror b
      → Still (
          dispatch_stage F setting.governance setting.alpha setting.beta setting.gamma send stage_id
            ps b)
  unfolding dispatch_stage
  dispatch_stage-Still stage_id ps b m =
      option_ind Still _ _ (lookup stage_id ps.placement) m λ node_id.
        if_ind Still (reachable node_id b)
          (λ _.
            result_ind Still _ _ (get_stage ps.dag stage_id) (λ _. m)
              (λ stage. dispatch_known-Still stage_id node_id stage ps b m))
          (λ _. drop_pipeline-Still Failure.worker_missing _ m)

  dispatch_all-Still :
      (ids : List String) (j : Job) → Still j → Still (dispatch_all F send setting ids j)
  unfolding dispatch_all
  dispatch_all-Still [] j m = m
  dispatch_all-Still (stage_id ∷ ids) j m = dispatch_all-Still ids _ (
      let m' = keep-Still _ (dispatch_stage-Still stage_id j.ps j.broker m) in
      record { same = m'.same; keyed = m'.keyed })

  dispatch_found-Still :
      (scan : Scan) (j : Job) → Still j → Still (dispatch_found F send setting scan j)
  unfolding dispatch_found
  dispatch_found-Still scan j m =
      let m' = keep-Still (record j { ps = scan.ps }) m in
      if_ind Still (ends_pipeline send scan.funnel_result)
        (λ _.
          let d = drop_pipeline-Still (ending send scan.funnel_result) _ m' in
          record { same = d.same; keyed = d.keyed })
        λ _.
          if_ind Still (is_empty scan.ready) (λ _. m')
            (λ _. dispatch_all-Still scan.ready _ (
              keep-Still
                (record j {
                  ps = record scan.ps {
                    dispatched_stages = scan.ready ++ scan.ps.dispatched_stages;
                  };
                })
                m))

  dispatch_ready_stages-Still :
      (now : ℕ) (j : Job) → Still j → Still (dispatch_ready_stages F send setting now j)
  unfolding dispatch_ready_stages
  dispatch_ready_stages-Still now j m =
      if_ind Still j.ps.failed (λ _. m) (λ _. dispatch_found-Still _ j m)

  elsewhere-Kept :
      (is_forwarded : Bool) (accepts : String → Bool) (peers : List String) (b : NeuralBroker)
      → IsMirror b
      → Kept (publish_elsewhere F send setting is_forwarded accepts peers b)
  unfolding publish_elsewhere
  elsewhere-Kept is_forwarded accepts peers b m =
      if_ind Kept is_forwarded (λ _. m)
        (λ _. option_ind Kept _ _ (try_federation_forward accepts peers) m (λ _. m))

  publish_placed-Kept :
      (now : ℕ) (pid kind : String) (dag : PipelineDag) (placement : Dict String) (b : NeuralBroker)
      → IsMirror b
      → Kept (publish_placed F send setting now pid kind dag placement b)
  unfolding publish_placed
  publish_placed-Kept now pid kind dag placement b m =
      dispatch_ready_stages-Still now
        (record {
          broker = record b {
            active_pipelines = insert pid (new_pipeline pid kind dag placement) b.active_pipelines;
          };
          ps = new_pipeline pid kind dag placement;
          crash = none;
        })
        (record { same = m.same; keyed = m.keyed })

  refreshed-IsMirror :
      (answers : List (Option Value)) (b : NeuralBroker)
      → IsMirror b
      → IsMirror (refreshed F send setting answers b)
  unfolding refreshed fetch_peer_topologies
  refreshed-IsMirror answers b m =
      if_ind IsMirror setting.is_coordinator (λ _. record { same = m.same; keyed = m.keyed })
        (λ _. m)

  publish_decided-Kept :
      (now : ℕ) (pid kind : String) (dag : PipelineDag) (is_forwarded : Bool)
      (accepts : String → Bool) (peers : List String) (b : NeuralBroker)
      (decided : Result (Option (Dict String)))
      → IsMirror b
      → Kept (publish_decided F send setting now pid kind dag is_forwarded accepts peers b decided)
  unfolding publish_decided
  publish_decided-Kept now pid kind dag is_forwarded accepts peers b (raised e) m =
      if_ind Kept (is_runtime e) (λ _. elsewhere-Kept is_forwarded accepts peers b m) (λ _. m)
  publish_decided-Kept now pid kind dag is_forwarded accepts peers b (ok none) m =
      elsewhere-Kept is_forwarded accepts peers b m
  publish_decided-Kept now pid kind dag is_forwarded accepts peers b (ok (some placement)) m =
      publish_placed-Kept now pid kind dag placement b m

  publish-Kept :
      (now : ℕ) (pid kind : String) (dag : PipelineDag)
      (decide : NeuralBroker → Result (Option (Dict String))) (answers : List (Option Value))
      (is_forwarded : Bool) (accepts : String → Bool) (peers : List String) (b : NeuralBroker)
      → IsMirror b
      → Kept (publish F send setting now pid kind dag decide answers is_forwarded accepts peers b)
  unfolding publish
  publish-Kept now pid kind dag decide answers is_forwarded accepts peers b m =
      let b' = refreshed F send setting answers b in
      let m' = refreshed-IsMirror answers b m in
      if_ind Kept (is_empty b'.topology.nodes)
        (λ _. elsewhere-Kept is_forwarded accepts peers b' m')
        (λ _. publish_decided-Kept now pid kind dag is_forwarded accepts peers b' (decide b') m')

  conclude-Kept :
      (now : ℕ) (pid : String) (b : NeuralBroker) (ps : PipelineState)
      → IsMirror b
      → Kept (conclude F send setting now pid b ps)
  unfolding conclude end_pipeline
  conclude-Kept now pid b ps m =
      if_ind Kept ps.failed (λ _. record { same = m.same; keyed = m.keyed })
        λ _.
          if_ind Kept (same_set send ps.completed_stages ps.all_stages)
            (λ _. record { same = m.same; keyed = m.keyed })
            (λ _. dispatch_ready_stages-Still now (record { broker = b; ps = ps; crash = none }) m)

  handle_result-Kept :
      (now : ℕ) (pid sid node_id : String) (success : Bool) (b : NeuralBroker)
      → IsMirror b
      → Kept (handle_result F send setting now pid sid node_id success b)
  unfolding handle_result handle_report
  handle_result-Kept now pid sid node_id success b m =
      option_ind Kept _ _ (lookup pid b.active_pipelines) m λ ps.
        let m' : IsMirror (record b {
          active_pipelines = insert pid (record_result send sid success ps) b.active_pipelines;
        }) =
          record { same = m.same; keyed = m.keyed } in
        result_ind Kept _ _ (get_stage (record_result send sid success ps).dag sid) (λ _. m')
          (λ stage.
            conclude-Kept now pid _ (record_result send sid success ps)
              (update_worker_load-IsMirror F node_id (sub_ℕ 0 stage.computational_demand) _ m'))

  unfoldable pub serve : NeuralRequest → NeuralBroker → NeuralBroker
  serve (on_registry c) b = change F c b
  serve (on_publish now pid kind dag decide answers is_forwarded accepts peers) b =
      (publish F send setting now pid kind dag decide answers is_forwarded accepts peers b).0
  serve (on_result now pid sid node_id success) b =
      (handle_result F send setting now pid sid node_id success b).0

  unfoldable pub serve_all : List NeuralRequest → NeuralBroker → NeuralBroker
  serve_all [] b = b
  serve_all (r ∷ rs) b = serve_all rs (serve r b)

  serve-IsMirror : (r : NeuralRequest) (b : NeuralBroker) → IsMirror b → IsMirror (serve r b)
  unfolding serve
  serve-IsMirror (on_registry c) b m = change-IsMirror F c b m
  serve-IsMirror (on_publish now pid kind dag decide answers is_forwarded accepts peers) b m =
      publish-Kept now pid kind dag decide answers is_forwarded accepts peers b m
  serve-IsMirror (on_result now pid sid node_id success) b m =
      handle_result-Kept now pid sid node_id success b m

  serve_all-keep :
      (rs : List NeuralRequest) (b : NeuralBroker) → IsMirror b → IsMirror (serve_all rs b)
  unfolding serve_all
  serve_all-keep [] b m = m
  serve_all-keep (r ∷ rs) b m = serve_all-keep rs (serve r b) (serve-IsMirror r b m)

  -- From an empty broker, over any sequence of requests, each run to its end (registration,
  -- deregistration, changes of load, /publish with any outcome of the decision, /result), the
  -- topology that the solvers read has one unit for each worker of the registry, in its order and
  -- with its load, and workers stand under their own ids.
  pub serve_all-IsMirror : (rs : List NeuralRequest) → IsMirror (serve_all rs new_neural)
  serve_all-IsMirror rs = serve_all-keep rs new_neural new_neural-IsMirror

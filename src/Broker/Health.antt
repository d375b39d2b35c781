-- ===== src/Broker/Health.antt =====
-- src/broker/base.py: over all requests, a pipeline that is active has not failed.
use neural_pubsub_experiment.Prelude.{
  ℕ, ◌≡◌, refl, ◌∙◌, String, Bool, false, Option, none, some, List, [], ◌∷◌, ◌++◌, contains, arith,
  Dict, lookup, insert, remove, keys, lookup-insert, lookup-remove, Result, ok, raised, Bool-cases,
  Option-cases, inl, inr, if_ind,
}
use neural_pubsub_experiment.Dag.{PipelineDag, stage_ids}
use neural_pubsub_experiment.Broker.{WorkerInfo, Failure, PipelineState, new_pipeline}
use neural_pubsub_experiment.Broker.Ready.{
  Scan, is_empty, after_policy, visit, visit_all, find_ready_stages,
}
use neural_pubsub_experiment.Broker.Handlers.{
  Broker, Reply, Setting, Work, fail_pipeline, store, attempted, dispatch_to, dispatch_stage,
  dispatch_all, dispatch_found, dispatch_ready_stages, record_result, handle_report, handle_result,
  publish, register, deregister, dead_workers, ends_pipeline, same_set, publish_placed,
}

-- What is active is not failed, and stands under its own id.
abbrev pub IsHealthy : Dict PipelineState → Type 0
IsHealthy active =
    (k : String) (ps : PipelineState)
    → lookup k active ≡ some ps
    → (ps.failed ≡ false) × (ps.pipeline_id ≡ k)

remove-IsHealthy :
    (active : Dict PipelineState) (k : String) → IsHealthy active → IsHealthy (remove k active)
remove-IsHealthy active k h j ps e = ground (arith, lookup-remove k j active, h j ps)

insert-IsHealthy :
    (active : Dict PipelineState) (k : String) (ps : PipelineState)
    → ps.failed ≡ false
    → ps.pipeline_id ≡ k
    → IsHealthy active
    → IsHealthy (insert k ps active)
insert-IsHealthy active k ps ok' named h j qs e =
    ground (arith, lookup-insert k j ps active, h j qs)

-- The search for ready stages keeps the identity and the failure of the pipeline.
visit-frame :
    (setting : Setting) (now : ℕ) (dead : List String) (sid : String) (s : Scan)
    → let s' = visit setting.mode setting.timeout_s now dead sid s in
      (s'.ps.failed ≡ s.ps.failed) × (s'.ps.pipeline_id ≡ s.ps.pipeline_id)
unfolding visit after_policy
visit-frame setting now dead sid s = ground arith

visit_all-frame :
    (setting : Setting) (now : ℕ) (dead : List String) (ids : List String) (s : Scan)
    → let s' = visit_all setting.mode setting.timeout_s now dead ids s in
      (s'.ps.failed ≡ s.ps.failed) × (s'.ps.pipeline_id ≡ s.ps.pipeline_id)
unfolding visit_all
visit_all-frame setting now dead [] s = (refl, refl)
visit_all-frame setting now dead (sid ∷ ids) s =
    let first = visit-frame setting now dead sid s in
    let rest =
      visit_all-frame setting now dead ids (visit setting.mode setting.timeout_s now dead sid s) in
    (rest.0 ∙ first.0, rest.1 ∙ first.1)

abbrev Healthy : Broker × Reply → Type 0
Healthy r = IsHealthy r.0.active_pipelines

module _ (send : String → String → Bool) where
  dispatch_stage-IsHealthy :
      (sid : String) (w : Work)
      → IsHealthy w.broker.active_pipelines
      → IsHealthy (dispatch_stage send sid w).broker.active_pipelines
  unfolding dispatch_stage dispatch_to fail_pipeline attempted
  dispatch_stage-IsHealthy sid w h k ps e =
      ground (arith, h k ps, lookup-remove w.ps.pipeline_id k w.broker.active_pipelines)

  dispatch_all-IsHealthy :
      (ids : List String) (w : Work)
      → IsHealthy w.broker.active_pipelines
      → IsHealthy (dispatch_all send ids w).broker.active_pipelines
  unfolding dispatch_all
  dispatch_all-IsHealthy [] w h = h
  dispatch_all-IsHealthy (sid ∷ ids) w h =
      dispatch_all-IsHealthy ids (dispatch_stage send sid w) (dispatch_stage-IsHealthy sid w h)

  store-IsHealthy :
      (w : Work)
      → w.ps.failed ≡ false
      → IsHealthy w.broker.active_pipelines
      → IsHealthy (store w).broker.active_pipelines
  unfolding store
  store-IsHealthy w ok' h k ps e =
      ground (arith, h k ps, lookup-insert w.ps.pipeline_id k w.ps w.broker.active_pipelines)

  fail_pipeline-IsHealthy :
      (f : Failure) (w : Work)
      → IsHealthy w.broker.active_pipelines
      → IsHealthy (fail_pipeline f w).broker.active_pipelines
  unfolding fail_pipeline
  fail_pipeline-IsHealthy f w h = remove-IsHealthy w.broker.active_pipelines w.ps.pipeline_id h

  dispatch_found-IsHealthy :
      (scan : Scan) (w : Work)
      → scan.ps.failed ≡ false
      → IsHealthy w.broker.active_pipelines
      → IsHealthy (dispatch_found send scan w).broker.active_pipelines
  unfolding dispatch_found
  dispatch_found-IsHealthy scan w ok' h =
      let stored = store-IsHealthy (record w { ps = scan.ps }) ok' h in
      let booked = record w {
        ps = record scan.ps { dispatched_stages = scan.ready ++ scan.ps.dispatched_stages };
      } in
      elim (Bool-cases (ends_pipeline send scan.funnel_result)) [
        | inl over ↦ rw (over, dispatch_found) (fail_pipeline-IsHealthy _ _ stored)
        | inr goes ↦ elim (Bool-cases (is_empty scan.ready)) [
          | inl idle ↦ rw (goes, idle, dispatch_found) stored
          | inr busy ↦
              rw (goes, busy, dispatch_found)
                (dispatch_all-IsHealthy scan.ready (store booked) (store-IsHealthy booked ok' h))
        ]
      ]

  dispatch_ready_stages-IsHealthy :
      (setting : Setting) (now : ℕ) (w : Work)
      → IsHealthy w.broker.active_pipelines
      → IsHealthy (dispatch_ready_stages send setting now w).broker.active_pipelines
  unfolding dispatch_ready_stages find_ready_stages
  dispatch_ready_stages-IsHealthy setting now w h =
      let dead = dead_workers send w.broker w.ps in
      let start : Scan = record { ps = w.ps; ready = []; funnel_result = none } in
      let frame = visit_all-frame setting now dead (stage_ids w.ps.dag) start in
      if_ind (λ (v : Work). IsHealthy v.broker.active_pipelines) w.ps.failed (λ bad. h)
        (λ good.
          dispatch_found-IsHealthy
            (visit_all setting.mode setting.timeout_s now dead (stage_ids w.ps.dag) start) w
            (frame.0 ∙ good) h)

  handle_report-IsHealthy :
      (setting : Setting) (now : ℕ) (pid : String) (b : Broker) (ps : PipelineState)
      → IsHealthy b.active_pipelines
      → IsHealthy (handle_report send setting now pid b ps).0.active_pipelines
  unfolding handle_report
  handle_report-IsHealthy setting now pid b ps h =
      let start : Work = record { broker = b; ps = ps; crash = none } in
      if_ind Healthy ps.failed (λ bad. remove-IsHealthy b.active_pipelines pid h)
        λ good.
          if_ind Healthy (same_set send ps.completed_stages ps.all_stages)
            (λ full. remove-IsHealthy b.active_pipelines pid h)
            (λ more.
              dispatch_ready_stages-IsHealthy setting now (store start)
                (store-IsHealthy start good h))

  handle_result-IsHealthy :
      (setting : Setting) (now : ℕ) (pid sid : String) (success : Bool) (b : Broker)
      → IsHealthy b.active_pipelines
      → IsHealthy (handle_result send setting now pid sid success b).0.active_pipelines
  unfolding handle_result
  handle_result-IsHealthy setting now pid sid success b h =
      elim (Option-cases (lookup pid b.active_pipelines)) [
        | inl none' ↦ rw (none', handle_result) h
        | inr (ps, found) ↦
            rw (found, handle_result)
              (handle_report-IsHealthy setting now pid b (record_result send sid success ps) h)
      ]

  publish-IsHealthy :
      (setting : Setting) (now : ℕ) (pid type : String) (dag : Option PipelineDag) (b : Broker)
      → IsHealthy b.active_pipelines
      → IsHealthy (publish send setting now pid type dag b).0.active_pipelines
  unfolding publish publish_placed new_pipeline
  publish-IsHealthy setting now pid type none b h = h
  publish-IsHealthy setting now pid type (some dag) b h =
      if_ind Healthy (is_empty (keys b.workers)) (λ nobody. h)
        (λ somebody. placed (setting.compute_placement b.workers dag))
    where
      placed :
          (r : Result (Dict String)) → Healthy (publish_placed send setting now pid type dag b r)
      placed (raised e) = h
      placed (ok placement) = dispatch_ready_stages-IsHealthy setting now _ (
          insert-IsHealthy b.active_pipelines pid (new_pipeline pid type dag placement) refl refl h)

-- A request, as one step of the broker; `send` is what the transports do during it.
pub data Request : Type 0 where
  publish_request : (pid type : String) → Option PipelineDag → Request
  result_request : (pid sid : String) → (success : Bool) → Request
  register_request : WorkerInfo → Request
  deregister_request : (node_id : String) → Request

unfoldable pub handle :
    Setting → (send : String → String → Bool) → (now : ℕ) → Request → Broker → Broker × Reply
handle setting send now (publish_request pid type dag) b = publish send setting now pid type dag b
handle setting send now (result_request pid sid success) b =
    handle_result send setting now pid sid success b
handle setting send now (register_request worker) b = register worker b
handle setting send now (deregister_request node_id) b = deregister node_id b

-- What a broker comes to, whatever is asked of it and however the transports behave.
pub data Reaches (setting : Setting) (b : Broker) : Broker → Type 0 where
  here : Reaches setting b b
  next :
      {c : Broker} (send : String → String → Bool) (now : ℕ) (r : Request)
      → Reaches setting b c
      → Reaches setting b (handle setting send now r c).0

handle-IsHealthy :
    (setting : Setting) (send : String → String → Bool) (now : ℕ) (r : Request) (b : Broker)
    → IsHealthy b.active_pipelines
    → IsHealthy (handle setting send now r b).0.active_pipelines
unfolding handle register deregister
handle-IsHealthy setting send now (publish_request pid type dag) b h =
    publish-IsHealthy send setting now pid type dag b h
handle-IsHealthy setting send now (result_request pid sid success) b h =
    handle_result-IsHealthy send setting now pid sid success b h
handle-IsHealthy setting send now (register_request worker) b h = h
handle-IsHealthy setting send now (deregister_request node_id) b h =
    if_ind Healthy (contains node_id (keys b.workers)) (λ there. h) (λ absent. h)

-- Condition: the first state is healthy. In every state that a broker reaches from it, by any
-- requests and with any failures of the transports, each active pipeline has not failed and stands
-- under its own id.
pub Reaches-IsHealthy :
    {setting : Setting} {b c : Broker}
    → IsHealthy b.active_pipelines
    → Reaches setting b c
    → IsHealthy c.active_pipelines
Reaches-IsHealthy h here = h
Reaches-IsHealthy {setting} h (next {c = c} send now r path) =
    handle-IsHealthy setting send now r c (Reaches-IsHealthy h path)

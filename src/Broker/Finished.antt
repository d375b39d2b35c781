-- ===== src/Broker/Finished.antt =====
-- src/broker/base.py, `_handle_result`: a pipeline that has ended stays ended.
use neural_pubsub_experiment.Prelude.{
  ℕ, ◌≡◌, refl, String, Bool, true, false, none, arith, lookup, lookup-remove, if_ind, Option-cases,
  inl, inr,
}
use neural_pubsub_experiment.Broker.{PipelineState}
use neural_pubsub_experiment.Broker.Handlers.{
  Broker, Reply, Setting, record_result, handle_report, handle_result, same_set, unknown_pipeline,
}

-- The replies that say that the pipeline has ended.
abbrev pub is_final : Reply → Bool
is_final Reply.pipeline_failed = true
is_final Reply.pipeline_complete = true
is_final _ = false

module _ (send : String → String → Bool) where
  abbrev Gone : String → Broker × Reply → Type 0
  Gone pid r = is_final r.1 ≡ true → lookup pid r.0.active_pipelines ≡ none

  handle_report-Gone :
      (setting : Setting) (now : ℕ) (pid : String) (b : Broker) (ps : PipelineState)
      → Gone pid (handle_report send setting now pid b ps)
  unfolding handle_report
  handle_report-Gone setting now pid b ps =
      if_ind (Gone pid) ps.failed
        (λ bad final. ground (arith, lookup-remove pid pid b.active_pipelines))
        λ good.
          if_ind (Gone pid) (same_set send ps.completed_stages ps.all_stages)
            (λ full final. ground (arith, lookup-remove pid pid b.active_pipelines))
            (λ more final. ground arith)

  handle_result-Gone :
      (setting : Setting) (now : ℕ) (pid sid : String) (success : Bool) (b : Broker)
      → Gone pid (handle_result send setting now pid sid success b)
  unfolding handle_result
  handle_result-Gone setting now pid sid success b final =
      elim (Option-cases (lookup pid b.active_pipelines)) [
        | inl gone ↦ ground (arith, gone)
        | inr (ps, found) ↦
            let report : Gone pid (handle_result send setting now pid sid success b) =
              rw (found, handle_result)
                (handle_report-Gone setting now pid b (record_result send sid success ps)) in
            report final
      ]

  handle_result_unknown :
      (setting : Setting) (now : ℕ) (pid sid : String) (success : Bool) (b : Broker)
      → lookup pid b.active_pipelines ≡ none
      → handle_result send setting now pid sid success b ≡ (b, unknown_pipeline)
  unfolding handle_result
  handle_result_unknown setting now pid sid success b gone = rw (gone, handle_result) refl

  -- Condition: the reply to a report says that the pipeline is complete or has failed. Then every
  -- later report on the pipeline, if nothing else came between, is answered with unknown_pipeline
  -- and changes nothing.
  pub handle_result_once :
      (setting : Setting) (now now' : ℕ) (pid sid sid' : String) (success success' : Bool)
      (b : Broker)
      → is_final (handle_result send setting now pid sid success b).1 ≡ true
      → let b' = (handle_result send setting now pid sid success b).0 in
        handle_result send setting now' pid sid' success' b' ≡ (b', unknown_pipeline)
  handle_result_once setting now now' pid sid sid' success success' b final =
      handle_result_unknown setting now' pid sid' success'
        (handle_result send setting now pid sid success b).0
        (handle_result-Gone setting now pid sid success b final)

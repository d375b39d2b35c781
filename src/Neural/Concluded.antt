-- ===== src/Neural/Concluded.antt =====
-- src/broker/neural_broker.py, /result: the end of a pipeline.
use neural_pubsub_experiment.Prelude.{
  ℕ, ◌≡◌, ◌≢◌, refl, subst, String, Bool, true, false, Option, none, some, List, [], ◌∷◌, ◌++◌,
  contains, if_ind, lookup, lookup-remove, remove, insert, Option-cases, inl, inr, Result, ok,
  raised, arith, Error,
}
use neural_pubsub_experiment.Prelude.Int.{ℤ, sub_ℕ}
use neural_pubsub_experiment.Dag.{get_stage, Stage}
use neural_pubsub_experiment.Placement.Float.{Floats}
use neural_pubsub_experiment.Broker.{PipelineState}
use neural_pubsub_experiment.Broker.Handlers.{same_set, record_result}
use neural_pubsub_experiment.Broker.Completed.{is_subset-contains}
use neural_pubsub_experiment.Neural.{NeuralBroker, load_worker, update_worker_load}
use neural_pubsub_experiment.Neural.Requests.{
  NeuralReply, NeuralSetting, pipeline_failed, pipeline_complete, unknown_pipeline, stage_recorded,
  reply_of, end_pipeline, dispatch_ready_stages, conclude, handle_report, handle_result,
}

remove-none : (pid : String) (d : List (String × PipelineState)) → lookup pid (remove pid d) ≡ none
remove-none pid d = ground (arith, lookup-remove pid pid d)

update_worker_load-completions :
    (F : Floats) (node_id : String) (delta : ℤ) (b : NeuralBroker)
    → (update_worker_load F node_id delta b).completions ≡ b.completions
unfolding update_worker_load load_worker
update_worker_load-completions F node_id delta b = elim (Option-cases (lookup node_id b.workers)) [
  | inl unknown ↦ rw (unknown, update_worker_load) refl
  | inr (w, known) ↦ rw (known, update_worker_load) refl
]

module _ (send : String → String → Bool) where
  -- With a final reply the pipeline is gone, and its end is the newest of the completions.
  abbrev pub IsEnded :
      String → List (String × Bool) → PipelineState → NeuralBroker × NeuralReply → Type 0
  IsEnded pid before ps (b, pipeline_complete) =
      (ps.failed ≡ false)
      × (same_set send ps.completed_stages ps.all_stages ≡ true)
      × (lookup pid b.active_pipelines ≡ none)
      × (b.completions ≡ before ++ (pid, true) ∷ [])
  IsEnded pid before ps (b, pipeline_failed) =
      (ps.failed ≡ true)
      × (lookup pid b.active_pipelines ≡ none)
      × (b.completions ≡ before ++ (pid, false) ∷ [])
  IsEnded pid before ps (b, _) = Unit

  reply_of-IsEnded :
      (pid : String) (before : List (String × Bool)) (ps : PipelineState) (b : NeuralBroker)
      (o : Option Error)
      → IsEnded pid before ps (b, reply_of o stage_recorded)
  reply_of-IsEnded pid before ps b none = tt
  reply_of-IsEnded pid before ps b (some e) = tt

  module _ (F : Floats) (setting : NeuralSetting F) where
    conclude-IsEnded :
        (now : ℕ) (pid : String) (b : NeuralBroker) (ps : PipelineState)
        → IsEnded pid b.completions ps (conclude F send setting now pid b ps)
    unfolding conclude end_pipeline
    conclude-IsEnded now pid b ps =
        if_ind (IsEnded pid b.completions ps) ps.failed
          (λ bad. (bad, remove-none pid b.active_pipelines, refl))
          λ good.
            if_ind (IsEnded pid b.completions ps) (same_set send ps.completed_stages ps.all_stages)
              (λ full. (good, full, remove-none pid b.active_pipelines, refl))
              (λ _.
                let j =
                  dispatch_ready_stages F send setting now
                    (record { broker = b; ps = ps; crash = none }) in
                reply_of-IsEnded pid b.completions ps j.broker j.crash)

    handle_found :
        (now : ℕ) (pid sid node_id : String) (ps : PipelineState) (b : NeuralBroker)
        (r : Result Stage)
        → IsEnded pid b.completions ps (elim r [
          | raised e ↦ (b, NeuralReply.crashed e)
          | ok stage ↦
              conclude F send setting now pid
                (update_worker_load F node_id (sub_ℕ 0 stage.computational_demand) b)
                ps
        ])
    handle_found now pid sid node_id ps b (raised e) = tt
    handle_found now pid sid node_id ps b (ok stage) =
        let b' = update_worker_load F node_id (sub_ℕ 0 stage.computational_demand) b in
        subst (λ before. IsEnded pid before ps (conclude F send setting now pid b' ps))
          (update_worker_load-completions F node_id (sub_ℕ 0 stage.computational_demand) b)
          (conclude-IsEnded now pid b' ps)

    handle_report-IsEnded :
        (now : ℕ) (pid sid node_id : String) (ps : PipelineState) (b : NeuralBroker)
        → IsEnded pid b.completions ps (handle_report F send setting now pid sid node_id ps b)
    unfolding handle_report
    handle_report-IsEnded now pid sid node_id ps b =
        handle_found now pid sid node_id ps
          (record b { active_pipelines = insert pid ps b.active_pipelines }) (get_stage ps.dag sid)

    handle_result-IsEnded :
        (now : ℕ) (pid sid node_id : String) (success : Bool) (b : NeuralBroker)
        (ps : PipelineState)
        → lookup pid b.active_pipelines ≡ some ps
        → IsEnded pid b.completions
            (record_result send sid success ps)
            (handle_result F send setting now pid sid node_id success b)
    unfolding handle_result
    handle_result-IsEnded now pid sid node_id success b ps found =
        rw (found, handle_result)
          (handle_report-IsEnded now pid sid node_id (record_result send sid success ps) b)

    handle_result-active :
        (now : ℕ) (pid sid node_id : String) (success : Bool) (b : NeuralBroker)
        → (handle_result F send setting now pid sid node_id success b).1 ≢ unknown_pipeline
        → (ps : PipelineState) × (lookup pid b.active_pipelines ≡ some ps)
    unfolding handle_result
    handle_result-active now pid sid node_id success b known =
        elim (Option-cases (lookup pid b.active_pipelines)) [
          | inl gone ↦ absurd (known (ground (arith, gone)))
          | inr found ↦ found
        ]

    -- Condition: the neural broker answers a report with pipeline_complete. Then the pipeline is no
    -- longer active, its success is the one new completion, and before the report it was active,
    -- the report was of success, and each of its stages is the reported one or was completed
    -- before.
    pub handle_result-pipeline_complete :
        (now : ℕ) (pid sid node_id : String) (success : Bool) (b : NeuralBroker)
        → (handle_result F send setting now pid sid node_id success b).1 ≡ pipeline_complete
        → (let b' = (handle_result F send setting now pid sid node_id success b).0 in
            (lookup pid b'.active_pipelines ≡ none)
            × (b'.completions ≡ b.completions ++ (pid, true) ∷ []))
          × (ps : PipelineState) × (lookup pid b.active_pipelines ≡ some ps)
          × (success ≡ true)
          × ((x : String)
              → contains x ps.all_stages ≡ true
              → contains x (sid ∷ ps.completed_stages) ≡ true)
    unfolding record_result
    handle_result-pipeline_complete now pid sid node_id success b e =
        let (ps, found) =
          handle_result-active now pid sid node_id success b λ other. ground arith in
        let ended : IsEnded pid b.completions (record_result send sid success ps)
            ((handle_result F send setting now pid sid node_id success b).0, pipeline_complete) =
          subst
            (λ (q : NeuralReply).
              IsEnded pid b.completions (record_result send sid success ps)
                ((handle_result F send setting now pid sid node_id success b).0, q))
            e (handle_result-IsEnded now pid sid node_id success b ps found) in
        let (good, full, gone, last) = ended in
        let positive : success ≡ true = ground (arith, good) in
        (
          (gone, last),
          ps,
          found,
          positive,
          λ x m.
              is_subset-contains ps.all_stages (sid ∷ ps.completed_stages) x
                (ground (arith, positive, full)) m,
        )

-- ===== src/Broker/Completed.antt =====
-- src/broker/base.py, `_handle_result`: when a pipeline is said to be complete.
use neural_pubsub_experiment.Prelude.{
  ℕ, ◌≡◌, String, Bool, true, false, some, List, [], ◌∷◌, arith, lookup, contains, str_dec, if_ind,
  Option-cases, inl, inr,
}
use neural_pubsub_experiment.Funnel.{is_subset}
use neural_pubsub_experiment.Broker.{PipelineState}
use neural_pubsub_experiment.Broker.Handlers.{
  Broker, Reply, Setting, record_result, handle_report, handle_result, same_set, pipeline_complete,
}

pub is_subset-contains :
    (xs ys : List String) (z : String)
    → is_subset xs ys ≡ true
    → contains z xs ≡ true
    → contains z ys ≡ true
unfolding contains
is_subset-contains [] ys z h m = cc
is_subset-contains (x ∷ xs) ys z h m = elim (str_dec z x) [
  | yes e ↦ ground arith
  | no n ↦ is_subset-contains xs ys z (ground arith) (ground arith)
]

module _ (send : String → String → Bool) where
  abbrev Full : PipelineState → Broker × Reply → Type 0
  Full ps r =
      r.1 ≡ pipeline_complete
      → (ps.failed ≡ false) × (same_set send ps.completed_stages ps.all_stages ≡ true)

  handle_report-Full :
      (setting : Setting) (now : ℕ) (pid : String) (b : Broker) (ps : PipelineState)
      → Full ps (handle_report send setting now pid b ps)
  unfolding handle_report
  handle_report-Full setting now pid b ps =
      if_ind (Full ps) ps.failed (λ bad e. ground arith)
        λ good.
          if_ind (Full ps) (same_set send ps.completed_stages ps.all_stages)
            (λ full e. (good, full)) (λ more e. ground arith)

  -- Condition: the reply to a report is pipeline_complete. Then the report was of success, the
  -- pipeline was active, and each of its stages is the reported one or was recorded as completed
  -- before.
  pub handle_result_complete :
      (setting : Setting) (now : ℕ) (pid sid : String) (success : Bool) (b : Broker)
      → (handle_result send setting now pid sid success b).1 ≡ pipeline_complete
      → (ps : PipelineState) × (lookup pid b.active_pipelines ≡ some ps)
        × (success ≡ true)
        × ((x : String)
            → contains x ps.all_stages ≡ true
            → contains x (sid ∷ ps.completed_stages) ≡ true)
  unfolding handle_result record_result
  handle_result_complete setting now pid sid success b e =
      elim (Option-cases (lookup pid b.active_pipelines)) [
        | inl gone ↦ absurd (ground (arith, gone))
        | inr (ps, found) ↦
            let (good, full) =
              handle_report-Full setting now pid b (record_result send sid success ps)
                (rw (found, handle_result) at e) in
            let positive : success ≡ true = ground arith in
            (
              ps,
              found,
              positive,
              λ x m.
                  is_subset-contains ps.all_stages (sid ∷ ps.completed_stages) x
                    (ground (arith, positive)) m,
            )
      ]

-- ===== src/Neural/Recovery.antt =====
-- src/broker/neural_broker.py: the stages of a dead worker, and a stage that does not reach its worker,
-- get the node that a new run of the solver gives them. `send` says whether a stage reaches a worker.
use neural_pubsub_experiment.Prelude.{
  ℕ, ◌+◌, String, Bool, true, false, Option, none, some, List, [], ◌∷◌, ◌++◌, contains,
  if◌then◌else◌, Dict, lookup, insert, remove, get_or, keys, Error, Result, ok, raised,
}
use neural_pubsub_experiment.Prelude.Int.{pos, sub_ℕ}
use neural_pubsub_experiment.Dag.{Stage, PipelineDag, get_stage}
use neural_pubsub_experiment.Placement.{GovernancePolicy}
use neural_pubsub_experiment.Placement.Float.{Floats}
use neural_pubsub_experiment.Placement.Spread.{find_placement}
use neural_pubsub_experiment.Broker.{Failure, PipelineState}
use neural_pubsub_experiment.Static.{is_empty}
use neural_pubsub_experiment.Static.Recovery.{stages_to_replace}
use neural_pubsub_experiment.Sharded.{as_topology}
use neural_pubsub_experiment.Neural.{NeuralBroker, rebuild_topology, update_worker_load}

-- RuntimeError, which the handlers catch; the others go through.
abbrev pub is_runtime : Error → Bool
is_runtime Error.no_feasible_node = true
is_runtime Error.no_local_workers = true
is_runtime Error.not_sorted = true
is_runtime Error.no_workers = true
is_runtime Error.no_eligible_worker = true
is_runtime _ = false

pub data Replacement : Type 0 where
  replaced not_replaced : Replacement
  broken : Error → Replacement

-- for sid in stages_to_replace: ps.placement[sid] = new_placement[sid]
unfoldable pub cherry_pick : List String → Dict String → PipelineState → PipelineState × Replacement
cherry_pick [] new_placement ps = (ps, replaced)
cherry_pick (sid ∷ sids) new_placement ps = elim (lookup sid new_placement) [
  | none ↦ (ps, broken Error.not_placed)
  | some node_id ↦
      cherry_pick sids new_placement (record ps { placement = insert sid node_id ps.placement })
]

-- _remove_dead_worker, up to the re-placement
unfoldable pub evict : String → NeuralBroker → NeuralBroker
evict node_id b =
    let forgot = record b { worker_failures = remove node_id b.worker_failures } in
    if contains node_id (keys b.workers)
    then rebuild_topology (record forgot { workers = remove node_id b.workers })
    else forgot

-- A pipeline and its broker, and the KeyError that ended the task.
pub record Job : Type 0 where
  pub broker : NeuralBroker
  pub ps : PipelineState
  pub crash : Option Error

-- The url that the stage goes to is of a worker of this broker, or of a peer.
abbrev pub reachable : String → NeuralBroker → Bool
reachable node_id b =
    if contains node_id (keys b.workers) then true else contains node_id (keys b.peer_worker_urls)

-- ps.failed = True; ps.error = …; pop, and no word to the metrics collector
unfoldable pub drop_pipeline : Failure → Job → Job
drop_pipeline failure j = record j {
  broker = record j.broker { active_pipelines = remove j.ps.pipeline_id j.broker.active_pipelines };
  ps = record j.ps { failed = true; error = some failure };
}

unfoldable pub attempt : String → String → NeuralBroker → NeuralBroker
attempt stage_id node_id b = record b { sent = b.sent ++ (stage_id, node_id) ∷ [] }

-- The failed dispatch counts as a failed probe.
unfoldable pub count_failure : String → NeuralBroker → NeuralBroker
count_failure node_id b = record b {
  worker_failures = insert node_id (get_or node_id 0 b.worker_failures + 1) b.worker_failures;
}

module _ (F : Floats) (governance : GovernancePolicy) (alpha beta gamma : F.Float) where
  abbrev pub solve : PipelineDag → NeuralBroker → Result (Dict String)
  solve dag b = find_placement dag (as_topology b.topology) governance F alpha beta gamma

  abbrev pub outcome_of : Error → Replacement
  outcome_of e = if is_runtime e then not_replaced else broken e

  -- Some stages of a pipeline are placed anew, if there are nodes and the solver answers.
  unfoldable pub place_anew :
      List String → PipelineState → NeuralBroker → PipelineState × Replacement
  place_anew sids ps b =
      if is_empty b.topology.nodes then (ps, not_replaced) else elim (solve ps.dag b) [
        | raised e ↦ (ps, outcome_of e)
        | ok new_placement ↦ cherry_pick sids new_placement ps
      ]

  -- One affected pipeline of _replace_failed_stages, up to the dispatch or the failure that follows.
  unfoldable pub replace_stages_in :
      Bool → String → PipelineState → NeuralBroker → PipelineState × Replacement
  replace_stages_in bypass dead_node_id ps b =
      let sids = stages_to_replace bypass dead_node_id ps in
      if is_empty sids then (ps, replaced) else place_anew sids ps b

  module _ (send : String → String → Bool) where
    -- What follows a dispatch that failed, once the stage is placed anew or not.
    unfoldable pub after_retry :
        String → String → ℕ → NeuralBroker → PipelineState × Replacement → Job
    after_retry stage_id node_id demand b (ps, broken e) = record {
      broker = b;
      ps = ps;
      crash = some e;
    }
    after_retry stage_id node_id demand b (ps, not_replaced) =
        drop_pipeline Failure.dispatch_failed (record {
          broker = update_worker_load F node_id (sub_ℕ 0 demand) b;
          ps = ps;
          crash = none;
        })
    after_retry stage_id node_id demand b (ps, replaced) = elim (lookup stage_id ps.placement) [
      | none ↦ record { broker = b; ps = ps; crash = some Error.not_placed }
      | some new_node_id ↦
          if contains new_node_id (keys b.workers)
          then if send stage_id new_node_id
            then record { broker = attempt stage_id new_node_id b; ps = ps; crash = none }
            else drop_pipeline Failure.dispatch_failed (record {
              broker =
                  update_worker_load F node_id (sub_ℕ 0 demand) (attempt stage_id new_node_id b);
              ps = ps;
              crash = none;
            })
          else drop_pipeline Failure.dispatch_failed (record {
            broker = update_worker_load F node_id (sub_ℕ 0 demand) b;
            ps = ps;
            crash = none;
          })
    ]

    -- A stage goes to a worker that is known, and its load is reserved.
    unfoldable pub dispatch_known : String → String → Stage → PipelineState → NeuralBroker → Job
    dispatch_known stage_id node_id stage ps b =
        let reserved =
          attempt stage_id node_id
            (update_worker_load F node_id (pos stage.computational_demand) b) in
        let counted = count_failure node_id reserved in
        if send stage_id node_id
        then record { broker = reserved; ps = ps; crash = none }
        else after_retry stage_id node_id stage.computational_demand counted
            (place_anew (stage_id ∷ []) ps counted)

    -- _dispatch_stage
    unfoldable pub dispatch_stage : String → PipelineState → NeuralBroker → Job
    dispatch_stage stage_id ps b = elim (lookup stage_id ps.placement) [
      | none ↦ record { broker = b; ps = ps; crash = some Error.not_placed }
      | some node_id ↦
          if reachable node_id b
          then elim (get_stage ps.dag stage_id) [
            | raised e ↦ record { broker = b; ps = ps; crash = some e }
            | ok stage ↦ dispatch_known stage_id node_id stage ps b
          ]
          else drop_pipeline Failure.worker_missing (record { broker = b; ps = ps; crash = none })
    ]

-- ===== src/Static/Recovery.antt =====
-- src/broker/static_broker.py: what the health loop counts, and how the stages of a dead worker are
-- placed again. The probes' answers are arguments.
use neural_pubsub_experiment.Prelude.{
  ℕ, ◌+◌, String, Bool, not, ◌&&◌, ◌==◌, leb, if◌then◌else◌, Option, none, some, List, [], ◌∷◌,
  ◌++◌, contains, filter, Dict, insert, remove, get_or, Error, ok, raised, ◌>>=◌,
}
use neural_pubsub_experiment.Dag.{get_stage}
use neural_pubsub_experiment.Funnel.{find_funnel_predecessor_stages}
use neural_pubsub_experiment.Broker.{PipelineState}
use neural_pubsub_experiment.Static.{StaticBroker, pick_worker, is_empty}

-- The counts of failures in a row, and the workers found dead in this round.
pub record Probed : Type 0 where
  pub failures : Dict ℕ
  pub dead_workers : List String

module _ (max_failures : ℕ) where
  -- One result of the probes.
  unfoldable pub count_probe : String → Bool → Probed → Probed
  count_probe node_id healthy p =
      let count = get_or node_id 0 p.failures + 1 in
      if healthy then record p { failures = remove node_id p.failures } else record {
        failures = insert node_id count p.failures;
        dead_workers =
            if leb max_failures count then p.dead_workers ++ node_id ∷ [] else p.dead_workers;
      }

  unfoldable pub count_probes : List (String × Bool) → Probed → Probed
  count_probes [] p = p
  count_probes ((node_id, healthy) ∷ results) p =
      count_probes results (count_probe node_id healthy p)

-- A pipeline and the broker, as the loop over the stages leaves them.
pub record Replacing (Gen : Type 0) : Type 0 where
  pub ps : PipelineState
  pub broker : StaticBroker Gen
  -- the exception that ended the loop
  pub error : Option Error

-- The stages of the pipeline that stand on the worker and are not done.
unfoldable pub dead_stages_of : String → Dict String → List String → List String
dead_stages_of dead_node_id [] completed = []
dead_stages_of dead_node_id ((sid, nid) ∷ placement) completed =
    let rest = dead_stages_of dead_node_id placement completed in
    if nid == dead_node_id && not (contains sid completed) then sid ∷ rest else rest

unfoldable pub stages_to_replace : Bool → String → PipelineState → List String
stages_to_replace bypass dead_node_id ps =
    let dead_stages = dead_stages_of dead_node_id ps.placement ps.completed_stages in
    if bypass
    then filter (λ sid. not (contains sid (find_funnel_predecessor_stages ps.dag))) dead_stages
    else dead_stages

module _ {Gen : Type 0} (choice : Gen → List String → String × Gen) where
  -- ps.placement[sid] = self._pick_worker(…), stage by stage
  unfoldable pub replace_stages : List String → PipelineState → StaticBroker Gen → Replacing Gen
  replace_stages [] ps b = record { ps = ps; broker = b; error = none }
  replace_stages (sid ∷ sids) ps b =
      elim (get_stage ps.dag sid >>= (λ stage. pick_worker choice stage.slice_requirement b)) [
        | raised e ↦ record { ps = ps; broker = b; error = some e }
        | ok (node_id, b') ↦
            replace_stages sids (record ps { placement = insert sid node_id ps.placement }) b'
      ]

  -- One affected pipeline of _replace_failed_stages, up to the dispatch or the failure that follows.
  unfoldable pub replace_in : Bool → String → PipelineState → StaticBroker Gen → Replacing Gen
  replace_in bypass dead_node_id ps b =
      let sids = stages_to_replace bypass dead_node_id ps in
      if is_empty sids
      then record { ps = ps; broker = b; error = none }
      else if is_empty b.workers
      then record { ps = ps; broker = b; error = some Error.no_workers }
      else replace_stages sids ps b

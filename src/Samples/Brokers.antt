-- ===== src/Samples/Brokers.antt =====
-- The theorems on brokers (src/broker/base.py and funnel_resilience.py) at the samples.
use neural_pubsub_experiment.Prelude.{
  lookup, ◌≡◌, refl, String, Bool, true, false, ◌&&◌, some, [], ◌∷◌, contains, lookup, insert, ok,
  str_dec,
}
use neural_pubsub_experiment.Dag.{stage_ids, empty_dag, append_at}
use neural_pubsub_experiment.Funnel.{FunnelMode}
use neural_pubsub_experiment.Broker.{WorkerInfo, PipelineState, new_pipeline}
use neural_pubsub_experiment.Broker.Ready.{visit, visit_all, find_ready_stages}
use neural_pubsub_experiment.Broker.Dispatchable.{
  is_open, inputs_complete, find_ready_stages-Strict,
}
use neural_pubsub_experiment.Broker.Completed.{handle_result_complete}
use neural_pubsub_experiment.Broker.Finished.{is_final, handle_result_once}
use neural_pubsub_experiment.Broker.Handlers.{
  pipeline_complete, Reply, unknown_pipeline, handle_result, handle_report, record_result, Broker,
  Setting,
}
use neural_pubsub_experiment.Broker.Health.{
  IsHealthy, publish_request, result_request, register_request, handle, here, next,
  Reaches-IsHealthy,
}
use neural_pubsub_experiment.Samples.{linked, spread}

abbrev started : PipelineState
started = new_pipeline "p" "chain" linked spread

find_ready_stages-Strict_example :
    contains "b" (find_ready_stages FunnelMode.wait 30 5 [] started).ready
    ≡ (contains "b" (stage_ids started.dag) && (is_open started "b" && inputs_complete started "b"))
find_ready_stages-Strict_example =
    find_ready_stages-Strict FunnelMode.wait 30 5 [] started (λ e. cc) "b"

ready_run : contains "a" (find_ready_stages FunnelMode.proceed 30 5 [] started).ready ≡ true
unfolding find_ready_stages visit_all visit new_pipeline empty_dag append_at insert contains str_dec
ready_run = refl

abbrev setting : Setting
setting = record { mode = FunnelMode.wait; timeout_s = 30; compute_placement = λ ws dag. ok spread }

abbrev idle : Broker
idle = record { workers = []; active_pipelines = []; completions = []; sent = [] }

idle-IsHealthy : IsHealthy idle.active_pipelines
unfolding lookup
idle-IsHealthy k ps e = cc

abbrev always : String → String → Bool
always stage_id node_id = true

abbrev worker : WorkerInfo
worker = record {
  node_id = "west1";
  domain_id = "west";
  slice_id = "flat";
  capacity = 10;
  url = "http://west1";
  current_load = 0;
  bid_cost_ms = 0;
}

abbrev enrolled : Broker
enrolled = (handle setting always 1 (register_request worker) idle).0

abbrev busy : Broker
busy = (handle setting always 2 (publish_request "p" "chain" (some linked)) enrolled).0

-- The report on the first stage makes the broker turn to the second, whose worker is missing.
abbrev bereft : Broker
bereft = (handle setting always 3 (result_request "p" "a" true) busy).0

Reaches-IsHealthy_example : IsHealthy bereft.active_pipelines
Reaches-IsHealthy_example =
    Reaches-IsHealthy {setting = setting} {b = idle} {c = bereft} idle-IsHealthy (
      next always 3 (result_request "p" "a" true) (
        next always 2 (publish_request "p" "chain" (some linked))
          (next always 1 (register_request worker) here)))

abbrev waiting : Broker
waiting = record {
  workers = [];
  active_pipelines = ("p", started) ∷ [];
  completions = [];
  sent = [];
}

-- The report that the first stage has failed.
abbrev failed_report : Broker × Reply
failed_report = handle_result always setting 4 "p" "a" false waiting

failed_run : is_final failed_report.1 ≡ true
unfolding handle_result handle_report record_result new_pipeline lookup str_dec
failed_run = refl

handle_result_once_example :
    handle_result always setting 9 "p" "a" true failed_report.0
    ≡ (failed_report.0, unknown_pipeline)
handle_result_once_example =
    handle_result_once always setting 4 9 "p" "a" "a" false true waiting failed_run

abbrev halfway : PipelineState
halfway = record started { completed_stages = "a" ∷ []; dispatched_stages = "a" ∷ "b" ∷ [] }

abbrev last_awaited : Broker
last_awaited = record waiting { active_pipelines = ("p", halfway) ∷ [] }

complete_run : (handle_result always setting 5 "p" "b" true last_awaited).1 ≡ pipeline_complete
unfolding handle_result handle_report record_result new_pipeline empty_dag insert lookup contains
    str_dec
complete_run = refl

handle_result_complete_example :
    (ps : PipelineState) × (lookup "p" last_awaited.active_pipelines ≡ some ps)
    × (true ≡ true)
    × ((x : String)
        → contains x ps.all_stages ≡ true
        → contains x ("b" ∷ ps.completed_stages) ≡ true)
handle_result_complete_example =
    handle_result_complete always setting 5 "p" "b" true last_awaited complete_run

-- ===== src/Samples/Requests.antt =====
-- The theorems on the requests of a neural broker (src/broker/neural_broker.py) and on
-- measurements (src/measurement) at the samples.
use neural_pubsub_experiment.Prelude.{
  ℕ, ◌+◌, ◌/◌, ◌≤◌, ◌≡◌, ◌⊎◌, refl, String, Bool, true, false, some, none, [], ◌∷◌, ◌++◌, ◌==◌,
  str_dec, contains, lookup, insert, ok, ltb, length,
}
use neural_pubsub_experiment.Dag.{empty_dag, append_at, get_stage}
use neural_pubsub_experiment.Funnel.{FunnelMode}
use neural_pubsub_experiment.Broker.{WorkerInfo, PipelineState, new_pipeline}
use neural_pubsub_experiment.Broker.Handlers.{record_result}
use neural_pubsub_experiment.Neural.{NeuralBroker, new_neural, update_worker_load}
use neural_pubsub_experiment.Neural.Mirror.{IsMirror, Change}
use neural_pubsub_experiment.Neural.Requests.{
  refreshed, NeuralSetting, forwarded, pipeline_complete, try_federation_forward, publish_elsewhere,
  publish, conclude, handle_report, handle_result,
}
use neural_pubsub_experiment.Neural.Forwarding.{Undecided, IsFirstTaker, publish_forwarded_iff}
use neural_pubsub_experiment.Neural.Pull.{pull_urls, pull, pull_all, fetch_peer_topologies}
use neural_pubsub_experiment.Sharded.Snapshot.{
  topology_to_snapshot, snapshot_to_topology, snapshot_to_worker_urls, insert_all, url_to_value,
  value_to_url,
}
use neural_pubsub_experiment.Static.{is_empty}
use neural_pubsub_experiment.Wire.{Value, get, entry_of, items, decode_items}
use neural_pubsub_experiment.Prelude.{◌↔◌, Option, Result, Dict}
use neural_pubsub_experiment.Neural.Concluded.{handle_result-pipeline_complete}
use neural_pubsub_experiment.Neural.Requested.{NeuralRequest, serve_all, serve_all-IsMirror}
use neural_pubsub_experiment.Measurement.{Statistics, new_detector, is_steady_state}
use neural_pubsub_experiment.Prelude.{List, not, ◌&&◌}
use neural_pubsub_experiment.Prelude.Pairs.{find, assign}
use neural_pubsub_experiment.Prelude.Sorts.{sort_with, sort_onto, insert_with}
use neural_pubsub_experiment.Measurement.Adaptation.{
  FailureEvent, record_failure, record_detection_complete, record_recovery, pending_at, close,
  pair_event, pair_events, sorted_events, adaptation_times_ms, replacement_times_ms,
}
use neural_pubsub_experiment.Measurement.Paired.{
  match_events, replacement_times_ms_lem, adaptation_times_ms_lem,
}
use neural_pubsub_experiment.Measurement.Window.{
  record_samples, is_steady_after, is_steady_state-record_samples, record_samples_bounded,
}
use neural_pubsub_experiment.Samples.{linked, governance, whole, spread}

abbrev always : String → String → Bool
always stage_id node_id = true

abbrev setting : NeuralSetting whole
setting = record {
  mode = FunnelMode.wait;
  is_coordinator = true;
  timeout_s = 30;
  governance = governance;
  alpha = 1;
  beta = 1;
  gamma = 1;
}

abbrev second_only : String → Bool
second_only peer = peer == "p2"

-- A peer that answers with an empty shard, and one that does not answer.
abbrev answers : List (Option Value)
answers =
    some
      (topology_to_snapshot (record { nodes = []; latency_matrix = [] }) (("s1", "http://s1") ∷ []))
    ∷ none
    ∷ []

abbrev undecided : NeuralBroker → Result (Option (Dict String))
undecided b = ok none

pulled_run : (fetch_peer_topologies answers new_neural).peer_worker_urls ≡ ("s1", "http://s1") ∷ []
unfolding fetch_peer_topologies pull_all pull pull_urls snapshot_to_topology snapshot_to_worker_urls
    topology_to_snapshot insert_all get entry_of decode_items items value_to_url url_to_value insert
    str_dec
pulled_run = refl

publish_forwarded_iff_example :
    ((publish whole always setting 1 "p" "chain" linked undecided answers false second_only
        ("p1" ∷ "p2" ∷ [])
        new_neural).1
      ≡ forwarded "p2")
    ↔ (((is_empty new_neural.topology.nodes ≡ true)
          ⊎ Undecided (undecided (refreshed whole always setting answers new_neural)))
        × (false ≡ false)
        × IsFirstTaker second_only ("p1" ∷ "p2" ∷ []) "p2")
publish_forwarded_iff_example =
    publish_forwarded_iff whole always setting false second_only ("p1" ∷ "p2" ∷ []) "p2" 1 "p"
      "chain" linked undecided answers new_neural

-- The broker has no nodes, and the second peer is the first that takes the request.
forwarded_run :
    (publish whole always setting 1 "p" "chain" linked undecided answers false second_only
      ("p1" ∷ "p2" ∷ [])
      new_neural).1
    ≡ forwarded "p2"
unfolding publish refreshed fetch_peer_topologies publish_elsewhere try_federation_forward str_dec
forwarded_run = refl

abbrev halfway : PipelineState
halfway = record (new_pipeline "p" "chain" linked spread) {
  completed_stages = "a" ∷ [];
  dispatched_stages = "a" ∷ "b" ∷ [];
}

abbrev last_awaited : NeuralBroker
last_awaited = record new_neural { active_pipelines = ("p", halfway) ∷ [] }

complete_run :
    (handle_result whole always setting 4 "p" "b" "east1" true last_awaited).1 ≡ pipeline_complete
unfolding handle_result handle_report conclude update_worker_load record_result new_pipeline
    get_stage empty_dag append_at insert lookup contains str_dec
complete_run = refl

handle_result-pipeline_complete_example :
    (let b' = (handle_result whole always setting 4 "p" "b" "east1" true last_awaited).0 in
      (lookup "p" b'.active_pipelines ≡ none) × (b'.completions ≡ [] ++ ("p", true) ∷ []))
    × (ps : PipelineState) × (lookup "p" last_awaited.active_pipelines ≡ some ps)
    × (true ≡ true)
    × ((x : String)
        → contains x ps.all_stages ≡ true
        → contains x ("b" ∷ ps.completed_stages) ≡ true)
handle_result-pipeline_complete_example =
    handle_result-pipeline_complete always whole setting 4 "p" "b" "east1" true last_awaited
      complete_run

abbrev west_worker : WorkerInfo
west_worker = record {
  node_id = "west1";
  domain_id = "west";
  slice_id = "flat";
  capacity = 10;
  url = "http://west1";
  current_load = 0;
  bid_cost_ms = 0;
}

serve_all-IsMirror_example : IsMirror (
    serve_all whole always setting
      (NeuralRequest.on_registry (Change.registered west_worker)
        ∷ NeuralRequest.on_publish 1 "p" "chain" linked
            (λ b. ok (some spread))
            answers
            false
            second_only
            []
        ∷ NeuralRequest.on_result 2 "p" "a" "west1" true
        ∷ [])
      new_neural)
serve_all-IsMirror_example = serve_all-IsMirror whole always setting (
    NeuralRequest.on_registry (Change.registered west_worker)
    ∷ NeuralRequest.on_publish 1 "p" "chain" linked (λ b. ok (some spread)) answers false
        second_only []
    ∷ NeuralRequest.on_result 2 "p" "a" "west1" true
    ∷ [])

-- The spread of the samples stands for their deviation.
abbrev counted : Statistics
counted = record {
  Sample = ℕ;
  mean = length;
  std = λ xs. length xs + 1;
  is_nought = λ n. ltb n 1;
  divided = λ a b. a / b;
  less = ltb;
}

is_steady_state-record_samples_example :
    is_steady_state counted (record_samples (5 ∷ 7 ∷ 7 ∷ []) (new_detector 2 1))
    ≡ is_steady_after counted 2 1 (5 ∷ 7 ∷ 7 ∷ [])
is_steady_state-record_samples_example = is_steady_state-record_samples counted 2 1 (5 ∷ 7 ∷ 7 ∷ [])

record_samples_bounded_example :
    let d = record_samples {A = ℕ} (5 ∷ 7 ∷ 7 ∷ []) (new_detector 2 1) in
    (length d.samples ≤ 2)
    × (length d.samples ≤ d.total_recorded)
    × ((length d.samples ≡ 2) ⊎ (length d.samples ≡ d.total_recorded))
record_samples_bounded_example = record_samples_bounded 2 1 (5 ∷ 7 ∷ 7 ∷ [])

-- Two failures of one node, each detected one unit and mended two units after it.
abbrev mended_twice : List FailureEvent
mended_twice = record_recovery "crash" "n" 102 (
    record_detection_complete "crash" "n" 101 (
      record_failure "crash" "n" 100 (
        record_recovery "crash" "n" 2
          (record_detection_complete "crash" "n" 1 (record_failure "crash" "n" 0 [])))))

-- The second recovery is paired with the first detection, which still waits.
second_too_long : adaptation_times_ms mended_twice ≡ 2_000 ∷ 101_000 ∷ []
unfolding adaptation_times_ms pair_events pair_event close pending_at find assign sort_with
    sort_onto insert_with str_dec
second_too_long = refl

replacement_times_ms_lem_example :
    replacement_times_ms mended_twice
    ≡ match_events
        (λ e. e.is_detection_complete)
        (λ e. e.is_recovery)
        (sorted_events mended_twice)
        []
replacement_times_ms_lem_example = replacement_times_ms_lem mended_twice

-- The same failures, with no word of their detection.
abbrev undetected_twice : List FailureEvent
undetected_twice = record_recovery "crash" "n" 102 (
    record_failure "crash" "n" 100
      (record_recovery "crash" "n" 2 (record_failure "crash" "n" 0 [])))

each_in_time : adaptation_times_ms undetected_twice ≡ 2_000 ∷ 2_000 ∷ []
unfolding adaptation_times_ms pair_events pair_event close pending_at find assign sort_with
    sort_onto insert_with str_dec
each_in_time = refl

adaptation_times_ms_lem_example :
    adaptation_times_ms undetected_twice
    ≡ match_events
        (λ e. not e.is_recovery && not e.is_detection_complete)
        (λ e. e.is_recovery)
        (sorted_events undetected_twice)
        []
adaptation_times_ms_lem_example =
    adaptation_times_ms_lem undetected_twice (refl, (refl, (refl, (refl, tt))))

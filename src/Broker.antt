-- ===== src/Broker.antt =====
-- src/broker/models.py and src/broker/base.py: the state of a baseline broker. Each request is one
-- step on it; the texts of errors are values of `Failure`. `completions` lists the calls of
-- `complete_pipeline` of the metrics collector, which is not modelled otherwise.
pub mod Ready
pub mod Dispatchable
pub mod Handlers
pub mod Health
pub mod Finished
pub mod Completed
use neural_pubsub_experiment.Prelude.{ℕ, String, Bool, true, false, Option, none, List, [], Dict}
use neural_pubsub_experiment.Dag.{PipelineDag, stage_ids}

pub record WorkerInfo : Type 0 where
  pub node_id : String
  pub domain_id : String
  pub slice_id : String
  pub capacity : ℕ
  pub url : String
  pub current_load : ℕ
  pub bid_cost_ms : ℕ

pub data Failure : Type 0 where
  worker_missing dispatch_failed funnel_abort funnel_fail stage_failed : Failure

pub record PipelineState : Type 0 where
  pub pipeline_id : String
  pub pipeline_type : String
  pub dag : PipelineDag
  pub placement : Dict String
  pub completed_stages : List String
  pub dispatched_stages : List String
  pub failed : Bool
  pub error : Option Failure
  pub all_stages : List String
  pub partial : Bool
  pub skipped_stages : List String
  pub funnel_wait_start : Option ℕ

-- PipelineState(…) with `__post_init__`
unfoldable pub new_pipeline : String → String → PipelineDag → Dict String → PipelineState
new_pipeline pipeline_id pipeline_type dag placement = record {
  pipeline_id = pipeline_id;
  pipeline_type = pipeline_type;
  dag = dag;
  placement = placement;
  completed_stages = [];
  dispatched_stages = [];
  failed = false;
  error = none;
  all_stages = stage_ids dag;
  partial = false;
  skipped_stages = [];
  funnel_wait_start = none;
}

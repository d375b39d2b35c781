-- ===== src/Funnel.antt =====
-- src/broker/funnel_resilience.py: what a fan-in stage does when inputs are missing. The functions
-- that read the environment are not modelled: mode and timeout are arguments where they are used.
use neural_pubsub_experiment.Prelude.{
  ◌≡◌, String, Bool, true, false, not, ◌&&◌, ◌||◌, List, [], ◌∷◌, ◌++◌, ltb, if◌then◌else◌,
  contains, contains-append, length, all, any, arith,
}
use neural_pubsub_experiment.Dag.{PipelineDag, stage_ids}

pub data FunnelMode : Type 0 where
  wait proceed abort : FunnelMode

pub data FunnelAction : Type 0 where
  wait_on go_on abort_now fail_late : FunnelAction

pub record FunnelPolicyResult : Type 0 where
  pub action : FunnelAction
  pub partial : Bool
  pub pipeline_complete : Bool
  pub pipeline_failed : Bool

-- expected <= received, on sets
abbrev pub is_subset : List String → List String → Bool
is_subset expected received = all (λ x. contains x received) expected

abbrev decision : FunnelAction → Bool → Bool → FunnelPolicyResult
decision action partial failed = record {
  action = action;
  partial = partial;
  pipeline_complete = false;
  pipeline_failed = failed;
}

-- What the mode says of missing inputs.
missing_policy : FunnelMode → Bool → FunnelPolicyResult
missing_policy FunnelMode.wait timeout_reached =
    if timeout_reached
    then decision FunnelAction.fail_late false true
    else decision FunnelAction.wait_on false false
missing_policy FunnelMode.proceed timeout_reached = decision FunnelAction.go_on true false
missing_policy FunnelMode.abort timeout_reached = decision FunnelAction.abort_now false true

unfoldable pub apply_funnel_policy :
    FunnelMode → List String → List String → Bool → FunnelPolicyResult
unfolding missing_policy
apply_funnel_policy mode expected_inputs received_inputs timeout_reached =
    if is_subset expected_inputs received_inputs
    then decision FunnelAction.go_on false false
    else missing_policy mode timeout_reached

-- find_funnel_predecessor_stages: the loop over the stages, with the set so far.
unfoldable pub funnel_predecessors : PipelineDag → List String → List String → List String
funnel_predecessors dag [] funnel_preds = funnel_preds
funnel_predecessors dag (stage_id ∷ ids) funnel_preds = funnel_predecessors dag ids (
    if ltb 1 (length (dag.predecessors stage_id))
    then funnel_preds ++ dag.predecessors stage_id
    else funnel_preds)

unfoldable pub find_funnel_predecessor_stages : PipelineDag → List String
find_funnel_predecessor_stages dag = funnel_predecessors dag (stage_ids dag) []

abbrev pub stops : FunnelMode → Bool → Bool
stops FunnelMode.wait timeout_reached = timeout_reached
stops FunnelMode.proceed timeout_reached = false
stops FunnelMode.abort timeout_reached = true

abbrev pub goes_on_partial : FunnelMode → Bool
goes_on_partial FunnelMode.proceed = true
goes_on_partial _ = false

abbrev pub ends : FunnelAction → Bool
ends FunnelAction.abort_now = true
ends FunnelAction.fail_late = true
ends _ = false

-- A decision fails the pipeline exactly if inputs are missing and the mode is abort, or wait with
-- the timeout reached, and exactly if its action is one that ends it; it is partial exactly if
-- inputs are missing in the mode proceed; it never completes the pipeline.
pub apply_funnel_policy-consistent :
    (mode : FunnelMode) (expected received : List String) (timeout : Bool)
    → let r = apply_funnel_policy mode expected received timeout in
      (r.pipeline_failed ≡ (not (is_subset expected received) && stops mode timeout))
      × (r.pipeline_failed ≡ ends r.action)
      × (r.partial ≡ (not (is_subset expected received) && goes_on_partial mode))
      × (r.pipeline_complete ≡ false)
unfolding apply_funnel_policy
apply_funnel_policy-consistent FunnelMode.wait expected received timeout = ground arith
apply_funnel_policy-consistent FunnelMode.proceed expected received timeout = ground arith
apply_funnel_policy-consistent FunnelMode.abort expected received timeout = ground arith

module _ (dag : PipelineDag) where
  -- Some stage of the list has several predecessors, this one among them.
  abbrev pub feeds_fan_in : String → List String → Bool
  feeds_fan_in p ids =
      any (λ sid. ltb 1 (length (dag.predecessors sid)) && contains p (dag.predecessors sid)) ids

  funnel_predecessors-contains :
      (p : String) (ids acc : List String)
      → contains p (funnel_predecessors dag ids acc) ≡ (contains p acc || feeds_fan_in p ids)
  unfolding funnel_predecessors
  funnel_predecessors-contains p [] acc = ground arith
  funnel_predecessors-contains p (sid ∷ ids) acc = ground (
    arith,
    contains-append p acc (dag.predecessors sid),
    funnel_predecessors-contains p ids
        (if ltb 1 (length (dag.predecessors sid)) then acc ++ dag.predecessors sid else acc),
  )

  -- A stage is in the set of funnel predecessors exactly if some stage of the graph has several
  -- predecessors and it is one of them.
  pub find_funnel_predecessor_stages-contains :
      (p : String)
      → contains p (find_funnel_predecessor_stages dag) ≡ feeds_fan_in p (stage_ids dag)
  unfolding find_funnel_predecessor_stages contains
  find_funnel_predecessor_stages-contains p = funnel_predecessors-contains p (stage_ids dag) []

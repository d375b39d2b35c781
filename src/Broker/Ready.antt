-- ===== src/Broker/Ready.antt =====
-- src/broker/base.py, `_find_ready_stages`. The mode and the timeout are what the environment says;
-- `now` is the clock, read once for the call.
use neural_pubsub_experiment.Prelude.{
  ℕ, ◌+◌, String, Bool, true, false, Option, none, some, List, [], ◌∷◌, ◌++◌, ◌&&◌, ◌||◌, not, leb,
  if◌then◌else◌, contains, length, all, filter, lookup,
}
use neural_pubsub_experiment.Dag.{stage_ids}
use neural_pubsub_experiment.Funnel.{
  FunnelMode, FunnelAction, FunnelPolicyResult, apply_funnel_policy,
}
use neural_pubsub_experiment.Broker.{PipelineState}

-- The variables of the loop; the pipeline is changed in place.
pub record Scan : Type 0 where
  pub ps : PipelineState
  pub ready : List String
  pub funnel_result : Option FunnelPolicyResult

-- p is not completed, and is placed on a dead worker
abbrev pub is_dead : PipelineState → List String → String → Bool
is_dead ps dead_workers p =
    not (contains p ps.completed_stages)
    && elim (lookup p ps.placement) [ none ↦ false | some w ↦ contains w dead_workers ]

abbrev pub is_empty : List String → Bool
is_empty [] = true
is_empty (x ∷ xs) = false

module _ (mode : FunnelMode) (timeout_s now : ℕ) (dead_workers : List String) where
  -- if ps.funnel_wait_start is None: …
  abbrev pub wait_start : PipelineState → ℕ
  wait_start ps = elim (ps.funnel_wait_start) [ none ↦ now | some t ↦ t ]

  abbrev pub started : PipelineState → PipelineState
  started ps = record ps { funnel_wait_start = some (wait_start ps) }

  -- What the result of the policy does to the loop.
  unfoldable pub after_policy : String → List String → FunnelPolicyResult → Scan → Scan
  after_policy stage_id dead_preds result s = elim (result.action) [
    | FunnelAction.go_on ↦ record {
      ps = record (started s.ps) {
        skipped_stages = dead_preds ++ s.ps.skipped_stages;
        partial = true;
      };
      ready = s.ready ++ stage_id ∷ [];
      funnel_result = some result;
    }
    | _ ↦ record { ps = started s.ps; ready = s.ready; funnel_result = some result }
  ]

  -- The body of the loop.
  unfoldable pub visit : String → Scan → Scan
  visit stage_id s =
      let ps = s.ps in
      if contains stage_id ps.completed_stages
        || (contains stage_id ps.dispatched_stages || contains stage_id ps.skipped_stages)
      then s
      else let preds = ps.dag.predecessors stage_id in
        if all (λ p. contains p ps.completed_stages) preds
        then record s { ready = s.ready ++ stage_id ∷ [] }
        else if leb (length preds) 1
        then s
        else let dead_preds = filter (is_dead ps dead_workers) preds in
          if is_empty dead_preds
          then s
          else after_policy stage_id dead_preds
              (apply_funnel_policy mode preds (filter (λ p. contains p ps.completed_stages) preds)
                (leb (timeout_s + wait_start ps) now))
              s

  unfoldable pub visit_all : List String → Scan → Scan
  visit_all [] s = s
  visit_all (stage_id ∷ ids) s = visit_all ids (visit stage_id s)

  unfoldable pub find_ready_stages : PipelineState → Scan
  find_ready_stages ps =
      visit_all (stage_ids ps.dag) (record { ps = ps; ready = []; funnel_result = none })

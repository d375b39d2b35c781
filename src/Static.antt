-- ===== src/Static.antt =====
-- src/broker/static_broker.py: the choice of workers of the round-robin and random broker.
-- `choice` is `random.choice`, on the state of the generator.
pub mod Eligible
pub mod Placed
pub mod Texts
pub mod Sorted
pub mod Turns
pub mod Recovery
pub mod Replaced
pub mod Counted
pub mod Capacity
use Prim.Native.String.{compare}
use Prim.Native.Nat.{Ordering}
use neural_pubsub_experiment.Prelude.{
  ℕ, zero, suc, String, Bool, true, false, Option, none, some, List, [], ◌∷◌, ◌++◌, ◌==◌, ◌&&◌, not,
  any, contains, if◌then◌else◌, Dict, insert, remove, keys, values, Error, Result, ok, raised,
  ◌>>=◌,
}
use neural_pubsub_experiment.Prelude.Sorts.{sort_with}
use neural_pubsub_experiment.Dag.{Stage, PipelineDag, get_stage}
use neural_pubsub_experiment.Dag.Kahn.{topological_sort}
use neural_pubsub_experiment.Placement.{slice_matches}
use neural_pubsub_experiment.Broker.{WorkerInfo}

pub data PlacementStrategy : Type 0 where
  round_robin random : PlacementStrategy

-- A cycle is the list of its workers from the next one on, and is never empty.
pub record StaticBroker (Gen : Type 0) : Type 0 where
  pub workers : Dict WorkerInfo
  pub placement : PlacementStrategy
  pub slice_cycles : Option String → Option (List String)
  pub generator : Gen

-- `<` on texts
abbrev pub text_less : String → String → Bool
text_less s t = elim (compare s t) [ Ordering.lt ↦ true | _ ↦ false ]

-- The workers whose slice serves the requirement, in the order of registration.
unfoldable pub matching : Option String → Dict WorkerInfo → List String
matching slice_requirement [] = []
matching slice_requirement ((wid, w) ∷ workers) =
    if slice_matches w.slice_id slice_requirement
    then wid ∷ matching slice_requirement workers
    else matching slice_requirement workers

unfoldable pub eligible_workers : Option String → Dict WorkerInfo → List String
eligible_workers slice_requirement workers =
    sort_with text_less (matching slice_requirement workers)

abbrev pub same_req : Option String → Option String → Bool
same_req none none = true
same_req (some s) (some t) = s == t
same_req _ _ = false

-- self._slice_cycles[req] = cycle
abbrev pub set_cycle :
    Option String
    → List String
    → (Option String → Option (List String))
    → Option String
    → Option (List String)
set_cycle req cycle cycles r = if same_req r req then some cycle else cycles r

-- slice_keys of _rebuild_cycle
abbrev pub is_slice_key : Dict WorkerInfo → Option String → Bool
is_slice_key workers none = true
is_slice_key workers (some s) =
    any (λ w. not (w.slice_id == "flat") && w.slice_id == s) (values workers)

-- itertools.cycle(eligible), if there are any
abbrev pub cycle_of : List String → Option (List String)
cycle_of [] = none
cycle_of (w ∷ ws) = some (w ∷ ws)

abbrev pub is_empty {ℓ} : {A : Type ℓ} → List A → Bool
is_empty [] = true
is_empty _ = false

module _ {Gen : Type 0} where
  unfoldable pub rebuild_cycle : StaticBroker Gen → StaticBroker Gen
  rebuild_cycle b = record b {
    slice_cycles = λ req.
        if is_slice_key b.workers req then cycle_of (eligible_workers req b.workers) else none;
  }

  -- POST /register and /deregister of the base class, with the hook `_on_worker_change`
  unfoldable pub join : WorkerInfo → StaticBroker Gen → StaticBroker Gen
  join worker b = rebuild_cycle (record b { workers = insert worker.node_id worker b.workers })

  unfoldable pub leave : String → StaticBroker Gen → StaticBroker Gen
  leave node_id b =
      if contains node_id (keys b.workers)
      then rebuild_cycle (record b { workers = remove node_id b.workers })
      else b

  unfoldable pub start_broker : PlacementStrategy → Gen → StaticBroker Gen
  start_broker placement generator = record {
    workers = [];
    placement = placement;
    slice_cycles = λ req. none;
    generator = generator;
  }

  -- next(cycle)
  unfoldable pub next_of :
      Option String → List String → StaticBroker Gen → Result (String × StaticBroker Gen)
  next_of req [] b = raised Error.no_eligible_worker
  next_of req (w ∷ ws) b =
      ok (w, record b { slice_cycles = set_cycle req (ws ++ w ∷ []) b.slice_cycles })

  unfoldable pub pick_turn : Option String → StaticBroker Gen → Result (String × StaticBroker Gen)
  pick_turn req b = elim (b.slice_cycles req) [
    | none ↦ next_of req (eligible_workers req b.workers) b
    | some cycle ↦ next_of req cycle b
  ]

  module _ (choice : Gen → List String → String × Gen) where
    unfoldable pub draw_from : List String → StaticBroker Gen → Result (String × StaticBroker Gen)
    draw_from [] b = raised Error.no_eligible_worker
    draw_from (w ∷ ws) b =
        let (chosen, generator) = choice b.generator (w ∷ ws) in
        ok (chosen, record b { generator = generator })

    -- _pick_worker
    unfoldable pub pick_worker :
        Option String → StaticBroker Gen → Result (String × StaticBroker Gen)
    pick_worker req b = if is_empty b.workers then raised Error.no_workers else elim b.placement [
      | PlacementStrategy.random ↦ draw_from (eligible_workers req b.workers) b
      | PlacementStrategy.round_robin ↦ pick_turn req b
    ]

    -- The loop of _compute_placement; the broker is what is left when it ends or raises.
    unfoldable pub place_stages :
        PipelineDag
        → List String
        → Dict String
        → StaticBroker Gen
        → Result (Dict String) × StaticBroker Gen
    place_stages dag [] placement b = (ok placement, b)
    place_stages dag (stage_id ∷ order) placement b =
        elim (get_stage dag stage_id >>= (λ stage. pick_worker stage.slice_requirement b)) [
          | raised e ↦ (raised e, b)
          | ok (node_id, b') ↦ place_stages dag order (insert stage_id node_id placement) b'
        ]

    unfoldable pub compute_placement :
        PipelineDag → StaticBroker Gen → Result (Dict String) × StaticBroker Gen
    compute_placement dag b = elim (topological_sort dag) [
      | raised e ↦ (raised e, b)
      | ok order ↦ place_stages dag order [] b
    ]

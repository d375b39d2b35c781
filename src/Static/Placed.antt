-- ===== src/Static/Placed.antt =====
-- src/broker/static_broker.py: `_compute_placement`, over all that happens to a broker.
use neural_pubsub_experiment.Prelude.{
  ◌≡◌, refl, sym, ◌∙◌, subst, String, some, List, [], ◌∷◌, if_ind, contains, keys, inl, inr, Dict,
  insert, remove, lookup, lookup-insert, Error, Result, ok, raised, ◌>>=◌, arith, str_dec,
  Result-cases, ok-injective, >>=-eq-ok,
}
use neural_pubsub_experiment.Dag.{Stage, PipelineDag, get_stage}
use neural_pubsub_experiment.Dag.Kahn.{topological_sort}
use neural_pubsub_experiment.Broker.{WorkerInfo}
use neural_pubsub_experiment.Static.{
  PlacementStrategy, StaticBroker, join, leave, start_broker, pick_worker, place_stages,
  compute_placement,
}
use neural_pubsub_experiment.Static.Eligible.{
  IsEligible, IsCurrent, rebuild_cycle-IsCurrent, ChoosesMember, pick_worker-IsPick,
}

module _ {Gen : Type 0} (choice : Gen → List String → String × Gen) where
  -- What happens to a broker.
  pub data Event : Type 0 where
    joined : WorkerInfo → Event
    left : String → Event
    published : PipelineDag → Event

  unfoldable pub step : Event → StaticBroker Gen → StaticBroker Gen
  step (joined worker) b = join worker b
  step (left node_id) b = leave node_id b
  step (published dag) b = (compute_placement choice dag b).1

  unfoldable pub run : List Event → StaticBroker Gen → StaticBroker Gen
  run [] b = b
  run (event ∷ events) b = run events (step event b)

  -- Each stage that is placed is a stage of the graph, on a worker that serves its requirement.
  abbrev pub IsPlaced : PipelineDag → Dict WorkerInfo → Dict String → Type 0
  IsPlaced dag workers placement =
      (stage_id node_id : String)
      → lookup stage_id placement ≡ some node_id
      → (stage : Stage) × (get_stage dag stage_id ≡ ok stage)
        × IsEligible stage.slice_requirement workers node_id

  -- The broker after some picks.
  pub record Keeps (b b' : StaticBroker Gen) : Type 0 where
    pub current : IsCurrent b'
    pub workers_same : b'.workers ≡ b.workers

  insert-IsPlaced :
      (dag : PipelineDag) (workers : Dict WorkerInfo) (placement : Dict String)
      (stage_id wid : String) (stage : Stage)
      → IsPlaced dag workers placement
      → get_stage dag stage_id ≡ ok stage
      → IsEligible stage.slice_requirement workers wid
      → IsPlaced dag workers (insert stage_id wid placement)
  insert-IsPlaced dag workers placement stage_id wid stage placed found e id n l =
      elim (str_dec stage_id id) [
        | yes same ↦
            let here : wid ≡ n = ground (arith, lookup-insert stage_id id wid placement) in
            (
              stage,
              subst (λ s. get_stage dag s ≡ ok stage) same found,
              subst (IsEligible stage.slice_requirement workers) here e,
            )
        | no other ↦
            let there : lookup id placement ≡ some n =
              ground (arith, lookup-insert stage_id id wid placement) in
            placed id n there
      ]

  -- What a loop over stages has to give.
  abbrev IsSound : PipelineDag → StaticBroker Gen → Result (Dict String) × StaticBroker Gen → Type 0
  IsSound dag b (r, b') =
      Keeps b b' × ((placement : Dict String) → r ≡ ok placement → IsPlaced dag b.workers placement)

  -- One pick of the loop.
  abbrev pick_for : PipelineDag → String → StaticBroker Gen → Result (String × StaticBroker Gen)
  pick_for dag stage_id b =
      get_stage dag stage_id >>= (λ stage. pick_worker choice stage.slice_requirement b)

  raised-IsSound :
      (dag : PipelineDag) (b : StaticBroker Gen) (e : Error)
      → IsCurrent b
      → IsSound dag b (raised e, b)
  raised-IsSound dag b e cur = (record { current = cur; workers_same = refl }, λ p h. cc)

  place_stages-IsSound :
      ChoosesMember choice
      → (dag : PipelineDag) (order : List String) (placement : Dict String) (b : StaticBroker Gen)
      → IsCurrent b
      → IsPlaced dag b.workers placement
      → IsSound dag b (place_stages choice dag order placement b)
  unfolding place_stages
  place_stages-IsSound member dag [] placement b cur placed = (
    record { current = cur; workers_same = refl },
    λ p h. subst (IsPlaced dag b.workers) (ok-injective h) placed,
  )
  place_stages-IsSound member dag (stage_id ∷ order) placement b cur placed =
      elim (Result-cases (pick_for dag stage_id b)) [
        | inl (e, h) ↦ rw (h, place_stages) (raised-IsSound dag b e cur)
        | inr ((wid, b'), h) ↦
            let (stage, found, picked) =
              >>=-eq-ok (get_stage dag stage_id)
                (λ stage. pick_worker choice stage.slice_requirement b) h in
            let pick =
              pick_worker-IsPick choice member stage.slice_requirement b b' wid cur picked in
            let same = pick.workers_same in
            let placed' =
              subst (λ ws. IsPlaced dag ws (insert stage_id wid placement)) (sym same)
                (insert-IsPlaced dag b.workers placement stage_id wid stage placed found
                  pick.eligible) in
            let (keeps, sound) =
              place_stages-IsSound member dag order (insert stage_id wid placement) b' pick.current
                placed' in
            rw (h, place_stages)
              (
                record { current = keeps.current; workers_same = keeps.workers_same ∙ same },
                λ p e. subst (λ ws. IsPlaced dag ws p) same (sound p e),
              )
      ]

  compute_placement-IsSound :
      ChoosesMember choice
      → (dag : PipelineDag) (b : StaticBroker Gen) → IsCurrent b
      → IsSound dag b (compute_placement choice dag b)
  unfolding compute_placement lookup
  compute_placement-IsSound member dag b cur = elim (Result-cases (topological_sort dag)) [
    | inl (e, h) ↦ rw (h, compute_placement) (raised-IsSound dag b e cur)
    | inr (order, h) ↦
        rw (h, compute_placement) (place_stages-IsSound member dag order [] b cur (λ id n l. cc))
  ]

  step-IsCurrent :
      ChoosesMember choice
      → (event : Event) (b : StaticBroker Gen) → IsCurrent b
      → IsCurrent (step event b)
  unfolding step join leave
  step-IsCurrent member (joined worker) b cur =
      rebuild_cycle-IsCurrent (record b { workers = insert worker.node_id worker b.workers })
  step-IsCurrent member (left node_id) b cur =
      if_ind IsCurrent (contains node_id (keys b.workers))
        (λ _. rebuild_cycle-IsCurrent (record b { workers = remove node_id b.workers })) (λ _. cur)
  step-IsCurrent member (published dag) b cur =
      (compute_placement-IsSound member dag b cur).0.current

  pub run-IsCurrent :
      ChoosesMember choice
      → (events : List Event) (b : StaticBroker Gen) → IsCurrent b
      → IsCurrent (run events b)
  unfolding run
  run-IsCurrent member [] b cur = cur
  run-IsCurrent member (event ∷ events) b cur =
      run-IsCurrent member events (step event b) (step-IsCurrent member event b cur)

  pub start_broker-IsCurrent : (s : PlacementStrategy) (g : Gen) → IsCurrent (start_broker s g)
  unfolding start_broker
  start_broker-IsCurrent s g req cycle h = cc

  -- Conditions: random choice gives an item of its list, and a broker, after any registrations,
  -- removals and placements from its start, returns a placement. Then each placed stage is a stage
  -- of the graph and stands on a registered worker whose slice serves what the stage requires, by
  -- turns or at random.
  pub run-compute_placement :
      ChoosesMember choice
      → (strategy : PlacementStrategy) (g : Gen) (events : List Event) (dag : PipelineDag)
      → (placement : Dict String)
      → (compute_placement choice dag (run events (start_broker strategy g))).0 ≡ ok placement
      → (stage_id node_id : String) → lookup stage_id placement ≡ some node_id
      → (stage : Stage) × (get_stage dag stage_id ≡ ok stage)
        × IsEligible stage.slice_requirement (run events (start_broker strategy g)).workers node_id
  run-compute_placement member strategy g events dag placement h =
      let b = start_broker strategy g in
      let cur = run-IsCurrent member events b (start_broker-IsCurrent strategy g) in
      (compute_placement-IsSound member dag (run events b) cur).1 placement h

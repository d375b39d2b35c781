-- ===== src/Placement/MarketSound.antt =====
-- src/broker/placement.py: what `market_mode_placement` guarantees of a placement that it accepts.
use neural_pubsub_experiment.Prelude.{
  ℕ, ◌≡◌, refl, ◌∙◌, sym, subst, String, Bool, true, false, none, some, List, [], ◌∷◌, ◌++◌, arith,
  filter, if◌then◌else◌, if_ind, contains, contains-append, Dict, lookup, insert, keys, values,
  Unique, All, ok, Option-cases, inl, inr, insert_new, keys-insert_new, append_assoc, append-nil,
  ltb,
}
use neural_pubsub_experiment.Prelude.Cost.{Cost, fin}
use neural_pubsub_experiment.Dag.{Stage, PipelineDag, get_stage, stage_ids, accepts_cost}
use neural_pubsub_experiment.Dag.Graph.{IsGraph}
use neural_pubsub_experiment.Placement.{ExecutionUnit, NetworkTopology, GovernancePolicy}
use neural_pubsub_experiment.Placement.Rounds.{book}
use neural_pubsub_experiment.Placement.Baselines.{in_domain}
use neural_pubsub_experiment.Placement.Check.{node_loads, capacity_violations}
use neural_pubsub_experiment.Placement.Fits.{
  node_ids, IsListed, Unique-IsListed, capacity-book, node_loads-snoc,
}
use neural_pubsub_experiment.Prelude.Sorts.{All-filter}
use neural_pubsub_experiment.Placement.MarketMode.{
  effective_load, has_residual, least_loaded, choose_worker, choose_domain, worker_in, place_stage,
  place_stages, market_mode_placement,
}

-- The governance that a market placement looks at.
abbrev no_policy : GovernancePolicy
no_policy = record { local_stage_types = []; trust_levels = λ a b. none }

least_loaded-All :
    (P : ExecutionUnit → Type 0) (additional : Dict ℕ) (best : ExecutionUnit)
    (ws : List ExecutionUnit)
    → P best
    → All P ws
    → P (least_loaded additional best ws)
unfolding least_loaded
least_loaded-All P additional best [] h a = h
least_loaded-All P additional best (w ∷ ws) h a =
    least_loaded-All P additional
      (if ltb (effective_load additional w) (effective_load additional best) then w else best) ws
      (if_ind P (ltb (effective_load additional w) (effective_load additional best)) (λ less. a.0)
        (λ more. h))
      a.1

choose_worker-All :
    (P : ExecutionUnit → Type 0) (aware : Bool) (additional : Dict ℕ) (ws : List ExecutionUnit)
    (w : ExecutionUnit)
    → All P ws
    → choose_worker aware additional ws ≡ some w
    → P w
unfolding choose_worker
choose_worker-All P aware additional [] w a h = cc
choose_worker-All P true additional (v ∷ ws) w a h =
    subst P (cc h) (least_loaded-All P additional v ws a.0 a.1)
choose_worker-All P false additional (v ∷ ws) w a h = subst P (cc h) a.0

-- Each entry of a dictionary is what its key finds.
entries-weaken :
    {V : Type 0} (k : String) (v : V) (D d : Dict V)
    → contains k (keys d) ≡ false
    → All (λ (e : String × V). lookup e.0 D ≡ some e.1) d
    → All (λ (e : String × V). lookup e.0 ((k, v) ∷ D) ≡ some e.1) d
unfolding lookup contains
entries-weaken k v D [] n a = tt
entries-weaken k v D ((j, w) ∷ d) n a =
    (ground (arith, a.0), entries-weaken k v D d (ground arith) a.1)

entries_lem :
    {V : Type 0} (d : Dict V)
    → Unique (keys d)
    → All (λ (e : String × V). lookup e.0 d ≡ some e.1) d
unfolding lookup
entries_lem [] u = tt
entries_lem ((k, v) ∷ d) u = (ground arith, entries-weaken k v d d u.0 (entries_lem d u.1))

abbrev ids : List Stage → List String
ids [] = []
ids (s ∷ ss) = s.id ∷ ids ss

named_entries :
    (dag : PipelineDag) (d : Dict Stage)
    → ((k : String) (s : Stage) → lookup k dag.stages ≡ some s → s.id ≡ k)
    → All (λ (e : String × Stage). lookup e.0 dag.stages ≡ some e.1) d
    → All (λ s. get_stage dag s.id ≡ ok s) (values d) × (ids (values d) ≡ keys d)
unfolding get_stage
named_entries dag [] named a = (tt, refl)
named_entries dag ((k, s) ∷ d) named a =
    let same = named k s a.0 in
    let (got, eq) = named_entries dag d named a.1 in
    ((ground (arith, a.0, same), got), ground (arith, same, eq))

module _ (dag : PipelineDag) (topology : NetworkTopology) (clearing_prices : Dict (Dict ℕ))
    (wan_cost : Cost) (local_domain : String) (load_aware : Bool)
    (distinct : Unique (node_ids topology.nodes)) where
  abbrev FitNow : ℕ → Dict ℕ → ExecutionUnit → Type 0
  FitNow demand additional w = IsListed topology w × (has_residual additional demand w ≡ true)

  worker_in-FitNow :
      (domain : String) (demand : ℕ) (additional : Dict ℕ) (w : ExecutionUnit)
      → worker_in topology clearing_prices wan_cost local_domain load_aware domain demand additional
        ≡ some w
      → FitNow demand additional w
  unfolding worker_in
  worker_in-FitNow domain demand additional w h =
      let ((listed, _), room) =
        choose_worker-All
          (λ v.
            (IsListed topology v × (in_domain domain v ≡ true))
            × (has_residual additional demand v ≡ true))
          load_aware additional _ w
          (All-filter (λ v. IsListed topology v × (in_domain domain v ≡ true))
            (has_residual additional demand) (filter (in_domain domain) topology.nodes)
            (All-filter (IsListed topology) (in_domain domain) topology.nodes
              (Unique-IsListed topology distinct)))
          h in
      (listed, room)

  place_stage-FitNow :
      (stage : Stage) (additional : Dict ℕ) (total total' : Cost) (w : ExecutionUnit)
      → place_stage topology clearing_prices wan_cost local_domain load_aware stage additional total
        ≡ some (w, total')
      → FitNow stage.computational_demand additional w
  unfolding place_stage
  place_stage-FitNow stage additional total total' w h =
      let chosen =
        choose_domain topology clearing_prices wan_cost local_domain load_aware stage.stage_type in
      let demand = stage.computational_demand in
      let worker = worker_in topology clearing_prices wan_cost local_domain load_aware in
      elim (Option-cases (worker chosen.0 demand additional)) [
        | inr (v, e) ↦ worker_in-FitNow chosen.0 demand additional w (ground (arith, e, h))
        | inl full ↦ elim (Option-cases (worker local_domain demand additional)) [
          | inr (v, e) ↦
              worker_in-FitNow local_domain demand additional w (ground (arith, full, e, h))
          | inl gone ↦ ground (arith, full, gone, h)
        ]
      ]

  abbrev pub Booked : Dict String → Dict ℕ → Type 0
  Booked p load = (node_loads dag p [] ≡ ok load) × (capacity_violations topology load ≡ ok [])

  place_stages-Booked :
      (stages : List Stage) (p p' : Dict String) (load load' : Dict ℕ) (total total' : Cost)
      → All (λ s. get_stage dag s.id ≡ ok s) stages
      → Unique (ids stages)
      → ((x : String) → contains x (ids stages) ≡ true → contains x (keys p) ≡ false)
      → Booked p load
      → place_stages topology clearing_prices wan_cost local_domain load_aware stages p load total
        ≡ some (p', load', total')
      → Booked p' load' × (keys p' ≡ keys p ++ ids stages)
  unfolding place_stages contains
  place_stages-Booked [] p p' load load' total total' got u new b h =
      let same : p ≡ p' = cc h in
      let same' : load ≡ load' = cc h in
      (
        subst (λ q. Booked q load') same (subst (Booked p) same' b),
        ground (arith, same, append-nil (keys p)),
      )
  place_stages-Booked (s ∷ ss) p p' load load' total total' got u new b h =
      elim (Option-cases
        (place_stage topology clearing_prices wan_cost local_domain load_aware s load total)) [
          | inl none' ↦ cc (rw (none', place_stages) at h)
          | inr ((w, t), e) ↦
              let (listed, room) = place_stage-FitNow s load total t w e in
              let absent : contains s.id (keys p) ≡ false = new s.id (ground arith) in
              let next = book w.node_id s.computational_demand load in
              let added = insert_new s.id w.node_id p absent in
              let (b', ks) =
                place_stages-Booked ss (insert s.id w.node_id p) p' next load' t total' got.1 u.1
                  (λ x m. ground (
                    arith,
                    keys-insert_new s.id w.node_id p,
                    contains-append x (keys p) (s.id ∷ []),
                    new x,
                    u.0,
                  ))
                  (
                    rw added (
                        node_loads-snoc dag topology no_policy p s.id w.node_id s [] load got.0
                          b.0),
                    capacity-book dag topology no_policy w.node_id w _ load listed
                        (ground (arith, room)) b.1,
                  )
                  (rw (e, place_stages) at h) in
              (
                b',
                ks
                    ∙ ground (
                      arith,
                      keys-insert_new s.id w.node_id p absent,
                      append_assoc (keys p) (s.id ∷ []) (ids ss),
                    ),
              )
        ]

  -- Conditions: node ids are distinct, the graph is well formed, and market mode returns a
  -- placement. Then the placement has the stages of the graph in their order, the ledger of its
  -- loop is the load of its stages on the nodes and overloads none, and the total cost that its
  -- loop came to is within the budget of the graph.
  pub market_mode_placement-within :
      IsGraph dag
      → (placement : Dict String)
      → market_mode_placement topology clearing_prices wan_cost local_domain load_aware dag
        ≡ some placement
      → (load : Dict ℕ) × (total : Cost) × (place_stages topology clearing_prices wan_cost
            local_domain load_aware
            (values dag.stages)
            []
            []
            (fin 0)
          ≡ some (placement, load, total))
        × (accepts_cost dag total ≡ true)
        × (node_loads dag placement [] ≡ ok load)
        × (capacity_violations topology load ≡ ok [])
        × (keys placement ≡ stage_ids dag)
  unfolding market_mode_placement node_loads capacity_violations contains
  market_mode_placement-within g placement h =
      let (got, eq) = named_entries dag dag.stages g.named (entries_lem dag.stages g.unique) in
      elim (Option-cases (
        place_stages topology clearing_prices wan_cost local_domain load_aware (values dag.stages)
          [] [] (fin 0))) [
            | inl none' ↦ cc (rw (none', market_mode_placement) at h)
            | inr ((p, load, total), e) ↦
                let same : p ≡ placement = ground (arith, e, h) in
                let within : accepts_cost dag total ≡ true = ground (arith, e, h) in
                let e' : place_stages topology clearing_prices wan_cost local_domain load_aware
                      (values dag.stages) [] [] (fin 0)
                    ≡ some (placement, load, total) =
                  cc (e, same) in
                let (b, ks) =
                  place_stages-Booked (values dag.stages) [] placement [] load (fin 0) total got
                    (subst Unique (sym eq) g.unique) (λ x m. refl) (refl, refl) e' in
                (load, total, e', within, b.0, b.1, ks ∙ eq)
          ]

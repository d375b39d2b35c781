-- ===== src/Placement/Heuristics.antt =====
-- src/broker/placement.py: what `locality_placement`, `spillover_placement` and
-- `latency_greedy_placement` guarantee. They check the room on a node and the node itself.
use neural_pubsub_experiment.Prelude.{
  ℕ, ◌+◌, ◌≡◌, ◌∙◌, String, true, false, Option, none, some, List, [], ◌∷◌, not, arith,
  if◌then◌else◌, contains, Dict, lookup, insert, get_or, keys, filter, ok, >>=-eq-ok, ok-injective,
  ◌⊎◌, inl, inr, Option-cases, Bool-cases, Unique, All, subst, lookup-insert, str_dec, ==→≡,
}
use neural_pubsub_experiment.Prelude.Cost.{Cost, fin, inf}
use neural_pubsub_experiment.Prelude.Sorts.{All-filter}
use neural_pubsub_experiment.Dag.{Stage, PipelineDag, stage_ids}
use neural_pubsub_experiment.Dag.Graph.{IsGraph}
use neural_pubsub_experiment.Placement.{
  ExecutionUnit, NetworkTopology, GovernancePolicy, get_node, exceeds, is_node_feasible_simple,
}
use neural_pubsub_experiment.Placement.Rounds.{Pick, place_in_order}
use neural_pubsub_experiment.Placement.Check.{
  node_loads, capacity_violations, sovereignty_violations, slice_violations,
}
use neural_pubsub_experiment.Placement.Baselines.{
  has_room, first_with_room, in_domain, locality_pick, locality_placement, spillover_pick,
  spillover_placement, latency_sum, compute_time, improves, fastest, latency_pick,
  latency_greedy_placement,
}
use neural_pubsub_experiment.Placement.Fits.{
  Checks, Fits, Fits-nil, Fits-next, sovereignty-clean, slices-clean, node_ids, IsListed,
  Unique-IsListed,
}
use neural_pubsub_experiment.Placement.Sound.{place_in_order_ind}

-- What the four constraint families that look at single nodes say of a complete placement.
abbrev pub Respects : PipelineDag → NetworkTopology → GovernancePolicy → Dict String → Type 0
Respects dag topology governance p =
    (load : Dict ℕ) × (node_loads dag p [] ≡ ok load)
    × (capacity_violations topology load ≡ ok [])
    × (sovereignty_violations dag topology governance p ≡ ok [])
    × (slice_violations dag topology p ≡ ok [])
    × ((x : String) → contains x (keys p) ≡ contains x (stage_ids dag))

module _ (dag : PipelineDag) (topology : NetworkTopology) (governance : GovernancePolicy) where
  first_with_room-checks :
      (Q : ExecutionUnit → Type 0) (stage : Stage) (load : Dict ℕ) (ws : List ExecutionUnit)
      (nid : String)
      → All (λ n. IsListed topology n × Q n) ws
      → first_with_room governance stage load ws ≡ some nid
      → (node : ExecutionUnit) × (get_node topology nid ≡ ok node)
        × (is_node_feasible_simple stage node governance ≡ true)
        × (exceeds stage.computational_demand node (get_or nid 0 load) ≡ false)
        × Q node
  unfolding first_with_room
  first_with_room-checks Q stage load [] nid a h = cc
  first_with_room-checks Q stage load (w ∷ ws) nid a h =
      elim (Bool-cases (has_room governance stage load w)) [
        | inl room ↦
            let same : w.node_id ≡ nid = cc (rw (room, first_with_room) at h) in
            (
              w,
              subst (λ k. get_node topology k ≡ ok w) same a.0.0,
              ground arith,
              subst (λ k. exceeds stage.computational_demand w (get_or k 0 load) ≡ false) same
                  (ground arith),
              a.0.1,
            )
        | inr full ↦
            first_with_room-checks Q stage load ws nid a.1 (rw (full, first_with_room) at h)
      ]

  fastest-Checks :
      (stage : Stage) (p : Dict String) (load : Dict ℕ) (ns : List ExecutionUnit)
      (best : Option String) (best_latency : Cost) (nid : String)
      → All (IsListed topology) ns
      → fastest dag topology governance stage p load ns best best_latency ≡ ok (some nid)
      → (best ≡ some nid) ⊎ Checks dag topology governance stage load nid
  unfolding fastest
  fastest-Checks stage p load [] best best_latency nid a h = inl (ok-injective h)
  fastest-Checks stage p load (n ∷ ns) best best_latency nid a h =
      elim (Bool-cases (has_room governance stage load n)) [
        | inr full ↦
            fastest-Checks stage p load ns best best_latency nid a.1 (rw (full, fastest) at h)
        | inl room ↦
            let (to_preds, e, h1) =
              >>=-eq-ok (latency_sum topology n p (dag.predecessors stage.id) 0) _
                (rw (room, fastest) at h) in
            let lat = to_preds + compute_time n stage.stage_type in
            elim (fastest-Checks stage p load ns
              (if improves lat n.node_id best_latency best then some n.node_id else best)
              (if improves lat n.node_id best_latency best then fin lat else best_latency) nid a.1
              h1) [
                | inr c ↦ inr c
                | inl same ↦ elim (Bool-cases (improves lat n.node_id best_latency best)) [
                  | inr worse ↦ inl (rw worse at same)
                  | inl better ↦
                      let e' : n.node_id ≡ nid = cc (rw better at same) in
                      inr (
                        n,
                        subst (λ k. get_node topology k ≡ ok n) e' a.0,
                        ground arith,
                        subst (λ k. exceeds stage.computational_demand n (get_or k 0 load) ≡ false)
                            e' (ground arith),
                      )
                ]
              ]
      ]

  Fits-Respects :
      (p : Dict String) (load : Dict ℕ)
      → Fits dag topology governance p load
      → ((x : String) → contains x (keys p) ≡ contains x (stage_ids dag))
      → Respects dag topology governance p
  Fits-Respects p load f full = (
    load,
    f.loads,
    f.no_overload,
    sovereignty-clean dag topology governance p f.suits,
    slices-clean dag topology governance p f.suits,
    full,
  )

  -- Any placement loop whose pick checks the node keeps the constraints.
  pick-Respects :
      (g : IsGraph dag) (pick : Pick)
      → ((stage : Stage) (p : Dict String) (load : Dict ℕ) (nid : String)
          → pick stage p load ≡ ok (some nid)
          → Checks dag topology governance stage load nid)
      → (p : Dict String) → place_in_order dag pick ≡ ok p
      → Respects dag topology governance p
  pick-Respects g pick checks p h =
      let (load, f, full) =
        place_in_order_ind dag g pick (Fits dag topology governance)
          (λ sid nid stage p load got absent picked f.
            Fits-next dag topology governance sid nid stage p load got absent
              (checks stage p load nid picked) f)
          (Fits-nil dag topology governance) p h in
      Fits-Respects p load f full

module _ (dag : PipelineDag) (topology : NetworkTopology) (governance : GovernancePolicy)
    (g : IsGraph dag) (distinct : Unique (node_ids topology.nodes)) where
  latency_pick-Checks :
      (stage : Stage) (p : Dict String) (load : Dict ℕ) (nid : String)
      → latency_pick dag topology governance stage p load ≡ ok (some nid)
      → Checks dag topology governance stage load nid
  unfolding latency_pick
  latency_pick-Checks stage p load nid h =
      elim (fastest-Checks dag topology governance stage p load topology.nodes none inf nid
        (Unique-IsListed topology distinct) h) [ inl e ↦ cc | inr c ↦ c ]

  abbrev AndAlso : (ExecutionUnit → Type 0) → Stage → Dict ℕ → String → Type 0
  AndAlso Q stage load nid =
      (node : ExecutionUnit) × (get_node topology nid ≡ ok node)
      × (is_node_feasible_simple stage node governance ≡ true)
      × (exceeds stage.computational_demand node (get_or nid 0 load) ≡ false)
      × Q node

  drop_last :
      (Q : ExecutionUnit → Type 0) (stage : Stage) (load : Dict ℕ) (nid : String)
      → AndAlso Q stage load nid
      → Checks dag topology governance stage load nid
  drop_last Q stage load nid (node, has, simple, room, _) = (node, has, simple, room)

  spillover_pick-Checks :
      (local_domain : String) (stage : Stage) (p : Dict String) (load : Dict ℕ) (nid : String)
      → spillover_pick dag topology governance local_domain stage p load ≡ ok (some nid)
      → Checks dag topology governance stage load nid
  unfolding spillover_pick
  spillover_pick-Checks local_domain stage p load nid h =
      let here = filter (in_domain local_domain) topology.nodes in
      let there = filter (λ n. not (in_domain local_domain n)) topology.nodes in
      elim (Option-cases (first_with_room governance stage load here)) [
        | inl full ↦
            let picked : first_with_room governance stage load there ≡ some nid =
              ok-injective (rw (full, spillover_pick) at h) in
            drop_last _ stage load nid (
              first_with_room-checks dag topology governance _ stage load there nid
                (All-filter (IsListed topology) (λ n. not (in_domain local_domain n)) topology.nodes
                  (Unique-IsListed topology distinct))
                picked)
        | inr (w, found) ↦
            let picked : some w ≡ some nid = ok-injective (rw (found, spillover_pick) at h) in
            drop_last _ stage load nid (
              first_with_room-checks dag topology governance _ stage load here nid
                (All-filter (IsListed topology) (in_domain local_domain) topology.nodes
                  (Unique-IsListed topology distinct))
                (found ∙ picked))
      ]

  -- Conditions: the graph is well formed, node ids are distinct, and the latency-greedy heuristic
  -- returns a placement. Then it covers exactly the stages of the graph, overloads no node, and
  -- keeps sovereignty and slices.
  pub latency_greedy_placement-Respects :
      (p : Dict String)
      → latency_greedy_placement dag topology governance ≡ ok p
      → Respects dag topology governance p
  unfolding latency_greedy_placement
  latency_greedy_placement-Respects =
      pick-Respects dag topology governance g (latency_pick dag topology governance)
        latency_pick-Checks

  -- Conditions: the graph is well formed, node ids are distinct, and the spillover heuristic
  -- returns a placement. Then it covers exactly the stages of the graph, overloads no node, and
  -- keeps sovereignty and slices.
  pub spillover_placement-Respects :
      (local_domain : String) (p : Dict String)
      → spillover_placement dag topology governance local_domain ≡ ok p
      → Respects dag topology governance p
  unfolding spillover_placement
  spillover_placement-Respects local_domain =
      pick-Respects dag topology governance g (spillover_pick dag topology governance local_domain)
        (spillover_pick-Checks local_domain)

  abbrev pub AllLocal : String → Dict String → Type 0
  AllLocal local_domain p =
      (sid nid : String)
      → lookup sid p ≡ some nid
      → (node : ExecutionUnit) × (get_node topology nid ≡ ok node) × (node.domain_id ≡ local_domain)

  locality_pick-checks :
      (local_domain : String) (stage : Stage) (p : Dict String) (load : Dict ℕ) (nid : String)
      → locality_pick dag topology governance local_domain stage p load ≡ ok (some nid)
      → AndAlso (λ n. in_domain local_domain n ≡ true) stage load nid
  unfolding locality_pick
  locality_pick-checks local_domain stage p load nid h =
      first_with_room-checks dag topology governance _ stage load _ nid
        (All-filter (IsListed topology) (in_domain local_domain) topology.nodes
          (Unique-IsListed topology distinct))
        (ok-injective h)

  local_run :
      (local_domain : String) (p : Dict String)
      → locality_placement dag topology governance local_domain ≡ ok p
      → place_in_order dag (locality_pick dag topology governance local_domain) ≡ ok p
  unfolding locality_placement
  local_run local_domain p h = ground arith

  AllLocal-next :
      (local_domain sid nid : String) (stage : Stage) (p : Dict String) (load : Dict ℕ)
      → locality_pick dag topology governance local_domain stage p load ≡ ok (some nid)
      → AllLocal local_domain p
      → AllLocal local_domain (insert sid nid p)
  AllLocal-next local_domain sid nid stage p load picked l s n h =
      let (node, has, simple, room, inside) =
        locality_pick-checks local_domain stage p load nid picked in
      elim (str_dec sid s) [
        | yes e ↦
            let same : nid ≡ n = ground (arith, lookup-insert sid s nid p) in
            (node, subst (λ k. get_node topology k ≡ ok node) same has, ==→≡ _ _ inside)
        | no e ↦ l s n (ground (arith, lookup-insert sid s nid p))
      ]

  -- Conditions: the graph is well formed, node ids are distinct, and the locality heuristic returns
  -- a placement. Then it covers exactly the stages of the graph, overloads no node, keeps
  -- sovereignty and slices, and uses nodes of the local domain only.
  pub locality_placement-AllLocal :
      (local_domain : String) (p : Dict String)
      → locality_placement dag topology governance local_domain ≡ ok p
      → Respects dag topology governance p × AllLocal local_domain p
  unfolding lookup
  locality_placement-AllLocal local_domain p h =
      let (load, (f, l), full) =
        place_in_order_ind dag g (locality_pick dag topology governance local_domain)
          (λ p load. Fits dag topology governance p load × AllLocal local_domain p)
          (λ sid nid stage p load got absent picked (f, l). (
            Fits-next dag topology governance sid nid stage p load got absent
                (drop_last _ stage load nid
                  (locality_pick-checks local_domain stage p load nid picked))
                f,
            AllLocal-next local_domain sid nid stage p load picked l,
          ))
          (Fits-nil dag topology governance, λ s n e. cc) p (local_run local_domain p h) in
      (Fits-Respects dag topology governance p load f full, l)

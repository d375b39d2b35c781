-- ===== src/Placement/Chosen.antt =====
-- src/broker/placement.py, `find_placement`: its placements keep sovereignty and slices, whichever
-- solver makes them and however siblings are moved.
use neural_pubsub_experiment.Prelude.{
  ℕ, ◌≡◌, subst, inl, inr, String, true, false, Option, none, some, List, [], ◌∷◌, ◌==◌, ◌||◌, not,
  ltb, if◌then◌else◌, if_ind, All, Unique, length, Dict, get_or, ok, >>=-eq-ok, ok-injective,
  Bool-cases, Option-cases, arith,
}
use neural_pubsub_experiment.Prelude.Sorts.{sort_with}
use neural_pubsub_experiment.Dag.{Stage, PipelineDag, get_stage, stage_ids, sinks, is_tree}
use neural_pubsub_experiment.Dag.Graph.{IsGraph}
use neural_pubsub_experiment.Dag.Kahn.{topological_sort}
use neural_pubsub_experiment.Placement.{
  ExecutionUnit, NetworkTopology, GovernancePolicy, get_node, exceeds, is_node_feasible_simple,
}
use neural_pubsub_experiment.Placement.Float.{Floats}
use neural_pubsub_experiment.Placement.Check.{node_loads, sovereignty_violations, slice_violations}
use neural_pubsub_experiment.Placement.Fits.{
  Suits, IsListed, Unique-IsListed, node_ids, sovereignty-clean, slices-clean,
}
use neural_pubsub_experiment.Placement.Costs.{node_of}
use neural_pubsub_experiment.Placement.Greedy.{greedy_placement}
use neural_pubsub_experiment.Placement.Sound.{greedy_placement-Suits}
use neural_pubsub_experiment.Placement.Dp.{fill_table, trace_sink}
use neural_pubsub_experiment.Placement.Traced.{IsOrdered, All-insert, trace_sink-Suits}
use neural_pubsub_experiment.Placement.Spread.{
  Spread, group_preds, lighter, best_alternative, move_to, move_sibling, move_siblings, heavier,
  others, spread_groups, spread_all, dp_placement, find_placement,
}

module _ (dag : PipelineDag) (topology : NetworkTopology) (governance : GovernancePolicy) where
  -- An alternative that the loop has found passes the checks on the stage alone.
  abbrev IsAlternative : Stage → Option (ℕ × String) → Type 0
  IsAlternative stage none = Unit
  IsAlternative stage (some (_, nid)) =
      (node : ExecutionUnit) × (get_node topology nid ≡ ok node)
      × (is_node_feasible_simple stage node governance ≡ true)

  best_alternative-IsAlternative :
      (stage : Stage) (nid : String) (committed : Dict ℕ) (ns : List ExecutionUnit)
      (best : Option (ℕ × String))
      → All (IsListed topology) ns
      → IsAlternative stage best
      → IsAlternative stage (best_alternative dag topology governance stage nid committed ns best)
  unfolding best_alternative
  best_alternative-IsAlternative stage nid committed [] best listed b = b
  best_alternative-IsAlternative stage nid committed (n ∷ ns) best (here, listed) b =
      let current = get_or n.node_id 0 committed in
      let ruled_out =
        n.node_id == nid
        || (not (is_node_feasible_simple stage n governance)
            || (exceeds stage.computational_demand n current
                || not (lighter dag topology governance current best))) in
      best_alternative-IsAlternative stage nid committed ns
        (if ruled_out then best else some (current, n.node_id)) listed
        (if_ind (IsAlternative stage) ruled_out (λ _. b) (λ h. (n, here, ground arith)))

  abbrev AllSuit : Spread → Type 0
  AllSuit s = All (Suits dag topology governance) s.placement

  module _ (listed : All (IsListed topology) topology.nodes) where
    move_sibling-AllSuit :
        (nid sid : String) (s s' : Spread)
        → AllSuit s
        → move_sibling dag topology governance nid sid s ≡ ok s'
        → AllSuit s'
    unfolding move_sibling move_to
    move_sibling-AllSuit nid sid s s' a h =
        let (stage, got, h1) = >>=-eq-ok (get_stage dag sid) _ h in
        let best =
          best_alternative dag topology governance stage nid s.committed topology.nodes none in
        let checked =
          best_alternative-IsAlternative stage nid s.committed topology.nodes none listed tt in
        elim (Option-cases best) [
          | inl nowhere ↦ subst AllSuit (ok-injective (rw nowhere at h1)) a
          | inr ((load, alt), there) ↦
              let (node, has, simple) : IsAlternative stage (some (load, alt)) =
                subst (IsAlternative stage) there checked in
              let (old, _, h2) = >>=-eq-ok (node_of s.placement sid) _ (rw there at h1) in
              subst AllSuit (ok-injective h2) (
                All-insert (Suits dag topology governance) sid alt s.placement a
                  (stage, node, got, has, simple))
        ]

    move_siblings-AllSuit :
        (nid : String) (sids : List String) (s s' : Spread)
        → AllSuit s
        → move_siblings dag topology governance nid sids s ≡ ok s'
        → AllSuit s'
    unfolding move_siblings
    move_siblings-AllSuit nid [] s s' a h = subst AllSuit (ok-injective h) a
    move_siblings-AllSuit nid (sid ∷ sids) s s' a h =
        let (s1, one, rest) = >>=-eq-ok (move_sibling dag topology governance nid sid s) _ h in
        move_siblings-AllSuit nid sids s1 s' (move_sibling-AllSuit nid sid s s1 a one) rest

    spread_groups-AllSuit :
        (groups : Dict (List String)) (s s' : Spread)
        → AllSuit s
        → spread_groups dag topology governance groups s ≡ ok s'
        → AllSuit s'
    unfolding spread_groups
    spread_groups-AllSuit [] s s' a h = subst AllSuit (ok-injective h) a
    spread_groups-AllSuit ((nid, colocated) ∷ groups) s s' a h =
        let sids =
          others dag topology governance (sort_with (heavier dag topology governance) colocated) in
        let (s1, one, rest) = >>=-eq-ok (move_siblings dag topology governance nid sids s) _ h in
        spread_groups-AllSuit groups s1 s' (move_siblings-AllSuit nid sids s s1 a one) rest

    spread_all-AllSuit :
        (topo : List String) (s s' : Spread)
        → AllSuit s
        → spread_all dag topology governance topo s ≡ ok s'
        → AllSuit s'
    unfolding spread_all
    spread_all-AllSuit [] s s' a h = subst AllSuit (ok-injective h) a
    spread_all-AllSuit (sid ∷ topo) s s' a h =
        elim (Bool-cases (ltb (length (dag.predecessors sid)) 2)) [
          | inl few ↦ spread_all-AllSuit topo s s' a (rw (few, spread_all) at h)
          | inr many ↦
              let (groups, _, h1) =
                >>=-eq-ok
                  (group_preds dag topology governance s.placement (dag.predecessors sid) []) _
                  (rw (many, spread_all) at h) in
              let (s1, one, rest) =
                >>=-eq-ok (spread_groups dag topology governance groups s) _ h1 in
              spread_all-AllSuit topo s1 s' (spread_groups-AllSuit groups s s1 a one) rest
        ]

  module _ (F : Floats) (alpha beta gamma : F.Float) (g : IsGraph dag)
      (distinct : Unique (node_ids topology.nodes)) where
    dp_placement-Suits :
        IsOrdered F
        → (p : Dict String) → dp_placement dag topology governance F alpha beta gamma ≡ ok p
        → All (Suits dag topology governance) p
    unfolding dp_placement
    dp_placement-Suits ord p h =
        let (topo, _, h1) = >>=-eq-ok (topological_sort dag) _ h in
        let (table, filled, h2) =
          >>=-eq-ok (fill_table F dag topology governance alpha beta gamma topo []) _ h1 in
        let (p1, traced, h3) =
          >>=-eq-ok (trace_sink F dag topology governance alpha beta gamma table (sinks dag)) _
            h2 in
        let (committed, _, h4) = >>=-eq-ok (node_loads dag p1 []) _ h3 in
        let s : Spread = record { placement = p1; committed = committed } in
        let (s', spread, h5) = >>=-eq-ok (spread_all dag topology governance topo s) _ h4 in
        subst (All (Suits dag topology governance)) (ok-injective h5) (
          spread_all-AllSuit (Unique-IsListed topology distinct) topo s s'
            (trace_sink-Suits F dag topology governance alpha beta gamma ord topo (sinks dag) table
              p1 filled traced)
            spread)

    pub find_placement-Suits :
        IsOrdered F
        → (p : Dict String) → find_placement dag topology governance F alpha beta gamma ≡ ok p
        → All (Suits dag topology governance) p
    unfolding find_placement
    find_placement-Suits ord p h =
        elim (stage_ids dag)
            as (λ ids.
              (if (elim ids [ [] ↦ true | _ ∷ _ ↦ false ])
                  then ok []
                  else if is_tree dag
                  then dp_placement dag topology governance F alpha beta gamma
                  else greedy_placement F dag topology governance alpha beta gamma)
                ≡ ok p
              → All (Suits dag topology governance) p) [
                | [] ↦ λ h. subst (All (Suits dag topology governance)) (ok-injective h) tt
                | _ ∷ _ ↦ λ h. elim (Bool-cases (is_tree dag)) [
                  | inl tree ↦ dp_placement-Suits ord p (rw tree at h)
                  | inr other ↦
                      greedy_placement-Suits F dag topology governance alpha beta gamma g distinct p
                        (rw other at h)
                ]
              ]
          (h)

    -- Conditions: the graph is well formed, the nodes of the topology have distinct names, the test
    -- `<` of floats is transitive and does not hold of inf and inf, and find_placement returns a
    -- placement. Then the placement, of the dynamic programme with its redistribution or of the
    -- greedy solver, breaks no sovereignty of data and no slice requirement: both tests of
    -- check_feasibility find no violation.
    pub find_placement-respects :
        IsOrdered F
        → (p : Dict String) → find_placement dag topology governance F alpha beta gamma ≡ ok p
        → (sovereignty_violations dag topology governance p ≡ ok [])
          × (slice_violations dag topology p ≡ ok [])
    find_placement-respects ord p h =
        let suits = find_placement-Suits ord p h in
        (
          sovereignty-clean dag topology governance p suits,
          slices-clean dag topology governance p suits,
        )

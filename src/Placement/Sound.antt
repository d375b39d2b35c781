-- ===== src/Placement/Sound.antt =====
-- src/broker/placement.py: every algorithm against `check_feasibility`.
use neural_pubsub_experiment.Prelude.{
  ℕ, ◌≡◌, refl, sym, ◌∙◌, String, true, false, none, some, List, [], ◌∷◌, arith, contains, Dict,
  lookup, lookup_of_contains, insert, get_or, keys, ok, >>=-eq-ok, ok-injective, inl, inr, Unique,
  All, subst, subst₂,
}
use neural_pubsub_experiment.Dag.{Stage, Edge, PipelineDag, get_stage, stage_ids}
use neural_pubsub_experiment.Dag.Graph.{IsGraph, index-contains}
use neural_pubsub_experiment.Dag.Kahn.{topological_sort}
use neural_pubsub_experiment.Dag.Order.{topological_sort-IsOrdered}
use neural_pubsub_experiment.Placement.{NetworkTopology, GovernancePolicy, get_node, exceeds}
use neural_pubsub_experiment.Placement.Float.{Floats}
use neural_pubsub_experiment.Placement.Rounds.{Pick, book, place_in_order}
use neural_pubsub_experiment.Placement.Greedy.{greedy_pick, greedy_placement}
use neural_pubsub_experiment.Placement.Check.{edge_violations, edges_violations, check_feasibility}
use neural_pubsub_experiment.Placement.Fits.{
  Suits, place_all_ind, Fits, Fits-nil, Fits-next, sovereignty-clean, slices-clean, node_ids,
  Unique-IsListed,
}
use neural_pubsub_experiment.Placement.Links.{
  Linked, Linked-next, choose-Found, is_node_feasible-Passes,
}

-- The invariant rule for a whole run: at the end every stage of the graph is placed.
module _ (dag : PipelineDag) (g : IsGraph dag) (pick : Pick)
    (I : Dict String → Dict ℕ → Type 0) where
  pub place_in_order_ind :
      ((sid nid : String) (stage : Stage) (p : Dict String) (load : Dict ℕ)
        → get_stage dag sid ≡ ok stage
        → contains sid (keys p) ≡ false
        → pick stage p load ≡ ok (some nid)
        → I p load
        → I (insert sid nid p) (book nid stage.computational_demand load))
      → I [] []
      → (final : Dict String) → place_in_order dag pick ≡ ok final
      → (load : Dict ℕ) × I final load
        × ((x : String) → contains x (keys final) ≡ contains x (stage_ids dag))
  unfolding place_in_order contains
  place_in_order_ind keep start final h =
      let (order, sorted, h1) = >>=-eq-ok (topological_sort dag) _ h in
      let (order', sorted', u, mem, _) = topological_sort-IsOrdered dag g in
      let same : order' ≡ order = ok-injective (sym sorted' ∙ sorted) in
      let (load, i, all) =
        place_all_ind dag pick I keep order [] final [] (subst Unique same u) (λ x m. refl) start
          h1 in
      (load, i, λ x. all x ∙ subst (λ l. contains x l ≡ contains x (stage_ids dag)) same (mem x))

module _ (dag : PipelineDag) (topology : NetworkTopology) (governance : GovernancePolicy) where
  Linked-nil : Linked dag topology governance []
  unfolding lookup
  Linked-nil e index m s t hs ht = cc

  edges-clean :
      (g : IsGraph dag) (p : Dict String) (es : List Edge)
      → ((x : String) → contains x (keys p) ≡ contains x (stage_ids dag))
      → Linked dag topology governance p
      → All (λ e. dag.edge_index e.source_id e.target_id ≡ some e) es
      → edges_violations topology governance p es ≡ ok []
  unfolding edges_violations edge_violations
  edges-clean g p [] full l a = refl
  edges-clean g p (e ∷ es) full l a =
      let edge = index-contains g e.source_id e.target_id e a.0 in
      let (s, hs) =
        lookup_of_contains e.source_id p
          (full e.source_id ∙ g.known_source e.source_id e.target_id edge) in
      let (t, ht) =
        lookup_of_contains e.target_id p
          (full e.target_id ∙ g.known_target e.source_id e.target_id edge) in
      ground (arith, l e a.0 edge s t hs ht, edges-clean g p es full l a.1)

get_stage-lookup :
    (dag : PipelineDag) (sid : String) (stage : Stage)
    → get_stage dag sid ≡ ok stage
    → lookup sid dag.stages ≡ some stage
unfolding get_stage
get_stage-lookup dag sid stage h = ground arith

module _ (F : Floats) (dag : PipelineDag) (topology : NetworkTopology)
    (governance : GovernancePolicy) (alpha beta gamma : F.Float) (g : IsGraph dag)
    (distinct : Unique (node_ids topology.nodes)) where
  abbrev Sound : Dict String → Dict ℕ → Type 0
  Sound p load = Fits dag topology governance p load × Linked dag topology governance p

  Sound-next :
      (sid nid : String) (stage : Stage) (p : Dict String) (load : Dict ℕ)
      → get_stage dag sid ≡ ok stage
      → contains sid (keys p) ≡ false
      → greedy_pick F dag topology governance alpha beta gamma stage p load ≡ ok (some nid)
      → Sound p load
      → Sound (insert sid nid p) (book nid stage.computational_demand load)
  unfolding greedy_pick
  Sound-next sid nid stage p load got absent picked (f, l) =
      elim (choose-Found F dag topology governance alpha beta gamma stage p load topology.nodes none
        F.infinite nid (Unique-IsListed topology distinct) picked) [
          | inl e ↦ cc
          | inr (node, e, has, feasible) ↦
              let pass =
                is_node_feasible-Passes dag topology governance stage node p load feasible in
              let named : stage.id ≡ sid = g.named sid stage (get_stage-lookup dag sid stage got) in
              let has' : get_node topology node.node_id ≡ ok node =
                subst (λ k. get_node topology k ≡ ok node) (sym e) has in
              let room : exceeds stage.computational_demand node (get_or nid 0 load) ≡ false =
                subst (λ k. exceeds stage.computational_demand node (get_or k 0 load) ≡ false) e
                  pass.room in
              (
                Fits-next dag topology governance sid nid stage p load got absent
                    (node, has, pass.simple, room) f,
                subst₂ (λ j k. Linked dag topology governance (insert j k p)) named e
                    (Linked-next dag topology governance g stage node p load pass has' l),
              )
        ]

  -- The entries of a greedy placement suit their stages.
  pub greedy_placement-Suits :
      (placement : Dict String)
      → greedy_placement F dag topology governance alpha beta gamma ≡ ok placement
      → All (Suits dag topology governance) placement
  unfolding greedy_placement
  greedy_placement-Suits placement h =
      let (load, (f, l), full) =
        place_in_order_ind dag g (greedy_pick F dag topology governance alpha beta gamma) Sound
          Sound-next (Fits-nil dag topology governance, Linked-nil dag topology governance)
          placement h in
      f.suits

  -- Conditions: the graph is well formed, node ids are distinct, and no edge is hidden in the index
  -- by a later one between the same stages. Then a placement that the greedy solver returns passes
  -- the full check without a violation, whatever the floats and the weights of the cost.
  pub greedy_placement-feasible :
      All (λ e. dag.edge_index e.source_id e.target_id ≡ some e) dag.edges
      → (placement : Dict String)
      → greedy_placement F dag topology governance alpha beta gamma ≡ ok placement
      → check_feasibility placement dag topology governance ≡ ok (true, [])
  unfolding greedy_placement check_feasibility
  greedy_placement-feasible single placement h =
      let (load, (f, l), full) =
        place_in_order_ind dag g (greedy_pick F dag topology governance alpha beta gamma) Sound
          Sound-next (Fits-nil dag topology governance, Linked-nil dag topology governance)
          placement h in
      ground (
        arith,
        f.loads,
        f.no_overload,
        edges-clean dag topology governance g placement dag.edges full l single,
        sovereignty-clean dag topology governance placement f.suits,
        slices-clean dag topology governance placement f.suits,
      )

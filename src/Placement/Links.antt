-- ===== src/Placement/Links.antt =====
-- src/broker/placement.py, `_greedy_placement`: the links of a greedy placement keep the latency
-- bounds and the trust between domains, so that `check_feasibility` finds no violation.
use neural_pubsub_experiment.Prelude.{
  ℕ, ◌≡◌, ap, ◌∙◌, String, Bool, true, false, Option, some, List, [], ◌∷◌, arith, contains, Dict,
  lookup, insert, get_or, Result, ok, >>=-eq-ok, ok-injective, ◌⊎◌, inl, inr, str_dec, Bool-cases,
  lookup-insert, subst, All,
}
use neural_pubsub_experiment.Dag.{Stage, Edge, PipelineDag}
use neural_pubsub_experiment.Dag.Graph.{IsGraph, predecessor_iff}
use neural_pubsub_experiment.Placement.{
  ExecutionUnit, NetworkTopology, GovernancePolicy, get_node, exceeds, is_node_feasible_simple,
  is_node_feasible, none_bad, edge_too_slow, pred_too_slow, succ_too_slow, pred_untrusted,
  succ_untrusted,
}
use neural_pubsub_experiment.Placement.Float.{Floats}
use neural_pubsub_experiment.Placement.Greedy.{node_cost, choose}
use neural_pubsub_experiment.Placement.Check.{link_violations}
use neural_pubsub_experiment.Placement.Fits.{IsListed}

none_bad-all :
    (bad : String → Result Bool) (xs : List String)
    → none_bad bad xs ≡ ok true
    → (x : String) → contains x xs ≡ true
    → bad x ≡ ok false
unfolding none_bad contains
none_bad-all bad [] h x m = cc
none_bad-all bad (y ∷ ys) h x m =
    let (found, e, h1) = >>=-eq-ok (bad y) _ h in
    elim (str_dec x y) [
      | yes same ↦ rw same (ground arith)
      | no other ↦ none_bad-all bad ys (ground arith) x (ground arith)
    ]

module _ (dag : PipelineDag) (topology : NetworkTopology) (governance : GovernancePolicy) where
  -- What the test on one stage and one node says when it passes.
  pub record Passes (stage : Stage) (node : ExecutionUnit) (p : Dict String) (load : Dict ℕ)
      : Type 0 where
    pub simple : is_node_feasible_simple stage node governance ≡ true
    pub room : exceeds stage.computational_demand node (get_or node.node_id 0 load) ≡ false
    pub fast_preds :
        (x : String)
        → contains x (dag.predecessors stage.id) ≡ true
        → pred_too_slow dag topology governance stage node p x ≡ ok false
    pub fast_succs :
        (x : String)
        → contains x (dag.successors stage.id) ≡ true
        → succ_too_slow dag topology governance stage node p x ≡ ok false
    pub trusted_preds :
        (x : String)
        → contains x (dag.predecessors stage.id) ≡ true
        → pred_untrusted dag topology governance node p x ≡ ok false
    pub trusted_succs :
        (x : String)
        → contains x (dag.successors stage.id) ≡ true
        → succ_untrusted dag topology governance node p x ≡ ok false

  feasible_parts :
      (stage : Stage) (node : ExecutionUnit) (p : Dict String) (load : Dict ℕ)
      → is_node_feasible dag topology governance stage node p load ≡ ok true
      → (is_node_feasible_simple stage node governance ≡ true)
        × (exceeds stage.computational_demand node (get_or node.node_id 0 load) ≡ false)
        × (none_bad (pred_too_slow dag topology governance stage node p) (dag.predecessors stage.id)
            ≡ ok true)
        × (none_bad (succ_too_slow dag topology governance stage node p) (dag.successors stage.id)
            ≡ ok true)
        × (none_bad (pred_untrusted dag topology governance node p) (dag.predecessors stage.id)
            ≡ ok true)
        × (none_bad (succ_untrusted dag topology governance node p) (dag.successors stage.id)
            ≡ ok true)
  unfolding is_node_feasible is_node_feasible_simple
  feasible_parts stage node p load h = ground arith

  pub is_node_feasible-Passes :
      (stage : Stage) (node : ExecutionUnit) (p : Dict String) (load : Dict ℕ)
      → is_node_feasible dag topology governance stage node p load ≡ ok true
      → Passes stage node p load
  is_node_feasible-Passes stage node p load h =
      let (simple, room, fp, fs, tp, ts) = feasible_parts stage node p load h in
      record {
        simple = simple;
        room = room;
        fast_preds = none_bad-all _ _ fp;
        fast_succs = none_bad-all _ _ fs;
        trusted_preds = none_bad-all _ _ tp;
        trusted_succs = none_bad-all _ _ ts;
      }

  -- The links to the stage that is placed now are in order, whichever end is new.
  module _ (stage : Stage) (node : ExecutionUnit) (p : Dict String) (load : Dict ℕ)
      (pass : Passes stage node p load) (has : get_node topology node.node_id ≡ ok node) (e : Edge)
      (index : dag.edge_index e.source_id e.target_id ≡ some e) where
    link_to :
        (s : String)
        → e.target_id ≡ stage.id
        → contains e.source_id (dag.predecessors stage.id) ≡ true
        → lookup e.source_id p ≡ some s
        → link_violations topology governance e s node.node_id ≡ ok []
    unfolding pred_too_slow edge_too_slow pred_untrusted link_violations
    link_to s same m placed =
        let index' : dag.edge_index e.source_id stage.id ≡ some e =
          subst (λ k. dag.edge_index e.source_id k ≡ some e) same index in
        ground (arith, pass.fast_preds e.source_id m, pass.trusted_preds e.source_id m)

    link_from :
        (t : String)
        → e.source_id ≡ stage.id
        → contains e.target_id (dag.successors stage.id) ≡ true
        → lookup e.target_id p ≡ some t
        → link_violations topology governance e node.node_id t ≡ ok []
    unfolding succ_too_slow edge_too_slow succ_untrusted link_violations
    link_from t same m placed =
        let index' : dag.edge_index stage.id e.target_id ≡ some e =
          subst (λ k. dag.edge_index k e.target_id ≡ some e) same index in
        ground (arith, pass.fast_succs e.target_id m, pass.trusted_succs e.target_id m)

  abbrev pub Linked : Dict String → Type 0
  Linked p =
      (e : Edge)
      → dag.edge_index e.source_id e.target_id ≡ some e
      → contains e.target_id (dag.successors e.source_id) ≡ true
      → (s t : String) → lookup e.source_id p ≡ some s
      → lookup e.target_id p ≡ some t
      → link_violations topology governance e s t ≡ ok []

  pub Linked-next :
      (g : IsGraph dag) (stage : Stage) (node : ExecutionUnit) (p : Dict String) (load : Dict ℕ)
      → Passes stage node p load
      → get_node topology node.node_id ≡ ok node
      → Linked p
      → Linked (insert stage.id node.node_id p)
  Linked-next g stage node p load pass has l e index m s t hs ht =
      elim (str_dec e.source_id stage.id) [
        | yes a ↦ elim (str_dec e.target_id stage.id) [
          | yes b ↦
              absurd (omega (arith, g.ranked e.source_id e.target_id m, ap g.rank a, ap g.rank b))
          | no b ↦
              let here : s ≡ node.node_id =
                ground (arith, lookup-insert stage.id e.source_id node.node_id p) in
              let there : lookup e.target_id p ≡ some t =
                ground (arith, lookup-insert stage.id e.target_id node.node_id p) in
              rw here (link_from stage node p load pass has e index t a (rw a at m) there)
        ]
        | no a ↦ elim (str_dec e.target_id stage.id) [
          | yes b ↦
              let here : t ≡ node.node_id =
                ground (arith, lookup-insert stage.id e.target_id node.node_id p) in
              let there : lookup e.source_id p ≡ some s =
                ground (arith, lookup-insert stage.id e.source_id node.node_id p) in
              let edge : contains e.source_id (dag.predecessors stage.id) ≡ true =
                predecessor_iff g e.source_id stage.id ∙ (rw b at m) in
              rw here (link_to stage node p load pass has e index s b edge there)
          | no b ↦
              l e index m s t (ground (arith, lookup-insert stage.id e.source_id node.node_id p))
                (ground (arith, lookup-insert stage.id e.target_id node.node_id p))
        ]
      ]

module _ (F : Floats) (dag : PipelineDag) (topology : NetworkTopology)
    (governance : GovernancePolicy) (alpha beta gamma : F.Float) where
  abbrev pub Found : Stage → Dict String → Dict ℕ → String → Type 0
  Found stage p load nid =
      (node : ExecutionUnit) × (node.node_id ≡ nid)
      × (get_node topology nid ≡ ok node)
      × (is_node_feasible dag topology governance stage node p load ≡ ok true)

  -- The loop returns the best node that it began with or a feasible one.
  pub choose-Found :
      (stage : Stage) (p : Dict String) (load : Dict ℕ) (nodes : List ExecutionUnit)
      (best : Option String) (best_cost : F.Float) (nid : String)
      → All (IsListed topology) nodes
      → choose F dag topology governance alpha beta gamma stage p load nodes best best_cost
        ≡ ok (some nid)
      → (best ≡ some nid) ⊎ Found stage p load nid
  unfolding choose
  choose-Found stage p load [] best best_cost nid a h = inl (ok-injective h)
  choose-Found stage p load (n ∷ ns) best best_cost nid a h =
      let (feasible, e, h1) =
        >>=-eq-ok (is_node_feasible dag topology governance stage n p load) _ h in
      elim (Bool-cases feasible) [
        | inl fits ↦
            let (cost, ce, h2) =
              >>=-eq-ok (node_cost F dag topology governance alpha beta gamma stage p n) _
                (rw fits at h1) in
            elim (Bool-cases (F.less cost best_cost)) [
              | inl better ↦
                  elim (choose-Found stage p load ns (some n.node_id) cost nid a.1
                    (rw better at h2)) [
                      | inl same ↦ inr (n, cc, subst (λ k. get_node topology k ≡ ok n) (cc) a.0, cc)
                      | inr f ↦ inr f
                    ]
              | inr worse ↦ choose-Found stage p load ns best best_cost nid a.1 (rw worse at h2)
            ]
        | inr skip ↦ choose-Found stage p load ns best best_cost nid a.1 (rw skip at h1)
      ]

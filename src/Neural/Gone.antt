-- ===== src/Neural/Gone.antt =====
-- src/broker/neural_broker.py: what is left on a worker that died, once the solver has run again.
use neural_pubsub_experiment.Prelude.{
  ◌≡◌, ◌≢◌, refl, ap, ◌∙◌, subst, ◌⊎◌, inl, inr, String, Bool, true, false, Bool-cases,
  Option-cases, some, List, [], ◌∷◌, ◌==◌, ◌||◌, contains, if_ind, All, Unique, Dict, lookup,
  insert, keys, values, lookup-insert, Error, ok, Result-cases, str_dec, arith,
}
use neural_pubsub_experiment.Dag.{PipelineDag}
use neural_pubsub_experiment.Dag.Graph.{IsGraph}
use neural_pubsub_experiment.Funnel.{find_funnel_predecessor_stages}
use neural_pubsub_experiment.Placement.{ExecutionUnit, NetworkTopology, GovernancePolicy, get_node}
use neural_pubsub_experiment.Placement.Float.{Floats}
use neural_pubsub_experiment.Placement.Fits.{Suits, node_ids, node_map-other}
use neural_pubsub_experiment.Placement.Traced.{IsOrdered}
use neural_pubsub_experiment.Placement.Chosen.{find_placement-Suits}
use neural_pubsub_experiment.Placement.Spread.{find_placement}
use neural_pubsub_experiment.Broker.{WorkerInfo, PipelineState}
use neural_pubsub_experiment.Static.{is_empty}
use neural_pubsub_experiment.Static.Recovery.{stages_to_replace}
use neural_pubsub_experiment.Static.Replaced.{
  contains-keys-remove, dead_stages_of-contains, stages_to_replace-contains,
}
use neural_pubsub_experiment.Sharded.{as_topology}
use neural_pubsub_experiment.Neural.{NeuralBroker, units, rebuild_topology}
use neural_pubsub_experiment.Neural.Mirror.{IsMirror, All-remove}
use neural_pubsub_experiment.Neural.Recovery.{
  Replacement, replaced, is_runtime, cherry_pick, evict, outcome_of, place_anew, replace_stages_in,
}

contains-units :
    (k : String) (d : Dict WorkerInfo)
    → All (λ (e : String × WorkerInfo). e.1.node_id ≡ e.0) d
    → contains k (node_ids (units (values d))) ≡ contains k (keys d)
unfolding contains units
contains-units k [] a = refl
contains-units k ((j, w) ∷ d) (here, a) = ground (arith, here, contains-units k d a)

get_node-contains :
    (topology : NetworkTopology) (k : String) (n : ExecutionUnit)
    → get_node topology k ≡ ok n
    → contains k (node_ids topology.nodes) ≡ true
unfolding get_node lookup
get_node-contains topology k n h = elim (Bool-cases (contains k (node_ids topology.nodes))) [
  | inl there ↦ there
  | inr absent ↦ cc (rw (node_map-other k topology.nodes [] absent, get_node) at h)
]

All-lookup {κ} :
    (P : (String × String) → Type κ) (k v : String) (d : Dict String)
    → All P d
    → lookup k d ≡ some v
    → P (k, v)
unfolding lookup
All-lookup P k v [] a h = cc
All-lookup P k v ((j, w) ∷ d) (here, a) h = elim (str_dec j k) [
  | yes same ↦
      let value : w ≡ v = ground arith in
      subst (λ (e : String × String). P e) (λ i. (same i, value i)) here
  | no other ↦ All-lookup P k v d a (ground arith)
]

-- What may be left on the dead worker after some stages were picked from a new placement.
abbrev LeftBy : List String → String → PipelineState → PipelineState × Replacement → Type 0
LeftBy sids dead ps (ps', r) =
    r ≡ replaced
    → (sid : String) → lookup sid ps'.placement ≡ some dead
    → (contains sid sids ≡ false) × (lookup sid ps.placement ≡ some dead)

cherry_pick-LeftBy :
    (dead : String) (sids : List String) (new : Dict String) (ps : PipelineState)
    → ((s : String) → lookup s new ≢ some dead)
    → LeftBy sids dead ps (cherry_pick sids new ps)
unfolding cherry_pick contains
cherry_pick-LeftBy dead [] new ps never = λ h sid on_dead. (refl, on_dead)
cherry_pick-LeftBy dead (s ∷ sids) new ps never = elim (Option-cases (lookup s new)) [
  | inl unknown ↦ rw (unknown, cherry_pick) (λ h sid on_dead. cc)
  | inr (nid, known) ↦
      rw (known, cherry_pick)
        (λ h sid on_dead.
          let (out, before) =
            cherry_pick-LeftBy dead sids new (record ps { placement = insert s nid ps.placement })
              never h sid on_dead in
          step s sid nid ps.placement known out before)
]
  where
    step :
        (s sid nid : String) (placement : Dict String)
        → lookup s new ≡ some nid
        → contains sid sids ≡ false
        → lookup sid (insert s nid placement) ≡ some dead
        → ((sid == s || contains sid sids) ≡ false) × (lookup sid placement ≡ some dead)
    step s sid nid placement known out before = elim (str_dec s sid) [
      | yes same ↦
          let here : nid ≡ dead = ground (arith, lookup-insert s sid nid placement) in
          absurd (never s (known ∙ ap some here))
      | no other ↦ (ground arith, ground (arith, lookup-insert s sid nid placement))
    ]

-- The dead worker is gone from the registry, which the topology mirrors.
record Without (dead : String) (b : NeuralBroker) : Type 0 where
  mirror : IsMirror b
  gone : contains dead (keys b.workers) ≡ false

evict-Without :
    (dead : String) (b : NeuralBroker)
    → All (λ (e : String × WorkerInfo). e.1.node_id ≡ e.0) b.workers
    → contains dead (keys b.workers) ≡ true
    → Without dead (evict dead b)
unfolding evict rebuild_topology
evict-Without dead b keyed registered = rw registered (record {
  mirror = record {
    same = refl;
    keyed = All-remove (λ (e : String × WorkerInfo). e.1.node_id ≡ e.0) dead b.workers keyed;
  };
  gone = contains-keys-remove dead b.workers;
})

module _ (F : Floats) (governance : GovernancePolicy) (alpha beta gamma : F.Float)
    (ord : IsOrdered F) where
  solved-never :
      (dead s : String) (dag : PipelineDag) (b : NeuralBroker) (p : Dict String)
      → IsGraph dag
      → Without dead b
      → Unique (node_ids b.topology.nodes)
      → find_placement dag (as_topology b.topology) governance F alpha beta gamma ≡ ok p
      → lookup s p ≢ some dead
  solved-never dead s dag b p g w u h on_dead =
      let suits =
        find_placement-Suits dag (as_topology b.topology) governance F alpha beta gamma g u ord p
          h in
      let (stage, node, _, has, _) =
        All-lookup (Suits dag (as_topology b.topology) governance) s dead p suits on_dead in
      let listed : contains dead (node_ids b.topology.nodes) ≡ true =
        get_node-contains (as_topology b.topology) dead node has in
      let mirrored : contains dead (node_ids b.topology.nodes) ≡ contains dead (keys b.workers) =
        ap (λ ns. contains dead (node_ids ns)) w.mirror.same
        ∙ contains-units dead b.workers w.mirror.keyed in
      cc (listed, mirrored, w.gone)

  replace_stages_in-LeftBy :
      (bypass : Bool) (dead : String) (ps : PipelineState) (b : NeuralBroker)
      → IsGraph ps.dag
      → Without dead b
      → Unique (node_ids b.topology.nodes)
      → LeftBy
          (stages_to_replace bypass dead ps)
          dead
          ps
          (replace_stages_in F governance alpha beta gamma bypass dead ps b)
  unfolding replace_stages_in place_anew contains
  replace_stages_in-LeftBy bypass dead ps b g w u =
      let sids = stages_to_replace bypass dead ps in
      if_ind (LeftBy sids dead ps) (is_empty sids)
        (λ empty h sid on_dead. (nowhere sids sid empty, on_dead))
        (λ _.
          if_ind (LeftBy sids dead ps) (is_empty b.topology.nodes) (λ _ h sid on_dead. cc)
            (λ _.
              elim (Result-cases
                (find_placement ps.dag (as_topology b.topology) governance F alpha beta gamma)) [
                  | inl (e, raises) ↦ rw raises (failed e)
                  | inr (p, solved) ↦ rw solved (
                      cherry_pick-LeftBy dead sids p ps
                        (λ s. solved-never dead s ps.dag b p g w u solved))
                ]))
    where
      nowhere :
          (sids : List String) (sid : String) → is_empty sids ≡ true → contains sid sids ≡ false
      nowhere [] sid h = refl
      nowhere (s ∷ sids) sid h = cc

      failed :
          (e : Error)
          → LeftBy
              (stages_to_replace bypass dead ps)
              dead
              ps
              (ps, outcome_of F governance alpha beta gamma e)
      failed e =
          if_ind (λ (r : Replacement). LeftBy (stages_to_replace bypass dead ps) dead ps (ps, r))
            (is_runtime e) (λ _ h sid on_dead. cc) (λ _ h sid on_dead. cc)

  -- Conditions: the graph of the pipeline is well formed, workers stand under their own ids, the
  -- dead worker is registered, the nodes left have distinct names, the floats are ordered, and the
  -- re-placement after the worker is evicted succeeds. Then each stage still on the dead worker is
  -- completed or, if the bypass is on, feeds a fan-in.
  pub replace_stages_in-evict :
      (bypass : Bool) (dead : String) (ps : PipelineState) (b : NeuralBroker)
      → IsGraph ps.dag
      → All (λ (e : String × WorkerInfo). e.1.node_id ≡ e.0) b.workers
      → contains dead (keys b.workers) ≡ true
      → Unique (node_ids (evict dead b).topology.nodes)
      → (replace_stages_in F governance alpha beta gamma bypass dead ps (evict dead b)).1 ≡ replaced
      → (sid : String)
      → lookup sid
          (replace_stages_in F governance alpha beta gamma bypass dead ps
            (evict dead b)).0.placement
        ≡ some dead
      → (contains sid ps.completed_stages ≡ true)
        ⊎ ((bypass ≡ true) × (contains sid (find_funnel_predecessor_stages ps.dag) ≡ true))
  replace_stages_in-evict bypass dead ps b g keyed registered u h sid on_dead =
      let (out, before) =
        replace_stages_in-LeftBy bypass dead ps (evict dead b) g
          (evict-Without dead b keyed registered) u h sid on_dead in
      elim (dead_stages_of-contains dead sid ps.placement ps.completed_stages before) [
        | inl done ↦ inl done
        | inr there ↦ inr (stages_to_replace-contains bypass dead sid ps there out)
      ]

-- ===== src/Static/Replaced.antt =====
-- src/broker/static_broker.py: what is left on a worker that died.
use neural_pubsub_experiment.Prelude.{
  ◌≡◌, refl, ap, ◌∙◌, subst, ◌⊎◌, String, Bool, true, false, not, ◌||◌, ◌==◌, Bool-cases, if_ind,
  inl, inr, none, some, List, [], ◌∷◌, contains, contains-filter, Dict, lookup, insert, remove,
  keys, lookup-insert, ◌>>=◌, Result-cases, >>=-eq-ok, str_dec, arith,
}
use neural_pubsub_experiment.Prelude.Sorts.{Among, first, later}
use neural_pubsub_experiment.Dag.{get_stage}
use neural_pubsub_experiment.Funnel.{find_funnel_predecessor_stages}
use neural_pubsub_experiment.Broker.{WorkerInfo, PipelineState}
use neural_pubsub_experiment.Static.{StaticBroker, pick_worker, rebuild_cycle, leave, is_empty}
use neural_pubsub_experiment.Static.Eligible.{
  IsCurrent, rebuild_cycle-IsCurrent, ChoosesMember, pick_worker-IsPick,
}
use neural_pubsub_experiment.Static.Recovery.{
  Replacing, dead_stages_of, stages_to_replace, replace_stages, replace_in,
}

pub contains-keys-remove :
    (k : String) (d : Dict WorkerInfo) → contains k (keys (remove k d)) ≡ false
unfolding contains remove
contains-keys-remove k [] = refl
contains-keys-remove k ((j, w) ∷ d) = ground (arith, contains-keys-remove k d)

contains_of_Among :
    (k : String) (w : WorkerInfo) (d : Dict WorkerInfo)
    → Among (k, w) d
    → contains k (keys d) ≡ true
unfolding contains
contains_of_Among k w [] m = elim m [ ]
contains_of_Among k w ((j, v) ∷ d) (first e) =
    let same : k ≡ j = ap (λ p. p.0) e in rw (← same) (ground arith)
contains_of_Among k w ((j, v) ∷ d) (later m) = ground (arith, contains_of_Among k w d m)

-- A stage of the placement that stands on the worker is done, or it is among the dead stages.
pub dead_stages_of-contains :
    (dead sid : String) (placement : Dict String) (completed : List String)
    → lookup sid placement ≡ some dead
    → (contains sid completed ≡ true)
      ⊎ (contains sid (dead_stages_of dead placement completed) ≡ true)
unfolding lookup dead_stages_of contains
dead_stages_of-contains dead sid [] completed h = cc
dead_stages_of-contains dead sid ((s, n) ∷ placement) completed h =
    elim (Bool-cases (contains sid completed)) [
      | inl done ↦ inl done
      | inr open' ↦ elim (str_dec s sid) [
        | yes here ↦ inr (ground arith)
        | no away ↦ elim (dead_stages_of-contains dead sid placement completed (ground arith)) [
          | inl done ↦ inl done
          | inr there ↦ inr (ground arith)
        ]
      ]
    ]

pub stages_to_replace-contains :
    (bypass : Bool) (dead sid : String) (ps : PipelineState)
    → contains sid (dead_stages_of dead ps.placement ps.completed_stages) ≡ true
    → contains sid (stages_to_replace bypass dead ps) ≡ false
    → (bypass ≡ true) × (contains sid (find_funnel_predecessor_stages ps.dag) ≡ true)
unfolding stages_to_replace
stages_to_replace-contains false dead sid ps there out = cc
stages_to_replace-contains true dead sid ps there out =
    let sids = dead_stages_of dead ps.placement ps.completed_stages in
    let exempt = find_funnel_predecessor_stages ps.dag in
    (refl, ground (arith, contains-filter (λ s. not (contains s exempt)) sid sids))

module _ {Gen : Type 0} (choice : Gen → List String → String × Gen) where
  -- The dead worker is gone, and the cycles know it.
  record Without (dead : String) (b : StaticBroker Gen) : Type 0 where
    current : IsCurrent b
    gone : contains dead (keys b.workers) ≡ false

  leave-Without : (dead : String) (b : StaticBroker Gen) → IsCurrent b → Without dead (leave dead b)
  unfolding leave rebuild_cycle
  leave-Without dead b cur =
      if_ind (Without dead) (contains dead (keys b.workers))
        (λ _. record {
          current = rebuild_cycle-IsCurrent (record b { workers = remove dead b.workers });
          gone = contains-keys-remove dead b.workers;
        })
        (λ gone. record { current = cur; gone = gone })

  -- What may be left on the dead worker after the loop over the stages.
  abbrev LeftBy : List String → String → PipelineState → Replacing Gen → Type 0
  LeftBy sids dead ps r =
      r.error ≡ none
      → (sid : String) → lookup sid r.ps.placement ≡ some dead
      → (contains sid sids ≡ false) × (lookup sid ps.placement ≡ some dead)

  replace_stages-LeftBy :
      ChoosesMember choice
      → (dead : String) (sids : List String) (ps : PipelineState) (b : StaticBroker Gen)
      → Without dead b
      → LeftBy sids dead ps (replace_stages choice sids ps b)
  unfolding replace_stages contains
  replace_stages-LeftBy member dead [] ps b w = λ h sid on_dead. (refl, on_dead)
  replace_stages-LeftBy member dead (s ∷ sids) ps b w =
      elim (Result-cases
        (get_stage ps.dag s >>= (λ stage. pick_worker choice stage.slice_requirement b))) [
          | inl (e, raises) ↦ rw (raises, replace_stages) (λ h sid on_dead. cc)
          | inr ((nid, b'), picks) ↦
              let (stage, found, picked) =
                >>=-eq-ok (get_stage ps.dag s)
                  (λ stage. pick_worker choice stage.slice_requirement b) picks in
              let pick =
                pick_worker-IsPick choice member stage.slice_requirement b b' nid w.current
                  picked in
              let alive : contains nid (keys b.workers) ≡ true =
                contains_of_Among nid pick.eligible.info b.workers pick.eligible.registered in
              let w' : Without dead b' = record {
                current = pick.current;
                gone = ap (λ ws. contains dead (keys ws)) pick.workers_same ∙ w.gone;
              } in
              let ps' = record ps { placement = insert s nid ps.placement } in
              rw (picks, replace_stages)
                (λ h sid on_dead.
                  let (out, before) =
                    replace_stages-LeftBy member dead sids ps' b' w' h sid on_dead in
                  step s sid nid ps.placement alive w.gone out before)
        ]
    where
      step :
          (s sid nid : String) (placement : Dict String)
          → contains nid (keys b.workers) ≡ true
          → contains dead (keys b.workers) ≡ false
          → contains sid sids ≡ false
          → lookup sid (insert s nid placement) ≡ some dead
          → ((sid == s || contains sid sids) ≡ false) × (lookup sid placement ≡ some dead)
      step s sid nid placement alive gone out before = elim (str_dec s sid) [
        | yes same ↦
            let here : nid ≡ dead = ground (arith, lookup-insert s sid nid placement) in
            absurd (
              let alive' : contains dead (keys b.workers) ≡ true =
                subst (λ n. contains n (keys b.workers) ≡ true) here alive in
              cc)
        | no other ↦ (ground arith, ground (arith, lookup-insert s sid nid placement))
      ]

  replace_in-LeftBy :
      ChoosesMember choice
      → (bypass : Bool) (dead : String) (ps : PipelineState) (b : StaticBroker Gen) → Without dead b
      → LeftBy (stages_to_replace bypass dead ps) dead ps (replace_in choice bypass dead ps b)
  unfolding replace_in contains
  replace_in-LeftBy member bypass dead ps b w =
      let sids = stages_to_replace bypass dead ps in
      if_ind (LeftBy sids dead ps) (is_empty sids)
        (λ empty h sid on_dead. (nowhere sids sid empty, on_dead))
        (λ _.
          if_ind (LeftBy sids dead ps) (is_empty b.workers) (λ _ h sid on_dead. cc)
            (λ _. replace_stages-LeftBy member dead sids ps b w))
    where
      nowhere :
          (sids : List String) (sid : String) → is_empty sids ≡ true → contains sid sids ≡ false
      nowhere [] sid h = refl
      nowhere (s ∷ sids) sid h = cc

  -- Conditions: random choice gives an item of its list, the cycles of the broker hold eligible
  -- workers, and the stages of a pipeline on a worker that has left are placed again without an
  -- exception. Then a stage that still stands on that worker is completed, or the bypass is on and
  -- the stage feeds a fan-in stage.
  pub replace_in-leave :
      ChoosesMember choice
      → (bypass : Bool) (dead : String) (ps : PipelineState) (b : StaticBroker Gen) → IsCurrent b
      → (replace_in choice bypass dead ps (leave dead b)).error ≡ none
      → (sid : String)
      → lookup sid (replace_in choice bypass dead ps (leave dead b)).ps.placement ≡ some dead
      → (contains sid ps.completed_stages ≡ true)
        ⊎ ((bypass ≡ true) × (contains sid (find_funnel_predecessor_stages ps.dag) ≡ true))
  replace_in-leave member bypass dead ps b cur h sid on_dead =
      let (out, before) =
        replace_in-LeftBy member bypass dead ps (leave dead b) (leave-Without dead b cur) h sid
          on_dead in
      elim (dead_stages_of-contains dead sid ps.placement ps.completed_stages before) [
        | inl done ↦ inl done
        | inr there ↦ inr (stages_to_replace-contains bypass dead sid ps there out)
      ]

-- ===== src/Broker/Dispatchable.antt =====
-- src/broker/base.py, `_find_ready_stages`: which stages it finds.
use neural_pubsub_experiment.Prelude.{
  ℕ, ◌+◌, ◌≡◌, ◌≢◌, refl, ◌∙◌, ap, String, Bool, true, false, none, List, [], ◌∷◌, ◌++◌, ◌&&◌, ◌||◌,
  not, leb, arith, if◌then◌else◌, contains, contains-append, all, filter, contains-filter,
  Bool-cases, ◌⊎◌, inl, inr, str_dec,
}
use neural_pubsub_experiment.Dag.{stage_ids}
use neural_pubsub_experiment.Funnel.{
  FunnelMode, FunnelAction, FunnelPolicyResult, is_subset, apply_funnel_policy,
}
use neural_pubsub_experiment.Broker.{PipelineState}
use neural_pubsub_experiment.Broker.Ready.{
  Scan, is_dead, after_policy, visit, visit_all, wait_start, find_ready_stages,
}

-- Received inputs cover the expected ones exactly if all of those are completed.
subset_received :
    (done preds expected : List String)
    → is_subset expected (filter (λ p. contains p done) preds)
      ≡ all (λ p. contains p preds && contains p done) expected
subset_received done preds [] = refl
subset_received done preds (x ∷ xs) =
    ground (arith, contains-filter (λ p. contains p done) x preds, subset_received done preds xs)

all-contains :
    (done preds expected : List String)
    → ((x : String) → contains x expected ≡ true → contains x preds ≡ true)
    → all (λ p. contains p preds && contains p done) expected ≡ all (λ p. contains p done) expected
unfolding contains
all-contains done preds [] h = refl
all-contains done preds (x ∷ xs) h =
    let rest : (y : String) → contains y xs ≡ true → contains y preds ≡ true =
      λ y m. h y (ground arith) in
    ground (arith, h x, all-contains done preds xs rest)

received_lem :
    (done preds : List String)
    → is_subset preds (filter (λ p. contains p done) preds) ≡ all (λ p. contains p done) preds
received_lem done preds =
    subset_received done preds preds ∙ all-contains done preds preds (λ x m. m)

-- A mode in which a stage waits for all of its inputs.
abbrev pub Strict : FunnelMode → Type 0
Strict mode = mode ≢ FunnelMode.proceed

Strict-action :
    (mode : FunnelMode) (expected received : List String) (timeout : Bool)
    → Strict mode
    → is_subset expected received ≡ false
    → (apply_funnel_policy mode expected received timeout).action ≢ FunnelAction.go_on
unfolding apply_funnel_policy
Strict-action FunnelMode.wait expected received timeout h m = ground arith
Strict-action FunnelMode.proceed expected received timeout h m = absurd (h refl)
Strict-action FunnelMode.abort expected received timeout h m = ground arith

-- The stage is neither completed nor dispatched nor skipped.
abbrev pub is_open : PipelineState → String → Bool
is_open ps x = not (
    contains x ps.completed_stages
    || (contains x ps.dispatched_stages || contains x ps.skipped_stages))

abbrev pub inputs_complete : PipelineState → String → Bool
inputs_complete ps x = all (λ p. contains p ps.completed_stages) (ps.dag.predecessors x)

-- The fields that decide what is dispatched.
record Same (ps ps' : PipelineState) : Type 0 where
  dag : ps'.dag ≡ ps.dag
  completed : ps'.completed_stages ≡ ps.completed_stages
  dispatched : ps'.dispatched_stages ≡ ps.dispatched_stages
  skipped : ps'.skipped_stages ≡ ps.skipped_stages
  partial : ps'.partial ≡ ps.partial

module _ (mode : FunnelMode) (timeout_s now : ℕ) (dead : List String) where
  after_policy-Strict :
      (sid : String) (preds : List String) (r : FunnelPolicyResult) (s : Scan)
      → r.action ≢ FunnelAction.go_on
      → ((after_policy mode timeout_s now dead sid preds r s).ready ≡ s.ready)
        × Same s.ps (after_policy mode timeout_s now dead sid preds r s).ps
  unfolding after_policy
  after_policy-Strict sid preds r s h = ground arith

  visit-Strict :
      (sid : String) (s : Scan)
      → Strict mode
      → ((visit mode timeout_s now dead sid s).ready
          ≡ (if is_open s.ps sid && inputs_complete s.ps sid then s.ready ++ sid ∷ [] else s.ready))
        × Same s.ps (visit mode timeout_s now dead sid s).ps
  unfolding visit
  visit-Strict sid s h = elim (Bool-cases (inputs_complete s.ps sid)) [
    | inl c ↦ ground arith
    | inr c ↦
        let done = s.ps.completed_stages in
        let preds = s.ps.dag.predecessors sid in
        let timeout = leb (timeout_s + wait_start mode timeout_s now dead s.ps) now in
        let a =
          after_policy-Strict sid (filter (is_dead s.ps dead) preds)
            (apply_funnel_policy mode preds (filter (λ p. contains p done) preds) timeout) s
            (Strict-action mode preds (filter (λ p. contains p done) preds) timeout h
              (received_lem done preds ∙ c)) in
        ground (arith, a.0, a.1.dag, a.1.completed, a.1.dispatched, a.1.skipped, a.1.partial)
  ]

  Same-open :
      (ps ps' : PipelineState) (x : String)
      → Same ps ps'
      → is_open ps' x && inputs_complete ps' x ≡ (is_open ps x && inputs_complete ps x)
  Same-open ps ps' x e = rw (e.dag, e.completed, e.dispatched, e.skipped)

  -- Over the whole list, the strict modes add exactly the open stages whose inputs are complete.
  visit_all-Strict :
      (x : String) (ids : List String) (s : Scan)
      → Strict mode
      → contains x (visit_all mode timeout_s now dead ids s).ready
        ≡ (contains x s.ready || (contains x ids && (is_open s.ps x && inputs_complete s.ps x)))
  unfolding visit_all contains
  visit_all-Strict x [] s h = ground arith
  visit_all-Strict x (sid ∷ ids) s h =
      let step = visit-Strict sid s h in
      let later = visit_all-Strict x ids (visit mode timeout_s now dead sid s) h in
      elim (str_dec x sid) [
        | yes e ↦ ground (
          arith,
          step.0,
          later,
          Same-open s.ps _ x step.1,
          contains-append x s.ready (sid ∷ []),
          ap (is_open s.ps) e,
          ap (inputs_complete s.ps) e,
        )
        | no n ↦
            ground (
              arith,
              step.0,
              later,
              Same-open s.ps _ x step.1,
              contains-append x s.ready (sid ∷ []),
            )
      ]

  -- Condition: the mode is not proceed. Then a stage is found ready exactly if it belongs to the
  -- graph, is not completed, dispatched or skipped, and all of its predecessors are completed.
  pub find_ready_stages-Strict :
      (ps : PipelineState)
      → Strict mode
      → (x : String)
      → contains x (find_ready_stages mode timeout_s now dead ps).ready
        ≡ (contains x (stage_ids ps.dag) && (is_open ps x && inputs_complete ps x))
  unfolding find_ready_stages contains
  find_ready_stages-Strict ps h x =
      visit_all-Strict x (stage_ids ps.dag) (record { ps = ps; ready = []; funnel_result = none }) h

  visit-opens :
      (x sid : String) (s : Scan)
      → contains x (visit mode timeout_s now dead sid s).ready ≡ true
      → is_open s.ps sid ≡ false
      → contains x s.ready ≡ true
  unfolding visit
  visit-opens x sid s m shut = ground arith

  visit-adds :
      (sid : String) (s : Scan)
      → ((visit mode timeout_s now dead sid s).ready ≡ s.ready)
        ⊎ ((visit mode timeout_s now dead sid s).ready ≡ s.ready ++ sid ∷ [])
  unfolding visit after_policy
  visit-adds sid s = ground arith

  -- A round reopens nothing.
  visit-shuts :
      (x sid : String) (s : Scan)
      → is_open (visit mode timeout_s now dead sid s).ps x ≡ true
      → is_open s.ps x ≡ true
  unfolding visit after_policy
  visit-shuts x sid s h = ground (
    arith,
    contains-append x (filter (is_dead s.ps dead) (s.ps.dag.predecessors sid)) s.ps.skipped_stages,
  )

  visit_all-open :
      (x : String) (ids : List String) (s : Scan)
      → contains x (visit_all mode timeout_s now dead ids s).ready ≡ true
      → (contains x s.ready ≡ true) ⊎ ((contains x ids ≡ true) × (is_open s.ps x ≡ true))
  unfolding visit_all contains
  visit_all-open x [] s h = inl h
  visit_all-open x (sid ∷ ids) s h =
      elim (visit_all-open x ids (visit mode timeout_s now dead sid s) h) [
        | inr (m, o) ↦ inr (ground arith, visit-shuts x sid s o)
        | inl m ↦ elim (Bool-cases (is_open s.ps sid)) [
          | inr shut ↦ inl (visit-opens x sid s m shut)
          | inl o ↦ elim (visit-adds sid s) [
            | inl same ↦ inl (rw same at m)
            | inr more ↦ elim (str_dec x sid) [
              | yes e ↦ inr (ground arith, rw e o)
              | no n ↦ inl (ground (arith, contains-append x s.ready (sid ∷ [])))
            ]
          ]
        ]
      ]

  -- Condition: a stage is found ready, in any mode. Then it belongs to the graph, and was neither
  -- completed nor dispatched nor skipped before.
  pub find_ready_stages-open :
      (ps : PipelineState) (x : String)
      → contains x (find_ready_stages mode timeout_s now dead ps).ready ≡ true
      → (contains x (stage_ids ps.dag) ≡ true) × (is_open ps x ≡ true)
  unfolding find_ready_stages contains
  find_ready_stages-open ps x h =
      elim (visit_all-open x (stage_ids ps.dag)
        (record { ps = ps; ready = []; funnel_result = none }) h) [ inl m ↦ cc | inr r ↦ r ]

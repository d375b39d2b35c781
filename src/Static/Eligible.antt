-- ===== src/Static/Eligible.antt =====
-- src/broker/static_broker.py: which workers are picked, over all that happens to a broker.
use neural_pubsub_experiment.Prelude.{
  ◌≡◌, refl, sym, ap, subst, ◌≢◌, String, true, Option, none, some, List, [], ◌∷◌, ◌++◌, if_ind,
  Bool-cases, Option-cases, inl, inr, All, Dict, ok, ok-injective, arith, str_dec,
}
use neural_pubsub_experiment.Prelude.Sorts.{
  Among, first, later, All-Among, All-map, All-append, All-sort_with, Among-sort_with,
}
use neural_pubsub_experiment.Placement.{slice_matches}
use neural_pubsub_experiment.Broker.{WorkerInfo}
use neural_pubsub_experiment.Static.{
  PlacementStrategy, StaticBroker, matching, eligible_workers, text_less, same_req, set_cycle,
  is_slice_key, cycle_of, is_empty, rebuild_cycle, next_of, pick_turn, draw_from, pick_worker,
}

-- A registered worker of that name serves the requirement.
pub record IsEligible (req : Option String) (workers : Dict WorkerInfo) (wid : String)
    : Type 0 where
  pub info : WorkerInfo
  pub registered : Among (wid, info) workers
  pub serves : slice_matches info.slice_id req ≡ true

IsEligible-later :
    (req : Option String) (entry : String × WorkerInfo) (workers : Dict WorkerInfo) (wid : String)
    → IsEligible req workers wid
    → IsEligible req (entry ∷ workers) wid
IsEligible-later req entry workers wid e = record {
  info = e.info;
  registered = later e.registered;
  serves = e.serves;
}

matching-IsEligible :
    (req : Option String) (workers : Dict WorkerInfo)
    → All (IsEligible req workers) (matching req workers)
unfolding matching
matching-IsEligible req [] = tt
matching-IsEligible req ((wid, w) ∷ workers) =
    let rest =
      All-map (IsEligible req workers) (IsEligible req ((wid, w) ∷ workers))
        (IsEligible-later req (wid, w) workers) (matching req workers)
        (matching-IsEligible req workers) in
    if_ind (All (IsEligible req ((wid, w) ∷ workers))) (slice_matches w.slice_id req)
      (λ h. (record { info = w; registered = first refl; serves = h }, rest)) (λ _. rest)

eligible_workers-IsEligible :
    (req : Option String) (workers : Dict WorkerInfo)
    → All (IsEligible req workers) (eligible_workers req workers)
unfolding eligible_workers
eligible_workers-IsEligible req workers =
    All-sort_with text_less (IsEligible req workers) (matching req workers)
      (matching-IsEligible req workers)

Among-matching :
    (req : Option String) (workers : Dict WorkerInfo) (wid : String) (w : WorkerInfo)
    → Among (wid, w) workers
    → slice_matches w.slice_id req ≡ true
    → Among wid (matching req workers)
unfolding matching
Among-matching req [] wid w m h = elim m [ ]
Among-matching req ((v, i) ∷ workers) wid w (first e) h =
    let serves : slice_matches i.slice_id req ≡ true =
      subst (λ p. slice_matches p.1.slice_id req ≡ true) e h in
    rw serves (first (ap (λ p. p.0) e))
Among-matching req ((v, i) ∷ workers) wid w (later m) h =
    let rest = Among-matching req workers wid w m h in
    if_ind (Among wid) (slice_matches i.slice_id req) (λ _. later rest) (λ _. rest)

-- An eligible worker is among those that may be picked.
pub Among-eligible_workers :
    (req : Option String) (workers : Dict WorkerInfo) (wid : String)
    → IsEligible req workers wid
    → Among wid (eligible_workers req workers)
unfolding eligible_workers
Among-eligible_workers req workers wid e =
    Among-sort_with text_less wid (matching req workers)
      (Among-matching req workers wid e.info e.registered e.serves)

cycle_of-eq-some : (ws cycle : List String) → cycle_of ws ≡ some cycle → (cycle ≢ []) × (ws ≡ cycle)
cycle_of-eq-some [] cycle h = cc
cycle_of-eq-some (w ∷ ws) cycle h = (λ e. cc, cc)

same_req→≡ : (r s : Option String) → same_req r s ≡ true → r ≡ s
same_req→≡ none none h = refl
same_req→≡ none (some t) h = cc
same_req→≡ (some s) none h = cc
same_req→≡ (some s) (some t) h = elim (str_dec s t) [
  | yes e ↦ ap some e
  | no n ↦ absurd (ground arith)
]

snoc≢[] : (ws : List String) (w : String) → (ws ++ w ∷ []) ≢ []
snoc≢[] [] w e = cc
snoc≢[] (v ∷ ws) w e = cc

module _ {Gen : Type 0} where
  -- Every cycle has workers, and they are registered and eligible.
  abbrev pub IsCurrent : StaticBroker Gen → Type 0
  IsCurrent b =
      (req : Option String) (cycle : List String)
      → b.slice_cycles req ≡ some cycle
      → (cycle ≢ []) × All (IsEligible req b.workers) cycle

  pub rebuild_cycle-IsCurrent : (b : StaticBroker Gen) → IsCurrent (rebuild_cycle b)
  unfolding rebuild_cycle
  rebuild_cycle-IsCurrent b req cycle h = elim (Bool-cases (is_slice_key b.workers req)) [
    | inl key ↦
        let (full, same) = cycle_of-eq-some (eligible_workers req b.workers) cycle (rw key at h) in
        (
          full,
          subst (All (IsEligible req b.workers)) same (eligible_workers-IsEligible req b.workers),
        )
    | inr other ↦ absurd (let h' = rw other at h in cc)
  ]

  -- What a pick gives: an eligible worker, and a broker that is current and has the same workers.
  pub record IsPick (req : Option String) (b : StaticBroker Gen) (wid : String)
      (b' : StaticBroker Gen) : Type 0 where
    pub eligible : IsEligible req b.workers wid
    pub current : IsCurrent b'
    pub workers_same : b'.workers ≡ b.workers

  next_of-IsPick :
      (req : Option String) (cycle : List String) (b b' : StaticBroker Gen) (wid : String)
      → IsCurrent b
      → All (IsEligible req b.workers) cycle
      → next_of req cycle b ≡ ok (wid, b')
      → IsPick req b wid b'
  unfolding next_of
  next_of-IsPick req [] b b' wid cur all e = cc
  next_of-IsPick req (w ∷ ws) b b' wid cur (head, tail) e =
      let after = record b { slice_cycles = set_cycle req (ws ++ w ∷ []) b.slice_cycles } in
      let same : Path (String × StaticBroker Gen) (w, after) (wid, b') = ok-injective e in
      let current : IsCurrent after = λ r cycle h. elim (Bool-cases (same_req r req)) [
        | inl yes' ↦
            let whole : ws ++ w ∷ [] ≡ cycle =
              (let h' : some (ws ++ w ∷ []) ≡ some cycle = rw yes' at h in cc) in
            subst (λ c. (c ≢ []) × All (IsEligible r b.workers) c) whole
              (
                snoc≢[] ws w,
                subst (λ s. All (IsEligible s b.workers) (ws ++ w ∷ []))
                    (sym (same_req→≡ r req yes'))
                    (All-append (IsEligible req b.workers) ws (w ∷ []) tail (head, tt)),
              )
        | inr no' ↦ cur r cycle (rw no' at h)
      ] in
      subst (λ (p : String × StaticBroker Gen). IsPick req b p.0 p.1) same
        (record { eligible = head; current = current; workers_same = refl })

  pick_turn-IsPick :
      (req : Option String) (b b' : StaticBroker Gen) (wid : String)
      → IsCurrent b
      → pick_turn req b ≡ ok (wid, b')
      → IsPick req b wid b'
  unfolding pick_turn
  pick_turn-IsPick req b b' wid cur e = elim (Option-cases (b.slice_cycles req)) [
    | inl fresh ↦
        next_of-IsPick req (eligible_workers req b.workers) b b' wid cur
          (eligible_workers-IsEligible req b.workers) (rw (fresh, pick_turn) at e)
    | inr (cycle, known) ↦
        next_of-IsPick req cycle b b' wid cur (cur req cycle known).1 (rw (known, pick_turn) at e)
  ]

  module _ (choice : Gen → List String → String × Gen) where
    -- random.choice gives an item of a list that has one.
    abbrev pub ChoosesMember : Type 0
    ChoosesMember = (g : Gen) (w : String) (ws : List String) → Among (choice g (w ∷ ws)).0 (w ∷ ws)

    draw_from-IsPick :
        ChoosesMember
        → (req : Option String) (ws : List String) (b b' : StaticBroker Gen) (wid : String)
        → IsCurrent b
        → All (IsEligible req b.workers) ws
        → draw_from choice ws b ≡ ok (wid, b')
        → IsPick req b wid b'
    unfolding draw_from
    draw_from-IsPick member req [] b b' wid cur all e = cc
    draw_from-IsPick member req (w ∷ ws) b b' wid cur all e =
        let drawn = choice b.generator (w ∷ ws) in
        let same = ok-injective e in
        subst (λ (p : String × StaticBroker Gen). IsPick req b p.0 p.1) same
          (record {
            eligible =
                All-Among (IsEligible req b.workers) (w ∷ ws) drawn.0 all (member b.generator w ws);
            current = cur;
            workers_same = refl;
          })

    pub pick_worker-IsPick :
        ChoosesMember
        → (req : Option String) (b b' : StaticBroker Gen) (wid : String) → IsCurrent b
        → pick_worker choice req b ≡ ok (wid, b')
        → IsPick req b wid b'
    unfolding pick_worker
    pick_worker-IsPick member req b b' wid cur e = elim (Bool-cases (is_empty b.workers)) [
      | inl none' ↦ absurd (let e' = rw none' at e in cc)
      | inr some' ↦ strategy b.placement (rw some' at e)
    ]
      where
        strategy :
            (s : PlacementStrategy)
            → (elim s [
              | PlacementStrategy.random ↦ draw_from choice (eligible_workers req b.workers) b
              | PlacementStrategy.round_robin ↦ pick_turn req b
            ])
              ≡ ok (wid, b')
            → IsPick req b wid b'
        strategy PlacementStrategy.random e' =
            draw_from-IsPick member req (eligible_workers req b.workers) b b' wid cur
              (eligible_workers-IsEligible req b.workers) e'
        strategy PlacementStrategy.round_robin e' = pick_turn-IsPick req b b' wid cur e'

-- ===== src/Static/Turns.antt =====
-- src/broker/static_broker.py: the turns of the round robin, and what `_pick_worker` raises.
use neural_pubsub_experiment.Prelude.{
  ◌≡◌, refl, sym, ap, ◌∙◌, subst, ◌↔◌, String, true, false, Option, none, some, List, [], ◌∷◌, ◌++◌,
  append_assoc, append-nil, ==_refl, Bool-cases, Option-cases, inl, inr, length, ℕ, zero, suc,
  Error, Result, ok, raised, ◌>>=◌, Result-cases, Dict,
}
use neural_pubsub_experiment.Prelude.Sorts.{Among, sort_with, sort_onto}
use neural_pubsub_experiment.Broker.{WorkerInfo}
use neural_pubsub_experiment.Static.{
  PlacementStrategy, StaticBroker, matching, eligible_workers, rebuild_cycle, is_slice_key,
  is_empty, next_of, pick_turn, draw_from, pick_worker, same_req, set_cycle,
}
use neural_pubsub_experiment.Static.Sorted.{
  IsSorted, named, serving, eligible_workers-IsSorted, named-eligible_workers,
}
use neural_pubsub_experiment.Static.Eligible.{
  IsEligible, Among-eligible_workers, IsCurrent, ChoosesMember, pick_worker-IsPick,
}

same_req_refl : (req : Option String) → same_req req req ≡ true
same_req_refl none = refl
same_req_refl (some s) = ==_refl s

module _ {Gen : Type 0} (choice : Gen → List String → String × Gen) where
  -- So many picks for one requirement, one after the other.
  unfoldable pub picks :
      ℕ → Option String → StaticBroker Gen → Result (List String × StaticBroker Gen)
  picks zero req b = ok ([], b)
  picks (suc n) req b = do
    (wid, b') ← pick_worker choice req b
    (rest, b'') ← picks n req b'
    ok (wid ∷ rest, b'')

  -- A round-robin broker with workers, at this point of the cycle for a requirement.
  pub record AtTurn (req : Option String) (cycle : List String) (b : StaticBroker Gen)
      : Type 0 where
    pub in_turns : b.placement ≡ PlacementStrategy.round_robin
    pub has_workers : is_empty b.workers ≡ false
    pub cycle_here : b.slice_cycles req ≡ some cycle

  pick_worker-by_turn :
      (req : Option String) (b : StaticBroker Gen)
      → is_empty b.workers ≡ false
      → b.placement ≡ PlacementStrategy.round_robin
      → pick_worker choice req b ≡ pick_turn req b
  unfolding pick_worker
  pick_worker-by_turn req b has_workers turns = simp (has_workers, turns) refl

  pick_worker-AtTurn :
      (req : Option String) (w : String) (ws : List String) (b : StaticBroker Gen)
      → AtTurn req (w ∷ ws) b
      → (b' : StaticBroker Gen) × (pick_worker choice req b ≡ ok (w, b'))
        × AtTurn req (ws ++ w ∷ []) b'
  unfolding pick_worker pick_turn next_of
  pick_worker-AtTurn req w ws b at_turn =
      let b' = record b { slice_cycles = set_cycle req (ws ++ w ∷ []) b.slice_cycles } in
      let by_turn : pick_worker choice req b ≡ pick_turn req b =
        pick_worker-by_turn req b at_turn.has_workers at_turn.in_turns in
      let picked : pick_turn req b ≡ ok (w, b') = rw (at_turn.cycle_here, pick_turn) refl in
      (
        b',
        by_turn ∙ picked,
        record {
          in_turns = at_turn.in_turns;
          has_workers = at_turn.has_workers;
          cycle_here = rw (same_req_refl req) refl;
        },
      )

  picks-AtTurn :
      (req : Option String) (xs ys : List String) (b : StaticBroker Gen)
      → AtTurn req (xs ++ ys) b
      → (b' : StaticBroker Gen) × (picks (length xs) req b ≡ ok (xs, b')) × AtTurn req (ys ++ xs) b'
  unfolding picks
  picks-AtTurn req [] ys b h = (b, refl, subst (λ c. AtTurn req c b) (sym (append-nil ys)) h)
  picks-AtTurn req (x ∷ xs) ys b h =
      let (b', picked, after) = pick_worker-AtTurn req x (xs ++ ys) b h in
      let (b'', rest, done) =
        picks-AtTurn req xs (ys ++ x ∷ []) b'
          (subst (λ c. AtTurn req c b') (append_assoc xs ys (x ∷ [])) after) in
      (
        b'',
        rw (picked, rest) refl,
        subst (λ c. AtTurn req c b'') (append_assoc ys (x ∷ []) xs) done,
      )

  eligible_workers→has_workers :
      (req : Option String) (workers : Dict WorkerInfo) (w : String) (ws : List String)
      → eligible_workers req workers ≡ w ∷ ws
      → is_empty workers ≡ false
  unfolding eligible_workers matching sort_with sort_onto
  eligible_workers→has_workers req [] w ws h = cc
  eligible_workers→has_workers req (entry ∷ workers) w ws h = refl

  -- The first pick after a change of workers, when the cycle is built on demand.
  pick_worker-on_demand :
      (req : Option String) (w : String) (ws : List String) (b : StaticBroker Gen)
      → b.placement ≡ PlacementStrategy.round_robin
      → eligible_workers req b.workers ≡ w ∷ ws
      → b.slice_cycles req ≡ none
      → (b' : StaticBroker Gen) × (pick_worker choice req b ≡ ok (w, b'))
        × AtTurn req (ws ++ w ∷ []) b'
  unfolding pick_worker pick_turn next_of
  pick_worker-on_demand req w ws b turns found new =
      let b' = record b { slice_cycles = set_cycle req (ws ++ w ∷ []) b.slice_cycles } in
      let has_workers = eligible_workers→has_workers req b.workers w ws found in
      let by_turn : pick_worker choice req b ≡ pick_turn req b =
        pick_worker-by_turn req b has_workers turns in
      let on_demand : pick_turn req b ≡ next_of req (eligible_workers req b.workers) b =
        rw (new, pick_turn) refl in
      let picked : pick_turn req b ≡ ok (w, b') = on_demand ∙ ap (λ c. next_of req c b) found in
      (
        b',
        by_turn ∙ picked,
        record {
          in_turns = turns;
          has_workers = has_workers;
          cycle_here = rw (same_req_refl req) refl;
        },
      )

  -- The first pick after a change of workers.
  first_pick :
      (req : Option String) (w : String) (ws : List String) (b : StaticBroker Gen)
      → b.placement ≡ PlacementStrategy.round_robin
      → eligible_workers req b.workers ≡ w ∷ ws
      → (b' : StaticBroker Gen) × (pick_worker choice req (rebuild_cycle b) ≡ ok (w, b'))
        × AtTurn req (ws ++ w ∷ []) b'
  unfolding rebuild_cycle
  first_pick req w ws b turns found =
      let fresh = rebuild_cycle b in
      elim (Bool-cases (is_slice_key b.workers req)) [
        | inl built ↦ pick_worker-AtTurn req w ws fresh (record {
          in_turns = turns;
          has_workers = eligible_workers→has_workers req b.workers w ws found;
          cycle_here = rw (built, found) refl;
        })
        | inr not_built ↦ pick_worker-on_demand req w ws fresh turns found (rw not_built refl)
      ]

  -- Conditions: the broker works by turns, and some workers are eligible for a requirement. After a
  -- change of workers, as many picks as there are eligible workers give the list of them, and the
  -- cycle is then where it began; no name in the list comes before the one that it follows, and the
  -- list has each name as often as a worker of that name is registered whose slice serves the
  -- requirement.
  pub picks-rebuild_cycle :
      (req : Option String) (w : String) (ws : List String) (b : StaticBroker Gen)
      → b.placement ≡ PlacementStrategy.round_robin
      → eligible_workers req b.workers ≡ w ∷ ws
      → ((b' : StaticBroker Gen) × (picks (length (w ∷ ws)) req (rebuild_cycle b) ≡ ok (w ∷ ws, b'))
          × AtTurn req (w ∷ ws) b')
        × IsSorted (w ∷ ws)
        × ((wid : String) → named wid (w ∷ ws) ≡ serving wid req b.workers)
  unfolding picks rebuild_cycle
  picks-rebuild_cycle req w ws b turns found =
      let (b', picked, after) = first_pick req w ws b turns found in
      let (b'', rest, done) = picks-AtTurn req ws (w ∷ []) b' after in
      (
        (b'', rw (picked, rest) refl, done),
        subst IsSorted found (eligible_workers-IsSorted req b.workers),
        λ wid. ap (named wid) (sym found) ∙ named-eligible_workers wid req b.workers,
      )

  next_of-raised :
      (req : Option String) (cycle : List String) (b : StaticBroker Gen) (e : Error)
      → next_of req cycle b ≡ raised e
      → cycle ≡ []
  unfolding next_of
  next_of-raised req [] b e h = refl
  next_of-raised req (w ∷ ws) b e h = cc

  draw_from-raised :
      (cycle : List String) (b : StaticBroker Gen) (e : Error)
      → draw_from choice cycle b ≡ raised e
      → cycle ≡ []
  unfolding draw_from
  draw_from-raised [] b e h = refl
  draw_from-raised (w ∷ ws) b e h = cc

  pick_turn-raised :
      (req : Option String) (b : StaticBroker Gen) (e : Error)
      → IsCurrent b
      → pick_turn req b ≡ raised e
      → eligible_workers req b.workers ≡ []
  unfolding pick_turn
  pick_turn-raised req b e cur h = elim (Option-cases (b.slice_cycles req)) [
    | inl fresh ↦
        next_of-raised req (eligible_workers req b.workers) b e (rw (fresh, pick_turn) at h)
    | inr (cycle, known) ↦
        absurd ((cur req cycle known).0 (next_of-raised req cycle b e (rw (known, pick_turn) at h)))
  ]

  pick_worker-none :
      (req : Option String) (b : StaticBroker Gen) (e : Error)
      → IsCurrent b
      → pick_worker choice req b ≡ raised e
      → eligible_workers req b.workers ≡ []
  unfolding pick_worker eligible_workers matching sort_with sort_onto
  pick_worker-none req b e cur h = elim (Bool-cases (is_empty b.workers)) [
    | inl gone ↦ no_workers b.workers gone
    | inr here ↦ strategy b.placement (rw (here, pick_worker) at h)
  ]
    where
      no_workers : (ws : Dict WorkerInfo) → is_empty ws ≡ true → eligible_workers req ws ≡ []
      no_workers [] gone = refl
      no_workers (w ∷ ws) gone = cc

      strategy :
          (s : PlacementStrategy)
          → (elim s [
            | PlacementStrategy.random ↦ draw_from choice (eligible_workers req b.workers) b
            | PlacementStrategy.round_robin ↦ pick_turn req b
          ])
            ≡ raised e
          → eligible_workers req b.workers ≡ []
      strategy PlacementStrategy.random h' =
          draw_from-raised (eligible_workers req b.workers) b e h'
      strategy PlacementStrategy.round_robin h' = pick_turn-raised req b e cur h'

  -- Conditions: random choice gives an item of its list, and the cycles of the broker hold eligible
  -- workers. Then picking a worker raises an exception exactly if no registered worker serves the
  -- requirement.
  pub pick_worker-raised :
      ChoosesMember choice
      → (req : Option String) (b : StaticBroker Gen) → IsCurrent b
      → ((e : Error) × (pick_worker choice req b ≡ raised e))
        ↔ ((wid : String) → ¬ IsEligible req b.workers wid)
  pick_worker-raised member req b cur = (
    λ (e, h) wid eligible.
        elim (subst (Among wid) (pick_worker-none req b e cur h)
          (Among-eligible_workers req b.workers wid eligible)) [ ],
    λ nobody. elim (Result-cases (pick_worker choice req b)) [
      | inl raises ↦ raises
      | inr ((wid, b'), picked) ↦
          absurd (nobody wid (pick_worker-IsPick choice member req b b' wid cur picked).eligible)
    ],
  )

-- ===== src/Federation/Peers.antt =====
-- src/federation/propagation.py: the health of peers over rounds of pushes.
use neural_pubsub_experiment.Prelude.{
  ℕ, ◌+◌, ◌<◌, ◌≡◌, refl, sym, subst, String, true, false, Option, none, some, List, [], ◌∷◌, ◌++◌,
  ◌==◌, arith, ltb, if◌then◌else◌, if_ind, lookup, get_or, lookup-insert, lookup-remove,
}
use neural_pubsub_experiment.Federation.{SubscriptionSummary}
use neural_pubsub_experiment.Federation.Propagation.{
  Propagator, Outcome, new_propagator, receive_summary, keep_summary, update_local_summary,
  is_peer_healthy, record_peer_failure, send_to_peer, skip, select_eligible, send_all, push_summary,
  push_local, tick, start, stop,
}

-- A call of the service, or a round of its loop.
pub data Event (E : Type 0) : Type 0 where
  received updated : SubscriptionSummary E → Event E
  round : (String → Outcome) → Event E
  start_call stop_call : Event E

-- What one push does to the number of failures in a row.
abbrev pub after_push : Outcome → ℕ → ℕ
after_push Outcome.accepted n = 0
after_push Outcome.refused n = n + 1
after_push Outcome.broken n = n

-- The failures in a row of a peer at the end of a log of pushes, from a first number on.
unfoldable pub streak : String → ℕ → List (String × Outcome) → ℕ
streak url n [] = n
streak url n ((peer_url, outcome) ∷ log) =
    streak url (if peer_url == url then after_push outcome n else n) log

abbrev pub logged : (String → Outcome) → List String → List (String × Outcome)
logged outcome [] = []
logged outcome (peer_url ∷ urls) = (peer_url, outcome peer_url) ∷ logged outcome urls

streak-append :
    (url : String) (n : ℕ) (xs ys : List (String × Outcome))
    → streak url n (xs ++ ys) ≡ streak url (streak url n xs) ys
unfolding streak
streak-append url n [] ys = refl
streak-append url n ((u, o) ∷ xs) ys =
    streak-append url (if u == url then after_push o n else n) xs ys

module _ {E : Type 0} where
  unfoldable pub step : Event E → Propagator E → Propagator E
  step (received s) p = receive_summary s p
  step (updated s) p = update_local_summary s p
  step (round outcome) p = (tick outcome p).0
  step start_call p = start p
  step stop_call p = stop p

  unfoldable pub run : List (Event E) → Propagator E → Propagator E
  run [] p = p
  run (e ∷ es) p = run es (step e p)

  -- The pushes of an event, each with its outcome, in their order.
  abbrev pub pushes : Event E → Propagator E → List (String × Outcome)
  pushes (round outcome) p = logged outcome (tick outcome p).1
  pushes _ p = []

  unfoldable pub push_log : List (Event E) → Propagator E → List (String × Outcome)
  push_log [] p = []
  push_log (e ∷ es) p = pushes e p ++ push_log es (step e p)

  abbrev pub failures : Propagator E → String → ℕ
  failures p url = get_or url 0 p.peer_failures

  module _ (max : ℕ) (url : String) where
    -- The peer has failed n times in a row.
    abbrev pub IsTracked : ℕ → Propagator E → Type 0
    IsTracked n p =
        (p.max_peer_failures ≡ max) × (failures p url ≡ n) × (is_peer_healthy p url ≡ ltb n max)

    send_to_peer-IsTracked :
        (o : Outcome) (u : String) (n : ℕ) (p : Propagator E)
        → 0 < max
        → IsTracked n p
        → IsTracked (if u == url then after_push o n else n) (send_to_peer o u p)
    unfolding send_to_peer is_peer_healthy record_peer_failure
    send_to_peer-IsTracked Outcome.accepted u n p pos (m, f, h) = (
      m,
      ground (arith, f, lookup-remove u url p.peer_failures),
      ground (arith, h, lookup-insert u url true p.peer_healthy),
    )
    send_to_peer-IsTracked Outcome.refused u n p pos (m, f, h) = (
      m,
      ground (arith, f, lookup-insert u url (get_or u 0 p.peer_failures + 1) p.peer_failures),
      ground (arith, m, f, h, lookup-insert u url false p.peer_healthy),
    )
    send_to_peer-IsTracked Outcome.broken u n p pos (m, f, h) =
        (m, ground (arith, f), ground (arith, h))

    send_all-IsTracked :
        (outcome : String → Outcome) (urls : List String) (n : ℕ) (p : Propagator E)
        → 0 < max
        → IsTracked n p
        → IsTracked (streak url n (logged outcome urls)) (send_all outcome urls p)
    unfolding send_all streak
    send_all-IsTracked outcome [] n p pos t = t
    send_all-IsTracked outcome (u ∷ urls) n p pos t =
        send_all-IsTracked outcome urls _ (send_to_peer (outcome u) u p) pos
          (send_to_peer-IsTracked (outcome u) u n p pos t)

    select_eligible-IsTracked :
        (urls : List String) (n : ℕ) (p : Propagator E)
        → IsTracked n p
        → IsTracked n (select_eligible urls p).0
    unfolding select_eligible skip is_peer_healthy
    select_eligible-IsTracked [] n p t = t
    select_eligible-IsTracked (u ∷ urls) n p t =
        select_eligible-IsTracked urls n (skip u p)
          (if_ind (IsTracked n) (is_peer_healthy p u) (λ _. t) (λ _. t))

    push_summary-IsTracked :
        (outcome : String → Outcome) (n : ℕ) (p : Propagator E)
        → 0 < max
        → IsTracked n p
        → IsTracked
            (streak url n (logged outcome (push_summary outcome p).1))
            (push_summary outcome p).0
    unfolding push_summary
    push_summary-IsTracked outcome n p pos t =
        send_all-IsTracked outcome _ n (select_eligible p.peers p).0 pos
          (select_eligible-IsTracked p.peers n p t)

    push_local-IsTracked :
        (outcome : String → Outcome) (local : Option (SubscriptionSummary E)) (n : ℕ)
        (p : Propagator E)
        → 0 < max
        → IsTracked n p
        → IsTracked
            (streak url n (logged outcome (push_local outcome local p).1))
            (push_local outcome local p).0
    unfolding push_local streak
    push_local-IsTracked outcome none n p pos t = t
    push_local-IsTracked outcome (some s) n p pos t = push_summary-IsTracked outcome n p pos t

    step-IsTracked :
        (e : Event E) (n : ℕ) (p : Propagator E)
        → 0 < max
        → IsTracked n p
        → IsTracked (streak url n (pushes e p)) (step e p)
    unfolding step receive_summary keep_summary update_local_summary tick start stop is_peer_healthy
        streak
    step-IsTracked (received s) n p pos t =
        (ground (arith, t.0), ground (arith, t.1), ground (arith, t.2))
    step-IsTracked (updated s) n p pos t = t
    step-IsTracked (round outcome) n p pos t =
        if_ind
          (λ (r : Propagator E × List String). IsTracked (streak url n (logged outcome r.1)) r.0)
          p.running (λ on. push_local-IsTracked outcome p.local_summary n p pos t) (λ off. t)
    step-IsTracked start_call n p pos t = t
    step-IsTracked stop_call n p pos t = t

    run-keeps :
        (es : List (Event E)) (n : ℕ) (p : Propagator E)
        → 0 < max
        → IsTracked n p
        → IsTracked (streak url n (push_log es p)) (run es p)
    unfolding run push_log streak
    run-keeps [] n p pos t = t
    run-keeps (e ∷ es) n p pos t =
        subst (λ k. IsTracked k (run es (step e p)))
          (sym (streak-append url n (pushes e p) (push_log es (step e p))))
          (run-keeps es (streak url n (pushes e p)) (step e p) pos (step-IsTracked e n p pos t))

    -- Condition: the limit of failures is positive. After any calls and rounds of pushes, with any
    -- outcomes, the count of failures of every peer is the number of its failures in a row in the
    -- log of all pushes (a push that the peer accepts starts it from zero, a refused one adds one),
    -- and the peer is marked healthy exactly if that number is below the limit.
    pub run-IsTracked :
        (es : List (Event E)) (peers : List String)
        → 0 < max
        → let p = new_propagator peers max in
          (failures (run es p) url ≡ streak url 0 (push_log es p))
          × (is_peer_healthy (run es p) url ≡ ltb (streak url 0 (push_log es p)) max)
    unfolding new_propagator is_peer_healthy lookup
    run-IsTracked es peers pos =
        let t = run-keeps es 0 (new_propagator peers max) pos (refl, refl, ground arith) in
        (t.1, t.2)

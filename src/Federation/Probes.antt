-- ===== src/Federation/Probes.antt =====
-- src/federation/propagation.py, `_select_eligible_peers`: no peer is given up for good.
use neural_pubsub_experiment.Prelude.{
  ℕ, zero, suc, ◌+◌, ◌≤◌, ◌<◌, ◌≡◌, refl, String, true, false, List, [], ◌∷◌, ◌++◌, ◌==◌, arith,
  leb, if◌then◌else◌, contains, contains-append, get_or, lookup-insert, lookup-remove, str_dec,
}
use neural_pubsub_experiment.Federation.Propagation.{
  Propagator, Outcome, record_peer_failure, send_to_peer, next_skip, skip, is_eligible,
  select_eligible, send_all, push_summary,
}

module _ {E : Type 0} where
  -- The peers that `n` rounds of pushes try, one after the other.
  unfoldable pub tried_in : ℕ → (ℕ → String → Outcome) → Propagator E → List String
  tried_in zero outcome p = []
  tried_in (suc n) outcome p =
      let (p', tried) = push_summary (outcome n) p in tried ++ tried_in n outcome p'

  abbrev skips : Propagator E → String → ℕ
  skips p url = get_or url 0 p.peer_skip_counter

  -- The fields that no round changes.
  abbrev SameSetting : Propagator E → Propagator E → Type 0
  SameSetting p q = (q.peers ≡ p.peers) × (q.recovery_probe_interval ≡ p.recovery_probe_interval)

  skip-SameSetting : (u : String) (p : Propagator E) → SameSetting p (skip u p)
  unfolding skip
  skip-SameSetting u p = ground arith

  select_eligible-SameSetting :
      (urls : List String) (p : Propagator E) → SameSetting p (select_eligible urls p).0
  unfolding select_eligible
  select_eligible-SameSetting [] p = (refl, refl)
  select_eligible-SameSetting (u ∷ urls) p =
      ground (arith, skip-SameSetting u p, select_eligible-SameSetting urls (skip u p))

  send_to_peer-SameSetting :
      (o : Outcome) (u : String) (p : Propagator E) → SameSetting p (send_to_peer o u p)
  unfolding send_to_peer record_peer_failure
  send_to_peer-SameSetting Outcome.accepted u p = (refl, refl)
  send_to_peer-SameSetting Outcome.refused u p = (refl, refl)
  send_to_peer-SameSetting Outcome.broken u p = (refl, refl)

  send_all-SameSetting :
      (outcome : String → Outcome) (urls : List String) (p : Propagator E)
      → SameSetting p (send_all outcome urls p)
  unfolding send_all
  send_all-SameSetting outcome [] p = (refl, refl)
  send_all-SameSetting outcome (u ∷ urls) p = ground (
    arith,
    send_to_peer-SameSetting (outcome u) u p,
    send_all-SameSetting outcome urls (send_to_peer (outcome u) u p),
  )

  send_to_peer-skips :
      (o : Outcome) (u url : String) (p : Propagator E)
      → (u == url) ≡ false
      → skips (send_to_peer o u p) url ≡ skips p url
  unfolding send_to_peer record_peer_failure
  send_to_peer-skips Outcome.accepted u url p n =
      ground (arith, lookup-remove u url p.peer_skip_counter)
  send_to_peer-skips Outcome.refused u url p n = refl
  send_to_peer-skips Outcome.broken u url p n = refl

  send_all-skips :
      (outcome : String → Outcome) (urls : List String) (url : String) (p : Propagator E)
      → contains url urls ≡ false
      → skips (send_all outcome urls p) url ≡ skips p url
  unfolding send_all contains
  send_all-skips outcome [] url p n = refl
  send_all-skips outcome (u ∷ urls) url p n = ground (
    arith,
    send_to_peer-skips (outcome u) u url p,
    send_all-skips outcome urls url (send_to_peer (outcome u) u p),
  )

  skip-skips :
      (u url : String) (p : Propagator E) → (u == url) ≡ false → skips (skip u p) url ≡ skips p url
  unfolding skip
  skip-skips u url p n = ground (
    arith,
    lookup-insert u url (if leb p.recovery_probe_interval (next_skip p u) then 0 else next_skip p u)
        p.peer_skip_counter,
  )

  skip-skips_self :
      (url : String) (p : Propagator E)
      → is_eligible p url ≡ false
      → skips (skip url p) url ≡ skips p url + 1
  unfolding skip is_eligible
  skip-skips_self url p n = ground (
    arith,
    lookup-insert url url
        (if leb p.recovery_probe_interval (next_skip p url) then 0 else next_skip p url)
        p.peer_skip_counter,
  )

  -- A peer that a round leaves out is one round nearer to its probe.
  abbrev Nearer : List String → Propagator E → String → Propagator E × List String → Type 0
  Nearer urls p url r =
      contains url r.1 ≡ false
      → (skips p url ≤ skips r.0 url) × (contains url urls ≡ true → skips p url + 1 ≤ skips r.0 url)

  select_eligible-Nearer :
      (urls : List String) (url : String) (p : Propagator E)
      → Nearer urls p url (select_eligible urls p)
  unfolding select_eligible contains
  select_eligible-Nearer [] url p out = ground arith
  select_eligible-Nearer (u ∷ urls) url p out =
      let ih = select_eligible-Nearer urls url (skip u p) in
      elim (str_dec u url) [
        | yes e ↦ ground (arith, ih, skip-skips_self url p)
        | no n ↦ ground (arith, ih, skip-skips u url p)
      ]

  push_summary-Nearer :
      (outcome : String → Outcome) (url : String) (p : Propagator E)
      → Nearer p.peers p url (push_summary outcome p)
  unfolding push_summary
  push_summary-Nearer outcome url p out = ground (
    arith,
    select_eligible-Nearer p.peers url p,
    send_all-skips outcome (select_eligible p.peers p).1 url (select_eligible p.peers p).0,
  )

  select_eligible-probes :
      (urls : List String) (url : String) (p : Propagator E)
      → contains url urls ≡ true
      → p.recovery_probe_interval ≤ skips p url + 1
      → contains url (select_eligible urls p).1 ≡ true
  unfolding select_eligible contains is_eligible
  select_eligible-probes [] url p known due = cc
  select_eligible-probes (u ∷ urls) url p known due = elim (str_dec u url) [
    | yes e ↦ ground arith
    | no n ↦ ground (
      arith,
      skip-skips u url p,
      skip-SameSetting u p,
      select_eligible-probes urls url (skip u p),
    )
  ]

  push_summary-SameSetting :
      (outcome : String → Outcome) (p : Propagator E) → SameSetting p (push_summary outcome p).0
  unfolding push_summary
  push_summary-SameSetting outcome p = ground (
    arith,
    select_eligible-SameSetting p.peers p,
    send_all-SameSetting outcome (select_eligible p.peers p).1 (select_eligible p.peers p).0,
  )

  push_summary-probes :
      (outcome : String → Outcome) (url : String) (p : Propagator E)
      → contains url p.peers ≡ true
      → p.recovery_probe_interval ≤ skips p url + 1
      → contains url (push_summary outcome p).1 ≡ true
  unfolding push_summary
  push_summary-probes outcome url p known due = select_eligible-probes p.peers url p known due

  tried_from :
      (n : ℕ) (outcome : ℕ → String → Outcome) (url : String) (p : Propagator E)
      → contains url p.peers ≡ true
      → 0 < n
      → p.recovery_probe_interval ≤ skips p url + n
      → contains url (tried_in n outcome p) ≡ true
  unfolding tried_in
  tried_from zero outcome url p known pos due = absurd (omega arith)
  tried_from (suc n) outcome url p known pos due =
      let tried = (push_summary (outcome n) p).1 in
      let p' = (push_summary (outcome n) p).0 in
      ground (
        arith,
        contains-append url tried (tried_in n outcome p'),
        push_summary-SameSetting (outcome n) p,
        push_summary-Nearer (outcome n) url p,
        push_summary-probes (outcome n) url p,
        tried_from n outcome url p',
      )

  -- Conditions: the url is one of the peers, and there are as many rounds as the probe interval and
  -- at least one. Then one of these rounds pushes to the peer, however ill it is and whatever the
  -- outcomes of the pushes.
  pub tried_in-contains :
      (n : ℕ) (outcome : ℕ → String → Outcome) (url : String) (p : Propagator E)
      → contains url p.peers ≡ true
      → 0 < n
      → p.recovery_probe_interval ≤ n
      → contains url (tried_in n outcome p) ≡ true
  tried_in-contains n outcome url p known pos due =
      tried_from n outcome url p known pos (omega (arith, due))

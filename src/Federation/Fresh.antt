-- ===== src/Federation/Fresh.antt =====
-- src/federation/propagation.py, `receive_summary`: of the summaries of a peer the newest is kept.
use neural_pubsub_experiment.Prelude.{
  ℕ, ◌<◌, ◌≡◌, refl, String, none, some, List, [], ◌∷◌, ◌==◌, arith, ltb, if◌then◌else◌, lookup,
  lookup-insert, All,
}
use neural_pubsub_experiment.Federation.{SubscriptionSummary}
use neural_pubsub_experiment.Federation.Propagation.{Propagator, keep_summary, receive_summary}

abbrev pub max_of : ℕ → ℕ → ℕ
max_of a b = if ltb a b then b else a

module _ {E : Type 0} where
  unfoldable pub receive_all : List (SubscriptionSummary E) → Propagator E → Propagator E
  receive_all [] p = p
  receive_all (s ∷ ss) p = receive_all ss (receive_summary s p)

  -- The timestamp that is stored for a domain; 0 if there is none.
  abbrev pub stored : Propagator E → String → ℕ
  stored p domain = elim (lookup domain p.peer_summaries) [ none ↦ 0 | some s ↦ s.timestamp ]

  -- The newest of the timestamps that a domain has sent, and `low`.
  unfoldable pub newest : String → ℕ → List (SubscriptionSummary E) → ℕ
  newest domain low [] = low
  newest domain low (s ∷ ss) =
      newest domain (if s.domain_id == domain then max_of low s.timestamp else low) ss

  receive_summary-stored :
      (s : SubscriptionSummary E) (p : Propagator E) (domain : String)
      → 0 < s.timestamp
      → stored (receive_summary s p) domain
        ≡ (if s.domain_id == domain then max_of (stored p domain) s.timestamp else stored p domain)
  unfolding receive_summary keep_summary
  receive_summary-stored s p domain pos =
      ground (arith, lookup-insert s.domain_id domain s p.peer_summaries)

  -- Condition: the summaries have timestamps. After they are received in any order, the timestamp
  -- that is stored for a domain is the newest of those that it sent and of the one stored before.
  pub receive_all-newest :
      (ss : List (SubscriptionSummary E)) (p : Propagator E) (domain : String)
      → All (λ s. 0 < s.timestamp) ss
      → stored (receive_all ss p) domain ≡ newest domain (stored p domain) ss
  unfolding receive_all newest
  receive_all-newest [] p domain a = refl
  receive_all-newest (s ∷ ss) p domain a =
      rw (← receive_summary-stored s p domain a.0)
        (receive_all-newest ss (receive_summary s p) domain a.1)

-- ===== src/Federation/Propagation.antt =====
-- src/federation/propagation.py: the service that pushes the local summary to peers and keeps theirs.
-- What a push meets at a peer is a parameter of the round. Latencies of rounds and logs are left out.
use neural_pubsub_experiment.Prelude.{
  ℕ, ◌+◌, String, Bool, true, false, Option, none, some, List, [], ◌∷◌, ◌&&◌, not, ltb, leb, eqb,
  if◌then◌else◌, Dict, lookup, insert, remove, get_or,
}
use neural_pubsub_experiment.Federation.{SubscriptionSummary}

pub record Propagator (E : Type 0) : Type 0 where
  pub peers : List String
  pub max_peer_failures : ℕ
  pub recovery_probe_interval : ℕ
  pub peer_summaries : Dict (SubscriptionSummary E)
  pub local_summary : Option (SubscriptionSummary E)
  pub running : Bool
  pub peer_failures : Dict ℕ
  pub peer_healthy : Dict Bool
  pub peer_skip_counter : Dict ℕ

-- A status below 400; one of 400 and above, or an HTTP error; any other exception, which `gather`
-- keeps to itself.
pub data Outcome : Type 0 where
  accepted refused broken : Outcome

module _ {E : Type 0} where
  -- SummaryPropagator(domain_id, peers, …, max_peer_failures)
  unfoldable pub new_propagator : List String → ℕ → Propagator E
  new_propagator peers max_peer_failures = record {
    peers = peers;
    max_peer_failures = max_peer_failures;
    recovery_probe_interval = 5;
    peer_summaries = [];
    local_summary = none;
    running = false;
    peer_failures = [];
    peer_healthy = [];
    peer_skip_counter = [];
  }

  -- The incoming summary is strictly older, and both have timestamps.
  abbrev pub is_stale : SubscriptionSummary E → SubscriptionSummary E → Bool
  is_stale summary existing =
      not (eqb summary.timestamp 0)
      && (not (eqb existing.timestamp 0) && ltb summary.timestamp existing.timestamp)

  unfoldable pub keep_summary : SubscriptionSummary E → Propagator E → Propagator E
  keep_summary summary p = record p {
    peer_summaries = insert summary.domain_id summary p.peer_summaries;
  }

  unfoldable pub receive_summary : SubscriptionSummary E → Propagator E → Propagator E
  receive_summary summary p = elim (lookup summary.domain_id p.peer_summaries) [
    | none ↦ keep_summary summary p
    | some existing ↦ if is_stale summary existing then p else keep_summary summary p
  ]

  unfoldable pub update_local_summary : SubscriptionSummary E → Propagator E → Propagator E
  update_local_summary summary p = record p { local_summary = some summary }

  unfoldable pub is_peer_healthy : Propagator E → String → Bool
  is_peer_healthy p peer_url = get_or peer_url true p.peer_healthy

  -- _record_peer_failure
  unfoldable pub record_peer_failure : String → Propagator E → Propagator E
  record_peer_failure peer_url p =
      let count = get_or peer_url 0 p.peer_failures + 1 in
      record p {
        peer_failures = insert peer_url count p.peer_failures;
        peer_healthy =
            if leb p.max_peer_failures count
            then insert peer_url false p.peer_healthy
            else p.peer_healthy;
      }

  -- _send_to_peer
  unfoldable pub send_to_peer : Outcome → String → Propagator E → Propagator E
  send_to_peer Outcome.accepted peer_url p = record p {
    peer_failures = remove peer_url p.peer_failures;
    peer_skip_counter = remove peer_url p.peer_skip_counter;
    peer_healthy = insert peer_url true p.peer_healthy;
  }
  send_to_peer Outcome.refused peer_url p = record_peer_failure peer_url p
  send_to_peer Outcome.broken peer_url p = p

  abbrev pub next_skip : Propagator E → String → ℕ
  next_skip p peer_url = get_or peer_url 0 p.peer_skip_counter + 1

  -- What a round in which the peer is considered does to its skip counter.
  unfoldable pub skip : String → Propagator E → Propagator E
  skip peer_url p = if is_peer_healthy p peer_url then p else record p {
    peer_skip_counter =
        insert peer_url
          (if leb p.recovery_probe_interval (next_skip p peer_url) then 0 else next_skip p peer_url)
          p.peer_skip_counter;
  }

  -- The peer is healthy, or due for a probe.
  unfoldable pub is_eligible : Propagator E → String → Bool
  is_eligible p peer_url =
      if is_peer_healthy p peer_url
      then true
      else leb p.recovery_probe_interval (next_skip p peer_url)

  -- _select_eligible_peers, over the peers that are left
  unfoldable pub select_eligible : List String → Propagator E → Propagator E × List String
  select_eligible [] p = (p, [])
  select_eligible (peer_url ∷ urls) p =
      let (p', eligible) = select_eligible urls (skip peer_url p) in
      (p', if is_eligible p peer_url then peer_url ∷ eligible else eligible)

  unfoldable pub send_all : (String → Outcome) → List String → Propagator E → Propagator E
  send_all outcome [] p = p
  send_all outcome (peer_url ∷ urls) p =
      send_all outcome urls (send_to_peer (outcome peer_url) peer_url p)

  -- push_summary: the state after the round, and the peers that were tried.
  unfoldable pub push_summary : (String → Outcome) → Propagator E → Propagator E × List String
  push_summary outcome p =
      let (p', eligible) = select_eligible p.peers p in (send_all outcome eligible p', eligible)

  -- if self._local_summary is not None: …
  unfoldable pub push_local :
      (String → Outcome)
      → Option (SubscriptionSummary E)
      → Propagator E
      → Propagator E × List String
  push_local outcome none p = (p, [])
  push_local outcome (some summary) p = push_summary outcome p

  -- One round of `_loop`.
  unfoldable pub tick : (String → Outcome) → Propagator E → Propagator E × List String
  tick outcome p = if p.running then push_local outcome p.local_summary p else (p, [])

  unfoldable pub start : Propagator E → Propagator E
  start p = record p { running = true }

  unfoldable pub stop : Propagator E → Propagator E
  stop p = record p { running = false }

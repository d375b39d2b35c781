-- ===== src/Samples/Federations.antt =====
-- The theorems on the federation (src/federation/routing.py, propagation.py, summary.py and
-- integrator.py) at a home domain with one peer. Embeddings are numbers, and their distance is the
-- difference.
use neural_pubsub_experiment.Prelude.{
  ℕ, ◌+◌, ◌-◌, ◌≡◌, refl, String, true, false, some, [], ◌∷◌, contains, lookup, insert, Dict, ok,
  str_dec, arith, List, remove, ltb,
}
use neural_pubsub_experiment.Prelude.Sorts.{first, later, sort_with, sort_onto, insert_with}
use neural_pubsub_experiment.Federation.{ClusterSummary, SubscriptionSummary}
use neural_pubsub_experiment.Federation.Routing.{
  GovernanceConstraints, is_trusted, apply_governance_filter, nearest, match_within, route_among,
  route_locally, candidates_of, all_candidates, select_federation_candidates, best_remote_route,
  route_remotely, federated_route,
}
use neural_pubsub_experiment.Federation.Candidates.{Offers, IsAdmissible}
use neural_pubsub_experiment.Federation.Routes.{
  IsLocalMatch, IsBestRemote, NoneWithin, federated_route-forwarded, federated_route-unmatched,
  federated_route-local,
}
use neural_pubsub_experiment.Federation.Propagation.{
  Propagator, Outcome, new_propagator, update_local_summary, is_peer_healthy, record_peer_failure,
  send_to_peer, skip, is_eligible, select_eligible, send_all, push_summary, push_local, tick, start,
}
use neural_pubsub_experiment.Federation.Fresh.{receive_all, stored, newest, receive_all-newest}
use neural_pubsub_experiment.Federation.Peers.{
  Event, round, updated, start_call, step, run, push_log, streak, failures, run-IsTracked,
}
use neural_pubsub_experiment.Federation.Probes.{tried_in, tried_in-contains}
use neural_pubsub_experiment.Wire.{Value, number}
use neural_pubsub_experiment.Federation.Serial.{
  Codec, IsLossless, serialize, deserialize, deserialize-serialize,
}
use neural_pubsub_experiment.Integrator.{
  PipelineStages, Integrator, new_integrator, add_node, register_pipeline_type, composite_capacity,
}
use neural_pubsub_experiment.Integrator.Bottleneck.{spare, any_name, answer, composite_capacity_lem}
use neural_pubsub_experiment.Samples.{west, east}

abbrev difference : ℕ → ℕ → ℕ
difference a b = (a - b) + (b - a)

abbrev cluster_at : String → ℕ → ClusterSummary ℕ
cluster_at name place = record {
  cluster_id = name;
  centroid_embedding = place;
  radius = 2;
  available_capacity = 5;
}

abbrev home : SubscriptionSummary ℕ
home = record {
  domain_id = "home";
  clusters = cluster_at "h1" 50 ∷ cluster_at "h2" 40 ∷ [];
  timestamp = 7;
}

abbrev south : SubscriptionSummary ℕ
south = record {
  domain_id = "south";
  clusters = cluster_at "s1" 11 ∷ cluster_at "s2" 13 ∷ [];
  timestamp = 8;
}

abbrev older : SubscriptionSummary ℕ
older = record { domain_id = "south"; clusters = []; timestamp = 6 }

abbrev peers : Dict (SubscriptionSummary ℕ)
peers = ("south", south) ∷ []

abbrev rules : GovernanceConstraints
rules = record { local_data_types = "secret" ∷ []; trust_levels = ("south", 8) ∷ []; min_trust = 5 }

sends : (federated_route difference 10 home peers 3 "open" rules).forwarded ≡ true
unfolding federated_route route_locally route_among match_within nearest route_remotely
    select_federation_candidates all_candidates candidates_of apply_governance_filter is_trusted
    best_remote_route sort_with sort_onto insert_with lookup contains str_dec
sends = refl

federated_route-forwarded_example :
    (contains "open" rules.local_data_types ≡ false)
    × NoneWithin difference 10 3 home.clusters
    × IsBestRemote difference 10 peers 3 rules
        (federated_route difference 10 home peers 3 "open" rules)
federated_route-forwarded_example =
    federated_route-forwarded difference 10 home peers 3 "open" rules sends

keeps : (federated_route difference 10 home peers 3 "secret" rules).matched ≡ false
unfolding federated_route route_locally route_among match_within nearest route_remotely
    select_federation_candidates all_candidates candidates_of apply_governance_filter is_trusted
    best_remote_route sort_with sort_onto insert_with lookup contains str_dec
keeps = refl

south-Offers : Offers difference 10 peers "south" (cluster_at "s1" 11)
south-Offers = record { summary = south; listed = first refl; offered = first refl }

south-IsAdmissible : IsAdmissible difference 10 3 rules "south" (cluster_at "s1" 11)
unfolding lookup str_dec
south-IsAdmissible = record { near = omega arith; trusted = omega arith }

federated_route-unmatched_example : contains "secret" rules.local_data_types ≡ true
federated_route-unmatched_example =
    federated_route-unmatched difference 10 home peers 3 "secret" rules keeps "south"
      (cluster_at "s1" 11) south-Offers south-IsAdmissible

federated_route-local_example :
    IsLocalMatch difference 41 "home" home.clusters 3
      (federated_route difference 41 home peers 3 "open" rules)
federated_route-local_example =
    federated_route-local difference 41 home peers 3 "open" rules (cluster_at "h2" 40)
      (later (first refl)) (omega arith)

abbrev fresh : Propagator ℕ
fresh = new_propagator ("http://south" ∷ []) 2

receive_all-newest_example :
    stored (receive_all (older ∷ south ∷ older ∷ []) fresh) "south"
    ≡ newest "south" (stored fresh "south") (older ∷ south ∷ older ∷ [])
receive_all-newest_example =
    receive_all-newest (older ∷ south ∷ older ∷ []) fresh "south"
      (omega arith, (omega arith, (omega arith, tt)))

abbrev losing : Event ℕ
losing = round (λ url. Outcome.refused)

abbrev winning : Event ℕ
winning = round (λ url. Outcome.accepted)

abbrev ups_and_downs : List (Event ℕ)
ups_and_downs = start_call ∷ updated home ∷ losing ∷ winning ∷ losing ∷ losing ∷ []

pushed_four_times :
    push_log ups_and_downs (new_propagator ("http://south" ∷ []) 2)
    ≡ ("http://south", Outcome.refused)
      ∷ ("http://south", Outcome.accepted)
      ∷ ("http://south", Outcome.refused)
      ∷ ("http://south", Outcome.refused)
      ∷ []
unfolding push_log step tick start update_local_summary push_local push_summary select_eligible skip
    is_eligible is_peer_healthy send_all send_to_peer record_peer_failure new_propagator lookup
    insert remove str_dec
pushed_four_times = refl

run-IsTracked_example :
    let p = new_propagator ("http://south" ∷ []) 2 in
    (failures (run ups_and_downs p) "http://south"
      ≡ streak "http://south" 0 (push_log ups_and_downs p))
    × (is_peer_healthy (run ups_and_downs p) "http://south"
        ≡ ltb (streak "http://south" 0 (push_log ups_and_downs p)) 2)
run-IsTracked_example =
    run-IsTracked 2 "http://south" ups_and_downs ("http://south" ∷ []) (omega arith)

tried_in-contains_example :
    contains "http://south" (tried_in 5 (λ n url. Outcome.refused) fresh) ≡ true
unfolding contains new_propagator str_dec
tried_in-contains_example =
    tried_in-contains 5 (λ n url. Outcome.refused) "http://south" fresh refl (omega arith)
      (omega arith)

abbrev count_in : Value → ℕ
count_in (number n) = n
count_in _ = 0

abbrev plain : Codec ℕ
plain = record {
  Bytes = Value;
  packb = λ v. v;
  unpackb = λ v. v;
  tolist = λ n. number n;
  array = count_in;
}

plain-IsLossless : IsLossless plain
plain-IsLossless = record { unpacks = λ v. refl; restores = λ n. refl }

deserialize-serialize_example : deserialize plain (serialize plain home) ≡ ok home
deserialize-serialize_example = deserialize-serialize plain plain-IsLossless home

abbrev domain : Integrator
domain = add_node east (add_node west (new_integrator "home"))

abbrev registry : PipelineStages
registry = register_pipeline_type "fusion" ("sensor" ∷ "fuse" ∷ []) []

composite_capacity_lem_example :
    composite_capacity registry "fusion" domain
    ≡ answer (spare any_name domain.nodes) (lookup "fusion" registry)
composite_capacity_lem_example = composite_capacity_lem registry "fusion" domain

registered : lookup "fusion" registry ≡ some ("sensor" ∷ "fuse" ∷ [])
unfolding register_pipeline_type insert lookup str_dec
registered = refl

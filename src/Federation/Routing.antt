-- ===== src/Federation/Routing.antt =====
-- src/federation/routing.py: the protocol that routes a publication to a cluster of subscriptions. The
-- cosine distance is computed by another library and is a parameter.
use neural_pubsub_experiment.Prelude.{
  ℕ, ◌+◌, ◌-◌, String, Bool, true, false, Option, none, some, List, [], ◌∷◌, ◌++◌, ltb, leb, filter,
  if◌then◌else◌, contains, length, Dict, get_or,
}
use neural_pubsub_experiment.Prelude.Int.{ℤ, pos, sub_ℕ}
use neural_pubsub_experiment.Prelude.Sorts.{sort_by}
use neural_pubsub_experiment.Placement.{one}
use neural_pubsub_experiment.Federation.{ClusterSummary, SubscriptionSummary}

pub record RoutingResult : Type 0 where
  pub matched : Bool
  pub target_domain : Option String
  pub target_cluster : Option String
  pub confidence : ℤ
  pub forwarded : Bool
  pub governance_filtered : ℕ

pub record GovernanceConstraints : Type 0 where
  pub local_data_types : List String
  pub trust_levels : Dict ℕ
  pub min_trust : ℕ

-- A tuple (domain_id, cluster_id, distance).
pub record Candidate : Type 0 where
  pub domain : String
  pub cluster : String
  pub distance : ℕ

-- [c for c in candidates if trust_levels.get(c[0], 0.0) >= min_trust]
unfoldable pub is_trusted : GovernanceConstraints → Candidate → Bool
is_trusted governance c = leb governance.min_trust (get_or c.domain 0 governance.trust_levels)

unfoldable pub apply_governance_filter :
    List Candidate → String → GovernanceConstraints → List Candidate
apply_governance_filter candidates data_type governance =
    if contains data_type governance.local_data_types
    then []
    else filter (is_trusted governance) candidates

module _ {E : Type 0} (cosine_distance : E → E → ℕ) (publication : E) where
  abbrev pub distance_to : ClusterSummary E → ℕ
  distance_to c = cosine_distance publication c.centroid_embedding

  -- argmin of the distances: the first of the nearest
  unfoldable pub nearest : ClusterSummary E → List (ClusterSummary E) → ClusterSummary E
  nearest best [] = best
  nearest best (c ∷ cs) = nearest (if ltb (distance_to c) (distance_to best) then c else best) cs

  -- The best local match, if it is near enough.
  unfoldable pub match_within : String → ℕ → ClusterSummary E → Option RoutingResult
  match_within domain_id threshold best =
      if leb (distance_to best) threshold
      then some (record {
        matched = true;
        target_domain = some domain_id;
        target_cluster = some best.cluster_id;
        confidence = sub_ℕ one (distance_to best);
        forwarded = false;
        governance_filtered = 0;
      })
      else none

  unfoldable pub route_among : String → ℕ → List (ClusterSummary E) → Option RoutingResult
  route_among domain_id threshold [] = none
  route_among domain_id threshold (c ∷ cs) = match_within domain_id threshold (nearest c cs)

  unfoldable pub route_locally : SubscriptionSummary E → ℕ → Option RoutingResult
  unfolding route_among
  route_locally local_summary threshold =
      route_among local_summary.domain_id threshold local_summary.clusters

  -- The clusters of one peer that are within their effective threshold.
  unfoldable pub candidates_of : String → ℕ → List (ClusterSummary E) → List Candidate
  candidates_of domain_id threshold [] = []
  candidates_of domain_id threshold (c ∷ cs) =
      let rest = candidates_of domain_id threshold cs in
      if ltb (distance_to c) (c.radius + threshold)
      then record { domain = domain_id; cluster = c.cluster_id; distance = distance_to c } ∷ rest
      else rest

  unfoldable pub all_candidates : Dict (SubscriptionSummary E) → ℕ → List Candidate
  all_candidates [] threshold = []
  all_candidates ((domain_id, summary) ∷ peers) threshold =
      candidates_of domain_id threshold summary.clusters ++ all_candidates peers threshold

  unfoldable pub select_federation_candidates : Dict (SubscriptionSummary E) → ℕ → List Candidate
  select_federation_candidates peer_summaries threshold =
      sort_by (λ c. c.distance) (all_candidates peer_summaries threshold)

  -- The first candidate that is left, or no match.
  unfoldable pub best_remote_route : ℕ → List Candidate → RoutingResult
  best_remote_route governance_filtered [] = record {
    matched = false;
    target_domain = none;
    target_cluster = none;
    confidence = pos 0;
    forwarded = false;
    governance_filtered = governance_filtered;
  }
  best_remote_route governance_filtered (best ∷ rest) = record {
    matched = true;
    target_domain = some best.domain;
    target_cluster = some best.cluster;
    confidence = sub_ℕ one best.distance;
    forwarded = true;
    governance_filtered = governance_filtered;
  }

  -- Steps 2 to 5.
  unfoldable pub route_remotely :
      Dict (SubscriptionSummary E) → ℕ → String → GovernanceConstraints → RoutingResult
  route_remotely peer_summaries threshold data_type governance =
      let candidates = select_federation_candidates peer_summaries threshold in
      let left = apply_governance_filter candidates data_type governance in
      best_remote_route (length candidates - length left) left

  unfoldable pub federated_route :
      SubscriptionSummary E
      → Dict (SubscriptionSummary E)
      → ℕ
      → String
      → GovernanceConstraints
      → RoutingResult
  federated_route local_summary peer_summaries threshold data_type governance =
      elim (route_locally local_summary threshold) [
        | some result ↦ result
        | none ↦ route_remotely peer_summaries threshold data_type governance
      ]

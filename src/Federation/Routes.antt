-- ===== src/Federation/Routes.antt =====
-- src/federation/routing.py: where `federated_route` sends a publication, and when it does not.
use neural_pubsub_experiment.Prelude.{
  ℕ, ◌+◌, ◌≤◌, ◌<◌, ◌≡◌, refl, sym, subst, ap, String, true, false, none, some, List, [], ◌∷◌,
  arith, filter, contains, Dict, All, Bool-cases, Option-cases, inl, inr,
}
use neural_pubsub_experiment.Prelude.Int.{sub_ℕ}
use neural_pubsub_experiment.Prelude.Sorts.{
  Among, All-Among, All-filter, All-map, filter-Ascending, Among-filter, by, Among-sort_with,
  All-sort_with, Ascending, sort_by-Ascending,
}
use neural_pubsub_experiment.Placement.{one}
use neural_pubsub_experiment.Federation.{ClusterSummary, SubscriptionSummary}
use neural_pubsub_experiment.Federation.Routing.{
  RoutingResult, GovernanceConstraints, Candidate, is_trusted, apply_governance_filter, nearest,
  match_within, route_among, route_locally, select_federation_candidates, best_remote_route,
  route_remotely, federated_route,
}
use neural_pubsub_experiment.Federation.Candidates.{
  dist, Offers, IsAdmissible, as_candidate, all_candidates-All, Among-all_candidates, nearest-Among,
  nearest-least,
}

module _ {E : Type 0} (cosine_distance : E → E → ℕ) (publication : E) where
  -- No cluster of the list is within the threshold.
  abbrev pub NoneWithin : ℕ → List (ClusterSummary E) → Type 0
  NoneWithin threshold cs = All (λ c. threshold < dist cosine_distance publication c) cs

  All-lt_of_le :
      (threshold low : ℕ) (cs : List (ClusterSummary E))
      → threshold < low
      → All (λ d. low ≤ dist cosine_distance publication d) cs
      → NoneWithin threshold cs
  All-lt_of_le threshold low [] h a = tt
  All-lt_of_le threshold low (c ∷ cs) h a =
      (omega (arith, a.0), All-lt_of_le threshold low cs h a.1)

  route_among-none :
      (domain : String) (threshold : ℕ) (cs : List (ClusterSummary E))
      → route_among cosine_distance publication domain threshold cs ≡ none
      → NoneWithin threshold cs
  unfolding route_among match_within
  route_among-none domain threshold [] h = tt
  route_among-none domain threshold (c ∷ cs) h =
      All-lt_of_le threshold _ (c ∷ cs) (ground (arith, h))
        (nearest-least cosine_distance publication c cs)

  -- What a match among the clusters of one's own domain says.
  pub record IsLocalMatch (domain : String) (cs : List (ClusterSummary E)) (threshold : ℕ)
      (r : RoutingResult) : Type 0 where
    pub best : ClusterSummary E
    pub known : Among best cs
    pub near : dist cosine_distance publication best ≤ threshold
    pub least :
        All (λ d. dist cosine_distance publication best ≤ dist cosine_distance publication d) cs
    pub result : r ≡ record {
      matched = true;
      target_domain = some domain;
      target_cluster = some best.cluster_id;
      confidence = sub_ℕ one (dist cosine_distance publication best);
      forwarded = false;
      governance_filtered = 0;
    }

  route_among-IsLocalMatch :
      (domain : String) (threshold : ℕ) (cs : List (ClusterSummary E)) (r : RoutingResult)
      → route_among cosine_distance publication domain threshold cs ≡ some r
      → IsLocalMatch domain cs threshold r
  unfolding route_among match_within
  route_among-IsLocalMatch domain threshold [] r h = cc
  route_among-IsLocalMatch domain threshold (c ∷ cs) r h = record {
    best = nearest cosine_distance publication c cs;
    known = nearest-Among cosine_distance publication c cs;
    near = ground (arith, h);
    least = nearest-least cosine_distance publication c cs;
    result = ground (arith, h);
  }

  -- The route goes to this cluster of a peer, which the rules admit, and no admissible one is nearer.
  pub record IsBestRemote (peers : Dict (SubscriptionSummary E)) (threshold : ℕ)
      (governance : GovernanceConstraints) (r : RoutingResult) : Type 0 where
    pub domain : String
    pub cluster : ClusterSummary E
    pub offers : Offers cosine_distance publication peers domain cluster
    pub admissible : IsAdmissible cosine_distance publication threshold governance domain cluster
    pub to_domain : r.target_domain ≡ some domain
    pub to_cluster : r.target_cluster ≡ some cluster.cluster_id
    pub sure : r.confidence ≡ sub_ℕ one (dist cosine_distance publication cluster)
    pub least :
        (d : String) (c : ClusterSummary E)
        → Offers cosine_distance publication peers d c
        → IsAdmissible cosine_distance publication threshold governance d c
        → dist cosine_distance publication cluster ≤ dist cosine_distance publication c

  abbrev left : Dict (SubscriptionSummary E) → ℕ → GovernanceConstraints → List Candidate
  left peers threshold governance =
      filter (is_trusted governance)
        (select_federation_candidates cosine_distance publication peers threshold)

  -- What a candidate that is left comes from.
  abbrev Comes : Dict (SubscriptionSummary E) → ℕ → GovernanceConstraints → Candidate → Type 0
  Comes peers threshold governance x =
      (domain : String) × (c : ClusterSummary E) × Offers cosine_distance publication peers domain c
      × IsAdmissible cosine_distance publication threshold governance domain c
      × (x ≡ as_candidate cosine_distance publication domain c)

  left-Comes :
      (peers : Dict (SubscriptionSummary E)) (threshold : ℕ) (governance : GovernanceConstraints)
      → All (Comes peers threshold governance) (left peers threshold governance)
  unfolding select_federation_candidates is_trusted
  left-Comes peers threshold governance =
      let Source : Candidate → Type 0 = λ x.
        (d : String) × (c : ClusterSummary E) × Offers cosine_distance publication peers d c
        × (dist cosine_distance publication c < c.radius + threshold)
        × (x ≡ as_candidate cosine_distance publication d c) in
      All-map (λ x. Source x × (is_trusted governance x ≡ true)) (Comes peers threshold governance)
        (λ x s.
          let ((d, c, o, n, e), t) = s in
          (
            d,
            c,
            o,
            record {
              near = n;
              trusted = ground (arith, subst (λ y. is_trusted governance y ≡ true) e t);
            },
            e,
          ))
        _
        (All-filter Source (is_trusted governance) _ (
          All-sort_with (by (λ c. c.distance)) Source _ (
            all_candidates-All cosine_distance publication Source peers threshold
              (λ d c o n. (d, c, o, n, refl)))))

  Among-left :
      (peers : Dict (SubscriptionSummary E)) (threshold : ℕ) (governance : GovernanceConstraints)
      (domain : String) (c : ClusterSummary E)
      → Offers cosine_distance publication peers domain c
      → IsAdmissible cosine_distance publication threshold governance domain c
      → Among (as_candidate cosine_distance publication domain c) (left peers threshold governance)
  unfolding select_federation_candidates is_trusted
  Among-left peers threshold governance domain c o a =
      Among-filter (is_trusted governance) (as_candidate cosine_distance publication domain c) _
        (ground (arith, a.trusted))
        (Among-sort_with (by (λ x. x.distance)) (as_candidate cosine_distance publication domain c)
          _
          (Among-all_candidates cosine_distance publication threshold domain c o.summary peers
            a.near o.offered o.listed))

  left-Ascending :
      (peers : Dict (SubscriptionSummary E)) (threshold : ℕ) (governance : GovernanceConstraints)
      → Ascending (λ (x : Candidate). x.distance) (left peers threshold governance)
  unfolding select_federation_candidates
  left-Ascending peers threshold governance =
      filter-Ascending (λ (x : Candidate). x.distance) (is_trusted governance) _
        (sort_by-Ascending (λ (x : Candidate). x.distance) _)

  best_of :
      (peers : Dict (SubscriptionSummary E)) (threshold : ℕ) (governance : GovernanceConstraints)
      (n : ℕ) (xs : List Candidate)
      → xs ≡ left peers threshold governance
      → (best_remote_route cosine_distance publication n xs).forwarded ≡ true
      → IsBestRemote peers threshold governance (best_remote_route cosine_distance publication n xs)
  unfolding best_remote_route
  best_of peers threshold governance n [] e h = absurd (ground (arith, h))
  best_of peers threshold governance n (x ∷ xs) e h =
      let ((d, c, o, a, is), _) =
        subst (All (Comes peers threshold governance)) (sym e)
          (left-Comes peers threshold governance) in
      let sorted =
        subst (Ascending (λ (y : Candidate). y.distance)) (sym e)
          (left-Ascending peers threshold governance) in
      record {
        domain = d;
        cluster = c;
        offers = o;
        admissible = a;
        to_domain = ap (λ (y : Candidate). some y.domain) is;
        to_cluster = ap (λ (y : Candidate). some y.cluster) is;
        sure = ap (λ (y : Candidate). sub_ℕ one y.distance) is;
        least = λ d' c' o' a'.
            let low : x.distance ≤ dist cosine_distance publication c' =
              All-Among (λ (y : Candidate). x.distance ≤ y.distance) (x ∷ xs)
                (as_candidate cosine_distance publication d' c') (ground arith, sorted.0)
                (subst (Among (as_candidate cosine_distance publication d' c')) (sym e)
                  (Among-left peers threshold governance d' c' o' a')) in
            subst (λ (y : Candidate). y.distance ≤ dist cosine_distance publication c') is low;
      }

  forwarded_nothing :
      (n : ℕ) → (best_remote_route cosine_distance publication n []).forwarded ≡ false
  unfolding best_remote_route
  forwarded_nothing n = refl

  matched_something :
      {x : Candidate} (n : ℕ) (xs : List Candidate)
      → (best_remote_route cosine_distance publication n xs).matched ≡ false
      → ¬ Among x xs
  unfolding best_remote_route
  matched_something n [] h m = elim m [ ]
  matched_something n (y ∷ xs) h m = cc

  module _ (local_summary : SubscriptionSummary E) (peers : Dict (SubscriptionSummary E))
      (threshold : ℕ) (data_type : String) (governance : GovernanceConstraints) where
    abbrev routed : RoutingResult
    routed =
        federated_route cosine_distance publication local_summary peers threshold data_type
          governance

    -- Condition: the protocol forwards a publication. Then its data type is not bound to the
    -- domain, no local cluster is within the threshold, and the result names a cluster that a peer
    -- offers, that is near enough for its radius and in a domain that is trusted enough, and that
    -- is as near as any such cluster.
    pub federated_route-forwarded :
        routed.forwarded ≡ true
        → (contains data_type governance.local_data_types ≡ false)
          × NoneWithin threshold local_summary.clusters
          × IsBestRemote peers threshold governance routed
    unfolding federated_route route_locally route_remotely apply_governance_filter
    federated_route-forwarded h =
        elim (Option-cases (route_locally cosine_distance publication local_summary threshold)) [
          | inr (r, e) ↦
              let m =
                route_among-IsLocalMatch local_summary.domain_id threshold local_summary.clusters r
                  e in
              absurd (ground (arith, e, m.result, h))
          | inl e ↦ elim (Bool-cases (contains data_type governance.local_data_types)) [
            | inl private ↦
                let sent = rw (e, private, federated_route) at h in cc (forwarded_nothing _, sent)
            | inr shared ↦
                rw (e, shared, federated_route)
                  (
                    refl,
                    route_among-none local_summary.domain_id threshold local_summary.clusters e,
                    best_of peers threshold governance _ (left peers threshold governance) refl
                        (rw (e, shared, federated_route) at h),
                  )
          ]
        ]

    -- Conditions: the protocol finds no match, though a peer offers a cluster that is near enough
    -- and in a domain that is trusted enough. Then the data type of the publication is bound to the
    -- domain.
    pub federated_route-unmatched :
        routed.matched ≡ false
        → (domain : String) (c : ClusterSummary E)
        → Offers cosine_distance publication peers domain c
        → IsAdmissible cosine_distance publication threshold governance domain c
        → contains data_type governance.local_data_types ≡ true
    unfolding federated_route route_locally route_remotely apply_governance_filter
    federated_route-unmatched h d c o a =
        elim (Option-cases (route_locally cosine_distance publication local_summary threshold)) [
          | inr (r, e) ↦
              let m =
                route_among-IsLocalMatch local_summary.domain_id threshold local_summary.clusters r
                  e in
              absurd (ground (arith, e, m.result, h))
          | inl e ↦ elim (Bool-cases (contains data_type governance.local_data_types)) [
            | inl private ↦ private
            | inr shared ↦ absurd (
                matched_something _ (left peers threshold governance)
                  (rw (e, shared, federated_route) at h)
                  (Among-left peers threshold governance d c o a))
          ]
        ]

    -- Condition: a local cluster is within the threshold. Then the publication is not forwarded,
    -- and the result names a nearest local cluster.
    pub federated_route-local :
        (c : ClusterSummary E)
        → Among c local_summary.clusters
        → dist cosine_distance publication c ≤ threshold
        → IsLocalMatch local_summary.domain_id local_summary.clusters threshold routed
    unfolding federated_route route_locally
    federated_route-local c m near =
        elim (Option-cases (route_locally cosine_distance publication local_summary threshold)) [
          | inl e ↦ absurd (
              let far : threshold < dist cosine_distance publication c =
                All-Among (λ d. threshold < dist cosine_distance publication d)
                  local_summary.clusters c
                  (route_among-none local_summary.domain_id threshold local_summary.clusters e) m in
              omega arith)
          | inr (r, e) ↦
              rw (e, federated_route)
                (route_among-IsLocalMatch local_summary.domain_id threshold local_summary.clusters r
                  e)
        ]

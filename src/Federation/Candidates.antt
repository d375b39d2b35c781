-- ===== src/Federation/Candidates.antt =====
-- src/federation/routing.py: the clusters that peers offer, and the nearest of a list of clusters.
use neural_pubsub_experiment.Prelude.{
  ℕ, ◌+◌, ◌≤◌, ◌<◌, refl, subst, ap, String, List, [], ◌∷◌, arith, ltb, if_ind, Dict, get_or, All,
  Bool-cases, inl, inr,
}
use neural_pubsub_experiment.Prelude.Sorts.{
  Among, first, later, All-append, Among-append_left, Among-append_right,
}
use neural_pubsub_experiment.Federation.{ClusterSummary, SubscriptionSummary}
use neural_pubsub_experiment.Federation.Routing.{
  GovernanceConstraints, Candidate, distance_to, nearest, candidates_of, all_candidates,
}

module _ {E : Type 0} (cosine_distance : E → E → ℕ) (publication : E) where
  abbrev pub dist : ClusterSummary E → ℕ
  dist c = distance_to cosine_distance publication c

  -- A peer's summary offers the cluster.
  pub record Offers (peers : Dict (SubscriptionSummary E)) (domain : String) (c : ClusterSummary E)
      : Type 0 where
    pub summary : SubscriptionSummary E
    pub listed : Among (domain, summary) peers
    pub offered : Among c summary.clusters

  -- The rules of the federation admit the cluster of the domain.
  pub record IsAdmissible (threshold : ℕ) (governance : GovernanceConstraints) (domain : String)
      (c : ClusterSummary E) : Type 0 where
    pub near : dist c < c.radius + threshold
    pub trusted : governance.min_trust ≤ get_or domain 0 governance.trust_levels

  abbrev pub as_candidate : String → ClusterSummary E → Candidate
  as_candidate domain c = record { domain = domain; cluster = c.cluster_id; distance = dist c }

  candidates_of-All :
      (Q : Candidate → Type 0) (domain : String) (threshold : ℕ) (cs : List (ClusterSummary E))
      → ((c : ClusterSummary E)
          → Among c cs
          → dist c < c.radius + threshold
          → Q (as_candidate domain c))
      → All Q (candidates_of cosine_distance publication domain threshold cs)
  unfolding candidates_of
  candidates_of-All Q domain threshold [] h = tt
  candidates_of-All Q domain threshold (c ∷ cs) h =
      let rest = candidates_of-All Q domain threshold cs (λ d m. h d (later m)) in
      if_ind (All Q) (ltb (dist c) (c.radius + threshold))
        (λ near. (h c (first refl) (ground arith), rest)) (λ far. rest)

  pub all_candidates-All :
      (Q : Candidate → Type 0) (peers : Dict (SubscriptionSummary E)) (threshold : ℕ)
      → ((domain : String) (c : ClusterSummary E)
          → Offers peers domain c
          → dist c < c.radius + threshold
          → Q (as_candidate domain c))
      → All Q (all_candidates cosine_distance publication peers threshold)
  unfolding all_candidates
  all_candidates-All Q [] threshold h = tt
  all_candidates-All Q ((domain, s) ∷ peers) threshold h =
      All-append Q _ _
        (candidates_of-All Q domain threshold s.clusters
          (λ c m. h domain c (record { summary = s; listed = first refl; offered = m })))
        (all_candidates-All Q peers threshold (λ d c o.
          h d c (record { summary = o.summary; listed = later o.listed; offered = o.offered })))

  Among-candidates_of :
      (domain : String) (threshold : ℕ) (c : ClusterSummary E) (cs : List (ClusterSummary E))
      → dist c < c.radius + threshold
      → Among c cs
      → Among
          (as_candidate domain c)
          (candidates_of cosine_distance publication domain threshold cs)
  unfolding candidates_of
  Among-candidates_of domain threshold c [] near m = elim m [ ]
  Among-candidates_of domain threshold c (d ∷ ds) near (first e) =
      let near' : dist d < d.radius + threshold =
        subst (λ z. dist z < z.radius + threshold) e near in
      if_ind (Among (as_candidate domain c)) (ltb (dist d) (d.radius + threshold))
        (λ _. first (ap (as_candidate domain) e)) (λ far. absurd (ground arith))
  Among-candidates_of domain threshold c (d ∷ ds) near (later m) =
      let rest = Among-candidates_of domain threshold c ds near m in
      if_ind (Among (as_candidate domain c)) (ltb (dist d) (d.radius + threshold)) (λ _. later rest)
        (λ _. rest)

  pub Among-all_candidates :
      (threshold : ℕ) (domain : String) (c : ClusterSummary E) (s : SubscriptionSummary E)
      (peers : Dict (SubscriptionSummary E))
      → dist c < c.radius + threshold
      → Among c s.clusters
      → Among (domain, s) peers
      → Among (as_candidate domain c) (all_candidates cosine_distance publication peers threshold)
  unfolding all_candidates
  Among-all_candidates threshold domain c s [] near m l = elim l [ ]
  Among-all_candidates threshold domain c s ((d, t) ∷ peers) near m (first e) =
      Among-append_left _ _ _ (
        subst
          (λ (p : String × SubscriptionSummary E).
            Among (as_candidate domain c)
              (candidates_of cosine_distance publication p.0 threshold p.1.clusters))
          e (Among-candidates_of domain threshold c s.clusters near m))
  Among-all_candidates threshold domain c s ((d, t) ∷ peers) near m (later l) =
      Among-append_right _ _ _ (Among-all_candidates threshold domain c s peers near m l)

  pub nearest-Among :
      (best : ClusterSummary E) (cs : List (ClusterSummary E))
      → Among (nearest cosine_distance publication best cs) (best ∷ cs)
  unfolding nearest
  nearest-Among best [] = first refl
  nearest-Among best (c ∷ cs) = elim (Bool-cases (ltb (dist c) (dist best))) [
    | inl less ↦ rw less (later (nearest-Among c cs))
    | inr more ↦
        rw more (elim (nearest-Among best cs) [ first e ↦ first e | later m ↦ later (later m) ])
  ]

  pub nearest-least :
      (best : ClusterSummary E) (cs : List (ClusterSummary E))
      → All (λ d. dist (nearest cosine_distance publication best cs) ≤ dist d) (best ∷ cs)
  unfolding nearest
  nearest-least best [] = (ground arith, tt)
  nearest-least best (c ∷ cs) =
      if_ind
        (λ n. All (λ d. dist (nearest cosine_distance publication n cs) ≤ dist d) (best ∷ c ∷ cs))
        (ltb (dist c) (dist best))
        (λ less. let (low, rest) = nearest-least c cs in (ground (arith, low), (low, rest)))
        (λ more. let (low, rest) = nearest-least best cs in (low, (ground (arith, low), rest)))

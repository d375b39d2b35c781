-- ===== src/Federation.antt =====
-- src/federation/summary.py: the summaries that brokers exchange. The type of embeddings is a
-- parameter, since they are arrays of another library. Radii, distances, capacities and timestamps
-- are amounts of one unit.
pub mod Routing
pub mod Candidates
pub mod Routes
pub mod Propagation
pub mod Fresh
pub mod Peers
pub mod Probes
pub mod Serial
use neural_pubsub_experiment.Prelude.{ℕ, String, List}

pub record ClusterSummary (E : Type 0) : Type 0 where
  pub cluster_id : String
  pub centroid_embedding : E
  pub radius : ℕ
  pub available_capacity : ℕ

pub record SubscriptionSummary (E : Type 0) : Type 0 where
  pub domain_id : String
  pub clusters : List (ClusterSummary E)
  pub timestamp : ℕ

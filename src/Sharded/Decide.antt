-- ===== src/Sharded/Decide.antt =====
-- src/broker/sharded_oracle_broker.py, `decide_globally`: the solver over the merged shards.
use neural_pubsub_experiment.Prelude.{
  ℕ, ◌≡◌, sym, subst, ◌∙◌, String, List, [], ◌∷◌, Unique, Dict, Result, ok, ◌>>=◌, >>=-eq-ok,
  ok-injective,
}
use neural_pubsub_experiment.Prelude.Pairs.{Pairs}
use neural_pubsub_experiment.Dag.{PipelineDag}
use neural_pubsub_experiment.Dag.Graph.{IsGraph}
use neural_pubsub_experiment.Placement.{GovernancePolicy}
use neural_pubsub_experiment.Placement.Float.{Floats}
use neural_pubsub_experiment.Placement.Check.{sovereignty_violations, slice_violations}
use neural_pubsub_experiment.Placement.Fits.{node_ids}
use neural_pubsub_experiment.Placement.Traced.{IsOrdered}
use neural_pubsub_experiment.Placement.Spread.{find_placement}
use neural_pubsub_experiment.Placement.Chosen.{find_placement-respects}
use neural_pubsub_experiment.Sharded.{ShardTopology, as_topology, merge_topologies}
use neural_pubsub_experiment.Sharded.Merged.{
  all_nodes, merge_topologies_lem, merge_topologies-Unique,
}

module _ (F : Floats) (alpha beta gamma : F.Float) where
  unfoldable pub decide_globally :
      PipelineDag
      → ShardTopology
      → List ShardTopology
      → Pairs ℕ
      → GovernancePolicy
      → Result (Dict String)
  decide_globally dag local_topology peer_topologies cross_latencies governance = do
    merged ← merge_topologies (local_topology ∷ peer_topologies) cross_latencies
    find_placement dag (as_topology merged) governance F alpha beta gamma

  -- Conditions: the floats are ordered, the graph is well formed, and decide_globally returns a
  -- placement. Then the shards could be merged, the merge has the nodes of all shards in their
  -- order, and the placement breaks no sovereignty and no slice requirement on it.
  pub decide_globally-respects :
      IsOrdered F
      → (dag : PipelineDag) (local : ShardTopology) (peers : List ShardTopology) (cross : Pairs ℕ)
        (governance : GovernancePolicy) (p : Dict String)
      → IsGraph dag
      → decide_globally dag local peers cross governance ≡ ok p
      → (m : ShardTopology) × (merge_topologies (local ∷ peers) cross ≡ ok m)
        × (m.nodes ≡ all_nodes (local ∷ peers))
        × (sovereignty_violations dag (as_topology m) governance p ≡ ok [])
        × (slice_violations dag (as_topology m) p ≡ ok [])
  unfolding decide_globally
  decide_globally-respects ord dag local peers cross governance p g h =
      let (m, merged, h1) = >>=-eq-ok (merge_topologies (local ∷ peers) cross) _ h in
      let u = merge_topologies-Unique (local ∷ peers) cross m merged in
      let (m', merged', nodes', _) = merge_topologies_lem (local ∷ peers) cross ("", "") u in
      let same : m' ≡ m = ok-injective (sym merged' ∙ merged) in
      let nodes : m.nodes ≡ all_nodes (local ∷ peers) =
        subst (λ (t : ShardTopology). t.nodes ≡ all_nodes (local ∷ peers)) same nodes' in
      let (sovereignty, slices) =
        find_placement-respects dag (as_topology m) governance F alpha beta gamma g
          (subst (λ ns. Unique (node_ids ns)) (sym nodes) u) ord p h1 in
      (m, merged, nodes, sovereignty, slices)

-- ===== src/Sharded/Merged.antt =====
-- src/broker/sharded_oracle_broker.py, `merge_topologies`: the merged state has every node once, and
-- fails only if two shards report one id.
use neural_pubsub_experiment.Prelude.{
  ℕ, ◌≡◌, refl, ◌∙◌, sym, subst, ap, String, false, Option, none, some, List, [], ◌∷◌, ◌++◌, arith,
  if◌then◌else◌, contains, contains-append, Unique, Unique-snoc, Unique-absent, Unique-prefix, ok,
  >>=-eq-ok, append_assoc, append-nil, Bool-cases, inl, inr, ok-injective,
}
use neural_pubsub_experiment.Prelude.Pairs.{Pairs, same_pair, find, assign, assign_all, find-assign}
use neural_pubsub_experiment.Placement.{ExecutionUnit}
use neural_pubsub_experiment.Placement.Fits.{node_ids}
use neural_pubsub_experiment.Sharded.{ShardTopology, merge_nodes, merge_shards, merge_topologies}

-- All nodes of the shards, in their order.
abbrev pub all_nodes : List ShardTopology → List ExecutionUnit
all_nodes [] = []
all_nodes (t ∷ ts) = t.nodes ++ all_nodes ts

-- The last value that the entries give to a key, or the old one.
unfoldable pub find_last : String × String → Pairs ℕ → Option ℕ → Option ℕ
find_last k [] old = old
find_last k ((j, v) ∷ d) old = find_last k d (if same_pair j k then some v else old)

unfoldable pub last_latency : String × String → List ShardTopology → Option ℕ → Option ℕ
last_latency k [] old = old
last_latency k (t ∷ ts) old = last_latency k ts (find_last k t.latency_matrix old)

find-assign_all :
    (k : String × String) (e d : Pairs ℕ) → find k (assign_all e d) ≡ find_last k e (find k d)
unfolding assign_all find_last
find-assign_all k [] d = refl
find-assign_all k ((j, v) ∷ e) d = rw (← find-assign j k v d) (find-assign_all k e (assign j v d))

node_ids-append : (ns ms : List ExecutionUnit) → node_ids (ns ++ ms) ≡ node_ids ns ++ node_ids ms
node_ids-append [] ms = refl
node_ids-append (n ∷ ns) ms = ap (λ xs. n.node_id ∷ xs) (node_ids-append ns ms)

-- The seen ids are those of the merged nodes, each once.
record Tracks (seen : List String) (merged : List ExecutionUnit) : Type 0 where
  same : (x : String) → contains x seen ≡ contains x (node_ids merged)
  once : Unique (node_ids merged)

Tracks-nil : Tracks [] []
Tracks-nil = record { same = λ x. refl; once = tt }

Tracks-snoc :
    (n : ExecutionUnit) (seen : List String) (merged : List ExecutionUnit)
    → Tracks seen merged
    → contains n.node_id seen ≡ false
    → Tracks (n.node_id ∷ seen) (merged ++ n ∷ [])
unfolding contains
Tracks-snoc n seen merged t new = record {
  same = λ x.
      rw (node_ids-append merged (n ∷ []))
        (ground (arith, t.same x, contains-append x (node_ids merged) (n.node_id ∷ [])));
  once =
      rw (node_ids-append merged (n ∷ []))
        (Unique-snoc (node_ids merged) n.node_id t.once (ground (arith, t.same n.node_id)));
}

abbrev Merges : List ExecutionUnit → List ExecutionUnit → List String × List ExecutionUnit → Type 0
Merges ns merged r = (r.1 ≡ merged ++ ns) × Tracks r.0 r.1

merge_nodes-Merges :
    (ns : List ExecutionUnit) (seen : List String) (merged : List ExecutionUnit)
    {r : List String × List ExecutionUnit}
    → Tracks seen merged
    → merge_nodes ns seen merged ≡ ok r
    → Merges ns merged r
unfolding merge_nodes
merge_nodes-Merges [] seen merged t h =
    subst (Merges [] merged) (ok-injective h) (sym (append-nil merged), t)
merge_nodes-Merges (n ∷ ns) seen merged t h = elim (Bool-cases (contains n.node_id seen)) [
  | inl old ↦ cc (rw old at h)
  | inr new ↦
      let (e, t') =
        merge_nodes-Merges ns (n.node_id ∷ seen) (merged ++ n ∷ [])
          (Tracks-snoc n seen merged t new) (rw new at h) in
      (e ∙ append_assoc merged (n ∷ []) ns, t')
]

merge_nodes_total :
    (ns : List ExecutionUnit) (seen : List String) (merged : List ExecutionUnit)
    → Tracks seen merged
    → Unique (node_ids (merged ++ ns))
    → (r : List String × List ExecutionUnit) × (merge_nodes ns seen merged ≡ ok r)
unfolding merge_nodes
merge_nodes_total [] seen merged t u = ((seen, merged), refl)
merge_nodes_total (n ∷ ns) seen merged t u =
    let absent : contains n.node_id seen ≡ false =
      t.same n.node_id
      ∙ Unique-absent n.node_id (node_ids merged) (node_ids ns)
          (subst Unique (node_ids-append merged (n ∷ ns)) u) in
    rw absent (
      merge_nodes_total ns (n.node_id ∷ seen) (merged ++ n ∷ [])
        (Tracks-snoc n seen merged t absent)
        (subst (λ ms. Unique (node_ids ms)) (sym (append_assoc merged (n ∷ []) ns)) u))

-- What merging shards gives.
abbrev Joined : List ShardTopology → List ExecutionUnit → Pairs ℕ → ShardTopology → Type 0
Joined ts merged lat m =
    (m.nodes ≡ merged ++ all_nodes ts)
    × Unique (node_ids m.nodes)
    × ((k : String × String) → find k m.latency_matrix ≡ last_latency k ts (find k lat))

merge_shards-Joined :
    (ts : List ShardTopology) (seen : List String) (merged : List ExecutionUnit) (lat : Pairs ℕ)
    {m : ShardTopology}
    → Tracks seen merged
    → merge_shards ts seen merged lat ≡ ok m
    → Joined ts merged lat m
unfolding merge_shards last_latency
merge_shards-Joined [] seen merged lat t h =
    subst (Joined [] merged lat) (ok-injective h) (sym (append-nil merged), t.once, λ k. refl)
merge_shards-Joined (s ∷ ts) seen merged lat t h =
    let (r, e, h1) = >>=-eq-ok (merge_nodes s.nodes seen merged) _ h in
    let (all, t') = merge_nodes-Merges s.nodes seen merged t e in
    let (ns, u, ls) = merge_shards-Joined ts r.0 r.1 (assign_all s.latency_matrix lat) t' h1 in
    (
      ns ∙ ap (λ xs. xs ++ all_nodes ts) all ∙ append_assoc merged s.nodes (all_nodes ts),
      u,
      λ k. ls k ∙ ap (last_latency k ts) (find-assign_all k s.latency_matrix lat),
    )

merge_shards_total :
    (ts : List ShardTopology) (seen : List String) (merged : List ExecutionUnit) (lat : Pairs ℕ)
    → Tracks seen merged
    → Unique (node_ids (merged ++ all_nodes ts))
    → (m : ShardTopology) × (merge_shards ts seen merged lat ≡ ok m)
unfolding merge_shards
merge_shards_total [] seen merged lat t u = (record { nodes = merged; latency_matrix = lat }, refl)
merge_shards_total (s ∷ ts) seen merged lat t u =
    let u' : Unique (node_ids ((merged ++ s.nodes) ++ all_nodes ts)) =
      subst (λ ms. Unique (node_ids ms)) (sym (append_assoc merged s.nodes (all_nodes ts))) u in
    let prefix =
      Unique-prefix (node_ids (merged ++ s.nodes)) (node_ids (all_nodes ts))
        (subst Unique (node_ids-append (merged ++ s.nodes) (all_nodes ts)) u') in
    let (r, e) = merge_nodes_total s.nodes seen merged t prefix in
    let (all, t') = merge_nodes-Merges s.nodes seen merged t e in
    rw e (
      merge_shards_total ts r.0 r.1 (assign_all s.latency_matrix lat) t'
        (subst (λ ms. Unique (node_ids (ms ++ all_nodes ts))) (sym all) u'))

-- Condition: no node id appears twice over all shards. Then the merge succeeds, its nodes are those
-- of the shards in order, and the latency of a pair is the last one given for it, by the shards in
-- order and then by the latencies across shards.
pub merge_topologies_lem :
    (ts : List ShardTopology) (cross : Pairs ℕ) (k : String × String)
    → Unique (node_ids (all_nodes ts))
    → (m : ShardTopology) × (merge_topologies ts cross ≡ ok m)
      × (m.nodes ≡ all_nodes ts)
      × (find k m.latency_matrix ≡ find_last k cross (last_latency k ts none))
unfolding merge_topologies find
merge_topologies_lem ts cross k u =
    let (m, e) = merge_shards_total ts [] [] [] Tracks-nil u in
    let (ns, _, ls) = merge_shards-Joined ts [] [] [] Tracks-nil e in
    (
      record m { latency_matrix = assign_all cross m.latency_matrix },
      rw e,
      ns,
      find-assign_all k cross m.latency_matrix ∙ ap (find_last k cross) (ls k),
    )

-- Condition: the merge of topologies succeeds. Then no node id appears twice over all shards, so a
-- collision is never passed over.
pub merge_topologies-Unique :
    (ts : List ShardTopology) (cross : Pairs ℕ) (m : ShardTopology)
    → merge_topologies ts cross ≡ ok m
    → Unique (node_ids (all_nodes ts))
unfolding merge_topologies
merge_topologies-Unique ts cross m h =
    let (joined, e, _) = >>=-eq-ok (merge_shards ts [] [] []) _ h in
    let (ns, u, _) = merge_shards-Joined ts [] [] [] Tracks-nil e in
    subst (λ ms. Unique (node_ids ms)) ns u

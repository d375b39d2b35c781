-- ===== src/Static/Capacity.antt =====
-- src/broker/static_broker.py, `_build_capacity_summary`: the capacity that a broker offers to its
-- peers. The embedding of zeros and the time are arguments.
use Prim.Native.String.{◌++◌}
use neural_pubsub_experiment.Prelude.{
  ℕ, ◌+◌, ◌-◌, ◌≡◌, sym, ap, subst, String, true, some, List, [], ◌∷◌, ◌==◌, if◌then◌else◌,
  contains, contains-keys-insert, Dict, lookup, insert, keys, get_or, lookup-insert,
  lookup_of_contains, str_dec, arith,
}
use neural_pubsub_experiment.Prelude.Sorts.{Among, first, later}
use neural_pubsub_experiment.Placement.{one}
use neural_pubsub_experiment.Broker.{WorkerInfo}
use neural_pubsub_experiment.Federation.{ClusterSummary, SubscriptionSummary}

-- max(0.0, w.capacity - w.current_load)
abbrev pub spare_of : WorkerInfo → ℕ
spare_of w = w.capacity - w.current_load

-- f"slice-{slice_id}"
unfoldable pub cluster_name : String → String
cluster_name slice_id = "slice-" ++ slice_id

-- The loop over the workers, with the slices so far.
unfoldable pub sum_slices : Dict WorkerInfo → Dict ℕ → Dict ℕ
sum_slices [] slices = slices
sum_slices ((wid, w) ∷ workers) slices =
    sum_slices workers (insert w.slice_id (get_or w.slice_id 0 slices + spare_of w) slices)

module _ {E : Type 0} (zeros : E) where
  abbrev pub cluster_for : String → ℕ → ClusterSummary E
  cluster_for slice_id capacity = record {
    cluster_id = cluster_name slice_id;
    centroid_embedding = zeros;
    radius = one;
    available_capacity = capacity;
  }

  unfoldable pub clusters_for : Dict ℕ → List (ClusterSummary E)
  clusters_for [] = []
  clusters_for ((slice_id, capacity) ∷ slices) = cluster_for slice_id capacity ∷ clusters_for slices

  unfoldable pub build_capacity_summary : String → ℕ → Dict WorkerInfo → SubscriptionSummary E
  build_capacity_summary domain_id now workers = record {
    domain_id = domain_id;
    clusters = clusters_for (sum_slices workers []);
    timestamp = now;
  }

-- The spare capacity of the workers of a slice.
unfoldable pub spare_in : String → Dict WorkerInfo → ℕ
spare_in slice_id [] = 0
spare_in slice_id ((wid, w) ∷ workers) =
    (if w.slice_id == slice_id then spare_of w else 0) + spare_in slice_id workers

get_or-sum_slices :
    (s : String) (workers : Dict WorkerInfo) (slices : Dict ℕ)
    → get_or s 0 (sum_slices workers slices) ≡ get_or s 0 slices + spare_in s workers
unfolding sum_slices spare_in
get_or-sum_slices s [] slices = omega arith
get_or-sum_slices s ((wid, w) ∷ workers) slices =
    let total = get_or w.slice_id 0 slices + spare_of w in
    let step : get_or s 0 (insert w.slice_id total slices)
        ≡ get_or s 0 slices + (if w.slice_id == s then spare_of w else 0) =
      ground (arith, lookup-insert w.slice_id s total slices) in
    omega (arith, get_or-sum_slices s workers (insert w.slice_id total slices), step)

sum_slices_keeps :
    (s : String) (workers : Dict WorkerInfo) (slices : Dict ℕ)
    → contains s (keys slices) ≡ true
    → contains s (keys (sum_slices workers slices)) ≡ true
unfolding sum_slices
sum_slices_keeps s [] slices h = h
sum_slices_keeps s ((wid, w) ∷ workers) slices h =
    let total = get_or w.slice_id 0 slices + spare_of w in
    sum_slices_keeps s workers (insert w.slice_id total slices)
      (ground (arith, contains-keys-insert w.slice_id s total slices))

contains-sum_slices :
    (wid : String) (w : WorkerInfo) (workers : Dict WorkerInfo) (slices : Dict ℕ)
    → Among (wid, w) workers
    → contains w.slice_id (keys (sum_slices workers slices)) ≡ true
unfolding sum_slices
contains-sum_slices wid w [] slices m = elim m [ ]
contains-sum_slices wid w ((v, i) ∷ workers) slices (first e) =
    let total = get_or i.slice_id 0 slices + spare_of i in
    let here : i.slice_id ≡ w.slice_id = ap (λ (p : String × WorkerInfo). p.1.slice_id) (sym e) in
    sum_slices_keeps w.slice_id workers (insert i.slice_id total slices)
      (ground (arith, contains-keys-insert i.slice_id w.slice_id total slices))
contains-sum_slices wid w ((v, i) ∷ workers) slices (later m) =
    contains-sum_slices wid w workers
      (insert i.slice_id (get_or i.slice_id 0 slices + spare_of i) slices) m

Among-entry : (k : String) (v : ℕ) (d : Dict ℕ) → lookup k d ≡ some v → Among (k, v) d
unfolding lookup
Among-entry k v [] h = cc
Among-entry k v ((j, u) ∷ d) h = elim (str_dec j k) [
  | yes same ↦ let value : u ≡ v = ground arith in first (λ i. (sym same i, sym value i))
  | no other ↦ later (Among-entry k v d (ground arith))
]

module _ {E : Type 0} (zeros : E) where
  Among-clusters_for :
      (k : String) (v : ℕ) (d : Dict ℕ)
      → Among (k, v) d
      → Among (cluster_for zeros k v) (clusters_for zeros d)
  unfolding clusters_for
  Among-clusters_for k v [] m = elim m [ ]
  Among-clusters_for k v ((j, u) ∷ d) (first e) =
      first (ap (λ (p : String × ℕ). cluster_for zeros p.0 p.1) e)
  Among-clusters_for k v ((j, u) ∷ d) (later m) = later (Among-clusters_for k v d m)

  -- Condition: a worker is registered. Then the capacity summary has a cluster for its slice, which
  -- offers the sum of the spare capacity of all workers of that slice.
  pub build_capacity_summary_offers :
      (domain_id : String) (now : ℕ) (workers : Dict WorkerInfo) (wid : String) (w : WorkerInfo)
      → Among (wid, w) workers
      → Among
          (cluster_for zeros w.slice_id (spare_in w.slice_id workers))
          (build_capacity_summary zeros domain_id now workers).clusters
  unfolding build_capacity_summary lookup
  build_capacity_summary_offers domain_id now workers wid w m =
      let slices = sum_slices workers [] in
      let (v, found) =
        lookup_of_contains w.slice_id slices (contains-sum_slices wid w workers [] m) in
      let sum : v ≡ spare_in w.slice_id workers =
        ground (arith, get_or-sum_slices w.slice_id workers []) in
      subst (λ n. Among (cluster_for zeros w.slice_id n) (clusters_for zeros slices)) sum
        (Among-clusters_for w.slice_id v slices (Among-entry w.slice_id v slices found))

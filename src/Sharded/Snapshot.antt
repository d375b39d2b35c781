-- ===== src/Sharded/Snapshot.antt =====
-- src/broker/sharded_oracle_broker.py: the snapshots that state-owners publish.
use neural_pubsub_experiment.Prelude.{
  ℕ, ◌≡◌, refl, ◌∙◌, String, Option, none, some, [], ◌∷◌, ◌++◌, arith, str_dec, Dict, insert, keys,
  insert_new, Unique, Unique-absent, keys-append, subst, sym, Error, Result, ok, raised, ◌>>=◌,
  append-nil, append_assoc,
}
use neural_pubsub_experiment.Prelude.Pairs.{assign_all, Distinct, assign_all-append}
use neural_pubsub_experiment.Placement.{ExecutionUnit}
use neural_pubsub_experiment.Sharded.{ShardTopology}
use neural_pubsub_experiment.Wire.{
  Value, nothing, number, text, sequence, mapping, no_entries, entry, entry_of, get, as_text,
  as_num, num_or_zero, items, decode_list, decode_items-items, entries_of, dict_of,
  dict_of-entries_of,
}

unfoldable pub times_to_value : Option (Dict ℕ) → Value
times_to_value none = nothing
times_to_value (some times) = mapping (entries_of times)

-- n.get("compute_times")
unfoldable pub value_to_times : Option Value → Result (Option (Dict ℕ))
value_to_times none = ok none
value_to_times (some nothing) = ok none
value_to_times (some (mapping fs)) = do times ← dict_of fs; ok (some times)
value_to_times (some _) = raised Error.no_key

unfoldable pub node_to_value : ExecutionUnit → Value
node_to_value n = mapping (
    entry "node_id" (text n.node_id) (
      entry "domain_id" (text n.domain_id) (
        entry "slice_id" (text n.slice_id) (
          entry "capacity" (number n.capacity) (
            entry "current_load" (number n.current_load)
              (entry "compute_times" (times_to_value n.compute_times) no_entries))))))

unfoldable pub value_to_node : Value → Result ExecutionUnit
value_to_node v = do
  node_id ← as_text (get "node_id" v)
  domain_id ← as_text (get "domain_id" v)
  slice_id ← as_text (get "slice_id" v)
  capacity ← as_num (get "capacity" v)
  current_load ← num_or_zero (get "current_load" v)
  compute_times ← value_to_times (get "compute_times" v)
  ok (record {
    node_id = node_id;
    domain_id = domain_id;
    slice_id = slice_id;
    capacity = capacity;
    current_load = current_load;
    compute_times = compute_times;
  })

unfoldable pub latency_to_value : (String × String) × ℕ → Value
latency_to_value ((a, b), ms) =
    mapping (entry "a" (text a) (entry "b" (text b) (entry "ms" (number ms) no_entries)))

unfoldable pub value_to_latency : Value → Result ((String × String) × ℕ)
value_to_latency v = do
  a ← as_text (get "a" v)
  b ← as_text (get "b" v)
  ms ← as_num (get "ms" v)
  ok ((a, b), ms)

unfoldable pub url_to_value : String × String → Value
url_to_value (node_id, url) =
    mapping (entry "node_id" (text node_id) (entry "url" (text url) no_entries))

unfoldable pub value_to_url : Value → Result (String × String)
value_to_url v = do
  node_id ← as_text (get "node_id" v)
  url ← as_text (get "url" v)
  ok (node_id, url)

-- topology_to_snapshot, with `worker_urls or {}`
unfoldable pub topology_to_snapshot : ShardTopology → Dict String → Value
topology_to_snapshot topo worker_urls = mapping (
    entry "nodes" (sequence (items node_to_value topo.nodes)) (
      entry "latency_matrix" (sequence (items latency_to_value topo.latency_matrix))
        (entry "worker_urls" (sequence (items url_to_value worker_urls)) no_entries)))

unfoldable pub snapshot_to_topology : Value → Result ShardTopology
snapshot_to_topology snap = do
  nodes ← decode_list value_to_node (get "nodes" snap)
  entries ← decode_list value_to_latency (get "latency_matrix" snap)
  ok (record { nodes = nodes; latency_matrix = assign_all entries [] })

-- {k: v for k, v in entries}
unfoldable pub insert_all : Dict String → Dict String → Dict String
insert_all [] d = d
insert_all ((k, v) ∷ entries) d = insert_all entries (insert k v d)

unfoldable pub snapshot_to_worker_urls : Value → Result (Dict String)
snapshot_to_worker_urls snap = do
  entries ← decode_list value_to_url (get "worker_urls" snap)
  ok (insert_all entries [])

value_to_times-times_to_value :
    (t : Option (Dict ℕ)) → value_to_times (some (times_to_value t)) ≡ ok t
unfolding value_to_times times_to_value
value_to_times-times_to_value none = refl
value_to_times-times_to_value (some d) = ground (arith, dict_of-entries_of d)

value_to_node-node_to_value : (n : ExecutionUnit) → value_to_node (node_to_value n) ≡ ok n
unfolding value_to_node node_to_value get entry_of str_dec
value_to_node-node_to_value n = rw (value_to_times-times_to_value n.compute_times) refl

value_to_latency-latency_to_value :
    (e : (String × String) × ℕ) → value_to_latency (latency_to_value e) ≡ ok e
unfolding value_to_latency latency_to_value get entry_of str_dec
value_to_latency-latency_to_value e = refl

value_to_url-url_to_value : (e : String × String) → value_to_url (url_to_value e) ≡ ok e
unfolding value_to_url url_to_value get entry_of str_dec
value_to_url-url_to_value e = refl

insert_all-append : (e d : Dict String) → Unique (keys (d ++ e)) → insert_all e d ≡ d ++ e
unfolding insert_all
insert_all-append [] d u = ground (arith, append-nil d)
insert_all-append ((k, v) ∷ e) d u =
    let absent = Unique-absent k (keys d) (keys e) (subst Unique (keys-append d ((k, v) ∷ e)) u) in
    rw (insert_new k v d absent) (
      insert_all-append e (d ++ (k, v) ∷ [])
        (subst (λ (x : Dict String). Unique (keys x)) (sym (append_assoc d ((k, v) ∷ []) e)) u)
      ∙ append_assoc d ((k, v) ∷ []) e)

-- Conditions: the entries of the latency matrix and of the urls have distinct keys. Then the
-- topology and the urls of the workers that are read from a snapshot are those it was made of.
pub snapshot_to_topology-topology_to_snapshot :
    (topo : ShardTopology) (worker_urls : Dict String)
    → Distinct topo.latency_matrix
    → Unique (keys worker_urls)
    → (snapshot_to_topology (topology_to_snapshot topo worker_urls) ≡ ok topo)
      × (snapshot_to_worker_urls (topology_to_snapshot topo worker_urls) ≡ ok worker_urls)
unfolding snapshot_to_topology topology_to_snapshot snapshot_to_worker_urls get entry_of str_dec
snapshot_to_topology-topology_to_snapshot topo worker_urls d u = (
  rw
      (
        decode_items-items node_to_value value_to_node value_to_node-node_to_value topo.nodes,
        decode_items-items latency_to_value value_to_latency value_to_latency-latency_to_value
            topo.latency_matrix,
        assign_all-append topo.latency_matrix [] d,
      )
      refl,
  rw
      (
        decode_items-items url_to_value value_to_url value_to_url-url_to_value worker_urls,
        insert_all-append worker_urls [] u,
      )
      refl,
)

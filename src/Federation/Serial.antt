-- ===== src/Federation/Serial.antt =====
-- src/federation/summary.py, `serialize` and `deserialize`. Packing and the arrays are other
-- libraries': `Codec` lists what is used of them.
use neural_pubsub_experiment.Prelude.{◌≡◌, refl, ap, str_dec, Result, ok, ◌>>=◌, some}
use neural_pubsub_experiment.Wire.{
  Value, number, text, sequence, mapping, no_entries, entry, entry_of, get, as_text, as_num, items,
  decode_items-items, decode_list, has_key,
}
use neural_pubsub_experiment.Federation.{ClusterSummary, SubscriptionSummary}

pub record Codec (E : Type 0) : Type 1 where
  pub Bytes : Type 0
  -- msgpack.packb and msgpack.unpackb
  pub packb : Value → Bytes
  pub unpackb : Bytes → Value
  -- centroid.tolist() and np.array(values, dtype=np.float32)
  pub tolist : E → Value
  pub array : Value → E

-- Unpacking undoes packing, and a float32 array is what its list of floats gives.
pub record IsLossless {E : Type 0} (C : Codec E) : Type 0 where
  pub unpacks : (v : Value) → C.unpackb (C.packb v) ≡ v
  pub restores : (e : E) → C.array (C.tolist e) ≡ e

module _ {E : Type 0} (C : Codec E) where
  open C use {Bytes, packb, unpackb, tolist, array}

  unfoldable pub cluster_to_value : ClusterSummary E → Value
  cluster_to_value c = mapping (
      entry "cluster_id" (text c.cluster_id) (
        entry "centroid_embedding" (tolist c.centroid_embedding) (
          entry "radius" (number c.radius)
            (entry "available_capacity" (number c.available_capacity) no_entries))))

  unfoldable pub value_to_cluster : Value → Result (ClusterSummary E)
  value_to_cluster v = do
    cluster_id ← as_text (get "cluster_id" v)
    centroid ← has_key (get "centroid_embedding" v)
    radius ← as_num (get "radius" v)
    available_capacity ← as_num (get "available_capacity" v)
    ok (record {
      cluster_id = cluster_id;
      centroid_embedding = array centroid;
      radius = radius;
      available_capacity = available_capacity;
    })

  unfoldable pub serialize : SubscriptionSummary E → Bytes
  serialize summary = packb (
      mapping (
        entry "domain_id" (text summary.domain_id) (
          entry "timestamp" (number summary.timestamp)
            (entry "clusters" (sequence (items cluster_to_value summary.clusters)) no_entries))))

  unfoldable pub read_summary : Value → Result (SubscriptionSummary E)
  read_summary payload = do
    found ← has_key (get "clusters" payload)
    clusters ← decode_list value_to_cluster (some found)
    domain_id ← as_text (get "domain_id" payload)
    timestamp ← as_num (get "timestamp" payload)
    ok (record { domain_id = domain_id; clusters = clusters; timestamp = timestamp })

  unfoldable pub deserialize : Bytes → Result (SubscriptionSummary E)
  deserialize bytes = read_summary (unpackb bytes)

  value_to_cluster-cluster_to_value :
      IsLossless C → (c : ClusterSummary E) → value_to_cluster (cluster_to_value c) ≡ ok c
  unfolding value_to_cluster cluster_to_value get entry_of str_dec
  value_to_cluster-cluster_to_value l c =
      ap (λ e. ok (record c { centroid_embedding = e })) (l.restores c.centroid_embedding)

  -- Condition: packing and the conversion of arrays lose nothing. Then a summary that is serialised
  -- and read again is the same summary.
  pub deserialize-serialize :
      IsLossless C
      → (summary : SubscriptionSummary E) → deserialize (serialize summary) ≡ ok summary
  unfolding deserialize serialize read_summary get entry_of str_dec
  deserialize-serialize l summary =
      rw
        (
          l.unpacks,
          decode_items-items cluster_to_value value_to_cluster (value_to_cluster-cluster_to_value l)
              summary.clusters,
          read_summary,
        )
        refl

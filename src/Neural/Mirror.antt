-- ===== src/Neural/Mirror.antt =====
-- src/broker/neural_broker.py: the topology mirrors the registry of workers. The health loop is left
-- out here: the load that a probe reports goes into the registry alone.
use neural_pubsub_experiment.Prelude.{
  ℕ, ◌≡◌, refl, sym, ap, ◌∙◌, String, Option, none, some, Option-cases, inl, inr, List, [], ◌∷◌,
  ◌==◌, if_ind, All, Dict, lookup, insert, remove, keys, values, contains, str_dec, arith,
}
use neural_pubsub_experiment.Prelude.Int.{ℤ}
use neural_pubsub_experiment.Placement.Traced.{All-insert}
use neural_pubsub_experiment.Placement.Float.{Floats}
use neural_pubsub_experiment.Broker.{WorkerInfo}
use neural_pubsub_experiment.Neural.{
  NeuralBroker, units, rebuild_topology, set_load, load_worker, update_worker_load, new_neural,
  register_worker, deregister_worker,
}

-- What changes the registry, the health loop apart.
pub data Change : Type 0 where
  registered : WorkerInfo → Change
  deregistered : String → Change
  loaded : String → ℤ → Change

unfoldable pub change : Floats → Change → NeuralBroker → NeuralBroker
change F (registered worker) b = register_worker worker b
change F (deregistered node_id) b = elim (deregister_worker node_id b) [ none ↦ b | some b' ↦ b' ]
change F (loaded node_id delta) b = update_worker_load F node_id delta b

unfoldable pub changes : Floats → List Change → NeuralBroker → NeuralBroker
changes F [] b = b
changes F (c ∷ cs) b = changes F cs (change F c b)

-- The topology has a unit for each worker, with its load, and workers stand under their ids.
pub record IsMirror (b : NeuralBroker) : Type 0 where
  pub same : b.topology.nodes ≡ units (values b.workers)
  pub keyed : All (λ (e : String × WorkerInfo). e.1.node_id ≡ e.0) b.workers

pub All-remove {κ} :
    (P : (String × WorkerInfo) → Type κ) (k : String) (d : Dict WorkerInfo)
    → All P d
    → All P (remove k d)
unfolding remove
All-remove P k [] a = tt
All-remove P k ((j, w) ∷ d) (h, a) =
    let rest = All-remove P k d a in if_ind (All P) (j == k) (λ _. rest) (λ _. (h, rest))

pub set_load-units :
    (node_id : String) (load : ℕ) (w : WorkerInfo) (d : Dict WorkerInfo)
    → All (λ (e : String × WorkerInfo). e.1.node_id ≡ e.0) d
    → lookup node_id d ≡ some w
    → set_load node_id load (units (values d))
      ≡ units (values (insert node_id (record w { current_load = load }) d))
unfolding set_load units lookup insert
set_load-units node_id load w [] k h = cc
set_load-units node_id load w ((j, v) ∷ d) (here, k) h = elim (str_dec j node_id) [
  | yes same ↦ let this : v ≡ w = ground arith in ground (arith, here, this)
  | no other ↦ ground (arith, here, set_load-units node_id load w d k (ground arith))
]

pub rebuild-IsMirror :
    (b : NeuralBroker)
    → All (λ (e : String × WorkerInfo). e.1.node_id ≡ e.0) b.workers
    → IsMirror (rebuild_topology b)
unfolding rebuild_topology
rebuild-IsMirror b keyed = record { same = refl; keyed = keyed }

pub keyed-lookup :
    (k : String) (w : WorkerInfo) (d : Dict WorkerInfo)
    → All (λ (e : String × WorkerInfo). e.1.node_id ≡ e.0) d
    → lookup k d ≡ some w
    → w.node_id ≡ k
unfolding lookup
keyed-lookup k w [] a h = cc
keyed-lookup k w ((j, v) ∷ d) (here, a) h = elim (str_dec j k) [
  | yes same ↦
      let this : v ≡ w = ground arith in ap (λ (v : WorkerInfo). v.node_id) (sym this) ∙ here ∙ same
  | no other ↦ keyed-lookup k w d a (ground arith)
]

pub update_worker_load-IsMirror :
    (F : Floats) (node_id : String) (delta : ℤ) (b : NeuralBroker)
    → IsMirror b
    → IsMirror (update_worker_load F node_id delta b)
unfolding update_worker_load load_worker
update_worker_load-IsMirror F node_id delta b m = elim (Option-cases (lookup node_id b.workers)) [
  | inl unknown ↦ rw (unknown, update_worker_load) m
  | inr (w, known) ↦
      let load = F.shifted w.current_load delta in
      rw (known, update_worker_load)
        (record {
          same =
              ap (set_load node_id load) m.same
              ∙ set_load-units node_id load w b.workers m.keyed known;
          keyed =
              All-insert (λ (e : String × WorkerInfo). e.1.node_id ≡ e.0) node_id _ b.workers
                m.keyed (keyed-lookup node_id w b.workers m.keyed known);
        })
]

pub change-IsMirror :
    (F : Floats) (c : Change) (b : NeuralBroker) → IsMirror b → IsMirror (change F c b)
unfolding change register_worker deregister_worker rebuild_topology
change-IsMirror F (registered worker) b m =
    rebuild-IsMirror
      (record b { workers = insert worker.node_id (record worker { current_load = 0 }) b.workers })
      (All-insert (λ (e : String × WorkerInfo). e.1.node_id ≡ e.0) worker.node_id _ b.workers
        m.keyed refl)
change-IsMirror F (deregistered node_id) b m =
    if_ind (λ (o : Option NeuralBroker). IsMirror (elim o [ none ↦ b | some b' ↦ b' ]))
      (contains node_id (keys b.workers))
      (λ _. record {
        same = refl;
        keyed =
            All-remove (λ (e : String × WorkerInfo). e.1.node_id ≡ e.0) node_id b.workers m.keyed;
      })
      (λ _. m)
change-IsMirror F (loaded node_id delta) b m = update_worker_load-IsMirror F node_id delta b m

changes-keep :
    (F : Floats) (cs : List Change) (b : NeuralBroker) → IsMirror b → IsMirror (changes F cs b)
unfolding changes
changes-keep F [] b m = m
changes-keep F (c ∷ cs) b m = changes-keep F cs (change F c b) (change-IsMirror F c b m)

pub new_neural-IsMirror : IsMirror new_neural
unfolding units
new_neural-IsMirror = record { same = refl; keyed = tt }

-- From an empty broker, over any changes of the registry and of loads, the topology has one unit for
-- each worker of the registry, in its order and with its load.
pub changes-IsMirror :
    (F : Floats) (cs : List Change)
    → (changes F cs new_neural).topology.nodes ≡ units (values (changes F cs new_neural).workers)
changes-IsMirror F cs = (changes-keep F cs new_neural new_neural-IsMirror).same

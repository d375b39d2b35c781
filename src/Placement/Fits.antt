-- ===== src/Placement/Fits.antt =====
-- src/broker/placement.py: what every placement loop keeps, as soon as its pick checks the room on a
-- node and the node itself: no node is overloaded, and sovereignty and slices are respected.
use neural_pubsub_experiment.Prelude.{
  ℕ, ◌≡◌, refl, String, true, false, some, List, [], ◌∷◌, ◌++◌, ◌||◌, arith, contains, Dict, lookup,
  insert, get_or, keys, ok, >>=-eq-ok, ok-injective, contains-keys-insert, insert_new, Unique, All,
  inl, inr, Option-cases, lookup-insert, lookup-insert_self, ◌∙◌,
}
use neural_pubsub_experiment.Dag.{Stage, PipelineDag, get_stage}
use neural_pubsub_experiment.Placement.{
  ExecutionUnit, NetworkTopology, GovernancePolicy, get_node, node_map, exceeds, outside_domain,
  slice_matches, is_node_feasible_simple,
}
use neural_pubsub_experiment.Placement.Rounds.{Pick, book, place_all}
use neural_pubsub_experiment.Placement.Check.{
  node_loads, capacity_violations, sovereignty_violations, slice_violations,
}

-- An invariant of the loop: each round adds one stage that is not placed yet.
module _ (dag : PipelineDag) (pick : Pick) (I : Dict String → Dict ℕ → Type 0)
    (keep : (sid nid : String) (stage : Stage) (p : Dict String) (load : Dict ℕ)
      → get_stage dag sid ≡ ok stage
      → contains sid (keys p) ≡ false
      → pick stage p load ≡ ok (some nid)
      → I p load
      → I (insert sid nid p) (book nid stage.computational_demand load)) where
  abbrev pub Finished : List String → Dict String → Dict String → Type 0
  Finished order p final =
      (load : Dict ℕ) × I final load
      × ((x : String) → contains x (keys final) ≡ (contains x (keys p) || contains x order))

  pub place_all_ind :
      (order : List String) (p final : Dict String) (load : Dict ℕ)
      → Unique order
      → ((x : String) → contains x order ≡ true → contains x (keys p) ≡ false)
      → I p load
      → place_all dag pick order p load ≡ ok final
      → Finished order p final
  unfolding place_all contains
  place_all_ind [] p final load u new i h =
      subst_final (ok-injective h) (load, i, λ x. ground arith)
    where
      subst_final : p ≡ final → Finished [] p p → Finished [] p final
      subst_final e f = rw (← e) f
  place_all_ind (sid ∷ order) p final load u new i h =
      let (stage, got, h1) = >>=-eq-ok (get_stage dag sid) _ h in
      let (best, picked, h2) = >>=-eq-ok (pick stage p load) _ h1 in
      elim (Option-cases best) [
        | inl nothing ↦ cc (rw nothing at h2)
        | inr (nid, e) ↦
            let absent : contains sid (keys p) ≡ false = new sid (ground arith) in
            let (load', i', mem) =
              place_all_ind order (insert sid nid p) final
                (book nid stage.computational_demand load) u.1
                (λ x m. ground (arith, contains-keys-insert sid x nid p, new x, u.0))
                (keep sid nid stage p load got absent (rw e at picked) i) (rw e at h2) in
            (load', i', λ x. ground (arith, mem x, contains-keys-insert sid x nid p))
      ]

module _ (dag : PipelineDag) (topology : NetworkTopology) (governance : GovernancePolicy) where
  -- The stage and the node of an entry exist, and the node suits the stage.
  abbrev pub Suits : (String × String) → Type 0
  Suits (sid, nid) =
      (stage : Stage) × (node : ExecutionUnit) × (get_stage dag sid ≡ ok stage)
      × (get_node topology nid ≡ ok node)
      × (is_node_feasible_simple stage node governance ≡ true)

  -- What a pick has checked of the node that it returns.
  abbrev pub Checks : Stage → Dict ℕ → String → Type 0
  Checks stage load nid =
      (node : ExecutionUnit) × (get_node topology nid ≡ ok node)
      × (is_node_feasible_simple stage node governance ≡ true)
      × (exceeds stage.computational_demand node (get_or nid 0 load) ≡ false)

  pub record Fits (p : Dict String) (load : Dict ℕ) : Type 0 where
    pub suits : All Suits p
    pub loads : node_loads dag p [] ≡ ok load
    pub no_overload : capacity_violations topology load ≡ ok []

  capacity-cons :
      (i : String) (w : ℕ) (load : Dict ℕ)
      → capacity_violations topology ((i, w) ∷ load) ≡ ok []
      → (node : ExecutionUnit) × (get_node topology i ≡ ok node)
        × (exceeds w node 0 ≡ false)
        × (capacity_violations topology load ≡ ok [])
  unfolding capacity_violations
  capacity-cons i w load h =
      let (node, got, h1) = >>=-eq-ok (get_node topology i) _ h in
      let (rest, ends, h2) = >>=-eq-ok (capacity_violations topology load) _ h1 in
      (node, got, ground arith, ground arith)

  pub capacity-book :
      (nid : String) (node : ExecutionUnit) (v : ℕ) (load : Dict ℕ)
      → get_node topology nid ≡ ok node
      → exceeds v node 0 ≡ false
      → capacity_violations topology load ≡ ok []
      → capacity_violations topology (insert nid v load) ≡ ok []
  unfolding capacity_violations insert
  capacity-book nid node v [] got fits h = ground arith
  capacity-book nid node v ((i, w) ∷ load) got fits h =
      let (other, has, below, rest) = capacity-cons i w load h in
      ground (arith, capacity-book nid node v load got fits rest)

  pub node_loads-snoc :
      (p : Dict String) (sid nid : String) (stage : Stage) (acc load : Dict ℕ)
      → get_stage dag sid ≡ ok stage
      → node_loads dag p acc ≡ ok load
      → node_loads dag (p ++ (sid, nid) ∷ []) acc ≡ ok (book nid stage.computational_demand load)
  unfolding node_loads
  node_loads-snoc [] sid nid stage acc load got h = ground arith
  node_loads-snoc ((s, n) ∷ p) sid nid stage acc load got h =
      let (st, has, h1) = >>=-eq-ok (get_stage dag s) _ h in
      rw has (node_loads-snoc p sid nid stage (book n st.computational_demand acc) load got h1)

  All-snoc :
      (p : Dict String) (e : String × String) → All Suits p → Suits e → All Suits (p ++ e ∷ [])
  All-snoc [] e a s = (s, tt)
  All-snoc (x ∷ p) e a s = (a.0, All-snoc p e a.1 s)

  pub Fits-nil : Fits [] []
  unfolding node_loads capacity_violations
  Fits-nil = record { suits = tt; loads = refl; no_overload = refl }

  pub Fits-next :
      (sid nid : String) (stage : Stage) (p : Dict String) (load : Dict ℕ)
      → get_stage dag sid ≡ ok stage
      → contains sid (keys p) ≡ false
      → Checks stage load nid
      → Fits p load
      → Fits (insert sid nid p) (book nid stage.computational_demand load)
  Fits-next sid nid stage p load got absent (node, has, simple, room) f = record {
    suits =
        rw (insert_new sid nid p absent)
          (All-snoc p (sid, nid) f.suits (stage, node, got, has, simple));
    loads = rw (insert_new sid nid p absent) (node_loads-snoc p sid nid stage [] load got f.loads);
    no_overload = capacity-book nid node _ load has (ground arith) f.no_overload;
  }

  simple-respects :
      (stage : Stage) (node : ExecutionUnit)
      → is_node_feasible_simple stage node governance ≡ true
      → (outside_domain stage node ≡ false)
        × (slice_matches node.slice_id stage.slice_requirement ≡ true)
  unfolding is_node_feasible_simple
  simple-respects stage node h = ground arith

  pub sovereignty-clean :
      (p : Dict String) → All Suits p → sovereignty_violations dag topology governance p ≡ ok []
  unfolding sovereignty_violations
  sovereignty-clean [] a = refl
  sovereignty-clean ((sid, nid) ∷ p) ((stage, node, got, has, simple), a) =
      ground (arith, simple-respects stage node simple, sovereignty-clean p a)

  pub slices-clean : (p : Dict String) → All Suits p → slice_violations dag topology p ≡ ok []
  unfolding slice_violations
  slices-clean [] a = refl
  slices-clean ((sid, nid) ∷ p) ((stage, node, got, has, simple), a) =
      ground (arith, simple-respects stage node simple, slices-clean p a)

-- The ids of the nodes, and the condition that no two nodes share one.
abbrev pub node_ids : List ExecutionUnit → List String
node_ids [] = []
node_ids (n ∷ ns) = n.node_id ∷ node_ids ns

pub node_map-other :
    (k : String) (ns : List ExecutionUnit) (m : Dict ExecutionUnit)
    → contains k (node_ids ns) ≡ false
    → lookup k (node_map ns m) ≡ lookup k m
unfolding node_map contains
node_map-other k [] m h = refl
node_map-other k (n ∷ ns) m h =
    ground (arith, node_map-other k ns (insert n.node_id n m), lookup-insert n.node_id k n m)

node_map-All :
    (ns : List ExecutionUnit) (m : Dict ExecutionUnit)
    → Unique (node_ids ns)
    → All (λ n. lookup n.node_id (node_map ns m) ≡ some n) ns
unfolding node_map
node_map-All [] m u = tt
node_map-All (n ∷ ns) m u = (
  node_map-other n.node_id ns (insert n.node_id n m) u.0 ∙ lookup-insert_self n.node_id n m,
  node_map-All ns (insert n.node_id n m) u.1,
)

-- A node is found under its own id.
abbrev pub IsListed : NetworkTopology → ExecutionUnit → Type 0
IsListed topology n = get_node topology n.node_id ≡ ok n

IsListed-from :
    (topology : NetworkTopology) (ns : List ExecutionUnit)
    → All (λ n. lookup n.node_id (node_map topology.nodes []) ≡ some n) ns
    → All (IsListed topology) ns
unfolding get_node
IsListed-from topology [] a = tt
IsListed-from topology (n ∷ ns) a = (ground (arith, a.0), IsListed-from topology ns a.1)

pub Unique-IsListed :
    (topology : NetworkTopology)
    → Unique (node_ids topology.nodes)
    → All (IsListed topology) topology.nodes
Unique-IsListed topology u =
    IsListed-from topology topology.nodes (node_map-All topology.nodes [] u)

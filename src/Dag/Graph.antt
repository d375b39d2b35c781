-- ===== src/Dag/Graph.antt =====
-- src/pipeline/dag.py: the invariant that `add_stage` and `add_edge` keep. A graph is acyclic when
-- its stages have ranks that rise along every edge.
use neural_pubsub_experiment.Prelude.{
  ℕ, ◌+◌, ◌<◌, ◌≡◌, refl, sym, inl, inr, String, true, false, Option, none, some, List, [], ◌∷◌,
  ◌++◌, ◌==◌, ◌&&◌, if◌then◌else◌, contains, contains-append, arith, Bool-cases, lookup,
  lookup-insert, contains-keys-insert, keys-insert_new, Unique, Unique-snoc, subst, Option-cases,
  ok,
}
use neural_pubsub_experiment.Dag.{
  Stage, Edge, PipelineDag, empty_dag, add_stage, add_edge, append_at, index_at, can_reach,
  stage_ids, with_stage, with_edge,
}
use neural_pubsub_experiment.Dag.Reach.{Reaches, IsClosed, can_reach_sound, can_reach_complete}

-- The targets of the edges from a name, and the sources of those to it, in the order of the edges.
unfoldable pub targets : String → List Edge → List String
targets a [] = []
targets a (e ∷ es) = if e.source_id == a then e.target_id ∷ targets a es else targets a es

unfoldable pub origins : String → List Edge → List String
origins b [] = []
origins b (e ∷ es) = if e.target_id == b then e.source_id ∷ origins b es else origins b es

-- The edge from one name to another that stands last.
unfoldable pub last_edge : String → String → List Edge → Option Edge
last_edge a b [] = none
last_edge a b (e ∷ es) = elim (last_edge a b es) [
  | some later ↦ some later
  | none ↦ if e.source_id == a && e.target_id == b then some e else none
]

targets-snoc :
    (a : String) (es : List Edge) (e : Edge)
    → targets a (es ++ e ∷ [])
      ≡ (if e.source_id == a then targets a es ++ e.target_id ∷ [] else targets a es)
unfolding targets
targets-snoc a [] e = ground arith
targets-snoc a (x ∷ es) e = ground (arith, targets-snoc a es e)

origins-snoc :
    (b : String) (es : List Edge) (e : Edge)
    → origins b (es ++ e ∷ [])
      ≡ (if e.target_id == b then origins b es ++ e.source_id ∷ [] else origins b es)
unfolding origins
origins-snoc b [] e = ground arith
origins-snoc b (x ∷ es) e = ground (arith, origins-snoc b es e)

last_edge-snoc :
    (a b : String) (es : List Edge) (e : Edge)
    → last_edge a b (es ++ e ∷ [])
      ≡ (if e.source_id == a && e.target_id == b then some e else last_edge a b es)
unfolding last_edge
last_edge-snoc a b [] e = ground arith
last_edge-snoc a b (x ∷ es) e = ground (arith, last_edge-snoc a b es e)

-- Both readings of an edge agree.
pub contains-origins :
    (p x : String) (es : List Edge) → contains p (origins x es) ≡ contains x (targets p es)
unfolding origins targets contains
contains-origins p x [] = refl
contains-origins p x (e ∷ es) = ground (arith, contains-origins p x es)

-- What holds of every graph that the methods build.
pub record IsGraph (dag : PipelineDag) : Type 0 where
  -- each stage stands once, under its own id
  pub unique : Unique (stage_ids dag)
  pub named : (k : String) (s : Stage) → lookup k dag.stages ≡ some s → s.id ≡ k
  -- the dictionaries say what the edges say
  pub successors_eq : (a : String) → dag.successors a ≡ targets a dag.edges
  pub predecessors_eq : (b : String) → dag.predecessors b ≡ origins b dag.edges
  pub index_eq : (a b : String) → dag.edge_index a b ≡ last_edge a b dag.edges
  -- both ends of an edge are stages
  pub known_source :
      (a b : String) → contains b (dag.successors a) ≡ true → contains a (stage_ids dag) ≡ true
  pub known_target : IsClosed (stage_ids dag) dag.successors
  -- no cycle
  pub rank : String → ℕ
  pub ranked : (a b : String) → contains b (dag.successors a) ≡ true → rank a < rank b

pub empty_dag-IsGraph : (budget : Option ℕ) → IsGraph (empty_dag budget)
unfolding empty_dag lookup contains targets origins last_edge
empty_dag-IsGraph budget = record {
  unique = tt;
  named = λ k s h. cc;
  successors_eq = λ a. refl;
  predecessors_eq = λ b. refl;
  index_eq = λ a b. refl;
  known_source = λ a b h. cc;
  known_target = λ a b h. cc;
  rank = λ x. 0;
  ranked = λ a b h. cc;
}

add_stage-eq-ok :
    (dag : PipelineDag) (stage : Stage) {dag' : PipelineDag}
    → add_stage dag stage ≡ ok dag'
    → (contains stage.id (stage_ids dag) ≡ false) × (dag' ≡ with_stage dag stage)
unfolding add_stage
add_stage-eq-ok dag stage h = elim (Bool-cases (contains stage.id (stage_ids dag))) [
  | inl old ↦ cc (rw (old, add_stage) at h)
  | inr new ↦ (new, cc (rw (new, add_stage) at h))
]

add_edge-eq-ok :
    (dag : PipelineDag) (e : Edge) {dag' : PipelineDag}
    → add_edge dag e ≡ ok dag'
    → (contains e.source_id (stage_ids dag) ≡ true)
      × (contains e.target_id (stage_ids dag) ≡ true)
      × (can_reach dag e.target_id e.source_id ≡ false)
      × (dag' ≡ with_edge dag e)
unfolding add_edge
add_edge-eq-ok dag e h = ground arith

module _ {dag : PipelineDag} (g : IsGraph dag) where
  -- The rank after an edge from `u` to `v`: what `v` reaches is lifted above `u`.
  lifted : String → String → String → ℕ
  lifted u v x = if can_reach dag v x then g.rank x + g.rank u + 1 else g.rank x

  can_reach-step :
      (v a b : String)
      → contains b (dag.successors a) ≡ true
      → can_reach dag v a ≡ true
      → can_reach dag v b ≡ true
  can_reach-step v a b m h =
      can_reach_complete dag g.known_target v b
        (Reaches.step (can_reach_sound dag g.known_target v a h) m)

  lifted-ranked :
      (u v : String)
      → can_reach dag v u ≡ false
      → (a b : String) → contains b (append_at dag.successors u v a) ≡ true
      → lifted u v a < lifted u v b
  unfolding append_at lifted contains
  lifted-ranked u v acyclic a b h = ground (
    arith,
    contains-append b (dag.successors a) (v ∷ []),
    can_reach-step v a b,
    g.ranked a b,
    can_reach_complete dag g.known_target v v Reaches.here,
  )

  with_stage-IsGraph :
      (stage : Stage) → contains stage.id (stage_ids dag) ≡ false → IsGraph (with_stage dag stage)
  with_stage-IsGraph stage new = record {
    unique =
        rw (keys-insert_new stage.id stage dag.stages new)
          (Unique-snoc (stage_ids dag) stage.id g.unique new);
    named = λ k s h. ground (arith, lookup-insert stage.id k stage dag.stages, g.named k s);
    successors_eq = g.successors_eq;
    predecessors_eq = g.predecessors_eq;
    index_eq = g.index_eq;
    known_source = λ a b h.
        ground (arith, contains-keys-insert stage.id a stage dag.stages, g.known_source a b h);
    known_target = λ a b h.
        ground (arith, contains-keys-insert stage.id b stage dag.stages, g.known_target a b h);
    rank = g.rank;
    ranked = g.ranked;
  }

  module _ (e : Edge) (has_source : contains e.source_id (stage_ids dag) ≡ true)
      (has_target : contains e.target_id (stage_ids dag) ≡ true) where
    with_edge-known :
        (a b : String)
        → contains b (append_at dag.successors e.source_id e.target_id a) ≡ true
        → (contains a (stage_ids dag) ≡ true) × (contains b (stage_ids dag) ≡ true)
    unfolding append_at contains
    with_edge-known a b h = ground (
      arith,
      contains-append b (dag.successors a) (e.target_id ∷ []),
      g.known_source a b,
      g.known_target a b,
    )

    with_edge-IsGraph : can_reach dag e.target_id e.source_id ≡ false → IsGraph (with_edge dag e)
    unfolding append_at index_at
    with_edge-IsGraph acyclic = record {
      unique = g.unique;
      named = g.named;
      successors_eq = λ a. ground (arith, targets-snoc a dag.edges e, g.successors_eq a);
      predecessors_eq = λ b. ground (arith, origins-snoc b dag.edges e, g.predecessors_eq b);
      index_eq = λ a b. ground (arith, last_edge-snoc a b dag.edges e, g.index_eq a b);
      known_source = λ a b h. (with_edge-known a b h).0;
      known_target = λ a b h. (with_edge-known a b h).1;
      rank = lifted e.source_id e.target_id;
      ranked = lifted-ranked e.source_id e.target_id acyclic;
    }

  -- Conditions: the graph is well formed and the stage is accepted. Then the new graph is well
  -- formed.
  pub add_stage-IsGraph :
      (stage : Stage) (dag' : PipelineDag) → add_stage dag stage ≡ ok dag' → IsGraph dag'
  add_stage-IsGraph stage dag' h =
      let (new, e) = add_stage-eq-ok dag stage h in
      subst IsGraph (sym e) (with_stage-IsGraph stage new)

  -- Conditions: the graph is well formed and the edge is accepted. Then the new graph is well
  -- formed: in particular it has no cycle, and its dictionaries agree with its edges.
  pub add_edge-IsGraph : (e : Edge) (dag' : PipelineDag) → add_edge dag e ≡ ok dag' → IsGraph dag'
  add_edge-IsGraph e dag' h =
      let (s, t, acyclic, same) = add_edge-eq-ok dag e h in
      subst IsGraph (sym same) (with_edge-IsGraph e s t acyclic)

  pub predecessor_iff :
      (p x : String) → contains p (dag.predecessors x) ≡ contains x (dag.successors p)
  predecessor_iff p x = rw (g.predecessors_eq x, g.successors_eq p) (contains-origins p x dag.edges)

last_edge-contains :
    (a b : String) (es : List Edge) (e : Edge)
    → last_edge a b es ≡ some e
    → contains b (targets a es) ≡ true
unfolding last_edge targets contains
last_edge-contains a b [] e h = cc
last_edge-contains a b (x ∷ es) e h = elim (Option-cases (last_edge a b es)) [
  | inl none' ↦ ground arith
  | inr (y, found) ↦ ground (arith, last_edge-contains a b es y found)
]

pub index-contains :
    {dag : PipelineDag} (g : IsGraph dag) (a b : String) (e : Edge)
    → dag.edge_index a b ≡ some e
    → contains b (dag.successors a) ≡ true
index-contains {dag} g a b e h =
    rw (g.successors_eq a) (last_edge-contains a b dag.edges e (rw (g.index_eq a b) at h))

-- ===== src/Dag/Tree.antt =====
-- src/pipeline/dag.py, `is_tree`: the loop against the successors and the sinks of the whole graph.
use neural_pubsub_experiment.Prelude.{
  ℕ, suc, ◌+◌, ◌≡◌, String, ◌&&◌, List, [], ◌∷◌, arith, eqb, leb, length, filter, all,
  if◌then◌else◌,
}
use neural_pubsub_experiment.Dag.{PipelineDag, stage_ids, sinks, is_nil, is_tree, is_tree_from}

is_nil-length : (xs : List String) → is_nil xs ≡ eqb (length xs) 0
is_nil-length [] = ground arith
is_nil-length (x ∷ xs) = ground arith

is_tree_from_lem :
    (succs : String → List String) (ids : List String) (n : ℕ)
    → is_tree_from succs ids n ≡ (
        all (λ sid. leb (length (succs sid)) 1) ids
        && eqb (n + length (filter (λ sid. is_nil (succs sid)) ids)) 1)
unfolding is_tree_from
is_tree_from_lem succs [] n = ground arith
is_tree_from_lem succs (sid ∷ ids) n = ground (
  arith,
  is_nil-length (succs sid),
  is_tree_from_lem succs ids (if eqb (length (succs sid)) 0 then suc n else n),
)

-- A graph is a tree for the solver exactly if no stage has more than one successor and the list of
-- sinks has one element.
pub is_tree_lem :
    (dag : PipelineDag)
    → is_tree dag ≡ (
        all (λ sid. leb (length (dag.successors sid)) 1) (stage_ids dag)
        && eqb (length (sinks dag)) 1)
unfolding is_tree sinks
is_tree_lem dag = ground (arith, is_tree_from_lem dag.successors (stage_ids dag) 0)

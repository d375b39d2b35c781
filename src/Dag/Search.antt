-- ===== src/Dag/Search.antt =====
-- src/pipeline/dag.py, `_can_reach`: breadth-first search over the successors. A round takes one
-- name from the queue; `bfs` has fuel for the rounds, and `none` means that it ran out.
use neural_pubsub_experiment.Prelude.{
  ℕ, zero, suc, String, Bool, true, false, Option, none, some, List, [], ◌∷◌, ◌++◌, ◌==◌,
  if◌then◌else◌, contains, length,
}

-- The `for` loop over the successors: `none` is `return True`, else the new `visited` and `queue`.
unfoldable pub scan :
    String → List String → List String → List String → Option (List String × List String)
scan to [] visited queue = some (visited, queue)
scan to (s ∷ ss) visited queue =
    let rest =
      scan to ss (if contains s visited then visited else s ∷ visited)
        (if contains s visited then queue else queue ++ s ∷ []) in
    if s == to then none else rest

-- The `while` loop.
unfoldable pub bfs : (String → List String) → String → ℕ → List String → List String → Option Bool
bfs succs to zero visited queue = none
bfs succs to (suc fuel) visited [] = some false
bfs succs to (suc fuel) visited (current ∷ queue) = elim (scan to (succs current) visited queue) [
  | none ↦ some true
  | some (visited', queue') ↦ bfs succs to fuel visited' queue'
]

-- Each stage enters the queue at most once, and `from` once more.
unfoldable pub can_reach_from : List String → (String → List String) → String → String → Bool
can_reach_from ids succs from to =
    if from == to then true else elim (bfs succs to (suc (suc (length ids))) [] (from ∷ [])) [
      | none ↦ true
      | some answer ↦ answer
    ]

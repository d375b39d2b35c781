-- ===== src/Dag/Kahn.antt =====
-- src/pipeline/dag.py, `topological_sort`: Kahn's algorithm. `in_degree` has exactly the stage ids for
-- keys, and is a function; its values are Python integers.
use neural_pubsub_experiment.Prelude.{
  ℕ, zero, suc, String, Option, none, some, List, [], ◌∷◌, ◌++◌, ◌==◌, if◌then◌else◌, length, eqb,
  filter, Error, Result, ok, raised,
}
use neural_pubsub_experiment.Prelude.Int.{ℤ, pos, suc_ℤ, pred_ℤ, is_zero}
use neural_pubsub_experiment.Dag.{PipelineDag, Edge, stage_ids}

-- in_degree[k] += 1
unfoldable pub raise_at : (String → ℤ) → String → String → ℤ
raise_at d k x = if k == x then suc_ℤ (d x) else d x

-- in_degree[k] -= 1
unfoldable pub lower_at : (String → ℤ) → String → String → ℤ
lower_at d k x = if k == x then pred_ℤ (d x) else d x

-- for edge in self._edges
unfoldable pub in_degrees : List Edge → (String → ℤ) → String → ℤ
in_degrees [] d = d
in_degrees (e ∷ es) d = in_degrees es (raise_at d e.target_id)

-- for succ in self._successors.get(current, [])
unfoldable pub release : List String → (String → ℤ) → List String → (String → ℤ) × List String
release [] d queue = (d, queue)
release (s ∷ ss) d queue =
    release ss (lower_at d s) (if is_zero (lower_at d s s) then queue ++ s ∷ [] else queue)

-- while queue: a round for each unit of fuel, and `none` when it runs out.
unfoldable pub kahn :
    (String → List String) → ℕ → (String → ℤ) → List String → List String → Option (List String)
kahn succs zero d queue order = none
kahn succs (suc fuel) d [] order = some order
kahn succs (suc fuel) d (current ∷ queue) order =
    let (d', queue') = release (succs current) d queue in
    kahn succs fuel d' queue' (order ++ current ∷ [])

unfoldable pub topological_sort : PipelineDag → Result (List String)
topological_sort dag =
    let in_degree = in_degrees dag.edges (λ x. pos 0) in
    let queue = filter (λ sid. is_zero (in_degree sid)) (stage_ids dag) in
    elim (kahn dag.successors (suc (length (stage_ids dag))) in_degree queue []) [
      | none ↦ raised Error.not_sorted
      | some order ↦
          if eqb (length order) (length (stage_ids dag)) then ok order else raised Error.not_sorted
    ]

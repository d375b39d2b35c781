-- ===== src/Static/Sorted.antt =====
-- src/broker/static_broker.py, `_eligible_workers`: the order of the list, and how often it names a
-- worker.
use neural_pubsub_experiment.Prelude.{
  ℕ, ◌≡◌, refl, ◌∙◌, String, false, Option, List, [], ◌∷◌, ◌==◌, ◌&&◌, Bool-cases, inl, inr, Dict,
  arith,
}
use neural_pubsub_experiment.Prelude.Sorts.{
  insert_with, sort_onto, sort_with, count_if, count_if-sort_with,
}
use neural_pubsub_experiment.Placement.{slice_matches}
use neural_pubsub_experiment.Broker.{WorkerInfo}
use neural_pubsub_experiment.Static.{matching, eligible_workers, text_less}
use neural_pubsub_experiment.Static.Texts.{text_less-asym}

-- No name comes before the one that it follows.
abbrev pub IsSorted : List String → Type 0
IsSorted [] = Unit
IsSorted (s ∷ []) = Unit
IsSorted (s ∷ t ∷ ts) = (text_less t s ≡ false) × IsSorted (t ∷ ts)

insert_with-IsSorted :
    (s : String) (ts : List String) → IsSorted ts → IsSorted (insert_with text_less s ts)
unfolding insert_with
insert_with-IsSorted s [] a = tt
insert_with-IsSorted s (t ∷ []) a = elim (Bool-cases (text_less s t)) [
  | inl less ↦ rw less (text_less-asym s t less, tt)
  | inr more ↦ rw more (more, tt)
]
insert_with-IsSorted s (t ∷ u ∷ us) (h, a) = elim (Bool-cases (text_less s t)) [
  | inl less ↦ rw less (text_less-asym s t less, (h, a))
  | inr more ↦
      let rest = insert_with-IsSorted s (u ∷ us) a in
      rw more (elim (Bool-cases (text_less s u)) [
        | inl below ↦ rw below (more, (rw below at rest))
        | inr above ↦ rw above (h, (rw above at rest))
      ])
]

sort_onto-IsSorted : (ss acc : List String) → IsSorted acc → IsSorted (sort_onto text_less ss acc)
unfolding sort_onto
sort_onto-IsSorted [] acc a = a
sort_onto-IsSorted (s ∷ ss) acc a =
    sort_onto-IsSorted ss (insert_with text_less s acc) (insert_with-IsSorted s acc a)

pub eligible_workers-IsSorted :
    (req : Option String) (workers : Dict WorkerInfo) → IsSorted (eligible_workers req workers)
unfolding eligible_workers sort_with
eligible_workers-IsSorted req workers = sort_onto-IsSorted (matching req workers) [] tt

-- How often a list names a worker, and how often a registered worker of that name serves.
abbrev pub named : String → List String → ℕ
named wid names = count_if (λ name. name == wid) names

abbrev pub serving : String → Option String → Dict WorkerInfo → ℕ
serving wid req workers =
    count_if (λ (e : String × WorkerInfo). e.0 == wid && slice_matches e.1.slice_id req) workers

named-matching :
    (wid : String) (req : Option String) (workers : Dict WorkerInfo)
    → named wid (matching req workers) ≡ serving wid req workers
unfolding matching count_if
named-matching wid req [] = refl
named-matching wid req ((v, w) ∷ workers) = elim (Bool-cases (slice_matches w.slice_id req)) [
  | inl good ↦ ground (arith, good, named-matching wid req workers)
  | inr bad ↦ ground (arith, bad, named-matching wid req workers)
]

pub named-eligible_workers :
    (wid : String) (req : Option String) (workers : Dict WorkerInfo)
    → named wid (eligible_workers req workers) ≡ serving wid req workers
unfolding eligible_workers
named-eligible_workers wid req workers =
    count_if-sort_with text_less (λ name. name == wid) (matching req workers)
    ∙ named-matching wid req workers

-- ===== src/Dag/Order.antt =====
-- src/pipeline/dag.py, `topological_sort`: every graph that the methods build is sorted, each stage
-- once and behind its predecessors.
use neural_pubsub_experiment.Prelude.{
  ℕ, zero, suc, ◌+◌, ◌<◌, ◌≡◌, refl, sym, ap, ◌∙◌, ◌&&◌, String, true, false, some, List, [], ◌∷◌,
  ◌++◌, ◌==◌, ◌||◌, eqb, if◌then◌else◌, contains, contains-append, arith, Unique, append_assoc,
  length, length-append, filter, subst, append-nil, contains-filter, filter-Unique, ok,
}
use neural_pubsub_experiment.Prelude.Int.{ℤ, pos, is_zero}
use neural_pubsub_experiment.Dag.{PipelineDag, stage_ids}
use neural_pubsub_experiment.Dag.Graph.{IsGraph, contains-origins}
use neural_pubsub_experiment.Dag.Kahn.{in_degrees, release, kahn, topological_sort}
use neural_pubsub_experiment.Dag.Degrees.{
  count, contains-count, open_in, in_degrees-open_in, open_in-snoc, done_of_open_in,
  open_in_of_done, release_degree, release_queue, release-Unique,
}

-- Each name of the list stands behind its predecessors, of which `seen` have come before.
abbrev pub IsOrdered : (String → List String) → List String → List String → Type 0
IsOrdered preds seen [] = Unit
IsOrdered preds seen (x ∷ xs) =
    ((p : String) → contains p (preds x) ≡ true → contains p seen ≡ true)
    × IsOrdered preds (x ∷ seen) xs

IsOrdered-snoc :
    (preds : String → List String) (seen xs : List String) (x : String)
    → IsOrdered preds seen xs
    → ((p : String) → contains p (preds x) ≡ true → (contains p seen || contains p xs) ≡ true)
    → IsOrdered preds seen (xs ++ x ∷ [])
unfolding contains
IsOrdered-snoc preds seen [] x o h = (λ p m. ground (arith, h p m), tt)
IsOrdered-snoc preds seen (y ∷ xs) x o h =
    (o.0, IsOrdered-snoc preds (y ∷ seen) xs x o.1 (λ p m. ground (arith, h p m)))

-- How many of the names are not in the list.
unprocessed : List String → List String → ℕ
unprocessed done [] = 0
unprocessed done (k ∷ ks) = (if contains k done then 0 else 1) + unprocessed done ks

unprocessed-other :
    (c : String) (done ks : List String)
    → contains c ks ≡ false
    → unprocessed (done ++ c ∷ []) ks ≡ unprocessed done ks
unfolding unprocessed contains
unprocessed-other c done [] h = refl
unprocessed-other c done (k ∷ ks) h =
    ground (arith, contains-append k done (c ∷ []), unprocessed-other c done ks)

unprocessed-snoc :
    (c : String) (done ks : List String)
    → Unique ks
    → contains c ks ≡ true
    → contains c done ≡ false
    → unprocessed done ks ≡ suc (unprocessed (done ++ c ∷ []) ks)
unfolding unprocessed contains
unprocessed-snoc c done [] u h n = cc
unprocessed-snoc c done (k ∷ ks) u h n = ground (
  arith,
  contains-append k done (c ∷ []),
  unprocessed-snoc c done ks u.1,
  unprocessed-other c done ks,
)

unprocessed_nil : (ks : List String) → unprocessed [] ks ≡ length ks
unfolding unprocessed contains
unprocessed_nil [] = refl
unprocessed_nil (k ∷ ks) = ground (arith, unprocessed_nil ks)

unprocessed_all :
    (done ks : List String)
    → ((x : String) → contains x ks ≡ true → contains x done ≡ true)
    → unprocessed done ks ≡ 0
unfolding unprocessed contains
unprocessed_all done [] h = refl
unprocessed_all done (k ∷ ks) h =
    let rest : (x : String) → contains x ks ≡ true → contains x done ≡ true =
      λ x m. h x (ground arith) in
    ground (arith, h k, unprocessed_all done ks rest)

Unique-middle : (c : String) (xs ys : List String) → Unique (xs ++ c ∷ ys) → contains c xs ≡ false
unfolding contains
Unique-middle c [] ys u = refl
Unique-middle c (x ∷ xs) ys u =
    ground (arith, contains-append x xs (c ∷ ys), Unique-middle c xs ys u.1)

module _ (dag : PipelineDag) (g : IsGraph dag) where
  -- The invariant of the `while` loop.
  record Inv (d : String → ℤ) (queue order : List String) : Type 0 where
    degree : (x : String) → d x ≡ pos (open_in x order dag.edges)
    reached :
        (x : String)
        → contains x (stage_ids dag) ≡ true
        → open_in x order dag.edges ≡ 0
        → contains x (order ++ queue) ≡ true
    closed : (x : String) → contains x (order ++ queue) ≡ true → open_in x order dag.edges ≡ 0
    unique : Unique (order ++ queue)
    known : (x : String) → contains x (order ++ queue) ≡ true → contains x (stage_ids dag) ≡ true
    ordered : IsOrdered dag.predecessors [] order
    counted : length order + unprocessed order (stage_ids dag) ≡ length (stage_ids dag)

  module _ (d : String → ℤ) (c : String) (queue order : List String)
      (i : Inv d (c ∷ queue) order) where
    fresh : contains c order ≡ false
    fresh = Unique-middle c order queue i.unique

    open_after : String → ℕ
    open_after x = open_in x (order ++ c ∷ []) dag.edges

    split : (x : String) → open_in x order dag.edges ≡ open_after x + count x (dag.successors c)
    unfolding open_after
    split x = rw (g.successors_eq c) (open_in-snoc x c order dag.edges fresh)

    counters : (x : String) → d x ≡ pos (open_after x + count x (dag.successors c))
    counters x = i.degree x ∙ ap pos (split x)

    queue_after : List String
    queue_after = (release (dag.successors c) d queue).1

    queued :
        (x : String)
        → contains x queue_after
          ≡ (contains x queue || (contains x (dag.successors c) && eqb (open_after x) 0))
    unfolding queue_after
    queued x = release_queue open_after x (dag.successors c) d queue counters

    mem_before :
        (x : String)
        → contains x (order ++ c ∷ queue) ≡ (contains x order || (x == c || contains x queue))
    unfolding contains
    mem_before x = contains-append x order (c ∷ queue)

    mem_after :
        (x : String)
        → contains x ((order ++ c ∷ []) ++ queue_after)
          ≡ (contains x order || (x == c || contains x queue_after))
    unfolding contains
    mem_after x =
        ground
          (arith, contains-append x (order ++ c ∷ []) queue_after, contains-append x order (c ∷ []))

    reached_after :
        (x : String)
        → contains x (stage_ids dag) ≡ true
        → open_after x ≡ 0
        → contains x ((order ++ c ∷ []) ++ queue_after) ≡ true
    reached_after x m z = ground (
      arith,
      mem_after x,
      mem_before x,
      queued x,
      split x,
      i.reached x m,
      contains-count x (dag.successors c),
    )

    closed_after :
        (x : String) → contains x ((order ++ c ∷ []) ++ queue_after) ≡ true → open_after x ≡ 0
    closed_after x m = ground (arith, mem_after x, mem_before x, queued x, split x, i.closed x)

    not_met :
        (y : String)
        → contains y (dag.successors c) ≡ true
        → contains y ((order ++ c ∷ []) ++ queue) ≡ false
    unfolding contains
    not_met y m = ground (
      arith,
      contains-append y (order ++ c ∷ []) queue,
      contains-append y order (c ∷ []),
      mem_before y,
      i.closed y,
      split y,
      contains-count y (dag.successors c),
    )

    unique_after : Unique ((order ++ c ∷ []) ++ queue_after)
    unfolding queue_after
    unique_after =
        release-Unique open_after (order ++ c ∷ []) (dag.successors c) d queue counters
          (subst Unique (sym (append_assoc order (c ∷ []) queue)) i.unique) not_met

    known_after :
        (x : String)
        → contains x ((order ++ c ∷ []) ++ queue_after) ≡ true
        → contains x (stage_ids dag) ≡ true
    known_after x m =
        ground (arith, mem_after x, mem_before x, queued x, i.known x, g.known_target c x)

    IsOrdered-after : IsOrdered dag.predecessors [] (order ++ c ∷ [])
    unfolding contains
    IsOrdered-after = IsOrdered-snoc dag.predecessors [] order c i.ordered (λ p m.
        done_of_open_in c p order dag.edges (i.closed c (ground (arith, mem_before c)))
          (subst (λ l. contains p l ≡ true) (g.predecessors_eq c) m))

    c_known : contains c (stage_ids dag) ≡ true
    c_known = i.known c (ground (arith, mem_before c))

    counted_after :
        suc (unprocessed (order ++ c ∷ []) (stage_ids dag)) ≡ unprocessed order (stage_ids dag)
    counted_after = sym (unprocessed-snoc c order (stage_ids dag) g.unique c_known fresh)

    Inv-next : Inv (release (dag.successors c) d queue).0 queue_after (order ++ c ∷ [])
    unfolding open_after
    Inv-next = record {
      degree = λ x. release_degree x (open_after x) (dag.successors c) d queue (counters x);
      reached = reached_after;
      closed = closed_after;
      unique = unique_after;
      known = known_after;
      ordered = IsOrdered-after;
      counted = omega (arith, i.counted, counted_after, length-append order (c ∷ []));
    }

  -- The loop runs to its end on the fuel given.
  kahn_total :
      (fuel : ℕ) (d : String → ℤ) (queue order : List String)
      → Inv d queue order
      → unprocessed order (stage_ids dag) < fuel
      → (d' : String → ℤ) × (final : List String) × (kahn dag.successors fuel d queue order
          ≡ some final)
        × Inv d' [] final
  unfolding kahn queue_after
  kahn_total zero d queue order i m = absurd (omega arith)
  kahn_total (suc fuel) d [] order i m = (d, order, refl, i)
  kahn_total (suc fuel) d (c ∷ queue) order i m =
      kahn_total fuel (release (dag.successors c) d queue).0 (queue_after d c queue order i)
        (order ++ c ∷ []) (Inv-next d c queue order i)
        (omega (arith, counted_after d c queue order i))

  -- With an empty queue every stage is in the order: induction on the ranks.
  all_processed :
      (d : String → ℤ) (order : List String)
      → Inv d [] order
      → (n : ℕ) (x : String) → g.rank x < n
      → contains x (stage_ids dag) ≡ true
      → contains x order ≡ true
  all_processed d order i zero x r m = absurd (omega arith)
  all_processed d order i (suc n) x r m =
      subst (λ l. contains x l ≡ true) (append-nil order)
        (i.reached x m (
          open_in_of_done x order dag.edges λ p h.
            let e : contains x (dag.successors p) ≡ true =
              rw (g.successors_eq p, ← contains-origins p x dag.edges) h in
            all_processed d order i n p (omega (arith, g.ranked p x e)) (g.known_source p x e)))

  start : (x : String) → in_degrees dag.edges (λ x. pos 0) x ≡ pos (open_in x [] dag.edges)
  start x = ground (arith, in_degrees-open_in x dag.edges (λ x. pos 0) 0 refl)

  initial :
      Inv
        (in_degrees dag.edges (λ x. pos 0))
        (filter (λ sid. is_zero (in_degrees dag.edges (λ x. pos 0) sid)) (stage_ids dag))
        []
  initial = record {
    degree = λ x. ground (arith, start x);
    reached = λ x m z. ground (
      arith,
      start x,
      contains-filter (λ sid. is_zero (in_degrees dag.edges (λ x. pos 0) sid)) x (stage_ids dag),
    );
    closed = λ x m. ground (
      arith,
      start x,
      contains-filter (λ sid. is_zero (in_degrees dag.edges (λ x. pos 0) sid)) x (stage_ids dag),
    );
    unique =
        filter-Unique (λ sid. is_zero (in_degrees dag.edges (λ x. pos 0) sid)) (stage_ids dag)
          g.unique;
    known = λ x m. ground (
      arith,
      contains-filter (λ sid. is_zero (in_degrees dag.edges (λ x. pos 0) sid)) x (stage_ids dag),
    );
    ordered = tt;
    counted = omega (arith, unprocessed_nil (stage_ids dag));
  }

  abbrev first_queue : List String
  first_queue = filter (λ sid. is_zero (in_degrees dag.edges (λ x. pos 0) sid)) (stage_ids dag)

  module _ (d : String → ℤ) (final : List String) (i : Inv d [] final) where
    complete : (x : String) → contains x (stage_ids dag) ≡ true → contains x final ≡ true
    complete x m = all_processed d final i (suc (g.rank x)) x (omega arith) m

    sound : (x : String) → contains x final ≡ true → contains x (stage_ids dag) ≡ true
    sound x =
        subst (λ l. contains x l ≡ true → contains x (stage_ids dag) ≡ true) (append-nil final)
          (i.known x)

    length-final : length final ≡ length (stage_ids dag)
    length-final = omega (arith, i.counted, unprocessed_all final (stage_ids dag) complete)

    sorts :
        kahn dag.successors
            (suc (length (stage_ids dag)))
            (in_degrees dag.edges (λ x. pos 0))
            first_queue
            []
          ≡ some final
        → topological_sort dag ≡ ok final
    unfolding topological_sort
    sorts ends = rw (ends, topological_sort) (ground (arith, length-final))

  -- Condition: the graph is well formed. Then the sort returns a list without repetition that has
  -- exactly the stages of the graph, each behind all of its predecessors; it does not raise and its
  -- fuel is enough.
  pub topological_sort-IsOrdered :
      (order : List String) × (topological_sort dag ≡ ok order)
      × Unique order
      × ((x : String) → contains x order ≡ contains x (stage_ids dag))
      × IsOrdered dag.predecessors [] order
  topological_sort-IsOrdered =
      let (d, final, ends, i) =
        kahn_total (suc (length (stage_ids dag))) _ first_queue [] initial
          (omega (arith, unprocessed_nil (stage_ids dag))) in
      (
        final,
        sorts d final i ends,
        subst Unique (append-nil final) i.unique,
        λ x. ground (arith, complete d final i x, sound d final i x),
        i.ordered,
      )

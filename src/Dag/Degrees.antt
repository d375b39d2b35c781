-- ===== src/Dag/Degrees.antt =====
-- src/pipeline/dag.py, `topological_sort`: what the counters hold. `open_in x done es` counts the
-- edges to `x` whose source is not done.
use neural_pubsub_experiment.Prelude.{
  ℕ, suc, ◌+◌, ◌≡◌, refl, String, true, false, List, [], ◌∷◌, ◌++◌, ◌==◌, ◌||◌, ◌&&◌, eqb, not,
  if◌then◌else◌, contains, contains-append, arith, Unique, Unique-snoc, append_assoc, subst,
  Bool-cases, inl, inr,
}
use neural_pubsub_experiment.Prelude.Int.{ℤ, pos, is_zero}
use neural_pubsub_experiment.Dag.{Edge}
use neural_pubsub_experiment.Dag.Graph.{targets, origins}
use neural_pubsub_experiment.Dag.Kahn.{raise_at, lower_at, in_degrees, release}

unfoldable pub count : String → List String → ℕ
count x [] = 0
count x (y ∷ ys) = if x == y then suc (count x ys) else count x ys

unfoldable pub open_in : String → List String → List Edge → ℕ
open_in x done [] = 0
open_in x done (e ∷ es) =
    if e.target_id == x
    then if contains e.source_id done then open_in x done es else suc (open_in x done es)
    else open_in x done es

pub contains-count : (x : String) (ys : List String) → contains x ys ≡ not (eqb (count x ys) 0)
unfolding count contains
contains-count x [] = refl
contains-count x (y ∷ ys) = ground (arith, contains-count x ys)

pub in_degrees-open_in :
    (x : String) (es : List Edge) (d : String → ℤ) (n : ℕ)
    → d x ≡ pos n
    → in_degrees es d x ≡ pos (n + open_in x [] es)
unfolding in_degrees raise_at open_in contains
in_degrees-open_in x [] d n h = ground arith
in_degrees-open_in x (e ∷ es) d n h = ground (
  arith,
  in_degrees-open_in x es (raise_at d e.target_id) n,
  in_degrees-open_in x es (raise_at d e.target_id) (suc n),
)

pub open_in-snoc :
    (x c : String) (done : List String) (es : List Edge)
    → contains c done ≡ false
    → open_in x done es ≡ open_in x (done ++ c ∷ []) es + count x (targets c es)
unfolding open_in count targets contains
open_in-snoc x c done [] h = ground arith
open_in-snoc x c done (e ∷ es) h =
    ground (arith, contains-append e.source_id done (c ∷ []), open_in-snoc x c done es h)

-- The sources of the edges to `x` are all done exactly when nothing is open.
pub done_of_open_in :
    (x p : String) (done : List String) (es : List Edge)
    → open_in x done es ≡ 0
    → contains p (origins x es) ≡ true
    → contains p done ≡ true
unfolding open_in origins contains
done_of_open_in x p done [] z h = cc
done_of_open_in x p done (e ∷ es) z h = ground (arith, done_of_open_in x p done es)

pub open_in_of_done :
    (x : String) (done : List String) (es : List Edge)
    → ((p : String) → contains p (origins x es) ≡ true → contains p done ≡ true)
    → open_in x done es ≡ 0
unfolding open_in origins contains
open_in_of_done x done [] h = refl
open_in_of_done x done (e ∷ es) h =
    let rest : (p : String) → contains p (origins x es) ≡ true → contains p done ≡ true =
      λ p m. h p (ground arith) in
    ground (arith, h e.source_id, open_in_of_done x done es rest)

pub release_degree :
    (x : String) (n : ℕ) (ss : List String) (d : String → ℤ) (q : List String)
    → d x ≡ pos (n + count x ss)
    → (release ss d q).0 x ≡ pos n
unfolding release count lower_at
release_degree x n [] d q h = ground arith
release_degree x n (s ∷ ss) d q h = ground (
  arith,
  release_degree x n ss (lower_at d s) (if is_zero (lower_at d s s) then q ++ s ∷ [] else q),
)

-- Where the loop takes each counter down to `N`, the stages that it appends are those that it meets
-- with nothing left open, each once.
pub release_queue :
    (N : String → ℕ) (x : String) (ss : List String) (d : String → ℤ) (q : List String)
    → ((y : String) → d y ≡ pos (N y + count y ss))
    → contains x (release ss d q).1 ≡ (contains x q || (contains x ss && eqb (N x) 0))
unfolding release count lower_at contains
release_queue N x [] d q h = ground arith
release_queue N x (s ∷ ss) d q h = ground (
  arith,
  h s,
  contains-count x ss,
  contains-count s ss,
  contains-append x q (s ∷ []),
  release_queue N x ss (lower_at d s) (if is_zero (lower_at d s s) then q ++ s ∷ [] else q)
      (λ y. ground (arith, h y)),
)

pub release-Unique :
    (N : String → ℕ) (pre : List String) (ss : List String) (d : String → ℤ) (q : List String)
    → ((y : String) → d y ≡ pos (N y + count y ss))
    → Unique (pre ++ q)
    → ((y : String) → contains y ss ≡ true → contains y (pre ++ q) ≡ false)
    → Unique (pre ++ (release ss d q).1)
unfolding release count lower_at contains
release-Unique N pre [] d q h u fresh = u
release-Unique N pre (s ∷ ss) d q h u fresh = elim (Bool-cases (is_zero (lower_at d s s))) [
  | inl z ↦
      rw (z, release)
        (release-Unique N pre ss (lower_at d s) (q ++ s ∷ []) (λ y. ground (arith, h y))
          (subst Unique (append_assoc pre q (s ∷ []))
            (Unique-snoc (pre ++ q) s u (fresh s (ground arith))))
          (λ y m. ground (
            arith,
            h s,
            fresh y,
            contains-count s ss,
            contains-append y pre (q ++ s ∷ []),
            contains-append y q (s ∷ []),
            contains-append y pre q,
          )))
  | inr z ↦
      rw (z, release)
        (release-Unique N pre ss (lower_at d s) q (λ y. ground (arith, h y)) u
          (λ y m. fresh y (ground arith)))
]

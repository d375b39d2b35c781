-- ===== src/Dag/Reach.antt =====
-- src/pipeline/dag.py, `_can_reach`: the search decides reachability, and its rounds suffice.
use neural_pubsub_experiment.Prelude.{
  ℕ, zero, suc, ◌+◌, ◌≤◌, ◌<◌, ◌≡◌, refl, ◌⊎◌, inl, inr, ◌↔◌, String, Bool, true, false, Option,
  none, some, List, [], ◌∷◌, ◌++◌, ◌==◌, ◌||◌, ◌&&◌, not, if◌then◌else◌, contains, length, arith,
  Bool-cases, contains-append, length-append, ≢→==_false, str_dec,
}
use neural_pubsub_experiment.Dag.{PipelineDag, stage_ids, can_reach}
use neural_pubsub_experiment.Dag.Search.{scan, bfs, can_reach_from}

-- There is a path of edges from the first name to the second.
pub data Reaches (succs : String → List String) (from : String) : String → Type 0 where
  here : Reaches succs from from
  step : {b c : String} → Reaches succs from b → contains c (succs b) ≡ true → Reaches succs from c

-- How many of the names are not visited yet.
missing : List String → List String → ℕ
missing visited [] = 0
missing visited (k ∷ ks) = (if contains k visited then 0 else 1) + missing visited ks

missing-cons-le : (s : String) (v ks : List String) → missing (s ∷ v) ks ≤ missing v ks
unfolding missing contains
missing-cons-le s v [] = omega arith
missing-cons-le s v (k ∷ ks) = ground (arith, missing-cons-le s v ks)

missing-cons-lt :
    (s : String) (v ks : List String)
    → contains s ks ≡ true
    → contains s v ≡ false
    → missing (s ∷ v) ks < missing v ks
unfolding missing contains
missing-cons-lt s v [] h n = cc
missing-cons-lt s v (k ∷ ks) h n = ground (arith, missing-cons-lt s v ks, missing-cons-le s v ks)

missing-le : (v ks : List String) → missing v ks ≤ length ks
unfolding missing
missing-le v [] = omega arith
missing-le v (k ∷ ks) = ground (arith, missing-le v ks)

module _ (to : String) where
  -- The target is among the successors if the scan finds it.
  scan-eq-none : (ss v q : List String) → scan to ss v q ≡ none → contains to ss ≡ true
  unfolding scan contains
  scan-eq-none [] v q h = cc
  scan-eq-none (s ∷ ss) v q h = ground (
    arith,
    scan-eq-none ss (if contains s v then v else s ∷ v) (if contains s v then q else q ++ s ∷ []),
  )

  scan_misses :
      (ss v q v' q' : List String) → scan to ss v q ≡ some (v', q') → contains to ss ≡ false
  unfolding scan contains
  scan_misses [] v q v' q' h = refl
  scan_misses (s ∷ ss) v q v' q' h = ground (
    arith,
    scan_misses ss (if contains s v then v else s ∷ v) (if contains s v then q else q ++ s ∷ []) v'
        q',
  )

  scan_visited :
      (x : String) (ss v q v' q' : List String)
      → scan to ss v q ≡ some (v', q')
      → contains x v' ≡ (contains x v || contains x ss)
  unfolding scan contains
  scan_visited x [] v q v' q' h = ground arith
  scan_visited x (s ∷ ss) v q v' q' h = ground (
    arith,
    scan_visited x ss (if contains s v then v else s ∷ v) (if contains s v then q else q ++ s ∷ [])
        v' q',
  )

  scan_queue :
      (x : String) (ss v q v' q' : List String)
      → scan to ss v q ≡ some (v', q')
      → contains x q' ≡ (contains x q || (contains x ss && not (contains x v)))
  unfolding scan contains
  scan_queue x [] v q v' q' h = ground arith
  scan_queue x (s ∷ ss) v q v' q' h = ground (
    arith,
    contains-append x q (s ∷ []),
    scan_queue x ss (if contains s v then v else s ∷ v) (if contains s v then q else q ++ s ∷ []) v'
        q',
  )

  scan_measure :
      (ks ss v q v' q' : List String)
      → ((x : String) → contains x ss ≡ true → contains x ks ≡ true)
      → scan to ss v q ≡ some (v', q')
      → missing v' ks + length q' ≤ missing v ks + length q
  unfolding scan contains
  scan_measure ks [] v q v' q' sub h = ground arith
  scan_measure ks (s ∷ ss) v q v' q' sub h =
      let later : (x : String) → contains x ss ≡ true → contains x ks ≡ true =
        λ x m. sub x (ground arith) in
      ground (
        arith,
        length-append q (s ∷ []),
        missing-cons-lt s v ks,
        sub s,
        scan_measure ks ss (if contains s v then v else s ∷ v)
            (if contains s v then q else q ++ s ∷ []) v' q' later,
      )

contains-ne :
    (y z : String) (xs : List String)
    → contains y xs ≡ true
    → contains z xs ≡ false
    → (y == z) ≡ false
contains-ne y z xs m n = elim (str_dec y z) [ yes e ↦ cc (rw e at m) | no d ↦ ≢→==_false y z d ]

-- Split on the scan, keeping its equation.
Scan-cases :
    (r : Option (List String × List String))
    → (r ≡ none) ⊎ ((v : List String) × (q : List String) × (r ≡ some (v, q)))
Scan-cases none = inl refl
Scan-cases (some (v, q)) = inr (v, q, refl)

module _ (succs : String → List String) (to : String) where
  -- The fuel suffices when every successor is a known name.
  bfs_total :
      (ks : List String)
      → ((x y : String) → contains y (succs x) ≡ true → contains y ks ≡ true)
      → (fuel : ℕ) (v q : List String) → missing v ks + length q < fuel
      → (b : Bool) × (bfs succs to fuel v q ≡ some b)
  unfolding bfs
  bfs_total ks closed zero v q m = absurd (omega arith)
  bfs_total ks closed (suc fuel) v [] m = (false, refl)
  bfs_total ks closed (suc fuel) v (c ∷ q) m = elim (Scan-cases (scan to (succs c) v q)) [
    | inl hit ↦ (true, rw (hit, bfs))
    | inr (v', q', next) ↦
        rw (next, bfs)
          (bfs_total ks closed fuel v' q'
            (omega (arith, scan_measure to ks (succs c) v q v' q' (closed c) next)))
  ]

  -- A positive answer is right, whatever the fuel.
  bfs_sound :
      (from : String) (fuel : ℕ) (v q : List String)
      → ((x : String) → contains x q ≡ true → Reaches succs from x)
      → bfs succs to fuel v q ≡ some true
      → Reaches succs from to
  unfolding bfs contains
  bfs_sound from zero v q h e = cc
  bfs_sound from (suc fuel) v [] h e = cc
  bfs_sound from (suc fuel) v (c ∷ q) h e = elim (Scan-cases (scan to (succs c) v q)) [
    | inl hit ↦ Reaches.step (h c (ground arith)) (scan-eq-none to (succs c) v q hit)
    | inr (v', q', next) ↦
        bfs_sound from fuel v' q'
          (λ x m. elim (Bool-cases (contains x q)) [
            | inl old ↦ h x (ground arith)
            | inr new ↦
                Reaches.step (h c (ground arith))
                  (ground (arith, scan_queue to x (succs c) v q v' q' next))
          ])
          (rw (next, bfs) at e)
  ]

  -- What is visited and not queued has only visited successors, none of them the target.
  abbrev Closed : String → List String → List String → Type 0
  Closed from v q =
      (x : String)
      → (x == from || contains x v) ≡ true
      → contains x q ≡ false
      → (y : String) → contains y (succs x) ≡ true
      → (contains y v ≡ true) × ((y == to) ≡ false)

  Closed-next :
      (from c : String) (v q v' q' : List String)
      → Closed from v (c ∷ q)
      → scan to (succs c) v q ≡ some (v', q')
      → Closed from v' q'
  unfolding contains
  Closed-next from c v q v' q' h next x seen idle y m =
      let visited = scan_visited to y (succs c) v q v' q' next in
      let misses = scan_misses to (succs c) v q v' q' next in
      elim (str_dec x c) [
        | yes e ↦
            let m' : contains y (succs c) ≡ true = rw e at m in
            (ground arith, contains-ne y to (succs c) m' misses)
        | no n ↦
            let old : (contains y v ≡ true) × ((y == to) ≡ false) =
              h x
                (ground (
                  arith,
                  scan_visited to x (succs c) v q v' q' next,
                  scan_queue to x (succs c) v q v' q' next,
                ))
                (ground (arith, scan_queue to x (succs c) v q v' q' next)) y m in
            (ground arith, old.1)
      ]

  bfs_complete :
      (from : String) (fuel : ℕ) (v q : List String)
      → Closed from v q
      → bfs succs to fuel v q ≡ some false
      → (v' : List String) × Closed from v' []
  unfolding bfs
  bfs_complete from zero v q h e = cc
  bfs_complete from (suc fuel) v [] h e = (v, h)
  bfs_complete from (suc fuel) v (c ∷ q) h e = elim (Scan-cases (scan to (succs c) v q)) [
    | inl hit ↦ cc (rw (hit, bfs) at e)
    | inr (v', q', next) ↦
        bfs_complete from fuel v' q' (Closed-next from c v q v' q' h next) (rw (next, bfs) at e)
  ]

module _ (ks : List String) (succs : String → List String) where
  -- No edge leaves the known names.
  abbrev pub IsClosed : Type 0
  IsClosed = (x y : String) → contains y (succs x) ≡ true → contains y ks ≡ true

  Closed-reach :
      (from to : String) (v : List String)
      → Closed succs to from v []
      → (x : String) → Reaches succs from x
      → (x == from || contains x v) ≡ true
  unfolding contains
  Closed-reach from to v h x Reaches.here = ground arith
  Closed-reach from to v h x (Reaches.step {b = b} r m) =
      ground (arith, h b (Closed-reach from to v h b r) refl x m)

  Closed-misses :
      (from to : String) (v : List String)
      → Closed succs to from v []
      → (from == to) ≡ false
      → Reaches succs from to
      → ⊥
  unfolding contains
  Closed-misses from to v h ne Reaches.here = ground arith
  Closed-misses from to v h ne (Reaches.step {b = b} r m) =
      ground (arith, h b (Closed-reach from to v h b r) refl to m)

  start : (from : String) → missing [] ks + length (from ∷ []) < suc (suc (length ks))
  start from = omega (arith, missing-le [] ks)

  starts : (from x : String) → contains x (from ∷ []) ≡ true → Reaches succs from x
  unfolding contains
  starts from x m = elim (str_dec x from) [ yes e ↦ rw e Reaches.here | no n ↦ ground arith ]

  starts_Closed : (from to : String) → Closed succs to from [] (from ∷ [])
  unfolding contains
  starts_Closed from to x seen idle y m = ground arith

  can_reach_from_sound :
      IsClosed → (from to : String) → can_reach_from ks succs from to ≡ true → Reaches succs from to
  unfolding can_reach_from
  can_reach_from_sound closed from to h =
      let (answer, ends) =
        bfs_total succs to ks closed (suc (suc (length ks))) [] (from ∷ []) (start from) in
      elim (str_dec from to) [
        | yes e ↦ rw e Reaches.here
        | no n ↦
            bfs_sound succs to from (suc (suc (length ks))) [] (from ∷ []) (starts from)
              (ground arith)
      ]

  can_reach_from_complete :
      IsClosed → (from to : String) → Reaches succs from to → can_reach_from ks succs from to ≡ true
  unfolding can_reach_from
  can_reach_from_complete closed from to h = elim (Bool-cases (can_reach_from ks succs from to)) [
    | inl hit ↦ hit
    | inr miss ↦
        let (answer, ends) =
          bfs_total succs to ks closed (suc (suc (length ks))) [] (from ∷ []) (start from) in
        let (v, shut) =
          bfs_complete succs to from (suc (suc (length ks))) [] (from ∷ []) (starts_Closed from to)
            (ground arith) in
        absurd (Closed-misses from to v shut (ground arith) h)
  ]

module _ (dag : PipelineDag) (closed : IsClosed (stage_ids dag) dag.successors) where
  pub can_reach_sound :
      (from to : String) → can_reach dag from to ≡ true → Reaches dag.successors from to
  unfolding can_reach
  can_reach_sound = can_reach_from_sound (stage_ids dag) dag.successors closed

  pub can_reach_complete :
      (from to : String) → Reaches dag.successors from to → can_reach dag from to ≡ true
  unfolding can_reach
  can_reach_complete = can_reach_from_complete (stage_ids dag) dag.successors closed

  -- Condition: all successors are stages of the graph. The search answers true exactly when there
  -- is a path of successors, so its fuel is enough.
  pub can_reach_iff :
      (from to : String) → (can_reach dag from to ≡ true) ↔ Reaches dag.successors from to
  can_reach_iff from to = (can_reach_sound from to, can_reach_complete from to)

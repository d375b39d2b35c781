-- ===== src/Placement/Traced.antt =====
-- src/broker/placement.py, `_dp_placement`: the nodes that the traced choices name suit their stages.
use neural_pubsub_experiment.Prelude.{
  ℕ, zero, suc, ◌+◌, ◌≡◌, refl, sym, subst, subst₂, ap, ◌∙◌, ◌⊎◌, inl, inr, String, Bool, true,
  false, Option, none, some, List, [], ◌∷◌, if◌then◌else◌, if_ind, All, Dict, lookup, insert, Error,
  Result, ok, raised, >>=-eq-ok, ok-injective, Bool-cases, Option-cases, str_dec, arith,
}
use neural_pubsub_experiment.Dag.{Stage, Edge, PipelineDag, get_stage, get_edge}
use neural_pubsub_experiment.Placement.{
  ExecutionUnit, NetworkTopology, GovernancePolicy, get_node, latency, is_node_feasible_simple,
}
use neural_pubsub_experiment.Placement.Float.{Floats}
use neural_pubsub_experiment.Placement.Fits.{Suits}
use neural_pubsub_experiment.Placement.Dp.{
  Cell, Table, nth, for_choices, keep_better, child_step, best_child, row_of, fill_preds, fill_cell,
  fill_row, fill_table, best_position, at_position, trace, trace_sink,
}

-- What is used of the order of floats: `inf` is not below itself, and `<` is transitive.
pub record IsOrdered (F : Floats) : Type 0 where
  pub top : F.less F.infinite F.infinite ≡ false
  pub trans : (a b c : F.Float) → F.less a b ≡ true → F.less b c ≡ true → F.less a c ≡ true

-- An old entry keeps its place, and the entry of the key is the new one.
pub All-insert {ℓ κ} :
    {V : Type ℓ} (P : (String × V) → Type κ) (k : String) (v : V) (d : Dict V)
    → All P d
    → P (k, v)
    → All P (insert k v d)
unfolding insert
All-insert P k v [] a h = (h, tt)
All-insert P k v ((j, w) ∷ d) a h =
    elim (str_dec j k)
      as (λ c.
        All P (
          if (elim c [ yes _ ↦ true | no _ ↦ false ]) then (j, v) ∷ d else (j, w) ∷ insert k v d)) [
            | yes same ↦ (subst (λ i. P (i, v)) (sym same) h, a.1)
            | no other ↦ (a.0, All-insert P k v d a.1 h)
          ]

module _ {ℓ κ} {S : Type ℓ} (P : S → Type κ) (C : (String × ℕ) → Type 0)
    (f : String → ℕ → S → Result S)
    (keep : (a : String) (j : ℕ) (s s' : S) → C (a, j) → P s → f a j s ≡ ok s' → P s') where
  for_choices_ind :
      (cs : List (String × ℕ)) (s s' : S) → All C cs → P s → for_choices f cs s ≡ ok s' → P s'
  unfolding for_choices
  for_choices_ind [] s s' a p h = subst P (ok-injective h) p
  for_choices_ind ((b, j) ∷ cs) s s' a p h =
      let (s1, one, rest) = >>=-eq-ok (f b j s) (λ s1. for_choices f cs s1) h in
      for_choices_ind cs s1 s' a.1 (keep b j s s1 a.0 p one) rest

module _ (F : Floats) (dag : PipelineDag) (topology : NetworkTopology)
    (governance : GovernancePolicy) where
  abbrev Finite : F.Float → Type 0
  Finite cost = F.less cost F.infinite ≡ true

  -- The cell of the table that a choice names, with a finite cost.
  record FiniteAt (table : Table F.Float) (choice : String × ℕ) : Type 0 where
    row : List (Cell F.Float)
    cell : Cell F.Float
    has_row : lookup choice.0 table ≡ some row
    has_cell : nth choice.1 row ≡ some cell
    finite : Finite cell.cost

  -- A cell of finite cost is for a node that suits the stage, and its choices are finite.
  abbrev IsRow : String → List ExecutionUnit → List (Cell F.Float) → Table F.Float → Type 0
  IsRow sid nodes row older =
      (ni : ℕ) (n : ExecutionUnit) (cell : Cell F.Float)
      → nth ni nodes ≡ some n
      → nth ni row ≡ some cell
      → Finite cell.cost
      → Suits dag topology governance (sid, n.node_id) × All (FiniteAt older) cell.choices

  abbrev IsTable : Table F.Float → Type 0
  IsTable [] = Unit
  IsTable ((sid, row) ∷ older) = IsRow sid topology.nodes row older × IsTable older

  IsRow-cons :
      (older : Table F.Float) (sid : String) (n : ExecutionUnit) (ns : List ExecutionUnit)
      (cell : Cell F.Float) (cells : List (Cell F.Float))
      → (Finite cell.cost
          → Suits dag topology governance (sid, n.node_id) × All (FiniteAt older) cell.choices)
      → IsRow sid ns cells older
      → IsRow sid (n ∷ ns) (cell ∷ cells) older
  unfolding nth
  IsRow-cons older sid n ns cell cells here later zero m c hn hc fin =
      let same : n ≡ m = cc in
      let at : cell ≡ c = cc in
      subst₂
        (λ (m : ExecutionUnit) (c : Cell F.Float).
          Suits dag topology governance (sid, m.node_id) × All (FiniteAt older) c.choices)
        same at (here (subst (λ (c : Cell F.Float). Finite c.cost) (sym at) fin))
  IsRow-cons older sid n ns cell cells here later (suc ni) m c hn hc fin = later ni m c hn hc fin

  module _ (alpha beta gamma : F.Float) where
    -- The position that a loop over cells has found among them, if it is not an old one.
    abbrev Found : List (Cell F.Float) → ℕ → Option ℕ → ℕ → Type 0
    Found cells start old j =
        (old ≡ some j)
        ⊎ ((k : ℕ) × (cell : Cell F.Float) × (j ≡ start + k)
            × (nth k cells ≡ some cell)
            × Finite cell.cost)

    Found-later :
        (cell : Cell F.Float) (cells : List (Cell F.Float)) (start j : ℕ) (old old' : Option ℕ)
        → (old' ≡ old) ⊎ ((old' ≡ some start) × Finite cell.cost)
        → Found cells (suc start) old' j
        → Found (cell ∷ cells) start old j
    unfolding nth
    Found-later cell cells start j old old' same (inr (k, c, e, h, fin)) =
        inr (suc k, c, omega (arith, e), h, fin)
    Found-later cell cells start j old old' (inl same) (inl e) = inl (sym same ∙ e)
    Found-later cell cells start j old old' (inr (here, fin)) (inl e) =
        let at : start ≡ j = cc in inr (0, cell, omega (arith, at), refl, fin)

    keep_better-Found :
        (ruled_out : Bool) (cost : F.Float) (mi : ℕ) (best : F.Float × Option ℕ)
        → let best' =
            keep_better F dag topology governance alpha beta gamma ruled_out cost mi best in
          (best'.1 ≡ best.1) ⊎ (best'.1 ≡ some mi)
    unfolding keep_better
    keep_better-Found ruled_out cost mi best =
        if_ind (λ (p : F.Float × Option ℕ). (p.1 ≡ best.1) ⊎ (p.1 ≡ some mi)) ruled_out
          (λ _. inl refl)
          (λ _.
            if_ind (λ (p : F.Float × Option ℕ). (p.1 ≡ best.1) ⊎ (p.1 ≡ some mi))
              (F.less cost best.0) (λ _. inr refl) (λ _. inl refl))

    child_step-Found :
        (node : ExecutionUnit) (edge : Option Edge) (mi : ℕ) (m : ExecutionUnit)
        (cell : Cell F.Float) (best best' : F.Float × Option ℕ)
        → child_step F dag topology governance alpha beta gamma node edge mi m cell best ≡ ok best'
        → (best'.1 ≡ best.1) ⊎ ((best'.1 ≡ some mi) × Finite cell.cost)
    unfolding child_step
    child_step-Found node edge mi m cell best best' h =
        elim (Bool-cases (F.less cell.cost F.infinite)) [
          | inr far ↦ inl (ap (λ p. p.1) (sym (ok-injective (rw (far, child_step) at h))))
          | inl fin ↦
              let (lat, _, h1) =
                >>=-eq-ok (latency topology node.node_id m.node_id) _ (rw (fin, child_step) at h) in
              let (pred_node, _, h2) = >>=-eq-ok (get_node topology m.node_id) _ h1 in
              subst
                (λ (p : F.Float × Option ℕ). (p.1 ≡ best.1) ⊎ ((p.1 ≡ some mi) × Finite cell.cost))
                (ok-injective h2)
                (elim (keep_better-Found _ _ mi best) [
                  | inl same ↦ inl same
                  | inr here ↦ inr (here, fin)
                ])
        ]

    best_child-Found :
        (node : ExecutionUnit) (edge : Option Edge) (ms : List ExecutionUnit)
        (cells : List (Cell F.Float)) (mi j : ℕ) (best : F.Float × Option ℕ) (cost : F.Float)
        → best_child F dag topology governance alpha beta gamma node edge ms cells mi best
          ≡ ok (cost, some j)
        → Found cells mi best.1 j
    unfolding best_child
    best_child-Found node edge [] cells mi j best cost h = inl (ap (λ p. p.1) (ok-injective h))
    best_child-Found node edge (m ∷ ms) [] mi j best cost h = inl (ap (λ p. p.1) (ok-injective h))
    best_child-Found node edge (m ∷ ms) (cell ∷ cells) mi j best cost h =
        let (best', one, rest) =
          >>=-eq-ok (child_step F dag topology governance alpha beta gamma node edge mi m cell best)
            _ h in
        Found-later cell cells mi j best.1 best'.1
          (child_step-Found node edge mi m cell best best' one)
          (best_child-Found node edge ms cells (suc mi) j best' cost rest)

    row_of-lookup :
        (table : Table F.Float) (sid : String) (row : List (Cell F.Float))
        → row_of F dag topology governance alpha beta gamma table sid ≡ ok row
        → lookup sid table ≡ some row
    unfolding row_of
    row_of-lookup table sid row h = ground arith

    FiniteAt-Found :
        (table : Table F.Float) (pred : String) (row : List (Cell F.Float)) (mi : ℕ)
        → lookup pred table ≡ some row
        → Found row 0 none mi
        → FiniteAt table (pred, mi)
    FiniteAt-Found table pred row mi has (inl e) = cc
    FiniteAt-Found table pred row mi has (inr (k, c, e, at, fin)) = record {
      row = row;
      cell = c;
      has_row = has;
      has_cell = subst (λ i. nth i row ≡ some c) (omega (arith, e)) at;
      finite = fin;
    }

    fill_preds-FiniteAt :
        (table : Table F.Float) (sid : String) (node : ExecutionUnit) (preds : List String)
        (cell cell' : Cell F.Float)
        → All (FiniteAt table) cell.choices
        → fill_preds F dag topology governance alpha beta gamma table sid node preds cell ≡ ok cell'
        → All (FiniteAt table) cell'.choices
    unfolding fill_preds
    fill_preds-FiniteAt table sid node [] cell cell' a h =
        subst (λ (c : Cell F.Float). All (FiniteAt table) c.choices) (ok-injective h) a
    fill_preds-FiniteAt table sid node (pred ∷ preds) cell cell' a h =
        let (row, has, h1) =
          >>=-eq-ok (row_of F dag topology governance alpha beta gamma table pred) _ h in
        let ((cost, best), chosen, h2) =
          >>=-eq-ok
            (best_child F dag topology governance alpha beta gamma node (get_edge dag pred sid)
              topology.nodes row 0 (F.infinite, none))
            _ h1 in
        elim (Option-cases best) [
          | inl nowhere ↦
              subst (λ (c : Cell F.Float). All (FiniteAt table) c.choices)
                (ok-injective (rw nowhere at h2)) tt
          | inr (mi, there) ↦
              let chosen' =
                subst
                  (λ b.
                    best_child F dag topology governance alpha beta gamma node
                      (get_edge dag pred sid) topology.nodes row 0 (F.infinite, none)
                    ≡ ok (cost, b))
                  there chosen in
              let next : Cell F.Float = record {
                cost = F.plus cell.cost cost;
                choices = insert pred mi cell.choices;
              } in
              fill_preds-FiniteAt table sid node preds next cell'
                (All-insert (FiniteAt table) pred mi cell.choices a (
                  FiniteAt-Found table pred row mi (row_of-lookup table pred row has) (
                    best_child-Found node (get_edge dag pred sid) topology.nodes row 0 mi
                      (F.infinite, none) cost chosen')))
                (rw there at h2)
        ]

    fill_cell-Suits :
        F.less F.infinite F.infinite ≡ false
        → (table : Table F.Float) (sid : String) (stage : Stage) (n : ExecutionUnit)
          (cell : Cell F.Float)
        → get_stage dag sid ≡ ok stage
        → fill_cell F dag topology governance alpha beta gamma table sid stage n ≡ ok cell
        → Finite cell.cost
        → Suits dag topology governance (sid, n.node_id) × All (FiniteAt table) cell.choices
    unfolding fill_cell
    fill_cell-Suits top table sid stage n cell got h fin =
        let (node, has, h1) = >>=-eq-ok (get_node topology n.node_id) _ h in
        elim (Bool-cases (is_node_feasible_simple stage node governance)) [
          | inl simple ↦ (
            (stage, node, got, has, simple),
            fill_preds-FiniteAt table sid node (dag.predecessors sid) _ cell tt (rw simple at h1),
          )
          | inr bad ↦
              let e = ok-injective (rw bad at h1) in
              let fin' : Finite F.infinite =
                subst (λ (c : Cell F.Float). Finite c.cost) (sym e) fin in
              cc (top, fin')
        ]

    fill_row-IsRow :
        F.less F.infinite F.infinite ≡ false
        → (table : Table F.Float) (sid : String) (stage : Stage) (ns : List ExecutionUnit)
          (row : List (Cell F.Float))
        → get_stage dag sid ≡ ok stage
        → fill_row F dag topology governance alpha beta gamma table sid stage ns ≡ ok row
        → IsRow sid ns row table
    unfolding fill_row nth
    fill_row-IsRow top table sid stage [] row got h = λ ni n cell hn hc fin. cc
    fill_row-IsRow top table sid stage (n ∷ ns) row got h =
        let (cell, one, h1) =
          >>=-eq-ok (fill_cell F dag topology governance alpha beta gamma table sid stage n) _ h in
        let (cells, rest, h2) =
          >>=-eq-ok (fill_row F dag topology governance alpha beta gamma table sid stage ns) _ h1 in
        subst (λ r. IsRow sid (n ∷ ns) r table) (ok-injective h2)
          (IsRow-cons table sid n ns cell cells (fill_cell-Suits top table sid stage n cell got one)
            (fill_row-IsRow top table sid stage ns cells got rest))

    fill_table-IsTable :
        F.less F.infinite F.infinite ≡ false
        → (topo : List String) (table final : Table F.Float) → IsTable table
        → fill_table F dag topology governance alpha beta gamma topo table ≡ ok final
        → IsTable final
    unfolding fill_table
    fill_table-IsTable top [] table final a h = subst IsTable (ok-injective h) a
    fill_table-IsTable top (sid ∷ topo) table final a h =
        let (stage, got, h1) = >>=-eq-ok (get_stage dag sid) _ h in
        let (row, filled, h2) =
          >>=-eq-ok
            (fill_row F dag topology governance alpha beta gamma table sid stage topology.nodes) _
            h1 in
        fill_table-IsTable top topo ((sid, row) ∷ table) final
          (fill_row-IsRow top table sid stage topology.nodes row got filled, a) h2

    trace-Suits :
        (table : Table F.Float) (sid : String) (ni : ℕ) (p p' : Dict String)
        → IsTable table
        → FiniteAt table (sid, ni)
        → All (Suits dag topology governance) p
        → trace F dag topology governance alpha beta gamma table sid ni p ≡ ok p'
        → All (Suits dag topology governance) p'
    unfolding trace lookup
    trace-Suits [] sid ni p p' table at a = λ h. cc
    trace-Suits ((s, row) ∷ older) sid ni p p' (isrow, table) at a =
        elim (str_dec s sid)
          as (λ c.
            (elim c [
              | no _ ↦ trace F dag topology governance alpha beta gamma older sid ni p
              | yes _ ↦ elim (at_position F dag topology governance alpha beta gamma row ni) [
                | none ↦ raised Error.no_node
                | some (n, cell) ↦
                    for_choices (trace F dag topology governance alpha beta gamma older)
                      cell.choices (insert sid n.node_id p)
              ]
            ])
              ≡ ok p'
            → All (Suits dag topology governance) p') [
              | no other ↦ λ h.
                  let at' : FiniteAt older (sid, ni) = record {
                    row = at.row;
                    cell = at.cell;
                    has_row = (let e = at.has_row in ground arith);
                    has_cell = at.has_cell;
                    finite = at.finite;
                  } in
                  trace-Suits older sid ni p p' table at' a h
              | yes same ↦ λ h.
                  let this : row ≡ at.row = (let e = at.has_row in ground arith) in
                  let has : nth ni row ≡ some at.cell =
                    subst (λ r. nth ni r ≡ some at.cell) (sym this) at.has_cell in
                  elim (Option-cases (nth ni topology.nodes)) [
                    | inl beyond ↦ cc (rw beyond at h)
                    | inr (n, there) ↦
                        let (suits, choices) = isrow ni n at.cell there has at.finite in
                        for_choices_ind (All (Suits dag topology governance)) (FiniteAt older)
                          (trace F dag topology governance alpha beta gamma older)
                          (λ b j s s' c q e. trace-Suits older b j s s' table c q e) at.cell.choices
                          (insert sid n.node_id p) p' choices
                          (All-insert (Suits dag topology governance) sid n.node_id p a
                            (subst (λ k. Suits dag topology governance (k, n.node_id)) same suits))
                          (rw (there, has) at h)
                  ]
            ]

    best_position-Found :
        IsOrdered F
        → (cells : List (Cell F.Float)) (ni j : ℕ) (cost : F.Float) (best : Option ℕ)
        → (cost ≡ F.infinite) ⊎ Finite cost
        → best_position F dag topology governance alpha beta gamma cells ni cost best ≡ some j
        → Found cells ni best j
    unfolding best_position
    best_position-Found ord [] ni j cost best below h = inl h
    best_position-Found ord (cell ∷ cells) ni j cost best below h =
        elim (Bool-cases (F.less cell.cost cost)) [
          | inr more ↦
              Found-later cell cells ni j best best (inl refl)
                (best_position-Found ord cells (suc ni) j cost best below (rw more at h))
          | inl less ↦
              let fin : Finite cell.cost = elim below [
                | inl top ↦ subst (λ c. F.less cell.cost c ≡ true) top less
                | inr fin ↦ ord.trans cell.cost cost F.infinite less fin
              ] in
              Found-later cell cells ni j best (some ni) (inr (refl, fin)) (
                best_position-Found ord cells (suc ni) j cell.cost (some ni) (inr fin)
                  (rw less at h))
        ]

    pub trace_sink-Suits :
        IsOrdered F
        → (topo sinks : List String) (table : Table F.Float) (p : Dict String)
        → fill_table F dag topology governance alpha beta gamma topo [] ≡ ok table
        → trace_sink F dag topology governance alpha beta gamma table sinks ≡ ok p
        → All (Suits dag topology governance) p
    unfolding trace_sink
    trace_sink-Suits ord topo [] table p filled h = cc
    trace_sink-Suits ord topo (sink ∷ rest) table p filled h =
        let (row, has, h1) =
          >>=-eq-ok (row_of F dag topology governance alpha beta gamma table sink) _ h in
        elim (Option-cases
          (best_position F dag topology governance alpha beta gamma row 0 F.infinite none)) [
            | inl nowhere ↦ cc (rw nowhere at h1)
            | inr (ni, found) ↦
                trace-Suits table sink ni [] p (fill_table-IsTable ord.top topo [] table tt filled)
                  (FiniteAt-Found table sink row ni (row_of-lookup table sink row has)
                    (best_position-Found ord row 0 ni F.infinite none (inl refl) found))
                  tt (rw found at h1)
          ]

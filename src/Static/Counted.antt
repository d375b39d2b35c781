-- ===== src/Static/Counted.antt =====
-- src/broker/static_broker.py, `_health_check_loop`: which workers are found dead.
use neural_pubsub_experiment.Prelude.{
  ℕ, ◌+◌, ◌≤◌, ◌≡◌, refl, sym, ap, subst, ◌↔◌, ◌⊎◌, inl, inr, String, Bool, true, false, ◌||◌, List,
  [], ◌∷◌, ◌++◌, ◌==◌, leb, if◌then◌else◌, contains, contains-append, lookup, get_or, lookup-insert,
  lookup-remove, Bool-cases, arith,
}
use neural_pubsub_experiment.Static.Recovery.{Probed, count_probe, count_probes}

-- The failures of a worker in a row at the end of the results, if there were `so_far` before them.
unfoldable pub streak_after : String → ℕ → List (String × Bool) → ℕ
streak_after node_id so_far [] = so_far
streak_after node_id so_far ((m, healthy) ∷ results) =
    streak_after node_id (if m == node_id then if healthy then 0 else so_far + 1 else so_far)
      results

abbrev pub counted : String → Probed → ℕ
counted node_id p = get_or node_id 0 p.failures

abbrev pub nothing_yet : Probed
nothing_yet = record { failures = []; dead_workers = [] }

module _ (max_failures : ℕ) where
  -- The worker fails a probe with which its failures in a row reach the limit.
  pub record FailsTooOften (node_id : String) (so_far : ℕ) (results : List (String × Bool))
      : Type 0 where
    pub before : List (String × Bool)
    pub after : List (String × Bool)
    pub split : results ≡ before ++ (node_id, false) ∷ after
    pub reached : max_failures ≤ streak_after node_id so_far before + 1

  counted-count_probe :
      (node_id m : String) (healthy : Bool) (p : Probed)
      → counted node_id (count_probe max_failures m healthy p)
        ≡ (if m == node_id then if healthy then 0 else counted node_id p + 1 else counted node_id p)
  unfolding count_probe
  counted-count_probe node_id m true p = ground (arith, lookup-remove m node_id p.failures)
  counted-count_probe node_id m false p =
      ground (arith, lookup-insert m node_id (get_or m 0 p.failures + 1) p.failures)

  contains-count_probe :
      (node_id m : String) (healthy : Bool) (p : Probed)
      → contains node_id (count_probe max_failures m healthy p).dead_workers ≡ (
          if healthy
          then contains node_id p.dead_workers
          else if leb max_failures (counted m p + 1)
          then contains node_id p.dead_workers || node_id == m
          else contains node_id p.dead_workers)
  unfolding count_probe contains
  contains-count_probe node_id m true p = refl
  contains-count_probe node_id m false p =
      ground (arith, contains-append node_id p.dead_workers (m ∷ []))

  FailsTooOften-later :
      (node_id m : String) (healthy : Bool) (p : Probed) (results : List (String × Bool))
      → FailsTooOften node_id (counted node_id (count_probe max_failures m healthy p)) results
      → FailsTooOften node_id (counted node_id p) ((m, healthy) ∷ results)
  unfolding streak_after
  FailsTooOften-later node_id m healthy p results f = record {
    before = (m, healthy) ∷ f.before;
    after = f.after;
    split = ap (λ rs. (m, healthy) ∷ rs) f.split;
    reached =
        subst (λ n. max_failures ≤ streak_after node_id n f.before + 1)
          (counted-count_probe node_id m healthy p) f.reached;
  }

  newly_dead :
      (node_id m : String) (healthy : Bool) (p : Probed)
      → contains node_id (count_probe max_failures m healthy p).dead_workers ≡ true
      → (contains node_id p.dead_workers ≡ true)
        ⊎ ((m ≡ node_id) × (healthy ≡ false) × (max_failures ≤ counted node_id p + 1))
  newly_dead node_id m healthy p h = elim (Bool-cases (contains node_id p.dead_workers)) [
    | inl old ↦ inl old
    | inr new ↦ inr (ground (arith, contains-count_probe node_id m healthy p))
  ]

  count_probes-dead :
      (node_id : String) (results : List (String × Bool)) (p : Probed)
      → contains node_id (count_probes max_failures results p).dead_workers ≡ true
      → (contains node_id p.dead_workers ≡ true) ⊎ FailsTooOften node_id (counted node_id p) results
  unfolding count_probes streak_after
  count_probes-dead node_id [] p h = inl h
  count_probes-dead node_id ((m, healthy) ∷ results) p h =
      elim (count_probes-dead node_id results (count_probe max_failures m healthy p) h) [
        | inr f ↦ inr (FailsTooOften-later node_id m healthy p results f)
        | inl there ↦ elim (newly_dead node_id m healthy p there) [
          | inl old ↦ inl old
          | inr (same, ill, reached) ↦ inr (record {
            before = [];
            after = results;
            split = ap (λ (e : String × Bool). e ∷ results) (λ i. (same i, ill i));
            reached = reached;
          })
        ]
      ]

  count_probes_dead_stays :
      (node_id : String) (results : List (String × Bool)) (p : Probed)
      → contains node_id p.dead_workers ≡ true
      → contains node_id (count_probes max_failures results p).dead_workers ≡ true
  unfolding count_probes
  count_probes_dead_stays node_id [] p h = h
  count_probes_dead_stays node_id ((m, healthy) ∷ results) p h =
      count_probes_dead_stays node_id results (count_probe max_failures m healthy p)
        (ground (arith, contains-count_probe node_id m healthy p))

  count_probes_reached :
      (node_id : String) (before after : List (String × Bool)) (p : Probed)
      → max_failures ≤ streak_after node_id (counted node_id p) before + 1
      → contains node_id
          (count_probes max_failures (before ++ (node_id, false) ∷ after) p).dead_workers
        ≡ true
  unfolding count_probes streak_after
  count_probes_reached node_id [] after p le =
      count_probes_dead_stays node_id after (count_probe max_failures node_id false p)
        (ground (arith, contains-count_probe node_id node_id false p))
  count_probes_reached node_id ((m, healthy) ∷ before) after p le =
      count_probes_reached node_id before after (count_probe max_failures m healthy p) (
        subst (λ n. max_failures ≤ streak_after node_id n before + 1)
          (sym (counted-count_probe node_id m healthy p)) le)

  -- A worker is found dead over a list of probe results, starting from no failures, exactly if at
  -- one of its failed probes its failures in a row reach the limit.
  pub count_probes_iff :
      (node_id : String) (results : List (String × Bool))
      → (contains node_id (count_probes max_failures results nothing_yet).dead_workers ≡ true)
        ↔ FailsTooOften node_id 0 results
  unfolding contains lookup
  count_probes_iff node_id results = (
    λ h. elim (count_probes-dead node_id results nothing_yet h) [ inl old ↦ cc | inr f ↦ f ],
    λ f.
        subst
          (λ rs. contains node_id (count_probes max_failures rs nothing_yet).dead_workers ≡ true)
          (sym f.split) (count_probes_reached node_id f.before f.after nothing_yet f.reached),
  )

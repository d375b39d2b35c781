-- ===== src/Prelude/Pairs.antt =====
-- Python's `dict` whose keys are pairs of texts.
use Prim.Native.String.{String}
use mathlib.Core.Path.{◌≡◌, refl, sym, subst, ◌∙◌}
use mathlib.Core.Bool.{Bool, true, ◌&&◌}
use mathlib.Core.Option.{Option, none, some}
use mathlib.Core.List.{List, [], ◌∷◌, ◌++◌, append-nil, append_assoc}
use native.Mathlib.Omega.{arith}
use neural_pubsub_experiment.Prelude.Tests.{◌==◌, str_dec, if◌then◌else◌}

abbrev pub Pairs {ℓ} : Type ℓ → Type ℓ
Pairs V = List ((String × String) × V)

-- (a, b) == (c, d)
abbrev pub same_pair : String × String → String × String → Bool
same_pair (a, b) (c, d) = a == c && b == d

module _ {ℓ} {V : Type ℓ} where
  -- d.get(k)
  unfoldable pub find : String × String → Pairs V → Option V
  find k [] = none
  find k ((j, v) ∷ d) = if same_pair j k then some v else find k d

  -- d[k] = v
  unfoldable pub assign : String × String → V → Pairs V → Pairs V
  assign k v [] = (k, v) ∷ []
  assign k v ((j, w) ∷ d) = if same_pair j k then (j, v) ∷ d else (j, w) ∷ assign k v d

  -- for k, v in e.items(): d[k] = v
  unfoldable pub assign_all : Pairs V → Pairs V → Pairs V
  assign_all [] d = d
  assign_all ((k, v) ∷ e) d = assign_all e (assign k v d)

  pub find-assign :
      (k j : String × String) (v : V) (d : Pairs V)
      → find j (assign k v d) ≡ (if same_pair k j then some v else find j d)
  unfolding find assign
  find-assign k j v [] = refl
  find-assign k j v ((i, w) ∷ d) = ground (
    arith,
    find-assign k j v d,
    str_dec k.0 j.0,
    str_dec k.1 j.1,
    str_dec i.0 k.0,
    str_dec i.1 k.1,
  )

pub same_pair→≡ : (j k : String × String) → same_pair j k ≡ true → j ≡ k
same_pair→≡ (a, b) (c, d) h = λ i. (first i, second i)
  where
    first : a ≡ c
    first = ground arith

    second : b ≡ d
    second = ground arith

pub same_pair_refl : (k : String × String) → same_pair k k ≡ true
same_pair_refl (a, b) = ground arith

module _ {ℓ} {V : Type ℓ} where
  -- No key has two entries, as in every dictionary.
  abbrev pub Distinct : Pairs V → Type ℓ
  Distinct [] = Unit
  Distinct ((k, v) ∷ d) = (find k d ≡ none) × Distinct d

  find-append :
      (k : String × String) (d e : Pairs V)
      → find k (d ++ e) ≡ elim (find k d) [ none ↦ find k e | some v ↦ some v ]
  unfolding find
  find-append k [] e = refl
  find-append k ((j, v) ∷ d) e = ground (arith, find-append k d e)

  Distinct-absent :
      (k : String × String) (v : V) (d e : Pairs V) → Distinct (d ++ (k, v) ∷ e) → find k d ≡ none
  unfolding find
  Distinct-absent k v [] e u = refl
  Distinct-absent k v ((j, w) ∷ d) e (n, u) = ground (
    arith,
    find-append j d ((k, v) ∷ e),
    Distinct-absent k v d e u,
    str_dec j.0 k.0,
    str_dec j.1 k.1,
  )

  assign_new :
      (k : String × String) (v : V) (d : Pairs V)
      → find k d ≡ none
      → assign k v d ≡ d ++ (k, v) ∷ []
  unfolding find assign
  assign_new k v [] h = refl
  assign_new k v ((j, w) ∷ d) h = ground (arith, assign_new k v d)

  -- A dictionary that is written entry by entry is the list of the entries.
  pub assign_all-append : (e d : Pairs V) → Distinct (d ++ e) → assign_all e d ≡ d ++ e
  unfolding assign_all
  assign_all-append [] d u = ground (arith, append-nil d)
  assign_all-append ((k, v) ∷ e) d u = rw (assign_new k v d (Distinct-absent k v d e u)) (
      assign_all-append e (d ++ (k, v) ∷ [])
        (subst Distinct (sym (append_assoc d ((k, v) ∷ []) e)) u)
      ∙ append_assoc d ((k, v) ∷ []) e)

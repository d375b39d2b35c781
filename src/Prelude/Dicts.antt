-- ===== src/Prelude/Dicts.antt =====
-- Python's `dict` with text keys: entries in the order of insertion, as iteration sees them.
use Prim.Native.String.{String}
use mathlib.Core.Path.{◌≡◌, refl, ap}
use mathlib.Core.Bool.{true, false, ◌||◌}
use mathlib.Core.Option.{Option, none, some}
use mathlib.Core.List.{List, [], ◌∷◌, ◌++◌}
use native.Mathlib.Omega.{arith}
use neural_pubsub_experiment.Prelude.Tests.{◌==◌, str_dec, if◌then◌else◌}
use neural_pubsub_experiment.Prelude.Lists.{contains}

abbrev pub Dict {ℓ} : Type ℓ → Type ℓ
Dict V = List (String × V)

module _ {ℓ} {V : Type ℓ} where
  -- d.get(k)
  unfoldable pub lookup : String → Dict V → Option V
  lookup k [] = none
  lookup k ((j, v) ∷ d) = if j == k then some v else lookup k d

  -- d[k] = v: an old key keeps its place, a new one goes to the end.
  unfoldable pub insert : String → V → Dict V → Dict V
  insert k v [] = (k, v) ∷ []
  insert k v ((j, w) ∷ d) = if j == k then (j, v) ∷ d else (j, w) ∷ insert k v d

  -- d.get(k, default)
  abbrev pub get_or : String → V → Dict V → V
  get_or k v d = elim (lookup k d) [ none ↦ v | some w ↦ w ]

  -- d.pop(k, None)
  unfoldable pub remove : String → Dict V → Dict V
  remove k [] = []
  remove k ((j, v) ∷ d) = let rest = remove k d in if j == k then rest else (j, v) ∷ rest

  abbrev pub keys : Dict V → List String
  keys [] = []
  keys ((j, v) ∷ d) = j ∷ keys d

  abbrev pub values : Dict V → List V
  values [] = []
  values ((j, v) ∷ d) = v ∷ values d

  pub lookup-insert :
      (k j : String) (v : V) (d : Dict V)
      → lookup j (insert k v d) ≡ (if k == j then some v else lookup j d)
  unfolding lookup insert
  lookup-insert k j v [] = refl
  lookup-insert k j v ((i, w) ∷ d) = ground (arith, lookup-insert k j v d)

  pub contains-keys-insert :
      (k j : String) (v : V) (d : Dict V)
      → contains j (keys (insert k v d)) ≡ (j == k || contains j (keys d))
  unfolding insert contains
  contains-keys-insert k j v [] = refl
  contains-keys-insert k j v ((i, w) ∷ d) = ground (arith, contains-keys-insert k j v d)

  pub keys-insert_new :
      (k : String) (v : V) (d : Dict V)
      → contains k (keys d) ≡ false
      → keys (insert k v d) ≡ keys d ++ k ∷ []
  unfolding insert contains
  keys-insert_new k v [] h = refl
  keys-insert_new k v ((i, w) ∷ d) h = ground (arith, keys-insert_new k v d)

  pub lookup-eq-none : (k : String) (d : Dict V) → contains k (keys d) ≡ false → lookup k d ≡ none
  unfolding lookup contains
  lookup-eq-none k [] h = refl
  lookup-eq-none k ((i, w) ∷ d) h = ground (arith, lookup-eq-none k d)

  pub lookup_of_contains :
      (k : String) (d : Dict V) → contains k (keys d) ≡ true → (v : V) × (lookup k d ≡ some v)
  unfolding lookup contains
  lookup_of_contains k [] h = cc
  lookup_of_contains k ((i, w) ∷ d) h = elim (str_dec i k) [
    | yes e ↦ (w, ground arith)
    | no n ↦ let (v, found) = lookup_of_contains k d (ground arith) in (v, ground arith)
  ]

  pub insert_new :
      (k : String) (v : V) (d : Dict V)
      → contains k (keys d) ≡ false
      → insert k v d ≡ d ++ (k, v) ∷ []
  unfolding insert contains
  insert_new k v [] h = refl
  insert_new k v ((i, w) ∷ d) h = ground (arith, insert_new k v d)

  pub lookup-insert_self : (k : String) (v : V) (d : Dict V) → lookup k (insert k v d) ≡ some v
  lookup-insert_self k v d = ground (arith, lookup-insert k k v d)

  pub lookup-remove :
      (k j : String) (d : Dict V) → lookup j (remove k d) ≡ (if k == j then none else lookup j d)
  unfolding lookup remove
  lookup-remove k j [] = ground arith
  lookup-remove k j ((i, w) ∷ d) = ground (arith, lookup-remove k j d)

  pub keys-append : (d e : Dict V) → keys (d ++ e) ≡ keys d ++ keys e
  keys-append [] e = refl
  keys-append ((k, v) ∷ d) e = ap (λ ks. k ∷ ks) (keys-append d e)

-- ===== src/Prelude/Outcome.antt =====
-- Code that may raise. An exception is a value of `Error`, one for each `raise` that is modelled,
-- and for the lookups that raise `KeyError`; the texts of the messages are not modelled.
use mathlib.Core.Path.{◌≡◌, refl}
use mathlib.Core.Logic.{◌⊎◌, inl, inr}

pub data Error : Type 0 where
  -- ValueError and RuntimeError of the graph of a pipeline
  stage_exists source_missing target_missing would_cycle not_sorted : Error
  -- KeyError
  no_stage no_node no_latency not_placed : Error
  -- RuntimeError of the placement
  no_feasible_node no_local_workers : Error
  -- ValueError of the merge of shards and of the integrator, RuntimeError of the round robin
  node_collision unknown_pipeline no_workers no_eligible_worker : Error
  -- KeyError of a reader of snapshots
  no_key : Error

pub data Result {ℓ} (A : Type ℓ) : Type ℓ where
  ok : A → Result A
  raised : Error → Result A

infixl 5 ◌>>=◌
abbrev pub ◌>>=◌ {ℓ κ} : {A : Type ℓ} {B : Type κ} → Result A → (A → Result B) → Result B
ok a >>= f = f a
raised e >>= f = raised e

module _ {ℓ κ} {Value : Type ℓ} {Answer : Type κ} where
  -- What the first step of a chain gave, and the rest of the chain made of it.
  abbrev pub Steps : Result Value → (Value → Result Answer) → Answer → Type (ℓ ⊔ κ)
  Steps first later answer = (value : Value) × (first ≡ ok value) × (later value ≡ ok answer)

  -- The parts of a chain that ends well.
  pub >>=-eq-ok :
      (first : Result Value) (later : Value → Result Answer) {answer : Answer}
      → (first >>= later) ≡ ok answer
      → Steps first later answer
  >>=-eq-ok (raised error) later ends = cc
  >>=-eq-ok (ok value) later ends = (value, refl, ends)

pub ok-injective {ℓ} : {A : Type ℓ} {a b : A} → ok a ≡ ok b → a ≡ b
ok-injective h = cc

pub Result-cases {ℓ} :
    {A : Type ℓ} (r : Result A) → ((e : Error) × (r ≡ raised e)) ⊎ ((a : A) × (r ≡ ok a))
Result-cases (raised e) = inl (e, refl)
Result-cases (ok a) = inr (a, refl)

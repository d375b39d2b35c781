-- ===== src/Placement/Float.antt =====
-- What the cost functions use of Python's floats: constants, arithmetic and the test `<`. Floating
-- point arithmetic is not code of the repository, so it is a parameter of the model.
use neural_pubsub_experiment.Prelude.{ℕ, Bool}
use neural_pubsub_experiment.Prelude.Int.{ℤ}

pub record Floats : Type 1 where
  pub Float : Type 0
  -- a count, or an amount of the model's unit, as a float
  pub of_ℕ : ℕ → Float
  pub plus : Float → Float → Float
  pub times : Float → Float → Float
  pub over : Float → Float → Float
  pub maximum : Float → Float → Float
  -- 1e-12 and inf
  pub tiny : Float
  pub infinite : Float
  pub less : Float → Float → Bool
  -- max(0.0, load + delta), of amounts of the model's unit, with the rounding of the sum
  pub shifted : ℕ → ℤ → ℕ

-- ===== src/Prelude/Cost.antt =====
-- A price or a cost: a Python float that is never negative and may be `inf`.
use Prim.Native.Nat.{ℕ, ◌+◌, ◌-◌}
use mathlib.Core.Bool.{Bool, true, false}
use neural_pubsub_experiment.Prelude.Tests.{ltb, leb}

pub data Cost : Type 0 where
  fin : ℕ → Cost
  inf : Cost

abbrev pub add_cost : Cost → Cost → Cost
add_cost (fin a) (fin b) = fin (a + b)
add_cost (fin a) inf = inf
add_cost inf b = inf

-- a - b where `b` is a part of the sum `a`, and is finite.
abbrev pub sub_cost : Cost → Cost → Cost
sub_cost (fin a) (fin b) = fin (a - b)
sub_cost (fin a) inf = fin 0
sub_cost inf b = inf

abbrev pub lt_cost : Cost → Cost → Bool
lt_cost (fin a) (fin b) = ltb a b
lt_cost (fin a) inf = true
lt_cost inf b = false

abbrev pub le_cost : Cost → Cost → Bool
le_cost (fin a) (fin b) = leb a b
le_cost a inf = true
le_cost inf (fin b) = false

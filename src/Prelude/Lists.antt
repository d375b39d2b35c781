-- ===== src/Prelude/Lists.antt =====
-- Lists measured by native numbers, and lists of texts used as sets.
use Prim.Native.Nat.{ℕ, suc, ◌+◌}
use Prim.Native.String.{String}
use mathlib.Core.Path.{◌≡◌, refl, ap}
use mathlib.Core.Logic.{inl, inr}
use mathlib.Core.Bool.{Bool, true, false, ◌||◌, ◌&&◌}
use mathlib.Core.List.{List, [], ◌∷◌, ◌++◌}
use native.Mathlib.Omega.{arith}
use neural_pubsub_experiment.Prelude.Tests.{◌==◌, str_dec, Bool-cases, if◌then◌else◌}

module _ {ℓ} {A : Type ℓ} where
  abbrev pub length : List A → ℕ
  length [] = 0
  length (x ∷ xs) = suc (length xs)

  pub length-append : (xs ys : List A) → length (xs ++ ys) ≡ length xs + length ys
  length-append [] ys = omega arith
  length-append (x ∷ xs) ys = omega (arith, length-append xs ys)

  abbrev pub All {κ} : (A → Type κ) → List A → Type κ
  All P [] = Unit
  All P (x ∷ xs) = P x × All P xs

  -- [x for x in xs if p(x)]
  abbrev pub filter : (A → Bool) → List A → List A
  filter p [] = []
  filter p (x ∷ xs) = let rest = filter p xs in if p x then x ∷ rest else rest

  abbrev pub all : (A → Bool) → List A → Bool
  all p [] = true
  all p (x ∷ xs) = p x && all p xs

  abbrev pub any : (A → Bool) → List A → Bool
  any p [] = false
  any p (x ∷ xs) = p x || any p xs

-- `x in xs`, for a list or a set of texts.
unfoldable pub contains : String → List String → Bool
contains x [] = false
contains x (y ∷ ys) = x == y || contains x ys

pub contains-append :
    (x : String) (xs ys : List String) → contains x (xs ++ ys) ≡ (contains x xs || contains x ys)
unfolding contains
contains-append x [] ys = refl
contains-append x (y ∷ xs) ys = ground (arith, contains-append x xs ys)

-- No text stands twice.
abbrev pub Unique : List String → Type 0
Unique [] = Unit
Unique (x ∷ xs) = (contains x xs ≡ false) × Unique xs

pub Unique-snoc :
    (xs : List String) (x : String) → Unique xs → contains x xs ≡ false → Unique (xs ++ x ∷ [])
unfolding contains
Unique-snoc [] x u h = (refl, tt)
Unique-snoc (y ∷ xs) x (n, u) h =
    (ground (arith, contains-append y xs (x ∷ [])), Unique-snoc xs x u (ground arith))

pub contains-filter :
    (p : String → Bool) (x : String) (xs : List String)
    → contains x (filter p xs) ≡ (contains x xs && p x)
unfolding contains
contains-filter p x [] = refl
contains-filter p x (y ∷ ys) = elim (str_dec x y) [
  | yes e ↦ ground (arith, contains-filter p x ys, ap p e)
  | no n ↦ ground (arith, contains-filter p x ys)
]

pub filter-Unique : (p : String → Bool) (xs : List String) → Unique xs → Unique (filter p xs)
filter-Unique p [] u = tt
filter-Unique p (x ∷ xs) u = elim (Bool-cases (p x)) [
  | inl keep ↦ rw keep (ground (arith, contains-filter p x xs), filter-Unique p xs u.1)
  | inr skip ↦ rw skip (filter-Unique p xs u.1)
]

pub Unique-prefix : (xs ys : List String) → Unique (xs ++ ys) → Unique xs
Unique-prefix [] ys u = tt
Unique-prefix (x ∷ xs) ys (n, u) = (ground (arith, contains-append x xs ys), Unique-prefix xs ys u)

pub Unique-absent :
    (x : String) (xs ys : List String) → Unique (xs ++ x ∷ ys) → contains x xs ≡ false
unfolding contains
Unique-absent x [] ys u = refl
Unique-absent x (z ∷ zs) ys (n, u) =
    ground (arith, contains-append z zs (x ∷ ys), Unique-absent x zs ys u)

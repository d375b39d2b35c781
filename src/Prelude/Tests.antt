-- ===== src/Prelude/Tests.antt =====
-- Boolean tests on numbers and texts, and the conditional.
use Prim.Native.Nat.{ℕ, compare, Ordering}
use Prim.Native.String.{String}
use mathlib.Core.Path.{◌≡◌, refl}
use mathlib.Core.Logic.{◌⊎◌, inl, inr, ◌≢◌}
use mathlib.Core.Bool.{Bool, true, false}
use mathlib.Core.Option.{Option, none, some}
use text.Mathlib.Text.{◌==◌ as str_eq}
use text.Mathlib.TextEquality.{eq_iff}
use native.Mathlib.Omega.{arith}

-- These compute to `compare`, which the tactics read with no lemma listed.
abbrev pub ltb : ℕ → ℕ → Bool
ltb a b = elim (compare a b) [ Ordering.lt ↦ true | _ ↦ false ]

abbrev pub leb : ℕ → ℕ → Bool
leb a b = elim (compare a b) [ Ordering.gt ↦ false | _ ↦ true ]

abbrev pub eqb : ℕ → ℕ → Bool
eqb a b = elim (compare a b) [ Ordering.eq ↦ true | _ ↦ false ]

infix 1 if◌then◌else◌
abbrev pub if◌then◌else◌ {ℓ} : {A : Type ℓ} → Bool → A → A → A
if true then x else y = x
if false then x else y = y

pub Bool-cases : (b : Bool) → (b ≡ true) ⊎ (b ≡ false)
Bool-cases true = inl refl
Bool-cases false = inr refl

str_dec_from : (s t : String) → (b : Bool) → str_eq s t ≡ b → Dec (s ≡ t)
str_dec_from s t true e = yes ((eq_iff s t).0 e)
str_dec_from s t false e = no (λ p. absurd (ground (arith, (eq_iff s t).1 p)))

-- Equality of texts. Proofs keep it shut and split on it; tests unfold it.
unfoldable pub str_dec : (s t : String) → Dec (s ≡ t)
unfolding str_dec_from
str_dec s t = str_dec_from s t (str_eq s t) refl

infix 50 ◌==◌
abbrev pub ◌==◌ : String → String → Bool
s == t = elim (str_dec s t) [ yes _ ↦ true | no _ ↦ false ]

pub ==_refl : (s : String) → (s == s) ≡ true
==_refl s = ground arith

pub ==→≡ : (s t : String) → (s == t) ≡ true → s ≡ t
==→≡ s t h = ground arith

pub ≢→==_false : (s t : String) → s ≢ t → (s == t) ≡ false
≢→==_false s t h = ground arith

pub Option-cases {ℓ} : {A : Type ℓ} (o : Option A) → (o ≡ none) ⊎ ((a : A) × (o ≡ some a))
Option-cases none = inl refl
Option-cases (some a) = inr (a, refl)

-- A property of a conditional, by cases that know the test.
pub if_ind {ℓ κ} :
    {A : Type ℓ} (P : A → Type κ) (b : Bool) {x y : A}
    → (b ≡ true → P x)
    → (b ≡ false → P y)
    → P (if b then x else y)
if_ind P true f g = f refl
if_ind P false f g = g refl

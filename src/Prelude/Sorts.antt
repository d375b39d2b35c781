-- ===== src/Prelude/Sorts.antt =====
-- Python's `list.sort(key=…)`, which is stable, for keys that are amounts; and the items of a list.
use Prim.Native.Nat.{ℕ, suc, ◌+◌, ◌≤◌}
use mathlib.Core.Path.{◌≡◌, refl, subst, sym}
use mathlib.Core.Logic.{inl, inr}
use mathlib.Core.Bool.{Bool, true}
use mathlib.Core.List.{List, [], ◌∷◌, ◌++◌}
use native.Mathlib.Omega.{arith}
use neural_pubsub_experiment.Prelude.Tests.{ltb, Bool-cases, if_ind, if◌then◌else◌}
use neural_pubsub_experiment.Prelude.Lists.{All, length, filter}

-- The item stands in the list.
pub data Among {ℓ} {A : Type ℓ} (x : A) : List A → Type ℓ where
  first : {y : A} {ys : List A} → x ≡ y → Among x (y ∷ ys)
  later : {y : A} {ys : List A} → Among x ys → Among x (y ∷ ys)

module _ {ℓ} {A : Type ℓ} where
  pub All-Among {κ} : (P : A → Type κ) (xs : List A) (x : A) → All P xs → Among x xs → P x
  All-Among P [] x a m = elim m [ ]
  All-Among P (y ∷ ys) x a (first e) = subst P (sym e) a.0
  All-Among P (y ∷ ys) x a (later m) = All-Among P ys x a.1 m

  pub All-of_Among {κ} : (P : A → Type κ) (xs : List A) → ((x : A) → Among x xs → P x) → All P xs
  All-of_Among P [] h = tt
  All-of_Among P (x ∷ xs) h = (h x (first refl), All-of_Among P xs (λ y m. h y (later m)))

  pub All-map {κ κ'} :
      (P : A → Type κ) (Q : A → Type κ')
      → ((x : A) → P x → Q x)
      → (xs : List A) → All P xs
      → All Q xs
  All-map P Q f [] a = tt
  All-map P Q f (x ∷ xs) a = (f x a.0, All-map P Q f xs a.1)

  pub All-append {κ} : (P : A → Type κ) (xs ys : List A) → All P xs → All P ys → All P (xs ++ ys)
  All-append P [] ys a b = b
  All-append P (x ∷ xs) ys a b = (a.0, All-append P xs ys a.1 b)

  pub Among-append_left : (x : A) (xs ys : List A) → Among x xs → Among x (xs ++ ys)
  Among-append_left x [] ys m = elim m [ ]
  Among-append_left x (y ∷ xs) ys (first e) = first e
  Among-append_left x (y ∷ xs) ys (later m) = later (Among-append_left x xs ys m)

  pub Among-append_right : (x : A) (xs ys : List A) → Among x ys → Among x (xs ++ ys)
  Among-append_right x [] ys m = m
  Among-append_right x (y ∷ xs) ys m = later (Among-append_right x xs ys m)

  pub All-filter {κ} :
      (P : A → Type κ) (test : A → Bool) (xs : List A)
      → All P xs
      → All (λ x. P x × (test x ≡ true)) (filter test xs)
  All-filter P test [] a = tt
  All-filter P test (x ∷ xs) a = elim (Bool-cases (test x)) [
    | inl yes' ↦ rw yes' ((a.0, yes'), All-filter P test xs a.1)
    | inr no' ↦ rw no' (All-filter P test xs a.1)
  ]

  pub Among-filter :
      (test : A → Bool) (x : A) (xs : List A)
      → test x ≡ true
      → Among x xs
      → Among x (filter test xs)
  Among-filter test x [] h m = elim m [ ]
  Among-filter test x (y ∷ ys) h (first e) = rw (subst (λ z. test z ≡ true) e h) (first e)
  Among-filter test x (y ∷ ys) h (later m) = elim (Bool-cases (test y)) [
    | inl yes' ↦ rw yes' (later (Among-filter test x ys h m))
    | inr no' ↦ rw no' (Among-filter test x ys h m)
  ]

  -- How many items pass a test.
  unfoldable pub count_if : (A → Bool) → List A → ℕ
  count_if p [] = 0
  count_if p (x ∷ xs) = (if p x then 1 else 0) + count_if p xs

  module _ (less : A → A → Bool) where
    -- An item goes behind the items that it does not come before.
    unfoldable pub insert_with : A → List A → List A
    insert_with x [] = x ∷ []
    insert_with x (y ∷ ys) = if less x y then x ∷ y ∷ ys else y ∷ insert_with x ys

    unfoldable pub sort_onto : List A → List A → List A
    sort_onto [] sorted = sorted
    sort_onto (x ∷ xs) sorted = sort_onto xs (insert_with x sorted)

    -- xs.sort(), for the order `less`
    unfoldable pub sort_with : List A → List A
    unfolding sort_onto
    sort_with xs = sort_onto xs []

    All-insert_with {κ} :
        (P : A → Type κ) (x : A) (xs : List A) → P x → All P xs → All P (insert_with x xs)
    unfolding insert_with
    All-insert_with P x [] h a = (h, tt)
    All-insert_with P x (y ∷ ys) h a = elim (Bool-cases (less x y)) [
      | inl yes' ↦ rw yes' (h, a)
      | inr no' ↦ rw no' (a.0, All-insert_with P x ys h a.1)
    ]

    All-sort_onto {κ} :
        (P : A → Type κ) (xs acc : List A) → All P xs → All P acc → All P (sort_onto xs acc)
    unfolding sort_onto
    All-sort_onto P [] acc a b = b
    All-sort_onto P (x ∷ xs) acc a b =
        All-sort_onto P xs (insert_with x acc) a.1 (All-insert_with P x acc a.0 b)

    pub All-sort_with {κ} : (P : A → Type κ) (xs : List A) → All P xs → All P (sort_with xs)
    unfolding sort_with
    All-sort_with P xs a = All-sort_onto P xs [] a tt

    Among-insert_with : (x y : A) (ys : List A) → Among x (y ∷ ys) → Among x (insert_with y ys)
    unfolding insert_with
    Among-insert_with x y [] m = m
    Among-insert_with x y (z ∷ zs) m = elim (Bool-cases (less y z)) [
      | inl yes' ↦ rw yes' m
      | inr no' ↦ rw no' (elim m [
        | first e ↦ later (Among-insert_with x y zs (first e))
        | later m' ↦ elim m' [
          | first e ↦ first e
          | later m'' ↦ later (Among-insert_with x y zs (later m''))
        ]
      ])
    ]

    Among-sort_onto_old : (x : A) (xs acc : List A) → Among x acc → Among x (sort_onto xs acc)
    unfolding sort_onto
    Among-sort_onto_old x [] acc m = m
    Among-sort_onto_old x (y ∷ ys) acc m =
        Among-sort_onto_old x ys (insert_with y acc) (Among-insert_with x y acc (later m))

    Among-sort_onto : (x : A) (xs acc : List A) → Among x xs → Among x (sort_onto xs acc)
    unfolding sort_onto
    Among-sort_onto x [] acc m = elim m [ ]
    Among-sort_onto x (y ∷ ys) acc (first e) =
        Among-sort_onto_old x ys (insert_with y acc) (Among-insert_with x y acc (first e))
    Among-sort_onto x (y ∷ ys) acc (later m) = Among-sort_onto x ys (insert_with y acc) m

    -- Sorting loses no item.
    pub Among-sort_with : (x : A) (xs : List A) → Among x xs → Among x (sort_with xs)
    unfolding sort_with
    Among-sort_with x xs m = Among-sort_onto x xs [] m

    count_if-insert_with :
        (p : A → Bool) (x : A) (xs : List A) → count_if p (insert_with x xs) ≡ count_if p (x ∷ xs)
    unfolding count_if insert_with
    count_if-insert_with p x [] = refl
    count_if-insert_with p x (y ∷ ys) = ground (arith, count_if-insert_with p x ys)

    count_if-sort_onto :
        (p : A → Bool) (xs acc : List A)
        → count_if p (sort_onto xs acc) ≡ count_if p xs + count_if p acc
    unfolding count_if sort_onto
    count_if-sort_onto p [] acc = omega arith
    count_if-sort_onto p (x ∷ xs) acc =
        ground (arith, count_if-sort_onto p xs (insert_with x acc), count_if-insert_with p x acc)

    pub count_if-sort_with :
        (p : A → Bool) (xs : List A) → count_if p (sort_with xs) ≡ count_if p xs
    unfolding sort_with count_if
    count_if-sort_with p xs = omega (arith, count_if-sort_onto p xs [])

    length-insert_with : (x : A) (xs : List A) → length (insert_with x xs) ≡ suc (length xs)
    unfolding insert_with
    length-insert_with x [] = refl
    length-insert_with x (y ∷ ys) = ground (arith, length-insert_with x ys)

    length-sort_onto : (xs acc : List A) → length (sort_onto xs acc) ≡ length xs + length acc
    unfolding sort_onto
    length-sort_onto [] acc = omega arith
    length-sort_onto (x ∷ xs) acc =
        omega (arith, length-sort_onto xs (insert_with x acc), length-insert_with x acc)

    pub length-sort_with : (xs : List A) → length (sort_with xs) ≡ length xs
    unfolding sort_with
    length-sort_with xs = omega (arith, length-sort_onto xs [])

  module _ (key : A → ℕ) where
    abbrev pub by : A → A → Bool
    by x y = ltb (key x) (key y)

    -- xs.sort(key=key)
    abbrev pub sort_by : List A → List A
    sort_by xs = sort_with by xs

    -- No key is less than `low`.
    abbrev pub From : ℕ → List A → Type 0
    From low xs = All (λ x. low ≤ key x) xs

    abbrev pub Ascending : List A → Type 0
    Ascending [] = Unit
    Ascending (x ∷ xs) = From (key x) xs × Ascending xs

    From-weaken : (low high : ℕ) (xs : List A) → low ≤ high → From high xs → From low xs
    From-weaken low high [] h a = tt
    From-weaken low high (x ∷ xs) h a = (omega (arith, a.0), From-weaken low high xs h a.1)

    insert_with-Ascending : (x : A) (xs : List A) → Ascending xs → Ascending (insert_with by x xs)
    unfolding insert_with
    insert_with-Ascending x [] a = (tt, tt)
    insert_with-Ascending x (y ∷ ys) (low, a) = elim (Bool-cases (ltb (key x) (key y))) [
      | inl less ↦
          let le : key x ≤ key y = ground arith in
          rw less ((le, From-weaken (key x) (key y) ys le low), (low, a))
      | inr more ↦ rw more (
        All-insert_with by (λ z. key y ≤ key z) x ys (ground arith) low,
        insert_with-Ascending x ys a,
      )
    ]

    sort_onto-Ascending : (xs acc : List A) → Ascending acc → Ascending (sort_onto by xs acc)
    unfolding sort_onto
    sort_onto-Ascending [] acc a = a
    sort_onto-Ascending (x ∷ xs) acc a =
        sort_onto-Ascending xs (insert_with by x acc) (insert_with-Ascending x acc a)

    pub sort_by-Ascending : (xs : List A) → Ascending (sort_by xs)
    unfolding sort_with
    sort_by-Ascending xs = sort_onto-Ascending xs [] tt

    filter-From :
        (test : A → Bool) (low : ℕ) (xs : List A) → From low xs → From low (filter test xs)
    filter-From test low xs a =
        All-map (λ x. (low ≤ key x) × (test x ≡ true)) (λ x. low ≤ key x) (λ x p. p.0)
          (filter test xs) (All-filter (λ x. low ≤ key x) test xs a)

    pub filter-Ascending :
        (test : A → Bool) (xs : List A) → Ascending xs → Ascending (filter test xs)
    filter-Ascending test [] a = tt
    filter-Ascending test (x ∷ xs) (low, a) =
        let rest = filter-Ascending test xs a in
        if_ind Ascending (test x) (λ _. (filter-From test (key x) xs low, rest)) (λ _. rest)

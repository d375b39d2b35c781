-- ===== src/Sharded/Policies.antt =====
-- src/broker/sharded_oracle_broker.py, `merge_governance`: the strictest shard binds.
use neural_pubsub_experiment.Prelude.{
  ℕ, ◌≤◌, ◌≡◌, refl, sym, subst, ap, String, ◌||◌, Option, none, some, List, [], ◌∷◌, arith,
  if◌then◌else◌, contains, any, Bool-cases, Option-cases, inl, inr, ◌⊎◌, str_dec,
}
use neural_pubsub_experiment.Prelude.Pairs.{
  Pairs, same_pair, find, assign, find-assign, same_pair→≡, same_pair_refl,
}
use neural_pubsub_experiment.Prelude.Sorts.{Among, first, later}
use neural_pubsub_experiment.Sharded.{
  ShardPolicy, union, lowers, merge_trust, merge_policies, merge_governance,
}

-- There is a value, and it is at most n.
abbrev pub AtMost : Option ℕ → ℕ → Type 0
AtMost none n = ⊥
AtMost (some u) n = u ≤ n

abbrev lowered : String × String → ℕ → Pairs ℕ → Pairs ℕ
lowered j v m = if lowers v (find j m) then assign j v m else m

lowered-AtMost :
    (j k : String × String) (v n : ℕ) (m : Pairs ℕ)
    → AtMost (find k m) n
    → AtMost (find k (lowered j v m)) n
lowered-AtMost j k v n m h = elim (Bool-cases (same_pair j k)) [
  | inl same ↦
      let e : find j m ≡ find k m = ap (λ i. find i m) (same_pair→≡ j k same) in
      ground (arith, find-assign j k v m, e)
  | inr other ↦ ground (arith, find-assign j k v m)
]

lowered-AtMost_self :
    (k : String × String) (v : ℕ) (m : Pairs ℕ) → AtMost (find k (lowered k v m)) v
lowered-AtMost_self k v m = ground (arith, find-assign k k v m, same_pair_refl k)

lowered-attained :
    (j k : String × String) (v u : ℕ) (m : Pairs ℕ)
    → find k (lowered j v m) ≡ some u
    → (find k m ≡ some u) ⊎ ((j ≡ k) × (v ≡ u))
lowered-attained j k v u m h = elim (Bool-cases (same_pair j k)) [
  | inl same ↦ elim (Bool-cases (lowers v (find j m))) [
    | inl lower ↦ inr (same_pair→≡ j k same, ground (arith, find-assign j k v m))
    | inr higher ↦ inl (ground arith)
  ]
  | inr other ↦ inl (ground (arith, find-assign j k v m))
]

merge_trust-AtMost :
    (levels m : Pairs ℕ) (k : String × String) (n : ℕ)
    → AtMost (find k m) n
    → AtMost (find k (merge_trust levels m)) n
unfolding merge_trust
merge_trust-AtMost [] m k n h = h
merge_trust-AtMost ((j, v) ∷ levels) m k n h =
    merge_trust-AtMost levels (lowered j v m) k n (lowered-AtMost j k v n m h)

merge_trust-Among :
    (levels m : Pairs ℕ) (k : String × String) (n : ℕ)
    → Among (k, n) levels
    → AtMost (find k (merge_trust levels m)) n
unfolding merge_trust
merge_trust-Among [] m k n a = elim a [ ]
merge_trust-Among ((j, v) ∷ levels) m k n (first e) =
    merge_trust-AtMost levels (lowered j v m) k n (
      subst (λ (p : (String × String) × ℕ). AtMost (find k (lowered p.0 p.1 m)) n) e
        (lowered-AtMost_self k n m))
merge_trust-Among ((j, v) ∷ levels) m k n (later a) = merge_trust-Among levels (lowered j v m) k n a

merge_trust-attained :
    (levels m : Pairs ℕ) (k : String × String) (u : ℕ)
    → find k (merge_trust levels m) ≡ some u
    → (find k m ≡ some u) ⊎ Among (k, u) levels
unfolding merge_trust
merge_trust-attained [] m k u h = inl h
merge_trust-attained ((j, v) ∷ levels) m k u h =
    elim (merge_trust-attained levels (lowered j v m) k u h) [
      | inr a ↦ inr (later a)
      | inl old ↦ elim (lowered-attained j k v u m old) [
        | inl older ↦ inl older
        | inr (e, f) ↦ inr (first (λ i. (sym e i, sym f i)))
      ]
    ]

-- Some policy gives this level to the pair.
abbrev pub Given : String × String → ℕ → List ShardPolicy → Type 0
Given k u policies = (p : ShardPolicy) × Among p policies × Among (k, u) p.trust_levels

merge_policies-AtMost :
    (ps : List ShardPolicy) (local : List String) (m : Pairs ℕ) (k : String × String) (n : ℕ)
    → AtMost (find k m) n
    → AtMost (find k (merge_policies ps local m).trust_levels) n
unfolding merge_policies
merge_policies-AtMost [] local m k n h = h
merge_policies-AtMost (p ∷ ps) local m k n h =
    merge_policies-AtMost ps _ (merge_trust p.trust_levels m) k n
      (merge_trust-AtMost p.trust_levels m k n h)

merge_policies-Given :
    (ps : List ShardPolicy) (local : List String) (m : Pairs ℕ) (k : String × String) (n : ℕ)
    (p : ShardPolicy)
    → Among p ps
    → Among (k, n) p.trust_levels
    → AtMost (find k (merge_policies ps local m).trust_levels) n
unfolding merge_policies
merge_policies-Given [] local m k n p a g = elim a [ ]
merge_policies-Given (q ∷ ps) local m k n p (first e) g =
    merge_policies-AtMost ps _ (merge_trust q.trust_levels m) k n (
      merge_trust-Among q.trust_levels m k n
        (subst (λ (r : ShardPolicy). Among (k, n) r.trust_levels) e g))
merge_policies-Given (q ∷ ps) local m k n p (later a) g =
    merge_policies-Given ps _ (merge_trust q.trust_levels m) k n p a g

merge_policies-attained :
    (ps : List ShardPolicy) (local : List String) (m : Pairs ℕ) (k : String × String) (u : ℕ)
    → find k (merge_policies ps local m).trust_levels ≡ some u
    → (find k m ≡ some u) ⊎ Given k u ps
unfolding merge_policies
merge_policies-attained [] local m k u h = inl h
merge_policies-attained (p ∷ ps) local m k u h =
    elim (merge_policies-attained ps _ (merge_trust p.trust_levels m) k u h) [
      | inr (q, a, g) ↦ inr (q, later a, g)
      | inl old ↦ elim (merge_trust-attained p.trust_levels m k u old) [
        | inl older ↦ inl older
        | inr a ↦ inr (p, first refl, a)
      ]
    ]

union-contains :
    (x : String) (ys xs : List String) → contains x (union xs ys) ≡ (contains x xs || contains x ys)
unfolding union contains
union-contains x [] xs = ground arith
union-contains x (y ∷ ys) xs = elim (str_dec x y) [
  | yes e ↦
      ground (
        arith,
        union-contains x ys (if contains y xs then xs else y ∷ xs),
        ap (λ z. contains z xs) e,
      )
  | no n ↦ ground (arith, union-contains x ys (if contains y xs then xs else y ∷ xs))
]

merge_policies-local :
    (x : String) (ps : List ShardPolicy) (local : List String) (m : Pairs ℕ)
    → contains x (merge_policies ps local m).local_stage_types
      ≡ (contains x local || any (λ p. contains x p.local_stage_types) ps)
unfolding merge_policies
merge_policies-local x [] local m = ground arith
merge_policies-local x (p ∷ ps) local m = ground (
  arith,
  merge_policies-local x ps (union local p.local_stage_types) (merge_trust p.trust_levels m),
  union-contains x p.local_stage_types local,
)

-- Condition: a policy gives a level to an ordered pair of domains. Then a stage type is local in
-- the merged policy exactly if it is local in one of them, and the merged level of the pair is one
-- that a policy gives to it, and is no higher than the given one.
pub merge_governance-strictest :
    (policies : List ShardPolicy) (x : String) (k : String × String) (n : ℕ)
    → Given k n policies
    → (contains x (merge_governance policies).local_stage_types
        ≡ any (λ p. contains x p.local_stage_types) policies)
      × ((u : ℕ) × (find k (merge_governance policies).trust_levels ≡ some u)
          × (u ≤ n)
          × Given k u policies)
unfolding merge_governance find contains
merge_governance-strictest policies x k n g =
    let merged = merge_governance policies in
    let low : AtMost (find k merged.trust_levels) n =
      merge_policies-Given policies [] [] k n g.0 g.1 g.2 in
    let attained : (u : ℕ) → find k merged.trust_levels ≡ some u → Given k u policies =
      λ u h. elim (merge_policies-attained policies [] [] k u h) [ inl old ↦ cc | inr g ↦ g ] in
    (
      merge_policies-local x policies [] [],
      elim (Option-cases (find k merged.trust_levels)) [
        | inl nothing ↦ absurd (rw nothing at low)
        | inr (u, h) ↦ (u, h, rw h at low, attained u h)
      ],
    )

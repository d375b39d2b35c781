-- ===== src/Measurement/Window.antt =====
-- src/measurement/warmup.py: the window of the samples that the detector looks at.
use neural_pubsub_experiment.Prelude.{
  ℕ, zero, suc, ◌+◌, ◌-◌, ◌≤◌, ◌≡◌, refl, ap, sym, ◌∙◌, subst, ◌⊎◌, Bool, true, false, Option, none,
  some, List, [], ◌∷◌, ◌++◌, append_assoc, append-nil, length, length-append, ltb, leb,
  if◌then◌else◌, arith, Bool-cases, inl, inr,
}
use neural_pubsub_experiment.Measurement.{
  WarmupDetector, Statistics, drop, new_detector, append_bounded, record_sample, current_cv,
  is_steady_state,
}

length-drop : {A : Type 0} → (n : ℕ) (xs : List A) → length (drop n xs) ≡ length xs - n
length-drop zero xs = omega arith
length-drop (suc n) [] = omega arith
length-drop (suc n) (x ∷ xs) = omega (arith, length-drop n xs)

drop-append :
    {A : Type 0} → (n : ℕ) (xs ys : List A) → n ≤ length xs → drop n (xs ++ ys) ≡ drop n xs ++ ys
drop-append zero xs ys h = refl
drop-append (suc n) [] ys h = absurd (omega (arith, h))
drop-append (suc n) (x ∷ xs) ys h = drop-append n xs ys (omega (arith, h))

drop_empty : {A : Type 0} → (n : ℕ) → drop {A = A} n [] ≡ []
drop_empty zero = refl
drop_empty (suc n) = refl

drop-drop : {A : Type 0} → (m n : ℕ) (xs : List A) → drop m (drop n xs) ≡ drop (n + m) xs
drop-drop m zero xs = ap (λ k. drop k xs) (omega arith)
drop-drop m (suc n) [] = drop_empty m ∙ sym (drop_empty (suc n + m))
drop-drop m (suc n) (x ∷ xs) =
    let next : suc (n + m) ≡ suc n + m = omega arith in
    drop-drop m n xs ∙ ap (λ k. drop k (x ∷ xs)) next

-- The most recent samples, as many as the window holds.
abbrev pub latest : {A : Type 0} → ℕ → List A → List A
latest w xs = drop (length xs - w) xs

unfoldable pub record_samples : {A : Type 0} → List A → WarmupDetector A → WarmupDetector A
record_samples [] d = d
record_samples (x ∷ xs) d = record_samples xs (record_sample x d)

append_bounded-latest :
    {A : Type 0}
    → (w : ℕ) (x : A) (seen : List A)
    → append_bounded w x (latest w seen) ≡ latest w (seen ++ x ∷ [])
unfolding append_bounded
append_bounded-latest w x seen =
    let k = length seen - w in
    let all_seen = seen ++ x ∷ [] in
    ap (λ ys. drop (length ys - w) ys) (sym (drop-append k seen (x ∷ []) (omega arith)))
    ∙ drop-drop (length (drop k all_seen) - w) k all_seen
    ∙ ap (λ j. drop j all_seen) (omega (arith, length-drop k all_seen, length-append seen (x ∷ [])))

-- What the detector holds after the samples of `seen`.
record Sees {A : Type 0} (w : ℕ) (t : A) (seen : List A) (d : WarmupDetector A) : Type 0 where
  window : d.window_size ≡ w
  threshold : d.cv_threshold ≡ t
  newest : d.samples ≡ latest w seen
  counted : d.total_recorded ≡ length seen

record_sample-Sees :
    {A : Type 0}
    → (w : ℕ) (t x : A) (seen : List A) (d : WarmupDetector A) → Sees w t seen d
    → Sees w t (seen ++ x ∷ []) (record_sample x d)
unfolding record_sample
record_sample-Sees w t x seen d s = record {
  window = s.window;
  threshold = s.threshold;
  newest =
      ap (λ n. append_bounded n x d.samples) s.window
      ∙ ap (append_bounded w x) s.newest
      ∙ append_bounded-latest w x seen;
  counted = omega (arith, s.counted, length-append seen (x ∷ []));
}

record_samples-Sees :
    {A : Type 0}
    → (w : ℕ) (t : A) (xs seen : List A) (d : WarmupDetector A) → Sees w t seen d
    → Sees w t (seen ++ xs) (record_samples xs d)
unfolding record_samples
record_samples-Sees w t [] seen d s = subst (λ ys. Sees w t ys d) (sym (append-nil seen)) s
record_samples-Sees w t (x ∷ xs) seen d s =
    subst (λ ys. Sees w t ys (record_samples xs (record_sample x d)))
      (append_assoc seen (x ∷ []) xs)
      (record_samples-Sees w t xs (seen ++ x ∷ []) (record_sample x d)
        (record_sample-Sees w t x seen d s))

new_detector-Sees :
    {A : Type 0}
    → (w : ℕ) (t : A) (xs : List A) → Sees w t xs (record_samples xs (new_detector w t))
unfolding new_detector
new_detector-Sees w t xs =
    record_samples-Sees w t xs [] (new_detector w t) (record {
      window = refl;
      threshold = refl;
      newest = sym (drop_empty (0 - w));
      counted = refl;
    })

-- After any list of samples the window of a new detector holds at most window_size samples and at
-- most as many as were recorded, and it holds exactly the one number or the other.
pub record_samples_bounded :
    {A : Type 0}
    → (w : ℕ) (t : A) (xs : List A)
    → let d = record_samples xs (new_detector w t) in
      (length d.samples ≤ w)
      × (length d.samples ≤ d.total_recorded)
      × ((length d.samples ≡ w) ⊎ (length d.samples ≡ d.total_recorded))
record_samples_bounded w t xs =
    let s = new_detector-Sees w t xs in
    let held = ap length s.newest ∙ length-drop (length xs - w) xs in
    (
      omega (arith, held),
      omega (arith, held, s.counted),
      elim (Bool-cases (leb w (length xs))) [
        | inl enough ↦ inl (grind (arith, held, s.counted, enough))
        | inr few ↦ inr (grind (arith, held, s.counted, few))
      ],
    )

module _ (S : Statistics) where
  -- The abstract detector: it knows all samples, and tests the latest of them.
  abbrev pub cv_of : List S.Sample → Option S.Sample
  cv_of xs =
      let mean = S.mean xs in if S.is_nought mean then none else some (S.divided (S.std xs) mean)

  abbrev pub is_steady_after : ℕ → S.Sample → List S.Sample → Bool
  is_steady_after w t xs =
      if ltb (length xs) w
      then false
      else elim (cv_of (latest w xs)) [ none ↦ false | some cv ↦ S.less cv t ]

  abbrev judged_cv : S.Sample → Option S.Sample → Bool
  judged_cv t none = false
  judged_cv t (some cv) = S.less cv t

  abbrev judged : ℕ → S.Sample → List S.Sample → Bool
  judged w t xs = judged_cv t (if ltb (length xs) w then none else cv_of xs)

  is_steady_state-judged :
      (d : WarmupDetector S.Sample)
      → is_steady_state S d ≡ judged d.window_size d.cv_threshold d.samples
  unfolding is_steady_state current_cv
  is_steady_state-judged d =
      elim (current_cv S d)
        as (λ (o : Option S.Sample).
          elim o [ none ↦ false | some cv ↦ S.less cv d.cv_threshold ]
          ≡ judged_cv d.cv_threshold o) [ none ↦ refl | some cv ↦ refl ]

  judged-if :
      (t : S.Sample) (few : Bool) (o : Option S.Sample)
      → judged_cv t (if few then none else o)
        ≡ (if few then false else elim o [ none ↦ false | some cv ↦ S.less cv t ])
  judged-if t true o = refl
  judged-if t false none = refl
  judged-if t false (some cv) = refl

  ltb-latest : (w : ℕ) (xs : List S.Sample) → ltb (length (latest w xs)) w ≡ ltb (length xs) w
  ltb-latest w xs = ground (arith, length-drop (length xs - w) xs)

  -- A new detector that has recorded any list of samples through its bounded window answers
  -- is_steady_state as the abstract detector does, which knows all samples: false while they are
  -- fewer than the window, and else the test on the variation of the latest samples, as many as the
  -- window holds.
  pub is_steady_state-record_samples :
      (w : ℕ) (t : S.Sample) (xs : List S.Sample)
      → is_steady_state S (record_samples xs (new_detector w t)) ≡ is_steady_after w t xs
  is_steady_state-record_samples w t xs =
      let s = new_detector-Sees w t xs in
      let d = record_samples xs (new_detector w t) in
      is_steady_state-judged d
      ∙ ap (λ n. judged n d.cv_threshold d.samples) s.window
      ∙ ap (λ u. judged w u d.samples) s.threshold
      ∙ ap (judged w t) s.newest
      ∙ ap (λ few. judged_cv t (if few then none else cv_of (latest w xs))) (ltb-latest w xs)
      ∙ judged-if t (ltb (length xs) w) (cv_of (latest w xs))

-- ===== src/Measurement.antt =====
-- src/measurement/warmup.py: the detector of a steady state. numpy's mean and standard deviation are
-- parameters.
pub mod Window
pub mod Adaptation
pub mod Paired
use neural_pubsub_experiment.Prelude.{
  ℕ, ◌+◌, ◌-◌, Bool, true, false, Option, none, some, List, [], ◌∷◌, ◌++◌, length, ltb,
  if◌then◌else◌, zero, suc,
}

pub record WarmupDetector (A : Type 0) : Type 0 where
  pub window_size : ℕ
  pub cv_threshold : A
  pub samples : List A
  pub total_recorded : ℕ

-- What the detector computes with.
pub record Statistics : Type 1 where
  pub Sample : Type 0
  pub mean : List Sample → Sample
  pub std : List Sample → Sample
  pub is_nought : Sample → Bool
  pub divided : Sample → Sample → Sample
  pub less : Sample → Sample → Bool

unfoldable pub new_detector : {A : Type 0} → ℕ → A → WarmupDetector A
new_detector window_size cv_threshold = record {
  window_size = window_size;
  cv_threshold = cv_threshold;
  samples = [];
  total_recorded = 0;
}

abbrev pub drop : {A : Type 0} → ℕ → List A → List A
drop zero xs = xs
drop (suc n) [] = []
drop (suc n) (x ∷ xs) = drop n xs

-- deque(maxlen=…).append: what is too much goes at the other end.
unfoldable pub append_bounded : {A : Type 0} → ℕ → A → List A → List A
append_bounded maxlen x xs = let ys = xs ++ x ∷ [] in drop (length ys - maxlen) ys

unfoldable pub record_sample : {A : Type 0} → A → WarmupDetector A → WarmupDetector A
record_sample throughput d = record d {
  samples = append_bounded d.window_size throughput d.samples;
  total_recorded = d.total_recorded + 1;
}

module _ (S : Statistics) where
  unfoldable pub current_cv : WarmupDetector S.Sample → Option S.Sample
  current_cv d =
      if ltb (length d.samples) d.window_size
      then none
      else let mean = S.mean d.samples in
        if S.is_nought mean then none else some (S.divided (S.std d.samples) mean)

  unfoldable pub is_steady_state : WarmupDetector S.Sample → Bool
  is_steady_state d = elim (current_cv d) [ none ↦ false | some cv ↦ S.less cv d.cv_threshold ]

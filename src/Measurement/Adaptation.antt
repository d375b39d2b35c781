-- ===== src/Measurement/Adaptation.antt =====
-- src/measurement/harness.py, `AdaptationTracker`: the times between failures, their detection and the
-- recoveries. Times are natural numbers of one unit.
use neural_pubsub_experiment.Prelude.{
  ℕ, ◌-◌, ◌*◌, String, Bool, true, false, Option, none, some, List, [], ◌∷◌, ◌++◌, not, ◌&&◌,
  if◌then◌else◌,
}
use neural_pubsub_experiment.Prelude.Pairs.{Pairs, find, assign}
use neural_pubsub_experiment.Prelude.Sorts.{sort_by}

pub record FailureEvent : Type 0 where
  pub failure_type : String
  pub target_id : String
  pub timestamp : ℕ
  pub is_recovery : Bool
  pub is_detection_complete : Bool

abbrev pub key_of : FailureEvent → String × String
key_of e = (e.failure_type, e.target_id)

abbrev pub failure : String → String → ℕ → FailureEvent
failure kind target timestamp = record {
  failure_type = kind;
  target_id = target;
  timestamp = timestamp;
  is_recovery = false;
  is_detection_complete = false;
}

-- record_failure, record_detection_complete and record_recovery
abbrev pub record_failure : String → String → ℕ → List FailureEvent → List FailureEvent
record_failure kind target timestamp events = events ++ failure kind target timestamp ∷ []

abbrev pub record_detection_complete : String → String → ℕ → List FailureEvent → List FailureEvent
record_detection_complete kind target timestamp events =
    events ++ record (failure kind target timestamp) { is_detection_complete = true } ∷ []

abbrev pub record_recovery : String → String → ℕ → List FailureEvent → List FailureEvent
record_recovery kind target timestamp events =
    events ++ record (failure kind target timestamp) { is_recovery = true } ∷ []

-- pending.get(key), an absent key like an empty list
abbrev pub times_in : Option (List ℕ) → List ℕ
times_in none = []
times_in (some ts) = ts

unfoldable pub pending_at : String × String → Pairs (List ℕ) → List ℕ
pending_at key pending = times_in (find key pending)

-- The loop that three methods share: an event that opens waits under its key, and one that closes
-- is paired with the first that waits, which leaves if `pops`.
module _ (opens closes : FailureEvent → Bool) (pops : Bool) where
  unfoldable pub close : FailureEvent → List ℕ → Pairs (List ℕ) → Pairs (List ℕ) × List ℕ
  close e [] pending = (pending, [])
  close e (opened ∷ later) pending = (
    if pops then assign (key_of e) later pending else pending,
    (e.timestamp - opened) * 1000 ∷ [],
  )

  unfoldable pub pair_event : FailureEvent → Pairs (List ℕ) → Pairs (List ℕ) × List ℕ
  pair_event e pending =
      if opens e
      then (assign (key_of e) (pending_at (key_of e) pending ++ e.timestamp ∷ []) pending, [])
      else if closes e
      then close e (pending_at (key_of e) pending) pending
      else (pending, [])

  unfoldable pub pair_events : List FailureEvent → Pairs (List ℕ) → List ℕ
  pair_events [] pending = []
  pair_events (e ∷ es) pending = let s = pair_event e pending in s.1 ++ pair_events es s.0

abbrev pub sorted_events : List FailureEvent → List FailureEvent
sorted_events events = sort_by (λ e. e.timestamp) events

unfoldable pub adaptation_times_ms : List FailureEvent → List ℕ
adaptation_times_ms events =
    pair_events (λ e. not e.is_recovery) (λ e. e.is_recovery) true (sorted_events events) []

unfoldable pub detection_times_ms : List FailureEvent → List ℕ
detection_times_ms events =
    pair_events (λ e. not e.is_recovery && not e.is_detection_complete)
      (λ e. e.is_detection_complete) false (sorted_events events) []

unfoldable pub replacement_times_ms : List FailureEvent → List ℕ
replacement_times_ms events =
    pair_events (λ e. e.is_detection_complete) (λ e. e.is_recovery) true (sorted_events events) []

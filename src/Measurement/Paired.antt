-- ===== src/Measurement/Paired.antt =====
-- src/measurement/harness.py, `AdaptationTracker`: which events are paired.
use neural_pubsub_experiment.Prelude.{
  ℕ, ◌-◌, ◌*◌, ◌≡◌, refl, sym, ap, ◌∙◌, subst, String, Bool, true, false, Option, none, some, List,
  [], ◌∷◌, ◌++◌, not, ◌&&◌, if◌then◌else◌, if_ind, All, arith, Bool-cases, Option-cases, inl, inr,
}
use neural_pubsub_experiment.Prelude.Pairs.{
  Pairs, find, assign, find-assign, same_pair, same_pair→≡,
}
use neural_pubsub_experiment.Prelude.Sorts.{All-map, All-sort_with, by}
use neural_pubsub_experiment.Measurement.Adaptation.{
  FailureEvent, key_of, times_in, pending_at, close, pair_event, pair_events, sorted_events,
  adaptation_times_ms, replacement_times_ms,
}

-- The first event of a key in a queue, and the queue without it.
unfoldable pub take_first :
    String × String → List FailureEvent → Option (FailureEvent × List FailureEvent)
take_first key [] = none
take_first key (f ∷ queue) =
    let rest = take_first key queue in
    if same_pair (key_of f) key
    then some (f, queue)
    else elim rest [ none ↦ none | some (g, queue') ↦ some (g, f ∷ queue') ]

-- The description of the pairing: in the order of time, an event that opens joins one queue, and one
-- that closes takes the first event of its key out of it, if there is any.
module _ (opens closes : FailureEvent → Bool) where
  unfoldable pub match_events : List FailureEvent → List FailureEvent → List ℕ
  match_events [] queue = []
  match_events (e ∷ es) queue =
      if opens e
      then match_events es (queue ++ e ∷ [])
      else if closes e
      then elim (take_first (key_of e) queue) [
        | none ↦ match_events es queue
        | some (f, queue') ↦ (e.timestamp - f.timestamp) * 1000 ∷ match_events es queue'
      ]
      else match_events es queue

-- The times at which the events of a key in a queue happened.
unfoldable stamps : String × String → List FailureEvent → List ℕ
stamps key [] = []
stamps key (f ∷ queue) =
    if same_pair (key_of f) key then f.timestamp ∷ stamps key queue else stamps key queue

stamps-append :
    (key : String × String) (queue : List FailureEvent) (e : FailureEvent)
    → stamps key (queue ++ e ∷ []) ≡ (
        if same_pair (key_of e) key then stamps key queue ++ e.timestamp ∷ [] else stamps key queue)
unfolding stamps
stamps-append key [] e = refl
stamps-append key (f ∷ queue) e = elim (Bool-cases (same_pair (key_of f) key)) [
  | inl same ↦
      rw (same, stamps-append key queue e)
        (elim (Bool-cases (same_pair (key_of e) key)) [ inl a ↦ rw a refl | inr a ↦ rw a refl ])
  | inr other ↦ rw other (stamps-append key queue e)
]

abbrev IsTaken :
    String × String → List FailureEvent → Option (FailureEvent × List FailureEvent) → Type 0
IsTaken key queue none = stamps key queue ≡ []
IsTaken key queue (some (f, queue')) =
    (stamps key queue ≡ f.timestamp ∷ stamps key queue')
    × ((k : String × String) → same_pair key k ≡ false → stamps k queue' ≡ stamps k queue)

stamps-other :
    (key : String × String) (f : FailureEvent) (queue : List FailureEvent)
    → same_pair (key_of f) key ≡ false
    → stamps key (f ∷ queue) ≡ stamps key queue
unfolding stamps
stamps-other key f queue other = rw other refl

stamps-same :
    (key : String × String) (f : FailureEvent) (queue : List FailureEvent)
    → same_pair (key_of f) key ≡ true
    → stamps key (f ∷ queue) ≡ f.timestamp ∷ stamps key queue
unfolding stamps
stamps-same key f queue same = rw same refl

-- An event of another key stands before what is taken.
IsTaken-later :
    (key : String × String) (f : FailureEvent) (queue : List FailureEvent)
    (o : Option (FailureEvent × List FailureEvent))
    → same_pair (key_of f) key ≡ false
    → IsTaken key queue o
    → IsTaken key (f ∷ queue) (elim o [ none ↦ none | some (g, queue') ↦ some (g, f ∷ queue') ])
unfolding stamps
IsTaken-later key f queue none other t = stamps-other key f queue other ∙ t
IsTaken-later key f queue (some (g, queue')) other (t, rest) = (
  stamps-other key f queue other
      ∙ t
      ∙ ap (λ ts. g.timestamp ∷ ts) (sym (stamps-other key f queue' other)),
  λ k apart. ap (λ ts. if same_pair (key_of f) k then f.timestamp ∷ ts else ts) (rest k apart),
)

take_first-IsTaken :
    (key : String × String) (queue : List FailureEvent) → IsTaken key queue (take_first key queue)
unfolding take_first stamps
take_first-IsTaken key [] = refl
take_first-IsTaken key (f ∷ queue) =
    let rest = take_first-IsTaken key queue in
    if_ind (IsTaken key (f ∷ queue)) (same_pair (key_of f) key)
      (λ same. (
        stamps-same key f queue same,
        λ k apart. sym (
            stamps-other k f queue
              (subst (λ j. same_pair j k ≡ false) (sym (same_pair→≡ (key_of f) key same)) apart)),
      ))
      (λ other. IsTaken-later key f queue (take_first key queue) other rest)

pending_at-assign :
    (key k : String × String) (ts : List ℕ) (pending : Pairs (List ℕ))
    → pending_at k (assign key ts pending) ≡ (if same_pair key k then ts else pending_at k pending)
unfolding pending_at
pending_at-assign key k ts pending =
    ap times_in (find-assign key k ts pending)
    ∙ elim (Bool-cases (same_pair key k)) [ inl a ↦ rw a refl | inr a ↦ rw a refl ]

-- The dictionary has, under each key, the times of the queue.
abbrev Agrees : List FailureEvent → Pairs (List ℕ) → Type 0
Agrees queue pending = (k : String × String) → pending_at k pending ≡ stamps k queue

Agrees-opened :
    (e : FailureEvent) (queue : List FailureEvent) (pending : Pairs (List ℕ))
    → Agrees queue pending
    → Agrees
        (queue ++ e ∷ [])
        (assign (key_of e) (pending_at (key_of e) pending ++ e.timestamp ∷ []) pending)
Agrees-opened e queue pending a k =
    pending_at-assign (key_of e) k _ pending
    ∙ elim (Bool-cases (same_pair (key_of e) k)) [
      | inl same ↦ rw same (
          ap (λ ts. ts ++ e.timestamp ∷ [])
            (subst (λ j. pending_at j pending ≡ stamps k queue)
              (sym (same_pair→≡ (key_of e) k same)) (a k)))
      | inr other ↦ rw other (a k)
    ]
    ∙ sym (stamps-append k queue e)

Agrees-taken :
    (key : String × String) (f : FailureEvent) (queue queue' : List FailureEvent)
    (pending : Pairs (List ℕ))
    → Agrees queue pending
    → IsTaken key queue (some (f, queue'))
    → Agrees queue' (assign key (stamps key queue') pending)
Agrees-taken key f queue queue' pending a (t, rest) k =
    pending_at-assign key k (stamps key queue') pending ∙ elim (Bool-cases (same_pair key k)) [
      | inl same ↦ rw same (ap (λ j. stamps j queue') (same_pair→≡ key k same))
      | inr other ↦ rw other (a k ∙ sym (rest k other))
    ]

module _ (opens closes : FailureEvent → Bool) where
  pair_events-match :
      (es queue : List FailureEvent) (pending : Pairs (List ℕ))
      → Agrees queue pending
      → pair_events opens closes true es pending ≡ match_events opens closes es queue
  unfolding pair_events pair_event close match_events
  pair_events-match [] queue pending a = refl
  pair_events-match (e ∷ es) queue pending a = elim (Bool-cases (opens e)) [
    | inl opening ↦
        rw opening (pair_events-match es (queue ++ e ∷ []) _ (Agrees-opened e queue pending a))
    | inr shut ↦ elim (Bool-cases (closes e)) [
      | inl closing ↦ elim (Option-cases (take_first (key_of e) queue)) [
        | inl nothing ↦
            let t =
              subst (IsTaken (key_of e) queue) nothing (take_first-IsTaken (key_of e) queue) in
            rw (shut, closing, nothing, a (key_of e) ∙ t) (pair_events-match es queue pending a)
        | inr ((f, queue'), taken) ↦
            let t = subst (IsTaken (key_of e) queue) taken (take_first-IsTaken (key_of e) queue) in
            rw (shut, closing, taken, a (key_of e) ∙ t.0)
              (ap (λ ts. (e.timestamp - f.timestamp) * 1000 ∷ ts)
                (pair_events-match es queue' _
                  (Agrees-taken (key_of e) f queue queue' pending a t)))
      ]
      | inr idle ↦ rw (shut, idle) (pair_events-match es queue pending a)
    ]
  ]

-- For any list of events, in any order: the times between completed detections and recoveries are
-- those of one queue of events, which takes them in the order of time, a completed detection to its
-- end, and for each recovery removes the first waiting detection of the same type and target and
-- reports the time since it, in ms.
pub replacement_times_ms_lem :
    (events : List FailureEvent)
    → replacement_times_ms events
      ≡ match_events (λ e. e.is_detection_complete) (λ e. e.is_recovery) (sorted_events events) []
unfolding replacement_times_ms pending_at find stamps
replacement_times_ms_lem events = pair_events-match _ _ (sorted_events events) [] [] (λ k. refl)

match_events-alike :
    (opens opens' closes : FailureEvent → Bool) (es queue : List FailureEvent)
    → All (λ e. opens e ≡ opens' e) es
    → match_events opens closes es queue ≡ match_events opens' closes es queue
unfolding match_events
match_events-alike opens opens' closes [] queue a = refl
match_events-alike opens opens' closes (e ∷ es) queue (h, a) =
    elim (Option-cases (take_first (key_of e) queue)) [
      | inl nothing ↦
          rw
            (
              h,
              nothing,
              match_events-alike opens opens' closes es (queue ++ e ∷ []) a,
              match_events-alike opens opens' closes es queue a,
            )
            refl
      | inr ((f, queue'), taken) ↦
          rw
            (
              h,
              taken,
              match_events-alike opens opens' closes es (queue ++ e ∷ []) a,
              match_events-alike opens opens' closes es queue' a,
              match_events-alike opens opens' closes es queue a,
            )
            refl
    ]

-- Condition: no completed detection is recorded. Then the adaptation times are those of one queue
-- of events, which takes them in the order of time, a failure to its end, and for each recovery
-- removes the first waiting failure of the same type and target and reports the time since it, in
-- ms.
pub adaptation_times_ms_lem :
    (events : List FailureEvent)
    → All (λ e. e.is_detection_complete ≡ false) events
    → adaptation_times_ms events
      ≡ match_events
          (λ e. not e.is_recovery && not e.is_detection_complete)
          (λ e. e.is_recovery)
          (sorted_events events)
          []
unfolding adaptation_times_ms pending_at find stamps
adaptation_times_ms_lem events no_detections =
    pair_events-match (λ e. not e.is_recovery) (λ e. e.is_recovery) (sorted_events events) [] []
      (λ k. refl)
    ∙ match_events-alike (λ e. not e.is_recovery)
        (λ e. not e.is_recovery && not e.is_detection_complete) (λ e. e.is_recovery)
        (sorted_events events) []
        (All-sort_with (by (λ (e : FailureEvent). e.timestamp))
          (λ e. not e.is_recovery ≡ (not e.is_recovery && not e.is_detection_complete)) events
          (All-map (λ e. e.is_detection_complete ≡ false) _ (λ e h. ground (arith, h)) events
            no_detections))

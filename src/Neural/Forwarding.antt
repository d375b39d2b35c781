-- ===== src/Neural/Forwarding.antt =====
-- src/broker/neural_broker.py: when a request is handed on to a peer.
use neural_pubsub_experiment.Prelude.{
  ℕ, ◌≡◌, ◌≢◌, ◌⊎◌, ◌↔◌, refl, sym, ap, ◌∙◌, String, Bool, true, false, Option, none, some, List,
  [], ◌∷◌, ◌++◌, All, if_ind, Bool-cases, Option-cases, subst, Error, inl, inr, Dict, Result, ok,
  raised, arith,
}
use neural_pubsub_experiment.Dag.{PipelineDag}
use neural_pubsub_experiment.Wire.{Value}
use neural_pubsub_experiment.Placement.Float.{Floats}
use neural_pubsub_experiment.Static.{is_empty}
use neural_pubsub_experiment.Neural.{NeuralBroker}
use neural_pubsub_experiment.Neural.Pull.{fetch_peer_topologies}
use neural_pubsub_experiment.Neural.Requests.{
  NeuralSetting, forwarded, dispatched, try_federation_forward, reply_of, refreshed, publish_placed,
  publish_elsewhere, publish_decided, publish,
}
use neural_pubsub_experiment.Neural.Recovery.{is_runtime}

-- The peer takes the request, and all peers before it do not.
pub record IsFirstTaker (accepts : String → Bool) (peers : List String) (peer : String)
    : Type 0 where
  pub before : List String
  pub after : List String
  pub listed : peers ≡ before ++ peer ∷ after
  pub refuse : All (λ q. accepts q ≡ false) before
  pub takes : accepts peer ≡ true

try_federation_forward→IsFirstTaker :
    (accepts : String → Bool) (peers : List String) (peer : String)
    → try_federation_forward accepts peers ≡ some peer
    → IsFirstTaker accepts peers peer
unfolding try_federation_forward
try_federation_forward→IsFirstTaker accepts [] peer h = cc
try_federation_forward→IsFirstTaker accepts (p ∷ ps) peer h = elim (Bool-cases (accepts p)) [
  | inl good ↦
      let same : p ≡ peer = ground (arith, good) in
      record {
        before = [];
        after = ps;
        listed = ap (λ q. q ∷ ps) same;
        refuse = tt;
        takes = subst (λ q. accepts q ≡ true) same good;
      }
  | inr bad ↦
      let rest = try_federation_forward→IsFirstTaker accepts ps peer (ground (arith, bad)) in
      record {
        before = p ∷ rest.before;
        after = rest.after;
        listed = ap (λ qs. p ∷ qs) rest.listed;
        refuse = (bad, rest.refuse);
        takes = rest.takes;
      }
]

try_federation_forward-before :
    (accepts : String → Bool) (before after : List String) (peer : String)
    → All (λ q. accepts q ≡ false) before
    → accepts peer ≡ true
    → try_federation_forward accepts (before ++ peer ∷ after) ≡ some peer
unfolding try_federation_forward
try_federation_forward-before accepts [] after peer a takes = rw takes refl
try_federation_forward-before accepts (q ∷ before) after peer (bad, a) takes =
    rw bad (try_federation_forward-before accepts before after peer a takes)

IsFirstTaker→try_federation_forward :
    (accepts : String → Bool) (peers : List String) (peer : String)
    → IsFirstTaker accepts peers peer
    → try_federation_forward accepts peers ≡ some peer
IsFirstTaker→try_federation_forward accepts peers peer t =
    subst (λ ps. try_federation_forward accepts ps ≡ some peer) (sym t.listed)
      (try_federation_forward-before accepts t.before t.after peer t.refuse t.takes)

-- The decision is no placement, or a RuntimeError.
abbrev pub Undecided : Result (Option (Dict String)) → Type 0
Undecided decided =
    (decided ≡ ok none) ⊎ ((e : Error) × (decided ≡ raised e) × (is_runtime e ≡ true))

reply_of-not : (o : Option Error) (peer : String) → reply_of o dispatched ≢ forwarded peer
reply_of-not none peer e = ground arith
reply_of-not (some c) peer e = ground arith

module _ (F : Floats) (send : String → String → Bool) (setting : NeuralSetting F)
    (is_forwarded : Bool) (accepts : String → Bool) (peers : List String) (peer : String) where
  -- When a peer may take the request.
  abbrev MayForward : Type 0
  MayForward = (is_forwarded ≡ false) × IsFirstTaker accepts peers peer

  publish_elsewhere_iff :
      (b : NeuralBroker)
      → ((publish_elsewhere F send setting is_forwarded accepts peers b).1 ≡ forwarded peer)
        ↔ MayForward
  unfolding publish_elsewhere
  publish_elsewhere_iff b = elim (Bool-cases is_forwarded) [
    | inl was ↦ (λ e. absurd (ground (arith, was, e)), λ m. absurd (ground (arith, was, m.0)))
    | inr new ↦ elim (Option-cases (try_federation_forward accepts peers)) [
      | inl nobody ↦ (
        λ e. absurd (ground (arith, new, nobody, e)),
        λ m.
            let taken = IsFirstTaker→try_federation_forward accepts peers peer m.1 in
            absurd (ground (arith, nobody, taken)),
      )
      | inr (q, found) ↦ (
        λ e.
            let same : q ≡ peer = ground (arith, new, found, e) in
            (
              new,
              subst (IsFirstTaker accepts peers) same
                  (try_federation_forward→IsFirstTaker accepts peers q found),
            ),
        λ m.
            let taken = IsFirstTaker→try_federation_forward accepts peers peer m.1 in
            ground (arith, new, taken),
      )
    ]
  ]

  module _ (now : ℕ) (pid kind : String) (dag : PipelineDag) where
    publish_decided_iff :
        (b : NeuralBroker) (decided : Result (Option (Dict String)))
        → ((publish_decided F send setting now pid kind dag is_forwarded accepts peers b decided).1
            ≡ forwarded peer)
          ↔ (Undecided decided × (is_forwarded ≡ false) × IsFirstTaker accepts peers peer)
    unfolding publish_decided publish_placed
    publish_decided_iff b (raised e) = elim (Bool-cases (is_runtime e)) [
      | inl soft ↦ rw soft (
        λ h. let (new, t) = (publish_elsewhere_iff b).0 h in (inr (e, refl, soft), new, t),
        λ (u, new, t). (publish_elsewhere_iff b).1 (new, t),
      )
      | inr hard ↦ rw hard (
        λ h. absurd (ground arith),
        λ (u, new, t). elim u [ inl placed ↦ cc | inr (e', same, soft) ↦ cc ],
      )
    ]
    publish_decided_iff b (ok none) = (
      λ h. let (new, t) = (publish_elsewhere_iff b).0 h in (inl refl, new, t),
      λ (u, new, t). (publish_elsewhere_iff b).1 (new, t),
    )
    publish_decided_iff b (ok (some placement)) = (
      λ h. absurd (reply_of-not _ peer h),
      λ (u, new, t). elim u [ inl none_placed ↦ cc | inr (e, same, soft) ↦ cc ],
    )

    refreshed-topology :
        (answers : List (Option Value)) (b : NeuralBroker)
        → (refreshed F send setting answers b).topology ≡ b.topology
    unfolding refreshed fetch_peer_topologies
    refreshed-topology answers b =
        if_ind (λ (b' : NeuralBroker). b'.topology ≡ b.topology) setting.is_coordinator (λ _. refl)
          (λ _. refl)

    -- The answer to /publish is that a peer took the request exactly if the broker has no nodes, or
    -- the decision, on the state after a coordinator has pulled the states of the peers, is no
    -- placement or a RuntimeError; the request was not itself forwarded to this broker; and the
    -- peer takes it while all peers before it in the list do not.
    pub publish_forwarded_iff :
        (decide : NeuralBroker → Result (Option (Dict String))) (answers : List (Option Value))
        (b : NeuralBroker)
        → ((publish F send setting now pid kind dag decide answers is_forwarded accepts peers b).1
            ≡ forwarded peer)
          ↔ (((is_empty b.topology.nodes ≡ true)
                ⊎ Undecided (decide (refreshed F send setting answers b)))
              × (is_forwarded ≡ false)
              × IsFirstTaker accepts peers peer)
    unfolding publish
    publish_forwarded_iff decide answers b =
        let b' = refreshed F send setting answers b in
        let here : is_empty b'.topology.nodes ≡ is_empty b.topology.nodes =
          ap (λ t. is_empty t.nodes) (refreshed-topology answers b) in
        elim (Bool-cases (is_empty b'.topology.nodes)) [
          | inl empty ↦ rw empty (
            λ h. let (new, t) = (publish_elsewhere_iff b').0 h in (inl (sym here ∙ empty), new, t),
            λ (u, new, t). (publish_elsewhere_iff b').1 (new, t),
          )
          | inr some_nodes ↦ rw some_nodes (
            λ h. let (u, new, t) = (publish_decided_iff b' (decide b')).0 h in (inr u, new, t),
            λ (u, new, t). elim u [
              | inl empty ↦ cc
              | inr undecided ↦ (publish_decided_iff b' (decide b')).1 (undecided, new, t)
            ],
          )
        ]

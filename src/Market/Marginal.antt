-- ===== src/Market/Marginal.antt =====
-- src/broker/market.py: the clearing price of a group is the cost of its marginal bid.
use neural_pubsub_experiment.Prelude.{
  ℕ, zero, suc, ◌-◌, ◌≤◌, ◌<◌, ◌≡◌, refl, List, [], ◌∷◌, ltb, leb, length, arith,
}
use neural_pubsub_experiment.Prelude.Sorts.{
  From, Ascending, sort_by, sort_by-Ascending, count_if, by, count_if-sort_with, length-sort_with,
}
use neural_pubsub_experiment.Market.{WorkerBid, sort_bids, cost_at, minimum, clearing_price}

abbrev cost : WorkerBid → ℕ
cost b = b.cost_per_stage

-- How many bids cost at most p, and less than p.
abbrev pub at_most : ℕ → List WorkerBid → ℕ
at_most p = count_if (λ b. leb b.cost_per_stage p)

abbrev pub below : ℕ → List WorkerBid → ℕ
below p = count_if (λ b. ltb b.cost_per_stage p)

below-From : (low : ℕ) (bs : List WorkerBid) → From cost low bs → below low bs ≡ 0
unfolding count_if
below-From low [] a = refl
below-From low (b ∷ bs) a = ground (arith, a.0, below-From low bs a.1)

cost_at-From :
    (low i : ℕ) (bs : List WorkerBid) → i < length bs → From cost low bs → low ≤ cost_at i bs
unfolding cost_at
cost_at-From low i [] h a = ground arith
cost_at-From low zero (b ∷ bs) h a = a.0
cost_at-From low (suc i) (b ∷ bs) h a = cost_at-From low i bs (omega (arith, h)) a.1

cost_at-marginal :
    (i : ℕ) (bs : List WorkerBid)
    → Ascending cost bs
    → i < length bs
    → (i < at_most (cost_at i bs) bs) × (below (cost_at i bs) bs ≤ i)
unfolding count_if cost_at
cost_at-marginal i [] a h = ground arith
cost_at-marginal zero (b ∷ bs) (low, a) h = ground (arith, below-From b.cost_per_stage bs low)
cost_at-marginal (suc i) (b ∷ bs) (low, a) h =
    let inside : i < length bs = omega (arith, h) in
    ground (arith, cost_at-marginal i bs a inside, cost_at-From b.cost_per_stage i bs inside low)

-- Conditions: there is demand, and the group has a bid. Then for k the smaller of the demand and
-- the number of bids, k bids or more cost at most the clearing price, and fewer than k cost less.
pub clearing_price-marginal :
    (demand : ℕ) (bids : List WorkerBid)
    → 0 < demand
    → 0 < length bids
    → let k = minimum demand (length bids) in
      (k ≤ at_most (clearing_price demand bids) bids)
      × (below (clearing_price demand bids) bids < k)
unfolding clearing_price sort_bids
clearing_price-marginal demand bids some' any' =
    let k = minimum demand (length bids) in
    let sorted = sort_by cost bids in
    let p = cost_at (k - 1) sorted in
    let inside : k - 1 < length sorted = ground (arith, length-sort_with (by cost) bids) in
    let is_cost : clearing_price demand bids ≡ p = ground arith in
    let (up, low) = cost_at-marginal (k - 1) sorted (sort_by-Ascending cost bids) inside in
    let positive : 0 < k = ground arith in
    rw is_cost (
      omega (arith, up, count_if-sort_with (by cost) (λ b. leb b.cost_per_stage p) bids, positive),
      omega (arith, low, count_if-sort_with (by cost) (λ b. ltb b.cost_per_stage p) bids, positive),
    )

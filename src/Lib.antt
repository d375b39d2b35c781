-- ===== src/Lib.antt =====
-- Verification of the core of the neural pub/sub experiments: the graphs of pipelines, their placement
-- on nodes, the market that prices nodes, the policy on missing inputs, the baseline, the static and
-- the neural broker, the federation of brokers and the merge of shards.
--
-- A client publishes a pipeline, a graph of stages, to a broker. The broker places each stage on a
-- worker, sends the stages whose predecessors are done, and records the reports of the workers, until
-- the pipeline is complete or has failed. Placement solvers read the graph, the topology and the
-- governance policy; market mode reads the clearing prices as well; the broker asks the funnel policy
-- what to do with a stage whose inputs are lost. Brokers of several domains exchange summaries of
-- their subscriptions, by which a publication is routed to another domain, and an oracle merges the
-- states of all shards.
--
-- - Prelude: tests, conditionals, lists, dictionaries of Python in their order, results that may be an
--   exception (Prelude/Outcome), integers for counters and costs that may be infinite.
-- - Dag, for src/pipeline/dag.py: `Stage`, `Edge`, `PipelineDag`; `add_stage`, `add_edge`, `sources`,
--   `sinks` and `is_tree` by their names. Dag/Search is `_can_reach`, Dag/Kahn `topological_sort`.
--   `IsGraph` of Dag/Graph is the well-formedness of graphs. Dag/Degrees and Dag/Order hold the proof
--   on the sort, Dag/Reach that on the search, and Dag/Tree is about `is_tree`.
-- - Placement, for src/broker/placement.py: the data, `_is_node_feasible_simple` and
--   `_is_node_feasible`. Placement/Rounds is the loop that four solvers share, Placement/Greedy
--   `_greedy_placement`, Placement/Dp the table and the trace of `_dp_placement`, Placement/Spread its
--   redistribution of siblings and `find_placement`, Placement/Baselines the heuristics,
--   Placement/Check `check_feasibility`, Placement/Costs the cost functions and Placement/MarketMode `market_mode_placement`.
--   Placement/Float lists what is used of floats. Fits, Links, Sound, Heuristics,
--   MarketSound, Traced and Chosen hold the proofs.
-- - Funnel, for src/broker/funnel_resilience.py: `apply_funnel_policy` and
--   `find_funnel_predecessor_stages`.
-- - Market, for src/broker/market.py: `compute_clearing_prices` and `should_trade_cross_domain`, with
--   Market/Marginal on the price of one group.
-- - Broker, for src/broker/models.py and src/broker/base.py: Broker/Ready is `_find_ready_stages`,
--   Broker/Handlers `_dispatch_stage`, `_dispatch_ready_stages`, `_handle_result` and the handlers of
--   /register, /publish and /result. Broker/Health has the step relation over all requests, and
--   Broker/Dispatchable describes readiness, Broker/Completed and Broker/Finished the end of a pipeline.
-- - Static, for src/broker/static_broker.py: the cycles of workers, `_pick_worker` and
--   `_compute_placement`; Static/Recovery is the count of failed probes and the re-placement of the
--   stages of a dead worker, and Static/Capacity `_build_capacity_summary`. Static/Eligible, Placed,
--   Sorted, Turns, Counted and Replaced hold the proofs, and Texts is on the order of names.
-- - Federation, for src/federation: Federation/Routing is routing.py, with proofs in Candidates and
--   Routes; Federation/Propagation is `SummaryPropagator` of propagation.py, with Fresh on the
--   summaries of peers, and Peers and Probes on their health; Federation/Serial is `serialize` and
--   `deserialize`.
-- - Integrator, for src/federation/integrator.py, with proofs in Integrator/Bottleneck.
-- - Sharded, for src/broker/sharded_oracle_broker.py: the merge of topologies and of policies, and
--   Sharded/Snapshot on the state that shards publish, and Sharded/Decide `decide_globally`.
-- - Neural, for src/broker/neural_broker.py: the state, `_rebuild_topology`, `_update_worker_load` and the
--   handlers of /register. Neural/Decision is `_dispatch_placement_on`, Neural/Recovery
--   `_remove_dead_worker`, `_replace_failed_stages` for one pipeline and `_dispatch_stage`, and
--   Neural/Requests `_dispatch_ready_stages`, `_try_federation_forward` and the handlers of /publish and
--   /result. Neural/Pull is
--   `_fetch_sharded_oracle_peer_topologies`. Mirror and Requested hold the proofs on registry and
--   topology over all requests, Gone those on a worker that died, Forwarding and Concluded those on the
--   answers.
-- - Measurement, for src/measurement/warmup.py: `WarmupCVDetector`, with Measurement/Window on what its
--   window holds. Measurement/Adaptation is `AdaptationTracker` of src/measurement/harness.py, and
--   Measurement/Paired on what it pairs.
-- - Wire: the values that are sent between brokers, with the reading of their fields.
-- - Samples: a small graph, topology, market, brokers, a federation and shards on which definitions and
--   theorems are run.
--
-- Numbers. Demands, capacities, latencies and prices are natural numbers of one small unit, 1e-9 where
-- the source has a tolerance of 1e-9, which is then 1. Rounding of floats is not modelled in sums and
-- comparisons of such amounts. The weighted costs of the solvers and the sum of load ratios are in
-- floats that are a parameter (Placement/Float), and so is the rounded sum of a load and its change in
-- the neural broker. Of the floats nothing is assumed but, for the dynamic
-- programme, that `<` is transitive and does not hold of inf and inf (`IsOrdered` of Placement/Traced).
--
-- Fuel. Breadth-first search has two rounds more than there are stages, and Kahn's algorithm one more:
-- a stage enters either queue at most once, and the start of the search once more.
--
-- Concurrency. A request of the broker runs to its end before the next one starts; the tasks of one
-- `gather` run in order. The answers of the transports are a parameter of each request.
--
-- Parameters of the model: the cosine distance and the type of embeddings, the codec of summaries
-- (`Codec`, with `IsLossless` on what it promises), `random.choice` on the state of its generator
-- (`ChoosesMember`), the outcomes of pushes, the answers of transports and probes, and
-- the mean and the deviation of samples.
--
-- Not modelled: the prices that the neural broker computes from bids, its health
-- loop and the loop over the pipelines of a dead worker with what it dispatches; the static
-- broker's dispatch with recovery; the construction and compression of summaries, which are numerics of
-- other libraries; workers, workload, the traces of pipelines and the injection of failures; HTTP,
-- Kafka, metrics and the texts of messages.
pub mod Prelude
pub mod Dag
pub mod Placement
pub mod Funnel
pub mod Market
pub mod Broker
pub mod Static
pub mod Wire
pub mod Federation
pub mod Integrator
pub mod Sharded
pub mod Neural
pub mod Measurement
pub mod Samples

-- ===== src/Lib.antt =====
-- Models and proofs of the storage engine: the checked sizes and the storage graph of storage-core,
-- the contract vocabulary of storage-provider, and the composition and execution of plans in
-- storage-engine.
--
-- The program. Providers (storage-provider) propose fragments of actions with contracts. The engine
-- (storage-engine/src/compose.rs) flattens them into one plan, orders it by its dependencies and
-- rejects plans in which two actions that access one resource, one of them for writing, are not
-- ordered. A run of a plan (storage-engine/src/execution.rs) takes each action through admission,
-- dispatch, completion and verification on evidence from live observations
-- (storage-engine/src/live.rs) of the storage graph (storage-core/src/model/graph.rs). A simulation
-- replays the plan on the desired state: it checks the prerequisites of each action, applies the
-- predicted effects to graph, mounts and capacities, and compares the outcome with the goal.
--
-- The files.
--   Base             shared: Boolean tests, lists, results, equality as an interface, u64 arithmetic.
--   Core.Sizes       storage-core/src/model/sizes.rs: `Bytes::checked_add` is `bytes_add`,
--                    `Bytes::checked_mul` is `bytes_mul`, `Mib::bytes` is `mib_bytes`.
--   Core.Block, Core.Raid, Core.Kind, Core.Node, Core.State
--                    the data types of storage-core/src/model and their constructors.
--   Core.Graph       storage-core/src/model/graph.rs: `NodeGraph` and its methods; Core.Graph.Order
--                    holds `topological_order` and `ancestors`, Core.Graph.Structure holds
--                    `validate_structure` and the wire boundary, Core.Graph.Sets the methods that
--                    change a graph, as the edits of one machine.
--   Provider         the data types of storage-provider/src/contract.rs, action.rs, planning.rs.
--   Engine.Plan      storage-engine/src/plan.rs.
--   Engine.Live      storage-engine/src/live.rs: `LiveObservation::validate`.
--   Engine.Compose   storage-engine/src/compose.rs: `add_dependency`; Engine.Compose.Order holds
--                    `topological_order`, Engine.Compose.Conflicts holds `dependency_path` and
--                    `validate_resource_order`.
--   Engine.Run       storage-engine/src/execution.rs: Defs holds the data types, Methods the methods
--                    of `ExecutionRun` that change it, Views those that read it, Evidence
--                    `checks_cover` and `evidence_state`. A method is a function from the run to the
--                    run that it leaves and its result; Command makes the methods the commands of
--                    one machine, for theorems about every sequence of calls.
--   Engine.Simulate  the simulation of a plan. Data and Evidence:
--                    storage-engine/src/simulation_evidence.rs. Checks:
--                    storage-engine/src/prerequisites.rs. Effects: storage-engine/src/effects.rs,
--                    whose `simulate_action` stands in Replay with `replay_plan` of
--                    storage-engine/src/simulate.rs. Goal (`compare_goal`) and Report (the
--                    obligations and `is_complete`): the same file. Protect:
--                    storage-engine/src/validate.rs. The state is a `Projection`, the desired state
--                    with its evidence; an effect is applied to a candidate, which is published
--                    when every step succeeds. Effects.Views says what the graph effects mean for a
--                    graph seen as a partial function and two sets. Soundness and Admission hold
--                    theorems on these parts together, as do the children of each part on it alone.
--
-- How the code is modelled. Machine integers are natural numbers; sums, products and event numbers
-- are checked against u64::MAX, and identities against u32::MAX, where the code checks them. An
-- index out of bounds and a usize below 0 are a result of their own (`panic`, `panicked`).
-- `HashMap` and `HashSet` are lists in iteration order; the theorems hold for every order, and those
-- that need it assume of a graph that no key or member stands twice (`IsSetLike`). A UUID is a
-- number, the nil one 0; a fresh UUID is an argument. A path is the list of its components. What a
-- provider says of an action (`validate_provider_action`, `describe_action` and
-- `verify_imported_contract`) is an argument of the replay, about which nothing is assumed.
--
-- Bounds. The loop of `Engine.Compose.Order.topological_order` recurses on the number of actions that
-- are left, as its `while` does. The search of `dependency_path` takes the number of dependencies
-- and two as its fuel: it pops its start once and one action for each dependency of a visited
-- action. The loops of `Core.Graph.Order` take one round for each node, and one for each dependency
-- and one more. The search of `Engine.Simulate.Evidence.Search` pops its first stack and one node for
-- each dependency of a visited node; its fuel is their number.
--
-- Not modelled: serde formats and fingerprints, the analysis of a plan document, the resolution of
-- requirements in composition, the contracts that providers derive from actions, the origins of
-- actions and the coverage of intents in `analyse_plan`, `validate_protected_scope` (it reads the raw
-- bytes of a path), editing sessions, the probe, the runtime with its leases and checkpoints, the
-- bindings of native libraries, the command line and the foreign function interface.
pub mod Base
pub mod Core
pub mod Provider
pub mod Engine

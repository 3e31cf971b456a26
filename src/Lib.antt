-- ===== src/Lib.antt =====
-- propsim: a library that tests distributed protocols under simulation. A user writes a node as a
-- state machine; the simulator runs a cluster of them on virtual time under faults, records a
-- history of client operations, and an oracle judges the history.
--
-- The parts, and the file that models each:
--   Float64              the comparisons of f64 that the program makes, on bit patterns
--   History              crates/propsim-history/src/{op,time,history}.rs: OpEntry and its parts
--   History/Values       Value and its derived equality
--   Numerals, Texts      what the codecs and the seeds call of the standard library on texts
--   History/Parsed       the results of the readers, and crates/propsim-history/src/lib.rs: ParseError
--   History/Edn          crates/propsim-history/src/edn.rs: write_edn (Edn/Write) and parse_edn with
--                        its Parser (Edn/Read)
--   History/Json         crates/propsim-history/src/edn.rs: write_json (Json/Write) and parse_json
--                        with its JsonParser (Json/Read)
--   History/Codec        crates/propsim-history/src/history.rs: to_jepsen_edn, to_jepsen_json,
--                        from_jepsen, entry_to_value, value_to_entry
--   Core/Node            crates/propsim-core/src/node.rs: Node, Ctx (a callback is the tree of its
--                        context calls), OpOutcome, Completion, ClientCodec, Rng::duration_ms
--   Core/Transport       crates/propsim-core/src/transport.rs: Prob and NetworkModel
--   Core/Faults          crates/propsim-core/src/faults.rs: Faults, and its verbs (Faults/Builder)
--   Core/Seed            crates/propsim-core/src/seed.rs: the text of a seed
--   Core/Plan            crates/propsim-core/src/{plan,scenario}.rs: what a run reads
--   Sim/Rng              crates/propsim-sim/src/rng.rs: SimRng (SplitMix64)
--   Sim/Scheduler        crates/propsim-sim/src/scheduler.rs: SchedCore and every operation of it
--   Sim/Ctx              crates/propsim-sim/src/ctx.rs: HarnessCtx as the interpreter of a callback
--   Sim/Faults           crates/propsim-sim/src/faults.rs: lower and lower_swarm
--   Sim/Driver           crates/propsim-sim/src/lib.rs: dispatch_*, pump_client_ops, run_horizon
--   Sim/Driver/Run       crates/propsim-sim/src/lib.rs: run_deterministic and its main loop
--   Sim/Properties       crates/propsim-sim/src/properties.rs: the verdicts on properties
--   Sim/Drive            crates/propsim-sim/src/lib.rs: drive, shrink_scenario, effective_seed
--   Core/Oracle          crates/propsim-core/src/oracle.rs: Verdict and Oracle
--   Core/World           crates/propsim-core/src/world.rs: World and WorldTrace
--   Core/Property        crates/propsim-core/src/property_impl.rs: Property
--   Core/Backend         crates/propsim-core/src/{backend,needs,executor}.rs: validate
--   Core/Artifacts       crates/propsim-core/src/executor.rs: Artifacts
--   Core/Display         the texts of BackendError, RunFailure and SeedParseError
--   Core/TestPlan        crates/propsim-core/src/plan.rs: PlanBuilder and TestPlan
--   Facade               crates/propsim/src/run.rs: try_run and run
--   Facade/Presets       crates/propsim/src/backend_presets.rs: deterministic, and
--                        DeterministicExecutor of crates/propsim-sim/src/lib.rs
--   Facade/Guard         crates/propsim/src/guard.rs: assert_deterministic
--   Oracle/Model         crates/propsim-oracle/src/model.rs: SequentialModel
--   Oracle/Linearizability  crates/propsim-oracle/src/linearizability.rs: parse_spans, recurse,
--                        search, check and the two oracles
--   Iroh                 crates/propsim-iroh/src/lib.rs: IrohInMemory, whose send is a placeholder
--   Base                 shared tests on numbers and texts, lists, maps
--   Tests                runs of the model on small programs
--
-- The driver calls the scheduler, which answers with a popped event; the driver hands it to a
-- node, whose callback acts on the scheduler through the context; then client ops are issued and a
-- frame is recorded. The oracle reads the history that is left.
--
-- A history is saved by to_jepsen_edn or to_jepsen_json, which turn each entry into a value and
-- write it, and read by from_jepsen, which chooses a reader by the first characters.
--
-- The proofs follow that structure. Sim/Scheduler/Calls names the calls of the scheduler that a
-- callback can make, each a sequence of the elementary changes of Sim/Scheduler/Moves; Sim/Ctx/Calls
-- and Sim/Driver/Calls reduce a callback and a handled event to them, Sim/Scheduler/Rule and
-- Sim/Driver/Run/Rule are the rules of the two loops, and a property of a run is an invariant that
-- is shown for each call or change. Sim/Scheduler/Kept lists what an invariant of the queue, the
-- timers and the links has to withstand, Sim/Driver/Run/Reach has the steps of a run as a relation
-- and carries such an invariant along them. Facade/Paired puts a run and the pairing of the oracle
-- together: the run gives histories whose processes take turns (Sim/Driver/Run/Sequential), and on
-- such a history the pairing keeps at most one open invoke of a process (Oracle/Linearizability/
-- Turns, Alternating). Sim/Driver/Run/Replay says what a run takes from a replayed scenario.
-- Sim/Ctx/Addressed has the contract of a node that sends only to the nodes of its cluster, and the
-- files Addressed of the scheduler, the faults and the driver carry it to Sim/Driver/Run/Safe.
--
-- Bounds and fuel. Durations are nanoseconds without a bound: the panics of a Duration past 2^64
-- seconds (of a timer, of the horizon, of a deadline) are left out, so no theorem says that a run is
-- free of them. The random generator wraps at 2^64. Counters that grow by one a call (sequence numbers,
-- tokens, generations) are plain numbers. A panic on an index out of bounds is a result. The loop
-- of pop has as fuel the length of the queue, which falls in every round. The search of the oracle
-- recurses on its own counter of remaining spans. The main loop of a run takes fuel and says when
-- it runs out, since a node can keep a run going for ever with timers that take no time; a node
-- with a budget (Sim/Ctx/Load: weights for its messages and timers, a credit for its states) cannot,
-- and Sim/Driver/Run/Ends gives the fuel that is enough for it, by the load of the queue
-- (Sim/Scheduler/Load) that falls with each event (Sim/Driver/Load). A reader of
-- n characters has 2 n + 1 nested calls as fuel: each call that reads a value, or goes on within a
-- collection, follows a character that was read. An i64 and a u64 of a saved history keep their
-- ranges and wrap as the casts of the source do. A text is a list of code points; where the source
-- counts or cuts bytes the model counts them.
--
-- Arguments of the model: the node and its codec, the sequential model (with the law of its Eq),
-- the ops that the third-party proptest strategy generates for a seed, the seed that the environment
-- pins, the texts that Debug gives for durations and anchors, and the decimal text of an f64.
--
-- Not modelled: files, the exhaustion of the stack by a deeply nested text, and the texts of panics
-- but that of `run`.
mod Base
pub mod Float64
pub mod Numerals
pub mod Texts
pub mod History
pub mod Core
pub mod Sim
pub mod Oracle
pub mod Facade
pub mod Iroh
mod Tests

-- ===== src/Lib.antt =====
-- Verification of the kernel of workflow-control (apps/server/src/kernel-next): the program that stores
-- pipelines of agent, script and gate stages joined by wires, checks them, plans their sessions, and
-- changes them while tasks run.
--
-- The parts and how they interact. A pipeline is data (the IR). A patch (mcp/patch.ts) makes a new
-- pipeline from an old one. Before a pipeline is stored, the structural rules
-- (validator/structural.ts) and the check for cycles (validator/dag.ts) pass over it; the check
-- relies on the rules, since it throws on a wire whose ends are not declared. The planner
-- (runtime/segment-planner.ts) groups the stages of a single-session pipeline into segments, each of
-- which shares one conversation. On a change of a stored pipeline, hot-update/diff.ts computes the
-- difference, hot-update/safe-range.ts decides from it and from the impact on running tasks whether
-- the change is safe, and hot-update/wire-reachable.ts and runtime/topo-downstream.ts find the stages
-- that the wires lead to.
--
-- A task runs as a state machine with one region for each stage (compiler/ir-to-machine.ts). A region
-- waits for the values of its wires, whose guards (runtime/guard-evaluator.ts) decide what they
-- deliver, and, if a gate that does not lie behind it has it as a target, for the gate's answer; then it
-- executes and ends as done or in error. When it fails, the runner (runtime/runner.ts) cancels the
-- stages that its outputs lead to. When a gate is answered by a rejection, or a script stage fails and may be retried,
-- the runner resets part of the context and compiles the machine anew from it. What
-- happens is published to the listeners of the task (sse/broadcaster.ts).
--
-- An agent stage executes in turns: the messages of the model provider's SDK become events
-- (runtime/sdk-adapter.ts, runtime/stream-pump.ts) of a machine that tells whether the agent thinks,
-- waits for tools or compacts (runtime/agent-machine.ts), and an abort becomes an interrupt. A signal
-- that the provider limits the rate is published with a pause (runtime/rate-limit-backoff.ts).
--
-- Files, with the source under apps/server/src/kernel-next:
--   Prelude, Prelude/*    shared names, tests, lists, names (a JS Set), dictionaries (a JS Map)
--   Ir, Ir/Wires          ir/schema.ts (parsed values), ir/wire-helpers.ts
--   Reach, Reach/*        topoDownstream and computeWireTransitiveReaders
--   Patch, Patch/*        applyPatch: apply_op has one clause for each case of the switch; a thrown
--                         PatchApplyError is `throws` with its code and operation
--   Kahn, Kahn/*          the loop that topologicalStageOrder, buildDag and
--                         findEarliestDivergence share
--   Segments, Segments/*  topologicalStageOrder and planSegments
--   Dag, Dag/*            buildDag, extractCycle, validateDag
--   Structural/*          validateStructural, its passes one by one: Names, Stages, Wiring,
--                         Ancestors (rollback targets), Sessions (cross_segment_resume_from), EnvKeys;
--                         Verdict is all of them together
--   Divergence            hot-update/divergence.ts: findEarliestDivergence
--   Compile, Compile/*    compiler/ir-to-machine.ts: computeGateAncestors, indexStages, the routing and
--                         rollback maps, buildInitialPortValues; Compile/Build is compileIRToMachine
--   Machine               buildStageRegion: Machine/Context is the data, Machine `executing` and what
--                         all states share; Machine/Waiting is
--                         `waiting` and the four tables together (react for an event, react_always for
--                         the transitions without one); Machine/Run the step relation
--   Guards, Guards/*      runtime/guard-evaluator.ts and runtime/runner-wire-resolver.ts
--   Rebuild, Rebuild/*    runtime/runner.ts: what is kept of a run before the machine is compiled anew
--                         after a rejection (rollback_rebuild) and for a retry (retry_rebuild)
--   Cancel, Cancel/*      runtime/runner.ts: what is sent to the stages downstream of a failed one
--                         (computeTransitiveDownstreams is in Reach)
--   Agent, Agent/*        runtime/agent-machine.ts: Agent/Context (the data), Agent (the transitions)
--                         and Agent/Output; Agent/Backoff is runtime/rate-limit-backoff.ts with what
--                         real-executor.ts publishes
--   Agent/Adapter         runtime/sdk-adapter.ts and the loop of runtime/stream-pump.ts
--   Validation            mcp/kernel.ts: KernelService.validate after the parser
--   Broadcaster           sse/broadcaster.ts: publish, subscribe, unsubscribe, clearTask, historyFor
--   StoreSchema           validator/store-schema.ts: validateStoreSchema
--   Diff, Diff/*          diffWires (Diff), diffPorts (Diff/Ports), computePipelineDiff
--                         (Diff/Changes, Diff/Stages), classifySafeRange (Diff/SafeRange)
-- Each component's Samples module runs it on a small pipeline.
--
-- Loops. A `while` loop over a queue runs on fuel; `none` (in Dag: `out_of_fuel`) stands for fuel that
-- ran out and is no outcome of the program. The searches of Reach get a round for each wire and one
-- for the start, Kahn's loop a round for each stage, and the depth-first search of the cycle check a
-- depth of one more than the stages that remain. This is enough, since a round of Reach follows a
-- wire that first led to its stage, a round of Kahn's loop lists a stage, and each call of the
-- depth-first search that goes on visits a stage. The two searches of the structural rules get a
-- round for each wire and one for the start (Ancestors) and two rounds for each wire (Sessions); so
-- do the compiler's search down the wires and its walk up from a gate.
--
-- The state machine. XState, a library, runs the tables of transitions that the compiler writes. The
-- model gives, for each state, the first enabled transition with all its actions, and a run takes
-- enabled transitions of any regions in any order, with port values written at any time; so what holds
-- of all runs holds of the order that XState chooses. The guards' expressions are compiled by
-- JavaScript itself (`new Function`): they are a parameter, which returns a truth value or throws.
-- The machine of an agent's turn has a single region, and `send` takes the actions of a transition, the
-- entry of its target and the transition that is always enabled, in the order that XState documents.
-- What comes to a turn is a list of messages and aborts, in any order.
--
-- Choices. Optional properties are `Option`. An exception is a value: `throws` with the error. A JS
-- Set is a list without repetition, a JS Map an association list, both in the order of insertion.
-- Diagnostics and reasons keep their code and the values of their texts, not the texts. Where the
-- source builds a text as a key (port index, wire key), the model compares the parts: the schema's
-- names are identifiers, which hold no separator. Numbers here count things and do not overflow; the
-- utilization of a rate limit is a number of JavaScript that is not negative, with its exact binary value.
-- In-degrees stay at 0 where the source counts below it, where no test looks. A lookup
-- in a JavaScript object finds own keys only: a stage or an input with the name of a member of
-- Object.prototype (`constructor`), which `in` and an index also find there, is not covered.
--
-- The check of types, which runs the TypeScript compiler, is a parameter of the validation.
--
-- Not modelled: the zod parsers, the rest of the runner (executors, fanout, the replay of gates), the
-- database, network and language-model calls, the web application.
pub mod Prelude
pub mod Ir
pub mod Reach
pub mod Patch
pub mod Kahn
pub mod Segments
pub mod Dag
pub mod Structural
pub mod Diff
pub mod Divergence
pub mod Machine
pub mod Compile
pub mod Guards
pub mod StoreSchema
pub mod Rebuild
pub mod Agent
pub mod Broadcaster
pub mod Cancel
pub mod Validation

-- ===== src/Lib.antt =====
-- notestr: a task manager whose tasks are shared over MLS groups (Marmot) and Nostr relays.
-- This library models the way of a task event: the publish outbox that sends it, the adapter
-- and the receive engine that take it in, and the projector that makes tasks of it; and the
-- records kept about devices.
--
-- The parts and how they interact. The adapter turns decrypted envelopes into ingest signals.
-- The receive engine (src/engine/receive-engine.ts) runs them through one serial queue: it
-- appends the envelope to the raw log, accepts the event into the accepted log or parks the
-- fact, and tells its listeners. The stores (src/persistence) keep both logs, the parked ids
-- and a checkpoint for each group. The projector (src/domain/task-projector.ts) folds the
-- accepted events into the tasks, by the merge rule of src/domain/task-crdt.ts.
--
-- The files. Prelude and its children hold Boolean tests, lists, texts (UTF-16 units) and
-- association lists. Domain.Events is about src/domain/task-events.ts and
-- src/domain/domain-events.ts, Domain.TieBreak about src/domain/task-crdt.ts, Domain.Projector
-- about src/domain/task-projector.ts, Domain.Reducer about src/store/task-reducer.ts and
-- Domain.Timestamp about src/store/task-store-utils.ts. Persistence models
-- src/persistence/raw-event-log-store.ts, deferred-store.ts and checkpoint-store.ts; its child
-- RawLog is about the raw log, Crash about an interrupted acceptance, Clear about the purge. A
-- call that spans several databases is a list of stages, which its run, its interruption and
-- its refusal all read. Engine.Types is src/engine/engine-types.ts and Engine.Policy
-- src/engine/ingest-policy.ts. Engine.World, Writes, Handlers, Retry, Serial, Cutover and Start
-- are src/engine/receive-engine.ts: a function of the engine is an action on World, which holds
-- the variables of the closure, the stores and a schedule. The schedule says of each await
-- whether the database refuses the write, which writes of a refused call have landed before,
-- whether stop() is called meanwhile, and how much time passes; a theorem holds for every
-- schedule unless it says otherwise. Engine.Session says what a session promises, and its
-- children are about the jobs and about start; Engine.Watermark is about lastIngestedSeq; the
-- children of Engine.Start are about the ways to the live state and about stop and reset;
-- Engine.Steady and Engine.Ensures hold what the proofs about actions share. Outbox is the
-- durable outbox of src/integration/publish-outbox.ts, with the cap of 256 entries that
-- src/integration/marmot-adapter.ts sets; Outbox.Bridge and Outbox.Windows are the bridge of
-- the latter file, Outbox.Send the attempts of the former; Outbox.Machine and Outbox.Echo are
-- about the status of an entry and its returning event. Adapter is the rest of
-- src/integration/marmot-adapter.ts: the shape of parsed values, Adapter.Messages the
-- translation of a batch, Adapter.Bootstrap the snapshots of the members, Adapter.Codec the
-- rumor of src/integration/publish-outbox.ts and its way back; Adapter.Winners, Snapshots and
-- Epochs are about them. FailedWelcomes is src/marmot/failed-welcomes.ts, Devices
-- src/marmot/device-store.ts, forgotten-slots.ts and probe-gate.ts. Tests and its children hold
-- concrete data, runs of the model, and the theorems at concrete inputs. A function keeps its
-- name, in snake case.
--
-- Fuel. The retry of a write has the bound on the attempts as its fuel, which is enough. The
-- rounds of enterRetryingDeferred have a fuel that is an argument: a stream of nested epoch
-- changes can make the loop run on. The theorems about them hold for every fuel and say what
-- the rounds keep, not that they end; a model whose fuel is used up stops where the loop would
-- run on.
--
-- Assumptions. The adapter's ingestPersisted and openLive do not throw: a session in which they
-- do is outside the model. Its fetchBootstrap and catchUp may throw. A timer of the bootstrap
-- fetch that is due runs its callback to its end before the next signal of the fetch is looked
-- at. A checkpoint that isValidCheckpoint refuses is a read that fails. The write of a persist
-- hook of the outbox, which nobody waits for, takes place at once and is not refused. What
-- happens in the bridge while sendApplicationRumor is awaited is a list of steps, and its end
-- an error message or none; the lock of a group lets one attempt run at a time. The local
-- accept of a publish is acceptLocal of the engine's model. The results of group.ingest, the
-- calls that decode, decrypt, parse and print, and the answers of the relays are arguments.
-- Parsed JSON has each member of an object once. The changes of a received update may have any
-- member of a task beside the title and the description; one whose value does not fit that
-- field of a task is read as absent.
--
-- Outside the model: the detached retry of a checkpoint save, of which one attempt is modelled;
-- the handles of timers and subscriptions; the rest of the device management (src/marmot) and
-- the React bindings; MLS, the relays and IndexedDB, which are not in the repository; the user
-- interface. Numbers are non-negative integers; the one sum that is compared with its operand,
-- that of Domain.Timestamp, is rounded as a double is. The group id that every output event
-- carries is the engine's own and is left out.
pub mod Adapter
pub mod Prelude
pub mod Domain
pub mod Engine
pub mod Persistence
pub mod Outbox
pub mod FailedWelcomes
pub mod Devices
pub mod Tests

-- ===== src/Lib.antt =====
-- Agent Mission Control: the missions of coding agents, supervised from one desktop.
--
-- A mission follows routes (crates/domain). What an agent may do on a route is decided by the policy
-- crate (crates/policy): an intent is let through, sent to the user, or denied; an approval binds the
-- user's word to one subject; a budget tracker turns usage into signals at safe boundaries. The
-- supervisor (crates/supervisor) schedules the missions' actions, turns resource pressure into
-- throttling and pauses, and holds the protocol by which a mission is paused and terminated. Each
-- mission has an actor, which writes an event for each decision to the ledger (crates/ledger) and is
-- made again from it. What the user confirms of a mission is remembered (crates/memory) and packed as
-- context for the agents. The desktop and the supervisor talk in frames after a handshake
-- (crates/protocol).
--
-- The files:
--   Prelude           shared names, tests, lists, results, text and u64 arithmetic
--   Domain/Ids        crates/domain/src/ids.rs
--   Domain/Evidence   crates/domain/src/evidence.rs: the matrix (Evidence), what it promises
--                     (Evidence/Backing)
--   Domain/Route      crates/domain/src/route.rs: the operations (Route), the diagram of states
--                     (Route/Graph), histories (Route/Lifecycle)
--   Domain/Event      crates/domain/src/event.rs: kinds, envelopes, the payload's hash (Event), the names
--                     of the kinds (Event/Names)
--   Domain/ReadModel  crates/domain/src/read_model.rs: reduce and replay (ReadModel), what reduce keeps
--                     (Reduce), the gaps that replay reports (Sequences, Replay, Gaps), reduction one by
--                     one (Live)
--   Domain/Contract   crates/domain/src/contract.rs: the patch (Contract), what it changes and what its
--                     diff says (Fields, Patches)
--   Ledger/Events     crates/ledger/src/sqlcipher.rs: appending, batches and replay over the rows of the
--                     table (Events), the numbering (Events/Sequence), repeated and batched appends
--                     (Retry, Batch), what a replay gives back (Replay)
--   Memory            crates/memory/src: items and their extraction from events (Item: item.rs and
--                     extract.rs), the store (Store: lifecycle.rs), any calls and what they keep (History,
--                     Audit), packs of context (ContextPack: context_pack.rs) and what they hold (Packing),
--                     recovery packages (Recovery: recovery.rs) and what they prove (Packages)
--   Policy/Action, Policy/Engine, Policy/Envelope, Policy/Approval, Policy/Budget
--                     the files of crates/policy/src with these names
--   Protocol          crates/protocol/src: bytes (Bytes), the handshake (Handshake: handshake.rs), the nonces
--                     of its verifier (Nonces), frames (Frame: frame.rs)
--   Supervisor/Resource   crates/supervisor/src/resource_budget.rs
--   Supervisor/Pause      crates/supervisor/src/pause.rs
--   Supervisor/Pipeline   crates/supervisor/src/event_pipeline.rs: the operations (Pipeline), sequences of
--                     events (Delivery), the recovered pipeline against the live one (Recovery)
--   Supervisor/Scheduler  crates/supervisor/src/scheduler.rs: the operations (Scheduler), the map of
--                     missions (Missions), the invariant (Capacity, Operations), the round of turns
--                     (Turns), histories (History)
--   Supervisor/Actor  crates/supervisor/src/mission_actor.rs, with the approval command of
--                     crates/protocol/src/command.rs and the event of an agent of
--                     crates/adapter-core/src/adapter.rs: rehydration (Actor), pauses and recovery
--                     (Pausing), approvals (Decisions, Approvals), agents' events (AgentEvents), the
--                     encrypted ledger as an actor's ledger (Encrypted). The actor against its ledger:
--                     the invariant (Rehydration), the methods that keep it (Keeps, Appended, Recorded,
--                     Requests, Filed), any calls (History), an event without its approval (Unreadable),
--                     a list of events as a ledger (InMemory)
--   Supervisor/Budgets, Supervisor/Loadouts  the parts of the service that stand alone: the budget of a
--                     mission, its events and its tokens (Budgets, Tokens); crates/adapter-core/src/
--                     capability.rs and crates/supervisor/src/loadout_monitor.rs: providers, loadouts
--                     and the monitor (Loadouts, Frozen)
--   Supervisor/Service  crates/supervisor/src/mission_service.rs: the state and what is given to it
--                     (Service), what commands are made of (Action), the missions' commands (Missions),
--                     pauses, approvals and termination (Control), the launch of a run (Launch), the
--                     loop over its events (Runs), the desktop's presence and the restart (Presence).
--                     The commands: creation (Creation, Atomic), restarts (Restart), guards (Guards, Launches,
--                     Busy), an event that cannot be recorded (Unrecorded), the end of a run
--                     (Succeeds, Ended), the watchdog (Quiet); the
--                     data of the concrete runs (Fixture)
--   Files named Samples hold concrete runs and the theorems at concrete inputs.
--
-- How the code is read. A method on `&mut self` returns the new state beside its outcome, a `Result`.
-- A `match` on a field of `self` is a function by clauses of that field. A `u64` is a number; `+= 1`
-- wraps at 2 ^ 64 as in a release build, and the saturating operations saturate. An identifier is the
-- 128-bit number of its UUID. `trim().is_empty()` is a test of every character against the Unicode
-- property White_Space. A method named `record`, a reserved word here, is `record_evidence` and
-- `record_usage`. A map keyed by the six budget dimensions is a function; the scheduler's map of
-- missions is a list of pairs, whose order no operation shows. The JSON library and the hash are the
-- record `Json`, a parameter, as is the decoder of an evidence entry; a set of identifiers is the list
-- of its members. The ledger behind the trait `AppendOnlyLedger`, the channels of subscribers and the
-- print of an identifier are parameters of the pipeline, and the serialization of a contract's fields
-- is the record `Serializer`. The actor's ledger, owned processes, identifiers and JSON payloads are the
-- record `Host`. A statement of SQL is a function of the table's rows; the database may fail each
-- statement, which `Faults` says; the redactor and the texts of JSON values are the record `Codec`.
-- HMAC is the record `Mac`, the JSON library of frames `Wire`, the hash of a pack `Digest`. A
-- method of the actor that fails keeps what it has changed before, as the code does. A command of the
-- service is an action on its state: its locks are never poisoned, one command ends before the next
-- begins, every ledger that it opens is a connection to one database, and its orders to the adapters are
-- a list, in which the probe of an adapter, a question, does not stand. What the adapters and the ledger
-- answer, and the payloads, are the record `Platform`.
--
-- Bounds. The loop of `MissionScheduler::next` runs for the length of the schedule, as in the source.
-- The decimal printer takes one more unit of fuel than its number, which a round trip shows is enough.
--
-- The laws `IsFaithful` of an actor's ledger are those of the list of events (InMemory). The encrypted
-- ledger does not meet them for every event: it redacts payloads, and it gives an unknown kind that is
-- named like a known one back as the known one.
--
-- Not modelled: serialization, the clock, the ledger's files, encryption and blobs, retention and
-- redaction; of the mission service the recovery packages, the handoff, archives, deletion, exports and
-- previews, and the dispatch of a command's JSON; the adapters, the recall of memory, the workspace,
-- processes, pipes, the desktop client.
pub mod Prelude
pub mod Domain
pub mod Policy
pub mod Ledger
pub mod Memory
pub mod Protocol
pub mod Supervisor

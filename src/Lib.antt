-- ===== src/Lib.antt =====
-- Mercury Messaging: the Rust crates - CRDTs for offline-first sync, the domain types with their
-- validation, end-to-end encryption by MLS groups, and the two bridges to Elixir and JavaScript -
-- and what these meet in the two other languages: the frames on the wire, the socket of the
-- gateway, and the sync between an offline client and the server.
--
-- The parts, and how they interact. A client stamps its changes with a hybrid logical clock (Hlc)
-- and keeps them in CRDTs: a counter (Gcounter), a register (LwwRegister), a set (Orset), a log of
-- messages (MessageLog) and the reactions to a message (ReactionMap, a set of pairs). All implement
-- the trait Mergeable; replicas exchange states or, for the log, the entries after an HLC. Deltas
-- (Delta) travel in bounded batches. The domain types (Core) are validated where they enter: by the
-- functions for Elixir (Nif), and by those for JavaScript (Sdk). Both of these also wrap the manager
-- of the MLS groups of a device (Crypto).
-- A client talks to the gateway in binary frames (Frame) over one WebSocket, whose process keeps the
-- joined topics and takes the pushes (Gateway). A message that is sent without a connection waits
-- in a queue of the browser; when the client is back, the sync engine pulls the deltas of a
-- channel in rounds and pushes the queue (Sync).
--
-- Which file models which part:
--   Hlc            crates/mercury-crdt/src/hlc.rs: now, tick, merge, cmp, system_time_ms
--   Mergeable      crates/mercury-crdt/src/traits.rs
--   Gcounter       crates/mercury-crdt/src/gcounter.rs
--   LwwRegister    crates/mercury-crdt/src/lww_register.rs
--   Orset          crates/mercury-crdt/src/orset.rs (the type and its methods in Orset/Defs.antt)
--   MessageLog     crates/mercury-crdt/src/message_log.rs and error.rs
--   ReactionMap    crates/mercury-crdt/src/reaction_map.rs
--   Delta          crates/mercury-crdt/src/delta.rs
--   Core           crates/mercury-core/src: ids.rs, error.rs, tenant.rs, time_bucket.rs, message.rs,
--                  channel.rs, proto.rs (Core/Proto.antt)
--   Crypto         crates/mercury-crypto/src: mls.rs (Crypto/Manager.antt) and encryptor.rs
--   Nif            crates/mercury-nif/src/lib.rs: validations, clocks, the MLS resource, the wire
--                  format
--   Sdk            crates/mercury-sdk-core/src/lib.rs, and unpackAddMember of
--                  sdks/mercury-sdk-js/src/mls.ts
--   Frame          sdks/mercury-sdk-js/src/frame.ts, and handle_in, pack_envelopes and
--                  unpack_envelopes of apps/gateway/lib/gateway/binary_socket.ex
--   Sync           sdks/mercury-sdk-js/src: offline-queue.ts and the queue of store.ts (Sync/Queue.antt),
--                  the messages of store.ts (Sync/Messages.antt), sync.ts with sync, pushDeltas and
--                  the offline branch of send of channel.ts (Sync/Wire.antt, Sync/Client.antt);
--                  apps/persistence/lib/persistence/sync.ex (Sync/Server.antt, Sync/Server/Apply.antt);
--                  the handler of sync:request in binary_socket.ex (Sync/Request.antt), and the
--                  client's loop against it (Sync/Session.antt)
--   Gateway        apps/gateway/lib/gateway/binary_socket.ex: init and the topics (Gateway/Socket.antt),
--                  joins (Gateway/Join.antt), the clauses of dispatch (Gateway/Messages.antt,
--                  Gateway/Groups.antt, Gateway/Channels.antt), handle_push (Gateway/Dispatch.antt),
--                  and the messages of the process (Gateway/Process.antt)
-- Orset/Network.antt has replicas of one set that exchange copies, MessageLog/Built.antt the logs that
-- a program can come to hold.
-- Base, Order, Join, BTree and HashMap are shared: tests, results and machine words; orders by
-- comparison; joins; and the two maps of the standard library.
--
-- State and operations. A method that takes `&mut self` is a function from the old value to the
-- new one. A call that may panic gives an `Outcome`, one that may fail a `Result`; a method that
-- fails after it has changed its state gives both the state and the result (Crypto/Step.antt).
-- Numbers are natural numbers. A sum of machine words takes the build: in a debug build it panics
-- on overflow, in a release build it wraps, since no profile of the workspace sets
-- `overflow-checks`; `checked_add` and `try_from` are the same in both. A `BTreeMap` is a list in
-- the order of its keys, and the invariants of the types that hold one say so. A `HashMap` is an
-- association list in the order of its iterator, which is arbitrary: results on it speak of
-- lookups, or of what does not depend on the order. The system clock is an argument: the time since
-- the epoch, or `none` before it. A freshly generated id is an argument too.
--
-- A handler of the gateway logs its calls to other parts of the server, and gives a frame,
-- raises, or exits, which `rescue` does not catch (Gateway/Act.antt). A rejected promise of the
-- client is a panic. The object stores of the browser are lists in the order of their keys.
--
-- Parameters. The crates uuid and ulid (Core/Ids.antt) and openmls with its companions
-- (Crypto/Crates.antt) are records of functions, with what their documentation promises as named
-- laws; so are capnp and the accessors generated from the schema (Core/Capnp.antt), with the type
-- of the written bytes. Tests/Crates.antt and Tests/Wire.antt fill them with concrete functions.
-- What the gateway asks of the rest of the server are records of functions
-- (Gateway/Services.antt, and Persistence of Gateway/Join.antt); what a query of the messages
-- gives is an argument of get_deltas, and what the answers are is one of the pull loop.
--
-- Bounds. All loops run over lists or down from a count, and end with them, but for the pull loop
-- of the client, which has fuel: two rounds are enough where the gateway answers both and no
-- message is stored after its clock at the first. The log has at most 100000 entries, a batch
-- 1000 deltas, a list 10000 key packages, a message 262144 bytes of content, a group 1000 members
-- before another is added, and a plaintext for encryption 65536 bytes. Sums of counts of entries
-- in memory do not overflow their `usize`, and are not bounded.
--
-- Not modelled: the functions that only return a fresh id; the parsing of JSON by serde; the crates
-- mercury-db and mercury-transport, which are stubs; of the gateway socket, terminate, the
-- telemetry and the publishing to the message broker; the texts in base 16 and 64 in which the
-- persistence hands deltas to the gateway, which decodes them again; times above 2^53, where a Number of
-- the client is not exact; timers, and failures of the object stores; the transport of the client with
-- its rejoin, the rest of the JavaScript SDK and of the Elixir applications, which are glue over the
-- browser, databases and HTTP; the schema files and the deployment.
pub mod Base
pub mod Order
pub mod Join
pub mod BTree
pub mod Hlc
pub mod Mergeable
pub mod Gateway
pub mod Gcounter
pub mod LwwRegister
pub mod MessageLog
pub mod Core
pub mod Delta
pub mod Frame
pub mod HashMap
pub mod Orset
pub mod ReactionMap
pub mod Crypto
pub mod Nif
pub mod Sdk
pub mod Sync
pub mod Tests

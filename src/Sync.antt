-- ===== src/Sync.antt =====
-- Delta sync between sdks/mercury-sdk-js/src (sync.ts, offline-queue.ts, store.ts and the sync
-- calls of channel.ts) and apps/persistence/lib/persistence/sync.ex with its handlers in
-- apps/gateway/lib/gateway/binary_socket.ex.
pub mod Queue
pub mod Server
pub mod Wire
pub mod Messages
pub mod Client
pub mod Request
pub mod Session

-- ===== src/Gateway.antt =====
-- apps/gateway/lib/gateway/binary_socket.ex: the process behind one WebSocket. What it asks of the
-- other parts of the server are arguments, what it tells them are the calls that a handler logs.
pub mod Hex
pub mod Act
pub mod Socket
pub mod Join
pub mod Services
pub mod Reply
pub mod Messages
pub mod Groups
pub mod Channels
pub mod Dispatch
pub mod Process

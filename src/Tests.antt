-- ===== src/Tests.antt =====
-- Runs of the model on concrete inputs.
mod Crates
mod Clocks
mod Sets
mod Logs
mod Reactions
mod Domain
mod Groups
mod Wire
mod Replicas
mod Frames
mod Offline
mod Sockets

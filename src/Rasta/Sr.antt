-- ===== src/Rasta/Sr.antt =====
-- src/rasta/c/rasta_new.c: the safety and retransmission layer, one connection at a time.
pub mod State
pub mod Checks
pub mod Send
pub mod Handshake
pub mod Heartbeat
pub mod Data
pub mod Receive
pub mod Threads
pub mod Connections
pub mod Steps
pub mod Orderly
pub mod Rejects
pub mod Quiet
pub mod Effect
pub mod Retransmission
pub mod ClientStart
pub mod Window
mod Tests

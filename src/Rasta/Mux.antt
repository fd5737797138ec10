-- ===== src/Rasta/Mux.antt =====
-- src/rasta/c/rasta_red_multiplexer.c: the multiplexer, which keeps a redundancy channel for each
-- partner and sends and receives its packets on the UDP sockets.
pub mod State
pub mod Send
pub mod Receive
pub mod Retrieve
pub mod Threads
pub mod Table
pub mod Sent
pub mod Delivery
mod Tests

-- ===== src/Rasta.antt =====
-- src/rasta: the RaSTA protocol.
pub mod Link
pub mod Packet
pub mod Codec
pub mod Fifo
pub mod Sr
pub mod Red
pub mod Mux

-- ===== src/Pdi.antt =====
-- src/cloud_ixl/c/main.c: the PDI connection between the Cloud IXL and the Object Controller, and the
-- command loop of the interlocking.
pub mod State
pub mod Receive
pub mod Events
pub mod Dispatch
pub mod Signs
pub mod Moves
pub mod Follows
pub mod History
pub mod Established
pub mod Confirm
pub mod Failure
mod Tests

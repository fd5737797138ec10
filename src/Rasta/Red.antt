-- ===== src/Rasta/Red.antt =====
-- src/rasta/c/rastaredundancy_new.c and rastadeferqueue.c: the redundancy layer.
pub mod Outcome
pub mod Queue
pub mod Channel
pub mod Receive
pub mod Find
pub mod Order
pub mod Sound
pub mod Placed
pub mod Runs
pub mod Branch
pub mod Removal
pub mod Due
pub mod Dangling
pub mod Tests

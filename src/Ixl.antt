-- ===== src/Ixl.antt =====
-- src/cloud_ixl: the interlocking's state, its table of routes and the decisions on routes.
pub mod State
pub mod Logic

-- ===== src/Rasta/Link.antt =====
-- The states of a RaSTA connection, from src/rasta/headers/rastalist.h.

-- `rasta_sr_state`; `unknown` is any other number.
pub data ConnectionState : Type 0 where
  closed down start up retrreq retrrun unknown : ConnectionState

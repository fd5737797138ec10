-- ===== src/Pdi/Events.antt =====
-- What happens to the PDI connection of src/cloud_ixl/c/main.c: the callbacks of the RaSTA threads
-- and the actions of the main thread, each a step. A run is any sequence of them, so it holds every
-- interleaving of whole callbacks with the main thread's actions.
use tfm_cloud_ixl_rasta.Prelude.{ℕ, Bool, ◌||◌, Option, none, some, List, [], ◌∷◌, if◌then◌else◌}
pub use tfm_cloud_ixl_rasta.Rasta.Link.{
  ConnectionState, closed, down, start, up, retrreq, retrrun, unknown,
}
use tfm_cloud_ixl_rasta.Sci.Scils.{Scils, Outgoing}
use tfm_cloud_ixl_rasta.Pdi.State.{
  PdiState, disconnected, wait_rasta_handshake, established, wait_confirmation, failed, same, Pdi,
  is_signal_command_result, is_pdi_establishment_terminal, set_pdi_state, begin_signal_confirmation,
  fail_pending_signal_confirmation,
}
use tfm_cloud_ixl_rasta.Pdi.Receive.{on_rasta_handshake, process_received_message}

-- The `switch` of `on_connection_change`.
unfoldable pub on_connection_change : ConnectionState → Pdi → Pdi
on_connection_change closed p =
    if same p.state wait_confirmation || same p.state failed
    then fail_pending_signal_confirmation p
    else set_pdi_state disconnected p
on_connection_change down p =
    if same p.state wait_confirmation
    then fail_pending_signal_confirmation p
    else set_pdi_state wait_rasta_handshake p
on_connection_change start p =
    if same p.state wait_confirmation
    then fail_pending_signal_confirmation p
    else set_pdi_state wait_rasta_handshake p
on_connection_change _ p = p

unfoldable pub on_timeout : Pdi → Pdi
on_timeout p = fail_pending_signal_confirmation p

-- What `pthread_cond_timedwait` answers.
pub data WaitResult : Type 0 where
  woken timed_out wait_error : WaitResult

-- One round of the loop of `wait_for_pdi_establishment`: the new state, and what the loop returns if
-- it ends here.
unfoldable pub establishment_round : WaitResult → Pdi → Pdi × Option PdiState
establishment_round woken p =
    if is_pdi_establishment_terminal p.state then (p, some p.state) else (p, none)
establishment_round _ p = (set_pdi_state failed p, some failed)

-- The end of `wait_for_signal_confirmation`: a result re-opens the connection for commands.
unfoldable pub take_result : Pdi → Pdi × Option PdiState
take_result p =
    if is_signal_command_result p.state
    then (set_pdi_state established p, some p.state)
    else (p, some p.state)

-- One round of the loop of `wait_for_signal_confirmation`.
unfoldable pub confirmation_round : WaitResult → Pdi → Pdi × Option PdiState
unfolding take_result
confirmation_round woken p = if same p.state wait_confirmation then (p, none) else take_result p
confirmation_round _ p = take_result (fail_pending_signal_confirmation p)

pub data Event : Type 0 where
  -- callbacks of the RaSTA threads
  handshake : ℕ → Event
  -- what the decoder's buffer holds, and the message
  received : List ℕ → List ℕ → Event
  connection_change : ConnectionState → Event
  heartbeat_timeout : Event
  -- actions of the main thread
  begin_command : List ℕ → Event
  send_failed : Event
  establishment_wait : WaitResult → Event
  confirmation_wait : WaitResult → Event

module _ (big : Bool) (ls : Scils) where
  unfoldable pub step : Event → Pdi → Pdi × Option Outgoing
  step (handshake remote_id) p = on_rasta_handshake big ls remote_id p
  step (received stack message) p = process_received_message big ls stack message p
  step (connection_change c) p = (on_connection_change c p, none)
  step heartbeat_timeout p = (on_timeout p, none)
  step (begin_command payload) p =
      ((begin_signal_confirmation (record p { expected = payload })).0, none)
  step send_failed p = (fail_pending_signal_confirmation p, none)
  step (establishment_wait w) p = ((establishment_round w p).0, none)
  step (confirmation_wait w) p = ((confirmation_round w p).0, none)

  -- The state that `main` leaves before it connects, and then one event after the other. The list
  -- has the latest event first.
  unfoldable pub run : List Event → Pdi
  run [] = record { state = wait_rasta_handshake; expected = [] }
  run (e ∷ es) = (step e (run es)).0

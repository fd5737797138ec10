-- ===== src/Pdi/State.antt =====
-- The state of the PDI connection in src/cloud_ixl/c/main.c, and the functions that change it under
-- `confirmation_lock`. The broadcast on the condition variable wakes the waiting thread and has no
-- state of its own.
use tfm_cloud_ixl_rasta.Prelude.{ℕ, ◌==◌, Bool, true, false, ◌||◌, not, List, if◌then◌else◌}

-- `CloudIxlPdiState`.
pub data PdiState : Type 0 where
  disconnected wait_rasta_handshake wait_version_response wait_initialisation_start : PdiState
  receiving_initial_status established wait_confirmation : PdiState
  command_confirmed command_mismatch command_rejected failed : PdiState

-- The number of a constant.
abbrev pub code : PdiState → ℕ
code disconnected = 0
code wait_rasta_handshake = 1
code wait_version_response = 2
code wait_initialisation_start = 3
code receiving_initial_status = 4
code established = 5
code wait_confirmation = 6
code command_confirmed = 7
code command_mismatch = 8
code command_rejected = 9
code failed = 10

abbrev pub same : PdiState → PdiState → Bool
same a b = code a == code b

-- The globals `pdi_state` and `expected_signal_aspect_payload`.
pub record Pdi : Type 0 where
  pub state : PdiState
  pub expected : List ℕ

unfoldable pub is_pdi_establishment_terminal : PdiState → Bool
is_pdi_establishment_terminal s = same s established || same s failed

unfoldable pub is_signal_command_result : PdiState → Bool
is_signal_command_result s =
    same s command_confirmed || same s command_mismatch || same s command_rejected

unfoldable pub is_luminosity_status_allowed : PdiState → Bool
is_luminosity_status_allowed s =
    same s receiving_initial_status
    || same s established
    || same s wait_confirmation
    || same s command_confirmed
    || same s command_mismatch
    || same s command_rejected

abbrev pub set_pdi_state : PdiState → Pdi → Pdi
set_pdi_state s p = record p { state = s }

-- The new state, and whether a confirmation is awaited now.
unfoldable pub begin_signal_confirmation : Pdi → Pdi × Bool
begin_signal_confirmation p =
    if same p.state established then (set_pdi_state wait_confirmation p, true) else (p, false)

unfoldable pub require_pdi_state : PdiState → Pdi → Pdi × Bool
require_pdi_state expected_state p =
    if same p.state expected_state then (p, true) else (set_pdi_state failed p, false)

unfoldable pub transition_pdi_state : PdiState → PdiState → Pdi → Pdi × Bool
transition_pdi_state expected_state next p =
    if same p.state expected_state
    then (set_pdi_state next p, true)
    else (set_pdi_state failed p, false)

abbrev pub fail_pending_signal_confirmation : Pdi → Pdi
fail_pending_signal_confirmation p = set_pdi_state failed p

unfoldable pub complete_signal_command : PdiState → Pdi → Pdi
unfolding is_signal_command_result
complete_signal_command outcome p =
    if not (same p.state wait_confirmation) || not (is_signal_command_result outcome)
    then set_pdi_state failed p
    else set_pdi_state outcome p

unfoldable pub on_initialisation_start : Pdi → Pdi
unfolding transition_pdi_state
on_initialisation_start p =
    (transition_pdi_state wait_initialisation_start receiving_initial_status p).0

unfoldable pub on_initialisation_completed : Pdi → Pdi
unfolding transition_pdi_state
on_initialisation_completed p = (transition_pdi_state receiving_initial_status established p).0

-- The payload is only printed.
unfoldable pub on_initial_aspect_status : Pdi → Pdi
unfolding require_pdi_state
on_initial_aspect_status p = (require_pdi_state receiving_initial_status p).0

unfoldable pub on_brightness_status : Pdi → Pdi
unfolding is_luminosity_status_allowed
on_brightness_status p = if is_luminosity_status_allowed p.state then p else set_pdi_state failed p

-- The error is only printed.
unfoldable pub handle_icd_execution_error : Pdi → Pdi
unfolding complete_signal_command
handle_icd_execution_error p = complete_signal_command command_rejected p

-- ===== src/Pdi/Moves.antt =====
-- How the callbacks and the actions of src/cloud_ixl/c/main.c move the PDI state, one by one.
use tfm_cloud_ixl_rasta.Prelude.{ℕ, ◌≤◌, ◌≡◌, ◌⊎◌, Bool, true, false, Option, some, List, arith}
use tfm_cloud_ixl_rasta.Sci.Scils.{Notice, status_begin, status_finish}
use tfm_cloud_ixl_rasta.Pdi.State.{
  code, Pdi, on_initialisation_start, on_initialisation_completed, on_brightness_status,
  handle_icd_execution_error, on_initial_aspect_status, complete_signal_command,
  begin_signal_confirmation, is_signal_command_result,
}
use tfm_cloud_ixl_rasta.Pdi.Receive.{on_aspect_status, on_notice}
use tfm_cloud_ixl_rasta.Pdi.Events.{
  ConnectionState, WaitResult, on_connection_change, establishment_round, confirmation_round,
  on_timeout,
}

-- What a step may do to the state, by the numbers of its constants: each stage is entered from the
-- one before, on its own sign, and the states from `established` to `command_rejected` only from one
-- another or from the transfer of the initial status.
abbrev pub Moves : Bool → Bool → Bool → Bool → ℕ → ℕ → Type 0
Moves shaken version begin finish q p =
    (q ≡ 2 → (shaken ≡ true) ⊎ (p ≡ 2))
    × (q ≡ 3 → ((version ≡ true) × (p ≡ 2)) ⊎ (p ≡ 3))
    × (q ≡ 4 → ((begin ≡ true) × (p ≡ 3)) ⊎ (p ≡ 4))
    × (5 ≤ q → q ≤ 9 → ((finish ≡ true) × (p ≡ 4)) ⊎ ((5 ≤ p) × (p ≤ 9)))

pub brightness-Moves :
    (p : Pdi) → Moves false false false false (code (on_brightness_status p).state) (code p.state)
unfolding on_brightness_status
brightness-Moves p = ground arith

pub error-Moves :
    (p : Pdi)
    → Moves false false false false (code (handle_icd_execution_error p).state) (code p.state)
unfolding handle_icd_execution_error
error-Moves p = ground arith

pub aspect-Moves :
    (p : Pdi) (reported : List ℕ)
    → Moves false false false false (code (on_aspect_status reported p).state) (code p.state)
unfolding on_aspect_status complete_signal_command on_initial_aspect_status
aspect-Moves p reported = ground arith

pub change-Moves :
    (c : ConnectionState) (p : Pdi)
    → Moves false false false false (code (on_connection_change c p).state) (code p.state)
unfolding on_connection_change
change-Moves c p = ground arith

pub establishment-Moves :
    (w : WaitResult) (p : Pdi)
    → Moves false false false false (code (establishment_round w p).0.state) (code p.state)
unfolding establishment_round
establishment-Moves w p = ground arith

pub confirmation-Moves :
    (w : WaitResult) (p : Pdi)
    → Moves false false false false (code (confirmation_round w p).0.state) (code p.state)
unfolding confirmation_round is_signal_command_result
confirmation-Moves w p = ground arith

pub begin-Moves :
    (p : Pdi)
    → Moves false false false false (code (begin_signal_confirmation p).0.state) (code p.state)
unfolding begin_signal_confirmation
begin-Moves p = ground arith

pub timeout-Moves :
    (p : Pdi) → Moves false false false false (code (on_timeout p).state) (code p.state)
unfolding on_timeout
timeout-Moves p = ground arith

-- The notifications of the SCI-LS library, and what they stand for.
abbrev pub notes_begin : Option Notice → Bool
notes_begin (some (status_begin sender)) = true
notes_begin _ = false

abbrev pub notes_finish : Option Notice → Bool
notes_finish (some (status_finish sender)) = true
notes_finish _ = false

pub notice-Moves :
    (n : Option Notice) (p : Pdi)
    → Moves false false (notes_begin n) (notes_finish n) (code (on_notice n p).state) (code p.state)
unfolding on_notice on_initialisation_start on_initialisation_completed
notice-Moves n p = ground arith

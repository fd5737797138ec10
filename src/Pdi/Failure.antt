-- ===== src/Pdi/Failure.antt =====
-- How the PDI connection of src/cloud_ixl/c/main.c fails, and how a failed one is left.
use tfm_cloud_ixl_rasta.Prelude.{
  ℕ, ◌≡◌, refl, Bool, true, false, ◌&&◌, not, ◌==◌, if-elim, Option, none, some, List, arith,
}
use tfm_cloud_ixl_rasta.Sci.Telegram.{SciTelegram, sci_get_message_type}
use tfm_cloud_ixl_rasta.Sci.Icd.{ParseResult, VersionResponse}
use tfm_cloud_ixl_rasta.Sci.Scils.{Scils, Outgoing, Notice}
use tfm_cloud_ixl_rasta.Pdi.State.{
  is_pdi_establishment_terminal, wait_confirmation, failed, Pdi, is_signal_command_result,
  set_pdi_state, on_brightness_status, handle_icd_execution_error, complete_signal_command,
  on_initial_aspect_status, on_initialisation_start, on_initialisation_completed,
  begin_signal_confirmation,
}
use tfm_cloud_ixl_rasta.Pdi.Receive.{
  on_parsed, handle_icd_version_response, on_aspect_status, on_notice, on_telegram, on_decoded,
  process_received_message, on_rasta_handshake, is_empty_payload_common_message,
  is_expected_oc_to_ixl_header,
}
use tfm_cloud_ixl_rasta.Pdi.Events.{
  Event, connection_change, down, start, handshake, received, heartbeat_timeout, begin_command,
  send_failed, establishment_wait, confirmation_wait, on_connection_change, on_timeout,
  establishment_round, take_result, confirmation_round, step,
}
use tfm_cloud_ixl_rasta.Pdi.Dispatch.{on_telegram-elim, on_parsed-elim}
use tfm_cloud_ixl_rasta.Pdi.Signs.{is_reset, is_oc_handshake}

-- The events that prepare the connection for a new handshake.
abbrev is_reconnect : Event → Bool
is_reconnect (connection_change down) = true
is_reconnect (connection_change start) = true
is_reconnect _ = false

parsed_failed :
    {A : Type 0} (x : ParseResult × Option A) (f : A → Pdi) (p : Pdi)
    → ((a : A) → (f a).state ≡ failed)
    → (on_parsed x f (set_pdi_state failed p)).state ≡ failed
parsed_failed x f p h = on_parsed-elim (λ (q : Pdi). q.state ≡ failed) x f _ h refl

brightness_failed : (p : Pdi) → p.state ≡ failed → (on_brightness_status p).state ≡ failed
unfolding on_brightness_status
brightness_failed p w = ground arith

error_failed : (p : Pdi) → p.state ≡ failed → (handle_icd_execution_error p).state ≡ failed
unfolding handle_icd_execution_error
error_failed p w = ground arith

aspect_failed :
    (reported : List ℕ) (p : Pdi) → p.state ≡ failed → (on_aspect_status reported p).state ≡ failed
unfolding on_aspect_status complete_signal_command on_initial_aspect_status
aspect_failed reported p w = ground arith

notice_failed : (n : Option Notice) (p : Pdi) → p.state ≡ failed → (on_notice n p).state ≡ failed
unfolding on_notice on_initialisation_start on_initialisation_completed
notice_failed n p w = ground arith

module _ (big : Bool) (ls : Scils) where
  -- A reset of the connection while a command is pending fails the command.
  pub step-pending_reset :
      (e : Event) (p : Pdi)
      → p.state ≡ wait_confirmation
      → is_reset e ≡ true
      → (step big ls e p).0.state ≡ failed
  unfolding step on_rasta_handshake on_connection_change on_timeout establishment_round
      confirmation_round take_result is_signal_command_result
  step-pending_reset e p w h = ground arith

  version_failed :
      (x : ParseResult × Option VersionResponse) (p : Pdi)
      → p.state ≡ failed
      → (on_parsed x
          (λ v. handle_icd_version_response big ls v p)
          (set_pdi_state failed p, none)).0.state
        ≡ failed
  unfolding handle_icd_version_response
  version_failed x p w = ground arith

  telegram_failed :
      (stack message : List ℕ) (t : SciTelegram) (p : Pdi)
      → p.state ≡ failed
      → (on_telegram big ls stack message t p).0.state ≡ failed
  telegram_failed stack message t p w =
      on_telegram-elim big ls stack message t p (λ x. x.0.state ≡ failed)
        (λ _. version_failed _ p w) (λ _. parsed_failed _ _ p (λ _. brightness_failed p w))
        (λ _. parsed_failed _ _ p (λ _. error_failed p w))
        (λ _. parsed_failed _ _ p (λ r. aspect_failed r p w)) (λ _. notice_failed _ p w)

  decoded_failed :
      (stack message : List ℕ) (d : Option SciTelegram) (p : Pdi)
      → p.state ≡ failed
      → (on_decoded big ls stack message p d).0.state ≡ failed
  unfolding on_decoded
  decoded_failed stack message none p w = w
  decoded_failed stack message (some t) p w =
      if-elim (λ (x : Pdi × Option Outgoing). x.0.state ≡ failed) (is_expected_oc_to_ixl_header t)
        (λ _.
          if-elim (λ (x : Pdi × Option Outgoing). x.0.state ≡ failed)
            (is_empty_payload_common_message (sci_get_message_type big t)
              && not (t.used_bytes == 0))
            (λ _. refl) (λ _. telegram_failed stack message t p w))
        (λ _. refl)

  -- A failed connection stays failed, whatever happens, except by a handshake with the Object
  -- Controller or a change of the RaSTA connection to `down` or `start`.
  pub step-failed :
      (e : Event) (p : Pdi)
      → p.state ≡ failed
      → is_oc_handshake e ≡ false
      → is_reconnect e ≡ false
      → (step big ls e p).0.state ≡ failed
  unfolding step on_rasta_handshake on_connection_change on_timeout establishment_round
      confirmation_round take_result is_signal_command_result begin_signal_confirmation
      process_received_message is_pdi_establishment_terminal
  step-failed (received stack message) p w h k = decoded_failed stack message _ p w
  step-failed (handshake r) p w h k = ground arith
  step-failed (connection_change c) p w h k = ground arith
  step-failed heartbeat_timeout p w h k = ground arith
  step-failed (begin_command payload) p w h k = ground arith
  step-failed send_failed p w h k = ground arith
  step-failed (establishment_wait r) p w h k = ground arith
  step-failed (confirmation_wait r) p w h k = ground arith

-- ===== src/Pdi/Tests.antt =====
-- The PDI connection of src/cloud_ixl/c/main.c on a concrete history.
use tfm_cloud_ixl_rasta.Prelude.{
  ℕ, ◌≡◌, refl, true, false, some, List, [], ◌∷◌, ◌++◌, replicate, arith,
}
use tfm_cloud_ixl_rasta.Bytes.{bytes_to_short}
use tfm_cloud_ixl_rasta.Sci.Icd.{parse_version_response, is_icd_version_result}
use tfm_cloud_ixl_rasta.Sci.Telegram.{
  sci_get_message_type, SciTelegram, sci_decode_telegram, decoded_fields,
}
use tfm_cloud_ixl_rasta.Sci.Scils.{
  Scils, bytes_eq, scils_send_version_request, scils_send_telegram, scils_send_status_request,
  scils_on_rasta_receive, notice_of,
}
use tfm_cloud_ixl_rasta.Pdi.State.{
  established, wait_confirmation, command_confirmed, failed, same, Pdi, on_initialisation_start,
  on_initialisation_completed,
}
use tfm_cloud_ixl_rasta.Pdi.Receive.{
  oc_sci_name, ixl_sci_name, on_rasta_handshake, on_decoded, on_telegram,
  handle_icd_version_response, is_accepted_version, on_notice, is_expected_oc_to_ixl_header,
  sci_name_matches, all_padding, is_empty_payload_common_message, process_received_message,
}
use tfm_cloud_ixl_rasta.Pdi.Events.{Event, handshake, received, connection_change, down, step, run}
use tfm_cloud_ixl_rasta.Pdi.Signs.{
  is_oc_handshake, is_accepted_version_sign, is_status_begin_sign, is_status_finish_sign, is_reset,
}
use tfm_cloud_ixl_rasta.Pdi.Established.{seen_since, open_after_signs}
use tfm_cloud_ixl_rasta.Pdi.Confirm.{confirms, process_received_message-confirms}
use tfm_cloud_ixl_rasta.Pdi.Failure.{step-pending_reset, step-failed}

abbrev library : Scils
library = record {
  sci_name = ixl_sci_name;
  rasta_id_of = λ key. some 0x61;
  on_version_request_received = false;
  on_status_request_received = false;
  on_status_begin_received = true;
  on_status_finish_received = true;
}

-- A message from the Object Controller to the interlocking, of the type 256 * `type`.
abbrev message_of : ℕ → List ℕ → List ℕ
message_of type payload =
    0x30 ∷ 0 ∷ type ∷ (oc_sci_name ++ replicate 15 0x5F)
    ++ ((ixl_sci_name ++ replicate 9 0x5F) ++ payload)

abbrev zero_stack : List ℕ
zero_stack = replicate 85 0

abbrev opening : List Event
opening =
    received zero_stack (message_of 0x23 [])
    ∷ received zero_stack (message_of 0x22 [])
    ∷ received zero_stack (message_of 0x25 (5 ∷ 5 ∷ 2 ∷ []))
    ∷ handshake 0x61
    ∷ []

opening_state : (run false library opening).state ≡ established
unfolding run step on_rasta_handshake scils_send_version_request scils_send_telegram
    process_received_message on_decoded on_telegram parse_version_response is_icd_version_result
    handle_icd_version_response is_accepted_version scils_send_status_request on_notice
    scils_on_rasta_receive notice_of on_initialisation_completed on_initialisation_start
    sci_decode_telegram decoded_fields is_expected_oc_to_ixl_header sci_name_matches all_padding
    bytes_eq sci_get_message_type bytes_to_short is_empty_payload_common_message
opening_state = refl

open_after_signs_example :
    seen_since is_reset
      (is_status_finish_sign false
        ∷ is_status_begin_sign false
        ∷ is_accepted_version_sign false
        ∷ is_oc_handshake
        ∷ [])
      opening
    ≡ true
open_after_signs_example =
    open_after_signs false library opening (rw (opening_state) (omega arith))
      (rw (opening_state) (omega arith))

abbrev payload : List ℕ
payload = 1 ∷ replicate 17 0xFE

abbrev pending : Pdi
pending = record { state = wait_confirmation; expected = payload }

abbrev feedback : List ℕ
feedback = message_of 0x03 payload

abbrev feedback_telegram : SciTelegram
feedback_telegram = decoded_fields zero_stack feedback 18

feedback_decoded : sci_decode_telegram zero_stack feedback ≡ some feedback_telegram
unfolding sci_decode_telegram
feedback_decoded = refl

process_received_message-confirms_example :
    same
      (process_received_message false library zero_stack feedback pending).0.state
      command_confirmed
    ≡ confirms false payload feedback_telegram
process_received_message-confirms_example =
    process_received_message-confirms false library zero_stack feedback feedback_telegram pending
      feedback_decoded refl

feedback_confirms : confirms false payload feedback_telegram ≡ true
unfolding confirms sci_decode_telegram decoded_fields is_expected_oc_to_ixl_header sci_name_matches
    all_padding bytes_eq sci_get_message_type bytes_to_short is_empty_payload_common_message
feedback_confirms = refl

step-pending_reset_example : (step false library (connection_change down) pending).0.state ≡ failed
step-pending_reset_example =
    step-pending_reset false library (connection_change down) pending refl refl

abbrev lost : Pdi
lost = record { state = failed; expected = payload }

step-failed_example : (step false library (received zero_stack feedback) lost).0.state ≡ failed
step-failed_example = step-failed false library (received zero_stack feedback) lost refl refl refl

abbrev confirmed : Pdi
confirmed = record { state = command_confirmed; expected = payload }

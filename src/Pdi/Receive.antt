-- ===== src/Pdi/Receive.antt =====
-- How src/cloud_ixl/c/main.c handles a message received from the Object Controller.
use tfm_cloud_ixl_rasta.Prelude.{
  ℕ, ◌==◌, leb, Bool, true, ◌&&◌, ◌||◌, not, Option, none, some, List, [], ◌∷◌, length, take, drop,
  if◌then◌else◌,
}
use tfm_cloud_ixl_rasta.Sci.Telegram.{
  SciTelegram, sci_protocol_ls, sci_name_length, sci_name_padding_char,
  sci_message_type_version_response, sci_message_type_status_begin, sci_message_type_status_finish,
  sci_get_message_type, sci_decode_telegram,
}
use tfm_cloud_ixl_rasta.Sci.Icd.{
  ParseResult, success, VersionResponse, ExecutionError, parse_version_response,
  parse_luminosity_status, parse_execution_error, parse_signal_aspect_status,
  message_type_luminosity_status, message_type_execution_error, message_type_signal_aspect_status,
  versions_are_equal,
}
use tfm_cloud_ixl_rasta.Sci.Scils.{
  Scils, SciReturnCode, sent_ok, unknown_sci_name, invalid_sci_name, Outgoing, Notice, status_begin,
  status_finish, bytes_eq, scils_send_version_request, scils_send_status_request,
  scils_on_rasta_receive,
}
use tfm_cloud_ixl_rasta.Pdi.State.{
  wait_version_response, wait_initialisation_start, wait_confirmation, command_confirmed,
  command_mismatch, failed, same, Pdi, set_pdi_state, require_pdi_state,
  fail_pending_signal_confirmation, complete_signal_command, on_initialisation_start,
  on_initialisation_completed, on_initial_aspect_status, on_brightness_status,
  handle_icd_execution_error,
}

abbrev pub pdi_version : ℕ
pdi_version = 0x05

abbrev pub oc_rasta_id : ℕ
oc_rasta_id = 0x61

-- "LS_OC"
abbrev pub oc_sci_name : List ℕ
oc_sci_name = 0x4C ∷ 0x53 ∷ 0x5F ∷ 0x4F ∷ 0x43 ∷ []

-- "IXL_CENTRAL"
abbrev pub ixl_sci_name : List ℕ
ixl_sci_name = 0x49 ∷ 0x58 ∷ 0x4C ∷ 0x5F ∷ 0x43 ∷ 0x45 ∷ 0x4E ∷ 0x54 ∷ 0x52 ∷ 0x41 ∷ 0x4C ∷ []

-- The loop over the padding.
unfoldable pub all_padding : List ℕ → Bool
all_padding [] = true
all_padding (c ∷ cs) = c == sci_name_padding_char && all_padding cs

unfoldable pub sci_name_matches : List ℕ → List ℕ → Bool
unfolding all_padding
sci_name_matches field expected_name =
    leb (length expected_name) sci_name_length
    && bytes_eq (take (length expected_name) field) expected_name
    && all_padding (drop (length expected_name) (take sci_name_length field))

unfoldable pub is_expected_oc_to_ixl_header : SciTelegram → Bool
is_expected_oc_to_ixl_header t =
    t.protocol_type == sci_protocol_ls
    && sci_name_matches t.sender oc_sci_name
    && sci_name_matches t.receiver ixl_sci_name

unfoldable pub is_empty_payload_common_message : ℕ → Bool
is_empty_payload_common_message message_type =
    message_type == sci_message_type_status_begin || message_type == sci_message_type_status_finish

-- What follows a reader's call: the object is used only on success.
abbrev pub on_parsed {ℓ} : {A : Type 0} {B : Type ℓ} → ParseResult × Option A → (A → B) → B → B
on_parsed (success, some a) use_it otherwise = use_it a
on_parsed _ use_it otherwise = otherwise

-- The objects that the readers write to are local variables, which hold anything before.
abbrev pub blank_response : VersionResponse
blank_response = record { requested_version = 0; supported_version = 0; result = 0 }

abbrev pub blank_error : ExecutionError
blank_error = record { error_code = 0; current_signal_aspect_payload = [] }

-- The state after a call of `scils_send_...`, with what it has sent: a failed send fails the PDI.
abbrev pub after_send : Pdi → SciReturnCode × Option Outgoing → Pdi × Option Outgoing
after_send p (sent_ok, out) = (p, out)
after_send p (unknown_sci_name, out) = (set_pdi_state failed p, out)
after_send p (invalid_sci_name, out) = (set_pdi_state failed p, out)

unfoldable pub is_accepted_version : VersionResponse → Bool
is_accepted_version response =
    response.requested_version == pdi_version
    && response.supported_version == pdi_version
    && response.result == versions_are_equal

-- A signal aspect status: the initial one, or the feedback on the command that is pending.
unfoldable pub on_aspect_status : List ℕ → Pdi → Pdi
on_aspect_status reported p =
    if same p.state wait_confirmation
    then complete_signal_command
        (if bytes_eq p.expected reported then command_confirmed else command_mismatch) p
    else on_initial_aspect_status p

-- The notifications that main.c registers with the SCI-LS library.
unfoldable pub on_notice : Option Notice → Pdi → Pdi
on_notice (some (status_begin sender)) p = on_initialisation_start p
on_notice (some (status_finish sender)) p = on_initialisation_completed p
on_notice _ p = p

module _ (big : Bool) (ls : Scils) where
  unfoldable pub on_rasta_handshake : ℕ → Pdi → Pdi × Option Outgoing
  on_rasta_handshake remote_id p =
      if remote_id == oc_rasta_id
      then after_send (set_pdi_state wait_version_response p)
          (scils_send_version_request big ls oc_sci_name pdi_version)
      else (set_pdi_state failed p, none)

  unfoldable pub handle_icd_version_response : VersionResponse → Pdi → Pdi × Option Outgoing
  unfolding require_pdi_state
  handle_icd_version_response response p =
      let (p', valid) = require_pdi_state wait_version_response p in
      if valid
      then (if is_accepted_version response
          then after_send (set_pdi_state wait_initialisation_start p')
              (scils_send_status_request big ls oc_sci_name)
          else (set_pdi_state failed p', none))
      else (p', none)

  -- `message` is handed on to the library for the types that main.c does not handle itself.
  unfoldable pub on_telegram : List ℕ → List ℕ → SciTelegram → Pdi → Pdi × Option Outgoing
  on_telegram stack message t p =
      let type = sci_get_message_type big t in
      if type == sci_message_type_version_response
      then on_parsed (parse_version_response big (some t) (some blank_response))
          (λ response. handle_icd_version_response response p) (set_pdi_state failed p, none)
      else if type == message_type_luminosity_status
      then (
        on_parsed (parse_luminosity_status big (some t) (some 0))
            (λ luminosity. on_brightness_status p) (fail_pending_signal_confirmation p),
        none,
      )
      else if type == message_type_execution_error
      then (
        on_parsed (parse_execution_error big (some t) (some blank_error))
            (λ error. handle_icd_execution_error p) (fail_pending_signal_confirmation p),
        none,
      )
      else if type == message_type_signal_aspect_status
      then (
        on_parsed (parse_signal_aspect_status big (some t) (some []))
            (λ reported. on_aspect_status reported p) (fail_pending_signal_confirmation p),
        none,
      )
      else (on_notice (scils_on_rasta_receive big stack ls message) p, none)

  -- What follows the call of the decoder: no telegram, or one that is checked before it is handled.
  unfoldable pub on_decoded : List ℕ → List ℕ → Pdi → Option SciTelegram → Pdi × Option Outgoing
  on_decoded stack message p none = (p, none)
  on_decoded stack message p (some t) =
      if is_expected_oc_to_ixl_header t
      then (if is_empty_payload_common_message (sci_get_message_type big t)
            && not (t.used_bytes == 0)
          then (set_pdi_state failed p, none)
          else on_telegram stack message t p)
      else (set_pdi_state failed p, none)

  unfoldable pub process_received_message : List ℕ → List ℕ → Pdi → Pdi × Option Outgoing
  unfolding on_decoded
  process_received_message stack message p =
      on_decoded stack message p (sci_decode_telegram stack message)

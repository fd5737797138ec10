-- ===== src/Pdi/Confirm.antt =====
-- How a signal command is confirmed.
use tfm_cloud_ixl_rasta.Prelude.{
  ℕ, ◌≡◌, ◌∙◌, refl, ◌==◌, Bool, true, false, ◌&&◌, Option, none, some, List, [], take,
  if◌then◌else◌, arith,
}
use tfm_cloud_ixl_rasta.Sci.Telegram.{
  SciTelegram, sci_protocol_ls, sci_get_message_type, sci_decode_telegram,
}
use tfm_cloud_ixl_rasta.Sci.Icd.{
  ParseResult, VersionResponse, message_type_signal_aspect_status, signal_aspect_payload_size,
  parse_signal_aspect_status, ExecutionError, parse_version_response, parse_luminosity_status,
  parse_execution_error,
}
use tfm_cloud_ixl_rasta.Sci.Scils.{Scils, Outgoing, bytes_eq, Notice, scils_on_rasta_receive}
use tfm_cloud_ixl_rasta.Pdi.State.{
  wait_confirmation, command_confirmed, same, Pdi, failed, set_pdi_state,
  fail_pending_signal_confirmation, complete_signal_command, on_brightness_status,
  handle_icd_execution_error, on_initialisation_start, on_initialisation_completed,
}
use tfm_cloud_ixl_rasta.Pdi.Receive.{
  is_empty_payload_common_message, is_expected_oc_to_ixl_header, on_telegram,
  process_received_message, on_aspect_status, on_parsed, on_notice, blank_response, blank_error,
  handle_icd_version_response,
}
use tfm_cloud_ixl_rasta.Pdi.Dispatch.{on_telegram-elim}

-- An independent description of the feedback that confirms the command with the payload `expected`.
unfoldable pub confirms : Bool → List ℕ → SciTelegram → Bool
confirms big expected t =
    is_expected_oc_to_ixl_header t
    && sci_get_message_type big t == message_type_signal_aspect_status
    && t.used_bytes == signal_aspect_payload_size
    && bytes_eq expected (take signal_aspect_payload_size t.payload_data)

module _ (big : Bool) (ls : Scils) where
  header-protocol :
      (t : SciTelegram)
      → is_expected_oc_to_ixl_header t ≡ true
      → (t.protocol_type == sci_protocol_ls) ≡ true
  unfolding is_expected_oc_to_ixl_header
  header-protocol t h = ground arith

  aspect_confirmed :
      (t : SciTelegram) (p : Pdi)
      → (t.protocol_type == sci_protocol_ls) ≡ true
      → (sci_get_message_type big t == message_type_signal_aspect_status) ≡ true
      → p.state ≡ wait_confirmation
      → same
          (on_parsed
            (parse_signal_aspect_status big (some t) (some []))
            (λ r. on_aspect_status r p)
            (fail_pending_signal_confirmation p)).state
          command_confirmed
        ≡ (t.used_bytes == signal_aspect_payload_size
            && bytes_eq p.expected (take signal_aspect_payload_size t.payload_data))
  unfolding parse_signal_aspect_status on_aspect_status complete_signal_command
  aspect_confirmed t p h c w = ground arith

  other_version :
      (x : ParseResult × Option VersionResponse) (p : Pdi)
      → p.state ≡ wait_confirmation
      → same
          (on_parsed x
            (λ v. handle_icd_version_response big ls v p)
            (set_pdi_state failed p, none)).0.state
          command_confirmed
        ≡ false
  unfolding handle_icd_version_response
  other_version x p w = ground arith

  other_brightness :
      (x : ParseResult × Option ℕ) (p : Pdi)
      → p.state ≡ wait_confirmation
      → same
          (on_parsed x (λ _. on_brightness_status p) (set_pdi_state failed p)).state
          command_confirmed
        ≡ false
  unfolding on_brightness_status
  other_brightness x p w = ground arith

  other_error :
      (x : ParseResult × Option ExecutionError) (p : Pdi)
      → p.state ≡ wait_confirmation
      → same
          (on_parsed x (λ _. handle_icd_execution_error p) (set_pdi_state failed p)).state
          command_confirmed
        ≡ false
  unfolding handle_icd_execution_error
  other_error x p w = ground arith

  other_notice :
      (n : Option Notice) (p : Pdi)
      → p.state ≡ wait_confirmation
      → same (on_notice n p).state command_confirmed ≡ false
  unfolding on_notice on_initialisation_start on_initialisation_completed
  other_notice n p w = ground arith

  telegram_confirmed :
      (stack message : List ℕ) (t : SciTelegram) (p : Pdi)
      → (t.protocol_type == sci_protocol_ls) ≡ true
      → p.state ≡ wait_confirmation
      → same (on_telegram big ls stack message t p).0.state command_confirmed ≡ (
          sci_get_message_type big t == message_type_signal_aspect_status
          && t.used_bytes == signal_aspect_payload_size
          && bytes_eq p.expected (take signal_aspect_payload_size t.payload_data))
  telegram_confirmed stack message t p h w =
      on_telegram-elim big ls stack message t p
        (λ x. same x.0.state command_confirmed ≡ (
          sci_get_message_type big t == message_type_signal_aspect_status
          && t.used_bytes == signal_aspect_payload_size
          && bytes_eq p.expected (take signal_aspect_payload_size t.payload_data)))
        (λ c.
          other_version (parse_version_response big (some t) (some blank_response)) p w
          ∙ ground arith)
        (λ c. other_brightness (parse_luminosity_status big (some t) (some 0)) p w ∙ ground arith)
        (λ c.
          other_error (parse_execution_error big (some t) (some blank_error)) p w ∙ ground arith)
        (λ c. rw (c) (aspect_confirmed t p h c w))
        (λ c. rw (c) (other_notice (scils_on_rasta_receive big stack ls message) p w))

  empty_not_aspect :
      (type : ℕ)
      → is_empty_payload_common_message type ≡ true
      → (type == message_type_signal_aspect_status) ≡ false
  unfolding is_empty_payload_common_message
  empty_not_aspect type h = ground arith

  checked_confirmed :
      (h e u a b c : Bool) (x y : Pdi × Option Outgoing)
      → same y.0.state command_confirmed ≡ false
      → (e ≡ true → a ≡ false)
      → (h ≡ true → same x.0.state command_confirmed ≡ (a && b && c))
      → same (if h then (if e && u then y else x) else y).0.state command_confirmed
        ≡ (h && a && b && c)
  checked_confirmed true true true a b c x y k m n = k ∙ ground arith
  checked_confirmed true true false a b c x y k m n = n refl
  checked_confirmed true false u a b c x y k m n = n refl
  checked_confirmed false e u a b c x y k m n = k

  -- While a command is pending, a message that decodes to a telegram moves the PDI state to the
  -- confirmation of the command exactly where that telegram confirms the payload that was sent: a
  -- signal aspect status from the Object Controller to the interlocking whose payload has its full
  -- size and is the expected one, byte for byte.
  pub process_received_message-confirms :
      (stack message : List ℕ) (t : SciTelegram) (p : Pdi)
      → sci_decode_telegram stack message ≡ some t
      → p.state ≡ wait_confirmation
      → same (process_received_message big ls stack message p).0.state command_confirmed
        ≡ confirms big p.expected t
  unfolding process_received_message confirms
  process_received_message-confirms stack message t p e w = rw (e) (
      checked_confirmed _ _ _ _ _ _ _ _ refl (empty_not_aspect _)
        (λ h. telegram_confirmed stack message t p (header-protocol t h) w))

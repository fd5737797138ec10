-- ===== src/Pdi/Signs.antt =====
-- The signs by which the PDI connection of src/cloud_ixl/c/main.c comes to be established, and the
-- events that put an end to it.
use tfm_cloud_ixl_rasta.Prelude.{◌==◌, Bool, true, false, ◌&&◌, not, Option, none, some}
use tfm_cloud_ixl_rasta.Sci.Telegram.{
  SciTelegram, sci_message_type_version_response, sci_message_type_status_begin,
  sci_message_type_status_finish, sci_get_message_type, sci_decode_telegram,
}
use tfm_cloud_ixl_rasta.Sci.Icd.{parse_version_response}
use tfm_cloud_ixl_rasta.Pdi.Receive.{
  oc_rasta_id, is_expected_oc_to_ixl_header, is_accepted_version, on_parsed, blank_response,
}
use tfm_cloud_ixl_rasta.Pdi.Events.{
  Event, handshake, received, connection_change, heartbeat_timeout, send_failed, establishment_wait,
  confirmation_wait, closed, down, start, timed_out, wait_error,
}
use tfm_cloud_ixl_rasta.Prelude.{not, ◌&&◌, Bool, true, false, Option, none, some, ◌==◌}
use tfm_cloud_ixl_rasta.Sci.Icd.{parse_version_response}
use tfm_cloud_ixl_rasta.Pdi.Events.{
  Event, handshake, received, connection_change, heartbeat_timeout, send_failed, establishment_wait,
  confirmation_wait, closed, down, start, timed_out, wait_error,
}
use tfm_cloud_ixl_rasta.Sci.Telegram.{SciTelegram}

abbrev pub decoded_sign : (SciTelegram → Bool) → Option SciTelegram → Bool
decoded_sign sign none = false
decoded_sign sign (some t) = is_expected_oc_to_ixl_header t && sign t

-- The signs of an event: what has to come in for the next stage.
abbrev pub is_sign : (SciTelegram → Bool) → Event → Bool
is_sign sign (received stack message) = decoded_sign sign (sci_decode_telegram stack message)
is_sign sign _ = false

abbrev pub is_oc_handshake : Event → Bool
is_oc_handshake (handshake remote_id) = remote_id == oc_rasta_id
is_oc_handshake _ = false

-- The events after which the connection has to be established again, from the handshake on.
abbrev pub is_reset : Event → Bool
is_reset (handshake remote_id) = not (remote_id == oc_rasta_id)
is_reset (connection_change closed) = true
is_reset (connection_change down) = true
is_reset (connection_change start) = true
is_reset heartbeat_timeout = true
is_reset send_failed = true
is_reset (establishment_wait timed_out) = true
is_reset (establishment_wait wait_error) = true
is_reset (confirmation_wait timed_out) = true
is_reset (confirmation_wait wait_error) = true
is_reset _ = false

module _ (big : Bool) where
  -- The signs that a telegram may give.
  abbrev pub is_version_telegram : SciTelegram → Bool
  is_version_telegram t =
      (sci_get_message_type big t == sci_message_type_version_response)
      && on_parsed (parse_version_response big (some t) (some blank_response)) is_accepted_version
          false

  abbrev pub is_begin_telegram : SciTelegram → Bool
  is_begin_telegram t =
      sci_get_message_type big t == sci_message_type_status_begin && t.used_bytes == 0

  abbrev pub is_finish_telegram : SciTelegram → Bool
  is_finish_telegram t =
      sci_get_message_type big t == sci_message_type_status_finish && t.used_bytes == 0

  abbrev pub is_accepted_version_sign : Event → Bool
  is_accepted_version_sign = is_sign is_version_telegram

  abbrev pub is_status_begin_sign : Event → Bool
  is_status_begin_sign = is_sign is_begin_telegram

  abbrev pub is_status_finish_sign : Event → Bool
  is_status_finish_sign = is_sign is_finish_telegram

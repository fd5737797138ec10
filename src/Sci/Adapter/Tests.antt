-- ===== src/Sci/Adapter/Tests.antt =====
-- The commands of src/cloud_ixl/c/cloud_ixl_scils_adapter.c at concrete aspects.
use tfm_cloud_ixl_rasta.Prelude.{ℕ, ◌≡◌, refl, false, some, List, [], ◌∷◌, take, replicate, arith}
use tfm_cloud_ixl_rasta.Ixl.State.{via_libre}
use tfm_cloud_ixl_rasta.Sci.Telegram.{SciTelegram, sci_decode_telegram, sci_get_message_type}
use tfm_cloud_ixl_rasta.Sci.Icd.{message_type_show_signal_aspect}
use tfm_cloud_ixl_rasta.Sci.Scils.{Scils}
use tfm_cloud_ixl_rasta.Sci.Adapter.{payload_of, success_scils, cloud_ixl_scils_send_signal_aspect}
use tfm_cloud_ixl_rasta.Sci.Adapter.Payload.{send_signal_aspect_on_wire}

abbrev sender_name : List ℕ
sender_name = 0x49 ∷ 0x58 ∷ 0x4C ∷ []

abbrev receiver_name : List ℕ
receiver_name = 0x4C ∷ 0x53 ∷ []

-- Every name is registered for the Object Controller.
abbrev library : Scils
library = record {
  sci_name = sender_name;
  rasta_id_of = λ key. some 0x61;
  on_version_request_received = false;
  on_status_request_received = false;
  on_status_begin_received = false;
  on_status_finish_received = false;
}

abbrev clear_payload : List ℕ
clear_payload =
    0x01 ∷ 0x00 ∷ 0x00 ∷ 0x00 ∷ 0x00 ∷ 0x00 ∷ 0xFE ∷ 0xFE ∷ 0x01 ∷ 0xFE ∷ 0xFE ∷ 0xFE ∷ 0xFE ∷ 0xFE
    ∷ 0xFE ∷ 0xFE ∷ 0xFE ∷ 0xFE ∷ []

clear_has_payload : payload_of via_libre ≡ some clear_payload
unfolding payload_of
clear_has_payload = refl

send_signal_aspect_on_wire_example :
    (m : List ℕ) × (t : SciTelegram) × (cloud_ixl_scils_send_signal_aspect false
        (some library)
        (some receiver_name)
        0
      ≡ (success_scils, some (record { remote_id = 0x61; message = m })))
    × (sci_decode_telegram (replicate 85 0) m ≡ some t)
    × (sci_get_message_type false t ≡ message_type_show_signal_aspect)
    × (t.used_bytes ≡ 18)
    × (take 18 t.payload_data ≡ clear_payload)
send_signal_aspect_on_wire_example =
    send_signal_aspect_on_wire false (replicate 85 0) library receiver_name 0 clear_payload 0x61
      (omega arith) (omega arith) (omega arith) (omega arith) refl clear_has_payload refl

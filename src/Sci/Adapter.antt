-- ===== src/Sci/Adapter.antt =====
-- src/cloud_ixl/c/cloud_ixl_scils_adapter.c: the payload of a signal aspect, and the two commands to
-- the Object Controller.
pub mod Payload
mod Tests
use tfm_cloud_ixl_rasta.Prelude.{
  ℕ, ◌==◌, Bool, true, false, ◌&&◌, ◌||◌, Option, none, some, List, [], ◌∷◌, get_or, copy_to,
  replicate, if◌then◌else◌,
}
use tfm_cloud_ixl_rasta.Ixl.State.{SignalAspect}
use tfm_cloud_ixl_rasta.Sci.Telegram.{SciTelegram, sci_protocol_ls, sci_create_base_telegram}
use tfm_cloud_ixl_rasta.Sci.Icd.{
  is_valid_sci_name, signal_aspect_payload_size, message_type_show_signal_aspect,
  create_luminosity_command,
}
use tfm_cloud_ixl_rasta.Sci.Scils.{
  Scils, SciReturnCode, sent_ok, unknown_sci_name, invalid_sci_name, Outgoing, scils_send_telegram,
}

-- The cases of the `switch`; the enumeration has no 3 and no 8.
unfoldable pub is_supported_signal_aspect : SignalAspect → Bool
is_supported_signal_aspect a =
    a == 0 || a == 1 || a == 2 || a == 4 || a == 5 || a == 6 || a == 7 || a == 9

-- A row of the table: its bytes 0, 8 and 9, the others being the same in every row.
abbrev pub row : ℕ → ℕ → ℕ → List ℕ
row basic eight nine =
    basic ∷ 0x00 ∷ 0x00 ∷ 0x00 ∷ 0x00 ∷ 0x00 ∷ 0xFE ∷ 0xFE ∷ eight ∷ nine ∷ 0xFE ∷ 0xFE ∷ 0xFE
    ∷ 0xFE ∷ 0xFE ∷ 0xFE ∷ 0xFE ∷ 0xFE ∷ []

-- The rows that no initialiser names are zero.
abbrev pub signal_aspect_payloads : List (List ℕ)
signal_aspect_payloads =
    row 0x01 0x01 0xFE
    ∷ row 0x02 0x01 0xFE
    ∷ row 0x03 0x01 0xFE
    ∷ replicate 18 0
    ∷ row 0x05 0x01 0xFE
    ∷ row 0xFE 0x01 0x01
    ∷ row 0xFE 0x01 0x02
    ∷ row 0xFE 0x01 0x03
    ∷ replicate 18 0
    ∷ row 0x02 0x0F 0xFE
    ∷ []

-- The payload of an aspect, or `none` where the function returns false and writes nothing.
unfoldable pub payload_of : SignalAspect → Option (List ℕ)
unfolding is_supported_signal_aspect
payload_of aspect =
    if is_supported_signal_aspect aspect
    then some (get_or signal_aspect_payloads aspect [])
    else none

-- `payload` is the array that is written, or NULL.
unfoldable pub cloud_ixl_build_signal_aspect_payload :
    SignalAspect → Option (List ℕ) → Bool × Option (List ℕ)
cloud_ixl_build_signal_aspect_payload aspect none = (false, none)
cloud_ixl_build_signal_aspect_payload aspect (some old) = elim (payload_of aspect) [
  | none ↦ (false, some old)
  | some bytes ↦ (true, some bytes)
]

-- `CloudIxlScilsSendResult`.
pub data SendResult : Type 0 where
  build_error send_error success_scils : SendResult

-- The code of `scils_send_telegram` as the adapter reports it.
abbrev pub send_result : SciReturnCode × Option Outgoing → SendResult × Option Outgoing
send_result (sent_ok, out) = (success_scils, out)
send_result (unknown_sci_name, out) = (send_error, out)
send_result (invalid_sci_name, out) = (send_error, out)

module _ (big : Bool) where
  unfoldable pub cloud_ixl_create_signal_aspect_telegram :
      Option (List ℕ) → Option (List ℕ) → SignalAspect → Option SciTelegram
  cloud_ixl_create_signal_aspect_telegram (some sender) (some receiver) aspect =
      let t =
        sci_create_base_telegram big sci_protocol_ls sender receiver
          message_type_show_signal_aspect in
      elim (payload_of aspect) [
        | none ↦ none
        | some payload ↦
            if is_valid_sci_name (some sender) && is_valid_sci_name (some receiver)
            then some (record t {
              used_bytes = signal_aspect_payload_size;
              payload_data = copy_to 0 payload t.payload_data;
            })
            else none
      ]
  cloud_ixl_create_signal_aspect_telegram _ _ aspect = none

  unfoldable pub cloud_ixl_scils_send_signal_aspect :
      Option Scils → Option (List ℕ) → SignalAspect → SendResult × Option Outgoing
  cloud_ixl_scils_send_signal_aspect (some ls) (some receiver) aspect =
      elim (cloud_ixl_create_signal_aspect_telegram (some ls.sci_name) (some receiver) aspect) [
        | none ↦ (build_error, none)
        | some t ↦ send_result (scils_send_telegram ls t)
      ]
  cloud_ixl_scils_send_signal_aspect _ _ aspect = (build_error, none)

  unfoldable pub cloud_ixl_scils_send_luminosity :
      Option Scils → Option (List ℕ) → ℕ → SendResult × Option Outgoing
  cloud_ixl_scils_send_luminosity (some ls) receiver luminosity =
      if is_valid_sci_name (some ls.sci_name) && is_valid_sci_name receiver
      then elim (create_luminosity_command big (some ls.sci_name) receiver luminosity) [
        | none ↦ (build_error, none)
        | some t ↦ send_result (scils_send_telegram ls t)
      ]
      else (build_error, none)
  cloud_ixl_scils_send_luminosity none receiver luminosity = (build_error, none)

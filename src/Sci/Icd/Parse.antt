-- ===== src/Sci/Icd/Parse.antt =====
-- What the readers of sci_ls_icd.c accept, and that they read what the builders wrote.
use tfm_cloud_ixl_rasta.Prelude.{
  ℕ, ◌≤◌, ◌<◌, ◌≡◌, ◌↔◌, ◌⊎◌, inr, refl, Bool, true, Option, none, some, List, length, get_or,
  arith,
}
use tfm_cloud_ixl_rasta.Sci.Telegram.{
  SciTelegram, sci_protocol_ls, sci_message_type_version_response, sci_get_message_type,
  sci_create_base_telegram, cleared_payload,
}
use tfm_cloud_ixl_rasta.Sci.Telegram.Fields.{sci_get_message_type-base}
use tfm_cloud_ixl_rasta.Sci.Icd.{
  success, VersionResponse, ExecutionError, is_icd_version_result, is_icd_execution_error_code,
  is_valid_sci_name, parse_signal_aspect_status, parse_luminosity_status, parse_execution_error,
  parse_version_response, create_version_response, message_type_execution_error,
}

-- A version response is read exactly where it is an SCI-LS telegram of type 0x2500 with a payload of
-- 3 bytes whose last is one of the two results; the object then holds its 3 bytes.
pub parse_version_response_iff :
    (big : Bool) (t : SciTelegram) (old : VersionResponse)
    → (parse_version_response big (some t) (some old) ≡ (
      success,
      some (record {
        requested_version = get_or t.payload_data 0 0;
        supported_version = get_or t.payload_data 1 0;
        result = get_or t.payload_data 2 0;
      }),
    ))
      ↔ ((t.protocol_type ≡ sci_protocol_ls)
          × (sci_get_message_type big t ≡ sci_message_type_version_response)
          × (t.used_bytes ≡ 3)
          × ((get_or t.payload_data 2 0 ≡ 1) ⊎ (get_or t.payload_data 2 0 ≡ 2)))
unfolding parse_version_response is_icd_version_result
parse_version_response_iff big t old = ground arith

-- An execution error is read exactly where it is an SCI-LS telegram of type 0x0700 with a payload
-- of 19 bytes whose first is a code from 1 to 4.
parse_execution_error_iff :
    (big : Bool) (t : SciTelegram) (old : ExecutionError)
    → ((parse_execution_error big (some t) (some old)).0 ≡ success) ↔ (
        (t.protocol_type ≡ sci_protocol_ls)
        × (sci_get_message_type big t ≡ message_type_execution_error)
        × (t.used_bytes ≡ 19)
        × (1 ≤ get_or t.payload_data 0 0)
        × (get_or t.payload_data 0 0 ≤ 4))
unfolding parse_execution_error is_icd_execution_error_code
parse_execution_error_iff big t old = ground arith

signal_aspect_kept :
    (big : Bool) (t : Option SciTelegram) (out : Option (List ℕ))
    → ((parse_signal_aspect_status big t out).0 ≡ success)
      ⊎ ((parse_signal_aspect_status big t out).1 ≡ out)
unfolding parse_signal_aspect_status
signal_aspect_kept big none out = inr refl
signal_aspect_kept big (some t) none = inr refl
signal_aspect_kept big (some t) (some old) = ground arith

luminosity_kept :
    (big : Bool) (t : Option SciTelegram) (out : Option ℕ)
    → ((parse_luminosity_status big t out).0 ≡ success)
      ⊎ ((parse_luminosity_status big t out).1 ≡ out)
unfolding parse_luminosity_status
luminosity_kept big none out = inr refl
luminosity_kept big (some t) none = inr refl
luminosity_kept big (some t) (some old) = ground arith

execution_error_kept :
    (big : Bool) (t : Option SciTelegram) (out : Option ExecutionError)
    → ((parse_execution_error big t out).0 ≡ success) ⊎ ((parse_execution_error big t out).1 ≡ out)
unfolding parse_execution_error
execution_error_kept big none out = inr refl
execution_error_kept big (some t) none = inr refl
execution_error_kept big (some t) (some old) = ground arith

version_response_kept :
    (big : Bool) (t : Option SciTelegram) (out : Option VersionResponse)
    → ((parse_version_response big t out).0 ≡ success)
      ⊎ ((parse_version_response big t out).1 ≡ out)
unfolding parse_version_response
version_response_kept big none out = inr refl
version_response_kept big (some t) none = inr refl
version_response_kept big (some t) (some old) = ground arith

-- Each of the four readers succeeds or leaves the object that it was given as it was.
pub parse_failure_keeps :
    (big : Bool) (t : Option SciTelegram) (payload : Option (List ℕ)) (luminosity : Option ℕ)
    (error : Option ExecutionError) (response : Option VersionResponse)
    → (((parse_signal_aspect_status big t payload).0 ≡ success)
        ⊎ ((parse_signal_aspect_status big t payload).1 ≡ payload))
      × (((parse_luminosity_status big t luminosity).0 ≡ success)
          ⊎ ((parse_luminosity_status big t luminosity).1 ≡ luminosity))
      × (((parse_execution_error big t error).0 ≡ success)
          ⊎ ((parse_execution_error big t error).1 ≡ error))
      × (((parse_version_response big t response).0 ≡ success)
          ⊎ ((parse_version_response big t response).1 ≡ response))
parse_failure_keeps big t payload luminosity error response = (
  signal_aspect_kept big t payload,
  luminosity_kept big t luminosity,
  execution_error_kept big t error,
  version_response_kept big t response,
)

pub valid_name :
    (name : List ℕ) → 0 < length name → length name ≤ 20 → is_valid_sci_name (some name) ≡ true
unfolding is_valid_sci_name
valid_name name a b = ground arith

valid_result : (r : ℕ) → (r ≡ 1) ⊎ (r ≡ 2) → is_icd_version_result r ≡ true
unfolding is_icd_version_result
valid_result r h = ground arith

-- The version response that is built for two valid names and a valid result is read back.
parse-create_version_response :
    (big : Bool) (sender receiver : List ℕ) (requested supported result : ℕ) (old : VersionResponse)
    → 0 < length sender
    → length sender ≤ 20
    → 0 < length receiver
    → length receiver ≤ 20
    → (result ≡ 1) ⊎ (result ≡ 2)
    → parse_version_response big
        (create_version_response big (some sender) (some receiver) requested supported result)
        (some old)
      ≡ (
        success,
        some (record {
          requested_version = requested;
          supported_version = supported;
          result = result;
        }),
      )
unfolding create_version_response sci_get_message_type cleared_payload sci_create_base_telegram
parse-create_version_response big sender receiver requested supported result old a b c d e =
    rw (valid_name sender a b, valid_name receiver c d, valid_result result e)
      ((parse_version_response_iff big _ old).1
        (refl, sci_get_message_type-base big 0x30 sender receiver 0x2500 (omega arith), refl, e))

-- ===== src/Sci/Icd.antt =====
-- src/sci_ls_icd/c/sci_ls_icd.c: the telegrams of the project's own SCI-LS contract. A reader takes
-- the telegram and the object that it writes to, either of which may be NULL (`none`), and returns
-- its code and what the object then holds.
pub mod Parse
mod Tests
use tfm_cloud_ixl_rasta.Prelude.{
  ℕ, ◌==◌, leb, Bool, true, false, ◌&&◌, ◌||◌, not, Option, none, some, List, [], ◌∷◌, length,
  get_or, take, drop, copy_to, if◌then◌else◌,
}
use tfm_cloud_ixl_rasta.Sci.Telegram.{
  SciTelegram, sci_protocol_ls, sci_name_length, sci_message_type_version_response,
  sci_get_message_type, sci_create_base_telegram,
}

abbrev pub version_response_payload_size : ℕ
version_response_payload_size = 3

abbrev pub luminosity_command_payload_size : ℕ
luminosity_command_payload_size = 1

abbrev pub luminosity_status_payload_size : ℕ
luminosity_status_payload_size = 1

abbrev pub signal_aspect_payload_size : ℕ
signal_aspect_payload_size = 18

abbrev pub execution_error_payload_size : ℕ
execution_error_payload_size = 19

abbrev pub message_type_show_signal_aspect : ℕ
message_type_show_signal_aspect = 0x0100

abbrev pub message_type_change_luminosity : ℕ
message_type_change_luminosity = 0x0200

abbrev pub message_type_signal_aspect_status : ℕ
message_type_signal_aspect_status = 0x0300

abbrev pub message_type_luminosity_status : ℕ
message_type_luminosity_status = 0x0400

abbrev pub message_type_execution_error : ℕ
message_type_execution_error = 0x0700

abbrev pub luminosity_day : ℕ
luminosity_day = 0x01

abbrev pub luminosity_night : ℕ
luminosity_night = 0x02

abbrev pub versions_are_not_equal : ℕ
versions_are_not_equal = 0x01

abbrev pub versions_are_equal : ℕ
versions_are_equal = 0x02

-- `sci_ls_icd_parse_result`.
pub data ParseResult : Type 0 where
  success invalid_argument invalid_protocol invalid_message_type : ParseResult
  invalid_payload_length invalid_result : ParseResult

pub record VersionResponse : Type 0 where
  pub requested_version : ℕ
  pub supported_version : ℕ
  pub result : ℕ

pub record ExecutionError : Type 0 where
  pub error_code : ℕ
  pub current_signal_aspect_payload : List ℕ

-- A C string, or NULL.
unfoldable pub is_valid_sci_name : Option (List ℕ) → Bool
is_valid_sci_name none = false
is_valid_sci_name (some name) = not (length name == 0) && leb (length name) sci_name_length

unfoldable pub is_icd_version_result : ℕ → Bool
is_icd_version_result result = result == versions_are_not_equal || result == versions_are_equal

unfoldable pub is_icd_luminosity : ℕ → Bool
is_icd_luminosity luminosity = luminosity == luminosity_day || luminosity == luminosity_night

unfoldable pub is_icd_execution_error_code : ℕ → Bool
is_icd_execution_error_code code = code == 0x01 || code == 0x02 || code == 0x03 || code == 0x04

module _ (big : Bool) where
  unfoldable pub parse_signal_aspect_status :
      Option SciTelegram → Option (List ℕ) → ParseResult × Option (List ℕ)
  parse_signal_aspect_status none payload = (invalid_argument, payload)
  parse_signal_aspect_status (some t) none = (invalid_argument, none)
  parse_signal_aspect_status (some t) (some old) =
      if not (t.protocol_type == sci_protocol_ls)
      then (invalid_protocol, some old)
      else if not (sci_get_message_type big t == message_type_signal_aspect_status)
      then (invalid_message_type, some old)
      else if not (t.used_bytes == signal_aspect_payload_size)
      then (invalid_payload_length, some old)
      else (success, some (take signal_aspect_payload_size t.payload_data))

  unfoldable pub parse_luminosity_status : Option SciTelegram → Option ℕ → ParseResult × Option ℕ
  parse_luminosity_status none luminosity = (invalid_argument, luminosity)
  parse_luminosity_status (some t) none = (invalid_argument, none)
  parse_luminosity_status (some t) (some old) =
      if not (t.protocol_type == sci_protocol_ls)
      then (invalid_protocol, some old)
      else if not (sci_get_message_type big t == message_type_luminosity_status)
      then (invalid_message_type, some old)
      else if not (t.used_bytes == luminosity_status_payload_size)
      then (invalid_payload_length, some old)
      else if not (is_icd_luminosity (get_or t.payload_data 0 0))
      then (invalid_result, some old)
      else (success, some (get_or t.payload_data 0 0))

  unfoldable pub parse_execution_error :
      Option SciTelegram → Option ExecutionError → ParseResult × Option ExecutionError
  parse_execution_error none error = (invalid_argument, error)
  parse_execution_error (some t) none = (invalid_argument, none)
  parse_execution_error (some t) (some old) =
      if not (t.protocol_type == sci_protocol_ls)
      then (invalid_protocol, some old)
      else if not (sci_get_message_type big t == message_type_execution_error)
      then (invalid_message_type, some old)
      else if not (t.used_bytes == execution_error_payload_size)
      then (invalid_payload_length, some old)
      else if not (is_icd_execution_error_code (get_or t.payload_data 0 0))
      then (invalid_result, some old)
      else (
        success,
        some (record {
          error_code = get_or t.payload_data 0 0;
          current_signal_aspect_payload = take signal_aspect_payload_size (drop 1 t.payload_data);
        }),
      )

  unfoldable pub parse_version_response :
      Option SciTelegram → Option VersionResponse → ParseResult × Option VersionResponse
  parse_version_response none response = (invalid_argument, response)
  parse_version_response (some t) none = (invalid_argument, none)
  parse_version_response (some t) (some old) =
      let result_byte = get_or t.payload_data 2 0 in
      if not (t.protocol_type == sci_protocol_ls)
      then (invalid_protocol, some old)
      else if not (sci_get_message_type big t == sci_message_type_version_response)
      then (invalid_message_type, some old)
      else if not (t.used_bytes == version_response_payload_size)
      then (invalid_payload_length, some old)
      else if not (is_icd_version_result result_byte)
      then (invalid_result, some old)
      else (
        success,
        some (record {
          requested_version = get_or t.payload_data 0 0;
          supported_version = get_or t.payload_data 1 0;
          result = result_byte;
        }),
      )

  -- The names that pass `is_valid_sci_name` are not NULL.
  unfoldable pub create_luminosity_command :
      Option (List ℕ) → Option (List ℕ) → ℕ → Option SciTelegram
  create_luminosity_command (some sender) (some receiver) luminosity =
      let t =
        sci_create_base_telegram big sci_protocol_ls sender receiver
          message_type_change_luminosity in
      if is_valid_sci_name (some sender)
        && is_valid_sci_name (some receiver)
        && is_icd_luminosity luminosity
      then some (record t {
        used_bytes = luminosity_command_payload_size;
        payload_data = copy_to 0 (luminosity ∷ []) t.payload_data;
      })
      else none
  create_luminosity_command _ _ luminosity = none

  unfoldable pub create_version_response :
      Option (List ℕ) → Option (List ℕ) → ℕ → ℕ → ℕ → Option SciTelegram
  create_version_response (some sender) (some receiver) requested supported result =
      let t =
        sci_create_base_telegram big sci_protocol_ls sender receiver
          sci_message_type_version_response in
      if is_valid_sci_name (some sender)
        && is_valid_sci_name (some receiver)
        && is_icd_version_result result
      then some (record t {
        used_bytes = version_response_payload_size;
        payload_data = copy_to 0 (requested ∷ supported ∷ result ∷ []) t.payload_data;
      })
      else none
  create_version_response _ _ requested supported result = none

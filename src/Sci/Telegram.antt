-- ===== src/Sci/Telegram.antt =====
-- src/sci/c/sci.c and sci_telegram_factory.c: SCI telegrams, their bytes, and the telegrams that
-- both sides build.
pub mod Codec
pub mod Reencode
pub mod Fields
mod Tests
use tfm_cloud_ixl_rasta.Prelude.{
  ℕ, ◌+◌, ◌-◌, ◌==◌, ltb, leb, Bool, true, false, ◌||◌, Option, none, some, List, [], ◌∷◌, ◌++◌,
  length, get_or, take, drop, replicate, copy_to, if◌then◌else◌,
}
use tfm_cloud_ixl_rasta.Bytes.{short_to_bytes, bytes_to_short}

abbrev pub sci_max_telegram_length : ℕ
sci_max_telegram_length = 128

abbrev pub sci_telegram_length_without_payload : ℕ
sci_telegram_length_without_payload = 43

abbrev pub sci_name_padding_char : ℕ
sci_name_padding_char = 0x5F

abbrev pub sci_name_length : ℕ
sci_name_length = 20

-- `sizeof(telegram->payload.data)`
abbrev pub payload_capacity : ℕ
payload_capacity = 85

-- `protocol_type`, by its values.
abbrev pub sci_protocol_p : ℕ
sci_protocol_p = 0x40

abbrev pub sci_protocol_ls : ℕ
sci_protocol_ls = 0x30

abbrev pub sci_message_type_version_request : ℕ
sci_message_type_version_request = 0x2400

abbrev pub sci_message_type_version_response : ℕ
sci_message_type_version_response = 0x2500

abbrev pub sci_message_type_status_request : ℕ
sci_message_type_status_request = 0x2100

abbrev pub sci_message_type_status_begin : ℕ
sci_message_type_status_begin = 0x2200

abbrev pub sci_message_type_status_finish : ℕ
sci_message_type_status_finish = 0x2300

-- `sci_telegram`, with the two fields of its `sci_payload`.
pub record SciTelegram : Type 0 where
  pub protocol_type : ℕ
  pub message_type : List ℕ
  pub sender : List ℕ
  pub receiver : List ℕ
  pub payload_data : List ℕ
  pub used_bytes : ℕ

-- A C string is the list of its characters before the NUL, so its length is `strlen`.
unfoldable pub padded_name : List ℕ → List ℕ
padded_name name = copy_to 0 name (replicate sci_name_length sci_name_padding_char)

unfoldable pub sci_set_sender : SciTelegram → List ℕ → SciTelegram
unfolding padded_name
sci_set_sender t sender_name = record t { sender = padded_name sender_name }

unfoldable pub sci_set_receiver : SciTelegram → List ℕ → SciTelegram
unfolding padded_name
sci_set_receiver t receiver_name = record t { receiver = padded_name receiver_name }

-- The name field as a C string: up to the NUL that follows its 20 characters.
unfoldable pub sci_get_name_string : List ℕ → List ℕ
sci_get_name_string name_field = take sci_name_length name_field

unfoldable pub sci_set_message_type : Bool → SciTelegram → ℕ → SciTelegram
sci_set_message_type big t message_type = record t {
  message_type = copy_to 0 (short_to_bytes big message_type) t.message_type;
}

unfoldable pub sci_get_message_type : Bool → SciTelegram → ℕ
sci_get_message_type big t = bytes_to_short big t.message_type

-- The bytes are written at 0, 1, 3, 23 and 43 of a new array, which they fill.
unfoldable pub sci_encode_telegram : SciTelegram → List ℕ
sci_encode_telegram t =
    t.protocol_type
    ∷ (take 2 t.message_type
        ++ (take sci_name_length t.sender
            ++ (take sci_name_length t.receiver ++ take t.used_bytes t.payload_data)))

-- `memset(payload.data, 0, 85)`.
unfoldable pub cleared_payload : List ℕ
cleared_payload = replicate payload_capacity 0

-- The fields of an accepted buffer. The payload is a local variable of the function, of which only
-- the bytes received are written: `stack` is what it holds before.
unfoldable pub decoded_fields : List ℕ → List ℕ → ℕ → SciTelegram
decoded_fields stack bytes payload_size = record {
  protocol_type = get_or bytes 0 0;
  message_type = take 2 (drop 1 bytes);
  sender = take sci_name_length (drop 3 bytes);
  receiver = take sci_name_length (drop 23 bytes);
  payload_data =
      if ltb 0 payload_size
      then copy_to 0 (take payload_size (drop 43 bytes)) stack
      else cleared_payload;
  used_bytes = payload_size;
}

unfoldable pub sci_decode_telegram : List ℕ → List ℕ → Option SciTelegram
sci_decode_telegram stack bytes =
    if ltb sci_max_telegram_length (length bytes)
      || ltb (length bytes) sci_telegram_length_without_payload
    then none
    else if get_or bytes 0 0 == sci_protocol_p || get_or bytes 0 0 == sci_protocol_ls
    then some (decoded_fields stack bytes (length bytes - sci_telegram_length_without_payload))
    else none

-- `rmalloc` gives a telegram whose fields are all written before it is returned.
unfoldable pub sci_create_base_telegram : Bool → ℕ → List ℕ → List ℕ → ℕ → SciTelegram
unfolding sci_set_message_type sci_set_sender sci_set_receiver
sci_create_base_telegram big protocol sender receiver message_type =
    let fresh : SciTelegram = record {
      protocol_type = protocol;
      message_type = replicate 2 0;
      sender = [];
      receiver = [];
      payload_data = cleared_payload;
      used_bytes = 0;
    } in
    sci_set_receiver (sci_set_sender (sci_set_message_type big fresh message_type) sender) receiver

unfoldable pub sci_create_version_request : Bool → ℕ → List ℕ → List ℕ → ℕ → SciTelegram
unfolding sci_create_base_telegram
sci_create_version_request big protocol sender receiver version =
    let t =
      sci_create_base_telegram big protocol sender receiver sci_message_type_version_request in
    record t { payload_data = copy_to 0 (version ∷ []) t.payload_data; used_bytes = 1 }

unfoldable pub sci_create_version_response :
    Bool → ℕ → List ℕ → List ℕ → ℕ → ℕ → List ℕ → SciTelegram
unfolding sci_create_base_telegram
sci_create_version_response big protocol sender receiver version result checksum =
    let t =
      sci_create_base_telegram big protocol sender receiver sci_message_type_version_response in
    record t {
      payload_data = copy_to 0 (result ∷ version ∷ length checksum ∷ checksum) t.payload_data;
      used_bytes = length checksum + 3;
    }

unfoldable pub sci_create_status_request : Bool → ℕ → List ℕ → List ℕ → SciTelegram
unfolding sci_create_base_telegram
sci_create_status_request big protocol sender receiver =
    sci_create_base_telegram big protocol sender receiver sci_message_type_status_request

unfoldable pub sci_create_status_begin : Bool → ℕ → List ℕ → List ℕ → SciTelegram
unfolding sci_create_base_telegram
sci_create_status_begin big protocol sender receiver =
    sci_create_base_telegram big protocol sender receiver sci_message_type_status_begin

unfoldable pub sci_create_status_finish : Bool → ℕ → List ℕ → List ℕ → SciTelegram
unfolding sci_create_base_telegram
sci_create_status_finish big protocol sender receiver =
    sci_create_base_telegram big protocol sender receiver sci_message_type_status_finish

pub data SciParse (A : Type 0) : Type 0 where
  success : A → SciParse A
  invalid_message_type : SciParse A
  invalid_payload_length : SciParse A

unfoldable pub sci_parse_version_request_payload : Bool → SciTelegram → SciParse ℕ
sci_parse_version_request_payload big t =
    if sci_get_message_type big t == sci_message_type_version_request
    then success (get_or t.payload_data 0 0)
    else invalid_message_type

-- The result, the version and the checksum.
unfoldable pub sci_parse_version_response_payload : Bool → SciTelegram → SciParse (ℕ × ℕ × List ℕ)
sci_parse_version_response_payload big t =
    let checksum_len = get_or t.payload_data 2 0 in
    if sci_get_message_type big t == sci_message_type_version_response
    then (if ltb t.used_bytes 4 || ltb 128 t.used_bytes
        then invalid_payload_length
        else if ltb (t.used_bytes - 3) checksum_len
        then invalid_payload_length
        else success (
          get_or t.payload_data 0 0,
          get_or t.payload_data 1 0,
          take checksum_len (drop 3 t.payload_data),
        ))
    else invalid_message_type

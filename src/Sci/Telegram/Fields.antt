-- ===== src/Sci/Telegram/Fields.antt =====
-- The telegrams that sci_telegram_factory.c builds: their fields, and what their readers get.
use tfm_cloud_ixl_rasta.Prelude.{
  ℕ, ◌≤◌, ◌<◌, ◌^◌, ◌≡◌, ◌⊎◌, refl, Bool, true, false, List, ◌++◌, length, drop, replicate, copy_to,
  length-copy_to, copy_to-zero, arith,
}
use tfm_cloud_ixl_rasta.Bytes.{short_to_bytes}
use tfm_cloud_ixl_rasta.Bytes.Laws.{bytes_to_short-short_to_bytes, length-short_to_bytes}
use tfm_cloud_ixl_rasta.Sci.Telegram.{
  sci_protocol_p, sci_protocol_ls, cleared_payload, padded_name, sci_get_message_type,
  sci_create_base_telegram, sci_create_version_request, sci_parse_version_request_payload, success,
  sci_message_type_version_request,
}
use tfm_cloud_ixl_rasta.Sci.Telegram.Codec.{IsWellFormed}

message_type_field :
    (big : Bool) (v : ℕ) → copy_to 0 (short_to_bytes big v) (replicate 2 0) ≡ short_to_bytes big v
unfolding short_to_bytes
message_type_field false v = refl
message_type_field true v = refl

pub length-padded_name : (name : List ℕ) → length (padded_name name) ≡ 20
unfolding padded_name
length-padded_name name = length-copy_to 0 name (replicate 20 0x5F)

length-cleared_payload : length cleared_payload ≡ 85
unfolding cleared_payload
length-cleared_payload = refl

-- The message type that a telegram was built with is read from it.
pub sci_get_message_type-base :
    (big : Bool) (p : ℕ) (sender receiver : List ℕ) (v : ℕ)
    → v < 2 ^ 16
    → sci_get_message_type big (sci_create_base_telegram big p sender receiver v) ≡ v
unfolding sci_get_message_type sci_create_base_telegram
sci_get_message_type-base big p sender receiver v h =
    rw (message_type_field big v) (bytes_to_short-short_to_bytes big v h)

-- A telegram built for one of the two protocols and names of at most 20 characters is well formed,
-- has the message type it was built with, has its names padded with underscores to 20 characters,
-- and has no payload.
pub sci_create_base_telegram_fields :
    (big : Bool) (p : ℕ) (sender receiver : List ℕ) (v : ℕ)
    → (p ≡ sci_protocol_p) ⊎ (p ≡ sci_protocol_ls)
    → length sender ≤ 20
    → length receiver ≤ 20
    → v < 2 ^ 16
    → let t = sci_create_base_telegram big p sender receiver v in
      IsWellFormed t
      × (sci_get_message_type big t ≡ v)
      × (t.sender ≡ sender ++ drop (length sender) (replicate 20 0x5F))
      × (t.receiver ≡ receiver ++ drop (length receiver) (replicate 20 0x5F))
      × (t.used_bytes ≡ 0)
unfolding sci_create_base_telegram padded_name
sci_create_base_telegram_fields big p sender receiver v hp hs hr hv = (
  record {
    protocol = hp;
    message_type_size = rw (message_type_field big v) (length-short_to_bytes big v);
    sender_size = length-padded_name sender;
    receiver_size = length-padded_name receiver;
    payload_size = length-cleared_payload;
    used_fits = omega arith;
  },
  sci_get_message_type-base big p sender receiver v hv,
  copy_to-zero sender (replicate 20 0x5F) hs,
  copy_to-zero receiver (replicate 20 0x5F) hr,
  refl,
)

-- The version of a version request is what its reader gets.
pub parse-create_version_request :
    (big : Bool) (p : ℕ) (sender receiver : List ℕ) (version : ℕ)
    → sci_parse_version_request_payload big
        (sci_create_version_request big p sender receiver version)
      ≡ success version
unfolding sci_parse_version_request_payload sci_create_version_request cleared_payload
    sci_get_message_type
parse-create_version_request big p sender receiver version = ground (
  arith,
  sci_get_message_type-base big p sender receiver sci_message_type_version_request (omega arith),
)

-- ===== src/Sci/Telegram/Tests.antt =====
-- The telegrams of src/sci/c at concrete bytes.
use tfm_cloud_ixl_rasta.Prelude.{
  ℕ, ◌≤◌, ◌<◌, ◌≡◌, ◌≢◌, ◌⊎◌, inr, refl, false, none, some, List, [], ◌∷◌, ◌++◌, length, get_or,
  replicate, arith,
}
use tfm_cloud_ixl_rasta.Bytes.{short_to_bytes}
use tfm_cloud_ixl_rasta.Sci.Telegram.{
  SciTelegram, sci_protocol_p, sci_protocol_ls, sci_encode_telegram, sci_decode_telegram,
  decoded_fields, cleared_payload, sci_create_version_request,
}
use tfm_cloud_ixl_rasta.Sci.Telegram.Codec.{
  IsWellFormed, Carries, IsReadFrom, sci_decode_telegram_accepts,
  sci_decode_telegram-sci_encode_telegram,
}
use tfm_cloud_ixl_rasta.Sci.Telegram.Reencode.{sci_encode_telegram-sci_decode_telegram}

abbrev sender_name : List ℕ
sender_name = 0x49 ∷ 0x58 ∷ 0x4C ∷ []

abbrev receiver_name : List ℕ
receiver_name = 0x4C ∷ 0x53 ∷ []

-- A version request of a little-endian host, with version 5.
abbrev request_bytes : List ℕ
request_bytes =
    0x30 ∷ 0x00 ∷ 0x24 ∷ (sender_name ++ replicate 17 0x5F)
    ++ ((receiver_name ++ replicate 18 0x5F) ++ (5 ∷ []))

abbrev zero_stack : List ℕ
zero_stack = replicate 85 0

request_is_encoded :
    sci_encode_telegram (sci_create_version_request false 0x30 sender_name receiver_name 5)
    ≡ request_bytes
unfolding sci_encode_telegram sci_create_version_request cleared_payload short_to_bytes
request_is_encoded = refl

abbrev request : SciTelegram
request = decoded_fields zero_stack request_bytes 1

sci_decode_telegram_accepts_example :
    ((43 ≤ length request_bytes)
      × (length request_bytes ≤ 128)
      × ((get_or request_bytes 0 0 ≡ sci_protocol_p) ⊎ (get_or request_bytes 0 0 ≡ sci_protocol_ls))
      × (t : SciTelegram) × (sci_decode_telegram zero_stack request_bytes ≡ some t)
      × IsReadFrom request_bytes t)
    ⊎ (((length request_bytes < 43)
          ⊎ (128 < length request_bytes)
          ⊎ ((get_or request_bytes 0 0 ≢ sci_protocol_p)
              × (get_or request_bytes 0 0 ≢ sci_protocol_ls)))
        × (sci_decode_telegram zero_stack request_bytes ≡ none))
sci_decode_telegram_accepts_example =
    sci_decode_telegram_accepts zero_stack request_bytes (omega arith)

request_decoded : sci_decode_telegram zero_stack request_bytes ≡ some request
unfolding sci_decode_telegram
request_decoded = refl

request-IsWellFormed : IsWellFormed request
unfolding decoded_fields
request-IsWellFormed = record {
  protocol = inr refl;
  message_type_size = refl;
  sender_size = refl;
  receiver_size = refl;
  payload_size = refl;
  used_fits = omega arith;
}

sci_decode_telegram-sci_encode_telegram_example :
    (t' : SciTelegram) × (sci_decode_telegram zero_stack (sci_encode_telegram request) ≡ some t')
    × Carries request t'
sci_decode_telegram-sci_encode_telegram_example =
    sci_decode_telegram-sci_encode_telegram zero_stack request refl request-IsWellFormed

sci_encode_telegram-sci_decode_telegram_example : sci_encode_telegram request ≡ request_bytes
sci_encode_telegram-sci_decode_telegram_example =
    sci_encode_telegram-sci_decode_telegram zero_stack request_bytes request refl request_decoded

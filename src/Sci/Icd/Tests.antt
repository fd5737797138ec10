-- ===== src/Sci/Icd/Tests.antt =====
-- The readers of src/sci_ls_icd/c/sci_ls_icd.c at concrete telegrams.
use tfm_cloud_ixl_rasta.Prelude.{◌≡◌, ◌↔◌, ◌⊎◌, false, none, some, [], ◌∷◌, get_or, replicate}
use tfm_cloud_ixl_rasta.Sci.Telegram.{
  SciTelegram, sci_protocol_ls, sci_message_type_version_response, sci_get_message_type,
}
use tfm_cloud_ixl_rasta.Sci.Icd.{
  success, VersionResponse, ExecutionError, parse_signal_aspect_status, parse_luminosity_status,
  parse_execution_error, parse_version_response,
}
use tfm_cloud_ixl_rasta.Sci.Icd.Parse.{parse_version_response_iff, parse_failure_keeps}

abbrev blank : VersionResponse
blank = record { requested_version = 0; supported_version = 0; result = 0 }

abbrev response : SciTelegram
response = record {
  protocol_type = 0x30;
  message_type = 0x00 ∷ 0x25 ∷ [];
  sender = replicate 20 0x5F;
  receiver = replicate 20 0x5F;
  payload_data = 5 ∷ 5 ∷ 1 ∷ [];
  used_bytes = 3;
}

parse_version_response_iff_example :
    (parse_version_response false (some response) (some blank)
      ≡ (success, some (record { requested_version = 5; supported_version = 5; result = 1 })))
    ↔ ((response.protocol_type ≡ sci_protocol_ls)
        × (sci_get_message_type false response ≡ sci_message_type_version_response)
        × (response.used_bytes ≡ 3)
        × ((get_or response.payload_data 2 0 ≡ 1) ⊎ (get_or response.payload_data 2 0 ≡ 2)))
parse_version_response_iff_example = parse_version_response_iff false response blank

abbrev no_error : ExecutionError
no_error = record { error_code = 0; current_signal_aspect_payload = [] }

abbrev error : SciTelegram
error = record response {
  message_type = 0x00 ∷ 0x07 ∷ [];
  payload_data = 2 ∷ replicate 18 1;
  used_bytes = 19;
}

parse_failure_keeps_example :
    (((parse_signal_aspect_status false (some error) (some [])).0 ≡ success)
      ⊎ ((parse_signal_aspect_status false (some error) (some [])).1 ≡ (some [])))
    × (((parse_luminosity_status false (some error) (some 7)).0 ≡ success)
        ⊎ ((parse_luminosity_status false (some error) (some 7)).1 ≡ (some 7)))
    × (((parse_execution_error false (some error) none).0 ≡ success)
        ⊎ ((parse_execution_error false (some error) none).1 ≡ none))
    × (((parse_version_response false (some error) (some blank)).0 ≡ success)
        ⊎ ((parse_version_response false (some error) (some blank)).1 ≡ (some blank)))
parse_failure_keeps_example =
    parse_failure_keeps false (some error) (some []) (some 7) none (some blank)

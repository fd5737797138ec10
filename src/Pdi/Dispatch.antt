-- ===== src/Pdi/Dispatch.antt =====
-- The dispatch on a telegram's type in src/cloud_ixl/c/main.c, as a principle of proof.
use tfm_cloud_ixl_rasta.Prelude.{
  ℕ, ◌≡◌, inl, inr, ◌==◌, Bool, true, false, Bool-cases, Option, none, some, List, [],
}
use tfm_cloud_ixl_rasta.Sci.Telegram.{
  SciTelegram, sci_message_type_version_response, sci_get_message_type,
}
use tfm_cloud_ixl_rasta.Sci.Icd.{
  ParseResult, success, invalid_argument, invalid_protocol, invalid_message_type,
  invalid_payload_length, invalid_result, parse_version_response, parse_luminosity_status,
  parse_execution_error, parse_signal_aspect_status, message_type_luminosity_status,
  message_type_execution_error, message_type_signal_aspect_status,
}
use tfm_cloud_ixl_rasta.Sci.Scils.{Scils, Outgoing, scils_on_rasta_receive}
use tfm_cloud_ixl_rasta.Pdi.State.{
  failed, Pdi, set_pdi_state, on_brightness_status, handle_icd_execution_error,
}
use tfm_cloud_ixl_rasta.Pdi.Receive.{
  on_parsed, blank_response, blank_error, handle_icd_version_response, on_aspect_status, on_notice,
  on_telegram,
}

-- What holds for every object that a reader may write, and without one, holds of what follows it.
pub on_parsed-elim {ℓ κ} :
    {A : Type 0} {B : Type ℓ} (P : B → Type κ) (x : ParseResult × Option A) (f : A → B) (y : B)
    → ((a : A) → P (f a))
    → P y
    → P (on_parsed x f y)
on_parsed-elim P (success, some a) f y h k = h a
on_parsed-elim P (success, none) f y h k = k
on_parsed-elim P (invalid_argument, o) f y h k = k
on_parsed-elim P (invalid_protocol, o) f y h k = k
on_parsed-elim P (invalid_message_type, o) f y h k = k
on_parsed-elim P (invalid_payload_length, o) f y h k = k
on_parsed-elim P (invalid_result, o) f y h k = k

module _ (big : Bool) (ls : Scils) where
  -- What holds of the result of every branch holds of the result of the dispatch; a branch may use
  -- that the telegram is of its type.
  pub on_telegram-elim :
      (stack message : List ℕ) (t : SciTelegram) (p : Pdi) (P : Pdi × Option Outgoing → Type 0)
      → ((sci_get_message_type big t == sci_message_type_version_response) ≡ true
          → P (
              on_parsed
                (parse_version_response big (some t) (some blank_response))
                (λ v. handle_icd_version_response big ls v p)
                (set_pdi_state failed p, none)))
      → ((sci_get_message_type big t == message_type_luminosity_status) ≡ true
          → P (
            on_parsed
                (parse_luminosity_status big (some t) (some 0))
                (λ _. on_brightness_status p)
                (set_pdi_state failed p),
            none,
          ))
      → ((sci_get_message_type big t == message_type_execution_error) ≡ true
          → P (
            on_parsed
                (parse_execution_error big (some t) (some blank_error))
                (λ _. handle_icd_execution_error p)
                (set_pdi_state failed p),
            none,
          ))
      → ((sci_get_message_type big t == message_type_signal_aspect_status) ≡ true
          → P (
            on_parsed
                (parse_signal_aspect_status big (some t) (some []))
                (λ r. on_aspect_status r p)
                (set_pdi_state failed p),
            none,
          ))
      → ((sci_get_message_type big t == message_type_signal_aspect_status) ≡ false
          → P (on_notice (scils_on_rasta_receive big stack ls message) p, none))
      → P (on_telegram big ls stack message t p)
  unfolding on_telegram
  on_telegram-elim stack message t p P version luminosity error aspect notice =
      let type = sci_get_message_type big t in
      elim (Bool-cases (type == sci_message_type_version_response)) [
        | inl c ↦ rw (c) (version c)
        | inr c ↦ rw (c) (elim (Bool-cases (type == message_type_luminosity_status)) [
          | inl d ↦ rw (d) (luminosity d)
          | inr d ↦ rw (d) (elim (Bool-cases (type == message_type_execution_error)) [
            | inl f ↦ rw (f) (error f)
            | inr f ↦ rw (f) (elim (Bool-cases (type == message_type_signal_aspect_status)) [
              | inl g ↦ rw (g) (aspect g)
              | inr g ↦ rw (g) (notice g)
            ])
          ])
        ])
      ]

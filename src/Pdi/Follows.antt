-- ===== src/Pdi/Follows.antt =====
-- How a telegram received by src/cloud_ixl/c/main.c moves the PDI state.
use tfm_cloud_ixl_rasta.Prelude.{
  ℕ, ◌≡◌, ◌==◌, Bool, true, false, ◌&&◌, Option, none, some, List, arith,
}
use tfm_cloud_ixl_rasta.Sci.Telegram.{
  SciTelegram, sci_message_type_version_response, sci_message_type_status_begin,
  sci_message_type_status_finish, sci_get_message_type, sci_decode_telegram,
}
use tfm_cloud_ixl_rasta.Sci.Icd.{
  ParseResult, success, VersionResponse, parse_version_response, invalid_argument, invalid_protocol,
  invalid_message_type, invalid_payload_length, invalid_result,
}
use tfm_cloud_ixl_rasta.Sci.Scils.{Scils, Outgoing, scils_on_rasta_receive, notice_of}
use tfm_cloud_ixl_rasta.Pdi.State.{failed, code, Pdi, set_pdi_state}
use tfm_cloud_ixl_rasta.Pdi.Receive.{
  oc_rasta_id, is_accepted_version, on_parsed, blank_response, on_rasta_handshake,
  handle_icd_version_response, on_notice, on_telegram,
}
use tfm_cloud_ixl_rasta.Pdi.Dispatch.{on_telegram-elim, on_parsed-elim}
use tfm_cloud_ixl_rasta.Pdi.Moves.{
  Moves, brightness-Moves, error-Moves, aspect-Moves, notice-Moves, notes_begin, notes_finish,
}
use tfm_cloud_ixl_rasta.Pdi.Signs.{is_version_telegram}

module _ (big : Bool) (ls : Scils) where
  pub handshake-Moves :
      (r : ℕ) (p : Pdi)
      → Moves
          (r == oc_rasta_id)
          false
          false
          false
          (code (on_rasta_handshake big ls r p).0.state)
          (code p.state)
  unfolding on_rasta_handshake
  handshake-Moves r p = ground arith

  version-Moves :
      (v : VersionResponse) (p : Pdi)
      → Moves false
          (is_accepted_version v)
          false
          false
          (code (handle_icd_version_response big ls v p).0.state)
          (code p.state)
  unfolding handle_icd_version_response
  version-Moves v p = ground arith

  parsed_version-Moves :
      (x : ParseResult × Option VersionResponse) (p : Pdi)
      → Moves false
          (on_parsed x is_accepted_version false)
          false
          false
          (code
            (on_parsed x
              (λ v. handle_icd_version_response big ls v p)
              (set_pdi_state failed p, none)).0.state)
          (code p.state)
  parsed_version-Moves (success, some v) p = version-Moves v p
  parsed_version-Moves (success, none) p = ground arith
  parsed_version-Moves (invalid_argument, o) p = ground arith
  parsed_version-Moves (invalid_protocol, o) p = ground arith
  parsed_version-Moves (invalid_message_type, o) p = ground arith
  parsed_version-Moves (invalid_payload_length, o) p = ground arith
  parsed_version-Moves (invalid_result, o) p = ground arith

  -- A reader's result that is handled by a step without signs.
  parsed-Moves :
      {A : Type 0} (x : ParseResult × Option A) (f : A → Pdi) (p : Pdi)
      → ((a : A) → Moves false false false false (code (f a).state) (code p.state))
      → Moves false false false false
          (code (on_parsed x f (set_pdi_state failed p)).state)
          (code p.state)
  parsed-Moves x f p h =
      on_parsed-elim (λ (q : Pdi). Moves false false false false (code q.state) (code p.state)) x f
        _ h (ground arith)

  notice_type :
      (stack message : List ℕ) (t : SciTelegram)
      → sci_decode_telegram stack message ≡ some t
      → (notes_begin (scils_on_rasta_receive big stack ls message) ≡ true
          → sci_get_message_type big t ≡ sci_message_type_status_begin)
        × (notes_finish (scils_on_rasta_receive big stack ls message) ≡ true
            → sci_get_message_type big t ≡ sci_message_type_status_finish)
  unfolding scils_on_rasta_receive notice_of
  notice_type stack message t e = ground arith

  unmarked-Moves :
      (v b f : Bool) (q p : ℕ) → Moves false false false false q p → Moves false v b f q p
  unmarked-Moves v b f q p h = ground arith

  version_flag-Moves :
      (c v b f : Bool) (q p : ℕ)
      → c ≡ true
      → Moves false v false false q p
      → Moves false (c && v) b f q p
  version_flag-Moves c v b f q p e h = ground arith

  notice_flag-Moves :
      (a b v : Bool) (type q p : ℕ)
      → (a ≡ true → type ≡ sci_message_type_status_begin)
      → (b ≡ true → type ≡ sci_message_type_status_finish)
      → Moves false false a b q p
      → Moves false v
          (type == sci_message_type_status_begin)
          (type == sci_message_type_status_finish)
          q
          p
  notice_flag-Moves a b v type q p h k m = ground arith

  -- The result `x` of the telegram `t` in the state `p` is one that its signs allow.
  unfoldable pub Follows : SciTelegram → Pdi → Pdi × Option Outgoing → Type 0
  Follows t p x =
      Moves false (is_version_telegram big t)
        (sci_get_message_type big t == sci_message_type_status_begin)
        (sci_get_message_type big t == sci_message_type_status_finish) (code x.0.state)
        (code p.state)

  unmarked-Follows :
      (t : SciTelegram) (p p' : Pdi) (out : Option Outgoing)
      → Moves false false false false (code p'.state) (code p.state)
      → Follows t p (p', out)
  unfolding Follows
  unmarked-Follows t p p' out h = unmarked-Moves _ _ _ _ _ h

  version-Follows :
      (t : SciTelegram) (p : Pdi)
      → (sci_get_message_type big t == sci_message_type_version_response) ≡ true
      → Follows t p (
          on_parsed
            (parse_version_response big (some t) (some blank_response))
            (λ v. handle_icd_version_response big ls v p)
            (set_pdi_state failed p, none))
  unfolding Follows
  version-Follows t p c = version_flag-Moves _ _ _ _ _ _ c (parsed_version-Moves _ p)

  notice-Follows :
      (stack message : List ℕ) (t : SciTelegram) (p : Pdi)
      → sci_decode_telegram stack message ≡ some t
      → Follows t p (on_notice (scils_on_rasta_receive big stack ls message) p, none)
  unfolding Follows
  notice-Follows stack message t p e =
      notice_flag-Moves _ _ _ _ _ _ (notice_type stack message t e).0
        (notice_type stack message t e).1 (notice-Moves _ p)

  pub telegram-Follows :
      (stack message : List ℕ) (t : SciTelegram) (p : Pdi)
      → sci_decode_telegram stack message ≡ some t
      → Follows t p (on_telegram big ls stack message t p)
  telegram-Follows stack message t p e =
      on_telegram-elim big ls stack message t p (Follows t p) (version-Follows t p)
        (λ _. unmarked-Follows t p _ none (parsed-Moves _ _ p (λ _. brightness-Moves p)))
        (λ _. unmarked-Follows t p _ none (parsed-Moves _ _ p (λ _. error-Moves p)))
        (λ _. unmarked-Follows t p _ none (parsed-Moves _ _ p (λ r. aspect-Moves p r)))
        (λ _. notice-Follows stack message t p e)

-- ===== src/Pdi/History.antt =====
-- How the PDI connection comes to be established (src/cloud_ixl/c/main.c).
use tfm_cloud_ixl_rasta.Prelude.{
  ℕ, ◌≤◌, ◌≡◌, ◌⊎◌, refl, ◌==◌, Bool, true, false, ◌&&◌, ◌||◌, not, Option, none, some, List,
  if◌then◌else◌, arith,
}
use tfm_cloud_ixl_rasta.Sci.Telegram.{
  SciTelegram, sci_message_type_status_begin, sci_message_type_status_finish, sci_decode_telegram,
}
use tfm_cloud_ixl_rasta.Sci.Scils.{Scils, Outgoing}
use tfm_cloud_ixl_rasta.Pdi.State.{failed, code, Pdi, is_signal_command_result, set_pdi_state}
use tfm_cloud_ixl_rasta.Pdi.Receive.{
  is_empty_payload_common_message, on_rasta_handshake, on_decoded, process_received_message,
}
use tfm_cloud_ixl_rasta.Pdi.Events.{
  Event, handshake, received, connection_change, heartbeat_timeout, begin_command, send_failed,
  establishment_wait, confirmation_wait, take_result, on_connection_change, establishment_round,
  confirmation_round, on_timeout, step,
}
use tfm_cloud_ixl_rasta.Pdi.Moves.{
  Moves, change-Moves, establishment-Moves, confirmation-Moves, begin-Moves, timeout-Moves,
}
use tfm_cloud_ixl_rasta.Pdi.Signs.{
  is_version_telegram, is_begin_telegram, is_finish_telegram, decoded_sign,
  is_accepted_version_sign, is_status_begin_sign, is_status_finish_sign, is_oc_handshake, is_reset,
}
use tfm_cloud_ixl_rasta.Pdi.Follows.{telegram-Follows, Follows, handshake-Moves}

module _ (big : Bool) (ls : Scils) where
  accepted_telegram-Moves :
      (type used : ℕ) (v : Bool) (q p : ℕ)
      → ((type == sci_message_type_status_begin || type == sci_message_type_status_finish)
          && not (used == 0))
        ≡ false
      → Moves false v
          (type == sci_message_type_status_begin)
          (type == sci_message_type_status_finish)
          q
          p
      → Moves false v
          (type == sci_message_type_status_begin && used == 0)
          (type == sci_message_type_status_finish && used == 0)
          q
          p
  accepted_telegram-Moves type used v q p e h = ground arith

  checked-Moves :
      (h c v b f : Bool) (x : Pdi × Option Outgoing) (p : Pdi)
      → (c ≡ false → Moves false v b f (code x.0.state) (code p.state))
      → Moves false
          (h && v)
          (h && b)
          (h && f)
          (code
            (if h
              then (if c then (set_pdi_state failed p, none) else x)
              else (set_pdi_state failed p, none)).0.state)
          (code p.state)
  checked-Moves true false v b f x p m = m refl
  checked-Moves true true v b f x p m = ground arith
  checked-Moves false c v b f x p m = ground arith

  decoded-Moves :
      (stack message : List ℕ) (p : Pdi) (d : Option SciTelegram)
      → sci_decode_telegram stack message ≡ d
      → Moves false
          (decoded_sign (is_version_telegram big) d)
          (decoded_sign (is_begin_telegram big) d)
          (decoded_sign (is_finish_telegram big) d)
          (code (on_decoded big ls stack message p d).0.state)
          (code p.state)
  unfolding on_decoded is_empty_payload_common_message Follows
  decoded-Moves stack message p none e = ground arith
  decoded-Moves stack message p (some t) e =
      checked-Moves _ _ _ _ _ _ p
        (λ c. accepted_telegram-Moves _ _ _ _ _ c (telegram-Follows big ls stack message t p e))

  received-Moves :
      (stack message : List ℕ) (p : Pdi)
      → Moves false
          (is_accepted_version_sign big (received stack message))
          (is_status_begin_sign big (received stack message))
          (is_status_finish_sign big (received stack message))
          (code (process_received_message big ls stack message p).0.state)
          (code p.state)
  unfolding process_received_message
  received-Moves stack message p = decoded-Moves stack message p _ refl

  pub step-Moves :
      (e : Event) (p : Pdi)
      → Moves
          (is_oc_handshake e)
          (is_accepted_version_sign big e)
          (is_status_begin_sign big e)
          (is_status_finish_sign big e)
          (code (step big ls e p).0.state)
          (code p.state)
  unfolding step
  step-Moves (handshake r) p = handshake-Moves big ls r p
  step-Moves (received stack message) p = received-Moves stack message p
  step-Moves (connection_change c) p = change-Moves c p
  step-Moves heartbeat_timeout p = timeout-Moves p
  step-Moves (begin_command payload) p = begin-Moves (record p { expected = payload })
  step-Moves send_failed p = ground arith
  step-Moves (establishment_wait w) p = establishment-Moves w p
  step-Moves (confirmation_wait w) p = confirmation-Moves w p

  pub reset_state :
      (e : Event) (p : Pdi)
      → is_reset e ≡ true
      → (code (step big ls e p).0.state ≤ 1) ⊎ (code (step big ls e p).0.state ≡ 10)
  unfolding step on_rasta_handshake on_connection_change on_timeout establishment_round
      confirmation_round take_result is_signal_command_result
  reset_state e p h = ground arith

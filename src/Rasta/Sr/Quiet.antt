-- ===== src/Rasta/Sr/Quiet.antt =====
-- rasta_new.c: the actions that neither put a message into the queue of the application nor open a
-- connection.
use tfm_cloud_ixl_rasta.Prelude.{
  ℕ, ◌≡◌, refl, sym, ◌∙◌, List, [], ◌∷◌, ◌++◌, Bool, true, false, if-elim, arith,
}
use tfm_cloud_ixl_rasta.Rasta.Link.{
  ConnectionState, closed, down, start, up, retrreq, retrrun, unknown,
}
use tfm_cloud_ixl_rasta.Rasta.Packet.{RastaPacket}
use tfm_cloud_ixl_rasta.Rasta.Sr.State.{Connection, Environment, Action, ◌>>◌}
use tfm_cloud_ixl_rasta.Rasta.Sr.Checks.{sr_cts_in_seq, sr_sn_in_seq}
use tfm_cloud_ixl_rasta.Rasta.Sr.Send.{
  unexpected_type, protocol_error, retransmission_failed, send_disconnection_request, count_sent,
  send_heartbeat, send_retransmission_request, send_retransmission_response, sr_reset_connection,
  notify_state, is_down, close_quietly, close_with_request, close_by_state, sr_close_connection,
  without_confirmed, sr_remove_confirmed_messages, with_kept, retransmit_one, retransmit_each,
  sr_retransmit_data,
}
use tfm_cloud_ixl_rasta.Rasta.Sr.Handshake.{take_numbers, take_confirmed}
use tfm_cloud_ixl_rasta.Rasta.Sr.Receive.{handle_discreq}
use tfm_cloud_ixl_rasta.Rasta.Sr.Data.{
  count_error, request_retransmission, data_out_of_sequence, data_in_retrrun, answer_retransmission,
  close_in_retrrun, answer_in_sequence, answer_out_of_sequence, retrreq_in, handle_retrreq,
  start_retransmission, retrresp_in, handle_retrresp,
}

-- The queue of the application stays as it is, and a connection that is up afterwards was up before.
abbrev pub IsQuiet : Action → Connection → Type 0
IsQuiet f c =
    ((f c).0.fifo_app_msg ≡ c.fifo_app_msg) × ((f c).0.current_state ≡ up → c.current_state ≡ up)

pub closed≢up : {A : Type 0} → closed ≡ up → A
closed≢up h = absurd (ground (arith, h))

module _ (env : Environment) where
  then-IsQuiet :
      (f g : Action) (c : Connection) → IsQuiet f c → IsQuiet g (f c).0 → IsQuiet (f >> g) c
  unfolding ◌>>◌
  then-IsQuiet f g c hf hg = (hg.0 ∙ hf.0, λ h. hf.1 (hg.1 h))

  -- A connection is closed after it is closed, and keeps its queue and its role.
  pub sr_close_connection_lem :
      (reason details : ℕ) (c : Connection)
      → let after = (sr_close_connection env reason details c).0 in
        (after.fifo_app_msg ≡ c.fifo_app_msg)
        × (after.current_state ≡ closed)
        × (after.role ≡ c.role)
        × (after.cts_r ≡ c.cts_r)
  unfolding sr_close_connection close_by_state close_quietly close_with_request sr_reset_connection
      ◌>>◌ send_disconnection_request notify_state
  sr_close_connection_lem reason details c =
      if-elim
        (λ f.
          ((f c).0.fifo_app_msg ≡ c.fifo_app_msg)
          × ((f c).0.current_state ≡ closed)
          × ((f c).0.role ≡ c.role)
          × ((f c).0.cts_r ≡ c.cts_r))
        (is_down c.current_state) {x = close_quietly env}
        {y = close_with_request env reason details} (λ _. (refl, refl, refl, refl))
        (λ _. (refl, refl, refl, refl))

  pub close-IsQuiet :
      (reason details : ℕ) (c : Connection) → IsQuiet (sr_close_connection env reason details) c
  close-IsQuiet reason details c =
      let (q, s, _, _) = sr_close_connection_lem reason details c in (q, λ h. closed≢up (sym s ∙ h))

  retransmit_each-IsQuiet :
      (xs : List (List ℕ)) (c : Connection) → IsQuiet (retransmit_each env xs) c
  unfolding retransmit_each retransmit_one with_kept count_sent ◌>>◌
  retransmit_each-IsQuiet [] c = (refl, λ h. h)
  retransmit_each-IsQuiet (x ∷ xs) c =
      then-IsQuiet (retransmit_one env x) (retransmit_each env xs) c (refl, λ h. h)
        (retransmit_each-IsQuiet xs (retransmit_one env x c).0)

  sr_retransmit_data-IsQuiet : (c : Connection) → IsQuiet (sr_retransmit_data env) c
  unfolding sr_retransmit_data send_heartbeat count_sent ◌>>◌
  sr_retransmit_data-IsQuiet c =
      retransmit_each-IsQuiet (c.fifo_retr ++ (env.stray ∷ [])) (record c { fifo_retr = [] })

  answer_retransmission-IsQuiet : (c : Connection) → IsQuiet (answer_retransmission env) c
  unfolding answer_retransmission without_confirmed send_retransmission_response count_sent ◌>>◌
  answer_retransmission-IsQuiet c =
      then-IsQuiet (sr_remove_confirmed_messages env >> send_retransmission_response env)
        (sr_retransmit_data env) c (refl, λ h. h)
        (sr_retransmit_data-IsQuiet
          (((sr_remove_confirmed_messages env >> send_retransmission_response env) c).0))

  close_in_retrrun-IsQuiet :
      (s : ConnectionState) (c : Connection) → IsQuiet (close_in_retrrun env s) c
  unfolding close_in_retrrun
  close_in_retrrun-IsQuiet retrrun c = close-IsQuiet retransmission_failed 0 c
  close_in_retrrun-IsQuiet closed c = (refl, λ h. h)
  close_in_retrrun-IsQuiet down c = (refl, λ h. h)
  close_in_retrrun-IsQuiet start c = (refl, λ h. h)
  close_in_retrrun-IsQuiet up c = (refl, λ h. h)
  close_in_retrrun-IsQuiet retrreq c = (refl, λ h. h)
  close_in_retrrun-IsQuiet unknown c = (refl, λ h. h)

  module _ (p : RastaPacket) where
    answer_in_sequence-IsQuiet : (c : Connection) → IsQuiet (answer_in_sequence env p) c
    unfolding answer_in_sequence take_numbers notify_state ◌>>◌
    answer_in_sequence-IsQuiet c =
        then-IsQuiet (take_numbers p >> take_confirmed p) (answer_retransmission env) c
          (refl, λ h. h) (answer_retransmission-IsQuiet ((take_numbers p >> take_confirmed p) c).0)

    answer_out_of_sequence-IsQuiet : (c : Connection) → IsQuiet (answer_out_of_sequence env p) c
    unfolding answer_out_of_sequence notify_state ◌>>◌
    answer_out_of_sequence-IsQuiet c =
        ((answer_retransmission-IsQuiet (take_confirmed p c).0).0, λ h. absurd (ground (arith, h)))

    retrreq_in-IsQuiet :
        (s : ConnectionState) (b : Bool) (c : Connection) → IsQuiet (retrreq_in env p s b) c
    unfolding retrreq_in
    retrreq_in-IsQuiet s true c =
        then-IsQuiet (close_in_retrrun env s) (answer_in_sequence env p) c
          (close_in_retrrun-IsQuiet s c) (answer_in_sequence-IsQuiet (close_in_retrrun env s c).0)
    retrreq_in-IsQuiet s false c = answer_out_of_sequence-IsQuiet c

    pub handle_retrreq-IsQuiet : (c : Connection) → IsQuiet (handle_retrreq env p) c
    unfolding handle_retrreq
    handle_retrreq-IsQuiet c = retrreq_in-IsQuiet c.current_state (sr_sn_in_seq c p) c

    pub handle_discreq-IsQuiet : (c : Connection) → IsQuiet (handle_discreq env p) c
    unfolding handle_discreq sr_reset_connection notify_state ◌>>◌
    handle_discreq-IsQuiet c = (refl, λ h. closed≢up h)

    retrresp_in-IsQuiet : (s : ConnectionState) (c : Connection) → IsQuiet (retrresp_in env p s) c
    unfolding retrresp_in start_retransmission take_numbers ◌>>◌
    retrresp_in-IsQuiet retrreq c = (refl, λ h. absurd (ground (arith, h)))
    retrresp_in-IsQuiet closed c = close-IsQuiet unexpected_type 0 c
    retrresp_in-IsQuiet down c = close-IsQuiet unexpected_type 0 c
    retrresp_in-IsQuiet start c = close-IsQuiet unexpected_type 0 c
    retrresp_in-IsQuiet up c = close-IsQuiet unexpected_type 0 c
    retrresp_in-IsQuiet retrrun c = close-IsQuiet unexpected_type 0 c
    retrresp_in-IsQuiet unknown c = close-IsQuiet unexpected_type 0 c

    pub handle_retrresp-IsQuiet : (c : Connection) → IsQuiet (handle_retrresp env p) c
    unfolding handle_retrresp
    handle_retrresp-IsQuiet c = retrresp_in-IsQuiet c.current_state c

    pub data_out_of_sequence-IsQuiet : (c : Connection) → IsQuiet (data_out_of_sequence env) c
    unfolding data_out_of_sequence count_error request_retransmission send_retransmission_request
        count_sent notify_state ◌>>◌
    data_out_of_sequence-IsQuiet c = (refl, λ h. absurd (ground (arith, h)))

    pub request_retransmission-IsQuiet : (c : Connection) → IsQuiet (request_retransmission env) c
    unfolding request_retransmission send_retransmission_request count_sent notify_state ◌>>◌
    request_retransmission-IsQuiet c = (refl, λ h. absurd (ground (arith, h)))

    pub data_in_retrrun-IsQuiet : (c : Connection) → IsQuiet (data_in_retrrun env p) c
    unfolding data_in_retrrun take_numbers
    data_in_retrrun-IsQuiet c =
        if-elim (λ f. IsQuiet f c) (sr_cts_in_seq c env.config p) (λ _. (refl, λ h. h))
          (λ _. close-IsQuiet protocol_error 0 c)

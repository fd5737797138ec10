-- ===== src/Rasta/Sr/Effect.antt =====
-- rasta_new.c: what a handled packet can do: put messages into the queue of the application, or open
-- the connection.
pub mod Heartbeats
pub mod Received
use tfm_cloud_ixl_rasta.Prelude.{
  ℕ, ◌≡◌, refl, sym, ◌∙◌, ap, ◌⊎◌, inl, inr, ◌==◌, ==_iff, List, [], ◌∷◌, ◌++◌, Bool, true, false,
  if-elim, if◌then◌else◌, arith, not,
}
use tfm_cloud_ixl_rasta.Rasta.Link.{
  ConnectionState, closed, down, start, up, retrreq, retrrun, unknown,
}
use tfm_cloud_ixl_rasta.Rasta.Packet.{
  RastaPacket, extract_message_data, extract_connection_data, rasta_type_connresp, rasta_type_data,
  rasta_type_retrdata, rasta_type_hb, rasta_type_retrreq, rasta_type_retrresp, rasta_type_discreq,
}
use tfm_cloud_ixl_rasta.Rasta.Sr.State.{
  RastaRole, client, server, Connection, Config, ApplicationMessage, Environment, Action, ◌>>◌,
  update, emit, skip, fifo_push, add32, handshake_complete,
}
use tfm_cloud_ixl_rasta.Rasta.Sr.Checks.{
  sr_cts_in_seq, sr_sn_in_seq, sr_check_packet, version_accepted,
}
use tfm_cloud_ixl_rasta.Rasta.Sr.Send.{
  unexpected_type, protocol_error, timeout, incompatible_version, sequence_number_error,
  send_heartbeat, count_sent, notify_state, with_ti, with_message, add_each,
  sr_add_app_messages_to_buffer, without_confirmed, sr_close_connection,
}
use tfm_cloud_ixl_rasta.Rasta.Sr.Handshake.{
  take_numbers, complete_handshake, conresp_in_start, conresp_in, handle_conresp,
}
use tfm_cloud_ixl_rasta.Rasta.Sr.Heartbeat.{
  refuse_sequence, refuse_client, finish_handshake, heartbeat_in_start, back_up,
  heartbeat_in_sequence, heartbeat_in_up, heartbeat_in, handle_hb,
}
use tfm_cloud_ixl_rasta.Rasta.Sr.Data.{
  count_error, request_retransmission, data_out_of_sequence, data_in_retrrun, data_in_up, data_in,
  handle_data, retransmitted_in_run, retrdata_in, handle_retrdata,
}
use tfm_cloud_ixl_rasta.Rasta.Sr.Receive.{dispatch}
use tfm_cloud_ixl_rasta.Rasta.Sr.Quiet.{
  IsQuiet, closed≢up, sr_close_connection_lem, close-IsQuiet, handle_retrreq-IsQuiet,
  handle_discreq-IsQuiet, handle_retrresp-IsQuiet, data_out_of_sequence-IsQuiet,
  request_retransmission-IsQuiet, data_in_retrrun-IsQuiet,
}

-- The queue of the application with messages of one sender after it, as far as there is room.
pub enqueue : ℕ → ℕ → List (List ℕ) → List ApplicationMessage → List ApplicationMessage
enqueue max_size sender [] queue = queue
enqueue max_size sender (m ∷ ms) queue =
    enqueue max_size sender ms (fifo_push max_size queue (record { id = sender; app_message = m }))

module _ (env : Environment) (p : RastaPacket) (c : Connection) where
  -- The packet is data in an open connection, or retransmitted data in a retransmission, with the
  -- number that is due and a timely confirmation. Its messages are in the queue, and the next number
  -- is due.
  pub HasDelivered : Connection → Type 0
  HasDelivered after =
      (((p.type ≡ rasta_type_data) × (c.current_state ≡ up))
        ⊎ ((p.type ≡ rasta_type_retrdata) × (c.current_state ≡ retrrun)))
      × (c.sn_r ≡ p.sequence_number)
      × (sr_cts_in_seq c env.config p ≡ true)
      × (after.fifo_app_msg
          ≡ enqueue env.config.send_max p.sender_id (extract_message_data env.big env.beyond p)
              c.fifo_app_msg)
      × (after.sn_r ≡ add32 c.sn_r 1)

  -- The packet ends a handshake or a retransmission.
  pub IsOpening : Type 0
  IsOpening =
      ((p.type ≡ rasta_type_connresp)
        × (c.role ≡ client)
        × (c.current_state ≡ start)
        × (sr_check_packet c env.config p ≡ true))
      ⊎ ((p.type ≡ rasta_type_hb)
          × (sr_cts_in_seq c env.config p ≡ true)
          × ((c.current_state ≡ start) ⊎ ((c.current_state ≡ retrrun) × (sr_sn_in_seq c p ≡ true))))

  abbrev pub Effect : Action → Type 0
  Effect f =
      (((f c).0.fifo_app_msg ≡ c.fifo_app_msg) ⊎ HasDelivered (f c).0)
      × ((f c).0.current_state ≡ up → (c.current_state ≡ up) ⊎ IsOpening)

  pub quiet : (f : Action) → IsQuiet f c → Effect f
  quiet f h = (inl h.0, λ u. inl (h.1 u))

  pub skip-Effect : Effect skip
  skip-Effect = (inl refl, λ u. inl u)

  close-Effect : (reason : ℕ) → Effect (sr_close_connection env reason 0)
  close-Effect reason = quiet (sr_close_connection env reason 0) (close-IsQuiet env reason 0 c)

  -- Data.
  number_due :
      (p.type ≡ rasta_type_data) ⊎ (p.type ≡ rasta_type_retrdata)
      → sr_sn_in_seq c p ≡ true
      → c.sn_r ≡ p.sequence_number
  unfolding sr_sn_in_seq
  number_due (inl t) h = ground (arith, t, h)
  number_due (inr t) h = ground (arith, t, h)

add_each_lem :
    (env : Environment) (p : RastaPacket) (ms : List (List ℕ)) (c : Connection)
    → let after = (add_each env p ms c).0 in
      (after.fifo_app_msg ≡ enqueue env.config.send_max p.sender_id ms c.fifo_app_msg)
      × (after.current_state ≡ c.current_state)
unfolding add_each enqueue with_message with_ti ◌>>◌
add_each_lem env p [] c = (refl, refl)
add_each_lem env p (m ∷ ms) c =
    add_each_lem env p ms (with_ti env p.confirmed_timestamp (with_message env p m c))

module _ (env : Environment) (p : RastaPacket) (c : Connection) where
  data_in_up-Effect :
      p.type ≡ rasta_type_data
      → c.current_state ≡ up
      → sr_sn_in_seq c p ≡ true
      → Effect env p c (data_in_up env p)
  unfolding data_in_up HasDelivered take_numbers count_error without_confirmed
      sr_add_app_messages_to_buffer ◌>>◌
  data_in_up-Effect t s n =
      let due = number_due env p c (inl t) n in
      let (q, _) = add_each_lem env p (extract_message_data env.big env.beyond p) c in
      if-elim (Effect env p c) (sr_cts_in_seq c env.config p)
        (λ k. (inr (inl (t, s), due, k, q, ap (λ n. add32 n 1) (sym due)), λ _. inl s))
        (λ _. (
          inl
              (close-IsQuiet env protocol_error 0
                (count_error (λ e. record e { cs = add32 e.cs 1 }) c).0).0,
          λ _. inl s,
        ))

  pub data_in-Effect :
      (s : ConnectionState) (b : Bool)
      → p.type ≡ rasta_type_data
      → c.current_state ≡ s
      → sr_sn_in_seq c p ≡ b
      → Effect env p c (data_in env p s b)
  unfolding data_in
  data_in-Effect start b t e n = close-Effect env p c unexpected_type
  data_in-Effect up true t e n = data_in_up-Effect t e n
  data_in-Effect retrrun true t e n =
      quiet env p c (data_in_retrrun env p) (data_in_retrrun-IsQuiet env p c)
  data_in-Effect up false t e n =
      quiet env p c (data_out_of_sequence env) (data_out_of_sequence-IsQuiet env p c)
  data_in-Effect retrrun false t e n =
      quiet env p c (data_out_of_sequence env) (data_out_of_sequence-IsQuiet env p c)
  data_in-Effect closed b t e n = skip-Effect env p c
  data_in-Effect down b t e n = skip-Effect env p c
  data_in-Effect retrreq b t e n = skip-Effect env p c
  data_in-Effect unknown b t e n = skip-Effect env p c

  retransmitted_in_run-Effect :
      p.type ≡ rasta_type_retrdata
      → c.current_state ≡ retrrun
      → sr_sn_in_seq c p ≡ true
      → Effect env p c (retransmitted_in_run env p)
  unfolding retransmitted_in_run HasDelivered take_numbers sr_add_app_messages_to_buffer ◌>>◌
  retransmitted_in_run-Effect t s n =
      let due = number_due env p c (inr t) n in
      let (q, k) = add_each_lem env p (extract_message_data env.big env.beyond p) c in
      if-elim (Effect env p c) (sr_cts_in_seq c env.config p)
        (λ cts.
          (inr (inr (t, s), due, cts, q, ap (λ n. add32 n 1) (sym due)), λ u. inl (sym k ∙ u)))
        (λ _. close-Effect env p c protocol_error)

  pub retrdata_in-Effect :
      (s : ConnectionState) (b : Bool)
      → p.type ≡ rasta_type_retrdata
      → c.current_state ≡ s
      → sr_sn_in_seq c p ≡ b
      → Effect env p c (retrdata_in env p s b)
  unfolding retrdata_in
  retrdata_in-Effect up b t e n = close-Effect env p c unexpected_type
  retrdata_in-Effect retrrun true t e n = retransmitted_in_run-Effect t e n
  retrdata_in-Effect retrrun false t e n =
      quiet env p c (request_retransmission env) (request_retransmission-IsQuiet env p c)
  retrdata_in-Effect closed b t e n = skip-Effect env p c
  retrdata_in-Effect down b t e n = skip-Effect env p c
  retrdata_in-Effect start b t e n = skip-Effect env p c
  retrdata_in-Effect retrreq b t e n = skip-Effect env p c
  retrdata_in-Effect unknown b t e n = skip-Effect env p c

  -- The end of a handshake.
  conresp_in_start-Effect :
      (role : RastaRole)
      → p.type ≡ rasta_type_connresp
      → c.role ≡ role
      → c.current_state ≡ start
      → sr_check_packet c env.config p ≡ true
      → Effect env p c (conresp_in_start env p role)
  unfolding conresp_in_start complete_handshake IsOpening take_numbers send_heartbeat count_sent
      notify_state ◌>>◌
  conresp_in_start-Effect client t r s k =
      if-elim (Effect env p c) (version_accepted env (extract_connection_data env.big p).version)
        {x = complete_handshake env p} {y = sr_close_connection env incompatible_version 0}
        (λ _. (inl refl, λ u. inr (inl (t, r, s, k))))
        (λ _. close-Effect env p c incompatible_version)
  conresp_in_start-Effect server t r s k = close-Effect env p c unexpected_type

  conresp_in-Effect :
      (s : ConnectionState)
      → p.type ≡ rasta_type_connresp
      → c.current_state ≡ s
      → sr_check_packet c env.config p ≡ true
      → Effect env p c (conresp_in env p c.role s)
  unfolding conresp_in
  conresp_in-Effect start t s k = conresp_in_start-Effect c.role t refl s k
  conresp_in-Effect retrreq t s k = close-Effect env p c unexpected_type
  conresp_in-Effect retrrun t s k = close-Effect env p c unexpected_type
  conresp_in-Effect up t s k = close-Effect env p c unexpected_type
  conresp_in-Effect closed t s k = skip-Effect env p c
  conresp_in-Effect down t s k = skip-Effect env p c
  conresp_in-Effect unknown t s k = skip-Effect env p c

  pub handle_conresp-Effect : p.type ≡ rasta_type_connresp → Effect env p c (handle_conresp env p)
  unfolding handle_conresp
  handle_conresp-Effect t =
      if-elim (Effect env p c) (sr_check_packet c env.config p)
        (λ k. conresp_in-Effect c.current_state t refl k) (λ _. close-Effect env p c protocol_error)

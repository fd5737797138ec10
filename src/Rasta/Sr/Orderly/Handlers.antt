-- ===== src/Rasta/Sr/Orderly/Handlers.antt =====
-- rasta_new.c: the handlers of the handshake, of heartbeats and of disconnections send the numbers that are
-- due and keep the queues in their bounds.
use tfm_cloud_ixl_rasta.Prelude.{ℕ, refl, if◌then◌else◌, false, some, if-elim}
use tfm_cloud_ixl_rasta.Rasta.Link.{
  ConnectionState, closed, down, start, up, retrreq, retrrun, unknown,
}
use tfm_cloud_ixl_rasta.Rasta.Packet.{
  RastaPacket, extract_connection_data, extract_disconnection_data,
}
use tfm_cloud_ixl_rasta.Rasta.Sr.State.{
  RastaRole, client, server, Connection, Environment, Action, ◌>>◌, emit, skip, add32, sub32,
  handshake_complete, channel_removed, disconnection_request_received,
}
use tfm_cloud_ixl_rasta.Rasta.Sr.Checks.{
  sr_cts_in_seq, sr_sn_in_seq, sr_check_packet, version_accepted,
}
use tfm_cloud_ixl_rasta.Rasta.Sr.Send.{
  unexpected_type, protocol_error, timeout, incompatible_version, sequence_number_error,
  notify_state, sr_close_connection,
}
use tfm_cloud_ixl_rasta.Rasta.Sr.Handshake.{
  set_state, take_numbers, take_confirmed, complete_handshake, conresp_in_start, conresp_in,
  handle_conresp,
}
use tfm_cloud_ixl_rasta.Rasta.Sr.Heartbeat.{
  refuse_sequence, refuse_client, finish_handshake, heartbeat_in_start, back_up,
  heartbeat_in_sequence, heartbeat_in_up, heartbeat_in, handle_hb,
}
use tfm_cloud_ixl_rasta.Rasta.Sr.Receive.{handle_discreq}
use tfm_cloud_ixl_rasta.Rasta.Sr.Steps.{count_on}
use tfm_cloud_ixl_rasta.Rasta.Sr.Orderly.{IsOrderly, skip-IsOrderly}
use tfm_cloud_ixl_rasta.Rasta.Sr.Orderly.Actions.{
  both, branch, touch, announce, send_heartbeat-IsOrderly, notify_state-IsOrderly,
  set_state-IsOrderly, reset-IsOrderly, sr_close_connection-IsOrderly, update_ti-IsOrderly,
}

module _ (env : Environment) (p : RastaPacket) where
  abbrev pub Orderly : Action → Type 0
  Orderly f = IsOrderly env.config f

  pub close : (reason : ℕ) → Orderly (sr_close_connection env reason 0)
  close reason = sr_close_connection-IsOrderly env reason 0

  -- An action that the connection's own state or role selects.
  pub selected :
      (f : Connection → Action) → ((c : Connection) → Orderly (f c)) → Orderly (λ c. f c c)
  unfolding IsOrderly
  selected f h c = h c c

  pub take_numbers-IsOrderly : Orderly (take_numbers p)
  unfolding take_numbers
  take_numbers-IsOrderly =
      touch env
        (λ c. record c {
          sn_r = add32 p.sequence_number 1;
          cs_t = p.sequence_number;
          ts_r = p.timestamp;
        })
        (λ c. refl) (λ c h. h)

  pub take_confirmed-IsOrderly : Orderly (take_confirmed p)
  take_confirmed-IsOrderly =
      touch env (λ c. record c { cs_r = p.confirmed_sequence_number }) (λ c. refl) (λ c h. h)

  handshake-IsOrderly : Orderly (emit (λ c. handshake_complete))
  unfolding count_on
  handshake-IsOrderly = announce env (λ c. handshake_complete) (λ c. refl)

  complete_handshake-IsOrderly : Orderly (complete_handshake env p)
  unfolding complete_handshake
  complete_handshake-IsOrderly =
      both env _ _
        (both env _ _
          (both env _ _
            (both env _ _
              (both env _ _ (both env _ _ take_numbers-IsOrderly take_confirmed-IsOrderly)
                (send_heartbeat-IsOrderly env))
              (set_state-IsOrderly env up))
            (notify_state-IsOrderly env))
          handshake-IsOrderly)
        (touch env
          (λ c. record c {
            ts_last_message = env.now;
            hb_locked = false;
            connected_recv_buffer_size = some (extract_connection_data env.big p).send_max;
            ti_start_time = env.now;
          })
          (λ c. refl) (λ c h. h))

  conresp_in_start-IsOrderly : (role : RastaRole) → Orderly (conresp_in_start env p role)
  unfolding conresp_in_start
  conresp_in_start-IsOrderly client =
      branch env (λ c. version_accepted env (extract_connection_data env.big p).version)
        (complete_handshake env p) (sr_close_connection env incompatible_version 0)
        complete_handshake-IsOrderly (close incompatible_version)
  conresp_in_start-IsOrderly server = close unexpected_type

  conresp_in-IsOrderly :
      (role : RastaRole) (s : ConnectionState) → Orderly (conresp_in env p role s)
  unfolding conresp_in
  conresp_in-IsOrderly role start = conresp_in_start-IsOrderly role
  conresp_in-IsOrderly role retrreq = close unexpected_type
  conresp_in-IsOrderly role retrrun = close unexpected_type
  conresp_in-IsOrderly role up = close unexpected_type
  conresp_in-IsOrderly role closed = skip-IsOrderly env.config
  conresp_in-IsOrderly role down = skip-IsOrderly env.config
  conresp_in-IsOrderly role unknown = skip-IsOrderly env.config

  pub handle_conresp-IsOrderly : Orderly (handle_conresp env p)
  unfolding handle_conresp
  handle_conresp-IsOrderly =
      selected
        (λ c.
          if sr_check_packet c env.config p
          then conresp_in env p c.role c.current_state
          else sr_close_connection env protocol_error 0)
        (λ c.
          if-elim Orderly (sr_check_packet c env.config p)
            (λ _. conresp_in-IsOrderly c.role c.current_state) (λ _. close protocol_error))

  pub handle_discreq-IsOrderly : Orderly (handle_discreq env p)
  unfolding handle_discreq count_on
  handle_discreq-IsOrderly =
      both env _ _
        (both env _ _
          (both env _ _ (both env _ _ (set_state-IsOrderly env closed) (reset-IsOrderly env))
            (announce env (λ c. channel_removed c.remote_id) (λ c. refl)))
          (notify_state-IsOrderly env))
        (announce env (λ c. disconnection_request_received (extract_disconnection_data env.big p))
          (λ c. refl))

  refuse_sequence-IsOrderly : (role : RastaRole) → Orderly (refuse_sequence env role)
  unfolding refuse_sequence
  refuse_sequence-IsOrderly client = close unexpected_type
  refuse_sequence-IsOrderly server = close sequence_number_error

  refuse_client-IsOrderly : (role : RastaRole) → Orderly (refuse_client env role)
  unfolding refuse_client
  refuse_client-IsOrderly client = close unexpected_type
  refuse_client-IsOrderly server = skip-IsOrderly env.config

  finish_handshake-IsOrderly : Orderly (finish_handshake env p)
  unfolding finish_handshake
  finish_handshake-IsOrderly =
      branch env (λ c. sr_cts_in_seq c env.config p) _ (sr_close_connection env protocol_error 0)
        (both env _ _
          (both env _ _
            (both env _ _
              (both env _ _
                (both env _ _ (both env _ _ take_numbers-IsOrderly take_confirmed-IsOrderly)
                  (set_state-IsOrderly env up))
                (touch env (λ c. record c { hb_locked = false }) (λ c. refl) (λ c h. h)))
              (notify_state-IsOrderly env))
            handshake-IsOrderly)
          (touch env (λ c. record c { ts_last_message = env.now; ti_start_time = env.now })
            (λ c. refl) (λ c h. h)))
        (close protocol_error)

  heartbeat_in_start-IsOrderly : Orderly (heartbeat_in_start env p)
  unfolding heartbeat_in_start
  heartbeat_in_start-IsOrderly =
      both env _ _
        (both env _ _
          (selected (λ c. if sr_sn_in_seq c p then skip else refuse_sequence env c.role)
            (λ c.
              if-elim Orderly (sr_sn_in_seq c p) (λ _. skip-IsOrderly env.config)
                (λ _. refuse_sequence-IsOrderly c.role)))
          (selected (λ c. refuse_client env c.role) (λ c. refuse_client-IsOrderly c.role)))
        finish_handshake-IsOrderly

  back_up-IsOrderly : (s : ConnectionState) → Orderly (back_up s)
  unfolding back_up
  back_up-IsOrderly retrrun = both env _ _ (set_state-IsOrderly env up) (notify_state-IsOrderly env)
  back_up-IsOrderly closed = skip-IsOrderly env.config
  back_up-IsOrderly down = skip-IsOrderly env.config
  back_up-IsOrderly start = skip-IsOrderly env.config
  back_up-IsOrderly up = skip-IsOrderly env.config
  back_up-IsOrderly retrreq = skip-IsOrderly env.config
  back_up-IsOrderly unknown = skip-IsOrderly env.config

  heartbeat_in_sequence-IsOrderly : Orderly (heartbeat_in_sequence env p)
  unfolding heartbeat_in_sequence
  heartbeat_in_sequence-IsOrderly =
      both env _ _
        (both env _ _
          (both env _ _ (update_ti-IsOrderly env p.confirmed_timestamp) take_numbers-IsOrderly)
          (touch env (λ c. record c { cs_r = sub32 c.sn_t 1; cts_r = env.now }) (λ c. refl)
            (λ c h. h)))
        (selected (λ c. back_up c.current_state) (λ c. back_up-IsOrderly c.current_state))

  heartbeat_in_up-IsOrderly : Orderly (heartbeat_in_up env p)
  unfolding heartbeat_in_up
  heartbeat_in_up-IsOrderly =
      selected
        (λ c.
          if sr_sn_in_seq c p
          then if sr_cts_in_seq c env.config p
            then heartbeat_in_sequence env p
            else sr_close_connection env timeout 0
          else set_state retrreq >> notify_state)
        (λ c.
          if-elim Orderly (sr_sn_in_seq c p)
            (λ _.
              if-elim Orderly (sr_cts_in_seq c env.config p) (λ _. heartbeat_in_sequence-IsOrderly)
                (λ _. close timeout))
            (λ _. both env _ _ (set_state-IsOrderly env retrreq) (notify_state-IsOrderly env)))

  heartbeat_in-IsOrderly : (s : ConnectionState) → Orderly (heartbeat_in env p s)
  unfolding heartbeat_in
  heartbeat_in-IsOrderly start = heartbeat_in_start-IsOrderly
  heartbeat_in-IsOrderly up = heartbeat_in_up-IsOrderly
  heartbeat_in-IsOrderly retrrun = heartbeat_in_up-IsOrderly
  heartbeat_in-IsOrderly closed = skip-IsOrderly env.config
  heartbeat_in-IsOrderly down = skip-IsOrderly env.config
  heartbeat_in-IsOrderly retrreq = skip-IsOrderly env.config
  heartbeat_in-IsOrderly unknown = skip-IsOrderly env.config

  pub handle_hb-IsOrderly : Orderly (handle_hb env p)
  unfolding handle_hb
  handle_hb-IsOrderly =
      selected (λ c. heartbeat_in env p c.current_state)
        (λ c. heartbeat_in-IsOrderly c.current_state)

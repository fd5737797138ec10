-- ===== src/Rasta/Sr/Orderly/Data.antt =====
-- rasta_new.c: the handlers of data and of retransmission, and what calls the handlers, send the numbers
-- that are due and keep the queues in their bounds.
use tfm_cloud_ixl_rasta.Prelude.{refl, ◌==◌, not, Bool, true, false, if-elim}
use tfm_cloud_ixl_rasta.Rasta.Link.{
  ConnectionState, closed, down, start, up, retrreq, retrrun, unknown,
}
use tfm_cloud_ixl_rasta.Rasta.Packet.{
  RastaPacket, rasta_type_connresp, rasta_type_retrdata, rasta_type_data, rasta_type_retrreq,
  rasta_type_retrresp, rasta_type_discreq, rasta_type_hb,
}
use tfm_cloud_ixl_rasta.Rasta.Sr.State.{Connection, ErrorCounters, Environment, add32, sub32}
use tfm_cloud_ixl_rasta.Rasta.Sr.Checks.{
  sr_cts_in_seq, sr_sn_in_seq, sr_message_authentic, sr_sn_range_valid, sr_cs_valid,
}
use tfm_cloud_ixl_rasta.Rasta.Sr.Send.{unexpected_type, protocol_error, retransmission_failed}
use tfm_cloud_ixl_rasta.Rasta.Sr.Data.{
  count_error, request_retransmission, data_in_up, data_out_of_sequence, data_in_retrrun, data_in,
  handle_data, answer_retransmission, close_in_retrrun, answer_in_sequence, answer_out_of_sequence,
  retrreq_in, handle_retrreq, start_retransmission, retrresp_in, handle_retrresp,
  retransmitted_in_run, retrdata_in, handle_retrdata,
}
use tfm_cloud_ixl_rasta.Rasta.Sr.Receive.{dispatch, checked, receive_known}
use tfm_cloud_ixl_rasta.Rasta.Sr.Orderly.{skip-IsOrderly}
use tfm_cloud_ixl_rasta.Rasta.Sr.Orderly.Actions.{
  both, branch, touch, send_retransmission_request-IsOrderly,
  send_retransmission_response-IsOrderly, notify_state-IsOrderly, set_state-IsOrderly,
  sr_add_app_messages_to_buffer-IsOrderly, sr_remove_confirmed_messages-IsOrderly,
  sr_retransmit_data-IsOrderly,
}
use tfm_cloud_ixl_rasta.Rasta.Sr.Orderly.Handlers.{
  Orderly, close, selected, take_numbers-IsOrderly, take_confirmed-IsOrderly,
  handle_conresp-IsOrderly, handle_discreq-IsOrderly, handle_hb-IsOrderly,
}

module _ (env : Environment) (p : RastaPacket) where
  count_error-IsOrderly : (f : ErrorCounters → ErrorCounters) → Orderly env p (count_error f)
  unfolding count_error
  count_error-IsOrderly f = touch env (λ c. record c { errors = f c.errors }) (λ c. refl) (λ c h. h)

  request_retransmission-IsOrderly : Orderly env p (request_retransmission env)
  unfolding request_retransmission
  request_retransmission-IsOrderly =
      both env _ _
        (both env _ _ (send_retransmission_request-IsOrderly env) (set_state-IsOrderly env retrreq))
        (notify_state-IsOrderly env)

  data_in_up-IsOrderly : Orderly env p (data_in_up env p)
  unfolding data_in_up
  data_in_up-IsOrderly =
      branch env (λ c. sr_cts_in_seq c env.config p) _ _
        (both env _ _
          (both env _ _
            (both env _ _
              (both env _ _ (sr_add_app_messages_to_buffer-IsOrderly env p)
                (take_numbers-IsOrderly env p))
              (take_confirmed-IsOrderly env p))
            (touch env (λ c. record c { cts_r = p.confirmed_timestamp }) (λ c. refl) (λ c h. h)))
          (sr_remove_confirmed_messages-IsOrderly env))
        (both env _ _ (count_error-IsOrderly (λ e. record e { cs = add32 e.cs 1 }))
          (close env p protocol_error))

  data_out_of_sequence-IsOrderly : Orderly env p (data_out_of_sequence env)
  unfolding data_out_of_sequence
  data_out_of_sequence-IsOrderly =
      both env _ _ (count_error-IsOrderly (λ e. record e { sn = add32 e.sn 1 }))
        request_retransmission-IsOrderly

  data_in_retrrun-IsOrderly : Orderly env p (data_in_retrrun env p)
  unfolding data_in_retrrun
  data_in_retrrun-IsOrderly =
      branch env (λ c. sr_cts_in_seq c env.config p) _ _ (take_numbers-IsOrderly env p)
        (close env p protocol_error)

  data_in-IsOrderly : (s : ConnectionState) (b : Bool) → Orderly env p (data_in env p s b)
  unfolding data_in
  data_in-IsOrderly start b = close env p unexpected_type
  data_in-IsOrderly up true = data_in_up-IsOrderly
  data_in-IsOrderly retrrun true = data_in_retrrun-IsOrderly
  data_in-IsOrderly up false = data_out_of_sequence-IsOrderly
  data_in-IsOrderly retrrun false = data_out_of_sequence-IsOrderly
  data_in-IsOrderly closed b = skip-IsOrderly env.config
  data_in-IsOrderly down b = skip-IsOrderly env.config
  data_in-IsOrderly retrreq b = skip-IsOrderly env.config
  data_in-IsOrderly unknown b = skip-IsOrderly env.config

  handle_data-IsOrderly : Orderly env p (handle_data env p)
  unfolding handle_data
  handle_data-IsOrderly =
      selected env p (λ c. data_in env p c.current_state (sr_sn_in_seq c p))
        (λ c. data_in-IsOrderly c.current_state (sr_sn_in_seq c p))

  answer_retransmission-IsOrderly : Orderly env p (answer_retransmission env)
  unfolding answer_retransmission
  answer_retransmission-IsOrderly =
      both env _ _
        (both env _ _ (sr_remove_confirmed_messages-IsOrderly env)
          (send_retransmission_response-IsOrderly env))
        (sr_retransmit_data-IsOrderly env)

  close_in_retrrun-IsOrderly : (s : ConnectionState) → Orderly env p (close_in_retrrun env s)
  unfolding close_in_retrrun
  close_in_retrrun-IsOrderly retrrun = close env p retransmission_failed
  close_in_retrrun-IsOrderly closed = skip-IsOrderly env.config
  close_in_retrrun-IsOrderly down = skip-IsOrderly env.config
  close_in_retrrun-IsOrderly start = skip-IsOrderly env.config
  close_in_retrrun-IsOrderly up = skip-IsOrderly env.config
  close_in_retrrun-IsOrderly retrreq = skip-IsOrderly env.config
  close_in_retrrun-IsOrderly unknown = skip-IsOrderly env.config

  retrreq_in-IsOrderly : (s : ConnectionState) (b : Bool) → Orderly env p (retrreq_in env p s b)
  unfolding retrreq_in answer_in_sequence answer_out_of_sequence
  retrreq_in-IsOrderly s true = both env _ _ (close_in_retrrun-IsOrderly s) (
      both env _ _
        (both env _ _ (both env _ _ (take_numbers-IsOrderly env p) (take_confirmed-IsOrderly env p))
          answer_retransmission-IsOrderly)
        (notify_state-IsOrderly env))
  retrreq_in-IsOrderly s false =
      both env _ _ (both env _ _ (take_confirmed-IsOrderly env p) answer_retransmission-IsOrderly)
        (both env _ _ (set_state-IsOrderly env retrreq) (notify_state-IsOrderly env))

  handle_retrreq-IsOrderly : Orderly env p (handle_retrreq env p)
  unfolding handle_retrreq
  handle_retrreq-IsOrderly =
      selected env p (λ c. retrreq_in env p c.current_state (sr_sn_in_seq c p))
        (λ c. retrreq_in-IsOrderly c.current_state (sr_sn_in_seq c p))

  start_retransmission-IsOrderly : Orderly env p (start_retransmission env p)
  unfolding start_retransmission
  start_retransmission-IsOrderly =
      both env _ _ (both env _ _ (set_state-IsOrderly env retrrun) (take_numbers-IsOrderly env p)) (
        touch env (λ c. record c { cs_r = sub32 c.sn_t 1; cts_r = env.now }) (λ c. refl) (λ c h. h))

  retrresp_in-IsOrderly : (s : ConnectionState) → Orderly env p (retrresp_in env p s)
  unfolding retrresp_in
  retrresp_in-IsOrderly retrreq = start_retransmission-IsOrderly
  retrresp_in-IsOrderly closed = close env p unexpected_type
  retrresp_in-IsOrderly down = close env p unexpected_type
  retrresp_in-IsOrderly start = close env p unexpected_type
  retrresp_in-IsOrderly up = close env p unexpected_type
  retrresp_in-IsOrderly retrrun = close env p unexpected_type
  retrresp_in-IsOrderly unknown = close env p unexpected_type

  retransmitted_in_run-IsOrderly : Orderly env p (retransmitted_in_run env p)
  unfolding retransmitted_in_run
  retransmitted_in_run-IsOrderly =
      branch env (λ c. sr_cts_in_seq c env.config p) _ _
        (both env _ _
          (both env _ _ (sr_add_app_messages_to_buffer-IsOrderly env p)
            (take_numbers-IsOrderly env p))
          (take_confirmed-IsOrderly env p))
        (close env p protocol_error)

  retrdata_in-IsOrderly : (s : ConnectionState) (b : Bool) → Orderly env p (retrdata_in env p s b)
  unfolding retrdata_in
  retrdata_in-IsOrderly up b = close env p unexpected_type
  retrdata_in-IsOrderly retrrun true = retransmitted_in_run-IsOrderly
  retrdata_in-IsOrderly retrrun false = request_retransmission-IsOrderly
  retrdata_in-IsOrderly closed b = skip-IsOrderly env.config
  retrdata_in-IsOrderly down b = skip-IsOrderly env.config
  retrdata_in-IsOrderly start b = skip-IsOrderly env.config
  retrdata_in-IsOrderly retrreq b = skip-IsOrderly env.config
  retrdata_in-IsOrderly unknown b = skip-IsOrderly env.config

  dispatch-IsOrderly : Orderly env p (dispatch env p)
  unfolding dispatch handle_retrresp handle_retrdata
  dispatch-IsOrderly =
      if-elim (Orderly env p) (p.type == rasta_type_retrdata)
        (λ _.
          selected env p (λ c. retrdata_in env p c.current_state (sr_sn_in_seq c p))
            (λ c. retrdata_in-IsOrderly c.current_state (sr_sn_in_seq c p)))
        (λ _.
          if-elim (Orderly env p) (p.type == rasta_type_data) (λ _. handle_data-IsOrderly)
            (λ _.
              if-elim (Orderly env p) (p.type == rasta_type_retrreq) (λ _. handle_retrreq-IsOrderly)
                (λ _.
                  if-elim (Orderly env p) (p.type == rasta_type_retrresp)
                    (λ _.
                      selected env p (λ c. retrresp_in env p c.current_state)
                        (λ c. retrresp_in-IsOrderly c.current_state))
                    (λ _.
                      if-elim (Orderly env p) (p.type == rasta_type_discreq)
                        (λ _. handle_discreq-IsOrderly env p)
                        (λ _.
                          if-elim (Orderly env p) (p.type == rasta_type_hb)
                            (λ _. handle_hb-IsOrderly env p)
                            (λ _.
                              count_error-IsOrderly
                                (λ e. record e { type_errors = add32 e.type_errors 1 })))))))

  checked-IsOrderly : (c : Connection) → Orderly env p (checked env p c)
  unfolding checked
  checked-IsOrderly c =
      if-elim (Orderly env p) (p.type == rasta_type_connresp) (λ _. handle_conresp-IsOrderly env p)
        (λ _.
          if-elim (Orderly env p) (not p.checksum_correct)
            (λ _. count_error-IsOrderly (λ e. record e { safety = add32 e.safety 1 }))
            (λ _.
              if-elim (Orderly env p) (not (sr_message_authentic c p))
                (λ _. count_error-IsOrderly (λ e. record e { address = add32 e.address 1 }))
                (λ _.
                  if-elim (Orderly env p) (not (sr_sn_range_valid c env.config p))
                    (λ _. count_error-IsOrderly (λ e. record e { sn = add32 e.sn 1 }))
                    (λ _.
                      if-elim (Orderly env p) (not (sr_cs_valid c p))
                        (λ _. count_error-IsOrderly (λ e. record e { cs = add32 e.cs 1 }))
                        (λ _. dispatch-IsOrderly)))))

  pub receive_known-IsOrderly : Orderly env p (receive_known env p)
  unfolding receive_known
  receive_known-IsOrderly = selected env p (checked env p) checked-IsOrderly

-- ===== src/Rasta/Sr/Orderly/Actions.antt =====
-- rasta_new.c: what is sent, closed and queued, by the functions that the handlers share.
use tfm_cloud_ixl_rasta.Prelude.{
  ℕ, suc, if◌then◌else◌, ◌≤◌, ◌==◌, ==_refl, ◌≡◌, refl, sym, ap, some, List, [], ◌++◌, length, ◌∷◌,
  Bool, false, if-elim, arith,
}
use tfm_cloud_ixl_rasta.Rasta.Link.{ConnectionState, closed}
use tfm_cloud_ixl_rasta.Rasta.Packet.{
  RastaPacket, rasta_type_discreq, create_disconnection_request, create_heartbeat,
  create_retransmission_request, create_retransmission_response, create_retransmitted_data_message,
  extract_message_data,
}
use tfm_cloud_ixl_rasta.Rasta.Sr.State.{
  Connection, Environment, Event, Action, ◌>>◌, update, emit, header_of, sent, received,
  channel_removed,
}
use tfm_cloud_ixl_rasta.Rasta.Sr.Send.{
  max_queue_size, send_disconnection_request, count_sent, send_heartbeat,
  send_retransmission_request, send_retransmission_response, update_ti, sr_reset_connection,
  notify_state, is_down, close_by_state, close_quietly, close_with_request, sr_close_connection,
  with_ti, with_message, add_each, sr_add_app_messages_to_buffer, remove_confirmed,
  sr_remove_confirmed_messages, without_confirmed, with_kept, retransmission_of, retransmit_one,
  retransmit_each, sr_retransmit_data,
}
use tfm_cloud_ixl_rasta.Rasta.Sr.Steps.{count_on, IsBounded}
use tfm_cloud_ixl_rasta.Rasta.Sr.Orderly.{
  IsOrderly, then-IsOrderly, if-IsOrderlyAt, skip-IsOrderly, count_on_sent, length-fifo_push,
}

module _ (env : Environment) where
  pub both :
      (f g : Action)
      → IsOrderly env.config f
      → IsOrderly env.config g
      → IsOrderly env.config (f >> g)
  both f g hf hg = then-IsOrderly env.config f g hf hg

  pub send_disconnection_request-IsOrderly :
      (reason details : ℕ) → IsOrderly env.config (send_disconnection_request env reason details)
  unfolding send_disconnection_request count_on create_disconnection_request IsOrderly
  send_disconnection_request-IsOrderly reason details c = (rw (==_refl c.sn_t) refl, λ h. h)

  -- A packet with the number that is due, which is then counted.
  sent_counted :
      (p : Connection → RastaPacket)
      → ((c : Connection) → (p c).sequence_number ≡ c.sn_t)
      → ((c : Connection) → ((p c).type == rasta_type_discreq) ≡ false)
      → IsOrderly env.config (emit (λ c. sent (p c)) >> count_sent)
  unfolding ◌>>◌ count_sent IsOrderly
  sent_counted p e t c = (count_on_sent env.config c.sn_t (p c) (e c) (t c), λ h. h)

  pub touch :
      (f : Connection → Connection)
      → ((c : Connection) → (f c).sn_t ≡ c.sn_t)
      → ((c : Connection) → IsBounded env.config c → IsBounded env.config (f c))
      → IsOrderly env.config (update f)
  unfolding count_on IsOrderly
  touch f e b c = (ap (λ n. some n) (sym (e c)), b c)

  pub send_heartbeat-IsOrderly : IsOrderly env.config (send_heartbeat env)
  unfolding send_heartbeat create_heartbeat
  send_heartbeat-IsOrderly =
      both _ _ (sent_counted (λ c. create_heartbeat (header_of env c)) (λ c. refl) (λ c. refl))
        (touch (λ c. record c { ts_last_message = env.now }) (λ c. refl) (λ c h. h))

  pub send_retransmission_request-IsOrderly : IsOrderly env.config (send_retransmission_request env)
  unfolding send_retransmission_request create_retransmission_request
  send_retransmission_request-IsOrderly =
      sent_counted (λ c. create_retransmission_request (header_of env c)) (λ c. refl) (λ c. refl)

  pub send_retransmission_response-IsOrderly :
      IsOrderly env.config (send_retransmission_response env)
  unfolding send_retransmission_response create_retransmission_response
  send_retransmission_response-IsOrderly =
      sent_counted (λ c. create_retransmission_response (header_of env c)) (λ c. refl) (λ c. refl)

  pub announce :
      (e : Connection → Event)
      → ((c : Connection) → count_on c.sn_t (e c ∷ []) ≡ some c.sn_t)
      → IsOrderly env.config (emit e)
  unfolding IsOrderly
  announce e h c = (h c, λ b. b)

  pub notify_state-IsOrderly : IsOrderly env.config notify_state
  unfolding notify_state count_on IsOrderly
  notify_state-IsOrderly c = (refl, λ h. h)

  pub set_state-IsOrderly :
      (s : ConnectionState) → IsOrderly env.config (update (λ c. record c { current_state = s }))
  set_state-IsOrderly s = touch (λ c. record c { current_state = s }) (λ c. refl) (λ c h. h)

  pub reset-IsOrderly :
      IsOrderly env.config (update (λ c. sr_reset_connection env.config c.remote_id c))
  unfolding sr_reset_connection
  reset-IsOrderly = touch (λ c. sr_reset_connection env.config c.remote_id c) (λ c. refl) (λ c h. h)

  pub branch :
      (t : Connection → Bool) (f g : Action)
      → IsOrderly env.config f
      → IsOrderly env.config g
      → IsOrderly env.config (λ c. (if t c then f else g) c)
  unfolding IsOrderly
  branch t f g hf hg c = if-IsOrderlyAt env.config (t c) f g c (hf c) (hg c)

  close_by_state-IsOrderly :
      (reason details : ℕ) → IsOrderly env.config (close_by_state env reason details)
  unfolding close_by_state close_quietly close_with_request
  close_by_state-IsOrderly reason details =
      branch (λ c. is_down c.current_state) (close_quietly env)
        (close_with_request env reason details) (both _ _ reset-IsOrderly notify_state-IsOrderly)
        (both _ _
          (both _ _ (both _ _ reset-IsOrderly (send_disconnection_request-IsOrderly reason details))
            (set_state-IsOrderly closed))
          notify_state-IsOrderly)

  pub sr_close_connection-IsOrderly :
      (reason details : ℕ) → IsOrderly env.config (sr_close_connection env reason details)
  unfolding sr_close_connection count_on
  sr_close_connection-IsOrderly reason details =
      both _ _ (close_by_state-IsOrderly reason details)
        (announce (λ c. channel_removed c.remote_id) (λ c. refl))

  pub update_ti-IsOrderly : (ts : ℕ) → IsOrderly env.config (update_ti env ts)
  unfolding with_ti
  update_ti-IsOrderly ts = touch (with_ti env ts) (λ c. refl) (λ c h. h)

  add_each-IsOrderly :
      (p : RastaPacket) (ms : List (List ℕ)) → IsOrderly env.config (add_each env p ms)
  unfolding add_each with_message count_on
  add_each-IsOrderly p [] = skip-IsOrderly env.config
  add_each-IsOrderly p (m ∷ ms) =
      both _ _
        (both _ _
          (both _ _
            (touch (with_message env p m) (λ c. refl)
              (λ c h.
                (length-fifo_push env.config env.config.send_max c.fifo_app_msg _ h.0, h.1, h.2)))
            (announce (λ c. received) (λ c. refl)))
          (update_ti-IsOrderly p.confirmed_timestamp))
        (add_each-IsOrderly p ms)

  pub sr_add_app_messages_to_buffer-IsOrderly :
      (p : RastaPacket) → IsOrderly env.config (sr_add_app_messages_to_buffer env p)
  unfolding sr_add_app_messages_to_buffer
  sr_add_app_messages_to_buffer-IsOrderly p =
      add_each-IsOrderly p (extract_message_data env.big env.beyond p)

  length-remove_confirmed :
      (decode : List ℕ → RastaPacket) (cs_r : ℕ) (xs : List (List ℕ))
      → length (remove_confirmed decode cs_r xs) ≤ length xs
  unfolding remove_confirmed
  length-remove_confirmed decode cs_r [] = omega arith
  length-remove_confirmed decode cs_r (x ∷ xs) =
      let shorter = length-remove_confirmed decode cs_r xs in
      if-elim (λ l. length l ≤ suc (length xs)) ((decode x).sequence_number == cs_r) {x = xs}
        {y = remove_confirmed decode cs_r xs} (λ _. omega arith) (λ _. omega arith)

  pub sr_remove_confirmed_messages-IsOrderly :
      IsOrderly env.config (sr_remove_confirmed_messages env)
  unfolding without_confirmed
  sr_remove_confirmed_messages-IsOrderly =
      touch (without_confirmed env) (λ c. refl)
        (λ c h.
          (h.0, omega (arith, h.1, length-remove_confirmed env.decode c.cs_r c.fifo_retr), h.2))

  retransmit_one-IsOrderly : (x : List ℕ) → IsOrderly env.config (retransmit_one env x)
  unfolding retransmit_one retransmission_of with_kept create_retransmitted_data_message
  retransmit_one-IsOrderly x =
      both _ _
        (both _ _
          (touch (λ c. with_kept env (env.encode (retransmission_of env x c)) c) (λ c. refl)
            (λ c h. (h.0, length-fifo_push env.config max_queue_size c.fifo_retr _ h.1, h.2)))
          (sent_counted (retransmission_of env x) (λ c. refl) (λ c. refl)))
        (touch (λ c. record c { ts_last_message = env.now }) (λ c. refl) (λ c h. h))

  retransmit_each-IsOrderly : (xs : List (List ℕ)) → IsOrderly env.config (retransmit_each env xs)
  unfolding retransmit_each
  retransmit_each-IsOrderly [] = skip-IsOrderly env.config
  retransmit_each-IsOrderly (x ∷ xs) =
      both _ _ (retransmit_one-IsOrderly x) (retransmit_each-IsOrderly xs)

  pub sr_retransmit_data-IsOrderly : IsOrderly env.config (sr_retransmit_data env)
  unfolding sr_retransmit_data IsOrderly
  sr_retransmit_data-IsOrderly c =
      both _ _
        (both (update (λ c. record c { fifo_retr = [] })) _
          (touch (λ c. record c { fifo_retr = [] }) (λ c. refl) (λ c h. (h.0, omega arith, h.2)))
          (retransmit_each-IsOrderly (c.fifo_retr ++ (env.stray ∷ []))))
        send_heartbeat-IsOrderly c

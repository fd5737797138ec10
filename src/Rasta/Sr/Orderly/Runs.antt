-- ===== src/Rasta/Sr/Orderly/Runs.antt =====
-- rasta_new.c: the threads and the calls of the application, and what holds of a connection however
-- their steps follow one another.
use tfm_cloud_ixl_rasta.Prelude.{
  ℕ, suc, ap, ◌≡◌, refl, ◌∙◌, subst, List, [], length, length-drop, ◌∷◌, ltb, leb, not, ◌&&◌, ◌||◌,
  arith, none, some, ◌*◌, ◌≤◌, if-elim, ◌==◌, ==_iff, Bool-cases, inl, inr, Option, sym,
}
use tfm_cloud_ixl_rasta.Rasta.Link.{
  ConnectionState, closed, down, start, up, retrreq, retrrun, unknown,
}
use tfm_cloud_ixl_rasta.Rasta.Packet.{
  RastaPacket, rasta_type_connreq, create_data_message, create_connection_response,
  extract_connection_data,
}
use tfm_cloud_ixl_rasta.Rasta.Sr.State.{
  Connection, Config, ApplicationMessage, Environment, Event, sent, add32, ◌>>◌, fifo_push,
  heartbeat_timeout,
}
use tfm_cloud_ixl_rasta.Rasta.Sr.Send.{
  timeout, unexpected_type, protocol_error, incompatible_version, close_by_state, close_quietly,
  sr_init_connection, user_request, service_not_allowed, max_queue_size, notify_state, is_down,
  sr_close_connection, send_disconnection_request,
}
use tfm_cloud_ixl_rasta.Rasta.Sr.Checks.{sr_check_packet}
use tfm_cloud_ixl_rasta.Rasta.Sr.Handshake.{
  set_state, new_connection, accepted_connection, connection_response, client_version_accepted,
  accept_request, handle_conreq,
}
use tfm_cloud_ixl_rasta.Rasta.Sr.Receive.{receive_packet, receive_other}
use tfm_cloud_ixl_rasta.Rasta.Sr.Threads.{
  has_heartbeat, elapsed, is_expired, check_timeout, heartbeat_if_due, heartbeat_pass,
  next_messages, next_data, send_queued, send_pass,
}
use tfm_cloud_ixl_rasta.Rasta.Sr.Connections.{
  push_each, queue_messages, send_in, take_message, sr_get_received_data,
}
use tfm_cloud_ixl_rasta.Rasta.Sr.Steps.{
  Step, receives, beats, sends, queues, disconnects, delivers, Run, done, next, count_on, IsBounded,
}
use tfm_cloud_ixl_rasta.Rasta.Sr.Orderly.{
  IsOrderlyAt, IsOrderly, skip-IsOrderly, count_on_sent, length-fifo_push, count_on-append,
}
use tfm_cloud_ixl_rasta.Rasta.Sr.Orderly.Actions.{
  both, branch, touch, announce, send_heartbeat-IsOrderly, send_disconnection_request-IsOrderly,
  notify_state-IsOrderly, set_state-IsOrderly, sr_close_connection-IsOrderly,
}
use tfm_cloud_ixl_rasta.Rasta.Sr.Orderly.Data.{receive_known-IsOrderly}

module _ (env : Environment) where
  check_timeout-IsOrderly : IsOrderly env.config (check_timeout env)
  unfolding check_timeout count_on
  check_timeout-IsOrderly =
      branch env (is_expired env) _ _
        (both env _ _ (announce env (λ c. heartbeat_timeout) (λ c. refl))
          (sr_close_connection-IsOrderly env timeout 0))
        (skip-IsOrderly env.config)

  heartbeat_if_due-IsOrderly : IsOrderly env.config (heartbeat_if_due env)
  unfolding heartbeat_if_due
  heartbeat_if_due-IsOrderly =
      branch env (λ c. ltb env.config.t_h (elapsed env.now c.ts_last_message) && not c.hb_stopped) _
        _
        (both env _ _ (send_heartbeat-IsOrderly env)
          (touch env (λ c. record c { ts_last_message = env.now }) (λ c. refl) (λ c h. h)))
        (skip-IsOrderly env.config)

  heartbeat_pass-IsOrderly : IsOrderly env.config (heartbeat_pass env)
  unfolding heartbeat_pass
  heartbeat_pass-IsOrderly =
      branch env (λ c. c.hb_locked || not (has_heartbeat c.current_state)) _ _
        (skip-IsOrderly env.config)
        (both env _ _ check_timeout-IsOrderly heartbeat_if_due-IsOrderly)

  send_queued-IsOrderly : IsOrderly env.config (send_queued env)
  unfolding send_queued next_data create_data_message IsOrderly ◌>>◌
  send_queued-IsOrderly c = (
    count_on_sent env.config c.sn_t (next_data env c) refl refl,
    λ h. (
      h.0,
      length-fifo_push env.config max_queue_size c.fifo_retr (env.encode (next_data env c)) h.1,
      omega (arith, h.2, length-drop (length (next_messages env c)) c.fifo_send),
    ),
  )

  send_pass-IsOrderly : IsOrderly env.config (send_pass env)
  unfolding send_pass
  send_pass-IsOrderly =
      branch env
        (λ c.
          not (is_down c.current_state)
          && leb (length c.fifo_retr) env.config.max_packet
          && ltb 0 (length c.fifo_send))
        _ _ send_queued-IsOrderly (skip-IsOrderly env.config)

  length-push_each :
      (n : ℕ) (xs ms : List (List ℕ)) → length xs ≤ n → length (push_each n xs ms) ≤ n
  unfolding push_each
  length-push_each n xs [] h = h
  length-push_each n xs (m ∷ ms) h =
      length-push_each n (fifo_push n xs m) ms (length-fifo_push env.config n xs m h)

  queue_messages-IsOrderly : (ms : List (List ℕ)) → IsOrderly env.config (queue_messages env ms)
  unfolding queue_messages
  queue_messages-IsOrderly ms =
      if-elim (IsOrderly env.config) (ltb env.config.max_packet (length ms))
        (λ _. skip-IsOrderly env.config)
        (λ _.
          touch env
            (λ c. record c { fifo_send = push_each (2 * env.config.max_packet) c.fifo_send ms })
            (λ c. refl)
            (λ c h. (h.0, h.1, length-push_each (2 * env.config.max_packet) c.fifo_send ms h.2)))

  not_allowed-IsOrderly :
      IsOrderly env.config
        (send_disconnection_request env service_not_allowed 0 >> set_state closed >> notify_state)
  not_allowed-IsOrderly =
      both env _ _
        (both env _ _ (send_disconnection_request-IsOrderly env service_not_allowed 0)
          (set_state-IsOrderly env closed))
        (notify_state-IsOrderly env)

  send_in-IsOrderly :
      (ms : List (List ℕ)) (s : ConnectionState) → IsOrderly env.config (send_in env ms s)
  unfolding send_in
  send_in-IsOrderly ms up = queue_messages-IsOrderly ms
  send_in-IsOrderly ms closed =
      both env _ _ (set_state-IsOrderly env closed) (notify_state-IsOrderly env)
  send_in-IsOrderly ms down =
      both env _ _ (set_state-IsOrderly env closed) (notify_state-IsOrderly env)
  send_in-IsOrderly ms start = not_allowed-IsOrderly
  send_in-IsOrderly ms retrreq = not_allowed-IsOrderly
  send_in-IsOrderly ms retrrun = not_allowed-IsOrderly
  send_in-IsOrderly ms unknown = not_allowed-IsOrderly

-- The result of a pass of the receiving thread, where there is a connection.
unfoldable OrderlyResult : Config → Connection → Option Connection × List Event → Type 0
OrderlyResult config c (none, es) = Unit
OrderlyResult config c (some c', es) =
    (count_on c.sn_t es ≡ some c'.sn_t) × (IsBounded config c → IsBounded config c')

module _ (env : Environment) (p : RastaPacket) (c : Connection) where
  -- The number of the connection response is the one before the next of the new connection.
  renewed :
      count_on c.sn_t (sent (connection_response env p) ∷ [])
      ≡ some (accepted_connection env p).sn_t
  unfolding count_on connection_response accepted_connection create_connection_response
  renewed = elim (Bool-cases (env.initial_seq_num == c.sn_t)) [
    | inl e ↦ rw e (ap (λ n. some (add32 n 1)) (sym ((==_iff _ _).0 e)))
    | inr e ↦ rw e refl
  ]

  -- A connection that is down is closed without a packet.
  closed_without_packet :
      (reason : ℕ)
      → count_on c.sn_t (sr_close_connection env reason 0 (new_connection env p)).1 ≡ some c.sn_t
  unfolding sr_close_connection close_by_state close_quietly is_down new_connection notify_state
      count_on ◌>>◌
  closed_without_packet reason = refl

  accept_request-Orderly : OrderlyResult env.config c (accept_request env (some c) p)
  unfolding OrderlyResult accept_request accepted_connection new_connection sr_init_connection
      count_on
  accept_request-Orderly =
      if-elim (OrderlyResult env.config c)
        (not (sr_check_packet (new_connection env p) env.config p))
        (λ _. (closed_without_packet protocol_error, λ h. h))
        (λ _.
          if-elim (OrderlyResult env.config c)
            (client_version_accepted env (extract_connection_data env.big p).version)
            (λ _. (renewed, λ h. (omega arith, omega arith, omega arith)))
            (λ _. (closed_without_packet incompatible_version, λ h. h)))

  receive_packet-Orderly : OrderlyResult env.config c (receive_packet env (some c) p)
  unfolding OrderlyResult receive_packet handle_conreq receive_other IsOrderly
  receive_packet-Orderly =
      if-elim (OrderlyResult env.config c) (p.type == rasta_type_connreq)
        (λ _.
          if-elim (OrderlyResult env.config c) (is_down c.current_state)
            (λ _. accept_request-Orderly)
            (λ _. sr_close_connection-IsOrderly env unexpected_type 0 c))
        (λ _. receive_known-IsOrderly env p c)

module _ (config : Config) where
  -- Nothing is sent when the application takes a message, and one queue gets shorter.
  delivered :
      (l : List ApplicationMessage) (m : ApplicationMessage) (c c' : Connection)
      → c.fifo_app_msg ≡ l
      → take_message l c ≡ some (m, c')
      → (some c.sn_t ≡ some c'.sn_t) × (IsBounded config c → IsBounded config c')
  unfolding take_message
  delivered [] m c c' k e = absurd (ground (arith, e))
  delivered (x ∷ xs) m c c' k e =
      let shorter : length c.fifo_app_msg ≡ suc (length xs) = ap (λ l. length l) k in
      subst
        (λ o. elim o [
          | none ↦ Unit
          | some r ↦ (some c.sn_t ≡ some r.1.sn_t) × (IsBounded config c → IsBounded config r.1)
        ])
        e (refl, λ h. (omega (arith, shorter, h.0), h.1, h.2))

  -- A step ends with the number that is due, and keeps the queues in their bounds.
  Step-orderly :
      {c c' : Connection} {es : List Event}
      → Step config c es c'
      → (count_on c.sn_t es ≡ some c'.sn_t) × (IsBounded config c → IsBounded config c')
  unfolding IsOrderly OrderlyResult sr_get_received_data count_on
  Step-orderly (receives {c = c} {c' = c'} {es = es} env p e r) =
      subst (λ k. OrderlyResult k c (some c', es)) e
        (subst (OrderlyResult env.config c) r (receive_packet-Orderly env p c))
  Step-orderly (beats {c = c} env e) =
      subst (λ k. IsOrderlyAt k (heartbeat_pass env) c) e (heartbeat_pass-IsOrderly env c)
  Step-orderly (sends {c = c} env e) =
      subst (λ k. IsOrderlyAt k (send_pass env) c) e (send_pass-IsOrderly env c)
  Step-orderly (queues {c = c} env ms e) =
      subst (λ k. IsOrderlyAt k (send_in env ms c.current_state) c) e
        (send_in-IsOrderly env ms c.current_state c)
  Step-orderly (disconnects {c = c} env e) =
      subst (λ k. IsOrderlyAt k (sr_close_connection env user_request 0) c) e
        (sr_close_connection-IsOrderly env user_request 0 c)
  Step-orderly (delivers {c = c} {c' = c'} m e) = delivered c.fifo_app_msg m c c' refl e

  -- However packets, connection requests among them, timers and calls follow one another on a
  -- connection, the packets sent carry consecutive sequence numbers of 32 bits, from the number that
  -- was due at the start to the one that is due at the end, save that a connection response, with
  -- which a closed connection begins anew, may carry any number, from which the next go on; a
  -- disconnection request carries the number that is due and does not use it up.
  pub Run-count_on :
      {c c' : Connection} {es : List Event} → Run config c es c' → count_on c.sn_t es ≡ some c'.sn_t
  unfolding count_on
  Run-count_on done = refl
  Run-count_on (next {c = c} {c' = c'} {es = es} {fs = fs} s r) =
      count_on-append c.sn_t c'.sn_t es fs (Step-orderly s).0 ∙ Run-count_on r

  -- However packets, timers and calls follow one another on a connection, its three queues never hold
  -- more than they were made for, if they did not at the start.
  pub Run-IsBounded :
      {c c' : Connection} {es : List Event}
      → Run config c es c'
      → IsBounded config c
      → IsBounded config c'
  Run-IsBounded done h = h
  Run-IsBounded (next s r) h = Run-IsBounded r ((Step-orderly s).1 h)

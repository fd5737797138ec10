-- ===== src/Rasta/Sr/Send.antt =====
-- rasta_new.c: sending packets, closing a connection, the queues of messages and of packets that are
-- not confirmed yet.
use tfm_cloud_ixl_rasta.Prelude.{
  ℕ, ◌%◌, ◌^◌, ◌==◌, Bool, true, false, none, List, [], ◌∷◌, ◌++◌, if◌then◌else◌,
}
use tfm_cloud_ixl_rasta.Rasta.Link.{ConnectionState, closed, down}
use tfm_cloud_ixl_rasta.Rasta.Packet.{
  RastaPacket, create_disconnection_request, create_heartbeat, create_retransmission_request,
  create_retransmission_response, create_retransmitted_data_message, extract_message_data,
}
use tfm_cloud_ixl_rasta.Rasta.Sr.State.{
  RastaRole, Connection, Config, Environment, sent, channel_removed, connection_state_change,
  received, Action, ◌>>◌, update, emit, skip, fifo_push, add32, sub32, header_of,
}

-- `rasta_disconnect_reason`.
abbrev pub user_request : ℕ
user_request = 0

abbrev pub unexpected_type : ℕ
unexpected_type = 2

abbrev pub sequence_number_error : ℕ
sequence_number_error = 3

abbrev pub timeout : ℕ
timeout = 4

abbrev pub service_not_allowed : ℕ
service_not_allowed = 5

abbrev pub incompatible_version : ℕ
incompatible_version = 6

abbrev pub retransmission_failed : ℕ
retransmission_failed = 7

abbrev pub protocol_error : ℕ
protocol_error = 8

abbrev pub max_queue_size : ℕ
max_queue_size = 10

-- The sequence number is not counted on.
unfoldable pub send_disconnection_request : Environment → ℕ → ℕ → Action
unfolding header_of
send_disconnection_request env reason details = emit (λ c. sent (
    create_disconnection_request env.big (header_of env c)
      (record { details = details; reason = reason })))

unfoldable pub count_sent : Action
unfolding add32
count_sent = update (λ c. record c { sn_t = add32 c.sn_t 1 })

unfoldable pub send_heartbeat : Environment → Action
unfolding header_of count_sent
send_heartbeat env =
    emit (λ c. sent (create_heartbeat (header_of env c)))
    >> count_sent
    >> update (λ c. record c { ts_last_message = env.now })

unfoldable pub send_retransmission_request : Environment → Action
unfolding header_of count_sent
send_retransmission_request env =
    emit (λ c. sent (create_retransmission_request (header_of env c))) >> count_sent

unfoldable pub send_retransmission_response : Environment → Action
unfolding header_of count_sent
send_retransmission_response env =
    emit (λ c. sent (create_retransmission_response (header_of env c))) >> count_sent

-- The arithmetic on longs ends in 32 bits.
unfoldable pub with_ti : Environment → ℕ → Connection → Connection
unfolding add32 sub32
with_ti env confirmed_timestamp c =
    let t_rtd = sub32 (add32 env.now env.clock_tick) confirmed_timestamp in
    record c { t_i = sub32 env.config.t_max t_rtd; ti_start_time = env.now }

abbrev pub update_ti : Environment → ℕ → Action
update_ti env confirmed_timestamp = update (with_ti env confirmed_timestamp)

unfoldable pub sr_reset_connection : Config → ℕ → Connection → Connection
sr_reset_connection info id c = record c {
  remote_id = id % 2 ^ 32;
  current_state = closed;
  my_id = info.rasta_id % 2 ^ 32;
  network_id = info.rasta_network % 2 ^ 32;
  connected_recv_buffer_size = none;
  ti_start_time = 0;
  hb_locked = true;
  hb_stopped = false;
  errors = record { safety = 0; address = 0; type_errors = 0; sn = 0; cs = 0 };
}

unfoldable pub notify_state : Action
notify_state = emit connection_state_change

-- Whether the partner has to hear of it.
unfoldable pub is_down : ConnectionState → Bool
is_down down = true
is_down closed = true
is_down s = false

abbrev pub reset : Environment → Action
reset env = update (λ c. sr_reset_connection env.config c.remote_id c)

unfoldable pub close_quietly : Environment → Action
unfolding sr_reset_connection notify_state
close_quietly env = reset env >> notify_state

unfoldable pub close_with_request : Environment → ℕ → ℕ → Action
unfolding send_disconnection_request sr_reset_connection notify_state
close_with_request env reason details =
    reset env
    >> send_disconnection_request env reason details
    >> update (λ c. record c { current_state = closed })
    >> notify_state

unfoldable pub close_by_state : Environment → ℕ → ℕ → Action
unfolding close_quietly close_with_request is_down
close_by_state env reason details c =
    (if is_down c.current_state then close_quietly env else close_with_request env reason details) c

unfoldable pub sr_close_connection : Environment → ℕ → ℕ → Action
unfolding close_by_state
sr_close_connection env reason details =
    close_by_state env reason details >> emit (λ c. channel_removed c.remote_id)

-- `sr_init_connection`, on what the memory holds.
unfoldable pub sr_init_connection : Config → RastaRole → ℕ → Connection → Connection
unfolding sr_reset_connection
sr_init_connection info role id raw = record (sr_reset_connection info id raw) {
  role = role;
  fifo_app_msg = [];
  fifo_send = [];
  fifo_retr = [];
}

-- A message of a packet goes to the queue of the application, while that has room.
unfoldable pub with_message : Environment → RastaPacket → List ℕ → Connection → Connection
unfolding fifo_push
with_message env packet m c = record c {
  fifo_app_msg =
      fifo_push env.config.send_max c.fifo_app_msg
        (record { id = packet.sender_id; app_message = m });
}

unfoldable pub add_each : Environment → RastaPacket → List (List ℕ) → Action
unfolding with_ti with_message
add_each env packet [] = skip
add_each env packet (m ∷ ms) =
    update (λ c. record c {
      fifo_app_msg =
          fifo_push env.config.send_max c.fifo_app_msg
            (record { id = packet.sender_id; app_message = m });
    })
    >> emit (λ c. received)
    >> update_ti env packet.confirmed_timestamp
    >> add_each env packet ms

unfoldable pub sr_add_app_messages_to_buffer : Environment → RastaPacket → Action
unfolding add_each
sr_add_app_messages_to_buffer env packet =
    add_each env packet (extract_message_data env.big env.beyond packet)

-- Packets are taken off up to the one with the confirmed number.
unfoldable pub remove_confirmed : (List ℕ → RastaPacket) → ℕ → List (List ℕ) → List (List ℕ)
remove_confirmed decode cs_r [] = []
remove_confirmed decode cs_r (element ∷ rest) =
    let later = remove_confirmed decode cs_r rest in
    if (decode element).sequence_number == cs_r then rest else later

unfoldable pub without_confirmed : Environment → Connection → Connection
unfolding remove_confirmed
without_confirmed env c = record c { fifo_retr = remove_confirmed env.decode c.cs_r c.fifo_retr }

abbrev pub sr_remove_confirmed_messages : Environment → Action
sr_remove_confirmed_messages env = update (without_confirmed env)

-- A packet of the queue is sent again under a new sequence number, and kept again.
unfoldable pub retransmission_of : Environment → List ℕ → Connection → RastaPacket
unfolding header_of
retransmission_of env element c =
    create_retransmitted_data_message env.big
      (record (header_of env c) { confirmed_time = c.cts_r })
      (extract_message_data env.big env.beyond (env.decode element))

unfoldable pub with_kept : Environment → List ℕ → Connection → Connection
unfolding fifo_push
with_kept env element c = record c { fifo_retr = fifo_push max_queue_size c.fifo_retr element }

unfoldable pub retransmit_one : Environment → List ℕ → Action
unfolding retransmission_of count_sent with_kept
retransmit_one env element =
    update (λ c. with_kept env (env.encode (retransmission_of env element c)) c)
    >> (emit (λ c. sent (retransmission_of env element c)) >> count_sent)
    >> update (λ c. record c { ts_last_message = env.now })

unfoldable pub retransmit_each : Environment → List (List ℕ) → Action
unfolding retransmit_one
retransmit_each env [] = skip
retransmit_each env (element ∷ elements) =
    retransmit_one env element >> retransmit_each env elements

-- The loop goes one further than the packets that were taken off the queue, so what the next element
-- of the local array holds, `stray`, is taken for a packet too.
unfoldable pub sr_retransmit_data : Environment → Action
unfolding retransmit_each send_heartbeat
sr_retransmit_data env c =
    (update (λ c. record c { fifo_retr = [] })
        >> retransmit_each env (c.fifo_retr ++ (env.stray ∷ []))
        >> send_heartbeat env)
      c

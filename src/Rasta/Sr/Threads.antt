-- ===== src/Rasta/Sr/Threads.antt =====
-- rasta_new.c: one pass of the thread that sends heartbeats, and one of the thread that sends data,
-- over a connection. How long the threads sleep is left out.
use tfm_cloud_ixl_rasta.Prelude.{
  ℕ, ◌+◌, ◌-◌, ◌%◌, ◌^◌, ltb, leb, Bool, true, false, not, ◌&&◌, ◌||◌, List, length, take, drop,
  if◌then◌else◌,
}
use tfm_cloud_ixl_rasta.Rasta.Link.{ConnectionState, up, retrreq, retrrun}
use tfm_cloud_ixl_rasta.Rasta.Packet.{RastaPacket, create_data_message}
use tfm_cloud_ixl_rasta.Rasta.Sr.State.{
  Connection, Environment, sent, heartbeat_timeout, Action, ◌>>◌, update, emit, skip, fifo_push,
  add32, header_of,
}
use tfm_cloud_ixl_rasta.Rasta.Sr.Send.{
  timeout, max_queue_size, send_heartbeat, is_down, sr_close_connection,
}

unfoldable pub has_heartbeat : ConnectionState → Bool
has_heartbeat up = true
has_heartbeat retrreq = true
has_heartbeat retrrun = true
has_heartbeat s = false

-- The difference of unsigned longs.
unfoldable pub elapsed : ℕ → ℕ → ℕ
elapsed now since = (now + 2 ^ 64 - since) % 2 ^ 64

unfoldable pub is_expired : Environment → Connection → Bool
unfolding elapsed
is_expired env c = ltb 0 c.ti_start_time && leb c.t_i (elapsed env.now c.ti_start_time)

unfoldable pub check_timeout : Environment → Action
unfolding is_expired sr_close_connection
check_timeout env c =
    (if is_expired env c
        then emit (λ c. heartbeat_timeout) >> sr_close_connection env timeout 0
        else skip)
      c

unfoldable pub heartbeat_if_due : Environment → Action
unfolding elapsed send_heartbeat
heartbeat_if_due env c =
    (if ltb env.config.t_h (elapsed env.now c.ts_last_message) && not c.hb_stopped
        then send_heartbeat env >> update (λ c. record c { ts_last_message = env.now })
        else skip)
      c

-- Whether a heartbeat is due is asked of a connection that has just been closed, too.
unfoldable pub heartbeat_pass : Environment → Action
unfolding has_heartbeat check_timeout heartbeat_if_due
heartbeat_pass env c =
    (if c.hb_locked || not (has_heartbeat c.current_state)
        then skip
        else check_timeout env >> heartbeat_if_due env)
      c

-- The messages that go into the next data packet.
unfoldable pub next_messages : Environment → Connection → List (List ℕ)
next_messages env c =
    let msg_queue = length c.fifo_send in
    take (if leb env.config.max_packet msg_queue then env.config.max_packet else msg_queue)
      c.fifo_send

unfoldable pub next_data : Environment → Connection → RastaPacket
unfolding next_messages header_of
next_data env c = create_data_message env.big (header_of env c) (next_messages env c)

unfoldable pub send_queued : Environment → Action
unfolding next_data next_messages fifo_push add32
send_queued env c =
    let packet = next_data env c in
    (update (λ c. record c {
      hb_stopped = true;
      is_sending = true;
      fifo_send = drop (length (next_messages env c)) c.fifo_send;
      fifo_retr = fifo_push max_queue_size c.fifo_retr (env.encode packet);
    })
        >> emit (λ c. sent packet)
        >> update (λ c. record c {
          sn_t = add32 packet.sequence_number 1;
          ts_last_message = env.now;
          hb_stopped = false;
          is_sending = false;
        }))
      c

unfoldable pub send_pass : Environment → Action
unfolding is_down send_queued
send_pass env c =
    (if not (is_down c.current_state)
          && leb (length c.fifo_retr) env.config.max_packet
          && ltb 0 (length c.fifo_send)
        then send_queued env
        else skip)
      c

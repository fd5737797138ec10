-- ===== src/Rasta/Sr/Tests.antt =====
-- rasta_new.c at a concrete connection.
use tfm_cloud_ixl_rasta.Prelude.{
  ℕ, ◌↔◌, ◌≤◌, ◌-◌, ◌<◌, ◌^◌, ◌≡◌, refl, ◌⊎◌, true, false, some, List, [], ◌∷◌, ◌++◌, length, arith,
  get_or,
}
use tfm_cloud_ixl_rasta.Rasta.Link.{closed, start, up}
use tfm_cloud_ixl_rasta.Rasta.Packet.{
  RastaPacket, rasta_type_connresp, rasta_type_data, rasta_type_hb, create_disconnection_request,
}
use tfm_cloud_ixl_rasta.Rasta.Sr.State.{
  client, server, Connection, Config, Environment, Event, ErrorCounters, connection_state_change,
  channel_removed, handshake_complete, sent, add32, sub32, header_of, ◌>>◌,
}
use tfm_cloud_ixl_rasta.Rasta.Sr.Checks.{
  sr_sn_in_seq, sr_cts_in_seq, sr_sn_range_valid, sr_cs_valid,
}
use tfm_cloud_ixl_rasta.Rasta.Sr.Send.{unexpected_type, remove_confirmed, sr_reset_connection}
use tfm_cloud_ixl_rasta.Rasta.Sr.Heartbeat.{handle_hb}
use tfm_cloud_ixl_rasta.Rasta.Sr.Receive.{receive_known, receive_other, receive_packet}
use tfm_cloud_ixl_rasta.Rasta.Sr.Threads.{send_pass}
use tfm_cloud_ixl_rasta.Rasta.Sr.Connections.{send_in}
use tfm_cloud_ixl_rasta.Rasta.Sr.Steps.{
  Run, done, next, receives, queues, sends, count_on, IsBounded,
}
use tfm_cloud_ixl_rasta.Rasta.Sr.Orderly.Runs.{Run-count_on, Run-IsBounded}
use tfm_cloud_ixl_rasta.Rasta.Sr.Rejects.{passes, total_errors, IsOneMore, receive_packet-rejected}
use tfm_cloud_ixl_rasta.Rasta.Sr.Effect.{IsOpening}
use tfm_cloud_ixl_rasta.Rasta.Sr.Effect.Received.{receive_known-opens}
use tfm_cloud_ixl_rasta.Rasta.Sr.Retransmission.{remove_confirmed_lem}
use tfm_cloud_ixl_rasta.Rasta.Sr.Window.{window_iff}
use tfm_cloud_ixl_rasta.Rasta.Sr.ClientStart.{handle_hb-client}

abbrev config : Config
config = record {
  t_max = 2000;
  t_h = 300;
  send_max = 20;
  max_packet = 3;
  rasta_id = 0x60;
  rasta_network = 1;
}

-- A data packet with one message of one byte.
abbrev data_packet : RastaPacket
data_packet = record {
  packet_length = 39;
  type = rasta_type_data;
  receiver_id = 0x60;
  sender_id = 0x61;
  sequence_number = 100;
  confirmed_sequence_number = 8;
  timestamp = 1000;
  confirmed_timestamp = 900;
  payload = 1 ∷ 0 ∷ 9 ∷ [];
  checksum = [];
  checksum_correct = true;
}

abbrev heartbeat : RastaPacket
heartbeat = record data_packet { type = rasta_type_hb; payload = [] }

-- A connection that is up, with one packet that is not confirmed.
abbrev connection : Connection
connection = record {
  role = client;
  current_state = up;
  my_id = 0x60;
  remote_id = 0x61;
  network_id = 1;
  sn_t = 10;
  sn_r = 100;
  cs_t = 99;
  cs_r = 8;
  ts_r = 800;
  cts_r = 850;
  t_i = 2000;
  ti_start_time = 800;
  ts_last_message = 800;
  hb_locked = false;
  hb_stopped = false;
  is_sending = false;
  connected_recv_buffer_size = some 20;
  errors = record { safety = 0; address = 0; type_errors = 0; sn = 0; cs = 0 };
  fifo_app_msg = [];
  fifo_send = [];
  fifo_retr = (9 ∷ []) ∷ [];
}

-- The bytes of a packet are its sequence number here.
abbrev environment : Environment
environment = record {
  config = config;
  big = false;
  now = 1000;
  clock_tick = 10;
  initial_seq_num = 55;
  raw = connection;
  encode = λ p. p.sequence_number ∷ [];
  decode = λ bytes. record data_packet { sequence_number = get_or bytes 0 0 };
  hash_length = 1;
  unset_checksum = [];
  unset_correct = false;
  long_of = λ version. length version;
  accepted_version = [];
  stray = 77 ∷ [];
  beyond = [];
}

wrong_sum : passes environment connection (record data_packet { checksum_correct = false }) ≡ false
unfolding passes
wrong_sum = refl

no_errors : total_errors connection.errors < 2 ^ 32 - 1
unfolding total_errors
no_errors = omega arith

receive_packet-rejected_example :
    (e : ErrorCounters) × (receive_packet environment
        (some connection)
        (record data_packet { checksum_correct = false })
      ≡ (some (record connection { errors = e }), []))
    × IsOneMore connection.errors e
receive_packet-rejected_example =
    receive_packet-rejected environment (record data_packet { checksum_correct = false }) connection
      refl refl wrong_sum no_errors

data_taken : receive_packet environment (some connection) data_packet ≡ (
  some (receive_known environment data_packet connection).0,
  (receive_known environment data_packet connection).1,
)
unfolding receive_packet receive_other
data_taken = refl

abbrev waiting : Connection
waiting = record connection { role = server; current_state = start }

handshake_ends : (receive_known environment heartbeat waiting).0.current_state ≡ up
unfolding receive_known ◌>>◌
handshake_ends = refl

receive_known-opens_example :
    ((heartbeat.type ≡ rasta_type_connresp) ⊎ (passes environment waiting heartbeat ≡ true))
    × IsOpening environment heartbeat waiting
receive_known-opens_example =
    receive_known-opens environment heartbeat waiting (λ h. absurd (ground (arith, h)))
      handshake_ends

-- A run: data comes in, the application queues a message, and it is sent.
abbrev received_first : Connection × List Event
received_first = receive_known environment data_packet connection

abbrev queued : Connection × List Event
queued = send_in environment ((5 ∷ []) ∷ []) received_first.0.current_state received_first.0

abbrev sent_then : Connection × List Event
sent_then = send_pass environment queued.0

run : Run config connection (received_first.1 ++ (queued.1 ++ (sent_then.1 ++ []))) sent_then.0
run =
    next (receives environment data_packet refl data_taken)
      (next (queues environment ((5 ∷ []) ∷ []) refl) (next (sends environment refl) done))

Run-count_on_example :
    count_on connection.sn_t (received_first.1 ++ (queued.1 ++ (sent_then.1 ++ [])))
    ≡ some sent_then.0.sn_t
Run-count_on_example = Run-count_on config run

Run-IsBounded_example : IsBounded config sent_then.0
Run-IsBounded_example = Run-IsBounded config run (omega arith, omega arith, omega arith)

remove_confirmed_lem_example :
    (remove_confirmed environment.decode 9 ((8 ∷ []) ∷ (9 ∷ []) ∷ (10 ∷ []) ∷ []) ≡ (10 ∷ []) ∷ [])
    × (remove_confirmed environment.decode 9 ((8 ∷ []) ∷ []) ≡ [])
remove_confirmed_lem_example =
    remove_confirmed_lem environment.decode 9 ((8 ∷ []) ∷ []) ((10 ∷ []) ∷ []) (9 ∷ [])
      (omega arith, tt) refl

abbrev client_waiting : Connection
client_waiting = record connection { current_state = start }

number_due : sr_sn_in_seq client_waiting heartbeat ≡ true
unfolding sr_sn_in_seq
number_due = refl

timely : sr_cts_in_seq client_waiting config heartbeat ≡ true
unfolding sr_cts_in_seq
timely = refl

handle_hb-client_example :
    let reset = sr_reset_connection config 0x61 client_waiting in
    let request =
      create_disconnection_request false
        (header_of environment reset)
        (record { details = 0; reason = unexpected_type }) in
    let opened : Connection = record reset {
      sn_r = add32 heartbeat.sequence_number 1;
      cs_t = heartbeat.sequence_number;
      ts_r = heartbeat.timestamp;
      cs_r = heartbeat.confirmed_sequence_number;
      current_state = up;
      hb_locked = false;
    } in
    (reset.current_state ≡ closed)
    × (handle_hb environment heartbeat client_waiting ≡ (
      record opened { ts_last_message = environment.now; ti_start_time = environment.now },
      sent request
          ∷ connection_state_change reset
          ∷ channel_removed reset.remote_id
          ∷ connection_state_change opened
          ∷ handshake_complete
          ∷ [],
    ))
handle_hb-client_example =
    handle_hb-client environment heartbeat client_waiting refl refl number_due timely

window_iff_example :
    ((sr_sn_range_valid connection config data_packet ≡ true)
      ↔ ((k : ℕ) × (k ≤ 200) × (100 ≡ add32 100 k)))
    × ((sr_cs_valid connection data_packet ≡ true) ↔ ((k : ℕ) × (k < sub32 10 8) × (8 ≡ add32 8 k)))
window_iff_example =
    window_iff connection config data_packet (omega arith) (omega arith) (omega arith) (omega arith)
      (omega arith) (omega arith) (omega arith) (omega arith)

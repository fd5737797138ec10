-- ===== src/Rasta/Sr/Handshake.antt =====
-- rasta_new.c: the requests for a connection and the responses to them.
use tfm_cloud_ixl_rasta.Prelude.{
  ℕ, Bool, true, false, not, Option, none, some, List, [], ◌∷◌, if◌then◌else◌,
}
use tfm_cloud_ixl_rasta.Rasta.Link.{ConnectionState, down, start, up, retrreq, retrrun}
use tfm_cloud_ixl_rasta.Rasta.Packet.{
  RastaPacket, extract_connection_data, create_connection_response,
}
use tfm_cloud_ixl_rasta.Rasta.Sr.State.{
  RastaRole, client, server, Connection, Environment, Event, sent, handshake_complete,
  connection_state_change, Action, ◌>>◌, update, emit, skip, add32, sub32, header_of,
}
use tfm_cloud_ixl_rasta.Rasta.Sr.Checks.{
  Comparison, same, older, newer, compare_version, version_accepted, sr_check_packet,
}
use tfm_cloud_ixl_rasta.Rasta.Sr.Send.{
  unexpected_type, incompatible_version, protocol_error, send_heartbeat, notify_state, is_down,
  sr_close_connection, sr_init_connection,
}

abbrev pub rasta_version : List ℕ
rasta_version = 0x30 ∷ 0x33 ∷ 0x30 ∷ 0x33 ∷ []

abbrev pub set_state : ConnectionState → Action
set_state s = update (λ c. record c { current_state = s })

-- The part of a new connection that does not depend on the request.
unfoldable pub new_connection : Environment → RastaPacket → Connection
unfolding sr_init_connection
new_connection env p = record (sr_init_connection env.config server p.sender_id env.raw) {
  sn_t = env.initial_seq_num;
  current_state = down;
}

-- The new connection once it is accepted.
unfoldable pub accepted_connection : Environment → RastaPacket → Connection
unfolding new_connection add32 sub32
accepted_connection env p = record (new_connection env p) {
  sn_r = add32 p.sequence_number 1;
  cs_t = p.sequence_number;
  ts_r = p.timestamp;
  connected_recv_buffer_size = some (extract_connection_data env.big p).send_max;
  cs_r = sub32 env.initial_seq_num 1;
  cts_r = env.now;
  t_i = env.config.t_max;
  sn_t = add32 env.initial_seq_num 1;
  current_state = start;
}

unfoldable pub connection_response : Environment → RastaPacket → RastaPacket
unfolding accepted_connection header_of
connection_response env p =
    let c = accepted_connection env p in
    create_connection_response env.big
      (record (header_of env c) { sequence = env.initial_seq_num; confirmed_time = c.cts_r })
      (record { version = rasta_version; send_max = env.config.send_max })

-- The `||` of the two comparisons and of `version_accepted`.
unfoldable pub accepted_by : Bool → Comparison → Bool
accepted_by accepted same = true
accepted_by accepted older = true
accepted_by accepted newer = accepted

unfoldable pub client_version_accepted : Environment → List ℕ → Bool
unfolding compare_version version_accepted accepted_by
client_version_accepted env version =
    accepted_by (version_accepted env version) (compare_version env rasta_version version)

-- A request for a connection that is not there yet, or is closed or down. What was there stays where
-- the request is refused, and the channel of the requester is removed.
unfoldable pub accept_request :
    Environment → Option Connection → RastaPacket → Option Connection × List Event
unfolding new_connection accepted_connection connection_response client_version_accepted
    sr_check_packet sr_close_connection
accept_request env existing p =
    let new_con = new_connection env p in
    if not (sr_check_packet new_con env.config p)
    then (existing, (sr_close_connection env protocol_error 0 new_con).1)
    else if client_version_accepted env (extract_connection_data env.big p).version
    then (
      some (accepted_connection env p),
      connection_state_change (accepted_connection env p) ∷ sent (connection_response env p) ∷ [],
    )
    else (existing, (sr_close_connection env incompatible_version 0 new_con).1)

unfoldable pub handle_conreq :
    Environment → Option Connection → RastaPacket → Option Connection × List Event
unfolding accept_request is_down sr_close_connection
handle_conreq env none p = accept_request env none p
handle_conreq env (some c) p =
    if is_down c.current_state
    then accept_request env (some c) p
    else let (c', es) = sr_close_connection env unexpected_type 0 c in (some c', es)

-- The values of 5.6.2 [3] that every accepted packet sets.
unfoldable pub take_numbers : RastaPacket → Action
unfolding add32
take_numbers p = update (λ c. record c {
  sn_r = add32 p.sequence_number 1;
  cs_t = p.sequence_number;
  ts_r = p.timestamp;
})

abbrev pub take_confirmed : RastaPacket → Action
take_confirmed p = update (λ c. record c { cs_r = p.confirmed_sequence_number })

unfoldable pub complete_handshake : Environment → RastaPacket → Action
unfolding take_numbers send_heartbeat notify_state
complete_handshake env p =
    take_numbers p
    >> take_confirmed p
    >> send_heartbeat env
    >> set_state up
    >> notify_state
    >> emit (λ c. handshake_complete)
    >> update (λ c. record c {
      ts_last_message = env.now;
      hb_locked = false;
      connected_recv_buffer_size = some (extract_connection_data env.big p).send_max;
      ti_start_time = env.now;
    })

unfoldable pub conresp_in_start : Environment → RastaPacket → RastaRole → Action
unfolding complete_handshake version_accepted sr_close_connection
conresp_in_start env p client =
    if version_accepted env (extract_connection_data env.big p).version
    then complete_handshake env p
    else sr_close_connection env incompatible_version 0
conresp_in_start env p server = sr_close_connection env unexpected_type 0

unfoldable pub conresp_in : Environment → RastaPacket → RastaRole → ConnectionState → Action
unfolding conresp_in_start sr_close_connection
conresp_in env p role start = conresp_in_start env p role
conresp_in env p role retrreq = sr_close_connection env unexpected_type 0
conresp_in env p role retrrun = sr_close_connection env unexpected_type 0
conresp_in env p role up = sr_close_connection env unexpected_type 0
conresp_in env p role s = skip

unfoldable pub handle_conresp : Environment → RastaPacket → Action
unfolding sr_check_packet conresp_in sr_close_connection
handle_conresp env p c =
    (if sr_check_packet c env.config p
        then conresp_in env p c.role c.current_state
        else sr_close_connection env protocol_error 0)
      c

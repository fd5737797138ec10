-- ===== src/Rasta/Sr/ClientStart.antt =====
-- rasta_new.c: a client that gets a heartbeat while it waits for the response.
use tfm_cloud_ixl_rasta.Prelude.{◌≡◌, refl, [], ◌∷◌, true, false}
use tfm_cloud_ixl_rasta.Rasta.Link.{closed, start, up}
use tfm_cloud_ixl_rasta.Rasta.Packet.{RastaPacket, create_disconnection_request}
use tfm_cloud_ixl_rasta.Rasta.Sr.State.{
  client, Connection, Environment, sent, connection_state_change, channel_removed,
  handshake_complete, add32, ◌>>◌, header_of,
}
use tfm_cloud_ixl_rasta.Rasta.Sr.Checks.{sr_cts_in_seq, sr_sn_in_seq}
use tfm_cloud_ixl_rasta.Rasta.Sr.Send.{
  unexpected_type, is_down, sr_reset_connection, close_with_request, close_by_state,
  sr_close_connection, send_disconnection_request, notify_state,
}
use tfm_cloud_ixl_rasta.Rasta.Sr.Handshake.{take_numbers}
use tfm_cloud_ixl_rasta.Rasta.Sr.Heartbeat.{
  refuse_client, finish_handshake, heartbeat_in_start, heartbeat_in, handle_hb,
}

-- A client that waits for a connection response and gets a timely heartbeat with the number that is due
-- closes the connection: it sends a disconnection request, notifies that the connection is closed and
-- has its redundancy channel removed. It then ends the handshake on the closed connection: it takes
-- the numbers of the heartbeat, notifies that the connection is open and the handshake complete, and
-- the connection is in the open state.
pub handle_hb-client :
    (env : Environment) (p : RastaPacket) (c : Connection)
    → c.role ≡ client
    → c.current_state ≡ start
    → sr_sn_in_seq c p ≡ true
    → sr_cts_in_seq c env.config p ≡ true
    → let reset = sr_reset_connection env.config c.remote_id c in
      let request =
        create_disconnection_request env.big
          (header_of env reset)
          (record { details = 0; reason = unexpected_type }) in
      let opened : Connection = record reset {
        sn_r = add32 p.sequence_number 1;
        cs_t = p.sequence_number;
        ts_r = p.timestamp;
        cs_r = p.confirmed_sequence_number;
        current_state = up;
        hb_locked = false;
      } in
      (reset.current_state ≡ closed)
      × (handle_hb env p c ≡ (
        record opened { ts_last_message = env.now; ti_start_time = env.now },
        sent request
            ∷ connection_state_change reset
            ∷ channel_removed reset.remote_id
            ∷ connection_state_change opened
            ∷ handshake_complete
            ∷ [],
      ))
unfolding handle_hb heartbeat_in heartbeat_in_start refuse_client finish_handshake
    sr_close_connection close_by_state close_with_request is_down send_disconnection_request
    sr_reset_connection take_numbers notify_state header_of ◌>>◌
handle_hb-client env p c r s n k = rw (s, n, r, k) (refl, refl)

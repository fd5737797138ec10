-- ===== src/Rasta/Sr/Heartbeat.antt =====
-- rasta_new.c: received heartbeats.
use tfm_cloud_ixl_rasta.Prelude.{false, if◌then◌else◌}
use tfm_cloud_ixl_rasta.Rasta.Link.{ConnectionState, start, up, retrreq, retrrun}
use tfm_cloud_ixl_rasta.Rasta.Packet.{RastaPacket}
use tfm_cloud_ixl_rasta.Rasta.Sr.State.{
  RastaRole, client, server, Environment, handshake_complete, Action, ◌>>◌, update, emit, skip,
  sub32,
}
use tfm_cloud_ixl_rasta.Rasta.Sr.Checks.{sr_cts_in_seq, sr_sn_in_seq}
use tfm_cloud_ixl_rasta.Rasta.Sr.Send.{
  unexpected_type, sequence_number_error, timeout, protocol_error, update_ti, notify_state,
  sr_close_connection,
}
use tfm_cloud_ixl_rasta.Rasta.Sr.Handshake.{set_state, take_numbers, take_confirmed}

unfoldable pub refuse_sequence : Environment → RastaRole → Action
unfolding sr_close_connection
refuse_sequence env server = sr_close_connection env sequence_number_error 0
refuse_sequence env client = sr_close_connection env unexpected_type 0

unfoldable pub refuse_client : Environment → RastaRole → Action
unfolding sr_close_connection
refuse_client env client = sr_close_connection env unexpected_type 0
refuse_client env server = skip

unfoldable pub finish_handshake : Environment → RastaPacket → Action
unfolding sr_cts_in_seq sr_close_connection take_numbers notify_state
finish_handshake env p c =
    (if sr_cts_in_seq c env.config p
        then take_numbers p
          >> take_confirmed p
          >> set_state up
          >> update (λ c. record c { hb_locked = false })
          >> notify_state
          >> emit (λ c. handshake_complete)
          >> update (λ c. record c { ts_last_message = env.now; ti_start_time = env.now })
        else sr_close_connection env protocol_error 0)
      c

-- The end of the handshake of a server. The tests before it close the connection and go on.
unfoldable pub heartbeat_in_start : Environment → RastaPacket → Action
unfolding sr_sn_in_seq refuse_sequence refuse_client finish_handshake
heartbeat_in_start env p =
    (λ c. (if sr_sn_in_seq c p then skip else refuse_sequence env c.role) c)
    >> (λ c. refuse_client env c.role c)
    >> finish_handshake env p

unfoldable pub back_up : ConnectionState → Action
unfolding notify_state
back_up retrrun = set_state up >> notify_state
back_up s = skip

unfoldable pub heartbeat_in_sequence : Environment → RastaPacket → Action
unfolding take_numbers back_up sub32
heartbeat_in_sequence env p =
    update_ti env p.confirmed_timestamp
    >> take_numbers p
    >> update (λ c. record c { cs_r = sub32 c.sn_t 1; cts_r = env.now })
    >> (λ c. back_up c.current_state c)

unfoldable pub heartbeat_in_up : Environment → RastaPacket → Action
unfolding heartbeat_in_sequence sr_sn_in_seq sr_cts_in_seq sr_close_connection notify_state
heartbeat_in_up env p c =
    (if sr_sn_in_seq c p
        then if sr_cts_in_seq c env.config p
          then heartbeat_in_sequence env p
          else sr_close_connection env timeout 0
        else set_state retrreq >> notify_state)
      c

unfoldable pub heartbeat_in : Environment → RastaPacket → ConnectionState → Action
unfolding heartbeat_in_start heartbeat_in_up
heartbeat_in env p start = heartbeat_in_start env p
heartbeat_in env p up = heartbeat_in_up env p
heartbeat_in env p retrrun = heartbeat_in_up env p
heartbeat_in env p s = skip

unfoldable pub handle_hb : Environment → RastaPacket → Action
unfolding heartbeat_in
handle_hb env p c = heartbeat_in env p c.current_state c

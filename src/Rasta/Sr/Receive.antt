-- ===== src/Rasta/Sr/Receive.antt =====
-- rasta_new.c: requests to disconnect, and one pass of the thread that receives.
use tfm_cloud_ixl_rasta.Prelude.{◌==◌, not, Option, none, some, List, [], if◌then◌else◌}
use tfm_cloud_ixl_rasta.Rasta.Link.{closed}
use tfm_cloud_ixl_rasta.Rasta.Packet.{
  RastaPacket, rasta_type_connreq, rasta_type_connresp, rasta_type_retrreq, rasta_type_retrresp,
  rasta_type_discreq, rasta_type_hb, rasta_type_data, rasta_type_retrdata,
  extract_disconnection_data,
}
use tfm_cloud_ixl_rasta.Rasta.Sr.State.{
  Connection, Environment, Event, channel_removed, disconnection_request_received, Action, ◌>>◌,
  update, emit, add32,
}
use tfm_cloud_ixl_rasta.Rasta.Sr.Checks.{sr_sn_range_valid, sr_cs_valid, sr_message_authentic}
use tfm_cloud_ixl_rasta.Rasta.Sr.Send.{sr_reset_connection, notify_state}
use tfm_cloud_ixl_rasta.Rasta.Sr.Handshake.{set_state, handle_conreq, handle_conresp}
use tfm_cloud_ixl_rasta.Rasta.Sr.Heartbeat.{handle_hb}
use tfm_cloud_ixl_rasta.Rasta.Sr.Data.{
  count_error, handle_data, handle_retrreq, handle_retrresp, handle_retrdata,
}

unfoldable pub handle_discreq : Environment → RastaPacket → Action
unfolding sr_reset_connection notify_state
handle_discreq env p =
    set_state closed
    >> update (λ c. sr_reset_connection env.config c.remote_id c)
    >> emit (λ c. channel_removed c.remote_id)
    >> notify_state
    >> emit (λ c. disconnection_request_received (extract_disconnection_data env.big p))

-- The `switch` on the type.
unfoldable pub dispatch : Environment → RastaPacket → Action
unfolding handle_retrdata handle_data handle_retrreq handle_retrresp handle_discreq handle_hb
    count_error add32
dispatch env p =
    if p.type == rasta_type_retrdata
    then handle_retrdata env p
    else if p.type == rasta_type_data
    then handle_data env p
    else if p.type == rasta_type_retrreq
    then handle_retrreq env p
    else if p.type == rasta_type_retrresp
    then handle_retrresp env p
    else if p.type == rasta_type_discreq
    then handle_discreq env p
    else if p.type == rasta_type_hb
    then handle_hb env p
    else count_error (λ e. record e { type_errors = add32 e.type_errors 1 })

-- A packet for a connection that is there, other than a connection request: what is done with it is
-- chosen by the connection as it is.
unfoldable pub checked : Environment → RastaPacket → Connection → Action
unfolding handle_conresp dispatch count_error sr_message_authentic sr_sn_range_valid sr_cs_valid
    add32
checked env p c =
    if p.type == rasta_type_connresp
    then handle_conresp env p
    else if not p.checksum_correct
    then count_error (λ e. record e { safety = add32 e.safety 1 })
    else if not (sr_message_authentic c p)
    then count_error (λ e. record e { address = add32 e.address 1 })
    else if not (sr_sn_range_valid c env.config p)
    then count_error (λ e. record e { sn = add32 e.sn 1 })
    else if not (sr_cs_valid c p)
    then count_error (λ e. record e { cs = add32 e.cs 1 })
    else dispatch env p

unfoldable pub receive_known : Environment → RastaPacket → Action
unfolding checked
receive_known env p c = checked env p c c

unfoldable pub receive_other :
    Environment → Option Connection → RastaPacket → Option Connection × List Event
unfolding receive_known
receive_other env none p = (none, [])
receive_other env (some c) p = let (c', es) = receive_known env p c in (some c', es)

-- One pass of `receive_thread`, with the connection that the sender's number finds.
unfoldable pub receive_packet :
    Environment → Option Connection → RastaPacket → Option Connection × List Event
unfolding receive_other handle_conreq
receive_packet env found p =
    (if p.type == rasta_type_connreq then handle_conreq env found p else receive_other env found p)

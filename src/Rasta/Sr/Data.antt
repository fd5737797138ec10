-- ===== src/Rasta/Sr/Data.antt =====
-- rasta_new.c: received data, and the retransmission of data.
use tfm_cloud_ixl_rasta.Prelude.{Bool, true, false, if◌then◌else◌}
use tfm_cloud_ixl_rasta.Rasta.Link.{ConnectionState, start, up, retrreq, retrrun}
use tfm_cloud_ixl_rasta.Rasta.Packet.{RastaPacket}
use tfm_cloud_ixl_rasta.Rasta.Sr.State.{
  ErrorCounters, Environment, Action, ◌>>◌, update, skip, add32, sub32,
}
use tfm_cloud_ixl_rasta.Rasta.Sr.Checks.{sr_cts_in_seq, sr_sn_in_seq}
use tfm_cloud_ixl_rasta.Rasta.Sr.Send.{
  unexpected_type, retransmission_failed, protocol_error, send_retransmission_request,
  send_retransmission_response, notify_state, sr_close_connection, sr_add_app_messages_to_buffer,
  sr_remove_confirmed_messages, sr_retransmit_data,
}
use tfm_cloud_ixl_rasta.Rasta.Sr.Handshake.{set_state, take_numbers, take_confirmed}

unfoldable pub count_error : (ErrorCounters → ErrorCounters) → Action
count_error f = update (λ c. record c { errors = f c.errors })

unfoldable pub request_retransmission : Environment → Action
unfolding send_retransmission_request notify_state
request_retransmission env = send_retransmission_request env >> set_state retrreq >> notify_state

unfoldable pub data_in_up : Environment → RastaPacket → Action
unfolding sr_cts_in_seq sr_add_app_messages_to_buffer take_numbers count_error sr_close_connection
    add32
data_in_up env p c =
    (if sr_cts_in_seq c env.config p
        then sr_add_app_messages_to_buffer env p
          >> take_numbers p
          >> take_confirmed p
          >> update (λ c. record c { cts_r = p.confirmed_timestamp })
          >> sr_remove_confirmed_messages env
        else count_error (λ e. record e { cs = add32 e.cs 1 })
          >> sr_close_connection env protocol_error 0)
      c

unfoldable pub data_out_of_sequence : Environment → Action
unfolding count_error request_retransmission add32
data_out_of_sequence env =
    count_error (λ e. record e { sn = add32 e.sn 1 }) >> request_retransmission env

unfoldable pub data_in_retrrun : Environment → RastaPacket → Action
unfolding sr_cts_in_seq sr_close_connection take_numbers
data_in_retrrun env p c =
    (if sr_cts_in_seq c env.config p
        then take_numbers p
        else sr_close_connection env protocol_error 0)
      c

unfoldable pub data_in : Environment → RastaPacket → ConnectionState → Bool → Action
unfolding data_in_up data_in_retrrun data_out_of_sequence sr_close_connection
data_in env p start in_sequence = sr_close_connection env unexpected_type 0
data_in env p up true = data_in_up env p
data_in env p retrrun true = data_in_retrrun env p
data_in env p up false = data_out_of_sequence env
data_in env p retrrun false = data_out_of_sequence env
data_in env p s in_sequence = skip

unfoldable pub handle_data : Environment → RastaPacket → Action
unfolding data_in sr_sn_in_seq
handle_data env p c = data_in env p c.current_state (sr_sn_in_seq c p) c

unfoldable pub answer_retransmission : Environment → Action
unfolding send_retransmission_response sr_retransmit_data
answer_retransmission env =
    sr_remove_confirmed_messages env >> send_retransmission_response env >> sr_retransmit_data env

unfoldable pub close_in_retrrun : Environment → ConnectionState → Action
unfolding sr_close_connection
close_in_retrrun env retrrun = sr_close_connection env retransmission_failed 0
close_in_retrrun env s = skip

unfoldable pub answer_in_sequence : Environment → RastaPacket → Action
unfolding take_numbers answer_retransmission notify_state
answer_in_sequence env p =
    take_numbers p >> take_confirmed p >> answer_retransmission env >> notify_state

unfoldable pub answer_out_of_sequence : Environment → RastaPacket → Action
unfolding answer_retransmission notify_state
answer_out_of_sequence env p =
    take_confirmed p >> answer_retransmission env >> (set_state retrreq >> notify_state)

-- In a retransmission the connection is closed first, and the request is then answered all the same.
-- The assignments of the state to itself at the end are left out.
unfoldable pub retrreq_in : Environment → RastaPacket → ConnectionState → Bool → Action
unfolding close_in_retrrun answer_in_sequence answer_out_of_sequence
retrreq_in env p s true = close_in_retrrun env s >> answer_in_sequence env p
retrreq_in env p s false = answer_out_of_sequence env p

unfoldable pub handle_retrreq : Environment → RastaPacket → Action
unfolding sr_sn_in_seq retrreq_in
handle_retrreq env p c = retrreq_in env p c.current_state (sr_sn_in_seq c p) c

unfoldable pub start_retransmission : Environment → RastaPacket → Action
unfolding take_numbers sub32
start_retransmission env p =
    set_state retrrun
    >> take_numbers p
    >> update (λ c. record c { cs_r = sub32 c.sn_t 1; cts_r = env.now })

unfoldable pub retrresp_in : Environment → RastaPacket → ConnectionState → Action
unfolding start_retransmission sr_close_connection
retrresp_in env p retrreq = start_retransmission env p
retrresp_in env p s = sr_close_connection env unexpected_type 0

unfoldable pub handle_retrresp : Environment → RastaPacket → Action
unfolding retrresp_in
handle_retrresp env p c = retrresp_in env p c.current_state c

unfoldable pub retransmitted_in_run : Environment → RastaPacket → Action
unfolding sr_cts_in_seq sr_close_connection sr_add_app_messages_to_buffer take_numbers
retransmitted_in_run env p c =
    (if sr_cts_in_seq c env.config p
        then sr_add_app_messages_to_buffer env p >> take_numbers p >> take_confirmed p
        else sr_close_connection env protocol_error 0)
      c

unfoldable pub retrdata_in : Environment → RastaPacket → ConnectionState → Bool → Action
unfolding retransmitted_in_run request_retransmission sr_close_connection
retrdata_in env p up in_sequence = sr_close_connection env unexpected_type 0
retrdata_in env p retrrun true = retransmitted_in_run env p
retrdata_in env p retrrun false = request_retransmission env
retrdata_in env p s in_sequence = skip

unfoldable pub handle_retrdata : Environment → RastaPacket → Action
unfolding retrdata_in sr_sn_in_seq
handle_retrdata env p c = retrdata_in env p c.current_state (sr_sn_in_seq c p) c

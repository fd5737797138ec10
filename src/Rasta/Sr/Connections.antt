-- ===== src/Rasta/Sr/Connections.antt =====
-- src/rasta/c/rastalist.c: the list of the connections, and the functions of rasta_new.c that find
-- their connection in it.
use tfm_cloud_ixl_rasta.Prelude.{
  ℕ, ◌*◌, ltb, ◌==◌, Option, none, some, List, [], ◌∷◌, ◌++◌, length, if◌then◌else◌,
}
use tfm_cloud_ixl_rasta.Rasta.Link.{ConnectionState, closed, down, start, up}
use tfm_cloud_ixl_rasta.Rasta.Packet.{RastaPacket, create_connection_request}
use tfm_cloud_ixl_rasta.Rasta.Sr.State.{
  client, Connection, ApplicationMessage, Environment, Event, sent, channel_added,
  connection_state_change, Action, ◌>>◌, update, skip, fifo_push, add32, header_of,
}
use tfm_cloud_ixl_rasta.Rasta.Sr.Send.{
  user_request, service_not_allowed, send_disconnection_request, notify_state, sr_close_connection,
  sr_init_connection,
}
use tfm_cloud_ixl_rasta.Rasta.Sr.Handshake.{rasta_version, set_state}
use tfm_cloud_ixl_rasta.Rasta.Sr.Receive.{receive_packet}

-- `rastalist_getConnectionByRemote`: the first connection with the number.
unfoldable pub get_connection_by_remote : List Connection → ℕ → Option Connection
get_connection_by_remote [] remote_id = none
get_connection_by_remote (c ∷ cs) remote_id =
    if c.remote_id == remote_id then some c else get_connection_by_remote cs remote_id

-- The assignment through the pointer that the function gave.
unfoldable pub put_connection : List Connection → ℕ → Connection → List Connection
put_connection [] remote_id c' = []
put_connection (c ∷ cs) remote_id c' =
    if c.remote_id == remote_id then c' ∷ cs else c ∷ put_connection cs remote_id c'

unfoldable pub add_connection : List Connection → Connection → List Connection
add_connection cs c = cs ++ (c ∷ [])

unfoldable pub on_connection : Action → List Connection → ℕ → List Connection × List Event
unfolding get_connection_by_remote put_connection
on_connection f cs remote_id = elim (get_connection_by_remote cs remote_id) [
  | none ↦ (cs, [])
  | some c ↦ (put_connection cs remote_id (f c).0, (f c).1)
]

-- What `receive_packet` leaves goes where the connection was, or to the end of the list.
unfoldable pub store : List Connection → ℕ → Option Connection → Option Connection → List Connection
unfolding put_connection add_connection
store cs id found none = cs
store cs id none (some c) = add_connection cs c
store cs id (some c) (some c') = put_connection cs id c'

unfoldable pub receive_pass :
    Environment → List Connection → RastaPacket → List Connection × List Event
unfolding get_connection_by_remote receive_packet store
receive_pass env cs p =
    let found = get_connection_by_remote cs p.sender_id in
    let (left, es) = receive_packet env found p in (store cs p.sender_id found left, es)

-- A new connection of a client, before and after its request is sent.
unfoldable pub client_connection : Environment → ℕ → Connection
unfolding sr_init_connection
client_connection env id = record (sr_init_connection env.config client id env.raw) {
  sn_t = env.initial_seq_num;
  cs_t = 0;
  cts_r = env.now;
  t_i = env.config.t_max;
}

unfoldable pub requested_connection : Environment → ℕ → Connection
unfolding client_connection add32
requested_connection env id = record (client_connection env id) {
  sn_t = add32 env.initial_seq_num 1;
  current_state = start;
}

unfoldable pub connection_request : Environment → ℕ → RastaPacket
unfolding client_connection header_of
connection_request env id =
    create_connection_request env.big (header_of env (client_connection env id))
      (record { version = rasta_version; send_max = env.config.send_max })

unfoldable pub sr_connect : Environment → List Connection → ℕ → List Connection × List Event
unfolding get_connection_by_remote requested_connection connection_request add_connection
sr_connect env cs id = elim (get_connection_by_remote cs id) [
  | some c ↦ (cs, [])
  | none ↦ (
    add_connection cs (requested_connection env id),
    channel_added id
        ∷ sent (connection_request env id)
        ∷ connection_state_change (requested_connection env id)
        ∷ [],
  )
]

unfoldable pub push_each : ℕ → List (List ℕ) → List (List ℕ) → List (List ℕ)
unfolding fifo_push
push_each max_size queue [] = queue
push_each max_size queue (m ∷ ms) = push_each max_size (fifo_push max_size queue m) ms

-- The queue has room for twice the messages of a packet.
unfoldable pub queue_messages : Environment → List (List ℕ) → Action
unfolding push_each
queue_messages env app_messages =
    if ltb env.config.max_packet (length app_messages)
    then skip
    else update (λ c. record c {
      fifo_send = push_each (2 * env.config.max_packet) c.fifo_send app_messages;
    })

unfoldable pub send_in : Environment → List (List ℕ) → ConnectionState → Action
unfolding queue_messages notify_state send_disconnection_request
send_in env app_messages up = queue_messages env app_messages
send_in env app_messages closed = set_state closed >> notify_state
send_in env app_messages down = set_state closed >> notify_state
send_in env app_messages s =
    send_disconnection_request env service_not_allowed 0 >> set_state closed >> notify_state

unfoldable pub sr_send :
    Environment → List Connection → ℕ → List (List ℕ) → List Connection × List Event
unfolding on_connection send_in
sr_send env cs remote_id app_messages =
    on_connection (λ c. send_in env app_messages c.current_state c) cs remote_id

unfoldable pub sr_disconnect : Environment → List Connection → ℕ → List Connection × List Event
unfolding on_connection sr_close_connection
sr_disconnect env cs remote_id = on_connection (sr_close_connection env user_request 0) cs remote_id

-- With no message there, the C code reads through NULL: `none`.
unfoldable pub take_message :
    List ApplicationMessage → Connection → Option (ApplicationMessage × Connection)
take_message [] c = none
take_message (m ∷ ms) c = some (m, record c { fifo_app_msg = ms })

unfoldable pub sr_get_received_data : Connection → Option (ApplicationMessage × Connection)
unfolding take_message
sr_get_received_data c = take_message c.fifo_app_msg c

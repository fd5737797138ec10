-- ===== src/Rasta/Sr/Steps.antt =====
-- rasta_new.c: what can happen to one connection, one lock at a time, in any order.
use tfm_cloud_ixl_rasta.Prelude.{
  ℕ, ◌*◌, ◌≤◌, ◌==◌, ◌≡◌, Option, none, some, List, [], ◌++◌, length, if◌then◌else◌, ◌∷◌,
}
use tfm_cloud_ixl_rasta.Rasta.Packet.{RastaPacket, rasta_type_discreq, rasta_type_connresp}
use tfm_cloud_ixl_rasta.Rasta.Sr.State.{
  Connection, Config, ApplicationMessage, Environment, Event, sent, add32,
}
use tfm_cloud_ixl_rasta.Rasta.Sr.Send.{user_request, max_queue_size, sr_close_connection}
use tfm_cloud_ixl_rasta.Rasta.Sr.Receive.{receive_packet}
use tfm_cloud_ixl_rasta.Rasta.Sr.Threads.{heartbeat_pass, send_pass}
use tfm_cloud_ixl_rasta.Rasta.Sr.Connections.{send_in, sr_get_received_data}

-- A step of the connection and the events of it. The environment is another one in each step, save
-- for the configuration.
pub data Step (config : Config) : Connection → List Event → Connection → Type 0 where
  receives :
      {c c' : Connection} {es : List Event} (env : Environment) (p : RastaPacket)
      → env.config ≡ config
      → receive_packet env (some c) p ≡ (some c', es)
      → Step config c es c'
  beats :
      {c : Connection} (env : Environment)
      → env.config ≡ config
      → Step config c (heartbeat_pass env c).1 (heartbeat_pass env c).0
  sends :
      {c : Connection} (env : Environment)
      → env.config ≡ config
      → Step config c (send_pass env c).1 (send_pass env c).0
  queues :
      {c : Connection} (env : Environment) (ms : List (List ℕ))
      → env.config ≡ config
      → Step config c (send_in env ms c.current_state c).1 (send_in env ms c.current_state c).0
  disconnects :
      {c : Connection} (env : Environment)
      → env.config ≡ config
      → Step config c
          (sr_close_connection env user_request 0 c).1
          (sr_close_connection env user_request 0 c).0
  delivers :
      {c c' : Connection} (m : ApplicationMessage)
      → sr_get_received_data c ≡ some (m, c')
      → Step config c [] c'

-- Steps one after the other, with all events in their order.
pub data Run (config : Config) : Connection → List Event → Connection → Type 0 where
  done : {c : Connection} → Run config c [] c
  next :
      {c c' c'' : Connection} {es fs : List Event}
      → Step config c es c'
      → Run config c' fs c''
      → Run config c (es ++ fs) c''

-- The sequence number after some events, where every packet sent has the number that is due, save that
-- a connection response, of a connection that begins anew, may have any. A disconnection request does
-- not use its number up.
unfoldable pub count_on : ℕ → List Event → Option ℕ
unfolding add32
count_on n [] = some n
count_on n (sent p ∷ es) =
    let later = count_on (if p.type == rasta_type_discreq then n else add32 n 1) es in
    let renewed = count_on (add32 p.sequence_number 1) es in
    if p.sequence_number == n
    then later
    else if p.type == rasta_type_connresp
    then renewed
    else none
count_on n (e ∷ es) = count_on n es

-- The queues hold no more than `sr_init_connection` makes room for.
abbrev pub IsBounded : Config → Connection → Type 0
IsBounded config c =
    (length c.fifo_app_msg ≤ config.send_max)
    × (length c.fifo_retr ≤ max_queue_size)
    × (length c.fifo_send ≤ 2 * config.max_packet)

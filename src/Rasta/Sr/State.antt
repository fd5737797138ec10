-- ===== src/Rasta/Sr/State.antt =====
-- src/rasta/headers/rastalist.h: a connection, and what the functions of rasta_new.c do besides
-- changing it. The counts for diagnosis are left out: they reach nothing but their own notification.
use tfm_cloud_ixl_rasta.Prelude.{
  ℕ, ◌+◌, ◌-◌, ◌%◌, ◌^◌, ◌==◌, Bool, Option, List, [], ◌∷◌, ◌++◌, length, if◌then◌else◌,
}
use tfm_cloud_ixl_rasta.Rasta.Link.{ConnectionState}
use tfm_cloud_ixl_rasta.Rasta.Packet.{RastaPacket, DisconnectionData, Header}

pub data RastaRole : Type 0 where
  client server : RastaRole

-- `rasta_error_counters`, as many as 32 bits count.
pub record ErrorCounters : Type 0 where
  pub safety : ℕ
  pub address : ℕ
  pub type_errors : ℕ
  pub sn : ℕ
  pub cs : ℕ

pub record ApplicationMessage : Type 0 where
  pub id : ℕ
  pub app_message : List ℕ

-- `rasta_connection`. A fifo is the list of its elements, the oldest first; the size of the partner's
-- buffer is `none` for -1.
pub record Connection : Type 0 where
  pub role : RastaRole
  pub current_state : ConnectionState
  pub my_id : ℕ
  pub remote_id : ℕ
  pub network_id : ℕ
  pub sn_t : ℕ
  pub sn_r : ℕ
  pub cs_t : ℕ
  pub cs_r : ℕ
  pub ts_r : ℕ
  pub cts_r : ℕ
  pub t_i : ℕ
  pub ti_start_time : ℕ
  pub ts_last_message : ℕ
  pub hb_locked : Bool
  pub hb_stopped : Bool
  pub is_sending : Bool
  pub connected_recv_buffer_size : Option ℕ
  pub errors : ErrorCounters
  pub fifo_app_msg : List ApplicationMessage
  pub fifo_send : List (List ℕ)
  pub fifo_retr : List (List ℕ)

-- The part of `RastaConfigInfo` that the layer reads.
pub record Config : Type 0 where
  pub t_max : ℕ
  pub t_h : ℕ
  pub send_max : ℕ
  pub max_packet : ℕ
  pub rasta_id : ℕ
  pub rasta_network : ℕ

-- What one step of the layer takes from elsewhere. All readings of the clock within a step are `now`,
-- and `clock_tick` is `1000 / sysconf(_SC_CLK_TCK)`. `initial_seq_num` is the configured or random
-- number for a new connection, and `raw` what its memory holds before. `encode` and `decode` are the
-- conversions of rastamodule.c with the hashing context, `unset_checksum` and `unset_correct` what a
-- new packet's memory holds, `beyond` what follows a payload in the memory, `long_of` is `strtol` with
-- base 4, counted from the least long.
pub record Environment : Type 0 where
  pub config : Config
  pub big : Bool
  pub now : ℕ
  pub clock_tick : ℕ
  pub initial_seq_num : ℕ
  pub raw : Connection
  pub encode : RastaPacket → List ℕ
  pub decode : List ℕ → RastaPacket
  pub hash_length : ℕ
  pub unset_checksum : List ℕ
  pub unset_correct : Bool
  pub long_of : List ℕ → ℕ
  pub accepted_version : List (List ℕ)
  pub stray : List ℕ
  pub beyond : List ℕ

-- A packet handed to the redundancy layer, a change of its channels, or a notification. The
-- notifications take a copy of the connection with them, which is kept for a change of state.
pub data Event : Type 0 where
  sent : RastaPacket → Event
  channel_removed channel_added : ℕ → Event
  connection_state_change : Connection → Event
  handshake_complete received heartbeat_timeout : Event
  disconnection_request_received : DisconnectionData → Event

-- A statement of the C code: the connection afterwards, and what happened.
abbrev pub Action : Type 0
Action = Connection → Connection × List Event

infixl 5 ◌>>◌
unfoldable pub ◌>>◌ : Action → Action → Action
(f >> g) c = let (c', es) = f c in let (c'', later) = g c' in (c'', es ++ later)

abbrev pub update : (Connection → Connection) → Action
update f c = (f c, [])

abbrev pub emit : (Connection → Event) → Action
emit e c = (c, e c ∷ [])

abbrev pub skip : Action
skip c = (c, [])

-- `fifo_push`: an element for a full queue is dropped.
unfoldable pub fifo_push {ℓ} : {A : Type ℓ} → ℕ → List A → A → List A
fifo_push max_size xs x = if length xs == max_size then xs else xs ++ (x ∷ [])

-- Unsigned arithmetic of 32 bits.
unfoldable pub add32 : ℕ → ℕ → ℕ
add32 a b = (a + b) % 2 ^ 32

unfoldable pub sub32 : ℕ → ℕ → ℕ
sub32 a b = (a + 2 ^ 32 - b) % 2 ^ 32

-- The arguments of the packets of a connection.
unfoldable pub header_of : Environment → Connection → Header
header_of env c = record {
  receiver = c.remote_id;
  sender = c.my_id;
  sequence = c.sn_t;
  confirmed_sequence = c.cs_t;
  time = env.now;
  confirmed_time = c.ts_r;
  hash_length = env.hash_length;
  unset_checksum = env.unset_checksum;
  unset_correct = env.unset_correct;
}

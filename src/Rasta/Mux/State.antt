-- ===== src/Rasta/Mux/State.antt =====
-- src/rasta/c/rasta_red_multiplexer.c: the state of the multiplexer, and the table of its channels.
use tfm_cloud_ixl_rasta.Prelude.{
  ℕ, ◌+◌, ◌-◌, ◌%◌, ◌^◌, ◌==◌, Bool, true, false, Option, none, some, List, [], ◌∷◌, ◌++◌, length,
  take, get_elem?, if◌then◌else◌,
}
use tfm_cloud_ixl_rasta.Rasta.Packet.{RastaPacket}
use tfm_cloud_ixl_rasta.Rasta.Red.Outcome.{Outcome, returns, faults, lock, Heap}
use tfm_cloud_ixl_rasta.Rasta.Red.Channel.{
  DiagnosticsData, TransportChannel, RedundancyChannel, Host, rasta_red_init,
}
use tfm_cloud_ixl_rasta.Rasta.Red.Receive.{rasta_red_add_transport_channel, rasta_red_cleanup}

-- `RastaIPData`: an address and a port.
pub record IpData : Type 0 where
  pub ip : List ℕ
  pub port : ℕ

-- What the multiplexer reads of the configuration.
pub record RedConfig : Type 0 where
  pub n_diagnose : ℕ
  pub crc_width : ℕ
  pub n_deferqueue_size : ℕ
  pub t_seq : ℕ
  pub rasta_id : ℕ
  pub connections : List IpData

-- `redundancy_mux`. `connected_channels` is the array, and its length the number of channels; the
-- two flags say whether the application gave a function to call.
pub record RedundancyMux : Type 0 where
  pub port_count : ℕ
  pub udp_socket_fds : List ℕ
  pub connected_channels : List RedundancyChannel
  pub is_open : Bool
  pub config : RedConfig
  pub wants_diagnostics : Bool
  pub wants_new_connection : Bool
  pub notifications_running : ℕ
  pub mux_locked : Bool

-- A datagram that is given to a socket, or a notification thread that is started.
pub data MuxEvent : Type 0 where
  datagram : (fd : ℕ) (bytes : List ℕ) (ip : List ℕ) (port : ℕ) → MuxEvent
  new_connection : ℕ → MuxEvent
  diagnostics_available : (n_diagnose n_missed t_drift t_drift2 id : ℕ) → MuxEvent

-- What a call takes from elsewhere besides the `Host` of the channels: `crc_calculate` with its
-- options, the address that `malloc` gives for a packet, what new memory holds, and what follows a
-- received array in the memory, `beyond`.
pub record MuxHost : Type 0 where
  pub host : Host
  pub crc : List ℕ → ℕ
  pub address : ℕ
  pub unset_packet : RastaPacket
  pub beyond : List ℕ
  pub unset_channels : List TransportChannel
  pub unset_red_channels : List RedundancyChannel
  pub unset_diagnostics : DiagnosticsData

pub record MuxWorld : Type 0 where
  pub heap : Heap
  pub lasterror : Bool
  pub mux : RedundancyMux

-- The index of the first channel from `i` on with the identifier.
unfoldable pub channel_loop : ℕ → ℕ → List RedundancyChannel → Option ℕ
channel_loop id i [] = none
channel_loop id i (c ∷ cs) = if c.associated_id == id then some i else channel_loop id (i + 1) cs

unfoldable pub redundancy_mux_get_channel : RedundancyMux → ℕ → Option ℕ
unfolding channel_loop
redundancy_mux_get_channel m id = channel_loop id 0 m.connected_channels

unfoldable pub set_first_id : ℕ → List RedundancyChannel → List RedundancyChannel
set_first_id id [] = []
set_first_id id (c ∷ cs) = record c { associated_id = id } ∷ cs

unfoldable pub redundancy_mux_set_config_id : RedundancyMux → ℕ → RedundancyMux
unfolding set_first_id
redundancy_mux_set_config_id m id = record m {
  connected_channels = set_first_id id m.connected_channels;
}

-- The fields of a new channel.
unfoldable pub init_channel : MuxHost → RedundancyMux → ℕ → RedundancyChannel
unfolding rasta_red_init
init_channel h m id =
    rasta_red_init m.config.n_deferqueue_size m.config.t_seq h.unset_channels m.port_count id

unfoldable pub add_transport_channels :
    MuxHost → List IpData → RedundancyChannel → RedundancyChannel
unfolding rasta_red_add_transport_channel
add_transport_channels h [] c = c
add_transport_channels h (d ∷ ds) c =
    add_transport_channels h ds
      (rasta_red_add_transport_channel c d.ip (d.port % 2 ^ 16) h.unset_diagnostics)

-- The first `port_count` of the given addresses become transport channels.
unfoldable pub redundancy_mux_add_channel :
    MuxHost → RedundancyMux → ℕ → List IpData → Outcome RedundancyMux
unfolding init_channel add_transport_channels
redundancy_mux_add_channel h m id transport_channels =
    let channel =
      add_transport_channels h (take m.port_count transport_channels) (init_channel h m id) in
    lock m.mux_locked
      (returns (record m { connected_channels = m.connected_channels ++ (channel ∷ []) }))

-- The channels that are copied: all with another identifier.
unfoldable pub without_id : ℕ → List RedundancyChannel → List RedundancyChannel
without_id id [] = []
without_id id (c ∷ cs) = if c.associated_id == id then without_id id cs else c ∷ without_id id cs

-- The new array has one element less, whatever number of channels was left out: what was not written
-- is what its memory holds.
unfoldable pub remove_found : MuxHost → RedundancyMux → ℕ → Option ℕ → Outcome RedundancyMux
unfolding without_id
remove_found h m id none = returns m
remove_found h m id (some i) =
    let kept = without_id id m.connected_channels ++ h.unset_red_channels in
    lock m.mux_locked
      (returns (record m { connected_channels = take (length m.connected_channels - 1) kept }))

unfoldable pub redundancy_mux_remove_channel : MuxHost → RedundancyMux → ℕ → Outcome RedundancyMux
unfolding redundancy_mux_get_channel remove_found
redundancy_mux_remove_channel h m id = remove_found h m id (redundancy_mux_get_channel m id)

-- A new multiplexer with its sockets.
unfoldable pub redundancy_mux_init_ : RedConfig → List ℕ → RedundancyMux
redundancy_mux_init_ config fds = record {
  port_count = length fds;
  udp_socket_fds = fds;
  connected_channels = [];
  is_open = false;
  config = config;
  wants_diagnostics = false;
  wants_new_connection = false;
  notifications_running = 0;
  mux_locked = false;
}

-- With a configured partner its channel is there from the beginning, with the identifier 0 at first.
unfoldable pub redundancy_mux_init : MuxHost → RedConfig → List ℕ → RedundancyMux
unfolding init_channel add_transport_channels redundancy_mux_init_
redundancy_mux_init h config fds =
    let m = redundancy_mux_init_ config fds in
    let channel = record (init_channel h m config.rasta_id) { associated_id = 0 } in
    if length config.connections == 0
    then m
    else record m { connected_channels = add_transport_channels h config.connections channel ∷ [] }

-- With no channels at all the test of the index is one against the largest number of 32 bits.
unfoldable pub count_at : RedundancyMux → Option RedundancyChannel → Outcome (ℕ × RedundancyMux)
count_at m none =
    if length m.connected_channels == 0 then faults else returns (0, record m { mux_locked = true })
count_at m (some c) = lock c.channel_locked (returns (length c.fifo_recv, m))

-- The number of the messages that wait in a channel, and the multiplexer, which stays locked where
-- there is no such channel any more.
unfoldable pub get_queue_msg_count : RedundancyMux → ℕ → Outcome (ℕ × RedundancyMux)
unfolding count_at
get_queue_msg_count m i = lock m.mux_locked (count_at m (get_elem? m.connected_channels i))

unfoldable pub redundancy_mux_open : RedundancyMux → RedundancyMux
redundancy_mux_open m = record m { is_open = true }

unfoldable pub cleanup_each : List RedundancyChannel → List RedundancyChannel
unfolding rasta_red_cleanup
cleanup_each [] = []
cleanup_each (c ∷ cs) = rasta_red_cleanup c ∷ cleanup_each cs

-- The channels are cleaned up before their array is freed.
unfoldable pub redundancy_mux_close : RedundancyMux → RedundancyMux
unfolding cleanup_each
redundancy_mux_close m = record m {
  is_open = false;
  port_count = 0;
  udp_socket_fds = [];
  connected_channels = cleanup_each m.connected_channels;
}

-- ===== src/Rasta/Mux/Receive.antt =====
-- src/rasta/c/rasta_red_multiplexer.c: a datagram is decoded and given to the channel of its sender,
-- which is made if there is none.
use tfm_cloud_ixl_rasta.Prelude.{
  ℕ, ◌+◌, ◌%◌, ◌^◌, ◌==◌, ltb, not, Bool, true, false, ◌&&◌, ◌||◌, Option, none, some, List, [],
  ◌∷◌, ◌++◌, length, take, set, get_elem?, if◌then◌else◌,
}
use tfm_cloud_ixl_rasta.Sci.Scils.{bytes_eq}
use tfm_cloud_ixl_rasta.Rasta.Codec.{RastaRedundancyPacket, bytes_to_rasta_redundancy_packet}
use tfm_cloud_ixl_rasta.Rasta.Red.Outcome.{Outcome, returns, ◌>>=◌, lock, or_fault, write}
use tfm_cloud_ixl_rasta.Rasta.Red.Channel.{TransportChannel, RedundancyChannel, World}
use tfm_cloud_ixl_rasta.Rasta.Red.Receive.{rasta_red_f_receive}
use tfm_cloud_ixl_rasta.Rasta.Mux.State.{
  RedundancyMux, MuxEvent, new_connection, MuxHost, MuxWorld, init_channel,
  redundancy_mux_get_channel,
}

abbrev pub max_defer_queue_msg_size : ℕ
max_defer_queue_msg_size = 1000

-- What a call does to the channel with an index.
unfoldable pub at_channel : ℕ → (World → Outcome World) → MuxWorld → Outcome MuxWorld
at_channel i f w = do
  c ← or_fault (get_elem? w.mux.connected_channels i)
  v ← f (record { heap = w.heap; lasterror = w.lasterror; channel = c })
  returns (record w {
    heap = v.heap;
    lasterror = v.lasterror;
    mux = record w.mux { connected_channels = set w.mux.connected_channels i v.channel };
  })

-- Whether one of the transport channels has the address and the port.
unfoldable pub is_saved : List ℕ → ℕ → List TransportChannel → Bool
is_saved ip port [] = false
is_saved ip port (t ∷ ts) = (t.port == port && bytes_eq ip t.ip_address) || is_saved ip port ts

unfoldable pub saved_in :
    List TransportChannel → ℕ → List ℕ → ℕ → Option TransportChannel → List TransportChannel
saved_in ts i ip port none = ts
saved_in ts i ip port (some t) = set ts i (record t { ip_address = ip; port = port })

-- The address and the port become those of the transport channel with an index.
unfoldable pub save_at : List ℕ → ℕ → ℕ → RedundancyChannel → RedundancyChannel
unfolding saved_in
save_at ip port i c = record c {
  connected_channels = saved_in c.connected_channels i ip port (get_elem? c.connected_channels i);
  connected_channel_count = c.connected_channel_count + 1;
}

-- A transport channel that is not known yet is noted, until there are as many as ports.
unfoldable pub discover : ℕ → List ℕ → ℕ → RedundancyChannel → RedundancyChannel
unfolding is_saved save_at
discover port_count ip port c =
    if ltb c.connected_channel_count port_count
      && not (is_saved ip port (take c.connected_channel_count c.connected_channels))
    then save_at ip port c.connected_channel_count c
    else c

-- The notification thread for a new channel, if the application wants it.
unfoldable pub red_call_on_new_connection : ℕ → RedundancyMux → RedundancyMux × List MuxEvent
red_call_on_new_connection id m =
    if m.wants_new_connection
    then (
      record m { notifications_running = (m.notifications_running + 1) % 2 ^ 32 },
      new_connection id ∷ [],
    )
    else (m, [])

-- The channel of a new partner, with the first transport channel that it uses.
unfoldable pub channel_of_sender : MuxHost → RedundancyMux → ℕ → List ℕ → ℕ → RedundancyChannel
unfolding init_channel save_at
channel_of_sender h m id ip port = record (save_at ip port 0 (init_channel h m id)) {
  is_open = true;
}

unfoldable pub discovered_at :
    RedundancyMux → ℕ → List ℕ → ℕ → Option RedundancyChannel → List RedundancyChannel
unfolding discover
discovered_at m i ip port none = m.connected_channels
discovered_at m i ip port (some c) = set m.connected_channels i (discover m.port_count ip port c)

-- The channel for the packet, with what is noted of its transport channels, and its index.
unfoldable pub prepare :
    MuxHost → RedundancyMux → ℕ → List ℕ → ℕ → Option ℕ → RedundancyMux × ℕ × List MuxEvent
unfolding discovered_at channel_of_sender red_call_on_new_connection
prepare h m id ip port (some i) = (
  record m { connected_channels = discovered_at m i ip port (get_elem? m.connected_channels i) },
  i,
  [],
)
prepare h m id ip port none =
    let added = record m {
      connected_channels = m.connected_channels ++ (channel_of_sender h m id ip port ∷ []);
    } in
    let (m', es) = red_call_on_new_connection id added in (m', length m.connected_channels, es)

unfoldable pub received_packet : MuxHost → MuxWorld → List ℕ → RastaRedundancyPacket × Bool
unfolding bytes_to_rasta_redundancy_packet
received_packet h w bytes =
    bytes_to_rasta_redundancy_packet h.host.big h.host.hash h.host.hash_length h.crc h.beyond
      h.unset_packet w.mux.config.crc_width w.lasterror (take max_defer_queue_msg_size bytes)

-- The packet is freed in the end, whatever the channel did with it.
unfoldable pub receive_with :
    MuxHost
    → MuxWorld
    → ℕ
    → RastaRedundancyPacket × Bool
    → RedundancyMux × ℕ × List MuxEvent
    → Outcome (MuxWorld × List MuxEvent)
unfolding at_channel rasta_red_f_receive write
receive_with h w channel_id (p, failed) (m, i, es) =
    let held = record w { heap = write w.heap h.address (some p); lasterror = failed; mux = m } in
    at_channel i (rasta_red_f_receive h.host h.address channel_id) held >>= λ w'.
    returns (record w' { heap = write w'.heap h.address none }, es)

unfoldable pub receive_packet :
    MuxHost → MuxWorld → ℕ → List ℕ → List ℕ → ℕ → Outcome (MuxWorld × List MuxEvent)
unfolding received_packet prepare receive_with redundancy_mux_get_channel
receive_packet h w channel_id bytes ip port =
    let r = received_packet h w bytes in
    let id = r.0.inner.sender_id in
    lock w.mux.mux_locked (
      receive_with h w channel_id r
        (prepare h w.mux id ip port (redundancy_mux_get_channel w.mux id)))

-- ===== src/Rasta/Mux/Send.antt =====
-- src/rasta/c/rasta_red_multiplexer.c: a packet goes out on every transport channel of its receiver.
use tfm_cloud_ixl_rasta.Prelude.{
  ℕ, zero, suc, ◌+◌, ◌%◌, ◌^◌, Bool, Option, none, some, List, [], ◌∷◌, set, get_elem?,
}
use tfm_cloud_ixl_rasta.Rasta.Packet.{RastaPacket}
use tfm_cloud_ixl_rasta.Rasta.Codec.{create_redundancy_packet, rasta_redundancy_packet_to_bytes}
use tfm_cloud_ixl_rasta.Rasta.Red.Outcome.{Outcome, returns, ◌>>=◌, or_fault}
use tfm_cloud_ixl_rasta.Rasta.Red.Channel.{RedundancyChannel}
use tfm_cloud_ixl_rasta.Rasta.Mux.State.{
  RedundancyMux, MuxEvent, datagram, MuxHost, MuxWorld, redundancy_mux_get_channel,
}

-- One datagram for each of the next transport channels, on the socket with its index. An index past
-- one of the two arrays is a fault.
unfoldable pub send_loop :
    RedundancyMux → RedundancyChannel → List ℕ → ℕ → ℕ → Outcome (List MuxEvent)
send_loop m c bytes zero i = returns []
send_loop m c bytes (suc left) i = do
  t ← or_fault (get_elem? c.connected_channels i)
  fd ← or_fault (get_elem? m.udp_socket_fds i)
  rest ← send_loop m c bytes left (i + 1)
  returns (datagram fd bytes t.ip_address t.port ∷ rest)

-- The bytes of the packet with the next number of the channel, cut to 32 bits, and the error.
unfoldable pub bytes_to_send :
    MuxHost → Bool → RedundancyMux → RedundancyChannel → RastaPacket → List ℕ × Bool
unfolding create_redundancy_packet rasta_redundancy_packet_to_bytes
bytes_to_send h failed m c p =
    rasta_redundancy_packet_to_bytes h.host.big h.host.hash h.host.hash_length h.crc h.host.unset
      failed (create_redundancy_packet m.config.crc_width (c.seq_tx % 2 ^ 32) p)

unfoldable pub counted_up : RedundancyChannel → RedundancyChannel
counted_up c = record c { seq_tx = (c.seq_tx + 1) % 2 ^ 64 }

unfoldable pub send_to :
    MuxHost → MuxWorld → RastaPacket → Option ℕ → Outcome (MuxWorld × List MuxEvent)
unfolding bytes_to_send send_loop counted_up
send_to h w p none = returns (w, [])
send_to h w p (some i) = do
  c ← or_fault (get_elem? w.mux.connected_channels i)
  let encoded = bytes_to_send h w.lasterror w.mux c p
  es ← send_loop w.mux c encoded.0 c.connected_channel_count 0
  returns (
    record w {
      lasterror = encoded.1;
      mux = record w.mux { connected_channels = set w.mux.connected_channels i (counted_up c) };
    },
    es,
  )

-- Nothing is sent to a receiver with no channel.
unfoldable pub redundancy_mux_send :
    MuxHost → MuxWorld → RastaPacket → Outcome (MuxWorld × List MuxEvent)
unfolding redundancy_mux_get_channel send_to
redundancy_mux_send h w p = send_to h w p (redundancy_mux_get_channel w.mux p.receiver_id)

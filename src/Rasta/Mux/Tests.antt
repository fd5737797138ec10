-- ===== src/Rasta/Mux/Tests.antt =====
-- The multiplexer at a concrete packet.
use tfm_cloud_ixl_rasta.Prelude.{ℕ, List, ◌≡◌, refl, true, false, none, [], ◌∷◌, arith}
use tfm_cloud_ixl_rasta.Rasta.Codec.RoundTrip.{summed}
use tfm_cloud_ixl_rasta.Rasta.Red.Outcome.{returns}
use tfm_cloud_ixl_rasta.Rasta.Red.Channel.{RedundancyChannel, rasta_red_init}
use tfm_cloud_ixl_rasta.Rasta.Red.Tests.{host, inner_packet, port, world}
use tfm_cloud_ixl_rasta.Rasta.Mux.State.{
  RedundancyMux, datagram, MuxHost, MuxWorld, redundancy_mux_get_channel,
}
use tfm_cloud_ixl_rasta.Rasta.Mux.Send.{bytes_to_send, redundancy_mux_send}
use tfm_cloud_ixl_rasta.Rasta.Mux.Receive.{receive_packet}
use tfm_cloud_ixl_rasta.Rasta.Mux.Retrieve.{redundancy_mux_retrieve}
use tfm_cloud_ixl_rasta.Rasta.Mux.Table.{datagrams, redundancy_mux_send_lem}
use tfm_cloud_ixl_rasta.Rasta.Mux.Sent.{with_memory, sum_of}
use tfm_cloud_ixl_rasta.Rasta.Mux.Delivery.{retrieve-receive_packet-send}

abbrev mux_host : MuxHost
mux_host = record {
  host = host;
  crc = λ bytes. 0;
  address = 3;
  unset_packet = inner_packet 0;
  beyond = 9 ∷ [];
  unset_channels = port ∷ [];
  unset_red_channels = [];
  unset_diagnostics = port.diagnostics_data;
}

-- The channel of the test of the redundancy layer, for the partner 96 or 97.
abbrev channel_of : ℕ → RedundancyChannel
channel_of id = record world.channel { associated_id = id; connected_channel_count = 1 }

abbrev mux_of : RedundancyChannel → RedundancyMux
mux_of c = record {
  port_count = 1;
  udp_socket_fds = 4 ∷ [];
  connected_channels = c ∷ [];
  is_open = true;
  config = record {
    n_diagnose = 1000;
    crc_width = 16;
    n_deferqueue_size = 4;
    t_seq = 100;
    rasta_id = 96;
    connections = [];
  };
  wants_diagnostics = false;
  wants_new_connection = false;
  notifications_running = 0;
  mux_locked = false;
}

abbrev world_of : RedundancyChannel → MuxWorld
world_of c = record { heap = λ a. none; lasterror = false; mux = mux_of c }

-- The packet goes from 96 to 97.
redundancy_mux_send_lem_example :
    let w = world_of (channel_of 97) in
    let c = channel_of 97 in
    let (bytes, failed) = bytes_to_send mux_host false w.mux c (inner_packet 0) in
    redundancy_mux_send mux_host w (inner_packet 0)
    ≡ returns (
      record w {
        lasterror = failed;
        mux = record w.mux { connected_channels = record c { seq_tx = 1 } ∷ [] };
      },
      datagram 4 bytes [] 8888 ∷ [],
    )
unfolding redundancy_mux_get_channel rasta_red_init datagrams
redundancy_mux_send_lem_example =
    redundancy_mux_send_lem mux_host (world_of (channel_of 97)) (inner_packet 0) 0 (channel_of 97)
      refl refl (omega arith) (omega arith)

retrieve-receive_packet-send_example :
    let v = world_of (channel_of 97) in
    let w = world_of (channel_of 96) in
    let p = inner_packet 0 in
    (bytes : List ℕ) × (v' : MuxWorld) × (w' : MuxWorld) × (w'' : MuxWorld) × (redundancy_mux_send
        (with_memory mux_host [])
        v
        p
      ≡ returns (v', datagram 4 bytes [] 8888 ∷ []))
    × (receive_packet mux_host w 0 bytes (5 ∷ []) 8888 ≡ returns (w', []))
    × (redundancy_mux_retrieve mux_host w' 96 ≡ returns (summed p (sum_of host p), w''))
unfolding redundancy_mux_get_channel rasta_red_init datagrams
retrieve-receive_packet-send_example =
    retrieve-receive_packet-send mux_host [] (world_of (channel_of 97)) 0 (channel_of 97)
      (inner_packet 0) (world_of (channel_of 96)) 0 0 (channel_of 96) (5 ∷ []) 8888 refl refl
      (omega arith) (omega arith) refl
      (record {
        hashes = λ bytes. omega arith;
        packable = omega arith;
        narrow = omega arith;
        short = omega arith;
        number = omega arith;
      })
      refl
      (record {
        known = refl;
        stands = refl;
        mux_free = refl;
        unused = record {
          first = record { packet = none; received_timestamp = 0 };
          stands = refl;
          null = refl;
          free = refl;
        };
        channel_free = refl;
        buffer_free = refl;
        port = omega arith;
        due = refl;
        empty = refl;
        room = omega arith;
        no_error = refl;
      })

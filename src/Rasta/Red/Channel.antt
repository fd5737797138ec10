-- ===== src/Rasta/Red/Channel.antt =====
-- src/rasta/c/rastaredundancy_new.c: a redundancy channel, which takes packets in the order of their
-- numbers from several transport channels. An `unsigned long` has 64 bits.
use tfm_cloud_ixl_rasta.Prelude.{
  ℕ, zero, suc, ◌+◌, ◌*◌, ◌%◌, ◌^◌, Bool, true, false, Option, none, some, List, [], take,
}
use tfm_cloud_ixl_rasta.Rasta.Packet.{RastaPacket}
use tfm_cloud_ixl_rasta.Rasta.Codec.{RastaRedundancyPacket, rasta_module_to_bytes}
use tfm_cloud_ixl_rasta.Rasta.Sr.State.{fifo_push}
use tfm_cloud_ixl_rasta.Rasta.Red.Outcome.{Outcome, returns, goes_on, ◌>>=◌, lock, Heap}
use tfm_cloud_ixl_rasta.Rasta.Red.Queue.{
  Qsort, DeferQueue, defer_queue_init, deferqueue_remove, deferqueue_contains, deferqueue_get,
}

-- `rasta_redundancy_diagnostics_data`.
pub record DiagnosticsData : Type 0 where
  pub start_time : ℕ
  pub n_missed : ℕ
  pub t_drift : ℕ
  pub t_drift2 : ℕ
  pub received_packets : ℕ

-- `rasta_transport_channel`; the address is the text before the NUL.
pub record TransportChannel : Type 0 where
  pub ip_address : List ℕ
  pub port : ℕ
  pub diagnostics_data : DiagnosticsData

-- `rasta_redundancy_channel` with the two numbers of its configuration that it reads, and the
-- receive queue as the list of its elements, the oldest first. `connected_channels` is the whole
-- array of `transport_channel_count` elements. `channel_locked` says that the mutex is held.
pub record RedundancyChannel : Type 0 where
  pub associated_id : ℕ
  pub seq_tx : ℕ
  pub seq_rx : ℕ
  pub defer_q : DeferQueue
  pub diagnostics_packet_buffer : DeferQueue
  pub fifo_recv : List (List ℕ)
  pub fifo_size : ℕ
  pub connected_channels : List TransportChannel
  pub connected_channel_count : ℕ
  pub transport_channel_count : ℕ
  pub is_open : Bool
  pub t_seq : ℕ
  pub n_deferqueue_size : ℕ
  pub channel_locked : Bool

-- What a call takes from elsewhere: the clock in milliseconds, `qsort`, and for the codec the byte
-- order, the hash with its key and length, and what newly allocated memory holds.
pub record Host : Type 0 where
  pub now : ℕ
  pub qsort : Qsort
  pub big : Bool
  pub hash : List ℕ → List ℕ
  pub hash_length : ℕ
  pub unset : List ℕ

-- The memory, the global `rastamodule_lasterror`, and the channel.
pub record World : Type 0 where
  pub heap : Heap
  pub lasterror : Bool
  pub channel : RedundancyChannel

unfoldable pub rasta_red_init : ℕ → ℕ → List TransportChannel → ℕ → ℕ → RedundancyChannel
unfolding defer_queue_init
rasta_red_init n_deferqueue_size t_seq unset_channels transport_channel_count id = record {
  associated_id = id;
  seq_tx = 0;
  seq_rx = 0;
  defer_q = defer_queue_init n_deferqueue_size;
  diagnostics_packet_buffer = defer_queue_init ((10 * n_deferqueue_size) % 2 ^ 32);
  fifo_recv = [];
  fifo_size = n_deferqueue_size;
  connected_channels = take transport_channel_count unset_channels;
  connected_channel_count = 0;
  transport_channel_count = transport_channel_count;
  is_open = false;
  t_seq = t_seq;
  n_deferqueue_size = n_deferqueue_size;
  channel_locked = false;
}

unfoldable pub set_locked : Bool → World → World
set_locked b w = record w { channel = record w.channel { channel_locked = b } }

-- The mutex of the channel is taken.
abbrev pub locking : World → (World → Outcome World) → Outcome World
locking w f = lock w.channel.channel_locked (f (set_locked true w))

-- The bytes of a packet go into the receive queue.
unfoldable pub push_bytes : List ℕ × Bool → World → World
unfolding fifo_push
push_bytes (bytes, failed) w = record w {
  lasterror = failed;
  channel = record w.channel {
    fifo_recv = fifo_push w.channel.fifo_size w.channel.fifo_recv bytes;
  };
}

-- The packet of zeros for a number that is not found.
abbrev zero_packet : RastaRedundancyPacket
zero_packet = record {
  red_length = 0;
  reserve = 0;
  red_sequence = 0;
  inner = record {
    packet_length = 0;
    type = 0;
    receiver_id = 0;
    sender_id = 0;
    sequence_number = 0;
    confirmed_sequence_number = 0;
    timestamp = 0;
    confirmed_timestamp = 0;
    payload = [];
    checksum = [];
    checksum_correct = false;
  };
  red_correct = false;
  width = 0;
}

abbrev pub or_zeros : Option RastaRedundancyPacket → RastaRedundancyPacket
or_zeros none = zero_packet
or_zeros (some p) = p

-- `rastaModuleToBytes` into newly allocated memory.
unfoldable pub encode : Host → Bool → RastaPacket → List ℕ × Bool
unfolding rasta_module_to_bytes
encode host failed p = rasta_module_to_bytes host.big host.hash host.hash_length host.unset failed p

-- The pass is over: the packet is pushed and taken out of the queue, and the mutex is unlocked.
unfoldable pub after_delivery : Host → World → RastaRedundancyPacket → Heap × DeferQueue → World
unfolding push_bytes encode
after_delivery host w p (h, q) =
    let w' = push_bytes (encode host w.lasterror p.inner) w in
    record w' {
      heap = h;
      channel = record w'.channel {
        defer_q = q;
        seq_rx = (w'.channel.seq_rx + 1) % 2 ^ 64;
        channel_locked = false;
      };
    }

-- One pass of the loop of `deliverDeferQueue`.
unfoldable pub deliver_one : Host → World → Outcome World
unfolding deferqueue_get deferqueue_remove after_delivery
deliver_one host w = do
  found ← deferqueue_get w.heap w.channel.defer_q w.channel.seq_rx
  hq ← deferqueue_remove host.qsort w.heap w.channel.defer_q w.channel.seq_rx
  returns (after_delivery host w (or_zeros found) hq)

-- A pass, if the queue contains the packet that is due, and the rest of the loop.
unfoldable pub deliver_present : Host → World → (World → Outcome World) → Bool → Outcome World
unfolding deliver_one
deliver_present host w rest true = deliver_one host w >>= rest
deliver_present host w rest false = returns w

-- The loop, with the passes that are allowed.
unfoldable pub deliver_loop : ℕ → Host → World → Outcome World
unfolding deferqueue_contains deliver_present
deliver_loop zero host w = goes_on
deliver_loop (suc passes) host w =
    deferqueue_contains w.heap w.channel.defer_q w.channel.seq_rx
    >>= deliver_present host w (deliver_loop passes host)

-- Where nothing is delivered the mutex stays locked. Each pass takes an element out of the queue, so
-- one pass more than it has elements is allowed.
unfoldable pub deliver_defer_queue : Host → World → Outcome World
unfolding deliver_loop set_locked
deliver_defer_queue host w = locking w (deliver_loop (suc w.channel.defer_q.count) host)

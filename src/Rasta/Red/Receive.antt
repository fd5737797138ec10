-- ===== src/Rasta/Red/Receive.antt =====
-- src/rasta/c/rastaredundancy_new.c: what a channel does with a received packet, and when the packet
-- that it waits for does not come in time.
use tfm_cloud_ixl_rasta.Prelude.{
  ℕ, ◌+◌, ◌-◌, ◌*◌, ◌%◌, ◌^◌, ◌==◌, ltb, leb, not, Bool, true, false, ◌&&◌, some, List, [], take,
  set, if◌then◌else◌, get_elem?,
}
use tfm_cloud_ixl_rasta.Rasta.Packet.{RastaPacket}
use tfm_cloud_ixl_rasta.Rasta.Codec.{RastaRedundancyPacket, rasta_module_to_bytes_no_checksum}
use tfm_cloud_ixl_rasta.Rasta.Red.Outcome.{Outcome, returns, ◌>>=◌, or_fault, load}
use tfm_cloud_ixl_rasta.Rasta.Red.Queue.{
  DeferQueue, deferqueue_isfull, deferqueue_add, deferqueue_contains, deferqueue_smallest_seqnr,
  deferqueue_get_ts, deferqueue_destroy,
}
use tfm_cloud_ixl_rasta.Rasta.Red.Channel.{
  DiagnosticsData, RedundancyChannel, Host, World, set_locked, locking, push_bytes,
  deliver_defer_queue,
}

-- The counts of a transport channel are changed; there is no such channel past the array.
unfoldable pub update_diagnostics : (DiagnosticsData → DiagnosticsData) → ℕ → World → Outcome World
update_diagnostics f channel_id w = do
  t ← or_fault (get_elem? w.channel.connected_channels channel_id)
  let t' = record t { diagnostics_data = f t.diagnostics_data }
  returns (record w {
    channel = record w.channel {
      connected_channels = set w.channel.connected_channels channel_id t';
    };
  })

-- The delay of a packet that came on another transport channel at the time `ts`.
unfoldable pub count_delay : ℕ → ℕ → DiagnosticsData → DiagnosticsData
count_delay t_seq delay d =
    if ltb t_seq delay then record d { n_missed = d.n_missed + 1 } else record d {
      t_drift = (d.t_drift + delay) % 2 ^ 64;
      t_drift2 = (d.t_drift2 + (delay * delay) % 2 ^ 64) % 2 ^ 64;
    }

unfoldable pub note_delay : Host → ℕ → ℕ → World → Outcome World
unfolding update_diagnostics count_delay
note_delay host channel_id ts w =
    let delay = (host.now + 2 ^ 64 - ts) % 2 ^ 64 in
    if ts == 0
    then returns w
    else update_diagnostics (count_delay w.channel.t_seq delay) channel_id w

-- A packet with a number that is past.
unfoldable pub receive_old : Host → RastaRedundancyPacket → ℕ → World → Outcome World
unfolding deferqueue_get_ts note_delay set_locked
receive_old host p channel_id w = do
  ts ← deferqueue_get_ts w.heap w.channel.diagnostics_packet_buffer p.red_sequence
  w' ← note_delay host channel_id ts w
  returns (set_locked false w')

-- `rastaModuleToBytesNoChecksum` into newly allocated memory.
unfoldable pub encode_kept : Host → Bool → RastaPacket → List ℕ × Bool
unfolding rasta_module_to_bytes_no_checksum
encode_kept host failed p =
    rasta_module_to_bytes_no_checksum host.big host.hash host.hash_length host.unset failed p

-- The number goes up and the packet is pushed with its own check sum.
unfoldable pub accepted : Host → RastaRedundancyPacket → World → DeferQueue → World
unfolding push_bytes encode_kept
accepted host p w buffer = push_bytes (encode_kept host w.lasterror p.inner) (record w {
  channel = record w.channel {
    seq_rx = (w.channel.seq_rx + 1) % 2 ^ 64;
    diagnostics_packet_buffer = buffer;
  };
})

-- The packet that is due is pushed, and then what was waiting for it.
unfoldable pub receive_due : Host → ℕ → RastaRedundancyPacket → World → Outcome World
unfolding deferqueue_add accepted deliver_defer_queue set_locked
receive_due host address p w = do
  buffer ← deferqueue_add host.qsort w.channel.diagnostics_packet_buffer address host.now
  w' ← deliver_defer_queue host (set_locked false (accepted host p w buffer))
  returns (set_locked false w')

unfoldable pub defer : Host → ℕ → World → Outcome World
unfolding deferqueue_add set_locked
defer host address w = deferqueue_add host.qsort w.channel.defer_q address host.now >>= λ q.
    returns (set_locked false (record w { channel = record w.channel { defer_q = q } }))

unfoldable pub defer_unless_full : Host → ℕ → World → Bool → Outcome World
unfolding defer set_locked
defer_unless_full host address w true = returns (set_locked false w)
defer_unless_full host address w false = defer host address w

unfoldable pub defer_unless_present : Host → ℕ → World → Bool → Outcome World
unfolding deferqueue_isfull defer_unless_full set_locked
defer_unless_present host address w true = returns (set_locked false w)
defer_unless_present host address w false =
    deferqueue_isfull w.channel.defer_q >>= defer_unless_full host address w

-- A packet that comes too early, but not by more than ten times the size of the queue.
unfoldable pub receive_early : Host → ℕ → RastaRedundancyPacket → World → Outcome World
unfolding deferqueue_contains defer_unless_present
receive_early host address p w =
    deferqueue_contains w.heap w.channel.defer_q p.red_sequence
    >>= defer_unless_present host address w

-- The last number that is taken.
unfoldable pub last_taken : RedundancyChannel → ℕ
last_taken c = (c.seq_rx + (c.n_deferqueue_size * 10) % 2 ^ 32) % 2 ^ 64

unfoldable pub by_number : Host → ℕ → RastaRedundancyPacket → ℕ → World → Outcome World
unfolding receive_old receive_due receive_early last_taken set_locked
by_number host address p channel_id w =
    if ltb p.red_sequence w.channel.seq_rx
    then receive_old host p channel_id w
    else if p.red_sequence == w.channel.seq_rx
    then receive_due host address p w
    else if leb p.red_sequence (last_taken w.channel)
    then receive_early host address p w
    else returns (set_locked false w)

-- `rasta_red_f_receive`; a channel that neither sent nor received takes no other number than 0.
unfoldable pub receive_correct : Host → ℕ → RastaRedundancyPacket → ℕ → World → Outcome World
unfolding update_diagnostics by_number set_locked
receive_correct host address p channel_id w = do
  w' ← update_diagnostics (λ d. record d { received_packets = d.received_packets + 1 }) channel_id w
  let c = w'.channel
  if c.seq_rx == 0 && c.seq_tx == 0 && not (p.red_sequence == 0)
      then returns (set_locked false w')
      else by_number host address p channel_id w'

unfoldable pub rasta_red_f_receive : Host → ℕ → ℕ → World → Outcome World
unfolding receive_correct load set_locked
rasta_red_f_receive host address channel_id w = locking w λ w'. load w'.heap (some address) >>= λ p.
    if p.red_correct
    then receive_correct host address p channel_id w'
    else returns (set_locked false w')

-- The time of a deferred packet is over: the channel goes on with the smallest number that it has.
unfoldable pub rasta_red_f_defer_tmo : Host → World → Outcome World
unfolding deferqueue_smallest_seqnr deliver_defer_queue set_locked load
rasta_red_f_defer_tmo host w = locking w λ w'. do
  index ← deferqueue_smallest_seqnr w'.heap w'.channel.defer_q
  e ← or_fault (get_elem? w'.channel.defer_q.elements index)
  p ← load w'.heap e.packet
  deliver_defer_queue host (record w' {
    channel = record w'.channel { seq_rx = p.red_sequence; channel_locked = false };
  })

-- The address is copied into 15 bytes.
unfoldable pub rasta_red_add_transport_channel :
    RedundancyChannel → List ℕ → ℕ → DiagnosticsData → RedundancyChannel
rasta_red_add_transport_channel c ip port unset = record c {
  connected_channels =
      set c.connected_channels c.connected_channel_count
        (record { ip_address = take 15 ip; port = port; diagnostics_data = unset });
  connected_channel_count = c.connected_channel_count + 1;
}

-- What is left of the channel after the clean up, but for the receive queue, which is freed.
unfoldable pub rasta_red_cleanup : RedundancyChannel → RedundancyChannel
unfolding deferqueue_destroy
rasta_red_cleanup c = record c {
  defer_q = deferqueue_destroy c.defer_q;
  diagnostics_packet_buffer = deferqueue_destroy c.diagnostics_packet_buffer;
  connected_channels = [];
  transport_channel_count = 0;
  connected_channel_count = 0;
  fifo_recv = [];
}

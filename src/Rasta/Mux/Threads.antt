-- ===== src/Rasta/Mux/Threads.antt =====
-- src/rasta/c/rasta_red_multiplexer.c: one pass of the timeout thread and of the diagnosis for one
-- channel. The threads work on a copy of the channel, in which only what pointers lead to is shared.
use tfm_cloud_ixl_rasta.Prelude.{
  ℕ, ◌+◌, ◌-◌, ◌%◌, ◌^◌, ◌==◌, ltb, leb, List, [], ◌∷◌, set, get_elem?, if◌then◌else◌,
}
use tfm_cloud_ixl_rasta.Rasta.Red.Outcome.{Outcome, returns, ◌>>=◌, lock, or_fault}
use tfm_cloud_ixl_rasta.Rasta.Red.Queue.{deferqueue_clear}
use tfm_cloud_ixl_rasta.Rasta.Red.Channel.{
  DiagnosticsData, TransportChannel, RedundancyChannel, World,
}
use tfm_cloud_ixl_rasta.Rasta.Red.Receive.{rasta_red_f_defer_tmo}
use tfm_cloud_ixl_rasta.Rasta.Mux.State.{RedundancyMux, MuxEvent, diagnostics_available, MuxHost}

-- What the channel itself keeps of the changes of a copy: the array of the deferred packets and the
-- receive queue, but neither the numbers nor the count.
unfoldable pub keep_shared : RedundancyChannel → RedundancyChannel → RedundancyChannel
keep_shared c copy = record c {
  defer_q = record c.defer_q { elements = copy.defer_q.elements };
  fifo_recv = copy.fifo_recv;
}

-- The time that has passed since another, in 64 bits.
unfoldable pub passed : ℕ → ℕ → ℕ
passed now ts = (now + 2 ^ 64 - ts) % 2 ^ 64

unfoldable pub time_out : MuxHost → World → Outcome World
unfolding rasta_red_f_defer_tmo keep_shared
time_out h w = rasta_red_f_defer_tmo h.host w >>= λ w'.
    returns (record w' { channel = keep_shared w.channel w'.channel })

-- A channel whose oldest deferred packet waits for longer than `t_seq`.
unfoldable pub timeout_pass : MuxHost → World → Outcome World
unfolding time_out passed
timeout_pass h w = do
  oldest ← lock w.channel.channel_locked (or_fault (get_elem? w.channel.defer_q.elements 0))
  if w.channel.defer_q.count == 0
      then returns w
      else if ltb w.channel.t_seq (passed h.host.now oldest.received_timestamp)
      then time_out h w
      else returns w

-- The notification thread for the diagnosis, if the application wants it.
unfoldable pub red_call_on_diagnostic :
    ℕ → ℕ → DiagnosticsData → RedundancyMux → Outcome (RedundancyMux × List MuxEvent)
red_call_on_diagnostic n_diagnose id d m = lock m.mux_locked (
    if m.wants_diagnostics
    then returns (
      record m { notifications_running = (m.notifications_running + 1) % 2 ^ 32 },
      diagnostics_available n_diagnose d.n_missed d.t_drift d.t_drift2 id ∷ [],
    )
    else returns (m, []))

-- The packets of the window that did not come on this transport channel are counted as missed. The
-- bits of an `int` stand for it.
unfoldable pub count_missed : ℕ → DiagnosticsData → DiagnosticsData
count_missed count d = record d {
  n_missed = (d.n_missed + (count + (2 ^ 32 - d.received_packets % 2 ^ 32))) % 2 ^ 32;
}

unfoldable pub new_window : ℕ → DiagnosticsData
new_window now = record {
  start_time = now;
  n_missed = 0;
  t_drift = 0;
  t_drift2 = 0;
  received_packets = 0;
}

-- At the end of a window of the transport channel with the index `i`. The count of the packets
-- noted is reset in the copy only.
unfoldable pub end_window :
    MuxHost
    → ℕ
    → RedundancyChannel
    → TransportChannel
    → RedundancyMux
    → Outcome (RedundancyChannel × RedundancyMux × List MuxEvent)
unfolding count_missed red_call_on_diagnostic new_window deferqueue_clear
end_window h i c t m = do
  let d = count_missed c.diagnostics_packet_buffer.count t.diagnostics_data
  (m', es) ← red_call_on_diagnostic m.config.n_diagnose c.associated_id d m
  cleared ← deferqueue_clear c.diagnostics_packet_buffer
  let t' = record t { diagnostics_data = new_window h.host.now }
  returns (record c { connected_channels = set c.connected_channels i t' }, m', es)

unfoldable pub diagnose_pass :
    MuxHost
    → ℕ
    → RedundancyChannel
    → RedundancyMux
    → Outcome (RedundancyChannel × RedundancyMux × List MuxEvent)
unfolding end_window passed
diagnose_pass h i c m = do
  t ← lock c.channel_locked (or_fault (get_elem? c.connected_channels i))
  if leb m.config.n_diagnose (passed h.host.now t.diagnostics_data.start_time)
      then end_window h i c t m
      else returns (c, m, [])

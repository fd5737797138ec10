-- ===== src/Rasta/Mux/Retrieve.antt =====
-- src/rasta/c/rasta_red_multiplexer.c: the safety layer takes received packets. What other threads
-- do during a wait is left out: a call that would wait goes on.
use tfm_cloud_ixl_rasta.Prelude.{
  ℕ, zero, suc, ◌+◌, ◌==◌, ltb, true, false, Option, none, some, List, [], ◌∷◌, length, set,
  get_elem?, if◌then◌else◌,
}
use tfm_cloud_ixl_rasta.Rasta.Packet.{RastaPacket}
use tfm_cloud_ixl_rasta.Rasta.Codec.{bytes_to_rasta_packet}
use tfm_cloud_ixl_rasta.Rasta.Red.Outcome.{Outcome, returns, goes_on, ◌>>=◌, or_fault}
use tfm_cloud_ixl_rasta.Rasta.Red.Channel.{RedundancyChannel}
use tfm_cloud_ixl_rasta.Rasta.Mux.State.{
  MuxHost, MuxWorld, redundancy_mux_get_channel, get_queue_msg_count,
}

-- The first message of the queue is popped and decoded.
unfoldable pub pop_packet :
    MuxHost → MuxWorld → ℕ → RedundancyChannel → List (List ℕ) → Outcome (RastaPacket × MuxWorld)
unfolding bytes_to_rasta_packet
pop_packet h w i c [] = goes_on
pop_packet h w i c (bytes ∷ rest) =
    let (p, failed) =
      bytes_to_rasta_packet h.host.big h.host.hash h.host.hash_length h.beyond h.unset_packet
        w.lasterror bytes in
    returns (
      p,
      record w {
        lasterror = failed;
        mux = record w.mux {
          connected_channels = set w.mux.connected_channels i (record c { fifo_recv = rest });
        };
      },
    )

unfoldable pub retrieve_at : MuxHost → MuxWorld → Option ℕ → Outcome (RastaPacket × MuxWorld)
unfolding pop_packet
retrieve_at h w none = goes_on
retrieve_at h w (some i) =
    or_fault (get_elem? w.mux.connected_channels i) >>= λ c. pop_packet h w i c c.fifo_recv

unfoldable pub redundancy_mux_retrieve : MuxHost → MuxWorld → ℕ → Outcome (RastaPacket × MuxWorld)
unfolding retrieve_at redundancy_mux_get_channel
redundancy_mux_retrieve h w id = retrieve_at h w (redundancy_mux_get_channel w.mux id)

-- From the channel at the index on, the first with a message is asked for by its identifier.
unfoldable pub retrieve_loop : ℕ → MuxHost → MuxWorld → ℕ → Outcome (RastaPacket × MuxWorld)
unfolding get_queue_msg_count redundancy_mux_retrieve
retrieve_loop zero h w current_index = goes_on
retrieve_loop (suc passes) h w current_index = do
  let i = if current_index == length w.mux.connected_channels then 0 else current_index
  (n, m) ← get_queue_msg_count w.mux i
  c ← or_fault (get_elem? m.connected_channels i)
  elim (ltb 0 n) [
    | true ↦ redundancy_mux_retrieve h (record w { mux = m }) c.associated_id
    | false ↦ retrieve_loop passes h (record w { mux = m }) (i + 1)
  ]

-- One pass for each channel sees them all.
unfoldable pub redundancy_mux_retrieve_all : MuxHost → MuxWorld → Outcome (RastaPacket × MuxWorld)
unfolding retrieve_loop
redundancy_mux_retrieve_all h w = retrieve_loop (length w.mux.connected_channels) h w 0

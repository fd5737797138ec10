-- ===== src/Rasta/Red/Branch.antt =====
-- rastaredundancy_new.c: the branch that a correct packet comes to.
use tfm_cloud_ixl_rasta.Prelude.{
  ℕ, ◌+◌, ◌≤◌, ◌<◌, ◌≡◌, refl, ap, ◌==◌, ==_iff, ltb, not, true, false, ◌&&◌, some, length, set,
  get_elem?, if-true, if-false, arith,
}
use tfm_cloud_ixl_rasta.Rasta.Codec.{RastaRedundancyPacket}
use tfm_cloud_ixl_rasta.Rasta.Red.Outcome.{Outcome, or_fault, load, returns->>=, lock_free}
use tfm_cloud_ixl_rasta.Rasta.Red.Channel.{TransportChannel, Host, World, set_locked}
use tfm_cloud_ixl_rasta.Rasta.Red.Receive.{
  update_diagnostics, receive_due, by_number, receive_correct, rasta_red_f_receive,
}

abbrev pub counted_port : TransportChannel → TransportChannel
counted_port t = record t {
  diagnostics_data = record t.diagnostics_data {
    received_packets = t.diagnostics_data.received_packets + 1;
  };
}

abbrev pub counted : ℕ → World → TransportChannel → World
counted id w t = record w {
  channel = record w.channel {
    connected_channels = set w.channel.connected_channels id (counted_port t);
  };
}

module _ (host : Host) (v : World) (address id : ℕ) (p : RastaRedundancyPacket) where
  pub by_number-due :
      p.red_sequence ≡ v.channel.seq_rx
      → by_number host address p id v ≡ receive_due host address p v
  unfolding by_number
  by_number-due due =
      let e : ltb p.red_sequence v.channel.seq_rx ≡ false = ground (arith, due) in
      let d : (p.red_sequence == v.channel.seq_rx) ≡ true = (==_iff _ _).1 due in rw (e, d) refl

-- What a correct packet comes to, if its number is not too high for a new channel.
module _ (host : Host) (w : World) (address id : ℕ) (p : RastaRedundancyPacket)
    (c : w.channel.channel_locked ≡ false) (e : w.heap address ≡ some p)
    (correct : p.red_correct ≡ true) (lt : id < length w.channel.connected_channels)
    (le : p.red_sequence ≤ w.channel.seq_rx) where
  not_first : (w.channel.seq_rx == 0 && w.channel.seq_tx == 0 && not (p.red_sequence == 0)) ≡ false
  not_first = ground (arith, le)

  update_counts :
      (t : TransportChannel) (o : Outcome World)
      → get_elem? w.channel.connected_channels id ≡ some t
      → by_number host address p id (counted id (set_locked true w) t) ≡ o
      → receive_correct host address p id (set_locked true w) ≡ o
  unfolding receive_correct update_diagnostics set_locked
  update_counts t o g k =
      returns->>=
        (update_diagnostics (λ d. record d { received_packets = d.received_packets + 1 }) id
          (set_locked true w))
        _
        (returns->>= (or_fault (get_elem? w.channel.connected_channels id)) _ (ap or_fault g) refl)
        (if-false _ _ _ not_first k)

  pub reaches_choice :
      (t : TransportChannel) (o : Outcome World)
      → get_elem? w.channel.connected_channels id ≡ some t
      → by_number host address p id (counted id (set_locked true w) t) ≡ o
      → rasta_red_f_receive host address id w ≡ o
  unfolding rasta_red_f_receive set_locked load
  reaches_choice t o g k = lock_free w.channel.channel_locked _ c (
      returns->>= (or_fault (w.heap address)) _ (ap or_fault e)
        (if-true p.red_correct _ _ correct (update_counts t o g k)))

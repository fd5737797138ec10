-- ===== src/Rasta/Red/Order.antt =====
-- rastaredundancy_new.c: packets reach the receive queue in the order of their sequence numbers.
pub mod Deferred
pub mod Arrival
use tfm_cloud_ixl_rasta.Prelude.{
  ℕ, ◌*◌, ◌≤◌, arith, zero, suc, ◌+◌, ◌%◌, ◌^◌, ◌≡◌, refl, sym, ◌∙◌, ap, subst, ◌==◌, ==_iff, ltb,
  leb, not, Bool, true, false, ◌&&◌, ◌⊎◌, inl, inr, Bool-cases, some, List, get_elem?, if-elim,
}
use tfm_cloud_ixl_rasta.Rasta.Codec.{
  RastaRedundancyPacket, rasta_module_to_bytes, rasta_module_to_bytes_no_checksum, allocate_bytes,
}
use tfm_cloud_ixl_rasta.Rasta.Sr.State.{fifo_push}
use tfm_cloud_ixl_rasta.Rasta.Red.Outcome.{
  Outcome, returns, or_fault, Heap, load, >>=-returns, lock-returns, returns-injective,
}
use tfm_cloud_ixl_rasta.Rasta.Red.Queue.{
  DeferQueue, deferqueue_add, deferqueue_get, deferqueue_remove, deferqueue_contains,
  deferqueue_isfull, deferqueue_get_ts, free_data,
}
use tfm_cloud_ixl_rasta.Rasta.Red.Find.{contains-get}
use tfm_cloud_ixl_rasta.Rasta.Red.Channel.{
  DiagnosticsData, RedundancyChannel, Host, World, set_locked, push_bytes, or_zeros, encode,
  after_delivery, deliver_one, deliver_present, deliver_loop, deliver_defer_queue,
}
use tfm_cloud_ixl_rasta.Rasta.Red.Receive.{
  update_diagnostics, encode_kept, accepted, note_delay, receive_old, receive_due, receive_early,
  defer, defer_unless_full, defer_unless_present, by_number, receive_correct, rasta_red_f_receive,
  last_taken,
}

-- The bytes of a packet of the safety layer, with a new check sum or its own.
abbrev pub IsEncoded : Host → RastaRedundancyPacket → List ℕ → Type 0
IsEncoded host p bytes =
    (bytes ≡ (rasta_module_to_bytes host.big host.hash host.hash_length host.unset false p.inner).0)
    ⊎ (bytes
        ≡ (rasta_module_to_bytes_no_checksum host.big host.hash host.hash_length host.unset false
            p.inner).0)

-- From one number that is due and one receive queue to others: what is pushed are the bytes of a
-- packet among `P` with the number that is due, which then goes up by one.
pub data Forwards (host : Host) (P : RastaRedundancyPacket → Type 0) (size : ℕ) (n : ℕ)
    (queue : List (List ℕ)) : ℕ → List (List ℕ) → Type 0 where
  nothing : Forwards host P size n queue n queue
  one_more :
      {n' n'' : ℕ} {queue' queue'' : List (List ℕ)}
      → Forwards host P size n queue n' queue'
      → (p : RastaRedundancyPacket) (bytes : List ℕ) → P p
      → p.red_sequence ≡ n'
      → IsEncoded host p bytes
      → n'' ≡ (n' + 1) % 2 ^ 64
      → queue'' ≡ fifo_push size queue' bytes
      → Forwards host P size n queue n'' queue''

pub Forwards-trans :
    {host : Host} {P : RastaRedundancyPacket → Type 0} {size n n' : ℕ} {q q' : List (List ℕ)}
    {n'' : ℕ} {q'' : List (List ℕ)}
    → Forwards host P size n q n' q'
    → Forwards host P size n' q' n'' q''
    → Forwards host P size n q n'' q''
Forwards-trans f nothing = f
Forwards-trans f (one_more g p bytes k e i a b) = one_more (Forwards-trans f g) p bytes k e i a b

-- Packets that are long enough to be encoded, also without their data.
pub record IsClosed (host : Host) (P : RastaRedundancyPacket → Type 0) : Type 0 where
  pub long : (p : RastaRedundancyPacket) → P p → 28 + 8 * host.hash_length ≤ p.inner.packet_length
  pub freed : (p : RastaRedundancyPacket) → P p → P (free_data p)

-- Only such packets are in memory, and no error is noted.
pub record Holds (P : RastaRedundancyPacket → Type 0) (w : World) : Type 0 where
  pub no_error : w.lasterror ≡ false
  pub held : (a : ℕ) (p : RastaRedundancyPacket) → w.heap a ≡ some p → P p

pub record Delivered (host : Host) (P : RastaRedundancyPacket → Type 0) (w w' : World)
    : Type 0 where
  pub same_size : w'.channel.fifo_size ≡ w.channel.fifo_size
  pub forwards :
      Forwards host P w.channel.fifo_size w.channel.seq_rx w.channel.fifo_recv w'.channel.seq_rx
        w'.channel.fifo_recv
  pub holds : Holds P w'

abbrev pub Delivers : Host → (RastaRedundancyPacket → Type 0) → World → World → Type 0
Delivers host P w w' = Holds P w → Delivered host P w w'

pub Delivers-trans :
    {host : Host} {P : RastaRedundancyPacket → Type 0} {w w' w'' : World}
    → Delivers host P w w'
    → Delivers host P w' w''
    → Delivers host P w w''
Delivers-trans {host} {P} {w} {w'} {w''} f g h =
    let d = f h in
    let e = g d.holds in
    record {
      same_size = e.same_size ∙ d.same_size;
      forwards = Forwards-trans d.forwards (rw⁻¹ d.same_size e.forwards);
      holds = e.holds;
    }

-- What only changes other fields.
pub Delivers-same :
    (host : Host) (P : RastaRedundancyPacket → Type 0) (w w' : World)
    → w'.heap ≡ w.heap
    → w'.lasterror ≡ w.lasterror
    → w'.channel.fifo_size ≡ w.channel.fifo_size
    → w'.channel.seq_rx ≡ w.channel.seq_rx
    → w'.channel.fifo_recv ≡ w.channel.fifo_recv
    → Delivers host P w w'
Delivers-same host P w w' m l a b d h = record {
  same_size = a;
  forwards = rw (b, d) nothing;
  holds = record {
    no_error = l ∙ h.no_error;
    held = λ x p e. h.held x p (ap (λ (z : Heap). z x) (sym m) ∙ e);
  };
}

-- A packet that is long enough is encoded, and no error is noted.
module _ (host : Host) (failed : Bool) (p : RastaRedundancyPacket) (e : failed ≡ false)
    (long : 28 + 8 * host.hash_length ≤ p.inner.packet_length) where
  pub encode-IsEncoded :
      ((encode host failed p.inner).1 ≡ false) × IsEncoded host p (encode host failed p.inner).0
  unfolding encode rasta_module_to_bytes allocate_bytes
  encode-IsEncoded = rw e (ground arith, inl refl)

  pub encode_kept-IsEncoded :
      ((encode_kept host failed p.inner).1 ≡ false)
      × IsEncoded host p (encode_kept host failed p.inner).0
  unfolding encode_kept rasta_module_to_bytes_no_checksum allocate_bytes
  encode_kept-IsEncoded = rw e (ground arith, inr refl)

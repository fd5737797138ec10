-- ===== src/Rasta/Red/Dangling.antt =====
-- rastadeferqueue.c and rastaredundancy_new.c: a deferred packet whose memory was freed, which is what
-- `receive_packet` of the multiplexer does in the end with each packet that it gave to a channel.
use tfm_cloud_ixl_rasta.Prelude.{
  ℕ, ◌+◌, ◌%◌, ◌^◌, set, ◌<◌, ◌≡◌, refl, ◌∙◌, ap, ◌==◌, true, false, Bool-cases, inl, inr, none,
  some, length, get_elem?, get_elem?-lt, arith,
}
use tfm_cloud_ixl_rasta.Rasta.Codec.{RastaRedundancyPacket}
use tfm_cloud_ixl_rasta.Rasta.Red.Outcome.{
  returns, faults, or_fault, Heap, load, returns->>=, faults->>=, lock_free,
}
use tfm_cloud_ixl_rasta.Rasta.Red.Queue.{
  PacketWrapper, DeferQueue, Qsort, sort, find_in, find_index, deferqueue_add, deferqueue_contains,
}
use tfm_cloud_ixl_rasta.Rasta.Red.Channel.{
  Host, World, set_locked, push_bytes, deliver_loop, deliver_defer_queue,
}
use tfm_cloud_ixl_rasta.Rasta.Red.Receive.{accepted, receive_due, rasta_red_f_receive}
use tfm_cloud_ixl_rasta.Rasta.Red.Branch.{counted, by_number-due, reaches_choice}

-- The first element points to memory that was freed.
pub record Dangles (h : Heap) (q : DeferQueue) : Type 0 where
  pub first : PacketWrapper
  pub stands : get_elem? q.elements 0 ≡ some first
  pub freed : ℕ
  pub points : first.packet ≡ some freed
  pub gone : h freed ≡ none

contains-faults :
    (h : Heap) (q : DeferQueue) (s : ℕ)
    → q.locked ≡ false
    → Dangles h q
    → deferqueue_contains h q s ≡ faults
unfolding deferqueue_contains find_index find_in load
contains-faults h q s l d =
    let searched : find_in h q s d.first.packet ≡ faults =
      ap (find_in h q s) d.points ∙ faults->>= (or_fault (h d.freed)) _ (ap or_fault d.gone) in
    lock_free q.locked _ l (
      faults->>= (find_index h q s) _
        (returns->>= (or_fault (get_elem? q.elements 0)) _ (ap or_fault d.stands) searched))

pub add-returns :
    (qsort : Qsort) (q : DeferQueue) (a ts : ℕ)
    → q.locked ≡ false
    → (q' : DeferQueue) × (deferqueue_add qsort q a ts ≡ returns q')
unfolding deferqueue_add
add-returns qsort q a ts l = elim (Bool-cases (q.count == q.max_count)) [
  | inl full ↦ (q, lock_free q.locked _ l (rw full refl))
  | inr room ↦
      let element : PacketWrapper = record { packet = some a; received_timestamp = ts } in
      (
        sort qsort (record q {
          elements = set q.elements q.count element;
          count = (q.count + 1) % 2 ^ 32;
        }),
        lock_free q.locked _ l (rw room refl),
      )
]

due-faults :
    (host : Host) (v : World) (address : ℕ) (p : RastaRedundancyPacket)
    → v.channel.diagnostics_packet_buffer.locked ≡ false
    → v.channel.defer_q.locked ≡ false
    → Dangles v.heap v.channel.defer_q
    → receive_due host address p v ≡ faults
unfolding receive_due deliver_defer_queue deliver_loop accepted push_bytes set_locked
due-faults host v address p bl ql d =
    let (buffer, e) =
      add-returns host.qsort v.channel.diagnostics_packet_buffer address host.now bl in
    let u = set_locked true (set_locked false (accepted host p v buffer)) in
    returns->>= (deferqueue_add host.qsort v.channel.diagnostics_packet_buffer address host.now) _ e
      (faults->>= (deliver_defer_queue host (set_locked false (accepted host p v buffer))) _ (
        faults->>= (deferqueue_contains u.heap u.channel.defer_q u.channel.seq_rx) _
          (contains-faults u.heap u.channel.defer_q u.channel.seq_rx ql d)))

-- While a packet that was deferred first is no longer in memory, the packet that is due makes the
-- channel follow the pointer to it: no packet is taken any more.
pub rasta_red_f_receive-faults :
    (host : Host) (w : World) (address id : ℕ) (p : RastaRedundancyPacket)
    → w.channel.channel_locked ≡ false
    → w.channel.diagnostics_packet_buffer.locked ≡ false
    → w.channel.defer_q.locked ≡ false
    → w.heap address ≡ some p
    → p.red_correct ≡ true
    → id < length w.channel.connected_channels
    → p.red_sequence ≡ w.channel.seq_rx
    → Dangles w.heap w.channel.defer_q
    → rasta_red_f_receive host address id w ≡ faults
unfolding set_locked
rasta_red_f_receive-faults host w address id p c bl ql e correct lt due d =
    let (t, g) = get_elem?-lt w.channel.connected_channels id lt in
    let v = counted id (set_locked true w) t in
    reaches_choice host w address id p c e correct lt (omega (arith, due)) t faults g
      (by_number-due host v address id p due ∙ due-faults host v address p bl ql d)

-- ===== src/Rasta/Red/Due.antt =====
-- rastaredundancy_new.c: the packet that is due goes into the receive queue, on a channel that never
-- deferred a packet.
use tfm_cloud_ixl_rasta.Prelude.{
  ℕ, ◌+◌, ◌%◌, ◌^◌, ◌<◌, ◌≡◌, ◌≢◌, refl, ◌∙◌, ap, ==_of_ne, true, false, none, some, List, [], ◌∷◌,
  ◌++◌, length, get_elem?, get_elem?-lt, arith,
}
use tfm_cloud_ixl_rasta.Rasta.Codec.{RastaRedundancyPacket}
use tfm_cloud_ixl_rasta.Rasta.Sr.State.{fifo_push}
use tfm_cloud_ixl_rasta.Rasta.Red.Outcome.{returns, or_fault, Heap, returns->>=, lock_free}
use tfm_cloud_ixl_rasta.Rasta.Red.Queue.{
  PacketWrapper, DeferQueue, find_in, find_index, deferqueue_add, deferqueue_contains,
}
use tfm_cloud_ixl_rasta.Rasta.Red.Channel.{
  TransportChannel, Host, World, set_locked, push_bytes, deliver_loop, deliver_present,
  deliver_defer_queue,
}
use tfm_cloud_ixl_rasta.Rasta.Red.Receive.{encode_kept, accepted, receive_due, rasta_red_f_receive}
use tfm_cloud_ixl_rasta.Rasta.Red.Branch.{counted, by_number-due, reaches_choice}
use tfm_cloud_ixl_rasta.Rasta.Red.Dangling.{add-returns}

fifo_push_room :
    {A : Type 0} (size : ℕ) (xs : List A) (x : A)
    → length xs ≢ size
    → fifo_push size xs x ≡ xs ++ (x ∷ [])
unfolding fifo_push
fifo_push_room size xs x ne = rw (==_of_ne (length xs) size ne) refl

-- The first element holds NULL, as it does until a packet is added.
pub record NeverUsed (q : DeferQueue) : Type 0 where
  pub first : PacketWrapper
  pub stands : get_elem? q.elements 0 ≡ some first
  pub null : first.packet ≡ none
  pub free : q.locked ≡ false

contains_nothing :
    (h : Heap) (q : DeferQueue) (s : ℕ) → NeverUsed q → deferqueue_contains h q s ≡ returns false
unfolding deferqueue_contains find_index find_in
contains_nothing h q s u = lock_free q.locked _ u.free (
    returns->>= (find_index h q s) _
      (returns->>= (or_fault (get_elem? q.elements 0)) _ (ap or_fault u.stands)
        (ap (find_in h q s) u.null))
      refl)

-- A correct packet that is due, given to a channel that never deferred a packet and has room in its
-- receive queue, whatever became of the packets before it: the call returns, the packet's bytes are
-- the last in the receive queue, and the next number is due.
module _ (host : Host) (w : World) (address id : ℕ) (p : RastaRedundancyPacket)
    (c : w.channel.channel_locked ≡ false) (l : w.channel.diagnostics_packet_buffer.locked ≡ false)
    (unused : NeverUsed w.channel.defer_q) (e : w.heap address ≡ some p)
    (correct : p.red_correct ≡ true) (lt : id < length w.channel.connected_channels)
    (due : p.red_sequence ≡ w.channel.seq_rx)
    (room : length w.channel.fifo_recv ≢ w.channel.fifo_size) where
  abbrev bytes : List ℕ
  bytes = (encode_kept host w.lasterror p.inner).0

  due_taken :
      (t : TransportChannel)
      → let v = counted id (set_locked true w) t in
        (buffer : DeferQueue) × (receive_due host address p v
          ≡ returns
              (set_locked false (set_locked true (set_locked false (accepted host p v buffer)))))
  unfolding receive_due deliver_defer_queue deliver_loop deliver_present accepted push_bytes
      set_locked
  due_taken t =
      let v = counted id (set_locked true w) t in
      let (buffer, added) =
        add-returns host.qsort v.channel.diagnostics_packet_buffer address host.now l in
      let u = set_locked false (accepted host p v buffer) in
      (
        buffer,
        returns->>= (deferqueue_add host.qsort v.channel.diagnostics_packet_buffer address host.now)
            _ added
            (returns->>= (deliver_defer_queue host u) _
              (returns->>= (deferqueue_contains u.heap u.channel.defer_q u.channel.seq_rx) _
                (contains_nothing u.heap u.channel.defer_q u.channel.seq_rx unused) refl)
              refl),
      )

  pub due-pushes :
      (w' : World) × (rasta_red_f_receive host address id w ≡ returns w')
      × (w'.channel.fifo_recv ≡ w.channel.fifo_recv ++ (bytes ∷ []))
      × (w'.channel.seq_rx ≡ (w.channel.seq_rx + 1) % 2 ^ 64)
      × (w'.channel.defer_q ≡ w.channel.defer_q)
      × (w'.channel.associated_id ≡ w.channel.associated_id)
  unfolding set_locked accepted push_bytes
  due-pushes =
      let (t, g) = get_elem?-lt w.channel.connected_channels id lt in
      let v = counted id (set_locked true w) t in
      let (buffer, r) = due_taken t in
      (
        set_locked false (set_locked true (set_locked false (accepted host p v buffer))),
        reaches_choice host w address id p c e correct lt (omega (arith, due)) t _ g
            (by_number-due host v address id p due ∙ r),
        fifo_push_room w.channel.fifo_size w.channel.fifo_recv bytes room,
        refl,
        refl,
        refl,
      )

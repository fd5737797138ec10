-- ===== src/Rasta/Red/Order/Arrival.antt =====
-- rastaredundancy_new.c: each branch of `rasta_red_f_receive` keeps that order.
use tfm_cloud_ixl_rasta.Prelude.{
  ℕ, ◌≡◌, refl, subst, ◌==◌, ==_iff, ltb, leb, not, Bool, true, false, ◌&&◌, inl, inr, Bool-cases,
  some, get_elem?, if-elim,
}
use tfm_cloud_ixl_rasta.Rasta.Codec.{RastaRedundancyPacket}
use tfm_cloud_ixl_rasta.Rasta.Red.Outcome.{
  Outcome, returns, or_fault, or_fault-returns, load, >>=-returns, lock-returns, returns-injective,
}
use tfm_cloud_ixl_rasta.Rasta.Red.Queue.{
  DeferQueue, deferqueue_add, deferqueue_contains, deferqueue_isfull, deferqueue_get_ts,
}
use tfm_cloud_ixl_rasta.Rasta.Red.Channel.{
  DiagnosticsData, Host, World, set_locked, push_bytes, deliver_defer_queue,
}
use tfm_cloud_ixl_rasta.Rasta.Red.Receive.{
  update_diagnostics, encode_kept, accepted, note_delay, receive_old, receive_due, receive_early,
  defer, defer_unless_full, defer_unless_present, by_number, receive_correct, rasta_red_f_receive,
  last_taken,
}
use tfm_cloud_ixl_rasta.Rasta.Red.Order.{
  IsClosed, Delivers, Delivers-same, Delivers-trans, nothing, one_more, encode_kept-IsEncoded,
}
use tfm_cloud_ixl_rasta.Rasta.Red.Order.Deferred.{deliver_defer_queue-Delivers}

module _ (host : Host) (P : RastaRedundancyPacket → Type 0) (closed : IsClosed host P) where
  -- What only changes other fields.
  module _ (w : World) where
    abbrev Same : World → Type 0
    Same w' = Delivers host P w w'

    accepted-Delivers :
        (p : RastaRedundancyPacket) (buffer : DeferQueue)
        → P p
        → p.red_sequence ≡ w.channel.seq_rx
        → Same (accepted host p w buffer)
    unfolding accepted push_bytes
    accepted-Delivers p buffer k n h =
        let (l, i) = encode_kept-IsEncoded host w.lasterror p h.no_error (closed.long p k) in
        record {
          same_size = refl;
          forwards = one_more nothing p (encode_kept host w.lasterror p.inner).0 k n i refl refl;
          holds = record { no_error = l; held = h.held };
        }

    set_locked-Delivers : (v : World) (b : Bool) → Same v → Same (set_locked b v)
    unfolding set_locked
    set_locked-Delivers v b d =
        Delivers-trans d (Delivers-same host P v (set_locked b v) refl refl refl refl refl)

    receive_due-Delivers :
        (address : ℕ) (p : RastaRedundancyPacket) (w' : World)
        → P p
        → p.red_sequence ≡ w.channel.seq_rx
        → receive_due host address p w ≡ returns w'
        → Same w'
    unfolding receive_due
    receive_due-Delivers address p w' k n e =
        let (buffer, e1, e2) =
          >>=-returns
            (deferqueue_add host.qsort w.channel.diagnostics_packet_buffer address host.now) _ e in
        let (v, e3, e4) =
          >>=-returns (deliver_defer_queue host (set_locked false (accepted host p w buffer))) _
            e2 in
        let a =
          set_locked-Delivers (accepted host p w buffer) false (accepted-Delivers p buffer k n) in
        let d = deliver_defer_queue-Delivers host P closed _ v e3 in
        subst (λ (x : World). Same x) (returns-injective e4)
          (set_locked-Delivers v false (Delivers-trans a d))

    -- What a call returns that only changes other fields.
    ends : (v w' : World) → Same v → returns v ≡ returns w' → Same w'
    ends v w' d e = subst (λ (x : World). Same x) (returns-injective e) d

    same : Same w
    same = Delivers-same host P w w refl refl refl refl refl

    same_by :
        {v w' : World}
        → returns v ≡ returns w'
        → v.heap ≡ w.heap
        → v.lasterror ≡ w.lasterror
        → v.channel.fifo_size ≡ w.channel.fifo_size
        → v.channel.seq_rx ≡ w.channel.seq_rx
        → v.channel.fifo_recv ≡ w.channel.fifo_recv
        → Same w'
    same_by {v} {w'} e m l a b d = ends v w' (Delivers-same host P w v m l a b d) e

    update_diagnostics-Same :
        (f : DiagnosticsData → DiagnosticsData) (id : ℕ) (w' : World)
        → update_diagnostics f id w ≡ returns w'
        → Same w'
    unfolding update_diagnostics
    update_diagnostics-Same f id w' e =
        let (t, e1, e2) = >>=-returns (or_fault (get_elem? w.channel.connected_channels id)) _ e in
        same_by e2 refl refl refl refl refl

    note_delay-Same : (id ts : ℕ) (w' : World) → note_delay host id ts w ≡ returns w' → Same w'
    unfolding note_delay
    note_delay-Same id ts w' e = elim (Bool-cases (ts == 0)) [
      | inl z ↦ ends w w' same (rw z at e)
      | inr z ↦ update_diagnostics-Same _ id w' (rw z at e)
    ]

    defer-Same : (address : ℕ) (w' : World) → defer host address w ≡ returns w' → Same w'
    unfolding defer set_locked
    defer-Same address w' e =
        let (q, e1, e2) =
          >>=-returns (deferqueue_add host.qsort w.channel.defer_q address host.now) _ e in
        same_by e2 refl refl refl refl refl

    defer_unless_full-Same :
        (address : ℕ) (w' : World) (full : Bool)
        → defer_unless_full host address w full ≡ returns w'
        → Same w'
    unfolding defer_unless_full
    defer_unless_full-Same address w' true e = ends _ w' (set_locked-Delivers w false same) e
    defer_unless_full-Same address w' false e = defer-Same address w' e

    defer_unless_present-Same :
        (address : ℕ) (w' : World) (present : Bool)
        → defer_unless_present host address w present ≡ returns w'
        → Same w'
    unfolding defer_unless_present
    defer_unless_present-Same address w' true e = ends _ w' (set_locked-Delivers w false same) e
    defer_unless_present-Same address w' false e =
        let (full, e1, e2) =
          >>=-returns (deferqueue_isfull w.channel.defer_q) (defer_unless_full host address w) e in
        defer_unless_full-Same address w' full e2

    receive_early-Same :
        (address : ℕ) (p : RastaRedundancyPacket) (w' : World)
        → receive_early host address p w ≡ returns w'
        → Same w'
    unfolding receive_early
    receive_early-Same address p w' e =
        let (present, e1, e2) =
          >>=-returns (deferqueue_contains w.heap w.channel.defer_q p.red_sequence)
            (defer_unless_present host address w) e in
        defer_unless_present-Same address w' present e2

  receive_old-Delivers :
      (w : World) (p : RastaRedundancyPacket) (id : ℕ) (w' : World)
      → receive_old host p id w ≡ returns w'
      → Delivers host P w w'
  unfolding receive_old
  receive_old-Delivers w p id w' e =
      let (ts, e1, e2) =
        >>=-returns (deferqueue_get_ts w.heap w.channel.diagnostics_packet_buffer p.red_sequence) _
          e in
      let (v, e3, e4) = >>=-returns (note_delay host id ts w) _ e2 in
      subst (λ (x : World). Same w x) (returns-injective e4)
        (set_locked-Delivers w v false (note_delay-Same w id ts v e3))

  by_number-Delivers :
      (w : World) (address : ℕ) (p : RastaRedundancyPacket) (id : ℕ) (w' : World)
      → P p
      → by_number host address p id w ≡ returns w'
      → Delivers host P w w'
  unfolding by_number
  by_number-Delivers w address p id w' k =
      if-elim Goal (ltb p.red_sequence w.channel.seq_rx) (λ _. receive_old-Delivers w p id w')
        (λ _.
          if-elim Goal (p.red_sequence == w.channel.seq_rx)
            (λ due. receive_due-Delivers w address p w' k ((==_iff _ _).0 due))
            (λ _.
              if-elim Goal (leb p.red_sequence (last_taken w.channel))
                (λ _. receive_early-Same w address p w')
                (λ _. ends w (set_locked false w) w' (set_locked-Delivers w w false (same w)))))
    where
      Goal : Outcome World → Type 0
      Goal m = m ≡ returns w' → Delivers host P w w'

  receive_correct-Delivers :
      (w : World) (address : ℕ) (p : RastaRedundancyPacket) (id : ℕ) (w' : World)
      → P p
      → receive_correct host address p id w ≡ returns w'
      → Delivers host P w w'
  unfolding receive_correct
  receive_correct-Delivers w address p id w' k e =
      let (v, e1, e2) = >>=-returns (update_diagnostics _ id w) _ e in
      let first = v.channel.seq_rx == 0 && v.channel.seq_tx == 0 && not (p.red_sequence == 0) in
      Delivers-trans (update_diagnostics-Same w _ id v e1) (
        if-elim (λ m. m ≡ returns w' → Delivers host P v w') first
          (λ _. ends v (set_locked false v) w' (set_locked-Delivers v v false (same v)))
          (λ _. by_number-Delivers v address p id w' k) e2)

  pub rasta_red_f_receive-Delivers :
      (w : World) (address id : ℕ) (w' : World)
      → rasta_red_f_receive host address id w ≡ returns w'
      → Delivers host P w w'
  unfolding rasta_red_f_receive load set_locked
  rasta_red_f_receive-Delivers w address id w' e h =
      let (l, e1) = lock-returns w.channel.channel_locked _ e in
      let w1 = set_locked true w in
      let (p, e2, e3) = >>=-returns (load w1.heap (some address)) _ e1 in
      let k = h.held address p (or_fault-returns (w.heap address) e2) in
      Delivers-trans (set_locked-Delivers w w true (same w))
        (if-elim (λ m. m ≡ returns w' → Delivers host P w1 w') p.red_correct
          (λ _. receive_correct-Delivers w1 address p id w' k)
          (λ _. ends w1 (set_locked false w1) w' (set_locked-Delivers w1 w1 false (same w1))) e3)
        h

-- ===== src/Rasta/Red/Sound/Arrivals.antt =====
-- rastaredundancy_new.c: `rasta_red_f_receive` returns, branch by branch.
use tfm_cloud_ixl_rasta.Prelude.{
  ℕ, ◌+◌, ◌%◌, ◌^◌, ◌<◌, ◌≡◌, refl, ◌∙◌, ap, ◌==◌, ==_iff, ltb, leb, not, Bool, true, false, ◌&&◌,
  some, if-elim, arith,
}
use tfm_cloud_ixl_rasta.Rasta.Codec.{RastaRedundancyPacket}
use tfm_cloud_ixl_rasta.Rasta.Red.Outcome.{returns, or_fault, load, returns->>=, lock_free}
use tfm_cloud_ixl_rasta.Rasta.Red.Queue.{
  DeferQueue, deferqueue_add, deferqueue_contains, deferqueue_isfull, deferqueue_get_ts,
}
use tfm_cloud_ixl_rasta.Rasta.Red.Sound.{Permutes, number, is_number, Keeps, live_at, IsQueue}
use tfm_cloud_ixl_rasta.Rasta.Red.Sound.Queues.{
  contains-returns, deferqueue_add-IsQueue, get_ts-returns,
}
use tfm_cloud_ixl_rasta.Rasta.Red.Sound.Channels.{
  NoneStale, IsSound, Steps, Steps-refl, Steps-trans, set_locked-Steps, deliver_defer_queue-Steps,
}
use tfm_cloud_ixl_rasta.Rasta.Red.Channel.{Host, World, set_locked, push_bytes, deliver_defer_queue}
use tfm_cloud_ixl_rasta.Rasta.Red.Receive.{
  update_diagnostics, note_delay, receive_old, accepted, receive_due, defer, defer_unless_full,
  defer_unless_present, receive_early, last_taken, by_number, receive_correct, rasta_red_f_receive,
}
use tfm_cloud_ixl_rasta.Rasta.Red.Sound.Received.{
  Received, Returns, unlock-Received, points_to_past_later, update_diagnostics-Steps,
  note_delay-Steps,
}

module _ (host : Host) (perm : Permutes host.qsort) (w : World) (sd : IsSound w)
    (l : w.channel.diagnostics_packet_buffer.locked ≡ false) where
  receive_old-Returns :
      (p : RastaRedundancyPacket) (id : ℕ)
      → id < w.channel.transport_channel_count
      → Returns w (receive_old host p id w)
  unfolding receive_old
  receive_old-Returns p id lt =
      let buffer = w.channel.diagnostics_packet_buffer in
      let (t, e) = get_ts-returns w.heap buffer sd.noted p.red_sequence l in
      let (w', e', st) = note_delay-Steps host perm w sd id t lt in
      (
        set_locked false w',
        returns->>= (deferqueue_get_ts w.heap buffer p.red_sequence) _ e
            (returns->>= (note_delay host id t w) _ e' refl),
        unlock-Received host perm w w' st l,
      )

  -- The number goes up by one.
  accepted-IsSound :
      (p : RastaRedundancyPacket) (buffer : DeferQueue)
      → w.channel.seq_rx < 2 ^ 32
      → IsQueue w.heap buffer
      → IsSound (accepted host p w buffer)
  unfolding accepted push_bytes NoneStale
  accepted-IsSound p buffer b v =
      let up : (w.channel.seq_rx + 1) % 2 ^ 64 ≡ w.channel.seq_rx + 1 = omega (arith, b) in
      record {
        deferred = sd.deferred;
        noted = v;
        free = sd.free;
        none_stale = λ z e g.
            points_to_past_later w.heap e.packet w.channel.seq_rx ((w.channel.seq_rx + 1) % 2 ^ 64)
              (omega (arith, up)) (sd.none_stale z e g);
        bounded = omega (arith, b, up);
        ports = sd.ports;
      }

  receive_due-Returns :
      (address : ℕ) (p : RastaRedundancyPacket)
      → live_at w.heap (some address) ≡ true
      → p.red_sequence ≡ w.channel.seq_rx
      → p.red_sequence < 2 ^ 32
      → Returns w (receive_due host address p w)
  unfolding receive_due accepted push_bytes set_locked
  receive_due-Returns address p k due b =
      let (buffer, e, v, bl, _) =
        deferqueue_add-IsQueue w.heap w.channel.diagnostics_packet_buffer sd.noted host.qsort
          address host.now perm l k in
      let a = accepted host p w buffer in
      let sa = accepted-IsSound p buffer (omega (arith, due, b)) v in
      let st = set_locked-Steps host perm a a false (Steps-refl a sa) in
      let (u, eu, su) = deliver_defer_queue-Steps host perm (set_locked false a) st.sound refl in
      let r = unlock-Received host perm a u (Steps-trans a (set_locked false a) u st su) bl in
      (
        set_locked false u,
        returns->>= (deferqueue_add host.qsort w.channel.diagnostics_packet_buffer address host.now)
            _ e (returns->>= (deliver_defer_queue host (set_locked false a)) _ eu refl),
        record {
          sound = r.sound;
          keeps = r.keeps;
          same_ports = r.same_ports;
          same_id = r.same_id;
          unlocked = refl;
          buffer_free = ap (λ (q : DeferQueue). q.locked) su.same_buffer ∙ bl;
        },
      )

  -- Nothing is done.
  dropped : Returns w (returns (set_locked false w))
  dropped = (set_locked false w, refl, unlock-Received host perm w w (Steps-refl w sd) l)

  defer-Returns :
      (address : ℕ) → live_at w.heap (some address) ≡ true → Returns w (defer host address w)
  unfolding defer set_locked Keeps NoneStale
  defer-Returns address k =
      let (q, e, v, f, pos) =
        deferqueue_add-IsQueue w.heap w.channel.defer_q sd.deferred host.qsort address host.now perm
          sd.free k in
      let added : World = record w { channel = record w.channel { defer_q = q } } in
      let sa : IsSound added = record {
        deferred = v;
        noted = sd.noted;
        free = f;
        none_stale = λ z. absurd (omega (arith, z, pos));
        bounded = sd.bounded;
        ports = sd.ports;
      } in
      let r = unlock-Received host perm added added (Steps-refl added sa) l in
      (
        set_locked false added,
        returns->>= (deferqueue_add host.qsort w.channel.defer_q address host.now) _ e refl,
        record {
          sound = r.sound;
          keeps = λ a. refl;
          same_ports = refl;
          same_id = refl;
          unlocked = refl;
          buffer_free = l;
        },
      )

  defer_unless_full-Returns :
      (address : ℕ) (full : Bool)
      → live_at w.heap (some address) ≡ true
      → Returns w (defer_unless_full host address w full)
  unfolding defer_unless_full
  defer_unless_full-Returns address true k = dropped
  defer_unless_full-Returns address false k = defer-Returns address k

  defer_unless_present-Returns :
      (address : ℕ) (present : Bool)
      → live_at w.heap (some address) ≡ true
      → Returns w (defer_unless_present host address w present)
  unfolding defer_unless_present deferqueue_isfull
  defer_unless_present-Returns address true k = dropped
  defer_unless_present-Returns address false k =
      let q = w.channel.defer_q in
      let (w', e, r) = defer_unless_full-Returns address (q.count == q.max_count) k in
      (
        w',
        returns->>= (deferqueue_isfull q) (defer_unless_full host address w)
            (lock_free q.locked _ sd.free refl) e,
        r,
      )

  receive_early-Returns :
      (address : ℕ) (p : RastaRedundancyPacket)
      → live_at w.heap (some address) ≡ true
      → Returns w (receive_early host address p w)
  unfolding receive_early
  receive_early-Returns address p k =
      let (present, f) =
        contains-returns w.heap w.channel.defer_q sd.deferred p.red_sequence sd.free in
      let (w', e, r) = defer_unless_present-Returns address present k in
      (
        w',
        returns->>= (deferqueue_contains w.heap w.channel.defer_q p.red_sequence)
            (defer_unless_present host address w) f e,
        r,
      )

  by_number-Returns :
      (address id : ℕ) (p : RastaRedundancyPacket)
      → live_at w.heap (some address) ≡ true
      → p.red_sequence < 2 ^ 32
      → id < w.channel.transport_channel_count
      → Returns w (by_number host address p id w)
  unfolding by_number
  by_number-Returns address id p k b lt =
      if-elim (Returns w) (ltb p.red_sequence w.channel.seq_rx) (λ _. receive_old-Returns p id lt)
        (λ _.
          if-elim (Returns w) (p.red_sequence == w.channel.seq_rx)
            (λ due. receive_due-Returns address p k ((==_iff _ _).0 due) b)
            (λ _.
              if-elim (Returns w) (leb p.red_sequence (last_taken w.channel))
                (λ _. receive_early-Returns address p k) (λ _. dropped)))

Received-trans : (w v u : World) → Steps w v → Received v u → Received w u
unfolding Keeps
Received-trans w v u st r = record {
  sound = r.sound;
  keeps = λ a. r.keeps a ∙ st.keeps a;
  same_ports = r.same_ports ∙ st.same_ports;
  same_id = r.same_id ∙ st.same_id;
  unlocked = r.unlocked;
  buffer_free = r.buffer_free;
}

receive_correct-Returns :
    (host : Host) (perm : Permutes host.qsort) (w : World)
    → IsSound w
    → w.channel.diagnostics_packet_buffer.locked ≡ false
    → (address id : ℕ) (p : RastaRedundancyPacket) → w.heap address ≡ some p
    → p.red_sequence < 2 ^ 32
    → id < w.channel.transport_channel_count
    → Returns w (receive_correct host address p id w)
unfolding receive_correct Keeps live_at is_number
receive_correct-Returns host perm w sd l address id p e b lt =
    let (v, ev, st, es, _) =
      update_diagnostics-Steps host perm w sd
        (λ d. record d { received_packets = d.received_packets + 1 }) id lt in
    let lv = ap (λ (q : DeferQueue). q.locked) st.same_buffer ∙ l in
    let k : live_at v.heap (some address) ≡ true =
      ap is_number (st.keeps address ∙ ap number e) ∙ ground (arith, b) in
    let (u, eu, r) =
      if-elim (Returns v)
        (v.channel.seq_rx == 0 && v.channel.seq_tx == 0 && not (p.red_sequence == 0))
        (λ _. dropped host perm v st.sound lv)
        (λ _. by_number-Returns host perm v st.sound lv address id p k b (rw (st.same_ports) lt)) in
    (u, returns->>= (update_diagnostics _ id w) _ ev eu, Received-trans w v u st r)

-- A channel whose queues are sound and unlocked takes every packet in memory and returns.
pub rasta_red_f_receive-Returns :
    (host : Host) (perm : Permutes host.qsort) (w : World)
    → IsSound w
    → w.channel.channel_locked ≡ false
    → w.channel.diagnostics_packet_buffer.locked ≡ false
    → (address id : ℕ) (p : RastaRedundancyPacket) → w.heap address ≡ some p
    → p.red_sequence < 2 ^ 32
    → id < w.channel.transport_channel_count
    → (w' : World) × (rasta_red_f_receive host address id w ≡ returns w') × Received w w'
unfolding rasta_red_f_receive set_locked load
rasta_red_f_receive-Returns host perm w sd c l address id p e b lt =
    let v = set_locked true w in
    let st = set_locked-Steps host perm w w true (Steps-refl w sd) in
    let (u, eu, r) =
      if-elim (Returns v) p.red_correct
        (λ _. receive_correct-Returns host perm v st.sound l address id p e b lt)
        (λ _. dropped host perm v st.sound l) in
    (
      u,
      lock_free w.channel.channel_locked _ c
          (returns->>= (or_fault (w.heap address)) _ (ap or_fault e) eu),
      Received-trans w v u st r,
    )

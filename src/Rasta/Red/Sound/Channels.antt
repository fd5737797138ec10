-- ===== src/Rasta/Red/Sound/Channels.antt =====
-- rastaredundancy_new.c: on a channel whose packets are all in memory the handling of a received
-- packet returns.
use tfm_cloud_ixl_rasta.Prelude.{
  ℕ, zero, suc, ◌+◌, ◌%◌, ◌^◌, ◌≤◌, ◌<◌, ◌≡◌, refl, sym, ◌∙◌, ap, ◌==◌, ==_iff, ltb, Bool, true,
  false, Bool-cases, inl, inr, Option, none, some, length, get_elem?, arith,
}
use tfm_cloud_ixl_rasta.Rasta.Codec.{RastaRedundancyPacket}
use tfm_cloud_ixl_rasta.Rasta.Red.Outcome.{returns, Heap, returns->>=, lock_free}
use tfm_cloud_ixl_rasta.Rasta.Red.Queue.{
  PacketWrapper, DeferQueue, find_index, deferqueue_contains, deferqueue_get, deferqueue_remove,
}
use tfm_cloud_ixl_rasta.Rasta.Red.Find.{contains-get, contains-found, find_index-some}
use tfm_cloud_ixl_rasta.Rasta.Red.Sound.{
  Permutes, number, is_number, Keeps, live_at, is_live, IsQueue, IsQueue-Keeps,
}
use tfm_cloud_ixl_rasta.Rasta.Red.Sound.Queues.{
  first, some-injective, contains-returns, Removed, deferqueue_remove-Removed,
}
use tfm_cloud_ixl_rasta.Rasta.Red.Channel.{
  Host, World, set_locked, push_bytes, after_delivery, deliver_one, deliver_present, deliver_loop,
  deliver_defer_queue,
}

-- The number of the packet that a pointer leads to, if any, is past.
unfoldable pub is_past : Option ℕ → ℕ → Bool
is_past none s = true
is_past (some n) s = ltb n s

unfoldable pub points_to_past : Heap → Option ℕ → ℕ → Bool
unfolding is_past
points_to_past h none s = true
points_to_past h (some a) s = is_past (number (h a)) s

-- What stays in the first place of an empty queue has a number that is past.
unfoldable pub NoneStale : Heap → DeferQueue → ℕ → Type 0
NoneStale h q s =
    q.count ≡ 0
    → (e : PacketWrapper) → get_elem? q.elements 0 ≡ some e
    → points_to_past h e.packet s ≡ true

pub record IsSound (w : World) : Type 0 where
  pub deferred : IsQueue w.heap w.channel.defer_q
  pub noted : IsQueue w.heap w.channel.diagnostics_packet_buffer
  pub free : w.channel.defer_q.locked ≡ false
  pub none_stale : NoneStale w.heap w.channel.defer_q w.channel.seq_rx
  pub bounded : w.channel.seq_rx ≤ 2 ^ 32
  pub ports : length w.channel.connected_channels ≡ w.channel.transport_channel_count

points_to_packet :
    (h : Heap) (o : Option ℕ) (a s : ℕ) (n : Option ℕ)
    → o ≡ some a
    → number (h a) ≡ n
    → points_to_past h o s ≡ is_past n s
unfolding points_to_past
points_to_packet h o a s n e r = rw (e) (ap (λ x. is_past x s) r)

-- A number that is found first in a queue: that queue is not empty, and the number has 32 bits.
module _ (h : Heap) (q : DeferQueue) (s : ℕ) (f : find_index h q s ≡ returns (some 0)) where
  found_first :
      (e : PacketWrapper) × (a : ℕ) × (get_elem? q.elements 0 ≡ some e)
      × (e.packet ≡ some a)
      × (number (h a) ≡ some s)
  found_first =
      let (e, a, p, g, ep, r, _, n) = find_index-some h q s 0 f in
      (e, a, g, ep, ap number r ∙ ap some n)

  not_past : NoneStale h q s → q.count ≡ 0 → ⊥
  unfolding NoneStale is_past
  not_past stale z =
      let (e, a, g, ep, r) = found_first in
      let past : ltb s s ≡ true =
        sym (points_to_packet h e.packet a s (some s) ep r) ∙ stale z e g in
      ground (arith, past)

  found_bounded : IsQueue h q → s < 2 ^ 32
  unfolding is_live live_at is_number
  found_bounded v =
      let (e, a, g, ep, r) = found_first in
      let (d, gd, l) = first h q v in
      let de : d.packet ≡ e.packet = ap (λ x. x.packet) (some-injective (sym gd ∙ g)) in
      let b : is_number (some s) ≡ true = sym (ap (live_at h) (de ∙ ep) ∙ ap is_number r) ∙ l in
      ground (arith, b)

count_pos :
    (h : Heap) (q : DeferQueue) (s : ℕ)
    → NoneStale h q s
    → find_index h q s ≡ returns (some 0)
    → 0 < q.count
count_pos h q s stale f = elim (Bool-cases (q.count == 0)) [
  | inl z ↦ absurd (not_past h q s f stale ((==_iff _ _).0 z))
  | inr ne ↦ ground (arith, ne)
]

-- What a call leaves: the packets with their numbers and the buffer for the diagnosis.
pub record Steps (w w' : World) : Type 0 where
  pub sound : IsSound w'
  pub keeps : Keeps w.heap w'.heap
  pub same_buffer : w'.channel.diagnostics_packet_buffer ≡ w.channel.diagnostics_packet_buffer
  pub same_ports : w'.channel.transport_channel_count ≡ w.channel.transport_channel_count
  pub same_id : w'.channel.associated_id ≡ w.channel.associated_id

Keeps-at : (h h' : Heap) (a : ℕ) → Keeps h h' → number (h' a) ≡ number (h a)
unfolding Keeps
Keeps-at h h' a k = k a

pub Steps-refl : (w : World) → IsSound w → Steps w w
unfolding Keeps
Steps-refl w sd = record {
  sound = sd;
  keeps = λ a. refl;
  same_buffer = refl;
  same_ports = refl;
  same_id = refl;
}

pub Steps-trans : (w v u : World) → Steps w v → Steps v u → Steps w u
unfolding Keeps
Steps-trans w v u f g = record {
  sound = g.sound;
  keeps = λ a. g.keeps a ∙ f.keeps a;
  same_buffer = g.same_buffer ∙ f.same_buffer;
  same_ports = g.same_ports ∙ f.same_ports;
  same_id = g.same_id ∙ f.same_id;
}

module _ (host : Host) (perm : Permutes host.qsort) where
  after_delivery-Steps :
      (w : World) (p : RastaRedundancyPacket) (h' : Heap) (q' : DeferQueue)
      → IsSound w
      → (pos : 0 < w.channel.defer_q.count)
      → find_index w.heap w.channel.defer_q w.channel.seq_rx ≡ returns (some 0)
      → (v : IsQueue w.heap w.channel.defer_q)
      → Removed host.qsort perm w.heap w.channel.defer_q v pos h' q'
      → Steps w (after_delivery host w p (h', q'))
  unfolding after_delivery push_bytes NoneStale is_past
  after_delivery-Steps w p h' q' sd pos f v r =
      let (e, a, g, ep, n) = found_first w.heap w.channel.defer_q w.channel.seq_rx f in
      let b = found_bounded w.heap w.channel.defer_q w.channel.seq_rx f v in
      record {
        sound = record {
          deferred = r.sound;
          noted = IsQueue-Keeps w.heap h' w.channel.diagnostics_packet_buffer r.keeps sd.noted;
          free = r.free ∙ sd.free;
          none_stale = λ z e' g'.
              let ee : e'.packet ≡ some a =
                ap (λ (x : PacketWrapper). x.packet)
                  (some-injective (sym g' ∙ ap (λ l. get_elem? l 0) (r.last_stays z) ∙ g))
                ∙ ep in
              points_to_packet h' e'.packet a ((w.channel.seq_rx + 1) % 2 ^ 64)
                (some w.channel.seq_rx) ee (Keeps-at w.heap h' a r.keeps ∙ n)
              ∙ ground (arith, b);
          bounded = omega (arith, b);
          ports = sd.ports;
        };
        keeps = r.keeps;
        same_buffer = refl;
        same_ports = refl;
        same_id = refl;
      }

  after_delivery-fewer :
      (w : World) (p : RastaRedundancyPacket) (h' : Heap) (q' : DeferQueue)
      → suc q'.count ≡ w.channel.defer_q.count
      → suc (after_delivery host w p (h', q')).channel.defer_q.count ≡ w.channel.defer_q.count
  unfolding after_delivery
  after_delivery-fewer w p h' q' e = e

  deliver_one-Steps :
      (w : World)
      → IsSound w
      → deferqueue_contains w.heap w.channel.defer_q w.channel.seq_rx ≡ returns true
      → (w' : World) × (deliver_one host w ≡ returns w')
        × Steps w w'
        × (suc w'.channel.defer_q.count ≡ w.channel.defer_q.count)
  unfolding deliver_one
  deliver_one-Steps w sd c =
      let q = w.channel.defer_q in
      let s = w.channel.seq_rx in
      let (p, g, _, _, _) = contains-get w.heap q s c in
      let (l, f) = contains-found w.heap q s c in
      let pos = count_pos w.heap q s sd.none_stale f in
      let (h', q', e, r) =
        deferqueue_remove-Removed host.qsort perm w.heap q sd.deferred pos s l f in
      (
        after_delivery host w p (h', q'),
        returns->>= (deferqueue_get w.heap q s) _ g
            (returns->>= (deferqueue_remove host.qsort w.heap q s) _ e refl),
        after_delivery-Steps w p h' q' sd pos f sd.deferred r,
        after_delivery-fewer w p h' q' r.fewer,
      )

  -- The loop ends within one pass more than the queue has elements.
  deliver_loop-Steps :
      (passes : ℕ) (w : World)
      → IsSound w
      → w.channel.defer_q.count < passes
      → (w' : World) × (deliver_loop passes host w ≡ returns w') × Steps w w'
  unfolding deliver_loop deliver_present
  deliver_loop-Steps zero w sd lt = absurd (omega arith)
  deliver_loop-Steps (suc passes) w sd lt =
      let (present, e) =
        contains-returns w.heap w.channel.defer_q sd.deferred w.channel.seq_rx sd.free in
      elim (Bool-cases present) [
        | inl t ↦
            let (v, ev, st, n) = deliver_one-Steps w sd (e ∙ ap returns t) in
            let (w', ew, st') = deliver_loop-Steps passes v st.sound (omega (arith, n)) in
            (
              w',
              returns->>= (deferqueue_contains w.heap w.channel.defer_q w.channel.seq_rx) _
                  (e ∙ ap returns t)
                  (returns->>= (deliver_one host w) (deliver_loop passes host) ev ew),
              Steps-trans w v w' st st',
            )
        | inr f ↦ (
          w,
          returns->>= (deferqueue_contains w.heap w.channel.defer_q w.channel.seq_rx) _
              (e ∙ ap returns f) refl,
          Steps-refl w sd,
        )
      ]

  pub set_locked-Steps : (w w' : World) (b : Bool) → Steps w w' → Steps w (set_locked b w')
  unfolding set_locked
  set_locked-Steps w w' b st = record {
    sound = record {
      deferred = st.sound.deferred;
      noted = st.sound.noted;
      free = st.sound.free;
      none_stale = st.sound.none_stale;
      bounded = st.sound.bounded;
      ports = st.sound.ports;
    };
    keeps = st.keeps;
    same_buffer = st.same_buffer;
    same_ports = st.same_ports;
    same_id = st.same_id;
  }

  pub deliver_defer_queue-Steps :
      (w : World)
      → IsSound w
      → w.channel.channel_locked ≡ false
      → (w' : World) × (deliver_defer_queue host w ≡ returns w') × Steps w w'
  unfolding deliver_defer_queue set_locked
  deliver_defer_queue-Steps w sd l =
      let v = set_locked true w in
      let st = set_locked-Steps w w true (Steps-refl w sd) in
      let (w', e, st') =
        deliver_loop-Steps (suc w.channel.defer_q.count) v st.sound (omega arith) in
      (w', lock_free w.channel.channel_locked _ l e, Steps-trans w v w' st st')

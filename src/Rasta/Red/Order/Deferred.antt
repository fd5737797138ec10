-- ===== src/Rasta/Red/Order/Deferred.antt =====
-- rastadeferqueue.c and rastaredundancy_new.c: what `deliverDeferQueue` pushes.
use tfm_cloud_ixl_rasta.Prelude.{
  ℕ, zero, suc, ◌≡◌, refl, sym, ◌∙◌, ap, subst, ◌==◌, Bool, true, false, inl, inr, Bool-cases,
  Option, none, some, get_elem?,
}
use tfm_cloud_ixl_rasta.Rasta.Codec.{RastaRedundancyPacket}
use tfm_cloud_ixl_rasta.Rasta.Red.Outcome.{
  Outcome, returns, or_fault, or_fault-returns, Heap, load, write, >>=-returns, lock-returns,
  returns-injective,
}
use tfm_cloud_ixl_rasta.Rasta.Red.Queue.{
  DeferQueue, deferqueue_get, deferqueue_remove, deferqueue_contains, find_index, remove_found,
  remove_at, minus_one, free_data, free_data_at,
}
use tfm_cloud_ixl_rasta.Rasta.Red.Find.{contains-get}
use tfm_cloud_ixl_rasta.Rasta.Red.Channel.{
  Host, World, set_locked, push_bytes, or_zeros, encode, after_delivery, deliver_one,
  deliver_present, deliver_loop, deliver_defer_queue,
}
use tfm_cloud_ixl_rasta.Rasta.Red.Order.{
  nothing, one_more, IsClosed, Delivered, Delivers, Delivers-same, Delivers-trans, encode-IsEncoded,
}

module _ (host : Host) (P : RastaRedundancyPacket → Type 0) (closed : IsClosed host P) where
  abbrev IsHeld : Heap → Type 0
  IsHeld h = (a : ℕ) (p : RastaRedundancyPacket) → h a ≡ some p → P p

  pub write-IsHeld :
      (h : Heap) (a : ℕ) (p : RastaRedundancyPacket) → P p → IsHeld h → IsHeld (write h a (some p))
  unfolding write
  write-IsHeld h a p k held b p' e = elim (Bool-cases (b == a)) [
    | inl t ↦ subst P (returns-injective (ap or_fault (rw t at e))) k
    | inr f ↦ held b p' (rw f at e)
  ]

  free_data_at-IsHeld :
      (h h' : Heap) (o : Option ℕ) → IsHeld h → free_data_at h o ≡ returns h' → IsHeld h'
  unfolding free_data_at load
  free_data_at-IsHeld h h' none held e = cc
  free_data_at-IsHeld h h' (some a) held e =
      let (p, e1, e2) = >>=-returns (or_fault (h a)) _ e in
      let k = held a p (or_fault-returns (h a) e1) in
      subst IsHeld (returns-injective e2) (write-IsHeld h a (free_data p) (closed.freed p k) held)

  remove_found-IsHeld :
      (h : Heap) (q : DeferQueue) (found : Option ℕ) (hq : Heap × DeferQueue)
      → IsHeld h
      → remove_found host.qsort h q found ≡ returns hq
      → IsHeld hq.0
  unfolding remove_found remove_at
  remove_found-IsHeld h q none hq held e =
      subst (λ (x : Heap × DeferQueue). IsHeld x.0) (returns-injective e) held
  remove_found-IsHeld h q (some i) hq held e =
      let (last, e1, e2) = >>=-returns (or_fault (get_elem? q.elements (minus_one q.count))) _ e in
      let (h', e3, e4) = >>=-returns (free_data_at h last.packet) _ e2 in
      subst (λ (x : Heap × DeferQueue). IsHeld x.0) (returns-injective e4)
        (free_data_at-IsHeld h h' last.packet held e3)

  deferqueue_remove-IsHeld :
      (h : Heap) (q : DeferQueue) (s : ℕ) (hq : Heap × DeferQueue)
      → IsHeld h
      → deferqueue_remove host.qsort h q s ≡ returns hq
      → IsHeld hq.0
  unfolding deferqueue_remove
  deferqueue_remove-IsHeld h q s hq held e =
      let (l, e1) = lock-returns q.locked _ e in
      let (found, e2, e3) = >>=-returns (find_index h q s) _ e1 in
      remove_found-IsHeld h q found hq held e3

  after_delivery-Delivers :
      (w : World) (p : RastaRedundancyPacket) (hq : Heap × DeferQueue)
      → P p
      → IsHeld hq.0
      → p.red_sequence ≡ w.channel.seq_rx
      → Delivers host P w (after_delivery host w p hq)
  unfolding after_delivery push_bytes
  after_delivery-Delivers w p hq k held n h =
      let (l, i) = encode-IsEncoded host w.lasterror p h.no_error (closed.long p k) in
      record {
        same_size = refl;
        forwards = one_more nothing p (encode host w.lasterror p.inner).0 k n i refl refl;
        holds = record { no_error = l; held = held };
      }

  deliver_one-Delivers :
      (w w' : World)
      → deferqueue_contains w.heap w.channel.defer_q w.channel.seq_rx ≡ returns true
      → deliver_one host w ≡ returns w'
      → Delivers host P w w'
  unfolding deliver_one
  deliver_one-Delivers w w' c e h =
      let q = w.channel.defer_q in
      let s = w.channel.seq_rx in
      let (p, g, n, a, r) = contains-get w.heap q s c in
      let (found, e1, e2) = >>=-returns (deferqueue_get w.heap q s) _ e in
      let f : some p ≡ found = returns-injective (sym g ∙ e1) in
      let (hq, e3, e4) = >>=-returns (deferqueue_remove host.qsort w.heap q s) _ e2 in
      let d =
        after_delivery-Delivers w p hq (h.held a p r)
          (deferqueue_remove-IsHeld w.heap q s hq h.held e3) n h in
      subst (Delivered host P w)
        (ap (λ o. after_delivery host w (or_zeros o) hq) f ∙ returns-injective e4) d

  deliver_present-Delivers :
      (w w' : World) (rest : World → Outcome World) (present : Bool)
      → deferqueue_contains w.heap w.channel.defer_q w.channel.seq_rx ≡ returns present
      → ((v : World) → rest v ≡ returns w' → Delivers host P v w')
      → deliver_present host w rest present ≡ returns w'
      → Delivers host P w w'
  unfolding deliver_present
  deliver_present-Delivers w w' rest true c ih e =
      let (v, e1, e2) = >>=-returns (deliver_one host w) rest e in
      Delivers-trans (deliver_one-Delivers w v c e1) (ih v e2)
  deliver_present-Delivers w w' rest false c ih e =
      subst (Delivers host P w) (returns-injective e)
        (Delivers-same host P w w refl refl refl refl refl)

  deliver_loop-Delivers :
      (passes : ℕ) (w w' : World) → deliver_loop passes host w ≡ returns w' → Delivers host P w w'
  unfolding deliver_loop
  deliver_loop-Delivers zero w w' e = cc
  deliver_loop-Delivers (suc passes) w w' e =
      let (present, e1, e2) =
        >>=-returns (deferqueue_contains w.heap w.channel.defer_q w.channel.seq_rx) _ e in
      deliver_present-Delivers w w' (deliver_loop passes host) present e1
        (λ v. deliver_loop-Delivers passes v w') e2

  pub deliver_defer_queue-Delivers :
      (w w' : World) → deliver_defer_queue host w ≡ returns w' → Delivers host P w w'
  unfolding deliver_defer_queue set_locked
  deliver_defer_queue-Delivers w w' e =
      let (l, e1) = lock-returns w.channel.channel_locked _ e in
      Delivers-trans (Delivers-same host P w (set_locked true w) refl refl refl refl refl)
        (deliver_loop-Delivers (suc w.channel.defer_q.count) (set_locked true w) w' e1)

-- ===== src/Rasta/Red/Removal.antt =====
-- rastadeferqueue.c: whose data is freed when a packet is taken out.
use tfm_cloud_ixl_rasta.Prelude.{
  ℕ, ◌-◌, ◌^◌, ◌<◌, ◌≡◌, ◌≢◌, refl, ◌∙◌, ap, ◌==◌, ==_of_ne, false, Option, some, set, get_elem?,
  arith,
}
use tfm_cloud_ixl_rasta.Rasta.Codec.{RastaRedundancyPacket}
use tfm_cloud_ixl_rasta.Rasta.Red.Outcome.{
  returns, or_fault, Heap, load, write, returns->>=, lock_free,
}
use tfm_cloud_ixl_rasta.Rasta.Red.Queue.{
  PacketWrapper, DeferQueue, Qsort, sort, minus_one, find_index, fill_gap, free_data, free_data_at,
  remove_at, remove_found, deferqueue_remove,
}
use tfm_cloud_ixl_rasta.Rasta.Red.Placed.{write_self}

write_other : (h : Heap) (a b : ℕ) (v : Option RastaRedundancyPacket) → b ≢ a → write h a v b ≡ h b
unfolding write
write_other h a b v ne = rw (==_of_ne b a ne) refl

-- Where the first packet is taken out of a queue of several and the last one has another address,
-- the last one takes its place in the queue, and it is the last one's data that is freed; the packet
-- that was taken out keeps its data.
pub deferqueue_remove-frees_last :
    (qsort : Qsort) (h : Heap) (q : DeferQueue) (s a b : ℕ) (u w : PacketWrapper)
    (last : RastaRedundancyPacket)
    → q.locked ≡ false
    → 1 < q.count
    → q.count < 2 ^ 32
    → find_index h q s ≡ returns (some 0)
    → get_elem? q.elements 0 ≡ some u
    → u.packet ≡ some a
    → get_elem? q.elements (q.count - 1) ≡ some w
    → w.packet ≡ some b
    → h b ≡ some last
    → a ≢ b
    → (h' : Heap) × (q' : DeferQueue) × (deferqueue_remove qsort h q s ≡ returns (h', q'))
      × (h' b ≡ some (free_data last))
      × (h' a ≡ h a)
      × (q' ≡ sort qsort (record q { elements = set q.elements 0 w; count = q.count - 1 }))
unfolding deferqueue_remove remove_found remove_at free_data_at load fill_gap minus_one
deferqueue_remove-frees_last qsort h q s a b u w last l many lt f g0 e0 g1 ep r ne =
    let less : minus_one q.count ≡ q.count - 1 = omega (arith, many, lt) in
    let other : (0 == minus_one q.count) ≡ false = ground (arith, less, many) in
    let g = ap (get_elem? q.elements) less ∙ g1 in
    let h' = write h b (some (free_data last)) in
    let e : free_data_at h w.packet ≡ returns h' =
      ap (free_data_at h) ep ∙ returns->>= (or_fault (h b)) _ (ap or_fault r) refl in
    (
      h',
      sort qsort (record (fill_gap q 0 w) { count = minus_one q.count }),
      lock_free q.locked _ l (
          returns->>= (find_index h q s) _ f (
            returns->>= (or_fault (get_elem? q.elements (minus_one q.count))) _ (ap or_fault g)
              (returns->>= (free_data_at h w.packet) _ e refl))),
      write_self h b (some (free_data last)),
      write_other h b a (some (free_data last)) ne,
      rw other (ap (λ n. sort qsort (record q { elements = set q.elements 0 w; count = n })) less),
    )

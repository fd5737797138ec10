-- ===== src/Rasta/Red/Find.antt =====
-- rastadeferqueue.c: which packets are found by their numbers.
use tfm_cloud_ixl_rasta.Prelude.{
  ℕ, zero, suc, ◌+◌, ◌<◌, ◌≡◌, refl, ◌∙◌, ap, ◌==◌, true, false, inl, inr, Bool-cases, Option, none,
  some, get_elem?, if◌then◌else◌, arith,
}
use tfm_cloud_ixl_rasta.Rasta.Codec.{RastaRedundancyPacket}
use tfm_cloud_ixl_rasta.Rasta.Red.Outcome.{
  Outcome, returns, faults, ◌>>=◌, or_fault, Heap, load, >>=-returns, lock-returns,
  returns-injective, or_fault-returns, returns->>=, lock_free,
}
use tfm_cloud_ixl_rasta.Rasta.Red.Queue.{
  PacketWrapper, DeferQueue, index_loop, index_of, find_in, find_index, get_found, deferqueue_get,
  deferqueue_contains, is_some,
}

index_loop_hit : (n i s : ℕ) → index_loop n i s s ≡ i
unfolding index_loop
index_loop_hit zero i s = refl
index_loop_hit (suc n) i s = ground arith

index_loop_miss : (n i c s : ℕ) → (c == s) ≡ false → index_loop n i c s ≡ i + n
unfolding index_loop
index_loop_miss zero i c s e = omega arith
index_loop_miss (suc n) i c s e = rw e (index_loop_miss n (i + 1) c s e ∙ omega arith)

pub index_of_lem :
    (q : DeferQueue) (c s : ℕ)
    → 0 < q.max_count
    → index_of q c s ≡ (if c == s then some 0 else none)
unfolding index_of
index_of_lem q c s h = elim (Bool-cases (c == s)) [
  | inl e ↦ ground (arith, index_loop_hit q.max_count 0 s)
  | inr e ↦ ground (arith, index_loop_miss q.max_count 0 c s e)
]

-- What the search comes to: a look at the packet of the first element.
unfoldable pub compare_number : ℕ → Option RastaRedundancyPacket → Outcome (Option ℕ)
compare_number s none = faults
compare_number s (some p) = returns (if p.red_sequence == s then some 0 else none)

unfoldable pub find_at : Heap → ℕ → Option ℕ → Outcome (Option ℕ)
unfolding compare_number
find_at h s none = returns none
find_at h s (some a) = compare_number s (h a)

unfoldable pub find_first : Heap → Option PacketWrapper → ℕ → Outcome (Option ℕ)
unfolding find_at
find_first h none s = faults
find_first h (some e) s = find_at h s e.packet

search_packet :
    (q : DeferQueue) (s : ℕ) (r : Option RastaRedundancyPacket)
    → 0 < q.max_count
    → (or_fault r >>= λ p. returns (index_of q p.red_sequence s)) ≡ compare_number s r
unfolding compare_number
search_packet q s none pos = refl
search_packet q s (some p) pos = ap returns (index_of_lem q p.red_sequence s pos)

find_in_lem :
    (h : Heap) (q : DeferQueue) (s : ℕ) (o : Option ℕ)
    → 0 < q.max_count
    → find_in h q s o ≡ find_at h s o
unfolding find_in load find_at
find_in_lem h q s none pos = refl
find_in_lem h q s (some a) pos = search_packet q s (h a) pos

-- A search for a sequence number looks at the first element of the array only: it finds that one if
-- its packet has the number, and else nothing, whatever the queue holds behind it.
pub find_index_lem :
    (h : Heap) (q : DeferQueue) (s : ℕ)
    → 0 < q.max_count
    → find_index h q s ≡ find_first h (get_elem? q.elements 0) s
unfolding find_index find_first
find_index_lem h q s pos =
    elim (get_elem? q.elements 0)
      as (λ r. (or_fault r >>= λ e. find_in h q s e.packet) ≡ find_first h r s) [
        | none ↦ refl
        | some e ↦ find_in_lem h q s e.packet pos
      ]

pub index_of-some : (q : DeferQueue) (c s i : ℕ) → index_of q c s ≡ some i → (i ≡ 0) × (c ≡ s)
unfolding index_of
index_of-some q c s i e = elim (Bool-cases (c == s)) [
  | inl t ↦ ground (arith, index_loop_hit q.max_count 0 s, e)
  | inr f ↦ ground (arith, index_loop_miss q.max_count 0 c s f, e)
]

found_packet :
    (q : DeferQueue) (s i : ℕ) (r : Option RastaRedundancyPacket)
    → (or_fault r >>= λ p. returns (index_of q p.red_sequence s)) ≡ returns (some i)
    → (p : RastaRedundancyPacket) × (r ≡ some p) × (i ≡ 0) × (p.red_sequence ≡ s)
found_packet q s i none e = cc
found_packet q s i (some p) e =
    let (z, n) = index_of-some q p.red_sequence s i (returns-injective e) in (p, refl, z, n)

find_in-some :
    (h : Heap) (q : DeferQueue) (s i : ℕ) (o : Option ℕ)
    → find_in h q s o ≡ returns (some i)
    → (a : ℕ) × (p : RastaRedundancyPacket) × (o ≡ some a)
      × (h a ≡ some p)
      × (i ≡ 0)
      × (p.red_sequence ≡ s)
unfolding find_in load
find_in-some h q s i none e = cc
find_in-some h q s i (some a) e =
    let (p, r, z, n) = found_packet q s i (h a) e in (a, p, refl, r, z, n)

-- What a search that finds an index saw.
pub find_index-some :
    (h : Heap) (q : DeferQueue) (s i : ℕ)
    → find_index h q s ≡ returns (some i)
    → (w : PacketWrapper) × (a : ℕ) × (p : RastaRedundancyPacket) × (get_elem? q.elements 0
        ≡ some w)
      × (w.packet ≡ some a)
      × (h a ≡ some p)
      × (i ≡ 0)
      × (p.red_sequence ≡ s)
unfolding find_index
find_index-some h q s i e =
    let (w, e4, e5) = >>=-returns (or_fault (get_elem? q.elements 0)) _ e in
    let (a, p, o, r, z, n) = find_in-some h q s i w.packet e5 in
    (w, a, p, or_fault-returns (get_elem? q.elements 0) e4, o, r, z, n)

is_some-true {ℓ} : {A : Type ℓ} (o : Option A) → is_some o ≡ true → (a : A) × (o ≡ some a)
is_some-true none e = cc
is_some-true (some a) e = (a, refl)

pub contains-found :
    (h : Heap) (q : DeferQueue) (s : ℕ)
    → deferqueue_contains h q s ≡ returns true
    → (q.locked ≡ false) × (find_index h q s ≡ returns (some 0))
unfolding deferqueue_contains
contains-found h q s e =
    let (l, e1) = lock-returns q.locked _ e in
    let (found, e2, e3) = >>=-returns (find_index h q s) _ e1 in
    let (i, e4) = is_some-true found (returns-injective e3) in
    let (_, _, _, _, _, _, z, _) = find_index-some h q s i (e2 ∙ ap returns e4) in
    (l, e2 ∙ ap returns (e4 ∙ ap some z))

get_of :
    (h : Heap) (q : DeferQueue) (s a : ℕ) (w : PacketWrapper) (p : RastaRedundancyPacket)
    → q.locked ≡ false
    → find_index h q s ≡ returns (some 0)
    → get_elem? q.elements 0 ≡ some w
    → w.packet ≡ some a
    → h a ≡ some p
    → deferqueue_get h q s ≡ returns (some p)
unfolding deferqueue_get get_found load
get_of h q s a w p l f e0 ep r =
    lock_free q.locked (find_index h q s >>= λ found. get_found h q found) l (
      returns->>= (find_index h q s) (λ found. get_found h q found) f
        (returns->>= (or_fault (get_elem? q.elements 0)) _ (ap or_fault e0)
          (returns->>= (load h w.packet) _ (ap (load h) ep ∙ ap or_fault r) refl)))

-- A number that a queue contains is that of the packet which is got for it.
pub contains-get :
    (h : Heap) (q : DeferQueue) (s : ℕ)
    → deferqueue_contains h q s ≡ returns true
    → (p : RastaRedundancyPacket) × (deferqueue_get h q s ≡ returns (some p))
      × (p.red_sequence ≡ s)
      × (a : ℕ) × (h a ≡ some p)
contains-get h q s e =
    let (l, f) = contains-found h q s e in
    let (w, a, p, e0, ep, r, _, n) = find_index-some h q s 0 f in
    (p, get_of h q s a w p l f e0 ep r, n, a, r)

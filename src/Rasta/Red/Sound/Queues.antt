-- ===== src/Rasta/Red/Sound/Queues.antt =====
-- rastadeferqueue.c: on a queue whose packets are all in memory the operations return.
use tfm_cloud_ixl_rasta.Prelude.{
  ℕ, suc, ◌+◌, ◌%◌, ◌^◌, ◌≤◌, ◌<◌, ◌≡◌, refl, sym, ◌∙◌, ap, subst, ◌==◌, ==_iff, Bool, true, false,
  Bool-cases, inl, inr, Option, none, some, List, [], ◌∷◌, length, set, get_elem?, if◌then◌else◌,
  if-elim, All-take, All-take_less, All-set, All-take-set, All-take-set_first, All-get_elem?,
  length-set, arith,
}
use tfm_cloud_ixl_rasta.Rasta.Codec.{RastaRedundancyPacket}
use tfm_cloud_ixl_rasta.Rasta.Red.Outcome.{
  returns, or_fault, Heap, load, write, returns->>=, lock_free,
}
use tfm_cloud_ixl_rasta.Rasta.Red.Queue.{
  PacketWrapper, DeferQueue, Qsort, cmpfkt, sort, minus_one, is_some, find_index, deferqueue_add,
  deferqueue_contains, fill_gap, free_data, free_data_at, remove_at, remove_found,
  deferqueue_remove, deferqueue_get_ts, ts_found,
}
use tfm_cloud_ixl_rasta.Rasta.Red.Find.{
  find_index_lem, find_index-some, find_first, find_at, compare_number,
}
use tfm_cloud_ixl_rasta.Rasta.Red.Sound.{
  Permutes, number, is_number, Keeps, IsQueue-Keeps, live_at, is_live, is_set, IsQueue,
  sort-IsQueue, length-qsort,
}

-- A packet whose number is known to be one of 32 bits.
pub live_packet :
    (o : Option RastaRedundancyPacket)
    → is_number (number o) ≡ true
    → (p : RastaRedundancyPacket) × (o ≡ some p) × (p.red_sequence < 2 ^ 32)
unfolding is_number
live_packet none e = cc
live_packet (some p) e = (p, refl, ground arith)

-- What a look at a live packet gives.
compare_number-returns :
    (s : ℕ) (o : Option RastaRedundancyPacket)
    → is_number (number o) ≡ true
    → (r : Option ℕ) × (compare_number s o ≡ returns r)
unfolding compare_number is_number
compare_number-returns s none e = cc
compare_number-returns s (some p) e = (if p.red_sequence == s then some 0 else none, refl)

find_at-returns :
    (h : Heap) (s : ℕ) (o : Option ℕ)
    → live_at h o ≡ true
    → (r : Option ℕ) × (find_at h s o ≡ returns r)
unfolding find_at live_at
find_at-returns h s none e = (none, refl)
find_at-returns h s (some a) e = compare_number-returns s (h a) e

module _ (h : Heap) (q : DeferQueue) (v : IsQueue h q) where
  -- The first element of the array.
  pub first : (e : PacketWrapper) × (get_elem? q.elements 0 ≡ some e) × (is_live h e ≡ true)
  first =
      All-get_elem? (λ e. is_live h e ≡ true) q.elements 0 q.max_count
        (All-take (λ e. is_live h e ≡ true) q.max_count q.elements v.live) v.positive
        (omega (arith, v.size))

  pub find_index-returns : (s : ℕ) → (r : Option ℕ) × (find_index h q s ≡ returns r)
  unfolding find_first is_live
  find_index-returns s =
      let (e, g, k) = first in
      let (r, f) = find_at-returns h s e.packet k in
      (r, find_index_lem h q s v.positive ∙ ap (λ o. find_first h o s) g ∙ f)

  pub contains-returns :
      (s : ℕ) → q.locked ≡ false → (b : Bool) × (deferqueue_contains h q s ≡ returns b)
  unfolding deferqueue_contains
  contains-returns s l =
      let (r, f) = find_index-returns s in
      (is_some r, lock_free q.locked _ l (returns->>= (find_index h q s) _ f refl))

  -- A packet that is put into the queue is in memory.
  pub deferqueue_add-IsQueue :
      (qsort : Qsort) (a ts : ℕ)
      → Permutes qsort
      → q.locked ≡ false
      → live_at h (some a) ≡ true
      → (q' : DeferQueue) × (deferqueue_add qsort q a ts ≡ returns q')
        × IsQueue h q'
        × (q'.locked ≡ false)
        × (0 < q'.count)
  unfolding deferqueue_add is_live
  deferqueue_add-IsQueue qsort a ts perm l k = elim (Bool-cases (q.count == q.max_count)) [
    | inl full ↦ (q, lock_free q.locked _ l (rw full refl), v, l, ground (arith, full, v.positive))
    | inr room ↦
        let e : PacketWrapper = record { packet = some a; received_timestamp = ts } in
        let added : DeferQueue = record q {
          elements = set q.elements q.count e;
          count = (q.count + 1) % 2 ^ 32;
        } in
        let f : added.count ≡ suc q.count = ground (arith, room, v.fits, v.small) in
        let kept : IsQueue h added = record {
          size = length-set q.elements q.count e ∙ v.size;
          positive = v.positive;
          small = v.small;
          fits = ground (arith, room, v.fits, f);
          live = All-set (λ x. is_live h x ≡ true) q.elements q.count e v.live k;
          filled = rw f (All-take-set (λ x. is_set x ≡ true) q.elements q.count e v.filled refl);
        } in
        (
          sort qsort added,
          lock_free q.locked _ l (rw room refl),
          sort-IsQueue qsort h added perm kept,
          l,
          omega (arith, f),
        )
  ]

-- Freeing the data of a packet leaves its number.
free_data-Keeps :
    (h : Heap) (a : ℕ) (p : RastaRedundancyPacket)
    → h a ≡ some p
    → Keeps h (write h a (some (free_data p)))
unfolding Keeps write free_data
free_data-Keeps h a p e b = elim (Bool-cases (b == a)) [
  | inl t ↦ rw (t, (==_iff b a).0 t, e) refl
  | inr f ↦ rw f refl
]

-- A set pointer to a live packet.
free_data_at-returns :
    (h : Heap) (o : Option ℕ)
    → is_some o ≡ true
    → live_at h o ≡ true
    → (h' : Heap) × (free_data_at h o ≡ returns h') × Keeps h h'
unfolding free_data_at live_at load
free_data_at-returns h none e k = cc
free_data_at-returns h (some a) e k =
    let (p, r, _) = live_packet (h a) k in
    (
      write h a (some (free_data p)),
      returns->>= (or_fault (h a)) _ (ap or_fault r) refl,
      free_data-Keeps h a p r,
    )

pub some-injective : {A : Type 0} {a b : A} → some a ≡ some b → a ≡ b
some-injective e = cc

empty_of_length : {A : Type 0} (xs : List A) → length xs ≡ 0 → xs ≡ []
empty_of_length [] e = refl
empty_of_length (x ∷ xs) e = absurd (omega (arith, e))

live_packet_of : (h : Heap) (e : PacketWrapper) → is_live h e ≡ true → live_at h e.packet ≡ true
unfolding is_live
live_packet_of h e k = k

module _ (qsort : Qsort) (perm : Permutes qsort) (h : Heap) (q : DeferQueue) (v : IsQueue h q)
    (pos : 0 < q.count) where
  pub record Removed (h' : Heap) (q' : DeferQueue) : Type 0 where
    pub keeps : Keeps h h'
    pub sound : IsQueue h' q'
    pub free : q'.locked ≡ q.locked
    pub fewer : suc q'.count ≡ q.count
    pub last_stays : q'.count ≡ 0 → q'.elements ≡ q.elements

  minus_one-count : suc (minus_one q.count) ≡ q.count
  unfolding minus_one
  minus_one-count = omega (arith, pos, v.fits, v.small)

  -- The last element.
  last :
      (e : PacketWrapper) × (get_elem? q.elements (minus_one q.count) ≡ some e)
      × (is_some e.packet ≡ true)
      × (is_live h e ≡ true)
  last =
      let i = minus_one q.count in
      let n : q.count ≤ length q.elements = omega (arith, v.fits, v.size) in
      let (e, ge, se) =
        All-get_elem? (λ x. is_set x ≡ true) q.elements i q.count v.filled
          (omega (arith, minus_one-count)) n in
      let (d, gd, ld) =
        All-get_elem? (λ x. is_live h x ≡ true) q.elements i q.count
          (All-take (λ x. is_live h x ≡ true) q.count q.elements v.live)
          (omega (arith, minus_one-count)) n in
      (e, ge, se, subst (λ x. is_live h x ≡ true) (some-injective (sym gd ∙ ge)) ld)

  abbrev without_last : DeferQueue → DeferQueue
  without_last x = record x { count = minus_one q.count }

  fill_gap-IsQueue :
      (e : PacketWrapper)
      → is_some e.packet ≡ true
      → is_live h e ≡ true
      → IsQueue h (without_last (fill_gap q 0 e))
  unfolding fill_gap
  fill_gap-IsQueue e se le =
      let fewer =
        All-take_less (λ x. is_set x ≡ true) (minus_one q.count) q.elements
          (rw minus_one-count v.filled) in
      if-elim (λ x. IsQueue h (without_last x)) (0 == minus_one q.count)
        (λ _. record {
          size = v.size;
          positive = v.positive;
          small = v.small;
          fits = omega (arith, minus_one-count, v.fits);
          live = v.live;
          filled = fewer;
        })
        (λ _. record {
          size = length-set q.elements 0 e ∙ v.size;
          positive = v.positive;
          small = v.small;
          fits = omega (arith, minus_one-count, v.fits);
          live = All-set (λ x. is_live h x ≡ true) q.elements 0 e v.live le;
          filled =
              All-take-set_first (λ x. is_set x ≡ true) q.elements (minus_one q.count) e fewer se;
        })

  fill_gap_free : (e : PacketWrapper) → (fill_gap q 0 e).locked ≡ q.locked
  unfolding fill_gap
  fill_gap_free e =
      if-elim (λ (x : DeferQueue). x.locked ≡ q.locked) (0 == minus_one q.count) (λ _. refl)
        (λ _. refl)

  last_stays :
      (e : PacketWrapper)
      → minus_one q.count ≡ 0
      → (sort qsort (without_last (fill_gap q 0 e))).elements ≡ q.elements
  unfolding sort fill_gap
  last_stays e z =
      rw (z, empty_of_length (qsort cmpfkt []) (length-qsort qsort perm cmpfkt [])) refl

  remove_at-Removed :
      (h' : Heap) × (q' : DeferQueue) × (remove_at qsort h q 0 ≡ returns (h', q')) × Removed h' q'
  unfolding remove_at
  remove_at-Removed =
      let (e, ge, se, le) = last in
      let (h', fe, k) = free_data_at-returns h e.packet se (live_packet_of h e le) in
      let left = without_last (fill_gap q 0 e) in
      (
        h',
        sort qsort left,
        returns->>= (or_fault (get_elem? q.elements (minus_one q.count))) _ (ap or_fault ge)
            (returns->>= (free_data_at h e.packet) _ fe refl),
        record {
          keeps = k;
          sound =
              IsQueue-Keeps h h' (sort qsort left) k
                (sort-IsQueue qsort h left perm (fill_gap-IsQueue e se le));
          free = fill_gap_free e;
          fewer = minus_one-count;
          last_stays = last_stays e;
        },
      )

  pub deferqueue_remove-Removed :
      (s : ℕ)
      → q.locked ≡ false
      → find_index h q s ≡ returns (some 0)
      → (h' : Heap) × (q' : DeferQueue) × (deferqueue_remove qsort h q s ≡ returns (h', q'))
        × Removed h' q'
  unfolding deferqueue_remove remove_found
  deferqueue_remove-Removed s l f =
      let (h', q', e, r) = remove_at-Removed in
      (h', q', lock_free q.locked _ l (returns->>= (find_index h q s) _ f e), r)

module _ (h : Heap) (q : DeferQueue) (v : IsQueue h q) where
  ts_found-returns :
      (s : ℕ) (r : Option ℕ) → find_index h q s ≡ returns r → (t : ℕ) × (ts_found q r ≡ returns t)
  unfolding ts_found
  ts_found-returns s none f = (0, refl)
  ts_found-returns s (some i) f =
      let (e, _, _, g, _, _, z, _) = find_index-some h q s i f in
      (
        e.received_timestamp,
        returns->>= (or_fault (get_elem? q.elements i)) _
            (ap (λ j. or_fault (get_elem? q.elements j)) z ∙ ap or_fault g) refl,
      )

  pub get_ts-returns : (s : ℕ) → q.locked ≡ false → (t : ℕ) × (deferqueue_get_ts h q s ≡ returns t)
  unfolding deferqueue_get_ts
  get_ts-returns s l =
      let (r, f) = find_index-returns h q v s in
      let (t, e) = ts_found-returns s r f in
      (t, lock_free q.locked _ l (returns->>= (find_index h q s) _ f e))

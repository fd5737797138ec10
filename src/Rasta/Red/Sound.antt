-- ===== src/Rasta/Red/Sound.antt =====
-- rastadeferqueue.c: queues whose packets are all in memory, and what the operations keep of that.
pub mod Queues
pub mod Channels
pub mod Received
pub mod Arrivals
use tfm_cloud_ixl_rasta.Prelude.{
  ℕ, zero, suc, ◌+◌, ◌-◌, ◌%◌, ◌^◌, ◌≤◌, ◌<◌, ◌≡◌, refl, sym, ◌∙◌, ap, subst, ◌==◌, ==_iff, ltb,
  Bool, true, false, Bool-cases, ◌⊎◌, inl, inr, Option, none, some, List, [], ◌∷◌, ◌++◌, length,
  take, drop, set, replicate, get_or, get_elem?, if◌then◌else◌, if-elim, All, All-append, count_if,
  Passes, count_if-true, count_if-Passes, Passes-of_count_if, All-take, All-drop, All-take_less,
  All-set, All-take-set, All-take-set_first, All-get_elem?, length-append, length-take, length-drop,
  length-set, take-append_of, take-append-drop, ℤ, arith,
}
use tfm_cloud_ixl_rasta.Rasta.Codec.{RastaRedundancyPacket}
use tfm_cloud_ixl_rasta.Rasta.Red.Outcome.{
  Outcome, returns, blocks, faults, goes_on, ◌>>=◌, lock, or_fault, Heap, load, write, >>=-returns,
  lock-returns, returns-injective, returns->>=, lock_free,
}
use tfm_cloud_ixl_rasta.Rasta.Red.Queue.{
  PacketWrapper, DeferQueue, Qsort, cmpfkt, sort, minus_one, is_some, index_of, find_in, find_index,
  deferqueue_add, fill_gap, free_data, free_data_at, remove_at, remove_found, deferqueue_remove,
}

-- `qsort` puts the elements into another order.
unfoldable pub Permutes : Qsort → Type 0
Permutes qsort =
    (test : PacketWrapper → Bool) (cmp : PacketWrapper → PacketWrapper → ℤ)
    (xs : List PacketWrapper)
    → count_if test (qsort cmp xs) ≡ count_if test xs

module _ (qsort : Qsort) (perm : Permutes qsort) (cmp : PacketWrapper → PacketWrapper → ℤ)
    (xs : List PacketWrapper) where
  pub length-qsort : length (qsort cmp xs) ≡ length xs
  unfolding Permutes
  length-qsort = sym (count_if-true (qsort cmp xs)) ∙ perm (λ _. true) cmp xs ∙ count_if-true xs

  qsort-Passes : (test : PacketWrapper → Bool) → Passes test xs → Passes test (qsort cmp xs)
  unfolding Permutes
  qsort-Passes test h =
      Passes-of_count_if test (qsort cmp xs)
        (perm test cmp xs ∙ count_if-Passes test xs h ∙ sym length-qsort)

-- A wrapper that is NULL, or points to a packet in memory whose number has 32 bits.
abbrev pub number : Option RastaRedundancyPacket → Option ℕ
number none = none
number (some p) = some p.red_sequence

unfoldable pub is_number : Option ℕ → Bool
is_number none = false
is_number (some n) = ltb n (2 ^ 32)

unfoldable pub live_at : Heap → Option ℕ → Bool
unfolding is_number
live_at h none = true
live_at h (some a) = is_number (number (h a))

-- The same packets are in memory, with the same numbers.
unfoldable pub Keeps : Heap → Heap → Type 0
Keeps h h' = (a : ℕ) → number (h' a) ≡ number (h a)

unfoldable pub is_live : Heap → PacketWrapper → Bool
unfolding live_at
is_live h e = live_at h e.packet

abbrev pub is_set : PacketWrapper → Bool
is_set e = is_some e.packet

pub record IsQueue (h : Heap) (q : DeferQueue) : Type 0 where
  pub size : length q.elements ≡ q.max_count
  pub positive : 0 < q.max_count
  pub small : q.max_count < 2 ^ 32
  pub fits : q.count ≤ q.max_count
  pub live : Passes (is_live h) q.elements
  pub filled : Passes is_set (take q.count q.elements)

-- Sorting keeps all that is known of the elements.
pub sort-IsQueue :
    (qsort : Qsort) (h : Heap) (q : DeferQueue)
    → Permutes qsort
    → IsQueue h q
    → IsQueue h (sort qsort q)
unfolding sort
sort-IsQueue qsort h q perm v =
    let front = take q.count q.elements in
    let back = drop q.count q.elements in
    let n = length-qsort qsort perm cmpfkt front in
    let m = length-take q.count q.elements (omega (arith, v.fits, v.size)) in
    record {
      size = omega (
        arith,
        length-append (qsort cmpfkt front) back,
        n,
        m,
        length-drop q.count q.elements,
        v.size,
        v.fits,
      );
      positive = v.positive;
      small = v.small;
      fits = v.fits;
      live =
          All-append (λ e. is_live h e ≡ true) (qsort cmpfkt front) back
            (qsort-Passes qsort perm cmpfkt front (is_live h)
              (All-take (λ e. is_live h e ≡ true) q.count q.elements v.live))
            (All-drop (λ e. is_live h e ≡ true) q.count q.elements v.live);
      filled =
          rw (take-append_of q.count (qsort cmpfkt front) back (n ∙ m))
            (qsort-Passes qsort perm cmpfkt front is_set v.filled);
    }

live_at-Keeps : (h h' : Heap) (o : Option ℕ) → Keeps h h' → live_at h o ≡ true → live_at h' o ≡ true
unfolding live_at Keeps
live_at-Keeps h h' none k e = refl
live_at-Keeps h h' (some a) k e = ap is_number (k a) ∙ e

Passes-Keeps :
    (h h' : Heap) (xs : List PacketWrapper)
    → Keeps h h'
    → Passes (is_live h) xs
    → Passes (is_live h') xs
unfolding is_live
Passes-Keeps h h' [] k p = tt
Passes-Keeps h h' (x ∷ xs) k p = (live_at-Keeps h h' x.packet k p.0, Passes-Keeps h h' xs k p.1)

pub IsQueue-Keeps : (h h' : Heap) (q : DeferQueue) → Keeps h h' → IsQueue h q → IsQueue h' q
IsQueue-Keeps h h' q k v = record {
  size = v.size;
  positive = v.positive;
  small = v.small;
  fits = v.fits;
  live = Passes-Keeps h h' q.elements k v.live;
  filled = v.filled;
}

-- ===== src/Rasta/Red/Queue.antt =====
-- src/rasta/c/rastadeferqueue.c: the queue of packets that came too early. The library function
-- `qsort` is an argument.
use tfm_cloud_ixl_rasta.Prelude.{
  ℕ, zero, suc, ◌+◌, ◌-◌, ◌%◌, ◌^◌, ◌==◌, ltb, Bool, true, false, Option, none, some, List, [],
  ◌++◌, take, drop, set, replicate, if◌then◌else◌, ℤ, to_int32, get_elem?,
}
use tfm_cloud_ixl_rasta.Rasta.Codec.{RastaRedundancyPacket}
use tfm_cloud_ixl_rasta.Rasta.Red.Outcome.{
  Outcome, returns, faults, ◌>>=◌, lock, or_fault, Heap, write, load,
}

-- `rasta_redundancy_packet_wrapper`: the address of a packet, `none` for NULL.
pub record PacketWrapper : Type 0 where
  pub packet : Option ℕ
  pub received_timestamp : ℕ

-- `defer_queue`: the whole array of `max_count` elements, those behind `count` too. `locked` says
-- that the mutex is held.
pub record DeferQueue : Type 0 where
  pub elements : List PacketWrapper
  pub count : ℕ
  pub max_count : ℕ
  pub locked : Bool

-- The order of the sort: the difference of the times, cut to an `int`.
unfoldable pub cmpfkt : PacketWrapper → PacketWrapper → ℤ
cmpfkt a b = to_int32 ((a.received_timestamp + 2 ^ 64 - b.received_timestamp) % 2 ^ 32)

abbrev pub Qsort : Type 0
Qsort = (PacketWrapper → PacketWrapper → ℤ) → List PacketWrapper → List PacketWrapper

-- Unsigned arithmetic of 32 bits.
unfoldable pub minus_one : ℕ → ℕ
minus_one n = (n + (2 ^ 32 - 1)) % 2 ^ 32

-- The first `count` elements are sorted, where they lie.
unfoldable pub sort : Qsort → DeferQueue → DeferQueue
sort qsort q = record q {
  elements = qsort cmpfkt (take q.count q.elements) ++ drop q.count q.elements;
}

unfoldable pub defer_queue_init : ℕ → DeferQueue
defer_queue_init n_max = record {
  elements = replicate n_max (record { packet = none; received_timestamp = 0 });
  count = 0;
  max_count = n_max;
  locked = false;
}

-- The loop over the indices: it compares the number of the first element with `seq_nr` each time.
unfoldable pub index_loop : ℕ → ℕ → ℕ → ℕ → ℕ
index_loop zero index compared seq_nr = index
index_loop (suc left) index compared seq_nr =
    let rest = index_loop left (index + 1) compared seq_nr in
    if compared == seq_nr then index else rest

-- `none` for -1.
unfoldable pub index_of : DeferQueue → ℕ → ℕ → Option ℕ
unfolding index_loop
index_of q compared seq_nr =
    let index = index_loop q.max_count 0 compared seq_nr in
    if index == q.max_count then none else some index

unfoldable pub find_in : Heap → DeferQueue → ℕ → Option ℕ → Outcome (Option ℕ)
unfolding index_of load
find_in h q seq_nr none = returns none
find_in h q seq_nr (some a) = load h (some a) >>= λ p. returns (index_of q p.red_sequence seq_nr)

unfoldable pub find_index : Heap → DeferQueue → ℕ → Outcome (Option ℕ)
unfolding find_in
find_index h q seq_nr =
    or_fault (get_elem? q.elements 0) >>= λ first. find_in h q seq_nr first.packet

unfoldable pub deferqueue_isfull : DeferQueue → Outcome Bool
deferqueue_isfull q = lock q.locked (returns (q.count == q.max_count))

unfoldable pub deferqueue_add : Qsort → DeferQueue → ℕ → ℕ → Outcome DeferQueue
unfolding sort
deferqueue_add qsort q packet recv_ts =
    let element : PacketWrapper = record { packet = some packet; received_timestamp = recv_ts } in
    let added = record q {
      elements = set q.elements q.count element;
      count = (q.count + 1) % 2 ^ 32;
    } in
    lock q.locked (if q.count == q.max_count then returns q else returns (sort qsort added))

-- The last element takes the place of the one that is removed, if that is another one.
unfoldable pub fill_gap : DeferQueue → ℕ → PacketWrapper → DeferQueue
unfolding minus_one
fill_gap q index last =
    if index == minus_one q.count then q else record q { elements = set q.elements index last }

-- `freeRastaByteArray` of the data of the packet that the last element points to: the length is set
-- to 0, so no bytes are left that may be read.
unfoldable pub free_data : RastaRedundancyPacket → RastaRedundancyPacket
free_data p = record p { inner = record p.inner { payload = [] } }

unfoldable pub free_data_at : Heap → Option ℕ → Outcome Heap
unfolding free_data load write
free_data_at h none = faults
free_data_at h (some a) = load h (some a) >>= λ p. returns (write h a (some (free_data p)))

unfoldable pub remove_at : Qsort → Heap → DeferQueue → ℕ → Outcome (Heap × DeferQueue)
unfolding fill_gap free_data_at minus_one sort
remove_at qsort h q index = do
  last ← or_fault (get_elem? q.elements (minus_one q.count))
  let left = record (fill_gap q index last) { count = minus_one q.count }
  h' ← free_data_at h last.packet
  returns (h', sort qsort left)

unfoldable pub remove_found : Qsort → Heap → DeferQueue → Option ℕ → Outcome (Heap × DeferQueue)
unfolding remove_at
remove_found qsort h q none = returns (h, q)
remove_found qsort h q (some index) = remove_at qsort h q index

unfoldable pub deferqueue_remove : Qsort → Heap → DeferQueue → ℕ → Outcome (Heap × DeferQueue)
unfolding find_index remove_found
deferqueue_remove qsort h q seq_nr =
    lock q.locked (find_index h q seq_nr >>= λ found. remove_found qsort h q found)

abbrev pub is_some {ℓ} : {A : Type ℓ} → Option A → Bool
is_some none = false
is_some (some a) = true

unfoldable pub deferqueue_contains : Heap → DeferQueue → ℕ → Outcome Bool
unfolding find_index
deferqueue_contains h q seq_nr =
    lock q.locked (find_index h q seq_nr >>= λ found. returns (is_some found))

-- The loop over the elements from the index `i` on, with the smallest number so far and its index.
unfoldable pub smallest_loop : Heap → DeferQueue → ℕ → ℕ → ℕ → ℕ → Outcome ℕ
unfolding load
smallest_loop h q zero i smallest index = returns index
smallest_loop h q (suc left) i smallest index = do
  w ← or_fault (get_elem? q.elements i)
  p ← load h w.packet
  let less = ltb p.red_sequence smallest
  smallest_loop h q left (i + 1) (if less then p.red_sequence else smallest)
      (if less then i else index)

unfoldable pub deferqueue_smallest_seqnr : Heap → DeferQueue → Outcome ℕ
unfolding smallest_loop
deferqueue_smallest_seqnr h q = lock q.locked (smallest_loop h q q.max_count 0 (2 ^ 32 - 1) 0)

-- `none` for the packet of zeros that stands for a number that is not found.
unfoldable pub get_found : Heap → DeferQueue → Option ℕ → Outcome (Option RastaRedundancyPacket)
unfolding load
get_found h q none = returns none
get_found h q (some index) = do
  w ← or_fault (get_elem? q.elements index)
  p ← load h w.packet
  returns (some p)

unfoldable pub deferqueue_get : Heap → DeferQueue → ℕ → Outcome (Option RastaRedundancyPacket)
unfolding find_index get_found
deferqueue_get h q seq_nr = lock q.locked (find_index h q seq_nr >>= λ found. get_found h q found)

-- 0 where the number is not found.
unfoldable pub ts_found : DeferQueue → Option ℕ → Outcome ℕ
ts_found q none = returns 0
ts_found q (some index) =
    or_fault (get_elem? q.elements index) >>= λ w. returns w.received_timestamp

unfoldable pub deferqueue_get_ts : Heap → DeferQueue → ℕ → Outcome ℕ
unfolding find_index ts_found
deferqueue_get_ts h q seq_nr = lock q.locked (find_index h q seq_nr >>= λ found. ts_found q found)

unfoldable pub deferqueue_clear : DeferQueue → Outcome DeferQueue
deferqueue_clear q = lock q.locked (returns (record q { count = 0 }))

unfoldable pub deferqueue_destroy : DeferQueue → DeferQueue
deferqueue_destroy q = record q { elements = []; count = 0; max_count = 0 }

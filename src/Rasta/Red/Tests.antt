-- ===== src/Rasta/Red/Tests.antt =====
-- The redundancy layer at concrete packets.
use tfm_cloud_ixl_rasta.Prelude.{
  List, ℕ, zero, suc, ◌≡◌, refl, true, false, none, some, [], ◌∷◌, arith,
}
use tfm_cloud_ixl_rasta.Rasta.Packet.{RastaPacket}
use tfm_cloud_ixl_rasta.Rasta.Codec.{RastaRedundancyPacket}
use tfm_cloud_ixl_rasta.Rasta.Red.Outcome.{Outcome, returns, faults, Heap}
use tfm_cloud_ixl_rasta.Rasta.Red.Queue.{
  Qsort, PacketWrapper, DeferQueue, sort, find_index, deferqueue_remove, free_data,
}
use tfm_cloud_ixl_rasta.Rasta.Red.Find.{find_first, find_index_lem}
use tfm_cloud_ixl_rasta.Rasta.Red.Sound.{Permutes}
use tfm_cloud_ixl_rasta.Rasta.Red.Channel.{TransportChannel, Host, World, rasta_red_init}
use tfm_cloud_ixl_rasta.Rasta.Red.Runs.{Arrival, run_arrivals}
use tfm_cloud_ixl_rasta.Rasta.Red.Dangling.{rasta_red_f_receive-faults}
use tfm_cloud_ixl_rasta.Rasta.Red.Receive.{rasta_red_f_receive}
use tfm_cloud_ixl_rasta.Rasta.Red.Removal.{deferqueue_remove-frees_last}

-- These packets are in the order of their times already.
abbrev pub in_place : Qsort
in_place cmp xs = xs

abbrev pub host : Host
host = record {
  now = 5;
  qsort = in_place;
  big = false;
  hash = λ m. [];
  hash_length = 0;
  unset = [];
}

pub in_place-Permutes : Permutes in_place
unfolding Permutes
in_place-Permutes test cmp xs = refl

abbrev pub inner_packet : ℕ → RastaPacket
inner_packet n = record {
  packet_length = 29;
  type = 6240;
  receiver_id = 97;
  sender_id = 96;
  sequence_number = n;
  confirmed_sequence_number = 0;
  timestamp = 0;
  confirmed_timestamp = 0;
  payload = n ∷ [];
  checksum = [];
  checksum_correct = true;
}

abbrev pub numbered : ℕ → RastaRedundancyPacket
numbered n = record {
  red_length = 37;
  reserve = 0;
  red_sequence = n;
  inner = inner_packet n;
  red_correct = true;
  width = 0;
}

abbrev arrives : ℕ → ℕ → Arrival
arrives t n = record { time = t; packet = numbered n; port = 0 }

abbrev pub port : TransportChannel
port = record {
  ip_address = [];
  port = 8888;
  diagnostics_data = record {
    start_time = 0;
    n_missed = 0;
    t_drift = 0;
    t_drift2 = 0;
    received_packets = 0;
  };
}

abbrev pub world : World
world = record {
  heap = λ a. none;
  lasterror = false;
  channel = rasta_red_init 4 100 (port ∷ []) 1 96;
}

-- The number that is due, of a call that returned.
abbrev due_after : Outcome World → ℕ
due_after (returns w) = w.channel.seq_rx
due_after o = 0

-- The packet 2 waits for the packet 1.
reordered : due_after (run_arrivals host 0 (arrives 5 0 ∷ arrives 6 2 ∷ arrives 7 1 ∷ []) world) ≡ 3
unfolding run_arrivals rasta_red_init
reordered = refl

abbrev three : List Arrival
three = arrives 5 0 ∷ arrives 6 2 ∷ arrives 7 1 ∷ []

abbrev wrapper : ℕ → PacketWrapper
wrapper a = record { packet = some a; received_timestamp = a }

-- Two packets, 0 and 1, at the addresses with their numbers.
abbrev two_packets : Heap
two_packets zero = some (numbered 0)
two_packets (suc zero) = some (numbered 1)
two_packets (suc (suc a)) = none

abbrev both : DeferQueue
both = record { elements = wrapper 0 ∷ wrapper 1 ∷ []; count = 2; max_count = 2; locked = false }

find_index_lem_example : find_index two_packets both 1 ≡ find_first two_packets (some (wrapper 0)) 1
find_index_lem_example = find_index_lem two_packets both 1 (omega arith)

deferqueue_remove-frees_last_example :
    (h' : Heap) × (q' : DeferQueue) × (deferqueue_remove in_place two_packets both 0
      ≡ returns (h', q'))
    × (h' 1 ≡ some (free_data (numbered 1)))
    × (h' 0 ≡ some (numbered 0))
    × (q' ≡ sort in_place (record both { elements = wrapper 1 ∷ wrapper 1 ∷ []; count = 1 }))
unfolding find_index
deferqueue_remove-frees_last_example =
    deferqueue_remove-frees_last in_place two_packets both 0 0 1 (wrapper 0) (wrapper 1)
      (numbered 1) refl (omega arith) (omega arith) refl refl refl refl refl refl (omega arith)

-- The packet at the address 7 waited; its memory was freed when the packet 0 comes.
abbrev freed_world : World
freed_world = record world {
  heap = two_packets;
  channel = record world.channel {
    defer_q = record both { elements = wrapper 7 ∷ wrapper 7 ∷ []; count = 1 };
  };
}

rasta_red_f_receive-faults_example : rasta_red_f_receive host 0 0 freed_world ≡ faults
unfolding rasta_red_init
rasta_red_f_receive-faults_example =
    rasta_red_f_receive-faults host freed_world 0 0 (numbered 0) refl refl refl refl refl
      (omega arith) refl
      (record { first = wrapper 7; stands = refl; freed = 7; points = refl; gone = refl })

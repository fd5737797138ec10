-- ===== src/Rasta/Red/Runs.antt =====
-- rastaredundancy_new.c: what packets that arrive one after the other do to a channel. Each lies at
-- an address of its own, and stays in memory.
pub mod Ready
use tfm_cloud_ixl_rasta.Prelude.{
  ℕ, suc, ◌*◌, ◌%◌, ◌^◌, ◌+◌, ◌≤◌, ◌<◌, ◌≡◌, ◌==◌, ==_iff, Bool, true, false, Bool-cases, ◌⊎◌,
  Option, none, some, List, [], ◌∷◌, length, get_elem?, Passes, length-take, replicate,
  length-replicate,
}
use tfm_cloud_ixl_rasta.Rasta.Codec.{RastaRedundancyPacket}
use tfm_cloud_ixl_rasta.Rasta.Red.Outcome.{Outcome, returns, ◌>>=◌, Heap, write}
use tfm_cloud_ixl_rasta.Rasta.Red.Queue.{PacketWrapper, DeferQueue, defer_queue_init, free_data}
use tfm_cloud_ixl_rasta.Rasta.Red.Sound.{is_number, live_at, is_live, IsQueue}
use tfm_cloud_ixl_rasta.Rasta.Red.Sound.Queues.{first}
use tfm_cloud_ixl_rasta.Rasta.Red.Sound.Channels.{is_past, points_to_past, NoneStale, IsSound}
use tfm_cloud_ixl_rasta.Rasta.Red.Channel.{TransportChannel, Host, World, rasta_red_init}
use tfm_cloud_ixl_rasta.Rasta.Red.Receive.{rasta_red_f_receive}
use tfm_cloud_ixl_rasta.Rasta.Red.Order.{Holds}
use tfm_cloud_ixl_rasta.Rasta.Red.Placed.{placed}

-- A packet that arrives at a time on a transport channel.
pub record Arrival : Type 0 where
  pub time : ℕ
  pub packet : RastaRedundancyPacket
  pub port : ℕ

abbrev pub at_time : Host → ℕ → Host
at_time host t = record host { now = t }

-- The first packet is put at the address `n`, the next at the one after it.
unfoldable pub run_arrivals : Host → ℕ → List Arrival → World → Outcome World
unfolding rasta_red_f_receive
run_arrivals host n [] w = returns w
run_arrivals host n (a ∷ more) w =
    rasta_red_f_receive (at_time host a.time) n a.port (placed n a.packet w)
    >>= run_arrivals host (suc n) more

-- A channel is ready for packets at the addresses from `n` on.
pub record IsReady (n : ℕ) (w : World) : Type 0 where
  pub sound : IsSound w
  pub unlocked : w.channel.channel_locked ≡ false
  pub buffer_free : w.channel.diagnostics_packet_buffer.locked ≡ false
  pub fresh : (a : ℕ) → n ≤ a → w.heap a ≡ none

-- A packet with a number of 32 bits that is as long as its fields and its check sum at least.
abbrev pub IsArrival : Host → ℕ → Arrival → Type 0
IsArrival host ports a =
    (a.packet.red_sequence < 2 ^ 32)
    × (a.port < ports)
    × (28 + 8 * host.hash_length ≤ a.packet.inner.packet_length)

-- One of the packets that arrive, perhaps after its data was freed.
abbrev pub IsArrived : List Arrival → RastaRedundancyPacket → Type 0
IsArrived arrivals p =
    (i : ℕ) × (a : Arrival) × (get_elem? arrivals i ≡ some a)
    × ((p ≡ a.packet) ⊎ (p ≡ free_data a.packet))

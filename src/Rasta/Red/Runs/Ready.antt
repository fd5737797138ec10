-- ===== src/Rasta/Red/Runs/Ready.antt =====
-- rastaredundancy_new.c: a new channel is ready for packets.
use tfm_cloud_ixl_rasta.Prelude.{
  ℕ, zero, suc, ◌*◌, ◌%◌, ◌^◌, ◌≤◌, ◌<◌, ◌≡◌, refl, sym, ap, Bool, none, some, List, length,
  get_elem?, Passes, length-take, replicate, length-replicate, arith,
}
use tfm_cloud_ixl_rasta.Rasta.Red.Outcome.{Heap}
use tfm_cloud_ixl_rasta.Rasta.Red.Queue.{PacketWrapper, defer_queue_init}
use tfm_cloud_ixl_rasta.Rasta.Red.Sound.{live_at, is_live, IsQueue}
use tfm_cloud_ixl_rasta.Rasta.Red.Sound.Channels.{points_to_past, NoneStale}
use tfm_cloud_ixl_rasta.Rasta.Red.Channel.{TransportChannel, rasta_red_init}
use tfm_cloud_ixl_rasta.Rasta.Red.Runs.{IsReady}

null_wrappers :
    (h : Heap) (n : ℕ)
    → Passes (is_live h) (replicate n (record { packet = none; received_timestamp = 0 }))
unfolding is_live live_at
null_wrappers h zero = tt
null_wrappers h (suc n) = (refl, null_wrappers h n)

defer_queue_init-IsQueue : (h : Heap) (n : ℕ) → 0 < n → n < 2 ^ 32 → IsQueue h (defer_queue_init n)
unfolding defer_queue_init
defer_queue_init-IsQueue h n pos lt = record {
  size = length-replicate n _;
  positive = pos;
  small = lt;
  fits = omega arith;
  live = null_wrappers h n;
  filled = tt;
}

get_elem?-replicate {ℓ} :
    {A : Type ℓ} (n i : ℕ) (a x : A) → get_elem? (replicate n a) i ≡ some x → a ≡ x
get_elem?-replicate zero i a x e = cc
get_elem?-replicate (suc n) zero a x e = cc
get_elem?-replicate (suc n) (suc i) a x e = get_elem?-replicate n i a x e

-- A new channel is ready, in a memory with no packets.
pub rasta_red_init-IsReady :
    (size t_seq ports id : ℕ) (unset : List TransportChannel) (failed : Bool)
    → 0 < size
    → 10 * size < 2 ^ 32
    → ports ≤ length unset
    → IsReady 0 (record {
      heap = λ a. none;
      lasterror = failed;
      channel = rasta_red_init size t_seq unset ports id;
    })
unfolding rasta_red_init NoneStale points_to_past
rasta_red_init-IsReady size t_seq ports id unset failed pos lt le = record {
  sound = record {
    deferred = defer_queue_init-IsQueue (λ a. none) size pos (omega arith);
    noted = defer_queue_init-IsQueue (λ a. none) ((10 * size) % 2 ^ 32) (omega arith) (omega arith);
    free = refl;
    none_stale = λ z e g.
        let n = get_elem?-replicate size 0 (record { packet = none; received_timestamp = 0 }) e g in
        ap (λ (x : PacketWrapper). points_to_past (λ a. none) x.packet 0) (sym n);
    bounded = omega arith;
    ports = length-take ports unset le;
  };
  unlocked = refl;
  buffer_free = refl;
  fresh = λ a _. refl;
}

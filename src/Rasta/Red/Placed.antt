-- ===== src/Rasta/Red/Placed.antt =====
-- rastaredundancy_new.c: a packet that is put into the memory of a channel.
use tfm_cloud_ixl_rasta.Prelude.{
  ℕ, ◌<◌, ◌≡◌, refl, sym, ◌∙◌, ap, ◌==◌, ==_iff, true, Bool-cases, inl, inr, Option, none, some,
  List, [], ◌∷◌, Passes, arith,
}
use tfm_cloud_ixl_rasta.Rasta.Codec.{RastaRedundancyPacket}
use tfm_cloud_ixl_rasta.Rasta.Red.Outcome.{Heap, write}
use tfm_cloud_ixl_rasta.Rasta.Red.Queue.{PacketWrapper, DeferQueue}
use tfm_cloud_ixl_rasta.Rasta.Red.Sound.{number, is_number, live_at, is_live, IsQueue}
use tfm_cloud_ixl_rasta.Rasta.Red.Sound.Queues.{first, some-injective}
use tfm_cloud_ixl_rasta.Rasta.Red.Sound.Channels.{is_past, points_to_past, NoneStale, IsSound}
use tfm_cloud_ixl_rasta.Rasta.Red.Channel.{World}

abbrev pub placed : ℕ → RastaRedundancyPacket → World → World
placed n p w = record w { heap = write w.heap n (some p) }

pub none_not_some :
    (o : Option RastaRedundancyPacket) (p : RastaRedundancyPacket) → o ≡ none → o ≡ some p → ⊥
none_not_some o p e g = cc

none_not_live : (o : Option RastaRedundancyPacket) → o ≡ none → is_number (number o) ≡ true → ⊥
unfolding is_number
none_not_live none e k = cc
none_not_live (some p) e k = cc

-- A new packet in memory changes none of those that are there.
module _ (h : Heap) (n : ℕ) (p : RastaRedundancyPacket) (e : h n ≡ none) where
  write_elsewhere :
      (a : ℕ) → is_number (number (h a)) ≡ true → number (write h n (some p) a) ≡ number (h a)
  unfolding write is_number
  write_elsewhere a k = elim (Bool-cases (a == n)) [
    | inl t ↦ absurd (none_not_live (h a) (ap h ((==_iff a n).0 t) ∙ e) k)
    | inr f ↦ rw f refl
  ]

  live_at-write : (o : Option ℕ) → live_at h o ≡ true → live_at (write h n (some p)) o ≡ true
  unfolding live_at
  live_at-write none k = refl
  live_at-write (some a) k = ap is_number (write_elsewhere a k) ∙ k

  Passes-write :
      (xs : List PacketWrapper) → Passes (is_live h) xs → Passes (is_live (write h n (some p))) xs
  unfolding is_live
  Passes-write [] k = tt
  Passes-write (x ∷ xs) k = (live_at-write x.packet k.0, Passes-write xs k.1)

  IsQueue-write : (q : DeferQueue) → IsQueue h q → IsQueue (write h n (some p)) q
  IsQueue-write q v = record {
    size = v.size;
    positive = v.positive;
    small = v.small;
    fits = v.fits;
    live = Passes-write q.elements v.live;
    filled = v.filled;
  }

  points_to_past-write :
      (o : Option ℕ) (s : ℕ)
      → live_at h o ≡ true
      → points_to_past h o s ≡ true
      → points_to_past (write h n (some p)) o s ≡ true
  unfolding points_to_past live_at
  points_to_past-write none s k b = refl
  points_to_past-write (some a) s k b = ap (λ x. is_past x s) (write_elsewhere a k) ∙ b

pub IsSound-placed :
    (w : World) (n : ℕ) (p : RastaRedundancyPacket)
    → w.heap n ≡ none
    → IsSound w
    → IsSound (placed n p w)
unfolding NoneStale is_live
IsSound-placed w n p e sd = record {
  deferred = IsQueue-write w.heap n p e w.channel.defer_q sd.deferred;
  noted = IsQueue-write w.heap n p e w.channel.diagnostics_packet_buffer sd.noted;
  free = sd.free;
  none_stale = λ z x g.
      let (d, gd, k) = first w.heap w.channel.defer_q sd.deferred in
      let kx : live_at w.heap x.packet ≡ true =
        ap (λ (y : PacketWrapper). live_at w.heap y.packet) (some-injective (sym g ∙ gd)) ∙ k in
      points_to_past-write w.heap n p e x.packet w.channel.seq_rx kx (sd.none_stale z x g);
  bounded = sd.bounded;
  ports = sd.ports;
}

pub none_of_number : (o : Option RastaRedundancyPacket) → number o ≡ none → o ≡ none
none_of_number none e = refl
none_of_number (some p) e = cc

pub write_self : (h : Heap) (n : ℕ) (v : Option RastaRedundancyPacket) → write h n v n ≡ v
unfolding write
write_self h n v = ground arith

pub write_above :
    (h : Heap) (n a : ℕ) (v : Option RastaRedundancyPacket) → n < a → write h n v a ≡ h a
unfolding write
write_above h n a v lt = ground arith

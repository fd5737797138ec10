-- ===== src/Rasta/Red/Sound/Received.antt =====
-- rastaredundancy_new.c: what holds after a packet, and that the counts for the diagnosis are taken.
use tfm_cloud_ixl_rasta.Prelude.{
  ℕ, ◌+◌, ◌-◌, ◌%◌, ◌^◌, ◌≤◌, ◌<◌, ◌≡◌, refl, ◌∙◌, ap, ◌==◌, Bool, true, false, Bool-cases, inl,
  inr, Option, none, some, set, get_elem?, get_elem?-lt, length-set, arith,
}
use tfm_cloud_ixl_rasta.Rasta.Red.Outcome.{Outcome, returns, or_fault, Heap, returns->>=}
use tfm_cloud_ixl_rasta.Rasta.Red.Queue.{DeferQueue}
use tfm_cloud_ixl_rasta.Rasta.Red.Sound.{Permutes, number, Keeps}
use tfm_cloud_ixl_rasta.Rasta.Red.Sound.Channels.{
  is_past, points_to_past, IsSound, Steps, Steps-refl, set_locked-Steps,
}
use tfm_cloud_ixl_rasta.Rasta.Red.Channel.{
  DiagnosticsData, TransportChannel, Host, World, set_locked,
}
use tfm_cloud_ixl_rasta.Rasta.Red.Receive.{update_diagnostics, count_delay, note_delay}

-- After a packet: the channel is unlocked, and so is the buffer for the diagnosis.
pub record Received (w w' : World) : Type 0 where
  pub sound : IsSound w'
  pub keeps : Keeps w.heap w'.heap
  pub same_ports : w'.channel.transport_channel_count ≡ w.channel.transport_channel_count
  pub same_id : w'.channel.associated_id ≡ w.channel.associated_id
  pub unlocked : w'.channel.channel_locked ≡ false
  pub buffer_free : w'.channel.diagnostics_packet_buffer.locked ≡ false

-- The statement about each branch.
abbrev pub Returns : World → Outcome World → Type 0
Returns w m = (w' : World) × (m ≡ returns w') × Received w w'

set_locked_lem : (b : Bool) (w : World) → (set_locked b w).channel.channel_locked ≡ b
unfolding set_locked
set_locked_lem b w = refl

pub unlock-Received :
    (host : Host) (perm : Permutes host.qsort) (w w' : World)
    → Steps w w'
    → w.channel.diagnostics_packet_buffer.locked ≡ false
    → Received w (set_locked false w')
unfolding set_locked
unlock-Received host perm w w' st l =
    let st' = set_locked-Steps host perm w w' false st in
    record {
      sound = st'.sound;
      keeps = st'.keeps;
      same_ports = st'.same_ports;
      same_id = st'.same_id;
      unlocked = refl;
      buffer_free = ap (λ (q : DeferQueue). q.locked) st'.same_buffer ∙ l;
    }

is_past_later : (n : Option ℕ) (s s' : ℕ) → s ≤ s' → is_past n s ≡ true → is_past n s' ≡ true
unfolding is_past
is_past_later none s s' le e = refl
is_past_later (some n) s s' le e = ground arith

pub points_to_past_later :
    (h : Heap) (o : Option ℕ) (s s' : ℕ)
    → s ≤ s'
    → points_to_past h o s ≡ true
    → points_to_past h o s' ≡ true
unfolding points_to_past
points_to_past_later h none s s' le e = refl
points_to_past_later h (some a) s s' le e = is_past_later (number (h a)) s s' le e

module _ (host : Host) (perm : Permutes host.qsort) (w : World) (sd : IsSound w) where
  pub update_diagnostics-Steps :
      (f : DiagnosticsData → DiagnosticsData) (id : ℕ)
      → id < w.channel.transport_channel_count
      → (w' : World) × (update_diagnostics f id w ≡ returns w')
        × Steps w w'
        × (w'.channel.seq_rx ≡ w.channel.seq_rx)
        × (w'.channel.channel_locked ≡ w.channel.channel_locked)
  unfolding update_diagnostics Keeps
  update_diagnostics-Steps f id lt =
      let (t, g) = get_elem?-lt w.channel.connected_channels id (omega (arith, sd.ports)) in
      let t' : TransportChannel = record t { diagnostics_data = f t.diagnostics_data } in
      (
        record w {
          channel = record w.channel {
            connected_channels = set w.channel.connected_channels id t';
          };
        },
        returns->>= (or_fault (get_elem? w.channel.connected_channels id)) _ (ap or_fault g) refl,
        record {
          sound = record {
            deferred = sd.deferred;
            noted = sd.noted;
            free = sd.free;
            none_stale = sd.none_stale;
            bounded = sd.bounded;
            ports = length-set w.channel.connected_channels id t' ∙ sd.ports;
          };
          keeps = λ a. refl;
          same_buffer = refl;
          same_ports = refl;
          same_id = refl;
        },
        refl,
        refl,
      )

pub note_delay-Steps :
    (host : Host) (perm : Permutes host.qsort) (w : World)
    → IsSound w
    → (id ts : ℕ) → id < w.channel.transport_channel_count
    → (w' : World) × (note_delay host id ts w ≡ returns w') × Steps w w'
unfolding note_delay
note_delay-Steps host perm w sd id ts lt = elim (Bool-cases (ts == 0)) [
  | inl z ↦ (w, rw z refl, Steps-refl w sd)
  | inr z ↦
      let (w', e, st, _, _) =
        update_diagnostics-Steps host perm w sd
          (count_delay w.channel.t_seq ((host.now + 2 ^ 64 - ts) % 2 ^ 64)) id lt in
      (w', rw z e, st)
]

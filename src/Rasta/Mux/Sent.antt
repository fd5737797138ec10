-- ===== src/Rasta/Mux/Sent.antt =====
-- rasta_red_multiplexer.c and rastamodule.c: the datagram of a sent packet is decoded to the packet,
-- and so is what a channel queues for it.
use tfm_cloud_ixl_rasta.Prelude.{
  ℕ, ◌+◌, ◌*◌, ◌/◌, ◌%◌, ◌^◌, ◌≤◌, ◌<◌, ◌≡◌, refl, ◌∙◌, ap, ltb, Bool, false, Bool-cases, inl, inr,
  List, ◌++◌, length, take, take_long, arith,
}
use tfm_cloud_ixl_rasta.Rasta.Packet.{RastaPacket}
use tfm_cloud_ixl_rasta.Rasta.Codec.{
  RastaRedundancyPacket, create_redundancy_packet, pack_fields, bytes_to_rasta_packet,
  bytes_to_rasta_redundancy_packet,
}
use tfm_cloud_ixl_rasta.Rasta.Codec.RoundTrip.{
  IsPackable, summed, keeps_checksum, bytes_to_rasta_packet-rasta_module_to_bytes,
}
use tfm_cloud_ixl_rasta.Rasta.Codec.Redundancy.{length-encoded, bytes_to_redundancy_packet-to_bytes}
use tfm_cloud_ixl_rasta.Rasta.Red.Channel.{RedundancyChannel, Host}
use tfm_cloud_ixl_rasta.Rasta.Red.Receive.{encode_kept}
use tfm_cloud_ixl_rasta.Rasta.Mux.State.{RedundancyMux, MuxHost, MuxWorld}
use tfm_cloud_ixl_rasta.Rasta.Mux.Send.{bytes_to_send}
use tfm_cloud_ixl_rasta.Rasta.Mux.Receive.{max_defer_queue_msg_size, received_packet}

-- The sender has the same codec, with other memory.
abbrev pub with_memory : MuxHost → List ℕ → MuxHost
with_memory h memory = record h { host = record h.host { unset = memory } }

-- The check sum that the sender calculates.
abbrev pub sum_of : Host → RastaPacket → List ℕ
sum_of h p = take (8 * h.hash_length) (h.hash (pack_fields h.big p ++ p.payload))

-- A packet that fits its fields, and a datagram of 1000 bytes, at a channel with a number of 32 bits
-- and a check sum of at most 32.
pub record IsSendable (h : MuxHost) (m : RedundancyMux) (c : RedundancyChannel) (p : RastaPacket)
    : Type 0 where
  pub hashes : (bytes : List ℕ) → 8 * h.host.hash_length ≤ length (h.host.hash bytes)
  pub packable : IsPackable h.host.hash_length p
  pub narrow : m.config.crc_width ≤ 32
  pub short : 8 + p.packet_length + m.config.crc_width / 8 ≤ 1000
  pub number : c.seq_tx < 2 ^ 32

module _ (h : MuxHost) (memory : List ℕ) (m : RedundancyMux) (c : RedundancyChannel)
    (p : RastaPacket) (s : IsSendable h m c p) where
  abbrev pub sent : List ℕ
  sent = (bytes_to_send (with_memory h memory) false m c p).0

  abbrev pub decode : ℕ → Bool → List ℕ → RastaRedundancyPacket × Bool
  decode =
      bytes_to_rasta_redundancy_packet h.host.big h.host.hash h.host.hash_length h.crc h.beyond
        h.unset_packet

  abbrev pub wrapped : RastaRedundancyPacket
  wrapped = record (create_redundancy_packet m.config.crc_width c.seq_tx p) {
    inner = summed p (sum_of h.host p);
  }

  -- The datagram is decoded to the packet, wrapped with the channel's number.
  pub received_packet-sent :
      (w : MuxWorld)
      → w.mux.config.crc_width ≡ m.config.crc_width
      → w.lasterror ≡ false
      → received_packet h w sent ≡ (wrapped, false)
  unfolding received_packet bytes_to_send
  received_packet-sent w width ok =
      let g = h.host in
      let n = c.seq_tx % 2 ^ 32 in
      let seq : n ≡ c.seq_tx = omega (arith, s.number) in
      let size : length sent ≤ 1000 = omega (
        arith,
        length-encoded g.big g.hash g.hash_length h.crc memory p m.config.crc_width n s.hashes
            s.packable (omega (arith, s.short)) s.narrow,
        s.short,
      ) in
      ap (λ x. decode x w.lasterror (take max_defer_queue_msg_size sent)) width
      ∙ ap (λ x. decode m.config.crc_width x (take max_defer_queue_msg_size sent)) ok
      ∙ ap (λ x. decode m.config.crc_width false x) (take_long max_defer_queue_msg_size sent size)
      ∙ bytes_to_redundancy_packet-to_bytes g.big g.hash g.hash_length h.crc memory h.beyond
          h.unset_packet p m.config.crc_width n s.hashes s.packable s.narrow (omega arith)
          (omega (arith, s.short))
      ∙ ap
          (λ x. (
            record (create_redundancy_packet m.config.crc_width x p) {
              inner = summed p (sum_of g p);
            },
            false,
          ))
          seq

-- Decoding does not depend on an error that was noted.
decoded_any :
    (h : MuxHost) (failed : Bool) (bytes : List ℕ)
    → (bytes_to_rasta_packet h.host.big h.host.hash h.host.hash_length h.beyond h.unset_packet
        failed bytes).0
      ≡ (bytes_to_rasta_packet h.host.big h.host.hash h.host.hash_length h.beyond h.unset_packet
          false bytes).0
unfolding bytes_to_rasta_packet
decoded_any h failed bytes = elim (Bool-cases (ltb (length bytes) (28 + 8 * h.host.hash_length))) [
  | inl short ↦ rw short refl
  | inr long ↦ rw long refl
]

-- What is queued for a packet with its own check sum is decoded to it.
pub queued_packet :
    (h : MuxHost) (p : RastaPacket) (failed : Bool)
    → ((bytes : List ℕ) → 8 * h.host.hash_length ≤ length (h.host.hash bytes))
    → IsPackable h.host.hash_length p
    → (bytes_to_rasta_packet h.host.big h.host.hash h.host.hash_length h.beyond h.unset_packet
        failed
        (encode_kept h.host false (summed p (sum_of h.host p))).0).0
      ≡ summed p (sum_of h.host p)
unfolding encode_kept
queued_packet h p failed hashes packable =
    let g = h.host in
    let (_, back) =
      bytes_to_rasta_packet-rasta_module_to_bytes g.big g.hash g.hash_length g.unset h.beyond
        h.unset_packet p hashes packable in
    decoded_any h failed _
    ∙ ap (λ x. (bytes_to_rasta_packet g.big g.hash g.hash_length h.beyond h.unset_packet false x).0)
        (keeps_checksum g.big g.hash g.hash_length g.unset g.unset p packable)
    ∙ ap (λ x. x.0) back

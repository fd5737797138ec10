-- ===== src/Rasta/Codec/Failure.antt =====
-- rastamodule.c: what follows when an array that is too short was decoded.
use tfm_cloud_ixl_rasta.Prelude.{
  ℕ, ◌+◌, ◌*◌, ◌<◌, ◌≡◌, refl, ltb, Bool, true, false, List, [], ◌∷◌, length, take, arith,
  Bool-cases, inl, inr,
}
use tfm_cloud_ixl_rasta.Rasta.Packet.{RastaPacket}
use tfm_cloud_ixl_rasta.Rasta.Codec.{
  allocate_bytes, rasta_module_to_bytes, rasta_module_to_bytes_no_checksum, bytes_to_rasta_packet,
}

module _ (big : Bool) (hash : List ℕ → List ℕ) (hl : ℕ) where
  -- The error after arrays are decoded one after the other, each with what follows it in the memory,
  -- into a packet with old contents.
  unfoldable pub error_after : Bool → List (List ℕ × RastaPacket × List ℕ) → Bool
  error_after failed [] = failed
  error_after failed ((beyond, old, bytes) ∷ more) =
      error_after (bytes_to_rasta_packet big hash hl beyond old failed bytes).1 more

  error_stays : (more : List (List ℕ × RastaPacket × List ℕ)) → error_after true more ≡ true
  unfolding error_after bytes_to_rasta_packet
  error_stays [] = refl
  error_stays ((beyond, old, bytes) ∷ more) = elim (Bool-cases (ltb (length bytes) (28 + 8 * hl))) [
    | inl e ↦ rw e (error_stays more)
    | inr e ↦ rw e (error_stays more)
  ]

  -- Once an array was decoded that is shorter than the fields and the check sum of a packet, the
  -- result is marked incorrect, and whatever arrays are decoded after it, the error stays set and
  -- every later encoding, with or without a new check sum, fails and leaves the bytes that the memory
  -- held.
  pub encoding_fails_after_short :
      (beyond : List ℕ) (old : RastaPacket) (failed : Bool) (short : List ℕ)
      (between : List (List ℕ × RastaPacket × List ℕ)) (memory : List ℕ) (p : RastaPacket)
      → length short < 28 + 8 * hl
      → let after = bytes_to_rasta_packet big hash hl beyond old failed short in
        let later = error_after after.1 between in
        (after.0.checksum_correct ≡ false)
        × (later ≡ true)
        × (rasta_module_to_bytes big hash hl memory later p ≡ (take p.packet_length memory, true))
        × (rasta_module_to_bytes_no_checksum big hash hl memory later p
            ≡ (take p.packet_length memory, true))
  unfolding bytes_to_rasta_packet rasta_module_to_bytes rasta_module_to_bytes_no_checksum
      allocate_bytes
  encoding_fails_after_short beyond old failed short between memory p h =
      let few : ltb (length short) (28 + 8 * hl) ≡ true = ground (arith, h) in
      rw (few, error_stays between) (refl, refl, refl, refl)

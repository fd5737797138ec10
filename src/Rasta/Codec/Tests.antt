-- ===== src/Rasta/Codec/Tests.antt =====
-- rastamodule.c at a concrete packet, with a hash that repeats the length.
use tfm_cloud_ixl_rasta.Prelude.{
  ℕ, ◌*◌, ◌%◌, ◌≤◌, ◌≡◌, refl, true, false, List, [], ◌∷◌, ◌++◌, length, length-replicate, take,
  replicate, arith,
}
use tfm_cloud_ixl_rasta.Rasta.Packet.{RastaPacket, rasta_type_data}
use tfm_cloud_ixl_rasta.Rasta.Codec.{
  pack_fields, rasta_module_to_bytes, rasta_module_to_bytes_no_checksum, bytes_to_rasta_packet,
  create_redundancy_packet, rasta_redundancy_packet_to_bytes, bytes_to_rasta_redundancy_packet,
}
use tfm_cloud_ixl_rasta.Rasta.Codec.RoundTrip.{
  summed, IsPackable, bytes_to_rasta_packet-rasta_module_to_bytes,
}
use tfm_cloud_ixl_rasta.Rasta.Codec.Failure.{error_after, encoding_fails_after_short}
use tfm_cloud_ixl_rasta.Rasta.Codec.Redundancy.{bytes_to_redundancy_packet-to_bytes}

abbrev hash : List ℕ → List ℕ
hash m = replicate 16 (length m % 256)

abbrev crc : List ℕ → ℕ
crc m = length m

abbrev packet : RastaPacket
packet = record {
  packet_length = 39;
  type = rasta_type_data;
  receiver_id = 0x61;
  sender_id = 0x60;
  sequence_number = 7;
  confirmed_sequence_number = 6;
  timestamp = 1000;
  confirmed_timestamp = 900;
  payload = 1 ∷ 0 ∷ 9 ∷ [];
  checksum = [];
  checksum_correct = false;
}

packet-IsPackable : IsPackable 1 packet
packet-IsPackable = (
  omega arith,
  omega arith,
  omega arith,
  omega arith,
  omega arith,
  omega arith,
  omega arith,
  omega arith,
  refl,
)

hash_long : (m : List ℕ) → 8 * 1 ≤ length (hash m)
hash_long m = omega (arith, length-replicate 16 (length m % 256))

bytes_to_rasta_packet-rasta_module_to_bytes_example :
    ((rasta_module_to_bytes false hash 1 [] false packet).1 ≡ false)
    × (bytes_to_rasta_packet false hash 1
          (9 ∷ [])
          packet
          false
          (rasta_module_to_bytes false hash 1 [] false packet).0
        ≡ (summed packet (take 8 (hash (pack_fields false packet ++ packet.payload))), false))
bytes_to_rasta_packet-rasta_module_to_bytes_example =
    bytes_to_rasta_packet-rasta_module_to_bytes false hash 1 [] (9 ∷ []) packet packet hash_long
      packet-IsPackable

bytes_to_redundancy_packet-to_bytes_example :
    bytes_to_rasta_redundancy_packet false hash 1 crc
      (9 ∷ [])
      packet
      32
      false
      (rasta_redundancy_packet_to_bytes false hash 1 crc [] false
        (create_redundancy_packet 32 5 packet)).0
    ≡ (
      record (create_redundancy_packet 32 5 packet) {
        inner = summed packet (take 8 (hash (pack_fields false packet ++ packet.payload)));
      },
      false,
    )
bytes_to_redundancy_packet-to_bytes_example =
    bytes_to_redundancy_packet-to_bytes false hash 1 crc [] (9 ∷ []) packet packet 32 5 hash_long
      packet-IsPackable (omega arith) (omega arith) (omega arith)

encoding_fails_after_short_example :
    let after = bytes_to_rasta_packet false hash 1 (9 ∷ []) packet false (1 ∷ 2 ∷ []) in
    let later =
      error_after false hash 1 after.1 (([], packet, []) ∷ ([], packet, replicate 60 0) ∷ []) in
    (after.0.checksum_correct ≡ false)
    × (later ≡ true)
    × (rasta_module_to_bytes false hash 1 (replicate 39 7) later packet
        ≡ (take 39 (replicate 39 7), true))
    × (rasta_module_to_bytes_no_checksum false hash 1 (replicate 39 7) later packet
        ≡ (take 39 (replicate 39 7), true))
encoding_fails_after_short_example =
    encoding_fails_after_short false hash 1 (9 ∷ []) packet false (1 ∷ 2 ∷ [])
      (([], packet, []) ∷ ([], packet, replicate 60 0) ∷ []) (replicate 39 7) packet (omega arith)

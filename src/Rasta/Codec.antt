-- ===== src/Rasta/Codec.antt =====
-- src/rasta/c/rastamodule.c: the bytes of the packets of the safety and retransmission layer, and of
-- the redundancy packets around them. The hash of rastahashing.c, with the key of its context, and
-- `crc_calculate` are arguments.

pub mod RoundTrip
pub mod Failure
pub mod Redundancy
mod Tests
use tfm_cloud_ixl_rasta.Prelude.{
  ℕ, ◌+◌, ◌-◌, ◌*◌, ◌%◌, ◌^◌, ◌/◌, ltb, ◌==◌, Bool, true, false, ◌||◌, List, [], ◌++◌, length, take,
  drop, if◌then◌else◌,
}
use tfm_cloud_ixl_rasta.Bytes.{short_to_bytes, bytes_to_short, long_to_bytes, bytes_to_long}
use tfm_cloud_ixl_rasta.Sci.Scils.{bytes_eq}
use tfm_cloud_ixl_rasta.Rasta.Packet.{RastaPacket}

-- `allocateBytes` notes in the global `rastamodule_lasterror` that a packet is too short. Nothing in
-- the library reads the error by the function that clears it, so it stays set.
unfoldable pub allocate_bytes : ℕ → RastaPacket → Bool → Bool
allocate_bytes hash_length p failed = failed || ltb p.packet_length (28 + 8 * hash_length)

-- Unsigned arithmetic of 32 bits.
unfoldable pub get_data_length : ℕ → ℕ → ℕ
get_data_length hash_length packet_length = (packet_length + 2 ^ 33 - 28 - 8 * hash_length) % 2 ^ 32

-- The bytes 0 to 27.
unfoldable pub pack_fields : Bool → RastaPacket → List ℕ
pack_fields big p =
    short_to_bytes big p.packet_length
    ++ (short_to_bytes big p.type
        ++ (long_to_bytes big p.receiver_id
            ++ (long_to_bytes big p.sender_id
                ++ (long_to_bytes big p.sequence_number
                    ++ (long_to_bytes big p.confirmed_sequence_number
                        ++ (long_to_bytes big p.timestamp
                            ++ long_to_bytes big p.confirmed_timestamp))))))

module _ (big : Bool) (hash : List ℕ → List ℕ) (hash_length : ℕ) where
  -- The bytes that go into the hash.
  unfoldable pub hashed_part : RastaPacket → List ℕ
  hashed_part p = pack_fields big p ++ take (get_data_length hash_length p.packet_length) p.payload

  -- The array, and the error afterwards. With an error the array holds what the memory held.
  unfoldable pub rasta_module_to_bytes : List ℕ → Bool → RastaPacket → List ℕ × Bool
  unfolding hashed_part allocate_bytes
  rasta_module_to_bytes memory failed p =
      let failed' = allocate_bytes hash_length p failed in
      if failed'
      then (take p.packet_length memory, true)
      else (hashed_part p ++ take (8 * hash_length) (hash (hashed_part p)), false)

  unfoldable pub rasta_module_to_bytes_no_checksum : List ℕ → Bool → RastaPacket → List ℕ × Bool
  unfolding hashed_part allocate_bytes
  rasta_module_to_bytes_no_checksum memory failed p =
      let failed' = allocate_bytes hash_length p failed in
      if failed'
      then (take p.packet_length memory, true)
      else (hashed_part p ++ take (8 * hash_length) p.checksum, false)

  -- The fields that are read from an array with the memory that follows it.
  unfoldable pub unpacked : List ℕ → RastaPacket
  unpacked memory =
      let packet_length = bytes_to_short big (take 2 memory) in
      let len = get_data_length hash_length packet_length in
      let checksum = take (8 * hash_length) (drop (28 + len) memory) in
      record {
        packet_length = packet_length;
        type = bytes_to_short big (take 2 (drop 2 memory));
        receiver_id = bytes_to_long big (take 4 (drop 4 memory));
        sender_id = bytes_to_long big (take 4 (drop 8 memory));
        sequence_number = bytes_to_long big (take 4 (drop 12 memory));
        confirmed_sequence_number = bytes_to_long big (take 4 (drop 16 memory));
        timestamp = bytes_to_long big (take 4 (drop 20 memory));
        confirmed_timestamp = bytes_to_long big (take 4 (drop 24 memory));
        payload = take len (drop 28 memory);
        checksum = checksum;
        checksum_correct =
            bytes_eq (take (8 * hash_length) (hash (take (28 + len) memory))) checksum;
      }

  -- The packet, and the error afterwards. `old` is what the result's memory holds before, and `beyond`
  -- the bytes in the memory that follows the array: they are read where the first two bytes of the
  -- array announce more than it has.
  unfoldable pub bytes_to_rasta_packet : List ℕ → RastaPacket → Bool → List ℕ → RastaPacket × Bool
  unfolding unpacked
  bytes_to_rasta_packet beyond old failed bytes =
      if ltb (length bytes) (28 + 8 * hash_length)
      then (record old { packet_length = 0; checksum_correct = false }, true)
      else (unpacked (bytes ++ beyond), failed)

-- `RastaRedundancyPacket`, with the width of its check sum in bits.
pub record RastaRedundancyPacket : Type 0 where
  pub red_length : ℕ
  pub reserve : ℕ
  pub red_sequence : ℕ
  pub inner : RastaPacket
  pub red_correct : Bool
  pub width : ℕ

-- The length takes the packet's with it; the reserved bytes are zero.
unfoldable pub create_redundancy_packet : ℕ → ℕ → RastaPacket → RastaRedundancyPacket
create_redundancy_packet width sequence p = record {
  red_length = (8 + p.packet_length + width / 8) % 2 ^ 16;
  reserve = 0;
  red_sequence = sequence;
  inner = p;
  red_correct = true;
  width = width;
}

module _ (big : Bool) (hash : List ℕ → List ℕ) (hash_length : ℕ) (crc : List ℕ → ℕ) where
  -- The header and the packet's bytes.
  unfoldable pub without_checksum : List ℕ → RastaRedundancyPacket → List ℕ
  without_checksum inner_bytes r =
      short_to_bytes big r.red_length
      ++ (short_to_bytes big r.reserve
          ++ (long_to_bytes big r.red_sequence ++ take r.inner.packet_length inner_bytes))

  -- The check sum is taken of all but the last `width / 8` of the packet's `red_length` bytes.
  unfoldable pub rasta_redundancy_packet_to_bytes :
      List ℕ → Bool → RastaRedundancyPacket → List ℕ × Bool
  unfolding rasta_module_to_bytes without_checksum
  rasta_redundancy_packet_to_bytes memory failed r =
      let (inner_bytes, failed') =
        rasta_module_to_bytes big hash hash_length memory failed r.inner in
      let front = without_checksum inner_bytes r in
      let sum = crc (take (r.red_length - r.width / 8) front) in
      (front ++ take (r.width / 8) (long_to_bytes big sum), failed')

  -- The two lengths are unsigned numbers of 32 bits, which wrap around for an array that is too short.
  -- `beyond` is what follows the array in the memory, and what follows the copy of the packet.
  unfoldable pub bytes_to_rasta_redundancy_packet :
      List ℕ → RastaPacket → ℕ → Bool → List ℕ → RastaRedundancyPacket × Bool
  unfolding bytes_to_rasta_packet
  bytes_to_rasta_redundancy_packet beyond old width failed bytes =
      let memory = bytes ++ beyond in
      let data_len = (length bytes + 2 ^ 32 - 8 - width / 8) % 2 ^ 32 in
      let (p, failed') =
        bytes_to_rasta_packet big hash hash_length beyond old failed
          (take data_len (drop 8 memory)) in
      let sum = crc (take ((length bytes + 2 ^ 32 - width / 8) % 2 ^ 32) memory) in
      (
        record {
          red_length = bytes_to_short big (take 2 memory);
          reserve = bytes_to_short big (take 2 (drop 2 memory));
          red_sequence = bytes_to_long big (take 4 (drop 4 memory));
          inner = p;
          red_correct =
              (width / 8 == 0)
              || bytes_eq (take (width / 8) (long_to_bytes big sum))
                  (take (width / 8) (drop (8 + data_len) memory));
          width = width;
        },
        failed',
      )

-- ===== src/Rasta/Packet.antt =====
-- src/rasta/c/rastafactory.c: the packets of the safety and retransmission layer, and what they carry.
pub mod Messages
pub mod Requests
mod Tests
use tfm_cloud_ixl_rasta.Prelude.{
  ℕ, zero, suc, ◌+◌, ◌*◌, ◌%◌, ◌^◌, ltb, ◌==◌, Bool, List, [], ◌∷◌, ◌++◌, length, take, drop,
  replicate, if◌then◌else◌,
}
use tfm_cloud_ixl_rasta.Bytes.{short_to_bytes, bytes_to_short}

abbrev pub rasta_type_connreq : ℕ
rasta_type_connreq = 6200

abbrev pub rasta_type_connresp : ℕ
rasta_type_connresp = 6201

abbrev pub rasta_type_retrreq : ℕ
rasta_type_retrreq = 6212

abbrev pub rasta_type_retrresp : ℕ
rasta_type_retrresp = 6213

abbrev pub rasta_type_discreq : ℕ
rasta_type_discreq = 6216

abbrev pub rasta_type_hb : ℕ
rasta_type_hb = 6220

abbrev pub rasta_type_data : ℕ
rasta_type_data = 6240

abbrev pub rasta_type_retrdata : ℕ
rasta_type_retrdata = 6241

-- `RastaPacket`, with `data.length` and `data.bytes` as the list `payload`, and the check sum's bytes
-- as the list `checksum`.
pub record RastaPacket : Type 0 where
  pub packet_length : ℕ
  pub type : ℕ
  pub receiver_id : ℕ
  pub sender_id : ℕ
  pub sequence_number : ℕ
  pub confirmed_sequence_number : ℕ
  pub timestamp : ℕ
  pub confirmed_timestamp : ℕ
  pub payload : List ℕ
  pub checksum : List ℕ
  pub checksum_correct : Bool

-- The arguments that the packets are built from, and what the memory holds that `initializePacket`
-- leaves as it is: the bytes of the check sum and the flag that goes with it.
pub record Header : Type 0 where
  pub receiver : ℕ
  pub sender : ℕ
  pub sequence : ℕ
  pub confirmed_sequence : ℕ
  pub time : ℕ
  pub confirmed_time : ℕ
  pub hash_length : ℕ
  pub unset_checksum : List ℕ
  pub unset_correct : Bool

-- `payload` is what the caller writes to the array of `data_length` bytes.
unfoldable pub initialize_packet : ℕ → Header → ℕ → List ℕ → RastaPacket
initialize_packet type h data_length payload = record {
  packet_length = (28 + 8 * h.hash_length + data_length) % 2 ^ 16;
  type = type;
  receiver_id = h.receiver;
  sender_id = h.sender;
  sequence_number = h.sequence;
  confirmed_sequence_number = h.confirmed_sequence;
  timestamp = h.time;
  confirmed_timestamp = h.confirmed_time;
  payload = take data_length payload;
  checksum = take (8 * h.hash_length) h.unset_checksum;
  checksum_correct = h.unset_correct;
}

-- `RastaConnectionData` and `RastaDisconnectionData`.
pub record ConnectionData : Type 0 where
  pub version : List ℕ
  pub send_max : ℕ

pub record DisconnectionData : Type 0 where
  pub details : ℕ
  pub reason : ℕ

-- The 14 bytes of a connection request or response.
unfoldable pub connection_bytes : Bool → ConnectionData → List ℕ
connection_bytes big d = take 4 d.version ++ (short_to_bytes big d.send_max ++ replicate 8 0)

-- A connection request confirms nothing yet.
unfoldable pub create_connection_request : Bool → Header → ConnectionData → RastaPacket
unfolding initialize_packet connection_bytes
create_connection_request big h d =
    initialize_packet rasta_type_connreq (record h { confirmed_sequence = 0; confirmed_time = 0 })
      14 (connection_bytes big d)

unfoldable pub create_connection_response : Bool → Header → ConnectionData → RastaPacket
unfolding initialize_packet connection_bytes
create_connection_response big h d =
    initialize_packet rasta_type_connresp h 14 (connection_bytes big d)

unfoldable pub extract_connection_data : Bool → RastaPacket → ConnectionData
extract_connection_data big p =
    if length p.payload == 14
    then record {
      version = take 4 p.payload;
      send_max = bytes_to_short big (take 2 (drop 4 p.payload));
    }
    else record { version = replicate 4 0; send_max = 0 }

unfoldable pub create_retransmission_request : Header → RastaPacket
unfolding initialize_packet
create_retransmission_request h = initialize_packet rasta_type_retrreq h 0 []

unfoldable pub create_retransmission_response : Header → RastaPacket
unfolding initialize_packet
create_retransmission_response h = initialize_packet rasta_type_retrresp h 0 []

unfoldable pub create_disconnection_request : Bool → Header → DisconnectionData → RastaPacket
unfolding initialize_packet
create_disconnection_request big h d =
    initialize_packet rasta_type_discreq h 4
      (short_to_bytes big d.details ++ short_to_bytes big d.reason)

unfoldable pub extract_disconnection_data : Bool → RastaPacket → DisconnectionData
extract_disconnection_data big p =
    if length p.payload == 4
    then record {
      details = bytes_to_short big (take 2 p.payload);
      reason = bytes_to_short big (take 2 (drop 2 p.payload));
    }
    else record { details = 0; reason = 0 }

unfoldable pub create_heartbeat : Header → RastaPacket
unfolding initialize_packet
create_heartbeat h = initialize_packet rasta_type_hb h 0 []

-- The sum of the lengths, with two bytes for each message.
unfoldable pub total_length : List (List ℕ) → ℕ
total_length [] = 0
total_length (m ∷ ms) = length m + 2 + total_length ms

-- What the second loop writes, one message after the other.
unfoldable pub message_bytes : Bool → List (List ℕ) → List ℕ
message_bytes big [] = []
message_bytes big (m ∷ ms) = short_to_bytes big (length m % 2 ^ 16) ++ (m ++ message_bytes big ms)

-- `data_length` is a 16-bit parameter of `initializePacket`.
unfoldable pub create_data_message : Bool → Header → List (List ℕ) → RastaPacket
unfolding initialize_packet
create_data_message big h messages =
    initialize_packet rasta_type_data h (total_length messages % 2 ^ 16)
      (message_bytes big messages)

unfoldable pub create_retransmitted_data_message : Bool → Header → List (List ℕ) → RastaPacket
unfolding create_data_message
create_retransmitted_data_message big h messages = record (create_data_message big h messages) {
  type = rasta_type_retrdata;
}

-- The length of the message at an offset.
unfoldable pub length_at : Bool → List ℕ → ℕ → ℕ
length_at big payload offset = bytes_to_short big (take 2 (drop offset payload))

-- The first loop, which counts. A pass goes on by two bytes at least, so as many passes as there are
-- bytes are enough.
unfoldable pub count_messages : Bool → List ℕ → ℕ → ℕ → ℕ
count_messages big payload zero offset = 0
count_messages big payload (suc fuel) offset =
    let later = count_messages big payload fuel (offset + (length_at big payload offset + 2)) in
    if ltb offset (length payload) then suc later else 0

-- The second loop, which copies `n` messages, from the payload with the memory that follows it.
unfoldable pub read_messages : Bool → List ℕ → ℕ → ℕ → List (List ℕ)
read_messages big memory zero offset = []
read_messages big memory (suc n) offset =
    take (length_at big memory offset) (drop (2 + offset) memory)
    ∷ read_messages big memory n (offset + (length_at big memory offset + 2))

-- `beyond` are the bytes in the memory that follows the payload: where the last message announces
-- more bytes than are left, they are read, and a message has 65535 bytes at most. What the first loop
-- would read of them does not matter, since its pass is the last one then.
unfoldable pub extract_message_data : Bool → List ℕ → RastaPacket → List (List ℕ)
extract_message_data big beyond p =
    read_messages big (p.payload ++ beyond) (count_messages big p.payload (length p.payload) 0) 0

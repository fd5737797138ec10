-- ===== src/Rasta/Codec/RoundTrip.antt =====
-- rastamodule.c: what is packed is unpacked, and what a failure leaves behind.
use tfm_cloud_ixl_rasta.Prelude.{
  ℕ, ◌+◌, ◌*◌, ◌<◌, ◌^◌, ◌≤◌, ◌≡◌, refl, sym, ◌∙◌, ap, ltb, ==_refl, Bool, true, false, List, [],
  ◌∷◌, ◌++◌, length, length-append, length-take, take, drop, take-append_of, drop-append_of,
  drop-drop, take_of_length, take-take_self, arith,
}
use tfm_cloud_ixl_rasta.Bytes.{short_to_bytes, bytes_to_short, long_to_bytes}
use tfm_cloud_ixl_rasta.Bytes.Laws.{
  bytes_to_short-short_to_bytes, bytes_to_long-long_to_bytes, short_to_bytes_pair,
  long_to_bytes_four,
}
use mathlib.Core.List.{append_assoc}
use tfm_cloud_ixl_rasta.Sci.Scils.{bytes_eq}
use tfm_cloud_ixl_rasta.Rasta.Packet.{RastaPacket}
use tfm_cloud_ixl_rasta.Rasta.Codec.{
  allocate_bytes, get_data_length, pack_fields, hashed_part, rasta_module_to_bytes,
  rasta_module_to_bytes_no_checksum, unpacked, bytes_to_rasta_packet,
}

pub bytes_eq_refl : (xs : List ℕ) → bytes_eq xs xs ≡ true
unfolding bytes_eq
bytes_eq_refl [] = refl
bytes_eq_refl (x ∷ xs) = rw (==_refl x) (bytes_eq_refl xs)

-- The numbers of a packet fit their fields, and its length is that of its parts.
abbrev pub IsPackable : ℕ → RastaPacket → Type 0
IsPackable hash_length p =
    (p.packet_length < 2 ^ 16)
    × (p.type < 2 ^ 16)
    × (p.receiver_id < 2 ^ 32)
    × (p.sender_id < 2 ^ 32)
    × (p.sequence_number < 2 ^ 32)
    × (p.confirmed_sequence_number < 2 ^ 32)
    × (p.timestamp < 2 ^ 32)
    × (p.confirmed_timestamp < 2 ^ 32)
    × (p.packet_length ≡ 28 + 8 * hash_length + length p.payload)

length-pack_fields : (big : Bool) (p : RastaPacket) → length (pack_fields big p) ≡ 28
unfolding pack_fields
length-pack_fields big p =
    let (a, b, e0) = short_to_bytes_pair big p.packet_length in
    let (c, d, e1) = short_to_bytes_pair big p.type in
    let (f0, f1, f2, f3, e2) = long_to_bytes_four big p.receiver_id in
    let (g0, g1, g2, g3, e3) = long_to_bytes_four big p.sender_id in
    let (h0, h1, h2, h3, e4) = long_to_bytes_four big p.sequence_number in
    let (i0, i1, i2, i3, e5) = long_to_bytes_four big p.confirmed_sequence_number in
    let (j0, j1, j2, j3, e6) = long_to_bytes_four big p.timestamp in
    let (k0, k1, k2, k3, e7) = long_to_bytes_four big p.confirmed_timestamp in
    rw (e0, e1, e2, e3, e4, e5, e6, e7) refl

-- Each field is read where it was packed, whatever comes after the 28 bytes.
module _ (big : Bool) (p : RastaPacket) (rest : List ℕ) where
  abbrev packed : List ℕ
  packed = pack_fields big p ++ rest

  fields_read :
      (take 2 packed ≡ short_to_bytes big p.packet_length)
      × (take 2 (drop 2 packed) ≡ short_to_bytes big p.type)
      × (take 4 (drop 4 packed) ≡ long_to_bytes big p.receiver_id)
      × (take 4 (drop 8 packed) ≡ long_to_bytes big p.sender_id)
      × (take 4 (drop 12 packed) ≡ long_to_bytes big p.sequence_number)
      × (take 4 (drop 16 packed) ≡ long_to_bytes big p.confirmed_sequence_number)
      × (take 4 (drop 20 packed) ≡ long_to_bytes big p.timestamp)
      × (take 4 (drop 24 packed) ≡ long_to_bytes big p.confirmed_timestamp)
  unfolding pack_fields
  fields_read =
      let (a, b, e0) = short_to_bytes_pair big p.packet_length in
      let (c, d, e1) = short_to_bytes_pair big p.type in
      let (f0, f1, f2, f3, e2) = long_to_bytes_four big p.receiver_id in
      let (g0, g1, g2, g3, e3) = long_to_bytes_four big p.sender_id in
      let (h0, h1, h2, h3, e4) = long_to_bytes_four big p.sequence_number in
      let (i0, i1, i2, i3, e5) = long_to_bytes_four big p.confirmed_sequence_number in
      let (j0, j1, j2, j3, e6) = long_to_bytes_four big p.timestamp in
      let (k0, k1, k2, k3, e7) = long_to_bytes_four big p.confirmed_timestamp in
      rw (e0, e1, e2, e3, e4, e5, e6, e7) (refl, refl, refl, refl, refl, refl, refl, refl)

-- A packet, when its check sum has been calculated and found right.
abbrev pub summed : RastaPacket → List ℕ → RastaPacket
summed p sum = record p { checksum = sum; checksum_correct = true }

packet_of : ℕ → ℕ → ℕ → ℕ → ℕ → ℕ → ℕ → ℕ → List ℕ → List ℕ → Bool → RastaPacket
packet_of l t r s sn cs ts cts payload sum ok = record {
  packet_length = l;
  type = t;
  receiver_id = r;
  sender_id = s;
  sequence_number = sn;
  confirmed_sequence_number = cs;
  timestamp = ts;
  confirmed_timestamp = cts;
  payload = payload;
  checksum = sum;
  checksum_correct = ok;
}

module _ (big : Bool) (hash : List ℕ → List ℕ) (hl : ℕ) (p : RastaPacket)
    (h : IsPackable hl p) where
  data_length : get_data_length hl p.packet_length ≡ length p.payload
  unfolding get_data_length
  data_length = let (k, _, _, _, _, _, _, _, e) = h in omega (arith, k, e)

  hashed_part_whole : hashed_part big hash hl p ≡ pack_fields big p ++ p.payload
  unfolding hashed_part
  hashed_part_whole =
      rw (data_length)
        (ap (λ x. pack_fields big p ++ x) (take_of_length (length p.payload) p.payload refl))

  module _ (sum beyond : List ℕ) (s : length sum ≡ 8 * hl) where
    abbrev whole : List ℕ
    whole = pack_fields big p ++ (p.payload ++ (sum ++ beyond))

    length_read : bytes_to_short big (take 2 whole) ≡ p.packet_length
    length_read =
        let (e, _, _, _, _, _, _, _) = fields_read big p (p.payload ++ (sum ++ beyond)) in
        rw (e) (bytes_to_short-short_to_bytes big p.packet_length h.0)

    payload_read : take (length p.payload) (drop 28 whole) ≡ p.payload
    payload_read =
        rw
          (drop-append_of 28 (pack_fields big p) (p.payload ++ (sum ++ beyond))
            (length-pack_fields big p))
          (take-append_of (length p.payload) p.payload (sum ++ beyond) refl)

    sum_read : take (8 * hl) (drop (28 + length p.payload) whole) ≡ sum
    sum_read =
        rw
          (
            ← drop-drop (length p.payload) 28 whole,
            drop-append_of 28 (pack_fields big p) (p.payload ++ (sum ++ beyond))
                (length-pack_fields big p),
            drop-append_of (length p.payload) p.payload (sum ++ beyond) refl,
          )
          (take-append_of (8 * hl) sum beyond s)

    front_read : take (28 + length p.payload) whole ≡ pack_fields big p ++ p.payload
    front_read =
        ap (λ x. take (28 + length p.payload) x)
          (sym (append_assoc (pack_fields big p) p.payload (sum ++ beyond)))
        ∙ take-append_of (28 + length p.payload) (pack_fields big p ++ p.payload) (sum ++ beyond)
            (omega (arith, length-append (pack_fields big p) p.payload, length-pack_fields big p))

    unpacked-whole : unpacked big hash hl whole ≡ record p {
      checksum = sum;
      checksum_correct = bytes_eq (take (8 * hl) (hash (pack_fields big p ++ p.payload))) sum;
    }
    unfolding unpacked
    unpacked-whole =
        let (e0, e1, e2, e3, e4, e5, e6, e7) = fields_read big p (p.payload ++ (sum ++ beyond)) in
        let (h0, h1, h2, h3, h4, h5, h6, h7, _) = h in
        rw
          (
            length_read,
            data_length,
            payload_read,
            sum_read,
            front_read,
            e1,
            e2,
            e3,
            e4,
            e5,
            e6,
            e7,
            bytes_to_short-short_to_bytes big p.type h1,
            bytes_to_long-long_to_bytes big p.receiver_id h2,
            bytes_to_long-long_to_bytes big p.sender_id h3,
            bytes_to_long-long_to_bytes big p.sequence_number h4,
            bytes_to_long-long_to_bytes big p.confirmed_sequence_number h5,
            bytes_to_long-long_to_bytes big p.timestamp h6,
            bytes_to_long-long_to_bytes big p.confirmed_timestamp h7,
          )
          refl

-- The bytes of such a packet are as many as its length says.
pub length-rasta_module_to_bytes :
    (big : Bool) (hash : List ℕ → List ℕ) (hl : ℕ) (memory : List ℕ) (p : RastaPacket)
    → ((m : List ℕ) → 8 * hl ≤ length (hash m))
    → IsPackable hl p
    → length (rasta_module_to_bytes big hash hl memory false p).0 ≡ p.packet_length
unfolding rasta_module_to_bytes allocate_bytes
length-rasta_module_to_bytes big hash hl memory p g h =
    let (_, _, _, _, _, _, _, _, e) = h in
    let sum = take (8 * hl) (hash (pack_fields big p ++ p.payload)) in
    let s : length sum ≡ 8 * hl =
      length-take (8 * hl) (hash (pack_fields big p ++ p.payload))
        (g (pack_fields big p ++ p.payload)) in
    let enough : ltb p.packet_length (28 + 8 * hl) ≡ false = ground (arith, e) in
    rw (enough, hashed_part_whole big hash hl p h)
      (omega (
        arith,
        e,
        s,
        length-append (pack_fields big p ++ p.payload) sum,
        length-append (pack_fields big p) p.payload,
        length-pack_fields big p,
      ))

-- A packet whose numbers fit their fields, encoded with no error noted before, is decoded to the
-- same packet, with the check sum that was calculated for it and found correct, and no error is
-- noted, whatever the memory holds after the array. The hash is any function that gives at least the bytes that the check sum takes.
pub bytes_to_rasta_packet-rasta_module_to_bytes :
    (big : Bool) (hash : List ℕ → List ℕ) (hl : ℕ) (memory beyond : List ℕ) (old p : RastaPacket)
    → ((m : List ℕ) → 8 * hl ≤ length (hash m))
    → IsPackable hl p
    → (rasta_module_to_bytes big hash hl memory false p).1 ≡ false
      × (bytes_to_rasta_packet big hash hl beyond old false
            (rasta_module_to_bytes big hash hl memory false p).0
          ≡ (summed p (take (8 * hl) (hash (pack_fields big p ++ p.payload))), false))
unfolding rasta_module_to_bytes bytes_to_rasta_packet allocate_bytes
bytes_to_rasta_packet-rasta_module_to_bytes big hash hl memory beyond old p g h =
    let (_, _, _, _, _, _, _, _, e) = h in
    let sum = take (8 * hl) (hash (pack_fields big p ++ p.payload)) in
    let s : length sum ≡ 8 * hl =
      length-take (8 * hl) (hash (pack_fields big p ++ p.payload))
        (g (pack_fields big p ++ p.payload)) in
    let enough : ltb p.packet_length (28 + 8 * hl) ≡ false = ground (arith, e) in
    let n : length (pack_fields big p ++ (p.payload ++ sum)) ≡ 28 + (length p.payload + 8 * hl) =
      omega (
        arith,
        length-append (pack_fields big p) (p.payload ++ sum),
        length-append p.payload sum,
        length-pack_fields big p,
        s,
      ) in
    let long : ltb (length (pack_fields big p ++ (p.payload ++ sum))) (28 + 8 * hl) ≡ false =
      ground (arith, n) in
    rw
      (
        enough,
        hashed_part_whole big hash hl p h,
        append_assoc (pack_fields big p) p.payload sum,
        long,
        append_assoc (pack_fields big p) (p.payload ++ sum) beyond,
        append_assoc p.payload sum beyond,
        unpacked-whole big hash hl p h sum beyond s,
        bytes_eq_refl sum,
      )
      (refl, refl)

-- A decoded packet that is encoded with its own check sum has the bytes that it was decoded from.
pub keeps_checksum :
    (big : Bool) (hash : List ℕ → List ℕ) (hl : ℕ) (memory memory' : List ℕ) (p : RastaPacket)
    → IsPackable hl p
    → (rasta_module_to_bytes_no_checksum big hash hl memory' false
        (summed p (take (8 * hl) (hash (pack_fields big p ++ p.payload))))).0
      ≡ (rasta_module_to_bytes big hash hl memory false p).0
unfolding rasta_module_to_bytes rasta_module_to_bytes_no_checksum allocate_bytes hashed_part
    pack_fields
keeps_checksum big hash hl memory memory' p h =
    let (_, _, _, _, _, _, _, _, e) = h in
    let enough : ltb p.packet_length (28 + 8 * hl) ≡ false = ground (arith, e) in
    let same = hashed_part_whole big hash hl p h in
    rw enough (
      ap (λ x. hashed_part big hash hl p ++ x)
        (take-take_self (8 * hl) (hash (pack_fields big p ++ p.payload))
          ∙ ap (λ x. take (8 * hl) (hash x)) (sym same)))

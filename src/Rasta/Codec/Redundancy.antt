-- ===== src/Rasta/Codec/Redundancy.antt =====
-- rastamodule.c: the packets of the redundancy layer around those of the safety layer.
use tfm_cloud_ixl_rasta.Prelude.{
  ℕ, ◌+◌, ◌-◌, ◌*◌, ◌/◌, ◌%◌, ◌<◌, ◌≤◌, ◌^◌, ◌≡◌, refl, ◌∙◌, ap, ◌==◌, Bool, true, false, ◌||◌,
  List, [], ◌++◌, length, length-append, length-take, take, drop, take-append_of, drop-append_of,
  drop-drop, take_of_length, arith,
}
use mathlib.Core.List.{append_assoc}
use tfm_cloud_ixl_rasta.Bytes.{short_to_bytes, long_to_bytes}
use tfm_cloud_ixl_rasta.Bytes.Laws.{
  bytes_to_short-short_to_bytes, bytes_to_long-long_to_bytes, short_to_bytes_pair,
  long_to_bytes_four, length-long_to_bytes,
}
use tfm_cloud_ixl_rasta.Rasta.Packet.{RastaPacket}
use tfm_cloud_ixl_rasta.Rasta.Codec.{
  create_redundancy_packet, pack_fields, rasta_module_to_bytes, without_checksum,
  rasta_redundancy_packet_to_bytes, bytes_to_rasta_redundancy_packet,
}
use tfm_cloud_ixl_rasta.Rasta.Codec.RoundTrip.{
  IsPackable, summed, bytes_eq_refl, length-rasta_module_to_bytes,
  bytes_to_rasta_packet-rasta_module_to_bytes,
}

module _ (big : Bool) (len seq : ℕ) (rest : List ℕ) where
  abbrev framed : List ℕ
  framed = short_to_bytes big len ++ (short_to_bytes big 0 ++ (long_to_bytes big seq ++ rest))

  frame_read :
      (take 2 framed ≡ short_to_bytes big len)
      × (take 2 (drop 2 framed) ≡ short_to_bytes big 0)
      × (take 4 (drop 4 framed) ≡ long_to_bytes big seq)
      × (drop 8 framed ≡ rest)
      × (length framed ≡ 8 + length rest)
  frame_read =
      let (a, b, e0) = short_to_bytes_pair big len in
      let (c, d, e1) = short_to_bytes_pair big 0 in
      let (f0, f1, f2, f3, e2) = long_to_bytes_four big seq in
      rw (e0, e1, e2) (refl, refl, refl, refl, omega arith)

-- The parts of a framed packet, when the packet's bytes have its length.
module _ (big : Bool) (crc : List ℕ → ℕ) (len seq bytes_in_sum : ℕ) (inner sum beyond : List ℕ)
    (s : length sum ≡ bytes_in_sum) (fits : 8 + (length inner + bytes_in_sum) < 2 ^ 32) where
  abbrev all_bytes : List ℕ
  all_bytes = framed big len seq (inner ++ sum)

  abbrev in_memory : List ℕ
  in_memory = framed big len seq (inner ++ (sum ++ beyond))

  all_bytes-beyond : all_bytes ++ beyond ≡ in_memory
  all_bytes-beyond =
      let (a, b, e0) = short_to_bytes_pair big len in
      let (c, d, e1) = short_to_bytes_pair big 0 in
      let (f0, f1, f2, f3, e2) = long_to_bytes_four big seq in
      rw (e0, e1, e2, append_assoc inner sum beyond) refl

  abbrev inner_len : ℕ
  inner_len = (length all_bytes + 2 ^ 32 - 8 - bytes_in_sum) % 2 ^ 32

  abbrev front_len : ℕ
  front_len = (length all_bytes + 2 ^ 32 - bytes_in_sum) % 2 ^ 32

  length-all_bytes : length all_bytes ≡ 8 + (length inner + bytes_in_sum)
  length-all_bytes =
      let (_, _, _, _, n) = frame_read big len seq (inner ++ sum) in
      n ∙ omega (arith, length-append inner sum, s)

  inner_read : take inner_len (drop 8 in_memory) ≡ inner
  inner_read =
      let (_, _, _, d, _) = frame_read big len seq (inner ++ (sum ++ beyond)) in
      rw (d)
        (take-append_of inner_len inner (sum ++ beyond) (omega (arith, length-all_bytes, fits)))

  sum_read : take bytes_in_sum (drop (8 + inner_len) in_memory) ≡ sum
  sum_read =
      let (_, _, _, d, _) = frame_read big len seq (inner ++ (sum ++ beyond)) in
      rw
        (
          ← drop-drop inner_len 8 in_memory,
          d,
          drop-append_of inner_len inner (sum ++ beyond) (omega (arith, length-all_bytes, fits)),
        )
        (take-append_of bytes_in_sum sum beyond s)

  front_read : take front_len in_memory ≡ framed big len seq inner
  front_read =
      let (a, b, e0) = short_to_bytes_pair big len in
      let (c, d, e1) = short_to_bytes_pair big 0 in
      let (f0, f1, f2, f3, e2) = long_to_bytes_four big seq in
      let (_, _, _, _, n) = frame_read big len seq inner in
      let split : in_memory ≡ framed big len seq inner ++ (sum ++ beyond) = rw (e0, e1, e2) refl in
      ap (λ x. take front_len x) split
      ∙ take-append_of front_len (framed big len seq inner) (sum ++ beyond)
          (omega (arith, length-all_bytes, n, fits))

||_true : (b : Bool) → (b || true) ≡ true
||_true true = refl
||_true false = refl

-- What is encoded, spelled out.
module _ (big : Bool) (hash : List ℕ → List ℕ) (hl : ℕ) (crc : List ℕ → ℕ) (memory : List ℕ)
    (p : RastaPacket) (width seq : ℕ) (g : (m : List ℕ) → 8 * hl ≤ length (hash m))
    (h : IsPackable hl p) (k : 8 + p.packet_length + width / 8 < 2 ^ 16) where
  abbrev inner_bytes : List ℕ
  inner_bytes = (rasta_module_to_bytes big hash hl memory false p).0

  abbrev red_len : ℕ
  red_len = (8 + p.packet_length + width / 8) % 2 ^ 16

  abbrev check_sum : List ℕ
  check_sum = take (width / 8) (long_to_bytes big (crc (framed big red_len seq inner_bytes)))

  encoded :
      (rasta_redundancy_packet_to_bytes big hash hl crc memory false
        (create_redundancy_packet width seq p)).0
      ≡ framed big red_len seq (inner_bytes ++ check_sum)
  unfolding rasta_redundancy_packet_to_bytes without_checksum create_redundancy_packet
  encoded =
      let (a, b, e0) = short_to_bytes_pair big red_len in
      let (c, d, e1) = short_to_bytes_pair big 0 in
      let (f0, f1, f2, f3, e2) = long_to_bytes_four big seq in
      let (_, _, _, _, fl) = frame_read big red_len seq inner_bytes in
      let il = length-rasta_module_to_bytes big hash hl memory p g h in
      rw
        (
          take_of_length p.packet_length inner_bytes il,
          take_of_length (red_len - width / 8) (framed big red_len seq inner_bytes)
              (omega (arith, fl, il, k)),
        )
        (rw (e0, e1, e2) refl)

  pub length-encoded :
      width ≤ 32
      → length
          (rasta_redundancy_packet_to_bytes big hash hl crc memory false
            (create_redundancy_packet width seq p)).0
        ≡ 8 + (p.packet_length + width / 8)
  length-encoded w =
      let sum_of = crc (framed big red_len seq inner_bytes) in
      let s : length check_sum ≡ width / 8 =
        length-take (width / 8) (long_to_bytes big sum_of)
          (omega (arith, length-long_to_bytes big sum_of, w)) in
      let il = length-rasta_module_to_bytes big hash hl memory p g h in
      ap length encoded
      ∙ length-all_bytes big crc red_len seq (width / 8) inner_bytes check_sum [] s
          (omega (arith, il, k))
      ∙ omega (arith, il)

-- A packet that the redundancy layer wraps with a sequence number and a check sum of at most 32 bits
-- and encodes is decoded to the same wrapping, with the check sum found correct, around the same
-- packet with its own check sum, where the packet is packable and the whole has less than 65536 bytes.
pub bytes_to_redundancy_packet-to_bytes :
    (big : Bool) (hash : List ℕ → List ℕ) (hl : ℕ) (crc : List ℕ → ℕ) (memory beyond : List ℕ)
    (old p : RastaPacket) (width seq : ℕ)
    → ((m : List ℕ) → 8 * hl ≤ length (hash m))
    → IsPackable hl p
    → width ≤ 32
    → seq < 2 ^ 32
    → 8 + p.packet_length + width / 8 < 2 ^ 16
    → let r = create_redundancy_packet width seq p in
      bytes_to_rasta_redundancy_packet big hash hl crc beyond old width false
        (rasta_redundancy_packet_to_bytes big hash hl crc memory false r).0
      ≡ (
        record r { inner = summed p (take (8 * hl) (hash (pack_fields big p ++ p.payload))) },
        false,
      )
unfolding bytes_to_rasta_redundancy_packet create_redundancy_packet
bytes_to_redundancy_packet-to_bytes big hash hl crc memory beyond old p width seq g h w q k =
    let inner = inner_bytes big hash hl crc memory p width seq g h k in
    let sum = check_sum big hash hl crc memory p width seq g h k in
    let len = (8 + p.packet_length + width / 8) % 2 ^ 16 in
    let (e0, e1, e2, _, _) = frame_read big len seq (inner ++ (sum ++ beyond)) in
    let (_, back) =
      bytes_to_rasta_packet-rasta_module_to_bytes big hash hl memory beyond old p g h in
    let s : length sum ≡ width / 8 =
      length-take (width / 8) (long_to_bytes big (crc (framed big len seq inner)))
        (omega (arith, length-long_to_bytes big (crc (framed big len seq inner)), w)) in
    let fits : 8 + (length inner + width / 8) < 2 ^ 32 =
      omega (arith, length-rasta_module_to_bytes big hash hl memory p g h, k) in
    rw
      (
        encoded big hash hl crc memory p width seq g h k,
        all_bytes-beyond big crc len seq (width / 8) inner sum beyond s fits,
        inner_read big crc len seq (width / 8) inner sum beyond s fits,
        sum_read big crc len seq (width / 8) inner sum beyond s fits,
        front_read big crc len seq (width / 8) inner sum beyond s fits,
        back,
        e0,
        e1,
        e2,
        bytes_to_short-short_to_bytes big len (omega arith),
        bytes_to_short-short_to_bytes big 0 (omega arith),
        bytes_to_long-long_to_bytes big seq q,
        bytes_eq_refl sum,
        ||_true (width / 8 == 0),
      )
      refl

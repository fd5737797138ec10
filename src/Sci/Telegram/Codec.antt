-- ===== src/Sci/Telegram/Codec.antt =====
-- The bytes of a telegram (src/sci/c/sci.c): which are accepted, and that encoding and decoding
-- undo one another.
use tfm_cloud_ixl_rasta.Prelude.{
  ℕ, zero, suc, ◌+◌, ◌-◌, ◌≤◌, ◌<◌, ◌≡◌, ◌⊎◌, inl, inr, ◌≢◌, ap, dec_lt, ℕ_discrete, refl, sym, ◌∙◌,
  ltb, ltb_pos, none, some, List, [], ◌∷◌, ◌++◌, length, length-append, length-take, length-drop,
  take_long, Bool-cases, get_or, if◌then◌else◌, take, drop, drop-drop, copy_to, take-copy_to,
  take-append_of, drop-append_of, take_of_length, arith,
}
use tfm_cloud_ixl_rasta.Sci.Telegram.{
  SciTelegram, sci_protocol_p, sci_protocol_ls, payload_capacity, sci_encode_telegram,
  sci_decode_telegram, decoded_fields, cleared_payload,
}

-- The arrays of a telegram have their declared sizes, the payload in use fits its array, and the
-- protocol is one of the two.
pub record IsWellFormed (t : SciTelegram) : Type 0 where
  pub protocol : (t.protocol_type ≡ sci_protocol_p) ⊎ (t.protocol_type ≡ sci_protocol_ls)
  pub message_type_size : length t.message_type ≡ 2
  pub sender_size : length t.sender ≡ 20
  pub receiver_size : length t.receiver ≡ 20
  pub payload_size : length t.payload_data ≡ payload_capacity
  pub used_fits : t.used_bytes ≤ payload_capacity

-- The header of a well-formed telegram, whose fields `take` leaves whole.
sci_encode_telegram_parts :
    (t : SciTelegram)
    → IsWellFormed t
    → sci_encode_telegram t
      ≡ t.protocol_type
        ∷ (t.message_type ++ (t.sender ++ (t.receiver ++ take t.used_bytes t.payload_data)))
unfolding sci_encode_telegram
sci_encode_telegram_parts t w = rw (
  take_of_length 2 t.message_type w.message_type_size,
  take_of_length 20 t.sender w.sender_size,
  take_of_length 20 t.receiver w.receiver_size,
)

pub length-sci_encode_telegram :
    (t : SciTelegram) → IsWellFormed t → length (sci_encode_telegram t) ≡ 43 + t.used_bytes
length-sci_encode_telegram t w =
    rw
      (
        sci_encode_telegram_parts t w,
        length-append t.message_type (t.sender ++ (t.receiver ++ take t.used_bytes t.payload_data)),
        length-append t.sender (t.receiver ++ take t.used_bytes t.payload_data),
        length-append t.receiver (take t.used_bytes t.payload_data),
        length-take t.used_bytes t.payload_data (omega (arith, w)),
      )
      (omega (arith, w))

pub sci_decode_telegram_cases :
    (stack bytes : List ℕ)
    → ((43 ≤ length bytes)
        × (length bytes ≤ 128)
        × ((get_or bytes 0 0 ≡ sci_protocol_p) ⊎ (get_or bytes 0 0 ≡ sci_protocol_ls))
        × (sci_decode_telegram stack bytes ≡ some (decoded_fields stack bytes (length bytes - 43))))
      ⊎ (((length bytes < 43)
            ⊎ (128 < length bytes)
            ⊎ ((get_or bytes 0 0 ≢ sci_protocol_p) × (get_or bytes 0 0 ≢ sci_protocol_ls)))
          × (sci_decode_telegram stack bytes ≡ none))
unfolding sci_decode_telegram
sci_decode_telegram_cases stack bytes = elim (dec_lt (length bytes) 43) [
  | yes short ↦ inr (inl short, ground arith)
  | no enough ↦ elim (dec_lt 128 (length bytes)) [
    | yes long ↦ inr (inr (inl long), ground arith)
    | no fits ↦ elim (ℕ_discrete (get_or bytes 0 0) sci_protocol_p) [
      | yes p ↦ inl (omega arith, omega arith, inl p, ground arith)
      | no not_p ↦ elim (ℕ_discrete (get_or bytes 0 0) sci_protocol_ls) [
        | yes ls ↦ inl (omega arith, omega arith, inr ls, ground arith)
        | no not_ls ↦ inr (inr (inr (not_p, not_ls)), ground arith)
      ]
    ]
  ]
]

-- The fields of a telegram as they lie in a buffer: 1, 2, 20 and 20 bytes, and then the payload.
abbrev pub IsReadFrom : List ℕ → SciTelegram → Type 0
IsReadFrom bytes t =
    (t.protocol_type ≡ get_or bytes 0 0)
    × (t.message_type ≡ take 2 (drop 1 bytes))
    × (t.sender ≡ take 20 (drop 3 bytes))
    × (t.receiver ≡ take 20 (drop 23 bytes))
    × (t.used_bytes ≡ length bytes - 43)
    × (take t.used_bytes t.payload_data ≡ drop 43 bytes)

nil_of_length : (xs : List ℕ) → length xs ≡ 0 → xs ≡ []
nil_of_length [] e = refl
nil_of_length (x ∷ xs) e = absurd (omega arith)

payload_read :
    (stack bytes : List ℕ)
    → 43 ≤ length bytes
    → length bytes ≤ 128
    → length stack ≡ payload_capacity
    → let n = length bytes - 43 in
      take n (if ltb 0 n then copy_to 0 (take n (drop 43 bytes)) stack else cleared_payload)
      ≡ drop 43 bytes
payload_read stack bytes lo hi hs =
    let n = length bytes - 43 in
    let src = drop 43 bytes in
    let l : length src ≡ n = length-drop 43 bytes in
    elim (Bool-cases (ltb 0 n)) [
      | inl some_left ↦ rw some_left (
          ap (λ x. take n (copy_to 0 x stack)) (take_long n src (omega (arith, l)))
          ∙ ap (λ k. take k (copy_to 0 src stack)) (sym l)
          ∙ take-copy_to src stack (omega (arith, l, hi, hs)))
      | inr none_left ↦
          let zero_left : n ≡ 0 = ground (arith, none_left) in
          rw none_left
            (ap (λ k. take k cleared_payload) zero_left ∙ sym (nil_of_length src (l ∙ zero_left)))
    ]

decoded_fields-IsReadFrom :
    (stack bytes : List ℕ)
    → 43 ≤ length bytes
    → length bytes ≤ 128
    → length stack ≡ payload_capacity
    → IsReadFrom bytes (decoded_fields stack bytes (length bytes - 43))
unfolding decoded_fields
decoded_fields-IsReadFrom stack bytes lo hi hs =
    (refl, refl, refl, refl, refl, payload_read stack bytes lo hi hs)

-- A buffer is decoded exactly where it has from 43 to 128 bytes and begins with the number of one of
-- the two protocols. The telegram then has the protocol from byte 0, the type from the 2 bytes after
-- it, the sender from the 20 bytes at 3, the receiver from the 20 bytes at 23, and the rest as its
-- payload. The array on the stack that the payload is put into has room for 85 bytes.
pub sci_decode_telegram_accepts :
    (stack bytes : List ℕ)
    → length stack ≡ payload_capacity
    → ((43 ≤ length bytes)
        × (length bytes ≤ 128)
        × ((get_or bytes 0 0 ≡ sci_protocol_p) ⊎ (get_or bytes 0 0 ≡ sci_protocol_ls))
        × (t : SciTelegram) × (sci_decode_telegram stack bytes ≡ some t)
        × IsReadFrom bytes t)
      ⊎ (((length bytes < 43)
            ⊎ (128 < length bytes)
            ⊎ ((get_or bytes 0 0 ≢ sci_protocol_p) × (get_or bytes 0 0 ≢ sci_protocol_ls)))
          × (sci_decode_telegram stack bytes ≡ none))
sci_decode_telegram_accepts stack bytes hs = elim (sci_decode_telegram_cases stack bytes) [
  | inl (lo, hi, p, e) ↦ inl (lo, hi, p, _, e, decoded_fields-IsReadFrom stack bytes lo hi hs)
  | inr r ↦ inr r
]

abbrev wire : ℕ → List ℕ → List ℕ → List ℕ → List ℕ → List ℕ
wire p m s r u = p ∷ (m ++ (s ++ (r ++ u)))

module _ (p : ℕ) (m s r u : List ℕ) (hm : length m ≡ 2) (hs : length s ≡ 20)
    (hr : length r ≡ 20) where
  length-wire : length (wire p m s r u) ≡ 43 + length u
  length-wire =
      omega (arith, length-append m (s ++ (r ++ u)), length-append s (r ++ u), length-append r u)

  wire_after_header : drop 2 (m ++ (s ++ (r ++ u))) ≡ s ++ (r ++ u)
  wire_after_header = drop-append_of 2 m (s ++ (r ++ u)) hm

  wire_sender : take 20 (drop 3 (wire p m s r u)) ≡ s
  wire_sender = rw wire_after_header (take-append_of 20 s (r ++ u) hs)

  wire_after_sender : drop 23 (wire p m s r u) ≡ r ++ u
  wire_after_sender =
      sym (drop-drop 20 3 (wire p m s r u)) ∙ rw wire_after_header (drop-append_of 20 s (r ++ u) hs)

  wire_receiver : take 20 (drop 23 (wire p m s r u)) ≡ r
  wire_receiver = rw wire_after_sender (take-append_of 20 r u hr)

  wire_payload : drop 43 (wire p m s r u) ≡ u
  wire_payload =
      sym (drop-drop 20 23 (wire p m s r u)) ∙ rw wire_after_sender (drop-append_of 20 r u hr)

-- The bytes received are what stands at the front of the decoded payload.
received_front :
    (stack u : List ℕ) (n : ℕ)
    → length u ≡ n
    → n ≤ length stack
    → take n (if ltb 0 n then copy_to 0 u stack else cleared_payload) ≡ u
received_front stack [] zero e h = refl
received_front stack (x ∷ u) zero e h = absurd (omega arith)
received_front stack [] (suc n) e h = absurd (omega arith)
received_front stack (x ∷ u) (suc n) e h =
    let same : length u ≡ n = omega arith in
    rw (ltb_pos n, ← same) (take-copy_to (x ∷ u) stack (omega arith))

pub decoded_payload :
    (stack bytes u : List ℕ) (size n : ℕ)
    → size ≡ n
    → drop 43 bytes ≡ u
    → length u ≡ n
    → n ≤ length stack
    → take n (decoded_fields stack bytes size).payload_data ≡ u
unfolding decoded_fields
decoded_payload stack bytes u size n e f h k =
    rw (e, f, take_of_length n u h) (received_front stack u n h k)

-- A buffer of an accepted length and protocol is decoded.
decode_accepted :
    (stack bytes : List ℕ)
    → 43 ≤ length bytes
    → length bytes ≤ 128
    → (get_or bytes 0 0 ≡ sci_protocol_p) ⊎ (get_or bytes 0 0 ≡ sci_protocol_ls)
    → sci_decode_telegram stack bytes ≡ some (decoded_fields stack bytes (length bytes - 43))
unfolding sci_decode_telegram
decode_accepted stack bytes lo hi p = ground arith

-- The fields of a telegram that its bytes carry.
pub record Carries (t t' : SciTelegram) : Type 0 where
  pub protocol : t'.protocol_type ≡ t.protocol_type
  pub message : t'.message_type ≡ t.message_type
  pub origin : t'.sender ≡ t.sender
  pub target : t'.receiver ≡ t.receiver
  pub used : t'.used_bytes ≡ t.used_bytes
  pub payload : take t.used_bytes t'.payload_data ≡ take t.used_bytes t.payload_data

-- A well-formed telegram, encoded and decoded, comes back with the same header and the same bytes
-- in use of its payload, whatever the memory held that the payload is decoded into.
pub sci_decode_telegram-sci_encode_telegram :
    (stack : List ℕ) (t : SciTelegram)
    → length stack ≡ payload_capacity
    → IsWellFormed t
    → (t' : SciTelegram) × (sci_decode_telegram stack (sci_encode_telegram t) ≡ some t')
      × Carries t t'
unfolding decoded_fields
sci_decode_telegram-sci_encode_telegram stack t hs w = rw (sci_encode_telegram_parts t w) (
  decoded_fields stack bytes (length bytes - 43),
  decode_accepted stack bytes (omega (arith, size, w)) (omega (arith, size, w)) w.protocol,
  record {
    protocol = refl;
    message = take-append_of 2 t.message_type (t.sender ++ (t.receiver ++ u)) w.message_type_size;
    origin =
        wire_sender protocol_type message_type sender receiver u message_type_size sender_size
          receiver_size;
    target =
        wire_receiver protocol_type message_type sender receiver u message_type_size sender_size
          receiver_size;
    used = omega (arith, size);
    payload =
        decoded_payload stack bytes u (length bytes - 43) t.used_bytes (omega (arith, size))
          (wire_payload protocol_type message_type sender receiver u message_type_size sender_size
            receiver_size)
          (length-take t.used_bytes t.payload_data (omega (arith, w))) (omega (arith, w));
  },
)
  where
    open t use {protocol_type, message_type, sender, receiver}
    open w use {message_type_size, sender_size, receiver_size}

    u : List ℕ
    u = take t.used_bytes t.payload_data

    bytes : List ℕ
    bytes = wire protocol_type message_type sender receiver u

    size : length bytes ≡ 43 + t.used_bytes
    size = omega (
      arith,
      length-wire protocol_type message_type sender receiver u message_type_size sender_size
          receiver_size,
      length-take t.used_bytes t.payload_data (omega (arith, w)),
    )

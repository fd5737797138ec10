-- ===== src/Sci/Telegram/Reencode.antt =====
-- The bytes of a telegram (src/sci/c/sci.c): encoding after decoding.
use tfm_cloud_ixl_rasta.Prelude.{
  ℕ, ◌-◌, ◌≤◌, ◌≡◌, inl, inr, refl, sym, ap, ◌∙◌, some, List, [], ◌∷◌, ◌++◌, length, length-drop,
  take, drop, drop-drop, take-append-drop, take-take_self, arith,
}
use tfm_cloud_ixl_rasta.Sci.Telegram.{
  SciTelegram, payload_capacity, sci_encode_telegram, sci_decode_telegram, decoded_fields,
}
use tfm_cloud_ixl_rasta.Sci.Telegram.Codec.{sci_decode_telegram_cases, decoded_payload}

-- A buffer is the sequence of its fields.
split_wire :
    (rest u : List ℕ)
    → drop 42 rest ≡ u
    → take 2 rest ++ (take 20 (drop 2 rest) ++ (take 20 (drop 22 rest) ++ u)) ≡ rest
split_wire rest u e = rw (
  ← e,
  ← drop-drop 20 22 rest,
  take-append-drop 20 (drop 22 rest),
  ← drop-drop 20 2 rest,
  take-append-drop 20 (drop 2 rest),
  take-append-drop 2 rest,
)

encode_split :
    (b : ℕ) (rest pd : List ℕ) (size : ℕ)
    → take size pd ≡ drop 42 rest
    → sci_encode_telegram (record {
      protocol_type = b;
      message_type = take 2 rest;
      sender = take 20 (drop 2 rest);
      receiver = take 20 (drop 22 rest);
      payload_data = pd;
      used_bytes = size;
    })
      ≡ b ∷ rest
unfolding sci_encode_telegram
encode_split b rest pd size e =
    rw (take-take_self 2 rest, take-take_self 20 (drop 2 rest), take-take_self 20 (drop 22 rest), e)
      (ap (λ l. b ∷ l) (split_wire rest (drop 42 rest) refl))

encode_fields :
    (stack : List ℕ) (b : ℕ) (rest : List ℕ) (size : ℕ)
    → size ≡ length rest - 42
    → size ≤ length stack
    → sci_encode_telegram (decoded_fields stack (b ∷ rest) size) ≡ b ∷ rest
unfolding decoded_fields
encode_fields stack b rest size e fits =
    encode_split b rest (decoded_fields stack (b ∷ rest) size).payload_data size (
      decoded_payload stack (b ∷ rest) (drop 42 rest) size size refl refl
        (length-drop 42 rest ∙ sym e) fits)

-- Whatever buffer is decoded, encoding the telegram gives the same bytes again.
pub sci_encode_telegram-sci_decode_telegram :
    (stack bytes : List ℕ) (t : SciTelegram)
    → length stack ≡ payload_capacity
    → sci_decode_telegram stack bytes ≡ some t
    → sci_encode_telegram t ≡ bytes
sci_encode_telegram-sci_decode_telegram stack [] t hs h =
    elim (sci_decode_telegram_cases stack []) [
      | inl (lo, hi, p, e) ↦ absurd (omega arith)
      | inr (bad, e) ↦ cc
    ]
sci_encode_telegram-sci_decode_telegram stack (b ∷ rest) t hs h =
    elim (sci_decode_telegram_cases stack (b ∷ rest)) [
      | inl (lo, hi, p, e) ↦
          let same : decoded_fields stack (b ∷ rest) (length (b ∷ rest) - 43) ≡ t = cc in
          rw (← same)
            (encode_fields stack b rest (length (b ∷ rest) - 43) (omega arith) (omega arith))
      | inr (bad, e) ↦ cc
    ]

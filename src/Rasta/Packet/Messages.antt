-- ===== src/Rasta/Packet/Messages.antt =====
-- The application messages of a packet come back as they went in.
use tfm_cloud_ixl_rasta.Prelude.{
  ℕ, zero, suc, ◌+◌, ◌%◌, ◌^◌, ◌≤◌, ◌<◌, ◌≡◌, refl, sym, ◌∙◌, ap, ltb, Bool, true, List, [], ◌∷◌,
  ◌++◌, length, length-append, drop, take-append_of, drop-append_of, drop-drop, take_of_length,
  arith,
}
use mathlib.Core.List.{append_assoc}
use tfm_cloud_ixl_rasta.Bytes.{short_to_bytes}
use tfm_cloud_ixl_rasta.Bytes.Laws.{bytes_to_short-short_to_bytes, length-short_to_bytes}
use tfm_cloud_ixl_rasta.Rasta.Packet.{
  Header, total_length, message_bytes, create_data_message, length_at, count_messages,
  read_messages, extract_message_data,
}

length-message_bytes :
    (big : Bool) (ms : List (List ℕ)) → length (message_bytes big ms) ≡ total_length ms
unfolding message_bytes total_length
length-message_bytes big [] = refl
length-message_bytes big (m ∷ ms) = omega (
  arith,
  length-append (short_to_bytes big (length m % 2 ^ 16)) (m ++ message_bytes big ms),
  length-append m (message_bytes big ms),
  length-short_to_bytes big (length m % 2 ^ 16),
  length-message_bytes big ms,
)

module _ (big : Bool) (payload : List ℕ) where
  length_at_message :
      (offset : ℕ) (m rest : List ℕ)
      → drop offset payload ≡ short_to_bytes big (length m % 2 ^ 16) ++ (m ++ rest)
      → length m < 2 ^ 16
      → length_at big payload offset ≡ length m
  unfolding length_at
  length_at_message offset m rest e h =
      rw
        (
          e,
          take-append_of 2 (short_to_bytes big (length m % 2 ^ 16)) (m ++ rest)
              (length-short_to_bytes big _),
        )
        (bytes_to_short-short_to_bytes big (length m % 2 ^ 16) (omega arith) ∙ omega arith)

  after_length :
      (offset : ℕ) (m rest : List ℕ)
      → drop offset payload ≡ short_to_bytes big (length m % 2 ^ 16) ++ (m ++ rest)
      → drop (2 + offset) payload ≡ m ++ rest
  after_length offset m rest e =
      ap (λ k. drop k payload) (omega arith)
      ∙ sym (drop-drop 2 offset payload)
      ∙ ap (λ x. drop 2 x) e
      ∙ drop-append_of 2 (short_to_bytes big (length m % 2 ^ 16)) (m ++ rest)
          (length-short_to_bytes big _)

  after_message :
      (offset : ℕ) (m rest : List ℕ)
      → drop offset payload ≡ short_to_bytes big (length m % 2 ^ 16) ++ (m ++ rest)
      → drop (offset + (length m + 2)) payload ≡ rest
  after_message offset m rest e =
      ap (λ k. drop k payload) (omega arith)
      ∙ sym (drop-drop (length m) (2 + offset) payload)
      ∙ ap (λ x. drop (length m) x) (after_length offset m rest e)
      ∙ drop-append_of (length m) m rest refl

  read_back :
      (ms : List (List ℕ)) (offset : ℕ) (beyond : List ℕ)
      → drop offset payload ≡ message_bytes big ms ++ beyond
      → total_length ms < 2 ^ 16
      → read_messages big payload (length ms) offset ≡ ms
  unfolding read_messages message_bytes total_length
  read_back [] offset beyond e h = refl
  read_back (m ∷ ms) offset beyond e h =
      let rest = message_bytes big ms ++ beyond in
      let e' : drop offset payload ≡ short_to_bytes big (length m % 2 ^ 16) ++ (m ++ rest) =
        e
        ∙ append_assoc (short_to_bytes big (length m % 2 ^ 16)) (m ++ message_bytes big ms) beyond
        ∙ ap (λ x. short_to_bytes big (length m % 2 ^ 16) ++ x)
            (append_assoc m (message_bytes big ms) beyond) in
      rw
        (
          length_at_message offset m rest e' (omega arith),
          after_length offset m rest e',
          take-append_of (length m) m rest refl,
        )
        (ap (λ l. m ∷ l)
          (read_back ms (offset + (length m + 2)) beyond (after_message offset m rest e')
            (omega arith)))

  count_back :
      (ms : List (List ℕ)) (offset fuel : ℕ)
      → drop offset payload ≡ message_bytes big ms
      → offset + total_length ms ≡ length payload
      → total_length ms < 2 ^ 16
      → total_length ms ≤ fuel
      → count_messages big payload fuel offset ≡ length ms
  unfolding count_messages message_bytes total_length
  count_back [] offset zero e s h f = refl
  count_back [] offset (suc fuel) e s h f = ground arith
  count_back (m ∷ ms) offset zero e s h f = absurd (omega arith)
  count_back (m ∷ ms) offset (suc fuel) e s h f =
      let more : ltb offset (length payload) ≡ true = ground arith in
      rw (more, length_at_message offset m (message_bytes big ms) e (omega arith))
        (ap suc (
          count_back ms (offset + (length m + 2)) fuel
            (after_message offset m (message_bytes big ms) e) (omega arith) (omega arith)
            (omega arith)))

  -- For any packet and any offset in it, more passes of the first loop than there are bytes left
  -- count no further message, so the number of passes that the extraction takes is enough.
  pub count_messages_enough :
      (fuel n offset : ℕ)
      → length payload ≤ offset + fuel
      → fuel ≤ n
      → count_messages big payload n offset ≡ count_messages big payload fuel offset
  unfolding count_messages
  count_messages_enough zero zero offset h k = refl
  count_messages_enough zero (suc n) offset h k = ground arith
  count_messages_enough (suc fuel) zero offset h k = absurd (omega arith)
  count_messages_enough (suc fuel) (suc n) offset h k =
      let next = offset + (length_at big payload offset + 2) in
      rw (count_messages_enough fuel n next (omega arith) (omega arith)) refl

created_payload :
    (big : Bool) (h : Header) (ms : List (List ℕ))
    → total_length ms < 2 ^ 16
    → (create_data_message big h ms).payload ≡ message_bytes big ms
unfolding create_data_message
created_payload big h ms e =
    take_of_length (total_length ms % 2 ^ 16) (message_bytes big ms)
      (omega (arith, length-message_bytes big ms))

-- The application messages that a data packet is built from are what is extracted from it, in their
-- order, whatever the memory holds after the payload, where together with two bytes for each they
-- have less than 65536 bytes.
pub extract_message_data-create_data_message :
    (big : Bool) (beyond : List ℕ) (h : Header) (ms : List (List ℕ))
    → total_length ms < 2 ^ 16
    → extract_message_data big beyond (create_data_message big h ms) ≡ ms
unfolding extract_message_data
extract_message_data-create_data_message big beyond h ms e =
    rw
      (
        created_payload big h ms e,
        count_back big (message_bytes big ms) ms 0 (length (message_bytes big ms)) refl
            (omega (arith, length-message_bytes big ms)) e
            (omega (arith, length-message_bytes big ms)),
      )
      (read_back big (message_bytes big ms ++ beyond) ms 0 beyond refl e)

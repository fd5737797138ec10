-- ===== src/Rasta/Packet/Requests.antt =====
-- What a connection request or response and a disconnection request carry is read from it.
use tfm_cloud_ixl_rasta.Prelude.{ℕ, ◌<◌, ◌^◌, ◌≡◌, ap, ap₂, Bool, List, [], ◌∷◌, length, arith}
use tfm_cloud_ixl_rasta.Bytes.Laws.{bytes_to_short-short_to_bytes, short_to_bytes_pair}
use tfm_cloud_ixl_rasta.Rasta.Packet.{
  Header, ConnectionData, create_connection_request, create_connection_response,
  extract_connection_data, create_disconnection_request, extract_disconnection_data,
}

abbrev pub connection_data : List ℕ → ℕ → ConnectionData
connection_data v m = record { version = v; send_max = m }

module _ (big : Bool) (h : Header) where
  request_read :
      (a b c d m : ℕ)
      → m < 2 ^ 16
      → extract_connection_data big
          (create_connection_request big h (connection_data (a ∷ b ∷ c ∷ d ∷ []) m))
        ≡ connection_data (a ∷ b ∷ c ∷ d ∷ []) m
  unfolding extract_connection_data create_connection_request
  request_read a b c d m e =
      let (x, y, s) = short_to_bytes_pair big m in
      rw (s) (
        ap (λ n. connection_data (a ∷ b ∷ c ∷ d ∷ []) n)
          (rw (← s) (bytes_to_short-short_to_bytes big m e)))

  response_read :
      (a b c d m : ℕ)
      → m < 2 ^ 16
      → extract_connection_data big
          (create_connection_response big h (connection_data (a ∷ b ∷ c ∷ d ∷ []) m))
        ≡ connection_data (a ∷ b ∷ c ∷ d ∷ []) m
  unfolding extract_connection_data create_connection_response
  response_read a b c d m e =
      let (x, y, s) = short_to_bytes_pair big m in
      rw (s) (
        ap (λ n. connection_data (a ∷ b ∷ c ∷ d ∷ []) n)
          (rw (← s) (bytes_to_short-short_to_bytes big m e)))

  disconnection_read :
      (details reason : ℕ)
      → details < 2 ^ 16
      → reason < 2 ^ 16
      → extract_disconnection_data big
          (create_disconnection_request big h (record { details = details; reason = reason }))
        ≡ record { details = details; reason = reason }
  unfolding extract_disconnection_data create_disconnection_request
  disconnection_read details reason e f =
      let (x, y, s) = short_to_bytes_pair big details in
      let (z, w, t) = short_to_bytes_pair big reason in
      rw (s, t)
        (ap₂ (λ p q. record { details = p; reason = q })
          (rw (← s) (bytes_to_short-short_to_bytes big details e))
          (rw (← t) (bytes_to_short-short_to_bytes big reason f)))

  -- The version and the buffer size that a connection request or response is built with, and the
  -- details and the reason that a disconnection request is built with, are what is extracted from it,
  -- where the version has its four characters and the numbers have 16 bits.
  pub extract-create_requests :
      (version : List ℕ) (m details reason : ℕ)
      → length version ≡ 4
      → m < 2 ^ 16
      → details < 2 ^ 16
      → reason < 2 ^ 16
      → (extract_connection_data big (create_connection_request big h (connection_data version m))
          ≡ connection_data version m)
        × (extract_connection_data big
              (create_connection_response big h (connection_data version m))
            ≡ connection_data version m)
        × (extract_disconnection_data big
              (create_disconnection_request big h (record { details = details; reason = reason }))
            ≡ record { details = details; reason = reason })
  extract-create_requests (a ∷ b ∷ c ∷ d ∷ []) m details reason v e f g =
      (request_read a b c d m e, response_read a b c d m e, disconnection_read details reason f g)
  extract-create_requests [] m details reason v e f g = absurd (omega arith)
  extract-create_requests (a ∷ []) m details reason v e f g = absurd (omega arith)
  extract-create_requests (a ∷ b ∷ []) m details reason v e f g = absurd (omega arith)
  extract-create_requests (a ∷ b ∷ c ∷ []) m details reason v e f g = absurd (omega arith)
  extract-create_requests (a ∷ b ∷ c ∷ d ∷ x ∷ xs) m details reason v e f g = absurd (omega arith)

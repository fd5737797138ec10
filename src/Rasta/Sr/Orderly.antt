-- ===== src/Rasta/Sr/Orderly.antt =====
-- rasta_new.c: sequence numbers in order and queues within their bounds, for each action.
pub mod Actions
pub mod Handlers
pub mod Data
pub mod Runs
use tfm_cloud_ixl_rasta.Prelude.{
  ℕ, ◌+◌, ◌*◌, ◌≤◌, ◌==◌, ==_refl, ap, ◌≡◌, refl, sym, ◌∙◌, Option, none, some, List, [], ◌++◌,
  length, length-append, if◌then◌else◌, ◌∷◌, Bool, true, false, Bool-cases, inl, inr, if-elim,
  arith,
}
use tfm_cloud_ixl_rasta.Rasta.Packet.{RastaPacket, rasta_type_discreq, rasta_type_connresp}
use tfm_cloud_ixl_rasta.Rasta.Sr.State.{
  Connection, Config, ApplicationMessage, Environment, Event, sent, channel_removed, channel_added,
  connection_state_change, handshake_complete, received, heartbeat_timeout,
  disconnection_request_received, Action, ◌>>◌, update, emit, skip, fifo_push, add32,
}
use tfm_cloud_ixl_rasta.Rasta.Sr.Send.{max_queue_size}
use tfm_cloud_ixl_rasta.Rasta.Sr.Steps.{count_on, IsBounded}

some-inj : {a b : ℕ} → some a ≡ some b → a ≡ b
some-inj h = ground (arith, h)

pub count_on-append :
    (n m : ℕ) (es fs : List Event) → count_on n es ≡ some m → count_on n (es ++ fs) ≡ count_on m fs
unfolding count_on
count_on-append n m [] fs = λ h. ap (λ k. count_on k fs) (some-inj h)
count_on-append n m (sent p ∷ es) fs = elim (Bool-cases (p.sequence_number == n)) [
  | inl e ↦ rw (e) (count_on-append (if p.type == rasta_type_discreq then n else add32 n 1) m es fs)
  | inr e ↦ elim (Bool-cases (p.type == rasta_type_connresp)) [
    | inl t ↦ rw (e, t) (count_on-append (add32 p.sequence_number 1) m es fs)
    | inr t ↦ rw (e, t) (λ h. absurd (ground (arith, h)))
  ]
]
count_on-append n m (channel_removed i ∷ es) fs = count_on-append n m es fs
count_on-append n m (channel_added i ∷ es) fs = count_on-append n m es fs
count_on-append n m (connection_state_change c ∷ es) fs = count_on-append n m es fs
count_on-append n m (handshake_complete ∷ es) fs = count_on-append n m es fs
count_on-append n m (received ∷ es) fs = count_on-append n m es fs
count_on-append n m (heartbeat_timeout ∷ es) fs = count_on-append n m es fs
count_on-append n m (disconnection_request_received d ∷ es) fs = count_on-append n m es fs

-- An action leaves the connection with the number that is due, and keeps the queues in their bounds.
abbrev pub IsOrderlyAt : Config → Action → Connection → Type 0
IsOrderlyAt config f c =
    (count_on c.sn_t (f c).1 ≡ some (f c).0.sn_t) × (IsBounded config c → IsBounded config (f c).0)

unfoldable pub IsOrderly : Config → Action → Type 0
IsOrderly config f = (c : Connection) → IsOrderlyAt config f c

module _ (config : Config) where
  pub then-IsOrderly :
      (f g : Action) → IsOrderly config f → IsOrderly config g → IsOrderly config (f >> g)
  unfolding ◌>>◌ IsOrderly
  then-IsOrderly f g hf hg c = (
    count_on-append c.sn_t (f c).0.sn_t (f c).1 (g (f c).0).1 (hf c).0 ∙ (hg (f c).0).0,
    λ h. (hg (f c).0).1 ((hf c).1 h),
  )

  pub if-IsOrderlyAt :
      (t : Bool) (f g : Action) (c : Connection)
      → IsOrderlyAt config f c
      → IsOrderlyAt config g c
      → IsOrderlyAt config (if t then f else g) c
  if-IsOrderlyAt t f g c hf hg = if-elim (λ k. IsOrderlyAt config k c) t (λ _. hf) (λ _. hg)

  pub skip-IsOrderly : IsOrderly config skip
  unfolding count_on IsOrderly
  skip-IsOrderly c = (refl, λ h. h)

  -- A packet with the number that is due, other than a disconnection request, then the count.
  pub count_on_sent :
      (n : ℕ) (p : RastaPacket)
      → p.sequence_number ≡ n
      → (p.type == rasta_type_discreq) ≡ false
      → count_on n (sent p ∷ []) ≡ some (add32 n 1)
  unfolding count_on
  count_on_sent n p e t = rw (e, ==_refl n, t) refl

  pub length-fifo_push :
      {A : Type 0} (n : ℕ) (xs : List A) (x : A) → length xs ≤ n → length (fifo_push n xs x) ≤ n
  unfolding fifo_push
  length-fifo_push n xs x h = elim (Bool-cases (length xs == n)) [
    | inl e ↦ rw (e) h
    | inr e ↦ rw (e) (ground (arith, length-append xs (x ∷ []), h, e))
  ]

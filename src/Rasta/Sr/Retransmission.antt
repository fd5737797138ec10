-- ===== src/Rasta/Sr/Retransmission.antt =====
-- rasta_new.c: what is kept for a retransmission, and what is sent in one.
use tfm_cloud_ixl_rasta.Prelude.{ℕ, ◌≡◌, ◌≢◌, refl, ==_refl, ==_of_ne, List, [], ◌∷◌, ◌++◌, All}
use tfm_cloud_ixl_rasta.Rasta.Packet.{RastaPacket}
use tfm_cloud_ixl_rasta.Rasta.Sr.State.{Connection, Environment, Event, sent, add32}
use tfm_cloud_ixl_rasta.Rasta.Sr.Send.{remove_confirmed, retransmission_of}

module _ (decode : List ℕ → RastaPacket) (cs_r : ℕ) where
  -- Of the packets kept for a retransmission, those after the first one with the confirmed number stay.
  -- Where none has that number all are taken off, whatever their numbers are.
  pub remove_confirmed_lem :
      (front rest : List (List ℕ)) (element : List ℕ)
      → All (λ x. (decode x).sequence_number ≢ cs_r) front
      → (decode element).sequence_number ≡ cs_r
      → (remove_confirmed decode cs_r (front ++ (element ∷ rest)) ≡ rest)
        × (remove_confirmed decode cs_r front ≡ [])
  unfolding remove_confirmed
  remove_confirmed_lem [] rest element h e = (rw (e, ==_refl cs_r) refl, refl)
  remove_confirmed_lem (x ∷ front) rest element h e =
      let (a, b) = remove_confirmed_lem front rest element h.1 e in
      rw (==_of_ne (decode x).sequence_number cs_r h.0) (a, b)

module _ (env : Environment) where
  -- For each element a packet of retransmitted data with the messages of the element, the first with
  -- the number `n` and each with the number after the one before.
  unfoldable pub Retransmitted : ℕ → List (List ℕ) → List Event → Type 0
  unfolding add32
  Retransmitted n [] es = es ≡ []
  Retransmitted n (x ∷ xs) es =
      (c : Connection) × (rest : List Event) × (es ≡ sent (retransmission_of env x c) ∷ rest)
      × (c.sn_t ≡ n)
      × Retransmitted (add32 n 1) xs rest

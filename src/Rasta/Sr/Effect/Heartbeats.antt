-- ===== src/Rasta/Sr/Effect/Heartbeats.antt =====
-- rasta_new.c: what a heartbeat can do.
use tfm_cloud_ixl_rasta.Prelude.{
  ℕ, ◌≡◌, refl, sym, ◌∙◌, ap, ◌⊎◌, inl, inr, true, if-elim, if◌then◌else◌, arith,
}
use tfm_cloud_ixl_rasta.Rasta.Link.{
  ConnectionState, closed, down, start, up, retrreq, retrrun, unknown,
}
use tfm_cloud_ixl_rasta.Rasta.Packet.{RastaPacket, rasta_type_hb}
use tfm_cloud_ixl_rasta.Rasta.Sr.State.{
  RastaRole, client, server, Connection, Environment, Action, ◌>>◌, skip,
}
use tfm_cloud_ixl_rasta.Rasta.Sr.Checks.{sr_cts_in_seq, sr_sn_in_seq}
use tfm_cloud_ixl_rasta.Rasta.Sr.Send.{
  unexpected_type, protocol_error, timeout, sequence_number_error, notify_state, with_ti,
  sr_close_connection,
}
use tfm_cloud_ixl_rasta.Rasta.Sr.Handshake.{take_numbers}
use tfm_cloud_ixl_rasta.Rasta.Sr.Heartbeat.{
  refuse_sequence, refuse_client, finish_handshake, heartbeat_in_start, back_up,
  heartbeat_in_sequence, heartbeat_in_up, heartbeat_in,
}
use tfm_cloud_ixl_rasta.Rasta.Sr.Quiet.{closed≢up, sr_close_connection_lem, close-IsQuiet}
use tfm_cloud_ixl_rasta.Rasta.Sr.Effect.{IsOpening, Effect, quiet, skip-Effect}

-- What the handlers of a heartbeat leave as it is.
abbrev Keeps : Action → Connection → Type 0
Keeps f c = ((f c).0.fifo_app_msg ≡ c.fifo_app_msg) × ((f c).0.cts_r ≡ c.cts_r)

back_up_lem : (s : ConnectionState) (c : Connection) → (back_up s c).0.fifo_app_msg ≡ c.fifo_app_msg
unfolding back_up notify_state ◌>>◌
back_up_lem retrrun c = refl
back_up_lem closed c = refl
back_up_lem down c = refl
back_up_lem start c = refl
back_up_lem up c = refl
back_up_lem retrreq c = refl
back_up_lem unknown c = refl

module _ (env : Environment) (p : RastaPacket) where
  close-Keeps : (reason : ℕ) (c : Connection) → Keeps (sr_close_connection env reason 0) c
  close-Keeps reason c = let (q, _, _, k) = sr_close_connection_lem env reason 0 c in (q, k)

  refuse_sequence-Keeps : (role : RastaRole) (c : Connection) → Keeps (refuse_sequence env role) c
  unfolding refuse_sequence
  refuse_sequence-Keeps client c = close-Keeps unexpected_type c
  refuse_sequence-Keeps server c = close-Keeps sequence_number_error c

  refuse_client-Keeps : (role : RastaRole) (c : Connection) → Keeps (refuse_client env role) c
  unfolding refuse_client
  refuse_client-Keeps client c = close-Keeps unexpected_type c
  refuse_client-Keeps server c = (refl, refl)

  sr_cts_in_seq_cong :
      (c c' : Connection)
      → c'.cts_r ≡ c.cts_r
      → sr_cts_in_seq c' env.config p ≡ sr_cts_in_seq c env.config p
  unfolding sr_cts_in_seq
  sr_cts_in_seq_cong c c' e = ap (λ n. sr_cts_in_seq (record c { cts_r = n }) env.config p) e

  finish_handshake_lem :
      (c : Connection)
      → ((finish_handshake env p c).0.fifo_app_msg ≡ c.fifo_app_msg)
        × ((finish_handshake env p c).0.current_state ≡ up → sr_cts_in_seq c env.config p ≡ true)
  unfolding finish_handshake take_numbers notify_state ◌>>◌
  finish_handshake_lem c =
      let (q, s, _, _) = sr_close_connection_lem env protocol_error 0 c in
      if-elim
        (λ (f : Action).
          ((f c).0.fifo_app_msg ≡ c.fifo_app_msg)
          × ((f c).0.current_state ≡ up → sr_cts_in_seq c env.config p ≡ true))
        (sr_cts_in_seq c env.config p) (λ k. (refl, λ _. k)) (λ _. (q, λ u. closed≢up (sym s ∙ u)))

  -- The tests before the end of the handshake.
  abbrev refused : Connection → Connection
  refused c =
      let c' = ((if sr_sn_in_seq c p then skip else refuse_sequence env c.role) c).0 in
      (refuse_client env c'.role c').0

  refused_lem :
      (c : Connection) → ((refused c).fifo_app_msg ≡ c.fifo_app_msg) × ((refused c).cts_r ≡ c.cts_r)
  refused_lem c =
      let f : Action = if sr_sn_in_seq c p then skip else refuse_sequence env c.role in
      let first : Keeps f c =
        if-elim (λ f. Keeps f c) (sr_sn_in_seq c p) (λ _. (refl, refl))
          (λ _. refuse_sequence-Keeps c.role c) in
      let second = refuse_client-Keeps (f c).0.role (f c).0 in
      (second.0 ∙ first.0, second.1 ∙ first.1)

module _ (env : Environment) (p : RastaPacket) (c : Connection) (t : p.type ≡ rasta_type_hb) where
  heartbeat_in_start-Effect : c.current_state ≡ start → Effect env p c (heartbeat_in_start env p)
  unfolding heartbeat_in_start IsOpening ◌>>◌
  heartbeat_in_start-Effect s =
      let (q, k) = refused_lem env p c in
      let (q', u) = finish_handshake_lem env p (refused env p c) in
      (
        inl (q' ∙ q),
        λ h. inr (inr (t, sym (sr_cts_in_seq_cong env p c (refused env p c) k) ∙ u h, inl s)),
      )

  reopens :
      (c.current_state ≡ up) ⊎ (c.current_state ≡ retrrun)
      → sr_sn_in_seq c p ≡ true
      → sr_cts_in_seq c env.config p ≡ true
      → (c.current_state ≡ up) ⊎ IsOpening env p c
  unfolding IsOpening
  reopens (inl s) n k = inl s
  reopens (inr s) n k = inr (inr (t, k, inr (s, n)))

  heartbeat_in_up-Effect :
      (c.current_state ≡ up) ⊎ (c.current_state ≡ retrrun) → Effect env p c (heartbeat_in_up env p)
  unfolding heartbeat_in_up heartbeat_in_sequence with_ti take_numbers notify_state ◌>>◌
  heartbeat_in_up-Effect s =
      if-elim (Effect env p c) (sr_sn_in_seq c p)
        (λ n.
          if-elim (Effect env p c) (sr_cts_in_seq c env.config p)
            (λ k. (inl (back_up_lem c.current_state _), λ _. reopens s n k))
            (λ _.
              quiet env p c (sr_close_connection env timeout 0) (close-IsQuiet env timeout 0 c)))
        (λ _. (inl refl, λ u. absurd (ground (arith, u))))

  pub heartbeat_in-Effect :
      (s : ConnectionState) → c.current_state ≡ s → Effect env p c (heartbeat_in env p s)
  unfolding heartbeat_in
  heartbeat_in-Effect start s = heartbeat_in_start-Effect s
  heartbeat_in-Effect up s = heartbeat_in_up-Effect (inl s)
  heartbeat_in-Effect retrrun s = heartbeat_in_up-Effect (inr s)
  heartbeat_in-Effect closed s = skip-Effect env p c
  heartbeat_in-Effect down s = skip-Effect env p c
  heartbeat_in-Effect retrreq s = skip-Effect env p c
  heartbeat_in-Effect unknown s = skip-Effect env p c

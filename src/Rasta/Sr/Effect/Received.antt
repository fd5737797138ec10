-- ===== src/Rasta/Sr/Effect/Received.antt =====
-- rasta_new.c: what a received packet can do, whatever its type.
use tfm_cloud_ixl_rasta.Prelude.{
  ◌≡◌, ◌≢◌, refl, ◌⊎◌, inl, inr, ◌==◌, ==_iff, true, if-elim, arith, not, Option, none, some, List,
  [],
}
use tfm_cloud_ixl_rasta.Rasta.Link.{up}
use tfm_cloud_ixl_rasta.Rasta.Packet.{
  RastaPacket, rasta_type_connreq, rasta_type_connresp, rasta_type_data, rasta_type_retrdata,
  rasta_type_hb, rasta_type_retrreq, rasta_type_retrresp, rasta_type_discreq,
}
use tfm_cloud_ixl_rasta.Rasta.Sr.State.{
  Connection, Environment, Event, Action, ErrorCounters, add32,
}
use tfm_cloud_ixl_rasta.Rasta.Sr.Checks.{sr_sn_in_seq}
use tfm_cloud_ixl_rasta.Rasta.Sr.Handshake.{handle_conresp, accepted_connection}
use tfm_cloud_ixl_rasta.Rasta.Sr.Send.{is_down}
use tfm_cloud_ixl_rasta.Rasta.Sr.Heartbeat.{handle_hb}
use tfm_cloud_ixl_rasta.Rasta.Sr.Data.{count_error, handle_data, handle_retrdata}
use tfm_cloud_ixl_rasta.Rasta.Sr.Receive.{dispatch}
use tfm_cloud_ixl_rasta.Rasta.Sr.Quiet.{
  handle_retrreq-IsQuiet, handle_discreq-IsQuiet, handle_retrresp-IsQuiet,
}
use tfm_cloud_ixl_rasta.Rasta.Sr.Effect.{
  HasDelivered, IsOpening, Effect, quiet, data_in-Effect, retrdata_in-Effect, handle_conresp-Effect,
}
use tfm_cloud_ixl_rasta.Rasta.Sr.Effect.Heartbeats.{heartbeat_in-Effect}
use tfm_cloud_ixl_rasta.Rasta.Sr.Checks.{sr_message_authentic, sr_sn_range_valid, sr_cs_valid}
use tfm_cloud_ixl_rasta.Rasta.Sr.Data.{handle_retrreq, handle_retrresp}
use tfm_cloud_ixl_rasta.Rasta.Sr.Receive.{handle_discreq, checked, receive_known}
use tfm_cloud_ixl_rasta.Rasta.Sr.Rejects.{passes}

module _ (env : Environment) (p : RastaPacket) (c : Connection) where
  handle_hb-Effect : p.type ≡ rasta_type_hb → Effect env p c (handle_hb env p)
  unfolding handle_hb
  handle_hb-Effect t = heartbeat_in-Effect env p c t c.current_state refl

  dispatch-Effect : Effect env p c (dispatch env p)
  unfolding dispatch handle_data handle_retrdata count_error
  dispatch-Effect =
      if-elim (Effect env p c) (p.type == rasta_type_retrdata)
        (λ t.
          retrdata_in-Effect env p c c.current_state (sr_sn_in_seq c p) ((==_iff _ _).0 t) refl
            refl)
        (λ _.
          if-elim (Effect env p c) (p.type == rasta_type_data)
            (λ t.
              data_in-Effect env p c c.current_state (sr_sn_in_seq c p) ((==_iff _ _).0 t) refl
                refl)
            (λ _.
              if-elim (Effect env p c) (p.type == rasta_type_retrreq)
                (λ _. quiet env p c (handle_retrreq env p) (handle_retrreq-IsQuiet env p c))
                (λ _.
                  if-elim (Effect env p c) (p.type == rasta_type_retrresp)
                    (λ _. quiet env p c (handle_retrresp env p) (handle_retrresp-IsQuiet env p c))
                    (λ _.
                      if-elim (Effect env p c) (p.type == rasta_type_discreq)
                        (λ _. quiet env p c (handle_discreq env p) (handle_discreq-IsQuiet env p c))
                        (λ _.
                          if-elim (Effect env p c) (p.type == rasta_type_hb)
                            (λ t. handle_hb-Effect ((==_iff _ _).0 t))
                            (λ _. (inl refl, λ u. inl u)))))))

  -- The effect of an action, and the tests behind it.
  abbrev Tested : Action → Type 0
  Tested f =
      (((f c).0.fifo_app_msg ≡ c.fifo_app_msg)
        ⊎ ((passes env c p ≡ true) × HasDelivered env p c (f c).0))
      × ((f c).0.current_state ≡ up
          → (c.current_state ≡ up)
            ⊎ (((p.type ≡ rasta_type_connresp) ⊎ (passes env c p ≡ true)) × IsOpening env p c))

  counts : (f : ErrorCounters → ErrorCounters) → Tested (count_error f)
  unfolding count_error
  counts f = (inl refl, λ u. inl u)

  lift : (f : Action) → Effect env p c f → passes env c p ≡ true → Tested f
  lift f h k = (
    elim (h.0) [ inl q ↦ inl q | inr d ↦ inr (k, d) ],
    λ u. elim (h.1 u) [ inl s ↦ inl s | inr o ↦ inr (inr k, o) ],
  )

  no_data :
      (after : Connection)
      → p.type ≡ rasta_type_connresp
      → HasDelivered env p c after
      → {A : Type 0} → A
  unfolding HasDelivered
  no_data after t d = elim (d.0) [
    | inl (k, _) ↦ absurd (omega (arith, t, k))
    | inr (k, _) ↦ absurd (omega (arith, t, k))
  ]

  lift_conresp : p.type ≡ rasta_type_connresp → Tested (handle_conresp env p)
  lift_conresp t =
      let h = handle_conresp-Effect env p c t in
      (
        elim (h.0) [ inl q ↦ inl q | inr d ↦ no_data _ t d ],
        λ u. elim (h.1 u) [ inl s ↦ inl s | inr o ↦ inr (inl t, o) ],
      )

  checked-Tested : Tested (checked env p c)
  unfolding checked passes
  checked-Tested =
      if-elim Tested (p.type == rasta_type_connresp) (λ t. lift_conresp ((==_iff _ _).0 t))
        (λ _.
          if-elim Tested (not p.checksum_correct)
            (λ _. counts (λ e. record e { safety = add32 e.safety 1 }))
            (λ k0.
              if-elim Tested (not (sr_message_authentic c p))
                (λ _. counts (λ e. record e { address = add32 e.address 1 }))
                (λ k1.
                  if-elim Tested (not (sr_sn_range_valid c env.config p))
                    (λ _. counts (λ e. record e { sn = add32 e.sn 1 }))
                    (λ k2.
                      if-elim Tested (not (sr_cs_valid c p))
                        (λ _. counts (λ e. record e { cs = add32 e.cs 1 }))
                        (λ k3.
                          lift (dispatch env p) dispatch-Effect
                            (ground (arith, k0, k1, k2, k3)))))))

  -- A received packet opens a connection that is not up only as the connection response that a client
  -- waits for and that passes the checks, or as a heartbeat that passed the four tests and is timely,
  -- either in the start state or, with the sequence number that is due, in a retransmission.
  pub receive_known-opens :
      c.current_state ≢ up
      → (receive_known env p c).0.current_state ≡ up
      → ((p.type ≡ rasta_type_connresp) ⊎ (passes env c p ≡ true)) × IsOpening env p c
  unfolding receive_known
  receive_known-opens n u = elim (checked-Tested.1 u) [ inl s ↦ absurd (n s) | inr o ↦ o ]

  -- What becomes of the queue of the application in a pass of the receiving thread.
  DeliversResult : Option Connection × List Event → Type 0
  DeliversResult (none, es) = Unit
  DeliversResult (some after, es) =
      (after.fifo_app_msg ≡ c.fifo_app_msg)
      ⊎ ((p.type ≡ rasta_type_connreq)
          × (is_down c.current_state ≡ true)
          × (after ≡ accepted_connection env p)
          × (after.fifo_app_msg ≡ []))
      ⊎ ((passes env c p ≡ true) × HasDelivered env p c after)

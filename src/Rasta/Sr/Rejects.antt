-- ===== src/Rasta/Sr/Rejects.antt =====
-- rasta_new.c: packets that fail a test of `receive_thread`, and answers that need no version.
use tfm_cloud_ixl_rasta.Prelude.{
  ℕ, ◌+◌, ◌≤◌, ◌<◌, ap, ◌^◌, ◌-◌, ◌≡◌, refl, ◌∙◌, ◌==◌, Bool, true, false, not, ◌&&◌, List, [],
  if-elim, arith, some, none, ◌∷◌, Option,
}
use tfm_cloud_ixl_rasta.Rasta.Packet.{
  RastaPacket, rasta_type_connreq, rasta_type_connresp, extract_connection_data,
}
use tfm_cloud_ixl_rasta.Rasta.Sr.State.{
  Connection, ErrorCounters, Environment, Event, sent, connection_state_change, Action, add32,
}
use tfm_cloud_ixl_rasta.Rasta.Sr.Checks.{
  Comparison, same, older, newer, compare_version, sr_message_authentic, sr_sn_range_valid,
  sr_cs_valid, matches, version_accepted, sr_check_packet,
}
use tfm_cloud_ixl_rasta.Rasta.Sr.Send.{is_down}
use tfm_cloud_ixl_rasta.Rasta.Sr.Handshake.{
  rasta_version, new_connection, accepted_connection, connection_response, accepted_by,
  client_version_accepted, accept_request, handle_conreq,
}
use tfm_cloud_ixl_rasta.Rasta.Sr.Data.{count_error}
use tfm_cloud_ixl_rasta.Rasta.Sr.Receive.{checked, receive_known, receive_other, receive_packet}

-- The four tests together.
unfoldable pub passes : Environment → Connection → RastaPacket → Bool
passes env c p =
    p.checksum_correct
    && sr_message_authentic c p
    && sr_sn_range_valid c env.config p
    && sr_cs_valid c p

unfoldable pub total_errors : ErrorCounters → ℕ
total_errors e = e.safety + e.address + e.type_errors + e.sn + e.cs

-- One counter goes up by one, and the others stay.
abbrev pub IsOneMore : ErrorCounters → ErrorCounters → Type 0
IsOneMore e e' =
    (e.safety ≤ e'.safety)
    × (e.address ≤ e'.address)
    × (e.type_errors ≤ e'.type_errors)
    × (e.sn ≤ e'.sn)
    × (e.cs ≤ e'.cs)
    × (total_errors e' ≡ total_errors e + 1)

-- Nothing happens, and of the connection one error counter changes, by one.
CountsOne : Connection → Action → Type 0
CountsOne c f = (e : ErrorCounters) × (f c ≡ (record c { errors = e }, [])) × IsOneMore c.errors e

module _ (env : Environment) (p : RastaPacket) (c : Connection) where
  known-rejected :
      (p.type == rasta_type_connresp) ≡ false
      → passes env c p ≡ false
      → total_errors c.errors < 2 ^ 32 - 1
      → CountsOne c (receive_known env p)
  unfolding receive_known checked count_error CountsOne total_errors add32 passes
  known-rejected t h b =
      if-elim (CountsOne c) (p.type == rasta_type_connresp) (λ k. absurd (ground (arith, t, k)))
        (λ _.
          if-elim (CountsOne c) (not p.checksum_correct) (λ _. (_, refl, omega (arith, b)))
            (λ k0.
              if-elim (CountsOne c) (not (sr_message_authentic c p))
                (λ _. (_, refl, omega (arith, b)))
                (λ k1.
                  if-elim (CountsOne c) (not (sr_sn_range_valid c env.config p))
                    (λ _. (_, refl, omega (arith, b)))
                    (λ k2.
                      if-elim (CountsOne c) (not (sr_cs_valid c p))
                        (λ _. (_, refl, omega (arith, b)))
                        (λ k3. absurd (ground (arith, h, k0, k1, k2, k3)))))))

  not_request :
      (p.type == rasta_type_connreq) ≡ false
      → receive_packet env (some c) p ≡ (some (receive_known env p c).0, (receive_known env p c).1)
  unfolding receive_packet receive_other
  not_request q =
      if-elim
        (λ (r : Option Connection × List Event).
          r ≡ (some (receive_known env p c).0, (receive_known env p c).1))
        (p.type == rasta_type_connreq) (λ k. absurd (ground (arith, q, k))) (λ _. refl)

  -- A packet for a connection that is there, other than a connection request or a connection
  -- response, that fails a test of the check sum, of the two identifiers, of the range of the
  -- sequence number or of the confirmed sequence number is dropped: nothing is sent or notified, and
  -- nothing of the connection changes but one error counter, which goes up by one, where the counters
  -- together are below the largest number of 32 bits.
  pub receive_packet-rejected :
      (p.type == rasta_type_connreq) ≡ false
      → (p.type == rasta_type_connresp) ≡ false
      → passes env c p ≡ false
      → total_errors c.errors < 2 ^ 32 - 1
      → (e : ErrorCounters) × (receive_packet env (some c) p ≡ (some (record c { errors = e }), []))
        × IsOneMore c.errors e
  unfolding CountsOne
  receive_packet-rejected q t h b =
      let (e, k, one) = known-rejected t h b in
      (e, not_request q ∙ ap (λ (r : Connection × List Event). (some r.0, r.1)) k, one)

-- `version_accepted` gives 1 for every version.
version_accepted_lem : (env : Environment) (version : List ℕ) → version_accepted env version ≡ true
unfolding version_accepted
version_accepted_lem env version =
    if-elim (λ b. b ≡ true) (matches env env.accepted_version version) (λ _. refl) (λ _. refl)

accepted_by-true : (b : Bool) (k : Comparison) → b ≡ true → accepted_by b k ≡ true
unfolding accepted_by
accepted_by-true b same h = refl
accepted_by-true b older h = refl
accepted_by-true b newer h = h

client_version_accepted_lem :
    (env : Environment) (version : List ℕ) → client_version_accepted env version ≡ true
unfolding client_version_accepted
client_version_accepted_lem env version =
    accepted_by-true (version_accepted env version) (compare_version env rasta_version version)
      (version_accepted_lem env version)

-- A connection request that passes the tests is answered with a connection response whatever version it
-- names, where there is no connection with its sender or one that is closed or down.
handle_conreq-any_version :
    (env : Environment) (p : RastaPacket) (c : Connection)
    → sr_check_packet (new_connection env p) env.config p ≡ true
    → is_down c.current_state ≡ true
    → let answer : Option Connection × List Event = (
      some (accepted_connection env p),
      connection_state_change (accepted_connection env p) ∷ sent (connection_response env p) ∷ [],
    ) in
      (handle_conreq env none p ≡ answer) × (handle_conreq env (some c) p ≡ answer)
unfolding handle_conreq accept_request
handle_conreq-any_version env p c h d =
    let v = client_version_accepted_lem env (extract_connection_data env.big p).version in
    rw (d, h, v) (refl, refl)

-- ===== src/Rasta/Sr/Checks.antt =====
-- rasta_new.c: the tests that a received packet has to pass.
use tfm_cloud_ixl_rasta.Prelude.{
  ℕ, ◌*◌, ◌^◌, ltb, leb, ◌==◌, Bool, true, false, ◌&&◌, ◌||◌, List, [], ◌∷◌, if◌then◌else◌,
}
use tfm_cloud_ixl_rasta.Rasta.Packet.{
  RastaPacket, rasta_type_connreq, rasta_type_connresp, rasta_type_retrresp, rasta_type_discreq,
  rasta_type_hb, rasta_type_data, rasta_type_retrdata,
}
use tfm_cloud_ixl_rasta.Rasta.Sr.State.{Connection, Config, Environment, sub32}

-- `compare_version`'s -1, 0 and 1.
pub data Comparison : Type 0 where
  older same newer : Comparison

unfoldable pub compare_version : Environment → List ℕ → List ℕ → Comparison
compare_version env local remote =
    if env.long_of local == env.long_of remote
    then same
    else if ltb (env.long_of local) (env.long_of remote)
    then older
    else newer

unfoldable pub matches : Environment → List (List ℕ) → List ℕ → Bool
unfolding compare_version
matches env [] version = false
matches env (v ∷ vs) version = elim (compare_version env v version) [
  | same ↦ true
  | _ ↦ matches env vs version
]

-- After the loop, which returns 1 on a match, the function returns 1.
unfoldable pub version_accepted : Environment → List ℕ → Bool
unfolding matches
version_accepted env version = if matches env env.accepted_version version then true else true

-- The difference is a signed number of 32 bits, and a negative one counts as 0.
unfoldable pub sr_cts_in_seq : Connection → Config → RastaPacket → Bool
unfolding sub32
sr_cts_in_seq con cfg packet =
    let difference = sub32 packet.confirmed_timestamp con.cts_r in
    let time_diff = if ltb difference (2 ^ 31) then difference else 0 in
    if packet.type == rasta_type_hb
      || packet.type == rasta_type_data
      || packet.type == rasta_type_retrdata
    then ltb cfg.t_max (2 ^ 31) && ltb time_diff cfg.t_max
    else true

unfoldable pub sr_sn_in_seq : Connection → RastaPacket → Bool
sr_sn_in_seq con packet =
    if packet.type == rasta_type_connreq
      || packet.type == rasta_type_connresp
      || packet.type == rasta_type_retrresp
      || packet.type == rasta_type_discreq
    then true
    else con.sn_r == packet.sequence_number

unfoldable pub sr_sn_range_valid : Connection → Config → RastaPacket → Bool
unfolding sub32
sr_sn_range_valid con cfg packet =
    if packet.type == rasta_type_connreq
      || packet.type == rasta_type_connresp
      || packet.type == rasta_type_retrresp
    then true
    else leb (sub32 packet.sequence_number con.sn_r) (cfg.send_max * 10)

unfoldable pub sr_cs_valid : Connection → RastaPacket → Bool
unfolding sub32
sr_cs_valid con packet =
    if packet.type == rasta_type_connreq
    then packet.confirmed_sequence_number == 0
    else if packet.type == rasta_type_connresp
    then packet.confirmed_sequence_number == sub32 con.sn_t 1
    else ltb (sub32 packet.confirmed_sequence_number con.cs_r) (sub32 con.sn_t con.cs_r)

unfoldable pub sr_message_authentic : Connection → RastaPacket → Bool
sr_message_authentic con packet =
    packet.sender_id == con.remote_id && packet.receiver_id == con.my_id

unfoldable pub sr_check_packet : Connection → Config → RastaPacket → Bool
unfolding sr_message_authentic sr_sn_range_valid sr_cs_valid sr_sn_in_seq sr_cts_in_seq
sr_check_packet con cfg packet =
    packet.checksum_correct
    && sr_message_authentic con packet
    && sr_sn_range_valid con cfg packet
    && sr_cs_valid con packet
    && sr_sn_in_seq con packet
    && sr_cts_in_seq con cfg packet

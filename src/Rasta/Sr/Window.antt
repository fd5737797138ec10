-- ===== src/Rasta/Sr/Window.antt =====
-- rasta_new.c: the tests of the two sequence numbers as windows of numbers of 32 bits.
use tfm_cloud_ixl_rasta.Prelude.{
  ℕ, ◌*◌, ◌^◌, ◌≤◌, ◌<◌, ◌≡◌, ◌≢◌, ◌↔◌, sym, leb, ltb, ==_of_ne, true, arith,
}
use tfm_cloud_ixl_rasta.Rasta.Packet.{
  RastaPacket, rasta_type_connreq, rasta_type_connresp, rasta_type_retrresp,
}
use tfm_cloud_ixl_rasta.Rasta.Sr.State.{Connection, Config, add32, sub32}
use tfm_cloud_ixl_rasta.Rasta.Sr.Checks.{sr_sn_range_valid, sr_cs_valid}

-- A difference of 32 bits is the number of steps from one number to the other.
add32-sub32 : (a b : ℕ) → a < 2 ^ 32 → b < 2 ^ 32 → add32 b (sub32 a b) ≡ a
unfolding add32 sub32
add32-sub32 a b h k = omega (arith, h, k)

sub32-add32 : (b n : ℕ) → b < 2 ^ 32 → n < 2 ^ 32 → sub32 (add32 b n) b ≡ n
unfolding add32 sub32
sub32-add32 b n h k = omega (arith, h, k)

sub32_lt : (a b : ℕ) → sub32 a b < 2 ^ 32
unfolding sub32
sub32_lt a b = omega arith

leb_iff : (a b : ℕ) → (leb a b ≡ true) ↔ (a ≤ b)
leb_iff a b = ground arith

ltb_iff : (a b : ℕ) → (ltb a b ≡ true) ↔ (a < b)
ltb_iff a b = ground arith

in_range :
    (a b n : ℕ)
    → a < 2 ^ 32
    → b < 2 ^ 32
    → n < 2 ^ 32
    → (leb (sub32 a b) n ≡ true) ↔ ((k : ℕ) × (k ≤ n) × (a ≡ add32 b k))
in_range a b n ha hb hn = (
  λ h. (sub32 a b, (leb_iff (sub32 a b) n).0 h, sym (add32-sub32 a b ha hb)),
  λ w. (leb_iff (sub32 a b) n).1 (rw (w.2, sub32-add32 b w.0 hb (omega (arith, hn, w.1))) (w.1)),
)

in_window :
    (a b n : ℕ)
    → a < 2 ^ 32
    → b < 2 ^ 32
    → n < 2 ^ 32
    → (ltb (sub32 a b) n ≡ true) ↔ ((k : ℕ) × (k < n) × (a ≡ add32 b k))
in_window a b n ha hb hn = (
  λ h. (sub32 a b, (ltb_iff (sub32 a b) n).0 h, sym (add32-sub32 a b ha hb)),
  λ w. (ltb_iff (sub32 a b) n).1 (rw (w.2, sub32-add32 b w.0 hb (omega (arith, hn, w.1))) (w.1)),
)

-- For a packet that is no connection request or response and no retransmission response, where the
-- numbers have 32 bits and the size of the buffer 16, the sequence number is in the range exactly
-- where it is at most ten times the size of the buffer steps, around 2 ^ 32, after the number that is
-- due; and the confirmed sequence number is valid exactly where it is reached from the last confirmed
-- one in fewer steps than the number that is sent next.
pub window_iff :
    (c : Connection) (cfg : Config) (p : RastaPacket)
    → p.type ≢ rasta_type_connreq
    → p.type ≢ rasta_type_connresp
    → p.type ≢ rasta_type_retrresp
    → c.sn_r < 2 ^ 32
    → c.cs_r < 2 ^ 32
    → p.sequence_number < 2 ^ 32
    → p.confirmed_sequence_number < 2 ^ 32
    → cfg.send_max < 2 ^ 16
    → ((sr_sn_range_valid c cfg p ≡ true)
        ↔ ((k : ℕ) × (k ≤ cfg.send_max * 10) × (p.sequence_number ≡ add32 c.sn_r k)))
      × ((sr_cs_valid c p ≡ true)
          ↔ ((k : ℕ) × (k < sub32 c.sn_t c.cs_r) × (p.confirmed_sequence_number ≡ add32 c.cs_r k)))
unfolding sr_sn_range_valid sr_cs_valid
window_iff c cfg p t0 t1 t2 hr hc hs hp m =
    rw
      (
        ==_of_ne p.type rasta_type_connreq t0,
        ==_of_ne p.type rasta_type_connresp t1,
        ==_of_ne p.type rasta_type_retrresp t2,
      )
      (
        in_range p.sequence_number c.sn_r (cfg.send_max * 10) hs hr (omega (arith, m)),
        in_window p.confirmed_sequence_number c.cs_r (sub32 c.sn_t c.cs_r) hp hc
            (sub32_lt c.sn_t c.cs_r),
      )

-- ===== src/Sci/Adapter/Payload.antt =====
-- The payloads of the signal aspects tell the aspects apart, and the command for an aspect reaches
-- the Object Controller as that payload.
use tfm_cloud_ixl_rasta.Prelude.{
  ℕ, ◌≤◌, ◌<◌, ◌≡◌, ◌⊎◌, inl, inr, refl, sym, ◌∙◌, ◌==◌, Bool, true, false, Bool-cases, none, some,
  List, length, get_or, take, copy_to, take_of_length, length-copy_to, take-copy_to, All, IsByte,
  if◌then◌else◌, arith,
}
use tfm_cloud_ixl_rasta.Ixl.State.{SignalAspect}
use tfm_cloud_ixl_rasta.Sci.Telegram.{
  SciTelegram, sci_protocol_ls, sci_create_base_telegram, sci_get_message_type, sci_encode_telegram,
  sci_decode_telegram, sci_get_name_string, padded_name, payload_capacity,
}
use tfm_cloud_ixl_rasta.Sci.Telegram.Codec.{
  IsWellFormed, Carries, sci_decode_telegram-sci_encode_telegram,
}
use tfm_cloud_ixl_rasta.Sci.Telegram.Fields.{sci_create_base_telegram_fields, length-padded_name}
use tfm_cloud_ixl_rasta.Sci.Icd.{is_valid_sci_name, message_type_show_signal_aspect}
use tfm_cloud_ixl_rasta.Sci.Icd.Parse.{valid_name}
use tfm_cloud_ixl_rasta.Sci.Scils.{Scils, sent_ok, scils_send_telegram}
use tfm_cloud_ixl_rasta.Sci.Adapter.{
  is_supported_signal_aspect, payload_of, success_scils, cloud_ixl_create_signal_aspect_telegram,
  cloud_ixl_scils_send_signal_aspect,
}

abbrev IsSupported : SignalAspect → Type 0
IsSupported a = (a ≡ 0) ⊎ (a ≡ 1) ⊎ (a ≡ 2) ⊎ (a ≡ 4) ⊎ (a ≡ 5) ⊎ (a ≡ 6) ⊎ (a ≡ 7) ⊎ (a ≡ 9)

supported_cases : (a : SignalAspect) → is_supported_signal_aspect a ≡ true → IsSupported a
unfolding is_supported_signal_aspect
supported_cases a h = ground arith

-- Reads an aspect off its payload.
aspect_of : List ℕ → SignalAspect
aspect_of p =
    if get_or p 8 0 == 0x0F
    then 9
    else if get_or p 0 0 == 0xFE
    then (if get_or p 9 0 == 1 then 5 else if get_or p 9 0 == 2 then 6 else 7)
    else if get_or p 0 0 == 5
    then 4
    else if get_or p 0 0 == 3
    then 2
    else if get_or p 0 0 == 2
    then 1
    else 0

-- What holds of the payload of each supported aspect.
abbrev Good : SignalAspect → Type 0
Good a = (p : List ℕ) × (payload_of a ≡ some p) × (aspect_of p ≡ a) × (length p ≡ 18) × All IsByte p

good : (a : SignalAspect) → IsSupported a → Good a
unfolding payload_of aspect_of
good a (inl e) = rw e (_, refl, refl, refl, omega arith)
good a (inr (inl e)) = rw e (_, refl, refl, refl, omega arith)
good a (inr (inr (inl e))) = rw e (_, refl, refl, refl, omega arith)
good a (inr (inr (inr (inl e)))) = rw e (_, refl, refl, refl, omega arith)
good a (inr (inr (inr (inr (inl e))))) = rw e (_, refl, refl, refl, omega arith)
good a (inr (inr (inr (inr (inr (inl e)))))) = rw e (_, refl, refl, refl, omega arith)
good a (inr (inr (inr (inr (inr (inr (inl e))))))) = rw e (_, refl, refl, refl, omega arith)
good a (inr (inr (inr (inr (inr (inr (inr e))))))) = rw e (_, refl, refl, refl, omega arith)

supported : (a : SignalAspect) (p : List ℕ) → payload_of a ≡ some p → IsSupported a
unfolding payload_of
supported a p h = supported_cases a (ground arith)

payload_facts :
    (a : SignalAspect) (p : List ℕ)
    → payload_of a ≡ some p
    → (aspect_of p ≡ a) × (length p ≡ 18) × All IsByte p
payload_facts a p h =
    let (q, e, back, size, bytes) = good a (supported a p h) in
    let same : q ≡ p = cc in rw (← same) (back, size, bytes)

-- An aspect has a payload exactly where it is one of the eight of the enumeration, and then the
-- payload has 18 bytes, each below 256.
payload_of_lem :
    (a : SignalAspect)
    → ((is_supported_signal_aspect a ≡ false) × (payload_of a ≡ none))
      ⊎ ((p : List ℕ) × (payload_of a ≡ some p) × (length p ≡ 18) × All IsByte p)
payload_of_lem a = elim (Bool-cases (is_supported_signal_aspect a)) [
  | inr no_row ↦ inl (no_row, unfold payload_of in rw no_row)
  | inl listed ↦
      let (p, e, back, size, bytes) = good a (supported_cases a listed) in inr (p, e, size, bytes)
]

-- No two aspects have the same payload.
pub payload_of-injective :
    (a b : SignalAspect) (p : List ℕ) → payload_of a ≡ some p → payload_of b ≡ some p → a ≡ b
payload_of-injective a b p h k = sym (payload_facts a p h).0 ∙ (payload_facts b p k).0

-- The telegram that carries the payload `p`.
abbrev command : Bool → List ℕ → List ℕ → List ℕ → SciTelegram
command big sender receiver p =
    let t = sci_create_base_telegram big sci_protocol_ls sender receiver 0x0100 in
    record t { used_bytes = 18; payload_data = copy_to 0 p t.payload_data }

create_command :
    (big : Bool) (sender receiver : List ℕ) (a : SignalAspect) (p : List ℕ)
    → is_valid_sci_name (some sender) ≡ true
    → is_valid_sci_name (some receiver) ≡ true
    → payload_of a ≡ some p
    → cloud_ixl_create_signal_aspect_telegram big (some sender) (some receiver) a
      ≡ some (command big sender receiver p)
unfolding cloud_ixl_create_signal_aspect_telegram
create_command big sender receiver a p hs hr h =
    rw (h, hs, hr, cloud_ixl_create_signal_aspect_telegram)

module _ (big : Bool) (sender receiver : List ℕ) (hs : length sender ≤ 20)
    (hr : length receiver ≤ 20) where
  command-IsWellFormed : (p : List ℕ) → IsWellFormed (command big sender receiver p)
  command-IsWellFormed p =
      let w =
        (sci_create_base_telegram_fields big 0x30 sender receiver 0x0100 (inr refl) hs hr
          (omega arith)).0 in
      record {
        protocol = w.protocol;
        message_type_size = w.message_type_size;
        sender_size = w.sender_size;
        receiver_size = w.receiver_size;
        payload_size = length-copy_to 0 p _ ∙ w.payload_size;
        used_fits = omega arith;
      }

command_receiver :
    (big : Bool) (sender receiver p : List ℕ)
    → sci_get_name_string (command big sender receiver p).receiver ≡ padded_name receiver
unfolding sci_get_name_string sci_create_base_telegram
command_receiver big sender receiver p =
    take_of_length 20 (padded_name receiver) (length-padded_name receiver)

sent_command :
    (big : Bool) (ls : Scils) (receiver : List ℕ) (p : List ℕ) (id : ℕ)
    → ls.rasta_id_of (padded_name receiver) ≡ some id
    → scils_send_telegram ls (command big ls.sci_name receiver p) ≡ (
      sent_ok,
      some (record {
        remote_id = id;
        message = sci_encode_telegram (command big ls.sci_name receiver p);
      }),
    )
unfolding scils_send_telegram
sent_command big ls receiver p id reg =
    rw (command_receiver big ls.sci_name receiver p, reg, scils_send_telegram)

take-copied :
    (n : ℕ) (p dst : List ℕ) → length p ≡ n → n ≤ length dst → take n (copy_to 0 p dst) ≡ p
take-copied n p dst h k = rw (← h) (take-copy_to p dst (omega arith))

carried_type :
    (big : Bool) (t t' : SciTelegram) (v : ℕ)
    → Carries t t'
    → sci_get_message_type big t ≡ v
    → sci_get_message_type big t' ≡ v
unfolding sci_get_message_type
carried_type big t t' v c h = rw c.message h

-- For valid names and a supported aspect, the send succeeds if the receiver is registered. What goes
-- out is one message to the registered partner, which the partner decodes as a command of type
-- 0x0100 whose 18 bytes of payload are those of the aspect.
pub send_signal_aspect_on_wire :
    (big : Bool) (stack : List ℕ) (ls : Scils) (receiver : List ℕ) (a : SignalAspect) (p : List ℕ)
    (id : ℕ)
    → 0 < length ls.sci_name
    → length ls.sci_name ≤ 20
    → 0 < length receiver
    → length receiver ≤ 20
    → length stack ≡ payload_capacity
    → payload_of a ≡ some p
    → ls.rasta_id_of (padded_name receiver) ≡ some id
    → (m : List ℕ) × (t : SciTelegram) × (cloud_ixl_scils_send_signal_aspect big
          (some ls)
          (some receiver)
          a
        ≡ (success_scils, some (record { remote_id = id; message = m })))
      × (sci_decode_telegram stack m ≡ some t)
      × (sci_get_message_type big t ≡ message_type_show_signal_aspect)
      × (t.used_bytes ≡ 18)
      × (take 18 t.payload_data ≡ p)
unfolding cloud_ixl_scils_send_signal_aspect sci_get_message_type
send_signal_aspect_on_wire big stack ls receiver a p id h1 h2 h3 h4 hs h reg = (
  sci_encode_telegram sent,
  back.0,
  delivered,
  back.1,
  carried_type big sent back.0 0x0100 back.2 base.1,
  back.2.used,
  back.2.payload
      ∙ take-copied 18 p
          (sci_create_base_telegram big 0x30 ls.sci_name receiver 0x0100).payload_data
          (payload_facts a p h).1 (omega (arith, base.0.payload_size)),
)
  where
    sent : SciTelegram
    sent = command big ls.sci_name receiver p

    base :
        let t = sci_create_base_telegram big 0x30 ls.sci_name receiver 0x0100 in
        IsWellFormed t × (sci_get_message_type big t ≡ 0x0100)
    base =
        let f =
          sci_create_base_telegram_fields big 0x30 ls.sci_name receiver 0x0100 (inr refl) h2 h4
            (omega arith) in
        (f.0, f.1)

    back :
        (t : SciTelegram) × (sci_decode_telegram stack (sci_encode_telegram sent) ≡ some t)
        × Carries sent t
    back =
        sci_decode_telegram-sci_encode_telegram stack sent hs
          (command-IsWellFormed big ls.sci_name receiver h2 h4 p)

    delivered :
        cloud_ixl_scils_send_signal_aspect big (some ls) (some receiver) a
        ≡ (success_scils, some (record { remote_id = id; message = sci_encode_telegram sent }))
    delivered = rw (
      create_command big ls.sci_name receiver a p (valid_name ls.sci_name h1 h2)
          (valid_name receiver h3 h4) h,
      sent_command big ls receiver p id reg,
      cloud_ixl_scils_send_signal_aspect,
    )

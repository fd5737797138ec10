-- ===== src/Sci/Scils/Names.antt =====
-- The table of names in src/sci/c/scils.c: what a registration does to the sends that follow it.
use tfm_cloud_ixl_rasta.Prelude.{
  ℕ, ◌≡◌, refl, Bool, true, none, some, List, if◌then◌else◌, Bool-cases, inl, inr,
}
use tfm_cloud_ixl_rasta.Sci.Telegram.{
  SciTelegram, padded_name, sci_get_name_string, sci_encode_telegram,
}
use tfm_cloud_ixl_rasta.Sci.Scils.{
  Scils, sent_ok, bytes_eq, scils_register_sci_name, scils_send_telegram,
}

abbrev with_name : Scils → List ℕ → ℕ → Scils
with_name ls key id = record ls {
  rasta_id_of = λ k. if bytes_eq k key then some id else ls.rasta_id_of k;
}

register_new :
    (ls : Scils) (name : List ℕ) (id : ℕ)
    → ls.rasta_id_of (sci_get_name_string (padded_name name)) ≡ none
    → scils_register_sci_name ls name id true
      ≡ with_name ls (sci_get_name_string (padded_name name)) id
unfolding scils_register_sci_name
register_new ls name id e = rw (e, scils_register_sci_name)

register_known :
    (ls : Scils) (name : List ℕ) (id old : ℕ) (stored : Bool)
    → ls.rasta_id_of (sci_get_name_string (padded_name name)) ≡ some old
    → scils_register_sci_name ls name id stored ≡ ls
unfolding scils_register_sci_name
register_known ls name id old stored e = rw (e, scils_register_sci_name)

send-with_name :
    (ls : Scils) (key : List ℕ) (id : ℕ) (t : SciTelegram)
    → scils_send_telegram (with_name ls key id) t ≡ (
        if bytes_eq (sci_get_name_string t.receiver) key
        then (sent_ok, some (record { remote_id = id; message = sci_encode_telegram t }))
        else scils_send_telegram ls t)
unfolding scils_send_telegram
send-with_name ls key id t = elim (Bool-cases (bytes_eq (sci_get_name_string t.receiver) key)) [
  | inl h ↦ rw (h, scils_send_telegram)
  | inr h ↦ rw (h, scils_send_telegram)
]

-- Where the name is not in the table yet and the table takes it, the telegrams to that name go to
-- the RaSTA id registered for it from then on, and those to a name with another key go where they
-- went before.
send-register_sci_name :
    (ls : Scils) (name : List ℕ) (id : ℕ) (t : SciTelegram)
    → ls.rasta_id_of (sci_get_name_string (padded_name name)) ≡ none
    → scils_send_telegram (scils_register_sci_name ls name id true) t ≡ (
        if bytes_eq (sci_get_name_string t.receiver) (sci_get_name_string (padded_name name))
        then (sent_ok, some (record { remote_id = id; message = sci_encode_telegram t }))
        else scils_send_telegram ls t)
send-register_sci_name ls name id t e = rw (register_new ls name id e) (send-with_name ls _ id t)

-- A name that is in the table keeps its RaSTA id: another registration of it changes no send.
pub send-register_known :
    (ls : Scils) (name : List ℕ) (id old : ℕ) (stored : Bool) (t : SciTelegram)
    → ls.rasta_id_of (sci_get_name_string (padded_name name)) ≡ some old
    → scils_send_telegram (scils_register_sci_name ls name id stored) t ≡ scils_send_telegram ls t
send-register_known ls name id old stored t e = rw (register_known ls name id old stored e) refl

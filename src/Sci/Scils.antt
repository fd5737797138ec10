-- ===== src/Sci/Scils.antt =====
-- src/sci/c/scils.c: sending a telegram to a named partner, and passing a received one on. The hash
-- table of names is the function that its look-ups compute. What `sr_send` is handed is returned as
-- the message sent.
pub mod Names
use tfm_cloud_ixl_rasta.Prelude.{
  ℕ, ◌==◌, Bool, true, false, ◌&&◌, Option, none, some, List, [], ◌∷◌, replicate, if◌then◌else◌,
}
use tfm_cloud_ixl_rasta.Sci.Telegram.{
  SciTelegram, SciParse, success, sci_protocol_ls, sci_message_type_version_request,
  sci_message_type_status_request, sci_message_type_status_begin, sci_message_type_status_finish,
  padded_name, sci_get_name_string, sci_get_message_type, sci_encode_telegram, sci_decode_telegram,
  sci_create_version_request, sci_create_status_request, sci_create_status_begin,
  sci_create_status_finish, sci_parse_version_request_payload,
}

-- `sci_return_code`; `invalid_sci_name` is never returned.
pub data SciReturnCode : Type 0 where
  sent_ok unknown_sci_name invalid_sci_name : SciReturnCode

-- `scils_t`: the table of names, and which of the notifications are not NULL.
pub record Scils : Type 0 where
  pub sci_name : List ℕ
  pub rasta_id_of : List ℕ → Option ℕ
  pub on_version_request_received : Bool
  pub on_status_request_received : Bool
  pub on_status_begin_received : Bool
  pub on_status_finish_received : Bool

-- A message handed to `sr_send`: the RaSTA id of the partner and its one application message.
pub record Outgoing : Type 0 where
  pub remote_id : ℕ
  pub message : List ℕ

unfoldable pub scils_init : List ℕ → Scils
scils_init name = record {
  sci_name = name;
  rasta_id_of = λ key. none;
  on_version_request_received = false;
  on_status_request_received = false;
  on_status_begin_received = false;
  on_status_finish_received = false;
}

-- `strcmp` and `memcmp` as a test for equality.
unfoldable pub bytes_eq : List ℕ → List ℕ → Bool
bytes_eq [] [] = true
bytes_eq [] (y ∷ ys) = false
bytes_eq (x ∷ xs) [] = false
bytes_eq (x ∷ xs) (y ∷ ys) = x == y && bytes_eq xs ys

-- `stored` is whether `hashmap_put` answers MAP_OK.
unfoldable pub scils_register_sci_name : Scils → List ℕ → ℕ → Bool → Scils
scils_register_sci_name ls name rasta_id stored =
    let key = sci_get_name_string (padded_name name) in
    elim (ls.rasta_id_of key) [
      | some existing ↦ ls
      | none ↦
          if stored
          then record ls {
            rasta_id_of = λ k. if bytes_eq k key then some rasta_id else ls.rasta_id_of k;
          }
          else ls
    ]

unfoldable pub scils_send_telegram : Scils → SciTelegram → SciReturnCode × Option Outgoing
scils_send_telegram ls t = elim (ls.rasta_id_of (sci_get_name_string t.receiver)) [
  | none ↦ (unknown_sci_name, none)
  | some id ↦ (sent_ok, some (record { remote_id = id; message = sci_encode_telegram t }))
]

-- What a received message makes the library call.
pub data Notice : Type 0 where
  version_request : List ℕ → ℕ → Notice
  status_request status_begin status_finish : List ℕ → Notice

module _ (big : Bool) where
  unfoldable pub scils_send_version_request : Scils → List ℕ → ℕ → SciReturnCode × Option Outgoing
  scils_send_version_request ls receiver version =
      scils_send_telegram ls
        (sci_create_version_request big sci_protocol_ls ls.sci_name receiver version)

  unfoldable pub scils_send_status_request : Scils → List ℕ → SciReturnCode × Option Outgoing
  scils_send_status_request ls receiver =
      scils_send_telegram ls (sci_create_status_request big sci_protocol_ls ls.sci_name receiver)

  unfoldable pub scils_send_status_begin : Scils → List ℕ → SciReturnCode × Option Outgoing
  scils_send_status_begin ls receiver =
      scils_send_telegram ls (sci_create_status_begin big sci_protocol_ls ls.sci_name receiver)

  unfoldable pub scils_send_status_finish : Scils → List ℕ → SciReturnCode × Option Outgoing
  scils_send_status_finish ls receiver =
      scils_send_telegram ls (sci_create_status_finish big sci_protocol_ls ls.sci_name receiver)

  unfoldable pub handle_version_request : Scils → SciTelegram → Option Notice
  handle_version_request ls t = elim (sci_parse_version_request_payload big t) [
    | success version ↦
        if ls.on_version_request_received then some (version_request t.sender version) else none
    | _ ↦ none
  ]

  -- The `switch` on the message type of an SCI-LS telegram.
  unfoldable pub notice_of : Scils → SciTelegram → Option Notice
  unfolding handle_version_request
  notice_of ls t =
      let type = sci_get_message_type big t in
      if type == sci_message_type_version_request
      then handle_version_request ls t
      else if type == sci_message_type_status_request
      then (if ls.on_status_request_received then some (status_request t.sender) else none)
      else if type == sci_message_type_status_begin
      then (if ls.on_status_begin_received then some (status_begin t.sender) else none)
      else if type == sci_message_type_status_finish
      then (if ls.on_status_finish_received then some (status_finish t.sender) else none)
      else none

  unfoldable pub scils_on_rasta_receive : List ℕ → Scils → List ℕ → Option Notice
  scils_on_rasta_receive stack ls message = elim (sci_decode_telegram stack message) [
    | none ↦ none
    | some t ↦ if t.protocol_type == sci_protocol_ls then notice_of ls t else none
  ]

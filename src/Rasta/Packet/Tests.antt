-- ===== src/Rasta/Packet/Tests.antt =====
-- Data packets of src/rasta/c/rastafactory.c at concrete messages.
use tfm_cloud_ixl_rasta.Prelude.{ℕ, ◌≡◌, refl, true, false, List, [], ◌∷◌, arith}
use tfm_cloud_ixl_rasta.Rasta.Packet.{
  Header, total_length, create_data_message, extract_message_data, count_messages,
}
use tfm_cloud_ixl_rasta.Rasta.Packet.Messages.{
  count_messages_enough, extract_message_data-create_data_message,
}

abbrev header : Header
header = record {
  receiver = 0x61;
  sender = 0x60;
  sequence = 7;
  confirmed_sequence = 6;
  time = 0;
  confirmed_time = 0;
  hash_length = 1;
  unset_checksum = [];
  unset_correct = false;
}

abbrev two_messages : List (List ℕ)
two_messages = (0x30 ∷ 0x00 ∷ 0x24 ∷ []) ∷ (5 ∷ []) ∷ []

two_messages_length : total_length two_messages ≡ 8
unfolding total_length
two_messages_length = refl

extract_message_data-create_data_message_example :
    extract_message_data true (9 ∷ []) (create_data_message true header two_messages) ≡ two_messages
extract_message_data-create_data_message_example =
    extract_message_data-create_data_message true (9 ∷ []) header two_messages
      (omega (arith, two_messages_length))

count_messages_enough_example :
    count_messages false (1 ∷ 0 ∷ 9 ∷ 0 ∷ 0 ∷ []) 8 0
    ≡ count_messages false (1 ∷ 0 ∷ 9 ∷ 0 ∷ 0 ∷ []) 5 0
count_messages_enough_example =
    count_messages_enough false (1 ∷ 0 ∷ 9 ∷ 0 ∷ 0 ∷ []) 5 8 0 (omega arith) (omega arith)

-- ===== src/Dispatch/Tests.antt =====
-- An example of a message that asks for no block: a heartbeat.
use mini_block_chain.Prelude.{◌≡◌, refl, true, false, none, some, [], ◌∷◌}
use mini_block_chain.Bytes.{Text, bytes_discrete}
use mini_block_chain.External.{Json, Key, Crypto}
use mini_block_chain.Node.{new}
use mini_block_chain.Ledger.{undisturbed}
use mini_block_chain.Dispatch.{classify, asks_for_block, master_events_handler}
use mini_block_chain.Dispatch.Messages.{IsSameLedger, master_events_handler-IsSameLedger}

-- Every field of this request reads "HeartBeat".
abbrev heart_beat : Text
heart_beat = 0x48 ∷ 0x65 ∷ 0x61 ∷ 0x72 ∷ 0x74 ∷ 0x42 ∷ 0x65 ∷ 0x61 ∷ 0x74 ∷ []

abbrev texts : Json Text
texts = record {
  index = λ r k. r;
  as_str = λ r. some r;
  as_u64 = λ r. none;
  as_bool = λ r. none;
  as_array = λ r. none;
  to_string = λ r. r;
  to_tx_input = λ r. none;
  to_tx_output = λ r. none;
}

abbrev lenient : Crypto
lenient = record {
  sha256 = λ x. 0xAB ∷ [];
  hex_encode = λ b. b;
  hex_decode = λ t. some t;
  signature_from_compact = λ b. some b;
  public_key_from_slice = λ b. some b;
  message_from_slice = λ b. some b;
  verify = λ message signature key. true;
}

asks_for_nothing :
    asks_for_block (classify (texts.as_str (texts.index heart_beat Key.action))) ≡ false
unfolding classify bytes_discrete
asks_for_nothing = refl

master_events_handler-IsSameLedger_example :
    IsSameLedger
      (new 0)
      (master_events_handler texts lenient (λ v. none) heart_beat (undisturbed []) 100 (new 0)).1
master_events_handler-IsSameLedger_example =
    master_events_handler-IsSameLedger texts lenient (λ v. none) heart_beat (undisturbed []) 100
      (new 0) asks_for_nothing

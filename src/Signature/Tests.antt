-- ===== src/Signature/Tests.antt =====
-- Examples of the signature check, with a curve on which every signature holds.
use mini_block_chain.Prelude.{◌≡◌, refl, true, false, some, List, [], ◌∷◌}
use mini_block_chain.Bytes.{Bytes, Text}
use mini_block_chain.HashMap
use mini_block_chain.HashMap.{HashMap}
use mini_block_chain.External.{Crypto}
use mini_block_chain.Signature.{is_used, signature_holds, verify_transaction_signature}
use mini_block_chain.Signature.Replay.{Later, replay_refused}

abbrev lenient : Crypto
lenient = record {
  sha256 = λ x. x;
  hex_encode = λ b. b;
  hex_decode = λ t. some t;
  signature_from_compact = λ b. some b;
  public_key_from_slice = λ b. some b;
  message_from_slice = λ b. some b;
  verify = λ message signature key. true;
}

-- The texts of a signature, of its sender, of the recipients and of the amounts.
abbrev sign : Text
sign = 9 ∷ []

abbrev alice : Text
alice = 1 ∷ []

abbrev bob : Text
bob = 2 ∷ []

abbrev carol : Text
carol = 3 ∷ []

abbrev fifty : Text
fifty = 0x35 ∷ 0x30 ∷ []

abbrev sixty : Text
sixty = 0x36 ∷ 0x30 ∷ []

-- The used signatures after the first call, and after a call for another sender.
abbrev after_one : HashMap Bytes (List Text)
after_one = (verify_transaction_signature lenient sign alice bob fifty 0 []).1

abbrev after_two : HashMap Bytes (List Text)
after_two = (verify_transaction_signature lenient sign bob carol fifty 0 after_one).1

accepted : (verify_transaction_signature lenient sign alice bob fifty 0 []).0 ≡ true
unfolding verify_transaction_signature signature_holds is_used HashMap.get
accepted = refl

replay_refused_example :
    (verify_transaction_signature lenient sign alice carol sixty 1 after_two).0 ≡ false
replay_refused_example =
    replay_refused lenient sign alice bob fifty 0 carol sixty 1 [] accepted
      (Later.next sign bob carol fifty 0 Later.here)

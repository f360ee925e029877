-- ===== src/Client/Command.antt =====
-- src/main.rs: the command line.
use mini_block_chain.Prelude.{ite, Bool, Option, none, some, List, [], ◌∷◌}
use mini_block_chain.Bytes.{Bytes, Text, bytes_discrete, codes}
use mini_block_chain.External.{Crypto}
use mini_block_chain.Client.Wallet.{
  Curve, send_account_creation_request, send_transaction_request, send_faucet_request,
}
use mini_block_chain.Client.Ports.{Config}
use mini_block_chain.Client.Delivery.{Deliveries, send_json_request_to_all_ports}

-- What a command does.
pub data Command : Type 0 where
  send_account_creation run_validation unrecognized : Command
  send_transaction : (sender_private_key recipient_public_key transaction_amount : Text) → Command
  send_faucet : (public_key : Text) → Command

-- The arguments of a transaction; `none` is the panic where one is missing.
abbrev transaction_command : List Text → Option Command
transaction_command (sender ∷ recipient ∷ amount ∷ rest) =
    some (Command.send_transaction sender recipient amount)
transaction_command _ = none

abbrev faucet_command : List Text → Option Command
faucet_command [] = none
faucet_command (key ∷ rest) = some (Command.send_faucet key)

-- The arguments after the first, which names the command.
unfoldable pub command_named : Text → List Text → Option Command
command_named name rest =
    ite (bytes_discrete name (codes "make")) (some Command.send_account_creation) (
      ite (bytes_discrete name (codes "transaction")) (transaction_command rest) (
        ite (bytes_discrete name (codes "validate")) (some Command.run_validation) (
          ite (bytes_discrete name (codes "faucet")) (faucet_command rest)
            (some Command.unrecognized))))

-- `args[0]` is the program; `none` is the panic of an index out of range.
unfoldable pub main : List Text → Option Command
main (program ∷ name ∷ rest) = command_named name rest
main _ = none

-- What a command writes to the network, at given random bytes; `none` is a panic. A validator
-- runs on, and writes what its tasks send.
module _ (c : Crypto) (k : Curve) (connects : Text → Bool) (random_bytes : Bytes)
    (config : Config) where
  unfoldable pub perform : Command → Option Deliveries
  perform Command.send_account_creation = elim (send_account_creation_request c k random_bytes) [
    | none ↦ none
    | some (r, keys) ↦ send_json_request_to_all_ports connects r config
  ]
  perform (Command.send_transaction sender recipient amount) =
      elim (send_transaction_request c k sender recipient amount) [
        | none ↦ none
        | some r ↦ send_json_request_to_all_ports connects r config
      ]
  perform (Command.send_faucet key) =
      send_json_request_to_all_ports connects (send_faucet_request key) config
  perform Command.run_validation = some []
  perform Command.unrecognized = some []

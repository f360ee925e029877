-- ===== src/Lib.antt =====
-- A model of the node of this block chain, and what is proved of it.
--
-- A node keeps a chain of blocks, a tree of accounts, a set of unspent outputs, and what it knows
-- of its peers. A request arrives as JSON; a handler checks it against the node's own state,
-- stores that decision, asks the peers, waits for one vote from each, and writes the ledger if
-- the majority agrees. What each file models:
-- - Prelude: the library names that all files share, tests, lists and checked u64 arithmetic.
-- - HashMap, Bytes: the standard library's maps as association lists (whose order is the order of
--   iteration; BTreeMap::insert is insert_sorted), byte strings, and the encodings of numbers.
-- - Utxo (src/modules/utxo.rs): OutPoint, UTXO and the transactions with their hashes; Utxo/Set has
--   UTXOSet, Utxo/Amounts total_input_amount, total_output_amount and fee, Utxo/Apply
--   apply_transaction and apply_coinbase. Index, Balance, Supply, Spending and Conservation prove.
-- - Merkle (src/modules/merkle_tree.rs): Account, MerkleTree and its methods; Merkle/Root has
--   generate_merkle_root. Accounts and Commit prove.
-- - External: SHA-256, hex, secp256k1 and serde_json, as records of functions.
-- - Chain (src/modules/blockchain.rs): Block, BlockChain and its methods; Chain/Export has
--   BlockJson and its conversion. Push and Pending prove.
-- - Node (src/modules/validation.rs, ValidatorNode): the state, and the monad of the handlers;
--   Node/Request has the fields of a request and hash_network_request of src/modules/network.rs.
-- - Signature (src/modules/zk_proof.rs): verify_transaction_signature, and the signatures used.
-- - Consensus (src/modules/consensus.rs, and the waits of src/modules/validation.rs): votes, the
--   wait for them and determine_majority.
-- - Ledger (src/modules/validation.rs): the handlers; Ledger/Accounts for account creation and the
--   faucet, Ledger/Transfer for transactions, Ledger/Spend for UTXO transactions. Verdict, Payment,
--   Balances, Agreement, Round, Minting, Audit, Publication, Conflict and Overdraft prove.
-- - Heartbeat (src/modules/validation.rs, handle_heartbeat): the active peers.
-- - Adopt (src/modules/adopt_network_state.rs): how a newcomer takes over the majority's state.
-- - Dispatch (src/modules/network.rs, master_events_handler): which handler a message goes to.
-- - Client (src/modules/requests.rs): NetworkRequest with its JSON fields; Client/Wallet has
--   sign_transaction and the keys of src/modules/zk_proof.rs and what a wallet sends,
--   Client/Delivery the senders, Client/Ports try_bind_to_ports of src/modules/network.rs,
--   Client/Command the command line of src/main.rs. Reading, Handling and Payment prove.
-- - System (src/modules/network.rs and src/modules/validation.rs): the node with its tasks; the
--   handlers of Ledger in stages, whose steps interleave. Stable, Keeps and Runs carry a
--   predicate from the single writes to all runs; Invariant and History use them; Refines,
--   Handlers and Conforms relate the stages to the whole handlers.
-- - Locks: the mutexes of a node; Locks/Routines has the order in which each function takes them.
--   Order, Progress, Tasks and Deadlock prove.
--
-- The rest of Adopt is in Adopt/Joining (adopt_network_state, and the start of start_listening)
-- and Adopt/Maps (the serializers of the maps); Chain/Printing has print_chain and
-- save_chain_json.
--
-- State is passed explicitly. A handler is a function from the node to an outcome and a node; the
-- outcome is a value, a panic, or still waiting. The handlers in Ledger do not speak of mutexes:
-- a handler holds a lock while it reads or writes, and where it holds none, or waits, an argument
-- says what the other tasks do to the node (Schedule in Ledger, the list of steps in the waits),
-- or, in System, other tasks take their steps. A stage of System is what a handler does between
-- two such points; the signatures of the inputs of a UTXO transaction are one stage, although each
-- is recorded under a lock of its own. Locks has the mutexes without the data. Sending to a peer
-- changes no state; what is sent is in Client.
--
-- Numbers are unbounded, with the machine's bounds written out: a sum beyond u64 or u32 is the
-- panic of a build with overflow checks (none, or panicked), checked_add is none, and casts wrap.
-- Only the counts of equal states in adopt_majority have no bound: 2 ^ 32 states would be needed.
-- The clock is an argument, and so are the random bytes of a key. generate_merkle_root runs on as
-- much fuel as there are accounts; each round halves the nodes, so that is enough. A port is
-- written with at most five digits, which is enough for a u16.
--
-- Not modelled: sockets, the accept loop and the timer of the heartbeats (src/modules/network.rs),
-- which are I/O of the runtime; JSON text, which serde_json writes and parses; the two Notify of a
-- node, since a wait of the model may look at its condition at any time; the words that print_chain
-- prints around the values; and the files for the integration tests.
pub mod Prelude
pub mod HashMap
pub mod Bytes
pub mod Utxo
pub mod Merkle
pub mod External
pub mod Chain
pub mod Node
pub mod Signature
pub mod Consensus
pub mod Ledger
pub mod Heartbeat
pub mod Adopt
pub mod Dispatch
pub mod Client
pub mod Locks
pub mod System

-- ===== src/Ledger/Conflict.antt =====
-- src/modules/validation.rs, `handle_utxo_transaction_request`: two agreed UTXO transactions that spend
-- the same output, written one after the other.

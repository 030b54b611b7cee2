-- ===== src/Adapter/Gossip.antt =====
-- pkg/adapter/adapter.go: whether a transaction that comes over the network is passed on.
use go_execution_abci.Prelude.{ℕ, Bool, true, false, ◌==◌, nat_eq, Option, none, some}

-- The error of the mempool's CheckTx.
pub data CheckTxError : Type 0 where
  tx_in_cache mempool_is_full tx_too_large pre_check unexpected : CheckTxError

-- Which case of the select is taken: the context is done, the application's response is there, with its
-- code, or five seconds have passed.
pub data Waited : Type 0 where
  cancelled : Waited
  response : ℕ → Waited
  timed_out : Waited

abbrev code_type_ok : ℕ
code_type_ok = 0

-- newTxValidator. A transaction that was seen, or finds no place here, is passed on.
unfoldable pub validate_tx : Option CheckTxError → Waited → Bool
validate_tx (some CheckTxError.tx_in_cache) waited = true
validate_tx (some CheckTxError.mempool_is_full) waited = true
validate_tx (some CheckTxError.tx_too_large) waited = false
validate_tx (some CheckTxError.pre_check) waited = false
validate_tx (some CheckTxError.unexpected) waited = false
validate_tx none Waited.cancelled = false
validate_tx none (Waited.response code) = code == code_type_ok
validate_tx none Waited.timed_out = false

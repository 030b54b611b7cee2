-- ===== src/Rpc/Broadcast/Failed.antt =====
-- pkg/rpc/core/mempool.go: what a transaction that cannot be passed on leaves in the mempool.
use go_execution_abci.Prelude.{nat_eq}

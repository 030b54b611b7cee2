-- ===== src/Rpc/Broadcast.antt =====
-- pkg/rpc/core/mempool.go: transactions that are checked, kept and passed on. The mempool and the gossip
-- are parameters; a select is given the case that it takes. Of the answers the code and the height stand
-- here; the hash, the data and the log are copied.
pub mod Failed
use go_execution_abci.Prelude.{
  ℕ, Bool, true, false, not, ltb, leb, ◌==◌, nat_eq, if◌then◌else◌, length, take, Option, none,
  some, List, [], ◌∷◌,
}
use go_execution_abci.Prelude.Int.{ℤ, pos, negsuc, min_ℤ, ltb_ℤ, pos_part}
use go_execution_abci.Prelude.Exec.{Outcome, ok, err, panic, Exec, ◌>>=◌, ◌>>◌, pure, reads, guard}
use go_execution_abci.Compat.Types.{Bytes}

pub data BroadcastError : Type 0 where
  refused gossip context_done max_clients max_subscriptions subscribe cancelled timed_out :
      BroadcastError

-- The mempool's CheckTx and RemoveTxByKey, and the gossiper's Publish.
pub record Node (M : Type 0) : Type 0 where
  pub check_tx : Bytes → Exec BroadcastError M (Unit {0})
  pub remove_tx : Bytes → M → M
  pub publish : Bytes → Bool
  pub reap : M → List Bytes
  pub size : M → ℕ
  pub size_bytes : M → ℤ

-- What comes first: the context's end, or the application's response with its code.
pub data Response : Type 0 where
  done : Response
  code : ℕ → Response

-- What ends the wait for the block.
pub data Delivered : Type 0 where
  included : ℤ → Delivered
  unsubscribed : Delivered
  late : Delivered
  stopped : Delivered

abbrev pub code_type_ok : ℕ
code_type_ok = 0

abbrev pub max_subs : ℕ
max_subs = 100

pub record CommitAnswer : Type 0 where
  pub check_code : ℕ
  pub height : Option ℤ

module _ {M : Type 0} (node : Node M) where
  -- A transaction that cannot be passed on is removed; an error of the removal is only logged.
  unfoldable pub gossip_or_remove : Bytes → Exec BroadcastError M (Unit {0})
  gossip_or_remove tx m = if node.publish tx then (ok tt, m) else (err gossip, node.remove_tx tx m)

  unfoldable pub broadcast_tx_async : Bytes → Exec BroadcastError M (Unit {0})
  unfolding gossip_or_remove
  broadcast_tx_async tx = do node.check_tx tx; gossip_or_remove tx

  abbrev answered : Bytes → Response → Exec BroadcastError M ℕ
  answered tx done = reads (λ _. err context_done)
  answered tx (code c) = if c == code_type_ok then gossip_or_remove tx >> pure c else pure c

  unfoldable pub broadcast_tx_sync : Bytes → Response → Exec BroadcastError M ℕ
  unfolding gossip_or_remove
  broadcast_tx_sync tx response = do node.check_tx tx; answered tx response

  -- The end of the wait; the errors come with an answer without a height, of which the error stands.
  abbrev awaited : ℕ → Delivered → Outcome BroadcastError CommitAnswer
  awaited c (included h) = ok record { check_code = c; height = some h }
  awaited c unsubscribed = err cancelled
  awaited c late = err timed_out
  awaited c stopped = err context_done

  abbrev committed : Bytes → Response → Delivered → Exec BroadcastError M CommitAnswer
  committed tx done delivered = reads (λ _. err context_done)
  committed tx (code c) delivered =
      if c == code_type_ok
      then guard (node.publish tx) gossip >> reads (λ _. awaited c delivered)
      else pure record { check_code = c; height = none }

  -- The first arguments are the numbers of clients and of subscriptions, and whether Subscribe succeeds.
  unfoldable pub broadcast_tx_commit :
      ℕ → ℕ → Bool → Bytes → Response → Delivered → Exec BroadcastError M CommitAnswer
  broadcast_tx_commit clients subscriptions subscribes tx response delivered = do
    guard (not (leb max_subs clients)) max_clients
    guard (not (leb max_subs subscriptions)) max_subscriptions
    guard subscribes subscribe
    node.check_tx tx
    committed tx response delivered

  -- The transaction is checked by the mempool's CheckTx.
  unfoldable pub check_tx : Bytes → Response → Exec BroadcastError M ℕ
  check_tx tx done = node.check_tx tx >> reads (λ _. err context_done)
  check_tx tx (code c) = node.check_tx tx >> pure c

-- ctypes.ResultUnconfirmedTxs.
pub record Unconfirmed : Type 0 where
  pub count : ℕ
  pub total : ℕ
  pub total_bytes : ℤ
  pub txs : List Bytes

abbrev limit_of : Option ℤ → ℕ → ℕ
limit_of none n = n
limit_of (some limit) n = pos_part (min_ℤ limit (pos n))

module _ {M : Type 0} (node : Node M) where
  -- A limit below 0 is 0.
  unfoldable pub unconfirmed_txs : Option ℤ → M → Unconfirmed
  unconfirmed_txs limit m =
      let txs = node.reap m in
      let page = take (limit_of limit (length txs)) txs in
      record {
        count = length page;
        total = node.size m;
        total_bytes = node.size_bytes m;
        txs = page;
      }

  unfoldable pub num_unconfirmed_txs : M → Unconfirmed
  num_unconfirmed_txs m = record {
    count = node.size m;
    total = node.size m;
    total_bytes = node.size_bytes m;
    txs = [];
  }

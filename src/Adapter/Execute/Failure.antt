-- ===== src/Adapter/Execute/Failure.antt =====
-- pkg/adapter/adapter.go: a block that the application does not commit.
use go_execution_abci.Prelude.{ℕ, ◌<◌, ◌≡◌, refl, List}
use go_execution_abci.Prelude.Int.{to_i64, i64_bound}
use go_execution_abci.Prelude.Exec.{ok, err}
use go_execution_abci.Compat.Types.{Bytes, Header, Commit, CometHeader}
use go_execution_abci.Adapter.Types.{Error, Validator, CometState, FinalizeResponse, Adapter}
use go_execution_abci.Adapter.Store.RoundTrip.{IsStore}
use go_execution_abci.Adapter.Env.{Env}
use go_execution_abci.Adapter.Execute.{next_state, commit_block, finish_block}
use go_execution_abci.Adapter.Execute.Transition.{next_state_lem, load-save_positive}

-- The state of a block, of a height from 1 on that fits an int64, is saved before the application
-- commits: where the next state and its save succeed and the
-- mempool is flushed, but the application's Commit fails, ExecuteTxs ends, from the next state on, with
-- this error, publishes and queues nothing, and leaves a store whose state is the next one, with the
-- height of the block and, as last validators, the validators of the state before.
pub finish_block-commit_fails :
    {D A M : Type 0} (env : Env D A M) (lawful : IsStore env.store) (s next : CometState)
    (header' : Header) (abci_header : CometHeader) (last_commit : Commit) (txs : List Bytes)
    (block_height : ℕ) (response : FinalizeResponse) (p : ℕ) (changes : List Validator)
    (a : Adapter D A M) (d : D) (m : M) (app : A) (e : Error)
    → 0 < block_height
    → block_height < i64_bound
    → next_state env s response block_height ≡ ok (next, changes)
    → env.store.save_state next a.db ≡ (ok tt, d)
    → env.flush a.mempool ≡ (ok tt, m)
    → env.commit a.application ≡ (err e, app)
    → (finish_block env s header' abci_header last_commit txs block_height response p a
        ≡ (err e, record a { db = d; mempool = m; application = app }))
      × (env.store.load_state d ≡ ok next)
      × (next.last_block_height ≡ to_i64 block_height)
      × (next.last_validators ≡ s.validators)
unfolding finish_block commit_block
finish_block-commit_fails env lawful s next header' abci_header last_commit txs block_height
      response p changes a d m app e positive fits is_next saved flushed fails =
    let (at_height, has_root, last, chain, turn, unchanged) =
      next_state_lem env s next response block_height changes is_next in
    (
      rw (is_next, saved, flushed, fails) refl,
      load-save_positive env lawful a.db d next block_height saved at_height positive fits,
      at_height,
      last,
    )

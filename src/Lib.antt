-- ===== src/Lib.antt =====
-- A model of go-execution-abci, which runs Cosmos SDK applications on Rollkit, with the theorems that
-- make its parts correct. The Go files are named by their paths from the root of the repository.
--
-- The parts, and the modules here that model them:
--
-- modules/network is the module of soft confirmations. Validators that have joined the attester set
-- attest checkpoint heights; a height is softly confirmed once the voted power reaches the quorum.
-- - Network.Bitmap: keeper/bitmap.go, the bitmaps of votes. A byte slice is a list of numbers below 256.
-- - Network.Types: the messages and parameters of types, and `Env`, the record of what the module is
--   given by packages outside the repository: the decimals of cosmossdk.io/math, the staking keeper's
--   answers, address codecs, SHA-256 and base64. `State` holds the collections of the store, each an
--   association list, and the emitted events.
-- - Network.Types.Validate: types/params.go and types/genesis.go, the validation.
-- - Network.Keeper: keeper/keeper.go. The keeper's methods are functions of the state, with the Go names.
-- - Network.MsgServer: keeper/msg_server.go. A handler is a chain of steps over the state, which return,
--   fail with an error or panic (Prelude.Exec); what was written before an error stays in the result.
-- - Network.EndBlock: keeper/abci.go. Network.Query: keeper/grpc_query.go.
--   Network.Genesis: InitGenesis and ExportGenesis of genesis.go. Network.Invariant: the calls of the module
--   in any order.
--
-- modules/rollkitmngr moves a chain between CometBFT and Rollkit.
-- - Manager.Types and Manager.Updates: types, and the lists of validator updates of
--   keeper/migration.go. `Keys` is what packages outside the repository do with public keys.
-- - Manager.Keeper: IsMigrating of keeper/keeper.go, migrateNow and migrateOver, the block hooks of
--   keeper/abci.go and the handler of keeper/msg_server.go. Manager.Query: keeper/grpc_query.go.
--
-- pkg/cometcompat gives Rollkit's headers the form of CometBFT.
-- - Compat.Types: the structures of CometBFT and Rollkit, with the fields that the code names, and `Comet`,
--   the record of what CometBFT computes: hashes, part sets, the bytes of a vote.
-- - Compat: convert.go, signer.go and validator_hasher.go.
--
-- pkg/store and pkg/adapter run the application.
-- - Adapter.Types: the state of CometBFT, the application's answers, what is published, and `Store`, the
--   interface of pkg/store that the adapter uses; Adapter.Store.RoundTrip.IsStore holds its laws. CometBFT's
--   encoding of a state below height 1 leaves out the last validators, so these are not relied on there.
-- - Adapter.Store: store.go, over a datastore, its keys and the codecs as parameters.
-- - Adapter.Commit: GetLastCommit and cometCommitToABCICommitInfo of adapter.go.
-- - Adapter.Events: fireEvents, the queue of block events, SetFinal and publishQueuedBlockEvents. A queued
--   event points to its response by the number of a cell of a heap, since the code shares and changes it.
-- - Adapter.Env and Adapter.Execute: InitChain, ExecuteTxs and GetTxs. `Env` is the application, the
--   mempool and what CometBFT does with validator sets and parameters. Adapter.Gossip: newTxValidator.
-- - Adapter.Filter: the filter of soft confirmations of options.go, over the query of the network module.
-- - Adapter.MempoolIds: mempool_ids.go, the short ids of the mempool's peers.
--
-- pkg/rpc/core answers CometBFT's RPC calls.
-- - Rpc.Paging and Rpc.Heights: env.go and utils.go, the paging and the ranges of heights.
-- - Rpc.Types and Rpc.Blocks: blocks.go and getBlockMeta. Rpc.Search: BlockSearch, and tx.go;
--   sort.Slice is a parameter, `Sorter`.
-- - Rpc.Broadcast: mempool.go. Rpc.Chunks: the genesis chunks of net.go. Rpc.Events: events.go, where the
--   goroutine of a subscription is a function of what it receives. Rpc.Consensus: consensus.go and
--   status.go. Rpc.Events.Running: the calls of several connections, whose steps come in any order.
--   Rpc.Net: the rest of net.go, and abci.go.
--
-- modules/staking wraps the staking keeper of the SDK, so that updates of validators reach CometBFT at the
-- genesis block alone. Staking: keeper/keeper.go and keeper/validator.go.
--
-- server moves the data of a CometBFT chain to Rollkit's stores, in migration_cmd.go, and starts the node.
-- - Server.Migration: the conversions, the loop over the blocks and the choice of the sequencer.
-- - Server.Command: the command around them, with the opening and the closing of its stores; `Command` is
--   its databases, files and flags.
-- - Server.Genesis: the genesis file that the migration writes, and the genesis with which server/start.go
--   starts a node, over a disk and codecs as parameters.
-- - Server.Start: StartHandler of server/start.go and what it calls, as the order in which parts are opened
--   and closed; `Calls` is what the calls of other packages come to. What the code opens and has no function
--   to close stands apart.
--
-- How they interact: the end of a block of the network module reads the bitmaps that Attest wrote, and
-- rebuilds the index map that later calls of Attest read. ExecuteTxs writes through pkg/store what
-- GetLastCommit, the signature payload and the RPC calls read, and fills the queue that SetFinal empties.
-- The RPC calls and ExecuteTxs share the conversions of pkg/cometcompat. The filter of
-- the adapter's queue asks the network module, and the node of a migrated chain starts with the genesis that
-- the migration wrote.
--
-- Numbers are the native ones. The widths uint16, uint64 and int64 are written out (Prelude.Int), with
-- wrap-around where the code can meet it. Loops over slices are structural. The voted power's loop runs
-- over the eight bits of each byte. CountInRange runs on fuel of end - start rounds, which is enough
-- since its index grows by one each round. nextPeerID runs on fuel of one round for each used id and one
-- more, which is enough since each round before the last one meets another used id. The loop over genesis
-- chunks runs on fuel of a round for each byte, which is enough since a chunk has a byte or more. The
-- migration's loop is structural on the height. The calls of MempoolIDs hold its mutex and are one step each. A select is given the case that it takes, and a context
-- the rounds before which it is done.
--
-- Not modelled: Genesis of pkg/rpc/core/net.go, the wiring of the adapter, and the values that the
-- server hands from part to part, which call other packages; the generated protobuf code, command lines, dependency injection, logging and metrics, and network transport. In the
-- modules of modules, the errors of the store other than a missing key are left out, and the staking
-- keeper's answers are fixed within one call.
pub mod Prelude
pub mod Network
pub mod Manager
pub mod Adapter
pub mod Rpc
pub mod Tests
pub mod Compat
pub mod Server
pub mod Staking

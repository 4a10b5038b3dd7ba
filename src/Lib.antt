-- ===== src/Lib.antt =====
-- cerc-io/watcher-ts: a watcher follows the blocks of an Ethereum-like chain, keeps the events of
-- watched contracts in a database, and derives state from them. A job runner takes jobs from queues:
-- historical processing goes through ranges of old blocks, block processing indexes new ones and
-- prunes forks, and event processing hands the events of a block to the watcher's handlers. An
-- indexer stands between these and the database.
--
-- The files, and the code that each models:
--
-- Common: lists, integers, errors. A method is an `Action`: from a state to a result, which is a
--   value or the error thrown, and the state after it; what was written before a throw stays.
-- Tables: the rows of packages/util/src/types.ts and the database, a table being the list of its
--   rows in the order of their insertion. `transact` is the transaction of the methods of
--   packages/util/src/indexer.ts: an error puts the database back.
-- Sync: the sync status, `updateSyncStatus..` of packages/util/src/database.ts (Sync/Database) and of
--   packages/util/src/indexer.ts, and `updateStateSyncStatus..` with their indexer methods in
--   packages/codegen/src/templates/indexer-template.handlebars.
-- Blocks: the table of blocks, with `getBlocksAtHeight`, `markBlocksAsPruned`, `updateBlockProgress`,
--   `saveBlockWithEvents`, and the recursive queries `getAncestorAtHeight` and `getFrothyRegion`, all
--   in packages/util/src/database.ts.
-- Entity: `getFrothyEntity`, `getLatestPrunedEntity` and `getPrevEntityVersion` of the same file, the
--   versions of one subgraph entity that a block sees; Entity/Seen says which one without the walk.
-- EntityCache: the cache of entities of packages/util/src/graph/database.ts, and `store.get`,
--   `store.set` and `store.remove` of packages/graph-node/src/loader.ts through it, over Entity and
--   Blocks. What TypeORM's `save` does with undefined columns is that of its documentation.
-- Pruning: `_pruneChain` of packages/util/src/job-runner.ts, over Blocks and Sync.
-- Contracts: the map of watched contracts in packages/util/src/indexer.ts.
-- Events: `getBlockEvents` of packages/util/src/database.ts, `_processEvents`,
--   `_processEventsInSubgraphOrder` (Events/Subgraph) and `processBatchEvents` (Events/Batch) of
--   packages/util/src/common.ts, over Contracts and Blocks; a watcher's handlers are the record
--   `Handlers`, which also says whether the database refuses one of the two last writes of a block.
--   Events/Loop is the argument that the loops over pages share, Events/Table the page of
--   the table that each round fetches.
-- EventJob: `_processEvents` of packages/util/src/job-runner.ts, the job of a block's events with its
--   handling of an error, over Events/Batch, Reset and Sync.
-- Historical: `processHistoricalBlocks` of packages/util/src/job-runner.ts and the worker of its
--   queue, over Sync. The record `Services` has the calls that fetch logs and blocks, reset the
--   watcher, and switch clients.
-- EventWatcher: packages/util/src/events.ts, what it pushes at the start, after a historical job and
--   after a complete block, over Historical and Sync.
-- State: the states of contracts, kept beside the indexer. State/Query has the queries of
--   packages/util/src/database.ts, State/Entry `prepareStateEntry`, `saveOrUpdateState`,
--   `removeStates` and `fetchStateStatus`, State/Create `createInit`, `createDiffStaged`,
--   `finalizeDiffStaged`, `createDiff`, `createCheckpoint` and `processCheckpoint`, State/Merge
--   `_mergeDiffsInRange`, all of packages/util/src/indexer.ts, with `createOrUpdateStateData` of
--   packages/util/src/state-helper.ts. JSON values, their merge, the codec and the hooks of a watcher
--   are what the record `Codec` and the record `StateHooks` give.
-- Storage: packages/solidity-mapper/src/storage.ts, which reads a variable of a contract by the layout
--   of its storage; Storage/Decode is `getDecodedValue` with what it calls. The node and the functions
--   of ethers are the record `Ethers`.
-- Indexing: `_indexBlock` of packages/util/src/job-runner.ts and `createPruningJob` of
--   packages/util/src/common.ts, over Blocks, Sync and Historical. The record `IndexServices` has the
--   calls of the node and of the watcher.
-- Filling: `fillBlocks` and `prefetchBlocks` of packages/util/src/fill.ts, over Sync and EventWatcher.
-- Reset: `resetWatcherToBlock` and `clearProcessedBlockData` of packages/util/src/indexer.ts, and
--   `resetToLatestProcessedBlock` of packages/util/src/job-runner.ts, over State, Contracts and Sync.
--   Rows of events and states go with their blocks.
-- Payments: the vouchers that packages/util/src/payments.ts receives and takes, the free queries of an
--   account, and the check of a request. A cache of the package lru-cache is a record `Lru`, and
--   Payments/Caches has what is relied on: it may lose entries at any time. Payments/Spent,
--   Payments/Received and Payments/Wait follow one voucher through each operation.
--
-- A hash, an address, a kind and a name of an event are only compared, so each is a number. Block
-- numbers and indices of events are integers, -1 among them, as JavaScript numbers of that size are.
--
-- Loops that the code writes with `while` or as recursive queries run on fuel. The walk over parents
-- has fuel from the difference of heights, and ends where parents have lower numbers; the loop
-- over pages has one round more than the block has events, and each round that is not the last
-- fetches an event; the worker of the historical queue has as much as its caller gives it, and a
-- number above the difference of the range's ends is enough. Diffs are merged in batches with the
-- difference of the ends and one more as fuel, where each round goes on by at least one block. A type
-- of a storage layout refers to other types, and reading it takes one unit of fuel for each of a chain.
-- The walk over the cached blocks has fuel from the number of the first of them, and ends where the
-- numbers of parents are lower. Prefetching has the fuel of its caller for its batches and for the
-- tries of one batch, since the node may never have a block.
--
-- Not modelled: the text of events and the JSON of states, logs and metrics, the queries' plans,
-- concurrent transactions, pg-boss beyond the order of pending jobs, the peer network, opening and
-- paying the channels of payments, the votes of consensus, the queries of clients for entities with
-- their relations and the tables of latest entities, the WebAssembly runtime of subgraphs, code
-- generation and the command line.
pub mod Blocks
pub mod Common
pub mod Contracts
pub mod Entity
pub mod EntityCache
pub mod EventJob
pub mod EventWatcher
pub mod Events
pub mod Filling
pub mod Historical
pub mod Indexing
pub mod Payments
pub mod Pruning
pub mod Reset
pub mod State
pub mod Storage
pub mod Sync
pub mod Tables

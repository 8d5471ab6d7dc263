-- ===== src/Lib.antt =====
-- A verification library for the core of Cil-core, a blockchain node. The parts of the program that
-- are modelled, and the files that model them:
--
-- * structures/utxo.js and structures/coins.js (Utxo): the outputs of one transaction that are not
--   spent yet, as two arrays in step. Utxo/View sees them as a finite map.
-- * structures/contract.js (Contract): a contract's stored fields, and the cache of its decoded data.
-- * structures/txReceipt.js (Receipt): what running a transaction gave.
-- * storage/patch.js (Patch, Patch/Merge, Patch/Purge): what a block changes in the chain state.
--   Patches of parallel blocks are merged; the merge is where a double spend is caught.
-- * conciliums/ (Conciliums): the witnesses of a concilium, in turn (RoundRobin) or by stake (Pos),
--   their weights and quorum, and the round that says whose turn it is (Rounds). Concilium joins the
--   two kinds as the subclasses of baseConciliumDefinition.js do. Gcd is `GCD` of utils.js.
-- * node/bftConsensus.js (Bft, Bft/Types, Bft/Majority, Bft/Gather): how the witnesses agree on a round and on a
--   block. It asks its concilium for weights, the quorum, the round and the proposer.
-- * node/mempool.js (Mempool, Mempool/Limit), node/requestsCache.js (Requests), structures/inventory.js (Inventory):
--   transactions that wait for a block, hashes that were asked for, and lists of hashes to announce.
-- * structures/transaction.js (Transaction), structures/block.js (Block), structures/blockInfo.js
--   (BlockInfo) and structures/arrayOf.js (ArrayOf): what is sent and stored, how it is signed,
--   hashed, finished and verified.
-- * node/app.js (App, App/Run): takes the inputs of a transaction, makes its payments, and runs the
--   code of contracts within a limit of coins.
-- * storage/persistentStorage.js (Storage, Storage/Definitions): blocks, coins, contracts, receipts
--   and indexes in a key-value database, here a map. Patches that became stable are applied to it.
-- * node/pendingBlocksManager.js (Pending, Pending/Graph, Pending/Parents) and node/mainDag.js
--   (MainDag): the graph of executed blocks, the parents of a new block, and when blocks become stable.
-- * node/node.js (Node): fees (Fees), what running contracts ask for (Callbacks), contracts
--   (Contracts), transactions (Transactions), and the checks and the execution of blocks (Blocks,
--   Accept). It joins the application, the storage, the patches and the pending blocks.
-- * node/witness.js (Witness): makes a block of the transactions that wait.
--
-- Function names are the source's in snake case, without the leading underscore: `_majority` is
-- `majority`. A method that changes its object returns the new state; one that throws returns `err`
-- with one error for each `throw` and `assert` (Base/Throws). A throw leaves no state, except where a
-- receipt is changed before the throw (Receipt.merge, Patch.set_receipt, Receipt.add_internal_utxo):
-- there the result stands beside the state; and in runs of contracts, whose transfers and spent coins
-- stay when a call fails (App/Run, Node/Callbacks). Events and timer calls of the consensus are
-- appended to a log, and the clock is an argument.
--
-- Hashes, addresses, ids, and the hex strings and buffers that hold them, are native numbers; a
-- JavaScript `Map` is an association list in insertion order (JsMap). Amounts are numbers without a
-- bound. Members of a concilium that take turns weigh 1 each. By stake, the code computes with
-- doubles. The draw of the proposers does so here too (Conciliums/Doubles): shares, totals and the
-- bounds of each share are rounded as the code rounds them, and a draw that then finds nobody throws.
-- Weights and quorums by stake are the exact fractions, multiplied by `scale`; that the code rounds
-- them is not modelled. So a theorem that says that weights reach a quorum, or what part of all the
-- weight a quorum is, is of the exact numbers.
--
-- The protobuf, JSON and V8 codecs, hashing, signatures, Merkle trees, the graph library dagjs, the
-- sandbox vm2 and sorting are not part of the repository's own code: they are parameters (UtxoProto,
-- ContractProto, TxReceiptProto, Env, TxCodec, TxEnv, BlockEnv, StorageEnv, NodeEnv, Vm, DagApi), with
-- the round trips of the codecs as laws. Tests/Codecs and Tests/Envs have concrete ones that meet
-- them. A run of contract code is a script of the transfers and calls that it asks for (App/Types).
--
-- The loop of `GCD` runs on fuel, the sum of its arguments plus one; each round lowers the sum, so
-- the fuel is enough (Conciliums/Gcd). The bytes of an array are cut up on as much fuel as there
-- are bytes (ArrayOf). The rounding of a double doubles a number until it is large enough, on as
-- much fuel as the number that it rounds (Conciliums/Doubles has that this is enough). Calls of
-- contracts by contracts are bounded by `nesting` of NodeEnv, as the stack of JavaScript bounds
-- them, and fail beyond it. All other loops are structural.
--
-- Awaited calls run one after another, as the mutexes of the node make them. A definition of a
-- concilium that a look-up caches is read again instead. A receipt whose used coins were negative is
-- an error.
--
-- Not modelled: documents of a concilium, serialization of patches, the cache of the storage, its
-- records of peers and wallets, network, RPC, wallets and cryptography; of node.js the messages and
-- the queue of blocks, local transactions and unwinding the mempool; of witness.js its messages and
-- join transactions. These are I/O, or need the network's order of messages.
pub mod Base
pub mod JsMap
pub mod Utxo
pub mod Contract
pub mod Receipt
pub mod Patch
pub mod Conciliums
pub mod Bft
pub mod Mempool
pub mod Requests
pub mod Inventory
pub mod Transaction
pub mod Block
pub mod Tests
pub mod App
pub mod BlockInfo
pub mod ArrayOf
pub mod Storage
pub mod Node
pub mod Pending
pub mod MainDag
pub mod Witness

-- ===== src/Lib.antt =====
-- peerdns: models of the parts of the peer-to-peer DNS node, and what holds of them.
--
-- The node agrees on blocks with the SHPoNU protocol. A leader proposes a block, validators approve
-- it with their signatures, and with a quorum of approvals the block is finalized. Packets carry
-- proposals, approvals and finalizations between nodes, and a key-value database keeps them. A
-- pool holds the transactions that wait for a block, and the ledger the balances that blocks leave.
--
--   pkg/consensus/protocol.go: Consensus/Node.antt is `Protocol` and its packets,
--     Consensus/Protocol.antt its methods: propose_block is ProposeBlock, handle_proposal
--     HandleProposal, receive one round of Start's loop, and so on.
--   pkg/consensus/state.go: Consensus/State.antt (AddProposal, AddApproval, HasReachedQuorum, ...).
--   pkg/consensus/validator_set.go and validator.go: Consensus/ValidatorSet.antt.
--   pkg/consensus/message_pool.go: Consensus/MessagePool.antt.
--   pkg/consensus/errors.go: Consensus/Effects.antt, with the monad of the methods. A call ends with
--     a value, an error or a panic, and the changes before an error stay.
--   pkg/validator/consensus.go: Validator/Module.antt, Validator/Verifying.antt (verifySignature) and
--     Validator/Handlers.antt (handleProposal, listenToNetwork, ...), over the same consensus state.
--   pkg/validator/state.go: Validator/Lifecycle.antt (SetState, WaitForState, ...).
--   pkg/packets: Packets/PeerId.antt, Packets/Consensus.antt, Packets/Network.antt and
--     Packets/Route.antt; Wire.antt is what they use of the standard library's readers and writers.
--   pkg/txpool/pool.go: TxPool.antt (AddTransaction, evictTransaction, GetTransactions, ...).
--   pkg/types: Types/Hash.antt, Types/Address.antt, Types/Transaction.antt and Types/Block.antt.
--   pkg/ledger/state.go: Ledger/State.antt (UpdateBalance, applyBlock, ...); validation.go and
--     utils.go: Ledger/Validation.antt (validateTransaction, validateConsensusRules, ...) and
--     Ledger/Validation/Blocks.antt (ValidateBlock); block.go, ledger.go and chain.go:
--     Ledger/Blocks.antt (AddBlock, GetLatestBlock, ...); traversal.go and transaction.go:
--     Ledger/Traversal.antt (ListBlocks, SeekTransactions, ...). Ledger/Graph.antt is what they use
--     of the graph library.
--   pkg/graphmdbx: GraphStore.antt (AddVertex, RemoveVertex, ListEdges, ...), over Storage.antt.
--   pkg/genesis: Genesis.antt (Validate, CreateGenesisBlock).
--   pkg/chain: Chain.antt (NewBlockchain with setup, AddBlock, HandleIncomingBlock, ...), which
--     calls the ledger and the genesis block.
--   pkg/topology: Topology.antt (AddPeer, RemovePeer, Serialize, ...).
--   pkg/sequencer: Sequencer.antt (ForgeBlock, a tick of produce, ...), which takes transactions
--     from the pool and gives blocks to the chain, and Sequencer/States.antt (SetState, ...).
--   pkg/routing: Routing/Entry.antt (Serialize, DeserializeRouteEntry, ...) and Routing/Manager.antt
--     (AddRoute, HandleIncomingRoute, ...).
--   pkg/sharding: Sharding/Shard.antt and Sharding/Manager.antt (AssignValidator, ...).
--   pkg/accounts: Accounts/Account.antt and Accounts/Store.antt (Create, Delete, ...).
--   pkg/signatures/types.go and signer.go: Signers.antt.
--   pkg/storage/mdbx.go: Storage.antt (Set, Get, ListKeysWithPrefix, ...); writer.go, the batch
--     writer: Storage/Writer.antt; manager.go: Storage/Manager.antt (NewManager, CreateDb, ...).
--   pkg/state: the records of proposals, peers, latencies and finalizations are
--     State/Records.antt, the manager that keeps them State/Manager.antt (AddProposal, RemovePeer, ...).
--
-- A module below these holds proofs and is named for what it proves; Consensus/Safety.antt is the
-- invariant of a node. Prelude.antt holds lists, octets, integers and maps for all of them.
--
-- Parameters: MDBX, the graph library, JSON, the numbers of math/big, the compression of records,
-- the hash of the shards, the signers, SHA-256 and the hash of a block, whether the network takes a
-- message, the kernel's table of routes, the files and generated keys of accounts, the block
-- finalizer, the utility scores of peers, the text of identifiers and the clock are arguments of the
-- definitions. A handler, or a round of a
-- goroutine, runs to its end before the next one starts; channels have no bound. Maps are
-- association lists in one order of iteration, which decides between equal scores, timestamps or
-- nonces; a tick of the sequencer is given the order in which it visits the pool. Every loop is
-- structural recursion. Three run on fuel: the levels of the Merkle tree, with as many rounds as
-- there are hashes, the digits of a number, as many as the integer type has at most, and the way
-- back to the genesis block when the chain is set up, where more fuel than the index of the latest
-- block is enough. Logging is left out.
--
-- Not modelled: networking, configuration, services and commands, which are input, output and glue;
-- the decoding of account files and of the genesis file; and the packages metrics, node and runtime,
-- with the rest of topology and of validator.
mod Prelude
pub mod Wire
pub mod Signers
pub mod Packets
pub mod Types
pub mod TxPool
pub mod Ledger
pub mod Storage
pub mod Consensus
pub mod State
pub mod Validator
pub mod Routing
pub mod Sharding
pub mod Accounts
pub mod Genesis
pub mod Chain
pub mod Sequencer
pub mod GraphStore
pub mod Topology

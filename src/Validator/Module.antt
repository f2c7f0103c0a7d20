-- ===== src/Validator/Module.antt =====
-- pkg/validator/consensus.go: the consensus module's state, what it asks of the world, and its
-- packets. The channel of packets to process has no bound here; in the source a full one, of 1000
-- packets, blocks the listener.
use peerdns.Prelude.{ℕ, zero, Bool, List, [], ◌∷◌, ◌++◌, Bytes, hex, codes}
use peerdns.Prelude.Map.{Map}
use peerdns.Signers.{bls_signer_type}
use peerdns.Storage.{Mdbx}
use peerdns.Packets.PeerId.{
  PeerId, packet_type_proposal, packet_type_approval, packet_type_finalization,
}
use peerdns.Packets.Consensus.{ConsensusPacket}
use peerdns.Consensus.Effects.{M}
use peerdns.Consensus.ValidatorSet.{ValidatorSet, Account}
use peerdns.Consensus.State.{State, new_state}
use peerdns.Validator.Lifecycle.{StateManager, set_state, uninitialized}

pub record Env : Type 1 where
  pub db : Mdbx
  -- `types.HashData`
  pub hash_data : Bytes → Bytes
  -- Whether the topic takes a message.
  pub publishes : Bytes → Bool
  -- The text of an identifier.
  pub peer_string : PeerId → Bytes

-- `Consensus`. `proposers` counts the goroutines of `proposeBlocks`; `sent` keeps what was
-- published, the newest first.
pub record ConsensusModule (S : Type 0) : Type 0 where
  pub identity : Account
  pub state : State S
  pub message_chan : List ConsensusPacket
  pub processed_msgs : Map Bool
  pub validator_set : ValidatorSet
  pub current_leader : PeerId
  pub proposers : ℕ
  pub sent : List Bytes
  pub state_mgr : StateManager

-- `ConsensusStateType`
abbrev pub consensus_state_type : Bytes
consensus_state_type = codes "consensus"

-- `NewConsensus`, from the contents of its database.
unfoldable pub new_consensus :
    {S : Type 0} → Account → S → ValidatorSet → StateManager → ConsensusModule S
new_consensus identity contents validator_set state_mgr = record {
  identity = identity;
  state = new_state contents;
  message_chan = [];
  processed_msgs = [];
  validator_set = validator_set;
  current_leader = [];
  proposers = zero;
  sent = [];
  state_mgr = set_state consensus_state_type uninitialized state_mgr;
}

-- A call of a method of the state.
abbrev pub on_state : {S : Type 0} → M (State S) (Unit {0}) → M (ConsensusModule S) (Unit {0})
on_state m n = let (r, cs) = m n.state in (r, record n { state = cs })

abbrev pub proposal_packet : Bytes → Bytes → PeerId → Bytes → ConsensusPacket
proposal_packet block_hash block_data id signature = record {
  packet_type = packet_type_proposal;
  signer = bls_signer_type;
  proposer_id = id;
  validator_id = [];
  block_hash = block_hash;
  block_data = block_data;
  signature = signature;
}

abbrev pub approval_packet : Bytes → PeerId → Bytes → ConsensusPacket
approval_packet block_hash id signature = record {
  packet_type = packet_type_approval;
  signer = bls_signer_type;
  proposer_id = [];
  validator_id = id;
  block_hash = block_hash;
  block_data = [];
  signature = signature;
}

abbrev pub finalization_packet : Bytes → PeerId → Bytes → ConsensusPacket
finalization_packet block_hash id signature = record {
  packet_type = packet_type_finalization;
  signer = bls_signer_type;
  proposer_id = [];
  validator_id = id;
  block_hash = block_hash;
  block_data = [];
  signature = signature;
}

-- The key under which a packet counts as processed: the validator and the block.
unfoldable pub msg_id : (PeerId → Bytes) → ConsensusPacket → Bytes
msg_id peer_string pkt = peer_string pkt.validator_id ++ (58 ∷ hex pkt.block_hash)

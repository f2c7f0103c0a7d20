-- ===== src/Consensus/Node.antt =====
-- pkg/consensus/protocol.go: a node, what it asks of the world, and the packets that it makes.
use peerdns.Prelude.{ℕ, Bool, Option, List, [], Bytes}
use peerdns.Storage.{Mdbx}
use peerdns.Packets.PeerId.{
  PeerId, packet_type_proposal, packet_type_approval, packet_type_finalization,
}
use peerdns.Packets.Consensus.{ConsensusPacket}
use peerdns.Consensus.Effects.{M}
use peerdns.Consensus.ValidatorSet
use peerdns.Consensus.ValidatorSet.{ValidatorSet}
use peerdns.Consensus.MessagePool.{MessagePool}
use peerdns.Consensus.State.{State, new_state}

pub record Env : Type 1 where
  pub db : Mdbx
  -- `types.HashData`
  pub hash_data : Bytes → Bytes
  -- Whether the network takes a message for broadcast.
  pub broadcasts : Bytes → Bool
  -- Whether `BlockFinalizer.Finalize` succeeds on a block hash and block data.
  pub finalizes : Bytes → Bytes → Bool

-- `Protocol`. `network` is the identifier of the host on the P2P network, or `none` for a nil one;
-- `has_finalizer` tells whether a finalizer is set. The calls that leave the node are kept, the
-- newest first.
pub record Node (S : Type 0) : Type 0 where
  pub state : State S
  pub validators : ValidatorSet
  pub message_pool : MessagePool
  pub network : Option PeerId
  pub has_finalizer : Bool
  pub quorum_threshold : ℕ
  pub sent : List Bytes
  pub finalizer_calls : List (Bytes × Bytes)

-- `NewProtocol`, from the contents of its database: the quorum is the one of this moment.
unfoldable pub new_protocol : {S : Type 0} → ValidatorSet → S → Option PeerId → Bool → Node S
new_protocol validators contents network has_finalizer = record {
  state = new_state contents;
  validators = validators;
  message_pool = [];
  network = network;
  has_finalizer = has_finalizer;
  quorum_threshold = ValidatorSet.quorum_size validators;
  sent = [];
  finalizer_calls = [];
}

-- A call of a method of the state.
abbrev pub on_state : {S : Type 0} → M (State S) (Unit {0}) → M (Node S) (Unit {0})
on_state m n = let (r, cs) = m n.state in (r, record n { state = cs })

abbrev pub proposal_packet : Bytes → Bytes → PeerId → Bytes → ConsensusPacket
proposal_packet block_hash block_data id signature = record {
  packet_type = packet_type_proposal;
  signer = [];
  proposer_id = id;
  validator_id = [];
  block_hash = block_hash;
  block_data = block_data;
  signature = signature;
}

abbrev pub approval_packet : Bytes → PeerId → Bytes → ConsensusPacket
approval_packet block_hash id signature = record {
  packet_type = packet_type_approval;
  signer = [];
  proposer_id = [];
  validator_id = id;
  block_hash = block_hash;
  block_data = [];
  signature = signature;
}

-- It carries no signature.
abbrev pub finalization_packet : Bytes → ConsensusPacket
finalization_packet block_hash = record {
  packet_type = packet_type_finalization;
  signer = [];
  proposer_id = [];
  validator_id = [];
  block_hash = block_hash;
  block_data = [];
  signature = [];
}

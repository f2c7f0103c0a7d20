-- ===== src/Consensus/MessagePool.antt =====
-- pkg/consensus/message_pool.go: packets in flight, by block hash.
use peerdns.Prelude.{Bool, Option, List, Bytes}
use peerdns.Prelude.Map.{Map, lookup, has, insert, delete, values}
use peerdns.Packets.Consensus.{ConsensusPacket}

abbrev pub MessagePool : Type 0
MessagePool = Map ConsensusPacket

unfoldable pub add_message : ConsensusPacket → MessagePool → MessagePool
add_message msg messages = insert msg.block_hash msg messages

-- `none` is the error "not found".
unfoldable pub get_message : Bytes → MessagePool → Option ConsensusPacket
get_message block_hash messages = lookup block_hash messages

unfoldable pub remove_message : Bytes → MessagePool → MessagePool
remove_message block_hash messages = delete block_hash messages

unfoldable pub has_message : Bytes → MessagePool → Bool
has_message block_hash messages = has block_hash messages

unfoldable pub list_messages : MessagePool → List ConsensusPacket
list_messages messages = values messages

-- ===== src/Topology.antt =====
-- pkg/topology: the peers of the topology manager, the nodes of the network, and the messages about
-- them. Both maps are keyed by the peer's identifier. The metrics, with floating-point numbers, and
-- the logging are left out.
pub mod Agreement
pub mod Messages
pub mod Tests
use peerdns.Prelude.{
  ℕ, zero, suc, ◌%◌, ◌≡◌, Bool, true, false, Option, none, some, List, [], ◌∷◌, ◌++◌, if◌then◌else◌,
  Bytes, codes, length,
}
use peerdns.Prelude.Map.{Map, lookup, has, insert, delete, values}
use peerdns.Wire.{Parser, ◌>>=◌, pure, read_uint, buffer_read}

pub record PeerInfo : Type 0 where
  pub id : Bytes
  pub addresses : List Bytes
  pub status : Bytes

-- `Node`, whose children nothing sets.
pub record Node : Type 0 where
  pub peer_id : Bytes
  pub known_addresses : List Bytes

-- `NetworkTopology` is its nodes.
abbrev pub NetworkTopology : Type 0
NetworkTopology = Map Node

unfoldable pub new_network_topology : NetworkTopology
new_network_topology = []

-- `AddNode`
unfoldable pub add_node : Bytes → List Bytes → NetworkTopology → NetworkTopology
add_node peer_id addresses nt =
    if has peer_id nt
    then nt
    else insert peer_id (record { peer_id = peer_id; known_addresses = addresses }) nt

-- `RemoveNode`
unfoldable pub remove_node : Bytes → NetworkTopology → NetworkTopology
remove_node peer_id nt = delete peer_id nt

-- `GetNode`: no node is an error.
unfoldable pub get_node : Bytes → NetworkTopology → Option Node
get_node peer_id nt = lookup peer_id nt

-- `GetAllNodes`
unfoldable pub get_all_nodes : NetworkTopology → List Node
get_all_nodes nt = values nt

-- `Topology`: the peers of its manager, and the nodes that both share.
pub record Topology : Type 0 where
  pub peers : Map PeerInfo
  pub nodes : NetworkTopology

-- `NewTopology`
unfoldable pub new_topology : Topology
new_topology = record { peers = []; nodes = new_network_topology }

pub data TopologyError : Type 0 where
  already_exists not_found : TopologyError

-- `AddPeer`
unfoldable pub add_peer : Bytes → List Bytes → Topology → Topology × Option TopologyError
add_peer peer_id addresses t = if has peer_id t.peers then (t, some already_exists) else (
  record {
    peers =
        insert peer_id (record { id = peer_id; addresses = addresses; status = codes "connected" })
          t.peers;
    nodes = add_node peer_id addresses t.nodes;
  },
  none,
)

-- `RemovePeer`
unfoldable pub remove_peer : Bytes → Topology → Topology × Option TopologyError
remove_peer peer_id t =
    if has peer_id t.peers
    then (record { peers = delete peer_id t.peers; nodes = remove_node peer_id t.nodes }, none)
    else (t, some not_found)

-- `GetPeers`
unfoldable pub get_peers : Topology → List PeerInfo
get_peers t = values t.peers

-- `TopologyMessage`
pub record TopologyMessage : Type 0 where
  pub message_type : ℕ
  pub sender_id : Bytes
  pub about : Bytes
  pub peer_addresses : List Bytes

-- A string behind the low byte of its length.
unfoldable pub put_short : Bytes → Bytes
put_short xs = (length xs % 256) ∷ xs

unfoldable pub put_shorts : List Bytes → Bytes
put_shorts [] = []
put_shorts (x ∷ xs) = put_short x ++ put_shorts xs

-- `Serialize`, which does not fail.
unfoldable pub serialize : TopologyMessage → Bytes
serialize m =
    (m.message_type % 256)
    ∷ (put_short m.sender_id
        ++ (put_short m.about ++ ((length m.peer_addresses % 256) ∷ put_shorts m.peer_addresses)))

-- A string of as many bytes as its length says. A short one is filled with zeros.
unfoldable pub get_short : Parser Bytes
get_short = do n ← read_uint 1; buffer_read n

unfoldable pub get_shorts : ℕ → Parser (List Bytes)
get_shorts zero = pure []
get_shorts (suc n) = do x ← get_short; xs ← get_shorts n; pure (x ∷ xs)

unfoldable pub get_message : Parser TopologyMessage
get_message = do
  message_type ← read_uint 1
  sender_id ← get_short
  about ← get_short
  count ← read_uint 1
  addresses ← get_shorts count
  pure (record {
    message_type = message_type;
    sender_id = sender_id;
    about = about;
    peer_addresses = addresses;
  })

-- `DeserializeTopologyMessage`: what is left over is ignored.
unfoldable pub deserialize : Bytes → Option TopologyMessage
deserialize bytes = elim (get_message bytes) [ none ↦ none | some (m, rest) ↦ some m ]

-- ===== src/Topology/Tests.antt =====
-- A message written and read, and a run of calls (pkg/topology).
use peerdns.Prelude.{◌≡◌, refl, none, some, List, [], ◌∷◌, arith, codes, beq}
use peerdns.Prelude.Map.{lookup, insert, delete}
use peerdns.Wire.{read_uint, read_full, from_le, buffer_read, padded, replicate_zero}
use peerdns.Topology.{
  TopologyMessage, put_short, put_shorts, serialize, get_short, deserialize, new_topology,
  new_network_topology, add_node, remove_node, add_peer, remove_peer,
}
use peerdns.Topology.Agreement.{Call, adds, removes, run, perform, Agrees, run-Agrees}
use peerdns.Topology.Messages.{deserialize-serialize_topology}

abbrev joined : TopologyMessage
joined = record {
  message_type = 1;
  sender_id = codes "a";
  about = codes "b";
  peer_addresses = codes "/ip4" ∷ [] ∷ [];
}

written : serialize joined ≡ 1 ∷ 1 ∷ 97 ∷ 1 ∷ 98 ∷ 2 ∷ 4 ∷ 47 ∷ 105 ∷ 112 ∷ 52 ∷ 0 ∷ []
unfolding serialize put_short put_shorts
written = refl

read_back : deserialize (serialize joined) ≡ some joined
read_back =
    deserialize-serialize_topology joined (omega arith) (omega arith) (omega arith) (omega arith)
      (omega arith, (omega arith, tt))

-- A message that ends in an identifier is read with zeros at its end.
cut_short : get_short (3 ∷ 97 ∷ []) ≡ some (97 ∷ 0 ∷ 0 ∷ [], [])
unfolding get_short read_uint read_full from_le buffer_read padded replicate_zero
cut_short = refl

abbrev calls : List Call
calls = adds (codes "a") [] ∷ adds (codes "b") [] ∷ removes (codes "a") ∷ []

removed_and_kept :
    (lookup (codes "a") (run calls new_topology).nodes ≡ none)
    × (lookup (codes "b") (run calls new_topology).nodes
        ≡ some (record { peer_id = codes "b"; known_addresses = [] }))
unfolding run perform add_peer remove_peer add_node remove_node new_topology new_network_topology
    lookup insert delete beq
removed_and_kept = (refl, refl)

run-Agrees_example : Agrees (run calls new_topology)
run-Agrees_example = run-Agrees calls

-- ===== src/Topology/Agreement.antt =====
-- The peers and the nodes agree (pkg/topology/manager.go and state.go).
use peerdns.Prelude.{◌≡◌, refl, Option, none, some, List, [], ◌∷◌, arith, Bytes, beq_iff, codes}
use peerdns.Prelude.Map.{lookup, lookup-insert, lookup-delete}
use peerdns.Topology.{
  PeerInfo, Node, Topology, new_topology, new_network_topology, add_node, remove_node, add_peer,
  remove_peer,
}

-- The calls of a topology that change it.
pub data Call : Type 0 where
  adds : Bytes → List Bytes → Call
  removes : Bytes → Call

unfoldable pub perform : Call → Topology → Topology
perform (adds id addresses) t = (add_peer id addresses t).0
perform (removes id) t = (remove_peer id t).0

unfoldable pub run : List Call → Topology → Topology
run [] t = t
run (c ∷ cs) t = run cs (perform c t)

-- What the peers know of an identifier, and what the nodes do.
abbrev pub peer_addresses_of : Option PeerInfo → Option (List Bytes)
peer_addresses_of none = none
peer_addresses_of (some p) = some p.addresses

abbrev pub node_addresses_of : Option Node → Option (List Bytes)
node_addresses_of none = none
node_addresses_of (some n) = some n.known_addresses

abbrev pub Agrees : Topology → Type 0
Agrees t =
    (id : Bytes) → peer_addresses_of (lookup id t.peers) ≡ node_addresses_of (lookup id t.nodes)

perform-Agrees : (c : Call) (t : Topology) → Agrees t → Agrees (perform c t)
unfolding perform add_peer remove_peer add_node remove_node
perform-Agrees (adds k addresses) t a id =
    let p : PeerInfo = record { id = k; addresses = addresses; status = codes "connected" } in
    let n : Node = record { peer_id = k; known_addresses = addresses } in
    ground
      (arith, a id, a k, lookup-insert k id p t.peers, lookup-insert k id n t.nodes, beq_iff k id)
perform-Agrees (removes k) t a id =
    ground (arith, a id, lookup-delete k id t.peers, lookup-delete k id t.nodes)

run_from-Agrees : (cs : List Call) (t : Topology) → Agrees t → Agrees (run cs t)
unfolding run
run_from-Agrees [] t a = a
run_from-Agrees (c ∷ cs) t a = run_from-Agrees cs (perform c t) (perform-Agrees c t a)

-- After any calls on a new topology, the peers of the manager and the nodes of the network are the
-- same identifiers with the same addresses.
pub run-Agrees : (cs : List Call) → Agrees (run cs new_topology)
unfolding new_topology new_network_topology lookup
run-Agrees cs = run_from-Agrees cs new_topology (λ id. refl)

-- ===== src/Routing/Tests.antt =====
-- Instances of the theorems on one route (pkg/routing).
use peerdns.Prelude.{◌≡◌, refl, true, some, List, [], ◌∷◌, arith, beq, digits}
use peerdns.Prelude.Map.{lookup, insert}
use peerdns.Wire.{replicate_zero, reader_read, padded, read_full}
use peerdns.Routing.Entry
use peerdns.Routing.Entry.{RouteEntry, to16, serialize, deserialize_route_entry}
use peerdns.Routing.Entry.RoundTrip.{IsWireable}
use peerdns.Routing.Manager
use peerdns.Routing.Manager.{
  Env, RoutingManager, new_routing_manager, get_route_key, verify_route_entry_signature, add_route,
}
use peerdns.Routing.Manager.Table.{Event, adds, arrives, step, run, run-routes_signed}

-- From 10.0.0.1 to 10.0.0.2.
abbrev route : RouteEntry
route = record {
  src_ip = 10 ∷ 0 ∷ 0 ∷ 1 ∷ [];
  dst_ip = 10 ∷ 0 ∷ 0 ∷ 2 ∷ [];
  src_port = 5300;
  dst_port = 53;
  next_hop_mac = 1 ∷ 2 ∷ 3 ∷ 4 ∷ 5 ∷ 6 ∷ [];
  signature = 9 ∷ [];
}

route-IsWireable : IsWireable route
route-IsWireable = ground arith

-- A kernel that counts its routes, and signatures that all verify.
abbrev env : Env
env = record {
  Kernel = List RouteEntry;
  add = λ k re. some (re ∷ k);
  del = λ k re. some k;
  ip_string = λ ip. ip;
  verify = λ id d sig. beq sig (9 ∷ []);
  sign = λ d. some (9 ∷ []);
  broadcasts = λ m. true;
}

abbrev events : List Event
events = adds route ∷ arrives (7 ∷ []) ∷ adds (record route { signature = [] }) ∷ []

route_kept :
    lookup (get_route_key env route) (run env events (new_routing_manager [])).routes ≡ some route
unfolding run step add_route Manager.handle_incoming_route verify_route_entry_signature
    get_route_key new_routing_manager lookup insert beq digits deserialize_route_entry
    Entry.get_route_entry Entry.read_over Entry.get_signable_data to16 Entry.uint16_to_bytes
    replicate_zero reader_read padded Entry.get_uint16 read_full Entry.from_uint16_bytes
route_kept = refl

run-routes_signed_example :
    (get_route_key env route ≡ get_route_key env route)
    × (verify_route_entry_signature env (env.ip_string route.src_ip) route ≡ true)
run-routes_signed_example =
    run-routes_signed env [] events (get_route_key env route) route route_kept

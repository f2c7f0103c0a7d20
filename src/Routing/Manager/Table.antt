-- ===== src/Routing/Manager/Table.antt =====
-- Histories of the table of routes (pkg/routing/manager.go): routes that are added and deleted, and
-- route messages that arrive.
use peerdns.Prelude.{
  ◌≡◌, arith, Bool, true, false, Option, none, some, List, [], ◌∷◌, Bytes, beq_iff, if◌then◌else◌,
}
use peerdns.Prelude.Map.{Map, lookup, insert, delete, lookup-insert, lookup-delete}
use peerdns.Routing.Entry.{RouteEntry, deserialize_route_entry}
use peerdns.Routing.Manager.{
  invalid_signature, malformed, Env, RoutingManager, Outcome, new_routing_manager, get_route_key,
  verify_route_entry_signature, add_route, delete_route, handle_incoming_route,
}

pub data Event : Type 0 where
  adds deletes : RouteEntry → Event
  arrives : Bytes → Event

module _ (env : Env) where
  unfoldable pub step : Event → RoutingManager env.Kernel → RoutingManager env.Kernel
  step (adds re) m = (add_route env re m).1
  step (deletes re) m = (delete_route env re m).1
  step (arrives data_bytes) m = (handle_incoming_route env data_bytes m).1

  unfoldable pub run : List Event → RoutingManager env.Kernel → RoutingManager env.Kernel
  run [] m = m
  run (e ∷ es) m = run es (step e m)

  -- Each route stands under its key, and its source has signed it.
  abbrev pub IsSigned : Map RouteEntry → Type 0
  IsSigned routes =
      (k : Bytes) (re : RouteEntry)
      → lookup k routes ≡ some re
      → (get_route_key env re ≡ k)
        × (verify_route_entry_signature env (env.ip_string re.src_ip) re ≡ true)

  insert-IsSigned :
      (re : RouteEntry) (routes : Map RouteEntry)
      → verify_route_entry_signature env (env.ip_string re.src_ip) re ≡ true
      → IsSigned routes
      → IsSigned (insert (get_route_key env re) re routes)
  insert-IsSigned re routes v h k r e = ground (
    arith,
    lookup-insert (get_route_key env re) k re routes,
    beq_iff (get_route_key env re) k,
    h k r,
  )

  delete-IsSigned :
      (j : Bytes) (routes : Map RouteEntry) → IsSigned routes → IsSigned (delete j routes)
  delete-IsSigned j routes h k r e = ground (arith, lookup-delete j k routes, h k r)

  add_route-IsSigned :
      (re : RouteEntry) (m : RoutingManager env.Kernel)
      → IsSigned m.routes
      → IsSigned (add_route env re m).1.routes
  unfolding add_route
  add_route-IsSigned re m h k r e = ground (
    arith,
    lookup-insert (get_route_key env re) k re m.routes,
    beq_iff (get_route_key env re) k,
    h k r,
  )

  delete_route-IsSigned :
      (re : RouteEntry) (m : RoutingManager env.Kernel)
      → IsSigned m.routes
      → IsSigned (delete_route env re m).1.routes
  unfolding delete_route
  delete_route-IsSigned re m h k r e =
      ground (arith, lookup-delete (get_route_key env re) k m.routes, h k r)

  handle_incoming_route-IsSigned :
      (data_bytes : Bytes) (m : RoutingManager env.Kernel)
      → IsSigned m.routes
      → IsSigned (handle_incoming_route env data_bytes m).1.routes
  unfolding handle_incoming_route
  handle_incoming_route-IsSigned data_bytes m h = parsed (deserialize_route_entry data_bytes)
    where
      checked :
          (b : Bool) (re : RouteEntry)
          → IsSigned (if b then add_route env re m else (some invalid_signature, m)).1.routes
      checked true re = add_route-IsSigned re m h
      checked false re = h

      parsed :
          (o : Option RouteEntry)
          → IsSigned
              (elim o as (λ _. Outcome × RoutingManager env.Kernel) [
                | none ↦ (some malformed, m)
                | some re ↦
                    if verify_route_entry_signature env (env.ip_string re.src_ip) re
                    then add_route env re m
                    else (some invalid_signature, m)
              ]).1.routes
      parsed none = h
      parsed (some re) = checked (verify_route_entry_signature env (env.ip_string re.src_ip) re) re

  run-IsSigned :
      (es : List Event) (m : RoutingManager env.Kernel)
      → IsSigned m.routes
      → IsSigned (run es m).routes
  unfolding run step
  run-IsSigned [] m h = h
  run-IsSigned (adds re ∷ es) m h = run-IsSigned es _ (add_route-IsSigned re m h)
  run-IsSigned (deletes re ∷ es) m h = run-IsSigned es _ (delete_route-IsSigned re m h)
  run-IsSigned (arrives data_bytes ∷ es) m h =
      run-IsSigned es _ (handle_incoming_route-IsSigned data_bytes m h)

-- After any sequence of calls on a new manager, a route that the table holds stands under the key
-- of its addresses and ports, and its signature verifies for the text of its source address as the
-- signer.
pub run-routes_signed :
    (env : Env) (kernel : env.Kernel) (events : List Event) (k : Bytes) (re : RouteEntry)
    → lookup k (run env events (new_routing_manager kernel)).routes ≡ some re
    → (get_route_key env re ≡ k)
      × (verify_route_entry_signature env (env.ip_string re.src_ip) re ≡ true)
unfolding new_routing_manager lookup
run-routes_signed env kernel events k re e =
    run-IsSigned env events (new_routing_manager kernel) (λ j r none_there. cc) k re e

-- ===== src/Routing/Manager.antt =====
-- pkg/routing/manager.go: the table of routes, and the kernel's table behind it. The eBPF manager,
-- the accounts manager and the network that it names are in no package of the repository, so they
-- are parameters.
pub mod Table
use peerdns.Prelude.{
  ℕ, Bool, true, false, Option, none, some, [], ◌∷◌, ◌++◌, if◌then◌else◌, Bytes, digits,
}
use peerdns.Prelude.Map.{Map, insert, delete}
use peerdns.Routing.Entry.{RouteEntry, serialize, deserialize_route_entry, get_signable_data}

pub record Env : Type 1 where
  -- The eBPF map, with `AddRoute` and `DeleteRoute`; `none` where they fail.
  pub Kernel : Type 0
  pub add : Kernel → RouteEntry → Option Kernel
  pub del : Kernel → RouteEntry → Option Kernel
  -- `IP.String`
  pub ip_string : Bytes → Bytes
  -- `VerifySignature` of the accounts manager, by the signer, the data and the signature.
  pub verify : Bytes → Bytes → Bytes → Bool
  -- `SignData`
  pub sign : Bytes → Option Bytes
  -- Whether the network takes a message.
  pub broadcasts : Bytes → Bool

pub data RouteError : Type 0 where
  malformed invalid_signature kernel_failure sign_failure share_failure : RouteError

-- What a call answers: an error or nothing.
abbrev pub Outcome : Type 0
Outcome = Option RouteError

pub record RoutingManager (K : Type 0) : Type 0 where
  pub kernel : K
  pub routes : Map RouteEntry

-- `NewRoutingManager`
unfoldable pub new_routing_manager : {K : Type 0} → K → RoutingManager K
new_routing_manager kernel = record { kernel = kernel; routes = [] }

module _ (env : Env) where
  open env use {ip_string, verify, sign, broadcasts}

  -- `getRouteKey`
  unfoldable pub get_route_key : RouteEntry → Bytes
  get_route_key re =
      ip_string re.src_ip
      ++ (58 ∷ digits 5 re.src_port ++ (45 ∷ ip_string re.dst_ip ++ (58 ∷ digits 5 re.dst_port)))

  -- `SignRouteEntry`
  unfoldable pub sign_route_entry : RouteEntry → Option RouteEntry
  sign_route_entry re = elim (sign (get_signable_data re)) [
    | none ↦ none
    | some signature ↦ some (record re { signature = signature })
  ]

  -- `VerifyRouteEntrySignature`
  unfoldable pub verify_route_entry_signature : Bytes → RouteEntry → Bool
  verify_route_entry_signature id re = verify id (get_signable_data re) re.signature

  -- A route that is signed by its source enters both tables.
  unfoldable pub add_route :
      RouteEntry → RoutingManager env.Kernel → Outcome × RoutingManager env.Kernel
  add_route re m =
      if verify_route_entry_signature (ip_string re.src_ip) re
      then elim (env.add m.kernel re) [
        | none ↦ (some kernel_failure, m)
        | some k ↦ (none, record m { kernel = k; routes = insert (get_route_key re) re m.routes })
      ]
      else (some invalid_signature, m)

  -- `DeleteRoute`
  unfoldable pub delete_route :
      RouteEntry → RoutingManager env.Kernel → Outcome × RoutingManager env.Kernel
  delete_route re m = elim (env.del m.kernel re) [
    | none ↦ (some kernel_failure, m)
    | some k ↦ (none, record m { kernel = k; routes = delete (get_route_key re) m.routes })
  ]

  -- `ShareRoute`
  unfoldable pub share_route : RouteEntry → Outcome
  share_route re = if broadcasts (serialize re) then none else some share_failure

  -- `HandleIncomingRoute`
  unfoldable pub handle_incoming_route :
      Bytes → RoutingManager env.Kernel → Outcome × RoutingManager env.Kernel
  handle_incoming_route data_bytes m = elim (deserialize_route_entry data_bytes) [
    | none ↦ (some malformed, m)
    | some re ↦
        if verify_route_entry_signature (ip_string re.src_ip) re
        then add_route re m
        else (some invalid_signature, m)
  ]

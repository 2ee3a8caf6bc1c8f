-- ===== src/Tests/ServiceRegistry.antt =====
-- Runs of src/registry/service_registry.cpp.
use rpc_framework.Base.{◌≡◌, refl, List, [], ◌∷◌, arith}
use rpc_framework.Base.Text.{codes}
use rpc_framework.Base.Map.{find, put, bytes_eq}
use rpc_framework.Base.Int.{pos}
use rpc_framework.Base.Decimal.{to_string, to_string_ℕ, stoi, digits, scan}
use rpc_framework.Registry.LoadBalancer.{ServiceEndpoint, round_robin, make_load_balancer, select}
use rpc_framework.Registry.ZooKeeper
use rpc_framework.Registry.ZooKeeper.{create, get, get_children, watch_children}
use rpc_framework.Registry.ServiceRegistry.{
  ServiceRegistry, Outcome, done, thrown, deadlock, init, zk_create, run_watchers, refresh_in,
  register_service, refresh, discover, parse_children,
}
use rpc_framework.Registry.ServiceRegistry.Watched.{value, selected, register_service-refresh}
use rpc_framework.Registry.ServiceRegistry.Registering.{register_all}
use rpc_framework.Registry.ServiceRegistry.Discovery.{discover-register_all}

abbrev two : List ServiceEndpoint
two =
    record { host = codes "a"; port = 80; weight = pos 2 }
    ∷ record { host = codes "b"; port = 8080; weight = pos 1 }
    ∷ []

discover-register_all_example :
    (s : ServiceRegistry) × (register_all (codes "Echo") two (init round_robin) ≡ done tt s)
    × (value (discover 0 (codes "Echo") s)
        ≡ selected (select 0 (make_load_balancer round_robin) two))
discover-register_all_example =
    discover-register_all round_robin 0 (codes "Echo") two refl
      ((refl, omega arith, omega arith), ((refl, omega arith, omega arith), tt)) (refl, (refl, tt))

abbrev state_of : {A : Type 0} → Outcome A → ServiceRegistry → ServiceRegistry
state_of (done a r) s = r
state_of (thrown r) s = r
state_of deadlock s = s

one_endpoint : ServiceRegistry
one_endpoint =
    state_of (register_service (codes "Echo") (codes "a") 80 (pos 2) (init round_robin))
      (init round_robin)

looked_up : ServiceRegistry
looked_up = state_of (refresh (codes "Echo") one_endpoint) one_endpoint

register_service-refresh_example :
    register_service (codes "Echo") (codes "b") 8080 (pos 1) looked_up ≡ deadlock
unfolding looked_up one_endpoint refresh register_service zk_create run_watchers refresh_in init
    create watch_children get get_children find put parse_children to_string to_string_ℕ digits stoi
    scan ZooKeeper.init
register_service-refresh_example =
    register_service-refresh (codes "Echo") (codes "b") 8080 (pos 1) one_endpoint looked_up refl
      refl refl refl refl

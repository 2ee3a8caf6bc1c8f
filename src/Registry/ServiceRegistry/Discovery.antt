-- ===== src/Registry/ServiceRegistry/Discovery.antt =====
-- Lookup in src/registry/service_registry.cpp, behind registrations.
use rpc_framework.Base.{ℕ, ◌≡◌, refl, ap, ◌∙◌, List, [], ◌∷◌, none, some, Byte, map}
use rpc_framework.Base.Map.{find, bytes_eq, find-put, beq_refl}
use rpc_framework.Registry.LoadBalancer.{
  ServiceEndpoint, LbStrategy, LoadBalancer, make_load_balancer, select,
}
use rpc_framework.Registry.ZooKeeper
use rpc_framework.Registry.ZooKeeper.{
  Stub, watch_children, or_else, has, create, rfind, in_front, split_path, get, get_children,
}
use rpc_framework.Registry.ServiceRegistry.{
  ServiceRegistry, done, refresh, discover, root_path, parse_children, service_path,
  cached_endpoints, init,
}
use rpc_framework.Registry.ServiceRegistry.Watched.{value, selected, value-chosen}
use rpc_framework.Registry.ServiceRegistry.Addresses.{
  address_of, Plain, Distinct, parse_child-address, Weighed,
}
use rpc_framework.Registry.ServiceRegistry.Registering.{register_all, Holds, register_all-Holds}

parse_children-Weighed :
    (name : List Byte) (es : List ServiceEndpoint) (z : Stub)
    → Plain es
    → Weighed name z.nodes es
    → parse_children name (map address_of es) (λ path. get path z) ≡ some es
unfolding parse_children get
parse_children-Weighed name [] z p w = refl
parse_children-Weighed name (e ∷ es) z ((no_slash, port, int), p) (v, w) =
    rw (v, parse_child-address e port int, parse_children-Weighed name es z p w) refl

uncached : (name : List Byte) (s : ServiceRegistry) → s.cache ≡ [] → find name s.cache ≡ none
unfolding find
uncached name s h = rw h refl

-- `refresh` reads the endpoints back.
discover-Holds :
    (draw : ℕ) (name : List Byte) (es : List ServiceEndpoint) (s : ServiceRegistry)
    → Plain es
    → Holds name es s.zk
    → s.cache ≡ []
    → value (discover draw name s) ≡ selected (select draw s.lb es)
unfolding discover refresh watch_children get_children
discover-Holds draw name es s p h empty =
    let z : Stub = watch_children (service_path name) 0 s.zk in
    let read = parse_children-Weighed name es z p h.weighed in
    let none_cached : cached_endpoints name s ≡ [] = rw (uncached name s empty) refl in
    rw (none_cached, h.listed, read, find-put name name es s.cache, beq_refl name)
      (value-chosen (select draw s.lb es) _)

init-Holds : (name : List Byte) → Holds name [] (create root_path [] ZooKeeper.init)
unfolding create get_children ZooKeeper.init find
init-Holds name = record { unwatched = refl; listed = refl; weighed = tt }

-- Endpoints that are registered in a new registry, each under an address of its own, before the
-- service is looked up: every registration returns, and `discover` returns what the balancer selects
-- from exactly these endpoints, in the order of their registration and with their weights. The name
-- of the service and the hosts have no slash, the ports have 16 bits and the weights are ints.
pub discover-register_all :
    (strategy : LbStrategy) (draw : ℕ) (name : List Byte) (es : List ServiceEndpoint)
    → rfind 47 name ≡ none
    → Plain es
    → Distinct [] es
    → (s : ServiceRegistry) × (register_all name es (init strategy) ≡ done tt s)
      × (value (discover draw name s) ≡ selected (select draw (make_load_balancer strategy) es))
unfolding init
discover-register_all strategy draw name es plain p d =
    let (s, run, k, lb, cache) =
      register_all-Holds name [] es (init strategy) plain p d (init-Holds name) in
    (
      s,
      run,
      discover-Holds draw name es s p k cache
          ∙ ap (λ (b : LoadBalancer). selected (select draw b es)) lb,
    )

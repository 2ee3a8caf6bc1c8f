-- ===== src/Registry/ServiceRegistry.antt =====
-- include/registry/service_registry.h and src/registry/service_registry.cpp over the stub of the
-- ZooKeeper client, in one thread. Each call returns with its value, throws, or never returns since
-- it locks a `std::mutex` that its own thread holds.
pub mod Addresses
pub mod Registering
pub mod Discovery
pub mod Watched
pub mod Remote
use rpc_framework.Base.{
  ℕ, ◌+◌, drop, Bool, true, false, List, [], ◌∷◌, ◌++◌, Option, none, some, Byte, length,
  if◌then◌else◌,
}
use rpc_framework.Base.Map.{find, put, bytes_eq}
use rpc_framework.Base.Text.{codes}
use rpc_framework.Base.Int.{ℤ, pos, to_u16}
use rpc_framework.Base.Decimal.{to_string, to_string_ℕ, stoi}
use rpc_framework.Registry.LoadBalancer.{
  ServiceEndpoint, LbStrategy, LoadBalancer, make_load_balancer, select,
}
use rpc_framework.Registry.ZooKeeper
use rpc_framework.Registry.ZooKeeper.{
  Stub, or_else, rfind, create, create_ephemeral, get, get_children, watch_children,
}

pub record ServiceRegistry : Type 0 where
  pub zk : Stub
  pub lb : LoadBalancer
  pub cache : List (List Byte × List ServiceEndpoint)

pub data Outcome (A : Type 0) : Type 0 where
  done : A → ServiceRegistry → Outcome A
  thrown : ServiceRegistry → Outcome A
  deadlock : Outcome A

infixl 5 ◌>>=◌
abbrev pub ◌>>=◌ : {A B : Type 0} → Outcome A → (A → ServiceRegistry → Outcome B) → Outcome B
done a r >>= f = f a r
thrown r >>= f = thrown r
deadlock >>= f = deadlock

abbrev pub root_path : List Byte
root_path = codes "/rpc"

abbrev pub service_path : List Byte → List Byte
service_path name = root_path ++ (47 ∷ name)

-- "host:port"
abbrev pub address : List Byte → ℕ → List Byte
address host port = host ++ (58 ∷ to_string_ℕ port)

abbrev pub node_path : List Byte → List Byte → ℕ → List Byte
node_path name host port = service_path name ++ (47 ∷ address host port)

unfoldable pub init : LbStrategy → ServiceRegistry
init strategy = record {
  zk = create root_path [] ZooKeeper.init;
  lb = make_load_balancer strategy;
  cache = [];
}

unfoldable pub unregister_service : List Byte → List Byte → ℕ → ServiceRegistry → ServiceRegistry
unregister_service name host port r = record r {
  zk = ZooKeeper.remove (node_path name host port) r.zk;
}

-- What the loop of `refresh` makes of a child: nothing, an exception of `stoi`, or an endpoint.
pub data Parsed : Type 0 where
  skipped bad : Parsed
  parsed : ServiceEndpoint → Parsed

abbrev pub weighted_by : List Byte → ℤ → Option ℤ → Parsed
weighted_by host port none = bad
weighted_by host port (some w) = parsed (record { host = host; port = to_u16 port; weight = w })

-- An empty text leaves the default weight 1.
abbrev pub with_weight : List Byte → ℤ → List Byte → Parsed
with_weight host port [] = weighted_by host port (some (pos 1))
with_weight host port (c ∷ cs) = weighted_by host port (stoi (c ∷ cs))

abbrev pub with_port : List Byte → Option ℤ → List Byte → Parsed
with_port host none weight_str = bad
with_port host (some port) weight_str = with_weight host port weight_str

abbrev pub at_colon : Option (List Byte × List Byte) → List Byte → Parsed
at_colon none weight_str = skipped
at_colon (some (host, port_str)) weight_str = with_port host (stoi port_str) weight_str

-- `weight_str` is the text of the child's node.
abbrev pub parse_child : List Byte → List Byte → Parsed
parse_child child weight_str = at_colon (rfind 58 child) weight_str

abbrev pub collect : Parsed → Option (List ServiceEndpoint) → Option (List ServiceEndpoint)
collect skipped rest = rest
collect bad rest = none
collect (parsed e) none = none
collect (parsed e) (some es) = some (e ∷ es)

-- The loop of `refresh`, where `read` is `zk_->get`; `none` is an exception.
unfoldable pub parse_children :
    List Byte → List (List Byte) → (List Byte → List Byte) → Option (List ServiceEndpoint)
parse_children name [] read = some []
parse_children name (child ∷ rest) read =
    collect (parse_child child (read (service_path name ++ (47 ∷ child))))
      (parse_children name rest read)

abbrev pub cached : List Byte → Option (List ServiceEndpoint) → ServiceRegistry → Outcome (Unit {0})
cached name none r = thrown r
cached name (some es) r = done tt (record r { cache = put name es r.cache })

-- `mu.lock()` of the stub by a thread that may hold it already.
abbrev pub locking : {A : Type 0} → Bool → Outcome A → Outcome A
locking held next = if held then deadlock else next

-- `refresh`, in a thread that may hold the stub's mutex: `watch_children` locks it, and so do the calls
-- that follow. The number of the watcher, 0, does not matter.
unfoldable pub refresh_in : Bool → List Byte → ServiceRegistry → Outcome (Unit {0})
refresh_in held name r =
    let z : Stub = watch_children (service_path name) 0 r.zk in
    locking held (
      cached name (parse_children name (get_children (service_path name) z) (λ path. get path z))
        (record r { zk = z }))

-- `refresh` as an application calls it.
unfoldable pub refresh : List Byte → ServiceRegistry → Outcome (Unit {0})
unfolding refresh_in
refresh name r = refresh_in false name r

-- The name that the watcher of `refresh` at the path has captured.
abbrev pub name_of : List Byte → List Byte
name_of path = drop (length root_path + 1) path

-- The watchers that a `create` of the stub calls, in its critical section: each calls `refresh`.
unfoldable pub run_watchers : List (ℕ × List Byte) → ServiceRegistry → Outcome (Unit {0})
run_watchers [] r = done tt r
run_watchers ((w, path) ∷ fired) r =
    refresh_in true (name_of path) r >>= λ u s. run_watchers fired s

-- A call of the stub's `create`, and then of the watchers that it has found, with the mutex locked.
unfoldable pub zk_create : List Byte → List Byte → ServiceRegistry → Outcome (Unit {0})
zk_create path data_ r =
    let z : Stub = create path data_ r.zk in
    run_watchers (drop (length r.zk.fired) z.fired) (record r { zk = z })

-- What the stub's operations return is `true` in every case and left out.
unfoldable pub register_service :
    List Byte → List Byte → ℕ → ℤ → ServiceRegistry → Outcome (Unit {0})
unfolding zk_create
register_service name host port weight r = zk_create (service_path name) [] r >>= λ u s.
    zk_create (node_path name host port) (to_string weight) s

abbrev pub chosen :
    Option (ServiceEndpoint × LoadBalancer) → ServiceRegistry → Outcome ServiceEndpoint
chosen none r = thrown r
chosen (some (e, lb)) r = done e (record r { lb = lb })

abbrev pub choose : ℕ → List ServiceEndpoint → ServiceRegistry → Outcome ServiceEndpoint
choose draw es r = chosen (select draw r.lb es) r

-- `cache_[service_name]`
abbrev pub cached_endpoints : List Byte → ServiceRegistry → List ServiceEndpoint
cached_endpoints name r = or_else [] (find name r.cache)

abbrev pub discover_from :
    ℕ → List Byte → List ServiceEndpoint → ServiceRegistry → Outcome ServiceEndpoint
discover_from draw name [] r = refresh name r >>= λ u s. choose draw (cached_endpoints name s) s
discover_from draw name (e ∷ es) r = choose draw (e ∷ es) r

-- `draw` is what the random engine of the balancer draws.
unfoldable pub discover : ℕ → List Byte → ServiceRegistry → Outcome ServiceEndpoint
discover draw name r = discover_from draw name (cached_endpoints name r) r

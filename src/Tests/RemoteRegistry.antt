-- ===== src/Tests/RemoteRegistry.antt =====
-- `refresh` of src/registry/service_registry.cpp over a library whose servers list one child.
use rpc_framework.Base.{◌≡◌, refl, [], ◌∷◌, none, some, arith}
use rpc_framework.Base.Map.{find}
use rpc_framework.Base.Text.{codes}
use rpc_framework.Base.Int.{pos}
use rpc_framework.Base.Decimal.{to_string, to_string_ℕ, digits, stoi, scan}
use rpc_framework.Registry.LoadBalancer.{ServiceEndpoint}
use rpc_framework.Registry.ZooKeeper.Remote.{Library, local_array, get_children, watch_children}
use rpc_framework.Registry.ZooKeeper.Remote.Reading.{Documented}
use rpc_framework.Registry.ServiceRegistry.Remote
use rpc_framework.Registry.ServiceRegistry.Remote.{refresh_reads, refresh_throws}
use rpc_framework.Tests.Remote.{Nodes, in_memory, in_memory-Documented, garbage}

abbrev server : ServiceEndpoint
server = record { host = codes "a"; port = 80; weight = pos 5 }

abbrev listing : Library Nodes (Unit {0})
listing = record in_memory { zoo_get_children = λ path s. codes "a:80" ∷ [] }

abbrev listing-Documented : Documented listing
listing-Documented = record {
  node = in_memory-Documented.node;
  makes = in_memory-Documented.makes;
  spares = in_memory-Documented.spares;
  reads = in_memory-Documented.reads;
  misses = in_memory-Documented.misses;
}

abbrev kept : Nodes
kept = (codes "/rpc/s/a:80", codes "5") ∷ []

refresh_reads_example :
    (Remote.refresh listing (codes "s") tt (λ path. garbage) kept).0 ≡ some (server ∷ [])
unfolding watch_children get_children find to_string to_string_ℕ digits
refresh_reads_example =
    refresh_reads listing listing-Documented (codes "s") tt (λ path. garbage) kept (server ∷ [])
      refl ((refl, omega arith, omega arith), tt) (refl, omega arith, tt)

-- The node is gone.
refresh_throws_example : (Remote.refresh listing (codes "s") tt (λ path. garbage) []).0 ≡ none
unfolding watch_children get_children find to_string to_string_ℕ digits stoi scan local_array
refresh_throws_example =
    refresh_throws listing listing-Documented (codes "s") tt (λ path. garbage) [] [] [] server refl
      refl refl (omega arith)

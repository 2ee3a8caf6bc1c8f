-- ===== src/Tests/Registry.antt =====
-- Runs of src/registry/load_balancer.cpp.
use rpc_framework.Base.{ℕ, ◌≡◌, refl, ◌⊎◌, List, [], ◌∷◌, ◌++◌, some, arith}
use rpc_framework.Registry.LoadBalancer.{
  ServiceEndpoint, weighted_select, consistent_hash_select, hash,
}
use rpc_framework.Registry.LoadBalancer.Shares.{weighted_select-share}
use rpc_framework.Registry.LoadBalancer.Ring.{consistent_hash_select-append}
use rpc_framework.Base.Text.{codes}
use rpc_framework.Base.Int.{pos, int_laws}
use rpc_framework.Registry.ZooKeeper.{init, has, get_children}
use rpc_framework.Registry.ZooKeeper.Listing.{
  Op, creates, removes, watches, run, run_listed, is_some,
}
use rpc_framework.Base.Map.{find, bytes_eq}

abbrev endpoint : ℕ → ℕ → ServiceEndpoint
endpoint port weight = record { host = 97 ∷ []; port = port; weight = pos weight }

abbrev three : List ServiceEndpoint
three = endpoint 1 2 ∷ endpoint 2 3 ∷ endpoint 3 1 ∷ []

weighted_select-share_example : weighted_select (pos 4) three ≡ some (endpoint 2 3)
weighted_select-share_example =
    weighted_select-share (endpoint 1 2 ∷ []) (endpoint 2 3) (endpoint 3 1 ∷ []) (pos 4)
      (omega arith, tt) (omega int_laws) (omega int_laws)

-- FNV-1a of "a".
hash_a : hash (97 ∷ []) ≡ 3826002220
unfolding hash
hash_a = refl

consistent_hash_select-append_example :
    (consistent_hash_select 2 [] (three ++ (endpoint 4 1 ∷ [])) ≡ some (endpoint 4 1))
    ⊎ (consistent_hash_select 2 [] (three ++ (endpoint 4 1 ∷ []))
        ≡ consistent_hash_select 2 [] three)
consistent_hash_select-append_example =
    consistent_hash_select-append 2 [] (endpoint 4 1) (endpoint 1 2)
      (endpoint 2 3 ∷ endpoint 3 1 ∷ [])

abbrev registered : List Op
registered =
    creates (codes "/rpc") []
    ∷ creates (codes "/rpc/Echo") []
    ∷ watches (codes "/rpc/Echo") 0
    ∷ creates (codes "/rpc/Echo/a:1") (codes "2")
    ∷ creates (codes "/rpc/Echo/b:1") (codes "1")
    ∷ removes (codes "/rpc/Echo/a:1")
    ∷ []

run_listed_example :
    has (codes "b:1") (get_children (codes "/rpc/Echo") (run registered init))
    ≡ is_some (find (codes "/rpc/Echo/b:1") (run registered init).nodes)
run_listed_example =
    run_listed registered (codes "/rpc/Echo/b:1") (codes "/rpc/Echo") (codes "b:1") refl

-- ===== src/Registry/LoadBalancer.antt =====
-- include/registry/load_balancer.h and src/registry/load_balancer.cpp. A random engine is the
-- standard library's: what it draws is an argument, from the range that the distribution names.
pub mod Rotation
pub mod Shares
pub mod Ring
use rpc_framework.Base.{
  ℕ, ◌+◌, ◌*◌, ◌-◌, ◌%◌, ◌/◌, ◌≤◌, Bool, true, false, List, [], ◌∷◌, ◌++◌, Option, none, some,
  length, get_elem?, Byte, u32_mod, size_mod, ltb, leb, ◌==◌, if◌then◌else◌, zero, suc, map,
}
use rpc_framework.Base.Text.{codes}
use rpc_framework.Base.Int.{ℤ, pos, ◌+ℤ◌, ◌-ℤ◌, is_negative}
use rpc_framework.Base.Decimal.{to_string_ℕ}

-- `port` has 16 bits, and `weight` is an `int`.
pub record ServiceEndpoint : Type 0 where
  pub host : List Byte
  pub port : ℕ
  pub weight : ℤ

pub data LbStrategy : Type 0 where
  random round_robin weighted consistent_hash : LbStrategy

-- `none` is the exception "no available endpoints"; `draw` is what `dist(rng)` returns.
pub random_select : ℕ → List ServiceEndpoint → Option ServiceEndpoint
random_select draw [] = none
random_select draw (e ∷ es) = get_elem? (e ∷ es) draw

-- The endpoint, if the index has one, and the counter.
abbrev with_counter : Option ServiceEndpoint → ℕ → Option (ServiceEndpoint × ℕ)
with_counter none counter = none
with_counter (some e) counter = some (e, counter)

-- The endpoint and the next value of the 64-bit `counter_`.
pub round_robin_select : ℕ → List ServiceEndpoint → Option (ServiceEndpoint × ℕ)
round_robin_select counter [] = none
round_robin_select counter (e ∷ es) =
    with_counter (get_elem? (e ∷ es) (counter % length (e ∷ es))) ((counter + 1) % size_mod)

abbrev total_weight : List ServiceEndpoint → ℤ
total_weight [] = pos 0
total_weight (e ∷ es) = e.weight +ℤ total_weight es

-- The loop of the weighted selection, which returns when `r` has fallen below 0.
unfoldable pub weighted_pick : ℤ → ServiceEndpoint → List ServiceEndpoint → ServiceEndpoint
weighted_pick r e [] = e
weighted_pick r e (f ∷ es) =
    let r' = r -ℤ e.weight in let rest = weighted_pick r' f es in if is_negative r' then e else rest

-- `draw` is what `dist(rng)` returns, from 0 to `total - 1`.
unfoldable pub weighted_select : ℤ → List ServiceEndpoint → Option ServiceEndpoint
weighted_select draw [] = none
weighted_select draw (e ∷ es) = some (weighted_pick draw e es)

-- `a ^ b` on the low `w` bits.
abbrev xor_bits : ℕ → ℕ → ℕ → ℕ
xor_bits zero a b = 0
xor_bits (suc w) a b = (a + b) % 2 + 2 * xor_bits w (a / 2) (b / 2)

-- FNV-1a on 32 bits.
abbrev pub hash_from : ℕ → List Byte → ℕ
hash_from h [] = h
hash_from h (c ∷ cs) = hash_from (xor_bits 32 h c * 16777619 % u32_mod) cs

unfoldable pub hash : List Byte → ℕ
hash s = hash_from 2166136261 s

-- `std::map<uint32_t, const ServiceEndpoint*>`, in the order of its keys.
abbrev pub Ring : Type 0
Ring = List (ℕ × ServiceEndpoint)

-- `ring[h] = &ep`
abbrev pub ring_put : ℕ → ServiceEndpoint → Ring → Ring
ring_put h e [] = (h, e) ∷ []
ring_put h e ((k, f) ∷ ring) =
    let rest = ring_put h e ring in
    if ltb h k then (h, e) ∷ (k, f) ∷ ring else if h == k then (h, e) ∷ ring else (k, f) ∷ rest

abbrev pub lower_bound : ℕ → Ring → Option ServiceEndpoint
lower_bound h [] = none
lower_bound h ((k, f) ∷ ring) = if leb h k then some f else lower_bound h ring

abbrev pub begin : Ring → Option ServiceEndpoint
begin [] = none
begin ((k, f) ∷ ring) = some f

-- The end of the selection on the ring.
abbrev pub ring_pick : ℕ → Ring → Option ServiceEndpoint
ring_pick h ring = elim (lower_bound h ring) [ none ↦ begin ring | some e ↦ some e ]

unfoldable pub to_string : ServiceEndpoint → List Byte
to_string e = e.host ++ (codes ":" ++ to_string_ℕ e.port)

-- The rounds of the inner loop that are left, from the index `i` on.
unfoldable pub add_nodes : ℕ → ℕ → ServiceEndpoint → Ring → Ring
unfolding to_string hash
add_nodes zero i e ring = ring
add_nodes (suc left) i e ring =
    add_nodes left (i + 1) e (ring_put (hash (to_string e ++ (codes "#" ++ to_string_ℕ i))) e ring)

unfoldable pub build_ring : ℕ → List ServiceEndpoint → Ring → Ring
build_ring virtual_nodes [] ring = ring
build_ring virtual_nodes (e ∷ es) ring =
    build_ring virtual_nodes es (add_nodes virtual_nodes 0 e ring)

unfoldable pub consistent_hash_select :
    ℕ → List Byte → List ServiceEndpoint → Option ServiceEndpoint
consistent_hash_select virtual_nodes key [] = none
consistent_hash_select virtual_nodes [] (e ∷ es) =
    ring_pick (hash (codes "default")) (build_ring virtual_nodes (e ∷ es) [])
consistent_hash_select virtual_nodes (k ∷ key) (e ∷ es) =
    ring_pick (hash (k ∷ key)) (build_ring virtual_nodes (e ∷ es) [])

-- The classes, with the members that they keep.
pub data LoadBalancer : Type 0 where
  random_lb weighted_lb : LoadBalancer
  round_robin_lb : ℕ → LoadBalancer
  consistent_hash_lb : ℕ → List Byte → LoadBalancer

pub make_load_balancer : LbStrategy → LoadBalancer
make_load_balancer random = random_lb
make_load_balancer round_robin = round_robin_lb 0
make_load_balancer weighted = weighted_lb
make_load_balancer consistent_hash = consistent_hash_lb 150 []

abbrev set_hash_key : List Byte → LoadBalancer → LoadBalancer
set_hash_key key (consistent_hash_lb n old) = consistent_hash_lb n key
set_hash_key key lb = lb

abbrev unchanged : LoadBalancer → Option ServiceEndpoint → Option (ServiceEndpoint × LoadBalancer)
unchanged lb none = none
unchanged lb (some e) = some (e, lb)

abbrev counted : Option (ServiceEndpoint × ℕ) → Option (ServiceEndpoint × LoadBalancer)
counted none = none
counted (some (e, counter)) = some (e, round_robin_lb counter)

-- The virtual `select`. `draw` is what the random engine draws, where the class has one.
unfoldable pub select :
    ℕ → LoadBalancer → List ServiceEndpoint → Option (ServiceEndpoint × LoadBalancer)
unfolding random_select weighted_select round_robin_select consistent_hash_select
select draw random_lb es = unchanged random_lb (random_select draw es)
select draw weighted_lb es = unchanged weighted_lb (weighted_select (pos draw) es)
select draw (round_robin_lb counter) es = counted (round_robin_select counter es)
select draw (consistent_hash_lb n key) es =
    unchanged (consistent_hash_lb n key) (consistent_hash_select n key es)

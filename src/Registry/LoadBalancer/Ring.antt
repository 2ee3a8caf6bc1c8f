-- ===== src/Registry/LoadBalancer/Ring.antt =====
-- The ring of the consistent hash in src/registry/load_balancer.cpp.
use rpc_framework.Base.{
  ℕ, zero, suc, ◌+◌, ◌≡◌, refl, ◌∙◌, ◌⊎◌, inl, inr, List, [], ◌∷◌, ◌++◌, Option, some, arith, Byte,
}
use rpc_framework.Registry.LoadBalancer.{
  ServiceEndpoint, Ring, ring_put, lower_bound, begin, ring_pick, add_nodes, build_ring,
  consistent_hash_select,
}

-- A new point on the ring takes over what it is found for, and nothing else moves.
lower_bound-ring_put :
    (h k : ℕ) (e : ServiceEndpoint) (ring : Ring)
    → (lower_bound h (ring_put k e ring) ≡ some e)
      ⊎ (lower_bound h (ring_put k e ring) ≡ lower_bound h ring)
lower_bound-ring_put h k e [] = ground arith
lower_bound-ring_put h k e ((j, f) ∷ ring) = ground (arith, lower_bound-ring_put h k e ring)

begin-ring_put :
    (k : ℕ) (e : ServiceEndpoint) (ring : Ring)
    → (begin (ring_put k e ring) ≡ some e) ⊎ (begin (ring_put k e ring) ≡ begin ring)
begin-ring_put k e [] = inl refl
begin-ring_put k e ((j, f) ∷ ring) = ground arith

-- Either the new endpoint is found, or what was found before.
abbrev TakesOver : ServiceEndpoint → Option ServiceEndpoint → Option ServiceEndpoint → Type 0
TakesOver e before after = (after ≡ some e) ⊎ (after ≡ before)

ring_pick-ring_put :
    (h k : ℕ) (e : ServiceEndpoint) (ring : Ring)
    → TakesOver e (ring_pick h ring) (ring_pick h (ring_put k e ring))
ring_pick-ring_put h k e ring =
    ground (arith, lower_bound-ring_put h k e ring, begin-ring_put k e ring)

TakesOver-trans :
    {e : ServiceEndpoint} {a b c : Option ServiceEndpoint}
    → TakesOver e a b
    → TakesOver e b c
    → TakesOver e a c
TakesOver-trans p (inl q) = inl q
TakesOver-trans (inl p) (inr q) = inl (q ∙ p)
TakesOver-trans (inr p) (inr q) = inr (q ∙ p)

ring_pick-add_nodes :
    (h left i : ℕ) (e : ServiceEndpoint) (ring : Ring)
    → TakesOver e (ring_pick h ring) (ring_pick h (add_nodes left i e ring))
unfolding add_nodes
ring_pick-add_nodes h zero i e ring = inr refl
ring_pick-add_nodes h (suc left) i e ring =
    TakesOver-trans (ring_pick-ring_put h _ e ring) (ring_pick-add_nodes h left (i + 1) e _)

build_ring-append :
    (n : ℕ) (es : List ServiceEndpoint) (e : ServiceEndpoint) (ring : Ring)
    → build_ring n (es ++ (e ∷ [])) ring ≡ add_nodes n 0 e (build_ring n es ring)
unfolding build_ring
build_ring-append n [] e ring = refl
build_ring-append n (f ∷ es) e ring = build_ring-append n es e (add_nodes n 0 f ring)

joined :
    (h n : ℕ) (e : ServiceEndpoint) (es : List ServiceEndpoint)
    → TakesOver e
        (ring_pick h (build_ring n es []))
        (ring_pick h (build_ring n (es ++ (e ∷ [])) []))
joined h n e es =
    rw (build_ring-append n es e []) (ring_pick-add_nodes h n 0 e (build_ring n es []))

-- When an endpoint joins at the end of the list, a key is served by the new endpoint or by the one
-- that served it before: no key moves between the endpoints that were there.
pub consistent_hash_select-append :
    (n : ℕ) (key : List Byte) (e f : ServiceEndpoint) (es : List ServiceEndpoint)
    → (consistent_hash_select n key ((f ∷ es) ++ (e ∷ [])) ≡ some e)
      ⊎ (consistent_hash_select n key ((f ∷ es) ++ (e ∷ []))
          ≡ consistent_hash_select n key (f ∷ es))
unfolding consistent_hash_select
consistent_hash_select-append n [] e f es = joined _ n e (f ∷ es)
consistent_hash_select-append n (k ∷ key) e f es = joined _ n e (f ∷ es)

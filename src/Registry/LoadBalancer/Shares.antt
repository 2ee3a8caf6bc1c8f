-- ===== src/Registry/LoadBalancer/Shares.antt =====
-- The weighted selection of src/registry/load_balancer.cpp.
use rpc_framework.Base.{◌≡◌, refl, List, [], ◌∷◌, ◌++◌, some, arith}
use rpc_framework.Base.Int.{
  ℤ, pos, ◌+ℤ◌, ◌-ℤ◌, ◌≤ℤ◌, ◌<ℤ◌, is_negative-true, is_negative-false, int_laws,
}
use rpc_framework.Registry.LoadBalancer.{
  ServiceEndpoint, total_weight, weighted_pick, weighted_select,
}

-- No weight below 0.
abbrev pub NonNegative : List ServiceEndpoint → Type 0
NonNegative [] = Unit {0}
NonNegative (e ∷ es) = (pos 0 ≤ℤ e.weight) × NonNegative es

total_nonneg : (es : List ServiceEndpoint) → NonNegative es → pos 0 ≤ℤ total_weight es
total_nonneg [] h = omega arith
total_nonneg (e ∷ es) (h, hs) = omega (int_laws, total_nonneg es hs)

-- The draws from the sum of the weights before an endpoint on, as many as its weight, select it: of
-- all draws below the total it gets the share that its weight says. The weights before it are not
-- negative.
pub weighted_select-share :
    (es : List ServiceEndpoint) (e : ServiceEndpoint) (fs : List ServiceEndpoint) (draw : ℤ)
    → NonNegative es
    → total_weight es ≤ℤ draw
    → draw <ℤ total_weight es +ℤ e.weight
    → weighted_select draw (es ++ (e ∷ fs)) ≡ some e
unfolding weighted_select weighted_pick
weighted_select-share [] e [] draw h low high = refl
weighted_select-share [] e (f ∷ fs) draw h low high =
    let stop = is_negative-true (draw -ℤ e.weight) (omega int_laws) in rw stop refl
weighted_select-share (g ∷ []) e fs draw (h, hs) low high =
    let past = is_negative-false (draw -ℤ g.weight) (omega int_laws) in
    rw past (weighted_select-share [] e fs (draw -ℤ g.weight) hs (omega int_laws) (omega int_laws))
weighted_select-share (g ∷ f ∷ es) e fs draw (h, hs) low high =
    let rest = total_nonneg (f ∷ es) hs in
    let past = is_negative-false (draw -ℤ g.weight) (omega int_laws) in
    rw past
      (weighted_select-share (f ∷ es) e fs (draw -ℤ g.weight) hs (omega int_laws) (omega int_laws))

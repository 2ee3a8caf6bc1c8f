-- ===== src/Registry/LoadBalancer/Rotation.antt =====
-- The round-robin selection of src/registry/load_balancer.cpp over several calls.
use native.Mathlib.Nat.{mod-lt, mod-eq_of_lt, mod_self, suc-mod, mod-add-mod}
use rpc_framework.Base.{
  ℕ, zero, suc, ◌+◌, ◌-◌, ◌%◌, ◌≤◌, ◌<◌, ◌≡◌, refl, sym, ap, ◌∙◌, List, [], ◌∷◌, ◌++◌, Option, none,
  some, length, get_elem?, take, drop, arith, size_mod, take-eq_self, append-nil, length-drop,
}
use rpc_framework.Registry.LoadBalancer.{ServiceEndpoint, round_robin_select}

abbrev in_front :
    ServiceEndpoint → Option (List ServiceEndpoint × ℕ) → Option (List ServiceEndpoint × ℕ)
in_front e none = none
in_front e (some (fs, b)) = some (e ∷ fs, b)

-- A selection, and those that follow with the counter that it leaves.
abbrev first :
    Option (ServiceEndpoint × ℕ)
    → (ℕ → Option (List ServiceEndpoint × ℕ))
    → Option (List ServiceEndpoint × ℕ)
first none rest = none
first (some (e, d)) rest = in_front e (rest d)

-- `k` selections one after the other: the endpoints and the counter.
pub selects : ℕ → ℕ → List ServiceEndpoint → Option (List ServiceEndpoint × ℕ)
selects zero c es = some ([], c)
selects (suc k) c es = first (round_robin_select c es) (λ (d : ℕ). selects k d es)

get_elem?-drop :
    (i : ℕ) (es : List ServiceEndpoint)
    → i < length es
    → (e : ServiceEndpoint) × (get_elem? es i ≡ some e) × (drop i es ≡ e ∷ drop (suc i) es)
get_elem?-drop i [] h = absurd (omega arith)
get_elem?-drop zero (e ∷ es) h = (e, refl, refl)
get_elem?-drop (suc i) (e ∷ es) h = get_elem?-drop i es (omega arith)

-- One selection.
round_robin_select_lem :
    (c : ℕ) (es : List ServiceEndpoint)
    → zero < length es
    → c + 1 < size_mod
    → (e : ServiceEndpoint) × (round_robin_select c es ≡ some (e, c + 1))
      × (drop (c % length es) es ≡ e ∷ drop (suc (c % length es)) es)
unfolding round_robin_select
round_robin_select_lem c [] h small = absurd (omega arith)
round_robin_select_lem c (e ∷ es) h small =
    let (f, at, split) = get_elem?-drop (c % length (e ∷ es)) (e ∷ es) (mod-lt c h) in
    let next : (c + 1) % size_mod ≡ c + 1 = omega arith in (f, rw (at, next) refl, split)

next-mod : (c n : ℕ) → suc (c % n) < n → (c + 1) % n ≡ suc (c % n)
next-mod c n h = ap (λ (i : ℕ). i % n) (omega arith) ∙ suc-mod c n ∙ mod-eq_of_lt h

-- `k` selections that do not pass the end of the list, and those that follow.
selects-append :
    (k m n c b : ℕ) (es gs : List ServiceEndpoint)
    → n ≡ k + m
    → zero < length es
    → c % length es + k ≤ length es
    → c + k < size_mod
    → selects m (c + k) es ≡ some (gs, b)
    → selects n c es ≡ some (take k (drop (c % length es) es) ++ gs, b)
unfolding selects
selects-append zero m n c b es gs p h fits small after =
    ap (λ (i : ℕ). selects i c es) (omega arith)
    ∙ ap (λ (i : ℕ). selects m i es) (omega arith)
    ∙ after
selects-append (suc k) m zero c b es gs p h fits small after = absurd (omega arith)
selects-append (suc zero) m (suc n) c b es gs p h fits small after =
    let (e, one, split) = round_robin_select_lem c es h small in
    let same : n ≡ m = omega arith in rw (one, split, same, after) refl
selects-append (suc (suc k)) m (suc n) c b es gs p h fits small after =
    let (e, one, split) = round_robin_select_lem c es h (omega arith) in
    let next = next-mod c (length es) (omega arith) in
    let rest =
      selects-append (suc k) m n (c + 1) b es gs (omega arith) h (omega (arith, next)) (omega arith)
        (ap (λ (i : ℕ). selects m i es) (omega arith) ∙ after) in
    rw (one, split) (ap (in_front e) rest ∙ rw next refl)

wrap-mod : (c n : ℕ) → zero < n → (c + (n - c % n)) % n ≡ zero
wrap-mod c n h =
    let less = mod-lt c h in
    sym (mod-add-mod c n (n - c % n)) ∙ ap (λ (i : ℕ). i % n) (omega arith) ∙ mod_self n

-- As many selections as there are endpoints, from any value of the counter that does not wrap in
-- their course, return each place of the list exactly once, as a rotation of the list.
pub selects-rotation :
    (c : ℕ) (es : List ServiceEndpoint)
    → zero < length es
    → c + length es < size_mod
    → selects (length es) c es
      ≡ some (drop (c % length es) es ++ take (c % length es) es, c + length es)
unfolding selects
selects-rotation c es h small =
    let n = length es in
    let q = c % n in
    let less = mod-lt c h in
    let back = wrap-mod c n h in
    let start : selects q (c + (n - q)) es ≡ some (take q es, c + n) =
      selects-append q 0 q (c + (n - q)) (c + n) es [] (omega arith) h (omega (arith, back))
        (omega arith) (ap (λ (i : ℕ). some ([], i)) (omega arith))
      ∙ ap (λ (xs : List ServiceEndpoint). some (xs, c + n))
          (append-nil _ ∙ ap (λ (i : ℕ). take q (drop i es)) back) in
    selects-append (n - q) q n c (c + n) es (take q es) (omega arith) h (omega arith) (omega arith)
      start
    ∙ ap (λ (xs : List ServiceEndpoint). some (xs ++ take q es, c + n))
        (take-eq_self (n - q) (drop q es) (omega (arith, length-drop q es)))

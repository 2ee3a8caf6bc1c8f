-- ===== src/Registry/ZooKeeper/Listing.antt =====
-- Nodes and lists of children in the stub of src/registry/zookeeper_client.cpp.
use rpc_framework.Base.{
  ℕ, ◌≡◌, refl, ap, ◌∙◌, inl, inr, Bool, true, false, List, [], ◌∷◌, ◌++◌, Option, none, some, Byte,
  if◌then◌else◌, arith, Bool-cases,
}
use rpc_framework.Base.Map.{
  find, put, erase, bytes_beq, bytes_beq_iff, bytes_eq, find-put, find-erase,
}
use rpc_framework.Registry.ZooKeeper.{
  Stub, init, split_path, or_else, has, without, fire, add_child, create, watch_children,
  drop_child, remove, get_children,
}
use rpc_framework.Registry.ZooKeeper.Paths.{same_path, rootless}

abbrev pub is_some {ℓ} : {A : Type ℓ} → Option A → Bool
is_some none = false
is_some (some a) = true

-- A path below a parent has a node exactly if the parent lists its name.
pub InStep : Stub → Type 0
InStep z =
    (path parent child : List Byte)
    → split_path path ≡ some (parent, child)
    → has child (or_else [] (find parent z.children)) ≡ is_some (find path z.nodes)

has-append :
    (x y : List Byte) (ys : List (List Byte))
    → has x (ys ++ (y ∷ [])) ≡ (if bytes_beq y x then true else has x ys)
has-append x y [] = refl
has-append x y (z ∷ ys) = ground (arith, has-append x y ys)

has-without :
    (x y : List Byte) (ys : List (List Byte))
    → has x (without y ys) ≡ (if bytes_beq y x then false else has x ys)
has-without x y [] = ground arith
has-without x y (z ∷ ys) =
    ground (arith, has-without x y ys, bytes_beq_iff z y, bytes_beq_iff z x, bytes_beq_iff y x)

fire-children :
    (parent : List Byte) (w : Option ℕ) (z : Stub)
    → ((fire parent w z).children ≡ z.children) × ((fire parent w z).nodes ≡ z.nodes)
fire-children parent none z = (refl, refl)
fire-children parent (some w) z = (refl, refl)

-- Whether `q` lists `x` once `a` has the list `kids`.
listed-put :
    (a b q x : List Byte) (v : Bool) (kids : List (List Byte))
    (m : List (List Byte × List (List Byte)))
    → has x kids ≡ (if bytes_beq b x then v else has x (or_else [] (find a m)))
    → has x (or_else [] (find q (put a kids m))) ≡ (
        if bytes_beq a q
        then if bytes_beq b x then v else has x (or_else [] (find q m))
        else has x (or_else [] (find q m)))
listed-put a b q x v kids m h = rw (find-put a q kids m) (elim (Bool-cases (bytes_beq a q)) [
  | inl same ↦
      let e : a ≡ q = (bytes_beq_iff a q).0 same in
      rw same
        (h ∙ ap (λ (i : List Byte). if bytes_beq b x then v else has x (or_else [] (find i m))) e)
  | inr other ↦ rw other refl
])

add_child-children :
    (a b q x : List Byte) (z : Stub)
    → ((add_child (some (a, b)) z).nodes ≡ z.nodes)
      × (has x (or_else [] (find q (add_child (some (a, b)) z).children)) ≡ (
          if bytes_beq a q
          then if bytes_beq b x then true else has x (or_else [] (find q z.children))
          else has x (or_else [] (find q z.children))))
add_child-children a b q x z = go (has b kids) refl
  where
    kids : List (List Byte)
    kids = or_else [] (find a z.children)

    go :
        (t : Bool)
        → has b kids ≡ t
        → let y : Stub =
            if t
            then record z { children = put a kids z.children }
            else fire a
                (find a z.watchers)
                (record z { children = put a (kids ++ (b ∷ [])) z.children }) in
          (y.nodes ≡ z.nodes)
          × (has x (or_else [] (find q y.children)) ≡ (
              if bytes_beq a q
              then if bytes_beq b x then true else has x (or_else [] (find q z.children))
              else has x (or_else [] (find q z.children))))
    go true t = (refl, listed-put a b q x true kids z.children (ground (arith, bytes_beq_iff b x)))
    go false t =
        let (c, n) =
          fire-children a (find a z.watchers)
            (record z { children = put a (kids ++ (b ∷ [])) z.children }) in
        (
          n,
          ap (λ (m : List (List Byte × List (List Byte))). has x (or_else [] (find q m))) c
              ∙ listed-put a b q x true (kids ++ (b ∷ [])) z.children (has-append x b kids),
        )

written_or_not :
    {A : Type 0} (a : A) (t : Bool) (o : Option A)
    → (if t then true else is_some o) ≡ is_some (if t then some a else o)
written_or_not a true o = refl
written_or_not a false o = refl

erased_or_not :
    {A : Type 0} (t : Bool) (o : Option A)
    → (if t then false else is_some o) ≡ is_some (if t then none else o)
erased_or_not true o = refl
erased_or_not false o = refl

create-InStep : (path data_ : List Byte) (z : Stub) → InStep z → InStep (create path data_ z)
unfolding create InStep
create-InStep path data_ z h p q x e = go (split_path path) refl
  where
    written : Stub
    written = record z { nodes = put path data_ z.nodes }

    go :
        (r : Option (List Byte × List Byte))
        → split_path path ≡ r
        → has x (or_else [] (find q (add_child r written).children))
          ≡ is_some (find p (add_child r written).nodes)
    go none s = h p q x e ∙ rw (find-put path p data_ z.nodes, rootless path p q x s e) refl
    go (some (a, b)) s =
        let (n, c) = add_child-children a b q x written in
        c
        ∙ same_path path p a b q x true _ s e
        ∙ rw (n, find-put path p data_ z.nodes, h p q x e)
            (written_or_not data_ (bytes_beq path p) (find p z.nodes))

remove-InStep : (path : List Byte) (z : Stub) → InStep z → InStep (remove path z)
unfolding remove InStep
remove-InStep path z h p q x e = go (split_path path) refl
  where
    erased : Stub
    erased = record z { nodes = erase path z.nodes }

    go :
        (r : Option (List Byte × List Byte))
        → split_path path ≡ r
        → has x (or_else [] (find q (drop_child r erased).children))
          ≡ is_some (find p (drop_child r erased).nodes)
    go none s = h p q x e ∙ rw (find-erase path p z.nodes, rootless path p q x s e) refl
    go (some (a, b)) s =
        let kids : List (List Byte) = or_else [] (find a z.children) in
        listed-put a b q x false (without b kids) z.children (has-without x b kids)
        ∙ same_path path p a b q x false _ s e
        ∙ rw (find-erase path p z.nodes, h p q x e)
            (erased_or_not (bytes_beq path p) (find p z.nodes))

pub data Op : Type 0 where
  creates : List Byte → List Byte → Op
  removes : List Byte → Op
  watches : List Byte → ℕ → Op

pub run : List Op → Stub → Stub
run [] z = z
run (creates path data_ ∷ os) z = run os (create path data_ z)
run (removes path ∷ os) z = run os (remove path z)
run (watches path cb ∷ os) z = run os (watch_children path cb z)

run-InStep : (os : List Op) (z : Stub) → InStep z → InStep (run os z)
unfolding run watch_children InStep
run-InStep [] z h = h
run-InStep (creates path data_ ∷ os) z h = run-InStep os _ (create-InStep path data_ z h)
run-InStep (removes path ∷ os) z h = run-InStep os _ (remove-InStep path z h)
run-InStep (watches path cb ∷ os) z h = run-InStep os (watch_children path cb z) h

-- After any creations, removals and watches from the empty stub, a parent lists a name exactly if the
-- node with that path is there.
pub run_listed :
    (os : List Op) (path parent child : List Byte)
    → split_path path ≡ some (parent, child)
    → has child (get_children parent (run os init)) ≡ is_some (find path (run os init).nodes)
unfolding get_children init InStep find
run_listed os = run-InStep os init (λ path parent child e. refl)

-- ===== src/Registry/ZooKeeper/Remote/Reading.antt =====
-- What `get` of src/registry/zookeeper_client.cpp reads back through the ZooKeeper library, and where that
-- differs from the stub.
use rpc_framework.Base.{
  ℕ, zero, suc, ◌≤◌, ◌<◌, subst, min, ◌≡◌, ◌≢◌, refl, sym, ap, ◌∙◌, inl, inr, true, false, List, [],
  ◌∷◌, ◌++◌, Option, none, some, Byte, take, drop, length, arith, Option-cases, take-eq_self,
  take-append_exact, length-take, if_cases,
}
use rpc_framework.Base.Int.{ℤ, pos, to_int-small}
use rpc_framework.Base.Map.{find, put, find-put_same, bytes_eq}
use rpc_framework.Registry.ZooKeeper
use rpc_framework.Registry.ZooKeeper.{or_else, has, fire, add_child, split_path}
use rpc_framework.Registry.ZooKeeper.Remote.{
  Code, zok, znodeexists, failed, Library, created, buffer_size, c_str, local_array, create, get,
  string_of,
}

-- What the library's documentation says, with `node` the data of a node: a node is made where there is
-- none, with as many bytes of the data as are given, and one that is there is left alone; `zoo_get`
-- copies as much of the data as fits and tells how much, or fails and writes nothing.
pub record Documented {ℓ} {S Watch : Type ℓ} (lib : Library S Watch) : Type ℓ where
  pub node : List Byte → S → Option (List Byte)
  pub makes :
      (path data_ : List Byte) (n : ℕ) (s : S)
      → n ≤ length data_
      → (lib.zoo_create path data_ (pos n) false s).0 ≡ zok
      → (node path s ≡ none)
        × (node path (lib.zoo_create path data_ (pos n) false s).1 ≡ some (take n data_))
  pub spares :
      (path data_ : List Byte) (n : ℕ) (s : S)
      → n ≤ length data_
      → (lib.zoo_create path data_ (pos n) false s).0 ≡ znodeexists
      → (node path s ≢ none) × ((lib.zoo_create path data_ (pos n) false s).1 ≡ s)
  pub reads :
      (path buf d : List Byte) (s : S)
      → node path s ≡ some d
      → lib.zoo_get path buf (pos (length buf)) s
        ≡ (take (length buf) d ++ drop (length d) buf, pos (min (length buf) (length d)))
  pub misses :
      (path buf : List Byte) (s : S)
      → node path s ≡ none
      → lib.zoo_get path buf (pos (length buf)) s ≡ (buf, pos (length buf))

pub length-local_array : (n : ℕ) (garbage : ℕ → Byte) → length (local_array n garbage) ≡ n
unfolding local_array
length-local_array zero garbage = refl
length-local_array (suc n) garbage = ap suc (length-local_array n (λ i. garbage (suc i)))

add_child-nodes :
    (p : Option (List Byte × List Byte)) (z : ZooKeeper.Stub) → (add_child p z).nodes ≡ z.nodes
add_child-nodes none z = refl
add_child-nodes (some (parent, child)) z =
    if_cases (λ (y : ZooKeeper.Stub). y.nodes ≡ z.nodes)
      (has child (or_else [] (find parent z.children))) refl (fired (find parent z.watchers))
  where
    kids : List (List Byte)
    kids = or_else [] (find parent z.children) ++ (child ∷ [])

    fired :
        (w : Option ℕ)
        → (fire parent w (record z { children = put parent kids z.children })).nodes ≡ z.nodes
    fired none = refl
    fired (some w) = refl

stub_get-create :
    (path data_ : List Byte) (z : ZooKeeper.Stub)
    → ZooKeeper.get path (ZooKeeper.create path data_ z) ≡ data_
unfolding ZooKeeper.get ZooKeeper.create
stub_get-create path data_ z =
    ap (λ (m : List (List Byte × List Byte)). or_else [] (find path m))
      (add_child-nodes (split_path path) (record z { nodes = put path data_ z.nodes }))
    ∙ ap (or_else []) (find-put_same path data_ z.nodes)

module _ {ℓ} {S Watch : Type ℓ} (lib : Library S Watch) (doc : Documented lib) where
  -- `get` from what `zoo_get` gives back for an array of 512 bytes.
  get_result :
      (path : List Byte) (garbage : ℕ → Byte) (s : S) (r : List Byte × ℤ)
      → let buf = local_array buffer_size garbage in
        lib.zoo_get (c_str path) buf (pos (length buf)) s ≡ r
        → get lib path garbage s ≡ string_of r.0 r.1
  unfolding get
  get_result path garbage s r h =
      let buf = local_array buffer_size garbage in
      ap
        (λ (n : ℕ).
          string_of (lib.zoo_get (c_str path) buf (pos n) s).0
            (lib.zoo_get (c_str path) buf (pos n) s).1)
        (sym (length-local_array buffer_size garbage))
      ∙ ap (λ (r : List Byte × ℤ). string_of r.0 r.1) h

  pub get_node :
      (path : List Byte) (garbage : ℕ → Byte) (d : List Byte) (s : S)
      → doc.node (c_str path) s ≡ some d
      → get lib path garbage s ≡ take buffer_size d
  get_node path garbage d s here =
      let buf = local_array buffer_size garbage in
      get_result path garbage s _ (doc.reads (c_str path) buf d s here)
      ∙ take-append_exact (min (length buf) (length d)) (take (length buf) d) (drop (length d) buf)
          (sym (length-take (length buf) d))
      ∙ ap (λ (n : ℕ). take n d) (length-local_array buffer_size garbage)

  -- When `create` is given data of fewer than 2^31 bytes and returns true, `get` returns the first 512
  -- bytes of the data: of those that the node had before, where there was one, and else of those given.
  -- The stub returns all those given.
  pub get-create :
      (path data_ : List Byte) (garbage : ℕ → Byte) (s : S) (z : ZooKeeper.Stub)
      → length data_ < 2147483648
      → (create lib path data_ s).0 ≡ true
      → (get lib path garbage (create lib path data_ s).1
          ≡ take buffer_size (or_else data_ (doc.node (c_str path) s)))
        × (ZooKeeper.get path (ZooKeeper.create path data_ z) ≡ data_)
  unfolding create
  get-create path data_ garbage s z short ok = rw (to_int-small (length data_) short) (
    go rc refl (
        subst (λ n. created (lib.zoo_create (c_str path) data_ n false s).0 ≡ true)
          (to_int-small (length data_) short) ok),
    stub_get-create path data_ z,
  )
    where
      rc : Code
      rc = (lib.zoo_create (c_str path) data_ (pos (length data_)) false s).0

      t : S
      t = (lib.zoo_create (c_str path) data_ (pos (length data_)) false s).1

      go :
          (c : Code)
          → rc ≡ c
          → created c ≡ true
          → get lib path garbage t ≡ take buffer_size (or_else data_ (doc.node (c_str path) s))
      go zok e ok =
          let (absent, made) = doc.makes (c_str path) data_ (length data_) s (omega arith) e in
          get_node path garbage (take (length data_) data_) t made
          ∙ ap (take buffer_size) (take-eq_self (length data_) data_ (omega arith))
          ∙ ap (λ o. take buffer_size (or_else data_ o)) (sym absent)
      go znodeexists e ok =
          let (there, same) = doc.spares (c_str path) data_ (length data_) s (omega arith) e in
          elim (Option-cases (doc.node (c_str path) s)) [
            | inl gone ↦ absurd (there gone)
            | inr (old, h) ↦
                ap (get lib path garbage) same
                ∙ get_node path garbage old s h
                ∙ ap (λ o. take buffer_size (or_else data_ o)) (sym h)
          ]
      go failed e ok = absurd cc

  -- For a path without a node `get` returns the bytes that stood in its array before, which nothing
  -- has initialised.
  pub get_missing :
      (path : List Byte) (garbage : ℕ → Byte) (s : S)
      → doc.node (c_str path) s ≡ none
      → get lib path garbage s ≡ local_array buffer_size garbage
  get_missing path garbage s gone =
      let buf = local_array buffer_size garbage in
      get_result path garbage s _ (doc.misses (c_str path) buf s gone)
      ∙ take-eq_self (length buf) buf (omega arith)

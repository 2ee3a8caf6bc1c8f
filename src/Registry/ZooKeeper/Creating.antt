-- ===== src/Registry/ZooKeeper/Creating.antt =====
-- What `create` of the stub in src/registry/zookeeper_client.cpp does to each of its maps.
use rpc_framework.Base.{
  ℕ, ◌≡◌, refl, sym, ap, ◌∙◌, inl, inr, true, false, List, [], ◌∷◌, ◌++◌, Option, none, some, Byte,
  if◌then◌else◌, Bool-cases, append-nil,
}
use rpc_framework.Base.Map.{find, put, bytes_beq, bytes_beq_iff, bytes_eq, find-put}
use rpc_framework.Registry.ZooKeeper.{Stub, split_path, or_else, has, fire, get_children, create}

-- The calls of the watcher of the parent `a`.
abbrev pub calls : List Byte → Option ℕ → List (ℕ × List Byte)
calls a none = []
calls a (some w) = (w, a) ∷ []

module _ (path data_ a b : List Byte) (z : Stub) (at : split_path path ≡ some (a, b)) where
  fired_lem :
      (w : Option ℕ) (y : Stub)
      → ((fire a w y).fired ≡ y.fired ++ calls a w)
        × ((fire a w y).watchers ≡ y.watchers)
        × ((fire a w y).nodes ≡ y.nodes)
        × ((fire a w y).children ≡ y.children)
  fired_lem none y = (sym (append-nil y.fired), refl, refl, refl)
  fired_lem (some w) y = (refl, refl, refl, refl)

  -- A name that is listed already.
  pub create_listed :
      has b (get_children a z) ≡ true
      → let y = create path data_ z in
        (y.fired ≡ z.fired)
        × (y.watchers ≡ z.watchers)
        × (y.nodes ≡ put path data_ z.nodes)
        × ((q : List Byte) → get_children q y ≡ get_children q z)
  unfolding create get_children
  create_listed old = rw (at, old) (refl, refl, refl, same)
    where
      same :
          (q : List Byte)
          → or_else [] (find q (put a (get_children a z) z.children)) ≡ get_children q z
      same q = rw (find-put a q (get_children a z) z.children) (elim (Bool-cases (bytes_beq a q)) [
        | inl y ↦ rw y (ap (λ (i : List Byte). get_children i z) ((bytes_beq_iff a q).0 y))
        | inr n ↦ rw n refl
      ])

  -- A name that is new.
  pub create_new :
      has b (get_children a z) ≡ false
      → let y = create path data_ z in
        (y.fired ≡ z.fired ++ calls a (find a z.watchers))
        × (y.watchers ≡ z.watchers)
        × (y.nodes ≡ put path data_ z.nodes)
        × ((q : List Byte)
            → get_children q y
              ≡ (if bytes_beq a q then get_children a z ++ (b ∷ []) else get_children q z))
  unfolding create get_children
  create_new new =
      let kids : List (List Byte) = get_children a z ++ (b ∷ []) in
      let (f, w, n, c) =
        fired_lem (find a z.watchers)
          (record z { nodes = put path data_ z.nodes; children = put a kids z.children }) in
      rw (at, new)
        (
          f,
          w,
          n,
          λ q. ap (λ (m : List (List Byte × List (List Byte))). or_else [] (find q m)) c ∙ added q,
        )
    where
      added :
          (q : List Byte)
          → or_else [] (find q (put a (get_children a z ++ (b ∷ [])) z.children))
            ≡ (if bytes_beq a q then get_children a z ++ (b ∷ []) else get_children q z)
      added q =
          rw (find-put a q (get_children a z ++ (b ∷ [])) z.children)
            (elim (Bool-cases (bytes_beq a q)) [ inl y ↦ rw y refl | inr n ↦ rw n refl ])

-- ===== src/Registry/ServiceRegistry/Remote.antt =====
-- `refresh` of src/registry/service_registry.cpp over the half of src/registry/zookeeper_client.cpp that calls the
-- ZooKeeper library.
use rpc_framework.Base.{
  ℕ, ◌≤◌, ◌<◌, ◌≡◌, refl, ap, ap₂, ◌∙◌, List, [], ◌∷◌, ◌++◌, Option, none, some, Byte, map, length,
  arith, take-eq_self,
}
use rpc_framework.Base.Int.{pos}
use rpc_framework.Base.Decimal.{to_string, stoi, stoi-to_string}
use rpc_framework.Registry.LoadBalancer.{ServiceEndpoint}
use rpc_framework.Registry.ZooKeeper.Remote.{
  Library, buffer_size, c_str, local_array, get, get_children, watch_children,
}
use rpc_framework.Registry.ZooKeeper.Remote.Reading.{
  Documented, length-local_array, get_node, get_missing,
}
use rpc_framework.Registry.ServiceRegistry.{
  service_path, parse_children, parse_child, Parsed, skipped, parsed, bad, collect, with_weight,
  weighted_by,
}
use rpc_framework.Registry.ServiceRegistry.Addresses.{
  address_of, Plain, parse_child-address, address_split,
}

module _ {ℓ} {S Watch : Type ℓ} (lib : Library S Watch) where
  -- What `refresh` makes of the children, or `none` where it throws. `garbage` gives the bytes that stand
  -- in the array of `get` in each of its calls, by the path.
  unfoldable pub refresh :
      List Byte → Watch → (List Byte → ℕ → Byte) → S → Option (List ServiceEndpoint) × S
  refresh name cb garbage s =
      let t : S = (watch_children lib (service_path name) cb s).1 in
      (
        parse_children name (get_children lib (service_path name) t)
            (λ path. get lib path (garbage path) t),
        t,
      )

collect-none : (p : Parsed) → collect p none ≡ none
collect-none skipped = refl
collect-none bad = refl
collect-none (parsed e) = refl

-- A child that cannot be parsed makes the whole loop throw.
parse_children-bad :
    (name : List Byte) (before : List (List Byte)) (child : List Byte) (rest : List (List Byte))
    (read : List Byte → List Byte)
    → parse_child child (read (service_path name ++ (47 ∷ child))) ≡ bad
    → parse_children name (before ++ (child ∷ rest)) read ≡ none
unfolding parse_children
parse_children-bad name [] child rest read h = ap (λ p. collect p (parse_children name rest read)) h
parse_children-bad name (b ∷ before) child rest read h =
    ap (collect (parse_child b (read (service_path name ++ (47 ∷ b)))))
      (parse_children-bad name before child rest read h)
    ∙ collect-none (parse_child b (read (service_path name ++ (47 ∷ b))))

-- An address with a text that is not a number.
address-bad :
    (e : ServiceEndpoint) (text : List Byte)
    → e.port < 65536
    → length text ≡ buffer_size
    → stoi text ≡ none
    → parse_child (address_of e) text ≡ bad
unfolding to_string
address-bad e text k size h =
    rw (address_split e k, stoi-to_string (pos e.port) (omega arith)) (go text size h)
  where
    go :
        (t : List Byte)
        → length t ≡ buffer_size
        → stoi t ≡ none
        → with_weight e.host (pos e.port) t ≡ bad
    go [] z h = absurd (omega arith)
    go (c ∷ cs) z h = ap (weighted_by e.host (pos e.port)) h

module _ {ℓ} {S Watch : Type ℓ} (lib : Library S Watch) (doc : Documented lib) where
  -- Each endpoint has a node with its weight, of at most 512 bytes.
  abbrev pub Present : List Byte → List ServiceEndpoint → S → Type 0
  Present name [] s = Unit {0}
  Present name (e ∷ es) s =
      (doc.node (c_str (service_path name ++ (47 ∷ address_of e))) s ≡ some (to_string e.weight))
      × (length (to_string e.weight) ≤ buffer_size)
      × Present name es s

  parse_children-Present :
      (name : List Byte) (es : List ServiceEndpoint) (garbage : List Byte → ℕ → Byte) (s : S)
      → Plain es
      → Present name es s
      → parse_children name (map address_of es) (λ path. get lib path (garbage path) s) ≡ some es
  unfolding parse_children
  parse_children-Present name [] garbage s p h = refl
  parse_children-Present name (e ∷ es) garbage s ((no_slash, port, int), p) (here, short, h) =
      let path : List Byte = service_path name ++ (47 ∷ address_of e) in
      let own =
        get_node lib doc path (garbage path) (to_string e.weight) s here
        ∙ take-eq_self buffer_size (to_string e.weight) short in
      ap
        (λ text.
          collect (parse_child (address_of e) text)
            (parse_children name (map address_of es) (λ path. get lib path (garbage path) s)))
        own
      ∙ ap₂ collect (parse_child-address e port int) (parse_children-Present name es garbage s p h)

  -- When the children of the service are the addresses of `es` and each has a node with its weight,
  -- `refresh` finds exactly these endpoints, whatever stands in the uninitialised arrays of `get`.
  pub refresh_reads :
      (name : List Byte) (cb : Watch) (garbage : List Byte → ℕ → Byte) (s : S)
      (es : List ServiceEndpoint)
      → let t : S = (watch_children lib (service_path name) cb s).1 in
        get_children lib (service_path name) t ≡ map address_of es
        → Plain es
        → Present name es t
        → (refresh lib name cb garbage s).0 ≡ some es
  unfolding refresh
  refresh_reads name cb garbage s es kids p h =
      let t : S = (watch_children lib (service_path name) cb s).1 in
      ap (λ c. parse_children name c (λ path. get lib path (garbage path) t)) kids
      ∙ parse_children-Present name es garbage t p h

  -- When one of the children has no node, since it has been removed after the children were listed, and
  -- the 512 bytes in the array of `get` do not happen to be a number, `refresh` throws, whatever the
  -- other children are.
  pub refresh_throws :
      (name : List Byte) (cb : Watch) (garbage : List Byte → ℕ → Byte) (s : S)
      (before rest : List (List Byte)) (e : ServiceEndpoint)
      → let t : S = (watch_children lib (service_path name) cb s).1 in
        let path : List Byte = service_path name ++ (47 ∷ address_of e) in
        get_children lib (service_path name) t ≡ before ++ (address_of e ∷ rest)
        → doc.node (c_str path) t ≡ none
        → stoi (local_array buffer_size (garbage path)) ≡ none
        → e.port < 65536
        → (refresh lib name cb garbage s).0 ≡ none
  unfolding refresh
  refresh_throws name cb garbage s before rest e kids gone no_number port =
      let t : S = (watch_children lib (service_path name) cb s).1 in
      let path : List Byte = service_path name ++ (47 ∷ address_of e) in
      let read : List Byte → List Byte = λ path. get lib path (garbage path) t in
      ap (λ c. parse_children name c read) kids
      ∙ parse_children-bad name before (address_of e) rest read (
          ap (parse_child (address_of e)) (get_missing lib doc path (garbage path) t gone)
          ∙ address-bad e (local_array buffer_size (garbage path)) port
              (length-local_array buffer_size (garbage path)) no_number)

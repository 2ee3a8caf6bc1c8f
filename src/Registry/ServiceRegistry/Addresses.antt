-- ===== src/Registry/ServiceRegistry/Addresses.antt =====
-- The addresses and nodes of endpoints in src/registry/service_registry.cpp.
use rpc_framework.Base.{
  ℕ, ◌%◌, ◌<◌, ◌≡◌, refl, sym, ap, ◌∙◌, inl, inr, true, false, List, [], ◌∷◌, ◌++◌, none, some,
  Byte, length, ◌==◌, arith, length-append, map, Bool-cases,
}
use rpc_framework.Base.Map.{find, put, bytes_beq, bytes_beq_iff, bytes_eq, find-put}
use rpc_framework.Base.Int.{pos}
use rpc_framework.Base.Decimal.{
  to_string, to_string_ℕ, stoi, IsInt, AllDigits, is_digit, stoi-to_string, to_string_ℕ-AllDigits,
}
use rpc_framework.Registry.LoadBalancer.{ServiceEndpoint}
use rpc_framework.Registry.ZooKeeper.{or_else, has, rfind}
use rpc_framework.Registry.ZooKeeper.Paths.{rfind_last, rfind_absent, append_cancel}
use rpc_framework.Registry.ServiceRegistry.{
  parse_child, with_weight, weighted_by, parsed, service_path, address, node_path,
}

abbrev pub address_of : ServiceEndpoint → List Byte
address_of e = address e.host e.port

-- No slash in the host, a port of 16 bits, and a weight that is an `int`.
abbrev pub Plain : List ServiceEndpoint → Type 0
Plain [] = Unit {0}
Plain (e ∷ es) = ((rfind 47 e.host ≡ none) × (e.port < 65536) × IsInt e.weight) × Plain es

-- No address twice, nor one of `before`.
abbrev pub Distinct : List (List Byte) → List ServiceEndpoint → Type 0
Distinct before [] = Unit {0}
Distinct before (e ∷ es) =
    (has (address_of e) before ≡ false) × Distinct (before ++ (address_of e ∷ [])) es

absent_digits : (d : Byte) (s : List Byte) → is_digit d ≡ false → AllDigits s → rfind d s ≡ none
absent_digits d [] n h = refl
absent_digits d (c ∷ s) n (k, h) =
    let other : (c == d) ≡ false = ground arith in rw (absent_digits d s n h, other) refl

port_digits : (n : ℕ) → n < 65536 → AllDigits (to_string_ℕ n)
port_digits n h = to_string_ℕ-AllDigits n (omega arith)

pub plain_address :
    (host : List Byte) (port : ℕ)
    → rfind 47 host ≡ none
    → port < 65536
    → rfind 47 (address host port) ≡ none
plain_address host port h k =
    rfind_absent 47 host (58 ∷ to_string_ℕ port) h
      (rw (absent_digits 47 (to_string_ℕ port) refl (port_digits port k)) refl)

stoi-nil : stoi [] ≡ none
unfolding stoi
stoi-nil = refl

-- The last colon of an address stands before its port.
pub address_split :
    (e : ServiceEndpoint)
    → e.port < 65536
    → rfind 58 (address_of e) ≡ some (e.host, to_string_ℕ e.port)
address_split e k =
    rfind_last 58 e.host (to_string_ℕ e.port)
      (absent_digits 58 (to_string_ℕ e.port) refl (port_digits e.port k))

-- What is registered is what `refresh` parses.
pub parse_child-address :
    (e : ServiceEndpoint)
    → e.port < 65536
    → IsInt e.weight
    → parse_child (address_of e) (to_string e.weight) ≡ parsed e
unfolding to_string
parse_child-address e k i =
    let small : e.port % 65536 ≡ e.port = omega arith in
    let number = stoi-to_string (pos e.port) (omega arith) in
    rw (address_split e k, number)
      (go (to_string e.weight) (stoi-to_string e.weight i) ∙ rw small refl)
  where
    go :
        (t : List Byte)
        → stoi t ≡ some e.weight
        → with_weight e.host (pos e.port) t ≡ weighted_by e.host (pos e.port) (some e.weight)
    go [] h = cc stoi-nil
    go (c ∷ cs) h = rw h refl

-- The nodes hold the weights of the endpoints.
abbrev pub Weighed : List Byte → List (List Byte × List Byte) → List ServiceEndpoint → Type 0
Weighed name nodes [] = Unit {0}
Weighed name nodes (e ∷ es) =
    (or_else [] (find (service_path name ++ (47 ∷ address_of e)) nodes) ≡ to_string e.weight)
    × Weighed name nodes es

pub Weighed-append :
    (name : List Byte) (nodes : List (List Byte × List Byte)) (es : List ServiceEndpoint)
    (e : ServiceEndpoint)
    → Weighed name nodes es
    → or_else [] (find (service_path name ++ (47 ∷ address_of e)) nodes) ≡ to_string e.weight
    → Weighed name nodes (es ++ (e ∷ []))
Weighed-append name nodes [] e h k = (k, tt)
Weighed-append name nodes (f ∷ es) e (h, hs) k = (h, Weighed-append name nodes es e hs k)

-- A path that is none of theirs.
abbrev pub Apart : List Byte → List Byte → List ServiceEndpoint → Type 0
Apart name path [] = Unit {0}
Apart name path (e ∷ es) =
    (bytes_beq path (service_path name ++ (47 ∷ address_of e)) ≡ false) × Apart name path es

pub Weighed-put :
    (name path data_ : List Byte) (nodes : List (List Byte × List Byte)) (es : List ServiceEndpoint)
    → Apart name path es
    → Weighed name nodes es
    → Weighed name (put path data_ nodes) es
Weighed-put name path data_ nodes [] a h = tt
Weighed-put name path data_ nodes (e ∷ es) (n, a) (h, hs) = (
  rw (find-put path (service_path name ++ (47 ∷ address_of e)) data_ nodes, n) h,
  Weighed-put name path data_ nodes es a hs,
)

pub differ : (p q : List Byte) → (p ≡ q → ⊥) → bytes_beq p q ≡ false
differ p q n = elim (Bool-cases (bytes_beq p q)) [
  | inl y ↦ absurd (n ((bytes_beq_iff p q).0 y))
  | inr f ↦ f
]

pub longer : (p q : List Byte) (c : Byte) → p ≡ p ++ (c ∷ q) → ⊥
longer p q c h = let sum = length-append p (c ∷ q) in let same = ap length h in omega arith

pub service_path-Apart :
    (name : List Byte) (es : List ServiceEndpoint) → Apart name (service_path name) es
service_path-Apart name [] = tt
service_path-Apart name (e ∷ es) = (
  differ (service_path name) (service_path name ++ (47 ∷ address_of e))
      (longer (service_path name) (address_of e) 47),
  service_path-Apart name es,
)

pub node_path-Apart :
    (name : List Byte) (e : ServiceEndpoint) (es : List ServiceEndpoint)
    → has (address_of e) (map address_of es) ≡ false
    → Apart name (node_path name e.host e.port) es
node_path-Apart name e [] h = tt
node_path-Apart name e (f ∷ es) h = elim (Bool-cases (bytes_beq (address_of f) (address_of e))) [
  | inl y ↦ absurd (let no : true ≡ false = sym (rw y refl) ∙ h in cc)
  | inr n ↦ (
    differ (node_path name e.host e.port) (service_path name ++ (47 ∷ address_of f)) (λ same.
        let tails =
          append_cancel (service_path name) (47 ∷ address_of e) (47 ∷ address_of f) same in
        let equal : address_of f ≡ address_of e = cc in
        let yes = (bytes_beq_iff (address_of f) (address_of e)).1 equal in absurd (cc)),
    node_path-Apart name e es (rw n at h),
  )
]

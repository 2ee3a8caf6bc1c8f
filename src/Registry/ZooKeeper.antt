-- ===== src/Registry/ZooKeeper.antt =====
-- The stub of src/registry/zookeeper_client.cpp that is compiled without the ZooKeeper library. Each
-- function runs with the mutex taken. A watcher is kept as a number, and its calls are recorded.
pub mod Paths
pub mod Listing
pub mod Creating
pub mod Remote
use rpc_framework.Base.{
  ℕ, Bool, true, false, List, [], ◌∷◌, ◌++◌, Option, none, some, Byte, ◌==◌, if◌then◌else◌,
}
use rpc_framework.Base.Map.{find, put, erase, bytes_beq, bytes_eq}

pub record Stub : Type 0 where
  pub nodes : List (List Byte × List Byte)
  pub children : List (List Byte × List (List Byte))
  pub watchers : List (List Byte × ℕ)
  pub fired : List (ℕ × List Byte)

unfoldable pub init : Stub
init = record { nodes = []; children = []; watchers = []; fired = [] }

abbrev pub in_front :
    Byte → Option (List Byte × List Byte) → Byte → List Byte → Option (List Byte × List Byte)
in_front c (some (a, b)) d cs = some (c ∷ a, b)
in_front c none d cs = if c == d then some ([], cs) else none

-- `path.rfind(d)`: what stands before and behind the last `d`.
abbrev pub rfind : Byte → List Byte → Option (List Byte × List Byte)
rfind d [] = none
rfind d (c ∷ cs) = in_front c (rfind d cs) d cs

-- A slash at position 0 does not count.
abbrev pub behind_root : Option (List Byte × List Byte) → Option (List Byte × List Byte)
behind_root none = none
behind_root (some ([], b)) = none
behind_root (some (c ∷ a, b)) = some (c ∷ a, b)

-- The parent and the name of the child.
abbrev pub split_path : List Byte → Option (List Byte × List Byte)
split_path path = behind_root (rfind 47 path)

abbrev pub or_else {ℓ} : {A : Type ℓ} → A → Option A → A
or_else a none = a
or_else a (some b) = b

abbrev pub has : List Byte → List (List Byte) → Bool
has x [] = false
has x (y ∷ ys) = if bytes_beq y x then true else has x ys

-- `kids.erase(std::remove(...))`
abbrev pub without : List Byte → List (List Byte) → List (List Byte)
without x [] = []
without x (y ∷ ys) = let rest = without x ys in if bytes_beq y x then rest else y ∷ rest

abbrev pub fire : List Byte → Option ℕ → Stub → Stub
fire parent none z = z
fire parent (some w) z = record z { fired = z.fired ++ ((w, parent) ∷ []) }

unfoldable pub get : List Byte → Stub → List Byte
get path z = or_else [] (find path z.nodes)

unfoldable pub get_children : List Byte → Stub → List (List Byte)
get_children path z = or_else [] (find path z.children)

-- The part of `create` below a parent.
abbrev pub add_child : Option (List Byte × List Byte) → Stub → Stub
add_child none z = z
add_child (some (parent, child)) z =
    let kids : List (List Byte) = or_else [] (find parent z.children) in
    if has child kids
    then record z { children = put parent kids z.children }
    else fire parent (find parent z.watchers)
        (record z { children = put parent (kids ++ (child ∷ [])) z.children })

unfoldable pub create : List Byte → List Byte → Stub → Stub
create path data_ z = add_child (split_path path) (record z { nodes = put path data_ z.nodes })

unfoldable pub create_ephemeral : List Byte → List Byte → Stub → Stub
unfolding create
create_ephemeral path data_ z = create path data_ z

unfoldable pub watch_children : List Byte → ℕ → Stub → Stub
watch_children path cb z = record z { watchers = put path cb z.watchers }

abbrev pub drop_child : Option (List Byte × List Byte) → Stub → Stub
drop_child none z = z
drop_child (some (parent, child)) z = record z {
  children = put parent (without child (or_else [] (find parent z.children))) z.children;
}

unfoldable pub remove : List Byte → Stub → Stub
remove path z = drop_child (split_path path) (record z { nodes = erase path z.nodes })

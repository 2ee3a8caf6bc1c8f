-- ===== src/Tests/Remote.antt =====
-- src/registry/zookeeper_client.cpp over a library that keeps the nodes in a map, and
-- include/rpc/service_proxy.h.
use rpc_framework.Base.{
  ℕ, arith, min, ◌≡◌, ◌≢◌, refl, ap, true, List, [], ◌∷◌, ◌++◌, Option, none, some, Byte, take,
  drop, length,
}
use rpc_framework.Base.Int.{ℤ, pos, pos_part}
use rpc_framework.Base.Map.{find, put, erase, bytes_eq, find-put_same}
use rpc_framework.Registry.ZooKeeper
use rpc_framework.Registry.ZooKeeper.Remote.{Code, zok, znodeexists, failed, Library, create, get}
use rpc_framework.Registry.ZooKeeper.Remote.Reading.{Documented, get-create}
use rpc_framework.Rpc.Channel.Socket.{Kernel, in_progress}
use rpc_framework.Rpc.Proxy.{construct}
use rpc_framework.Rpc.Proxy.Ownership.{Owned, construct-Owned}

abbrev pub Nodes : Type 0
Nodes = List (List Byte × List Byte)

abbrev add_node : Option (List Byte) → List Byte → List Byte → Nodes → Code × Nodes
add_node none path d s = (zok, put path d s)
add_node (some old) path d s = (znodeexists, s)

abbrev read_node : Option (List Byte) → List Byte → List Byte × ℤ
read_node none buf = (buf, pos (length buf))
read_node (some d) buf =
    (take (length buf) d ++ drop (length d) buf, pos (min (length buf) (length d)))

abbrev drop_node : Option (List Byte) → List Byte → Nodes → Code × Nodes
drop_node none path s = (failed, s)
drop_node (some d) path s = (zok, erase path s)

abbrev pub in_memory : Library Nodes (Unit {0})
in_memory = record {
  zoo_create = λ path d n ephemeral s. add_node (find path s) path (take (pos_part n) d) s;
  zoo_get = λ path buf n s. read_node (find path s) buf;
  zoo_get_children = λ path s. [];
  zoo_wget_children = λ path cb s. (zok, s);
  zoo_delete = λ path s. drop_node (find path s) path s;
}

pub made :
    (o : Option (List Byte)) (path d : List Byte) (s : Nodes)
    → (add_node o path d s).0 ≡ zok
    → (o ≡ none) × (find path (add_node o path d s).1 ≡ some d)
made none path d s e = (refl, find-put_same path d s)
made (some old) path d s e = absurd cc

pub spared :
    (o : Option (List Byte)) (path d : List Byte) (s : Nodes)
    → (add_node o path d s).0 ≡ znodeexists
    → (o ≢ none) × ((add_node o path d s).1 ≡ s)
spared none path d s e = absurd cc
spared (some old) path d s e = (λ h. cc, refl)

abbrev pub in_memory-Documented : Documented in_memory
in_memory-Documented = record {
  node = λ path s. find path s;
  makes = λ path d n s h e. made (find path s) path (take n d) s e;
  spares = λ path d n s h e. spared (find path s) path (take n d) s e;
  reads = λ path buf d s e. ap (λ o. read_node o buf) e;
  misses = λ path buf s e. ap (λ o. read_node o buf) e;
}

abbrev pub garbage : ℕ → Byte
garbage i = 170

abbrev nodes : Nodes
nodes = (47 ∷ 97 ∷ [], 49 ∷ []) ∷ []

-- The node is there, with other data.
get-create_example :
    (get in_memory (47 ∷ 97 ∷ []) garbage (create in_memory (47 ∷ 97 ∷ []) (50 ∷ []) nodes).1
      ≡ 49 ∷ [])
    × (ZooKeeper.get (47 ∷ 97 ∷ []) (ZooKeeper.create (47 ∷ 97 ∷ []) (50 ∷ []) ZooKeeper.init)
        ≡ 50 ∷ [])
unfolding create find
get-create_example =
    get-create in_memory in_memory-Documented (47 ∷ 97 ∷ []) (50 ∷ []) garbage nodes ZooKeeper.init
      (omega arith) refl

-- The server refuses in the end.
abbrev refusing : Kernel
refusing = record {
  socket = some 7;
  connects = in_progress;
  writable_in_time = true;
  so_error = 111;
}

abbrev serving : Kernel
serving = record refusing { so_error = 0 }

construct-Owned_example : Owned (construct serving)
construct-Owned_example = construct-Owned serving

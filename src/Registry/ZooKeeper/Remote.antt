-- ===== src/Registry/ZooKeeper/Remote.antt =====
-- The half of src/registry/zookeeper_client.cpp that is compiled with the ZooKeeper library, whose calls are
-- the fields of an interface. Every call but those of a session passes `zh_` on, which is left out there.
pub mod Reading
use rpc_framework.Base.{
  ℕ, zero, suc, ◌==◌, length, Bool, true, false, List, [], ◌∷◌, Option, none, some, Byte, take,
  if◌then◌else◌,
}
use rpc_framework.Base.Int.{ℤ, pos, negsuc, to_int}

-- `zh_`, a handle of the library, is none when `zookeeper_init` fails.
pub record Client : Type 0 where
  pub zh : Option ℕ

abbrev pub opened : Option ℕ → Option Client
opened none = none
opened (some h) = some (record { zh = some h })

-- `ZooKeeperClient::ZooKeeperClient`, with what `zookeeper_init` returns; none where it throws.
unfoldable pub construct : Option ℕ → Option Client
construct handle = opened handle

abbrev pub to_close : Option ℕ → List ℕ
to_close none = []
to_close (some h) = h ∷ []

-- The handles that the destructor hands to `zookeeper_close`.
unfoldable pub destroy : Client → List ℕ
destroy c = to_close c.zh

abbrev pub in_state : (ℕ → Bool) → Option ℕ → Bool
in_state is_connected none = false
in_state is_connected (some h) = is_connected h

-- `is_connected` is `zoo_state(h) == ZOO_CONNECTED_STATE`.
unfoldable pub connected : (ℕ → Bool) → Client → Bool
connected is_connected c = in_state is_connected c.zh

-- What a call returns: ZOK, ZNODEEXISTS or another code.
pub data Code : Type 0 where
  zok znodeexists failed : Code

-- `S` is what the servers keep, `Watch` what a watcher is. A path is a C string. `zoo_create` takes the data
-- and how many of its bytes to store, `zoo_get` the buffer and `*buffer_len`, which it gives back as it
-- leaves them.
pub record Library {ℓ} (S Watch : Type ℓ) : Type ℓ where
  pub zoo_create : List Byte → List Byte → ℤ → Bool → S → Code × S
  pub zoo_get : List Byte → List Byte → ℤ → S → List Byte × ℤ
  pub zoo_get_children : List Byte → S → List (List Byte)
  pub zoo_wget_children : List Byte → Watch → S → Code × S
  pub zoo_delete : List Byte → S → Code × S

-- What a function that takes a C string reads of `path.c_str()`: the bytes before the first 0.
abbrev pub c_str : List Byte → List Byte
c_str [] = []
c_str (b ∷ path) = if b == 0 then [] else (b ∷ c_str path)

abbrev pub is_ok : Code → Bool
is_ok zok = true
is_ok _ = false

abbrev pub created : Code → Bool
created zok = true
created znodeexists = true
created failed = false

-- `std::string(buf, buf_len > 0 ? buf_len : 0)`
abbrev pub string_of : List Byte → ℤ → List Byte
string_of buf (pos n) = take n buf
string_of buf (negsuc n) = []

-- `char buf[512]`
abbrev pub buffer_size : ℕ
buffer_size = 512

-- An array of that many bytes that is not initialised: `garbage` are the bytes that stand there.
unfoldable pub local_array : ℕ → (ℕ → Byte) → List Byte
local_array zero garbage = []
local_array (suc n) garbage = garbage 0 ∷ local_array n (λ i. garbage (suc i))

module _ {ℓ} {S Watch : Type ℓ} (lib : Library S Watch) where
  unfoldable pub create : List Byte → List Byte → S → Bool × S
  create path data_ s =
      let (rc, t) = lib.zoo_create (c_str path) data_ (to_int (length data_)) false s in
      (created rc, t)

  unfoldable pub create_ephemeral : List Byte → List Byte → S → Bool × S
  create_ephemeral path data_ s =
      let (rc, t) = lib.zoo_create (c_str path) data_ (to_int (length data_)) true s in
      (created rc, t)

  -- The code of `zoo_get` is not looked at.
  unfoldable pub get : List Byte → (ℕ → Byte) → S → List Byte
  get path garbage s =
      let (buf, n) =
        lib.zoo_get (c_str path) (local_array buffer_size garbage) (pos buffer_size) s in
      string_of buf n

  unfoldable pub get_children : List Byte → S → List (List Byte)
  get_children path s = lib.zoo_get_children (c_str path) s

  unfoldable pub watch_children : List Byte → Watch → S → Bool × S
  watch_children path cb s = let (rc, t) = lib.zoo_wget_children (c_str path) cb s in (is_ok rc, t)

  unfoldable pub remove : List Byte → S → Bool × S
  remove path s = let (rc, t) = lib.zoo_delete (c_str path) s in (is_ok rc, t)

abbrev pub or_empty : Option (List Byte) → List Byte
or_empty none = []
or_empty (some path) = path

abbrev pub call_back {ℓ} : {W : Type ℓ} → Option (List Byte → W → W) → Option (List Byte) → W → W
call_back none path w = w
call_back (some cb) path w = cb (or_empty path) w

-- `zk_watcher`: `is_child_event` is `type == ZOO_CHILD_EVENT`, a callback changes `W`.
unfoldable pub zk_watcher {ℓ} :
    {W : Type ℓ} → Bool → Option (List Byte) → Option (List Byte → W → W) → W → W
zk_watcher is_child_event path ctx w = if is_child_event then call_back ctx path w else w

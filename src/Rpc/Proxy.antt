-- ===== src/Rpc/Proxy.antt =====
-- include/rpc/service_proxy.h: a channel that is connected as it is made, and disconnected at the end. The
-- generated stub only points to the channel and is left out. `channel_` is `none` for a null pointer.
pub mod Ownership
use rpc_framework.Base.{List, [], ◌∷◌, Bool, true, false, Option, none, some, if◌then◌else◌}
use rpc_framework.Rpc.Channel.Socket
use rpc_framework.Rpc.Channel.Socket.{Kernel, Endpoint, open_connection, close_connection}

pub record Proxy : Type 0 where
  pub channel : Option Endpoint

-- The constructor throws what is left once the members have been destroyed, or makes a proxy.
pub data Construction : Type 0 where
  constructed : Proxy → Construction
  thrown : Endpoint → Construction

-- The destructor reads through `channel_`; what is left of the channel it owned.
pub data Destruction : Type 0 where
  destroyed : Endpoint → Destruction
  null_read : Destruction

abbrev pub on_attempt : Bool × Endpoint → Construction
on_attempt (true, e) = constructed (record { channel = some e })
on_attempt (false, e) = thrown (close_connection e)

-- `ServiceProxy::ServiceProxy`. Where it throws, the destructor of the channel still runs.
unfoldable pub construct : Kernel → Construction
construct k = on_attempt (open_connection k Socket.init)

abbrev pub destroy_channel : Option Endpoint → Destruction
destroy_channel none = null_read
destroy_channel (some e) = destroyed (close_connection (close_connection e))

-- `ServiceProxy::~ServiceProxy`: it disconnects, and then the destructor of the channel does.
unfoldable pub destroy : Proxy → Destruction
destroy p = destroy_channel p.channel

-- The move constructor: the new proxy, and what the old one keeps.
unfoldable pub move_from : Proxy → Proxy × Proxy
move_from p = (record { channel = p.channel }, record { channel = none })

abbrev pub release : Option Endpoint → Option Endpoint
release none = none
release (some e) = some (close_connection e)

-- The move assignment: what is left of the channel that the target owned, and then the target and what
-- the other keeps.
unfoldable pub move_assign : Proxy → Proxy → Option Endpoint × (Proxy × Proxy)
move_assign p q = (release p.channel, (record { channel = q.channel }, record { channel = none }))

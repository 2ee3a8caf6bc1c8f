-- ===== src/Rpc/Channel/Lost.antt =====
-- What becomes of the calls that wait when the connection of src/rpc/rpc_channel.cpp is lost.
use rpc_framework.Base.{◌≡◌, true}
use rpc_framework.Base.Map.{nat_eq}
use rpc_framework.Rpc.Channel.{Call}

-- A call that was told that the connection is lost.
abbrev IsLost : Call → Type 0
IsLost c = (c.done_flag ≡ true) × (c.controller.is_failed ≡ true)

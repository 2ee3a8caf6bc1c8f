-- ===== src/Rpc/Channel/Reader/Ends.antt =====
-- The inner loop of the reader thread (src/rpc/rpc_channel.cpp) comes to its end.
use rpc_framework.Net.Buffer.{Buffer}

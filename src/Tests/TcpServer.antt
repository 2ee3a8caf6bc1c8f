-- ===== src/Tests/TcpServer.antt =====
-- Runs of src/net/tcp_server.cpp.
use rpc_framework.Base.{◌≡◌, refl, true, some, List, [], ◌∷◌, get_elem?, arith}
use rpc_framework.Base.Map.{erase, put}
use rpc_framework.Base.Update.{modify}
use rpc_framework.Net.Buffer.ReadFd.{bytes, read_fd}
use rpc_framework.Net.Connection.{Connection, connection_destroyed}
use rpc_framework.Net.Connection
use rpc_framework.Net.Connection.Closing
use rpc_framework.Net.Connection.Closing.{reads}
use rpc_framework.Net.TcpServer
use rpc_framework.Net.TcpServer.{TcpServer, Event, starts, accepts, on, run, destroy}
use rpc_framework.Net.TcpServer.Listed.{IsListed, run-IsListed}

-- Two clients connect, and the first hangs up.
abbrev events : List Event
events = starts ∷ accepts true ∷ accepts true ∷ on 0 (reads (λ n. bytes [])) ∷ []

run-IsListed_example : IsListed (run events TcpServer.init)
run-IsListed_example = run-IsListed events (omega arith)

-- The second one's connection.
abbrev second : Connection
second = connection_destroyed (Connection.connection_established Connection.init)

second_left : get_elem? (destroy (run events TcpServer.init)).objects 1 ≡ some (2, second)
unfolding TcpServer.init TcpServer.step TcpServer.start TcpServer.handle_accept
    TcpServer.new_connection TcpServer.on_connection TcpServer.remove_connection destroy
    Connection.init Connection.connection_established Connection.connection_destroyed
    Connection.handle_close Connection.handle_read Closing.step read_fd erase put modify
second_left = refl

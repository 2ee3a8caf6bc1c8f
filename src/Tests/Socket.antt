-- ===== src/Tests/Socket.antt =====
-- Runs of the socket of src/rpc/rpc_channel.cpp.
use rpc_framework.Base.{refl, true, List, [], ◌∷◌, some}
use rpc_framework.Rpc.Channel.Socket
use rpc_framework.Rpc.Channel.Socket.{
  Kernel, in_progress, Event, connects, disconnects, loses, step, run, open_connection,
  close_connection,
}
use rpc_framework.Rpc.Channel.Socket.Descriptors.{IsTidy, run-IsTidy}

-- The server is slow and refuses in the end; the next attempt succeeds.
abbrev slow : Kernel
slow = record { socket = some 7; connects = in_progress; writable_in_time = true; so_error = 111 }

abbrev good : Kernel
good = record { socket = some 8; connects = in_progress; writable_in_time = true; so_error = 0 }

abbrev events : List Event
events = connects slow ∷ connects good ∷ disconnects ∷ []

init-IsTidy : IsTidy Socket.init
init-IsTidy = record { accounted = refl; none_left = λ c. refl }

run-IsTidy_example : IsTidy (run events Socket.init)
unfolding step open_connection
run-IsTidy_example = run-IsTidy events init-IsTidy (refl, (refl, tt))

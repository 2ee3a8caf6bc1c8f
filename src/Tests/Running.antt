-- ===== src/Tests/Running.antt =====
-- Runs of src/rpc/rpc_server.cpp: a server that is made, started and ended.
use rpc_framework.Base.{◌≡◌, refl, ◌≢◌, List, [], ◌∷◌, true, false, some, arith}
use rpc_framework.Net.EventLoop.Looping.{Event, goes_on, returned}
use rpc_framework.Net.Setup.{Kernel}
use rpc_framework.Rpc.Server.Running.{
  AllClosed, construct, nothing_yet, construct-AllClosed, goes, quit, start, init, quit_lem,
}

-- The port is taken.
abbrev taken : Kernel
taken = record {
  epoll_create1 = some 3;
  eventfd = some 4;
  socket = some 5;
  binds = false;
  listens = true;
}

construct-AllClosed_example : AllClosed (construct taken nothing_yet)
construct-AllClosed_example = construct-AllClosed taken

-- The loop is in the callbacks when it is asked to end.
abbrev before : List Event
before = goes_on ∷ goes_on ∷ []

abbrev after : List Event
after = goes_on ∷ goes_on ∷ goes_on ∷ goes_on ∷ []

quit_lem_example :
    ((goes after (quit false (goes before (start init)))).looping.place ≡ returned)
    × ((goes before (start init)).server.accepting ≡ true)
    × ((goes after (start (quit false init))).looping.place ≢ returned)
quit_lem_example = quit_lem before after after (omega arith) refl

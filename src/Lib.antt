-- ===== src/Lib.antt =====
-- A framework for remote procedure calls in C++: a server and a client that exchange protocol buffer
-- messages in length-prefixed frames over TCP, an epoll reactor under them, and a registry of service
-- endpoints with load balancers.
--
-- The parts and how they interact. A client's RpcChannel::CallMethod gives a call an id, keeps it in a
-- map of pending calls, and writes a frame with the request. TcpServer makes a TcpConnection for each
-- client and keeps the open ones under their ids. The server's TcpConnection reads bytes
-- into its input Buffer, Codec::on_message cuts whole frames off the buffer, RpcServer::on_frame
-- parses a request and hands a job to a ThreadPool, whose worker calls the method and sends the
-- response as a frame. The channel's reader thread cuts the responses out of its own buffer and
-- settles the calls. A server registers its address with ServiceRegistry, from which a client looks
-- it up and has a LoadBalancer select. EventLoop asks EpollPoller for the descriptors that are ready,
-- has their Channels dispatch the events to the callbacks of the connections, and then runs the functors
-- that other threads have queued for it. ServiceProxy owns an RpcChannel.
--
--   Net/Buffer.antt        include/net/buffer.h, src/net/buffer.cpp. The array with its two indices:
--                          grow, append, retrieve and the others under their names. Buffer/Growth,
--                          Contents, Queue, Queue/Bounded: the proofs; Buffer/ReadFd also models
--                          read_fd.
--   Net/Connection.antt    include/net/tcp_connection.h, src/net/tcp_connection.cpp: the state machine
--                          of a connection, its send path and its ways to end. Connection/Sending,
--                          Order: one step and runs of an open connection; Connection/Input: the
--                          input buffer. Connection/Closing: runs of all operations;
--                          Closing/Fate: what the server sees of one. Connection/Threads: the
--                          calls from other threads, their functors in the loop's queue, and the
--                          pointers that keep the object; Threads/Held, Lifetime, Owning, Dangling:
--                          when it outlives its functors; Threads/Flow, Passing, Arrival, Delivery: the
--                          bytes that other threads send.
--   Net/Channel.antt       include/net/channel.h, src/net/channel.cpp and update_channel,
--                          remove_channel, epoll_ctl of src/net/epoll_poller.cpp. Channel/Registration:
--                          the calls of epoll_ctl. Channel/Dispatch: the connection's callbacks.
--   Net/Poller.antt        include/net/epoll_poller.h, src/net/epoll_poller.cpp: poll with
--                          fill_active_channels, and the round of the loop that calls it.
--                          Poller/Growth: the list of events grows until every channel is reported.
--   Net/Setup.antt         the constructors and destructors of EpollPoller, EventLoop and TcpServer,
--                          with create_eventfd and create_listen_fd: the descriptors.
--   Net/TcpServer.antt     include/net/tcp_server.h, src/net/tcp_server.cpp: the map of connections.
--                          TcpServer/Listed, Destroyed: it against the connections themselves, and the
--                          destructor.
--   Net/EventLoop.antt     include/net/event_loop.h, src/net/event_loop.cpp: the queue of functors and
--                          the wake-ups. EventLoop/Functors: the rounds of the loop and the other
--                          threads, one event for each critical section and one for the wake-up
--                          behind it; Functors/Rounds: the proofs.
--                          EventLoop/Looping: loop and quit; Looping/Quitting: when the loop ends.
--   Net/ThreadPool.antt    include/net/thread_pool.h, src/net/thread_pool.cpp, one function for each
--                          critical section. ThreadPool/Tasks: the interleavings of the threads.
--   Codec.antt             include/codec, src/codec/codec.cpp: on_message with its loop, send_raw and
--                          send. Codec/Wire, Loop, Stream, Segments, Sound, Sending: the proofs.
--   Rpc/Messages.antt      proto/rpc.proto: the fields of the two messages.
--   Rpc/Controller.antt    include/rpc/rpc_controller.h: the error state of a call.
--   Rpc/Server.antt        include/rpc/rpc_server.h, src/rpc/rpc_server.cpp: register_service,
--                          on_frame and dispatch_request. Server/Answers: what a frame is answered.
--                          Server/Running: the server as it is made, started, ended and destroyed.
--   Rpc/Channel.antt       include/rpc/rpc_channel.h, src/rpc/rpc_channel.cpp: the pending calls, the
--                          stretches of code of the callers and of the reader threads. Channel/Calls:
--                          their interleavings as a sequence of steps; Registered, Once, Routing,
--                          Lost: the proofs; Channel/Reader models the loop of the reader thread.
--                          Reader/Rounds: its outer loop; Reader/Equivalence, Ends: the inner one
--                          against that of the codec, and its end.
--                          Channel/Socket: the descriptors of connect and disconnect;
--                          Socket/Descriptors: which of them are closed.
--   Rpc/Proxy.antt         include/rpc/service_proxy.h over Rpc/Channel/Socket: construction,
--                          destruction and moves. Proxy/Ownership: what they leave open.
--   Rpc/EndToEnd.antt      a call through both sides.
--   Rpc/Session.antt       one connection of a server, from the bytes that arrive to those that leave:
--                          Net/Connection, Codec, Rpc/Server, the workers and the loop together.
--                          Session/Replies, Conserved, Ordered, Arrived, Served: the proofs;
--                          Session/Returned: with the client that reads the responses.
--   Registry/LoadBalancer.antt
--                          include/registry/load_balancer.h, src/registry/load_balancer.cpp: the four
--                          strategies. LoadBalancer/Rotation, Shares, Ring: one for each of three.
--   Registry/ServiceRegistry.antt
--                          include/registry/service_registry.h, src/registry/service_registry.cpp:
--                          registration, lookup and the cache. ServiceRegistry/Addresses, Registering,
--                          Discovery, Watched: the proofs. ServiceRegistry/Remote: refresh over the
--                          ZooKeeper library.
--   Registry/ZooKeeper.antt
--                          the stub of include/registry/zookeeper_client.h,
--                          src/registry/zookeeper_client.cpp that is compiled without the ZooKeeper
--                          library. ZooKeeper/Paths, Creating, Listing: the proofs.
--                          ZooKeeper/Remote: the half that is compiled with the library;
--                          Remote/Reading: what it reads back, against the stub.
--   Base                   lists, words, integers, decimal text (std::to_string, std::stoi), slices
--                          of arrays, maps as association lists.
--   Tests                  runs at concrete inputs.
--
-- Numbers. size_t is 64 bits wide and its sums and differences wrap, which is written out; request ids
-- and lengths on the wire are 32 bits wide. An array holds at most 2 ^ 63 - 1 bytes, the limit of
-- std::vector<char>; what would go beyond throws in the source and is excluded by a bound where a
-- theorem needs one. A byte is a number below 256.
--
-- Loops. Those over a buffer run on fuel, one round more than there are readable bytes: every round
-- that goes on takes a header of eight bytes or more, so that the fuel is never used up.
-- The other loops are structural.
--
-- What is given from outside. The protocol buffer serializer and parser, the methods of the services,
-- and what a random engine draws are arguments. The kernel is not modelled: what readv, write, accept4,
-- epoll_wait and the calls that make, bind and connect a socket return are arguments too, and the calls
-- of epoll_ctl are recorded. The calls of the ZooKeeper library are the fields of the interface
-- ZooKeeper/Remote.Library, and what its documentation says of them are the fields of
-- Remote/Reading.Documented.
-- std::to_string and std::stoi are written out in Base/Decimal as the standard describes them, for
-- numbers that fit.
--
-- Callbacks of the application are recorded in the order in which they run. That they call back into
-- the connection that runs them is not modelled. The watcher of ServiceRegistry runs in the critical
-- section of the stub's create; a lock of a mutex that the thread holds never returns.
--
-- Not modelled: the pool and the loops of other threads in src/net/tcp_server.cpp, which nothing uses,
-- the threads of the operating system beyond the order of their steps, and the programs under example.
pub mod Base
pub mod Net
pub mod Codec
pub mod Rpc
pub mod Registry
mod Tests

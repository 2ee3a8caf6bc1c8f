-- ===== src/Rpc/Session/Served.antt =====
-- What one connection of a server comes to, from bytes to bytes (src/rpc/rpc_server.cpp,
-- src/codec/codec.cpp, src/net/tcp_connection.cpp).
use mathlib.Core.List.{flatten}
use rpc_framework.Base.{
  ◌+◌, ◌^◌, ◌≤◌, ◌≡◌, refl, ap, ap₂, sym, ◌∙◌, subst, Bool, List, [], ◌++◌, Byte, length, map,
  arith,
}
use rpc_framework.Net.Buffer
use rpc_framework.Net.Buffer.{IsValid, contents}
use rpc_framework.Net.Buffer.Contents.{init_lem}
use rpc_framework.Net.Connection
use rpc_framework.Net.Connection.{connection_established}
use rpc_framework.Net.Connection.Sending.{passed_on}
use rpc_framework.Codec.Sound.{delivered, delivered-map}
use rpc_framework.Codec.Segments.{receive, receive-stream}
use rpc_framework.Codec.Sending.{nothing-IsPartial}
use rpc_framework.Codec.Wire.{stream, Fits, IsPartial}
use rpc_framework.Rpc.Messages.{RpcRequest, RpcResponse, Serializer}
use rpc_framework.Rpc.Server.{Services, dispatch_request}
use rpc_framework.Rpc.Session
use rpc_framework.Rpc.Session.{Session, Event, codec, run}
use rpc_framework.Rpc.Session.Replies.{count, answers}
use rpc_framework.Rpc.Session.Conserved.{IsConserved, run-IsConserved}
use rpc_framework.Rpc.Session.Ordered.{StaysOpen, IsOrdered, outgoing, run-IsOrdered}
use rpc_framework.Rpc.Session.Arrived.{chunks, run-Follows}

module _ {M : Type 0} (requests : Serializer RpcRequest) (responses : Serializer RpcResponse)
    (services : Services M) where
  init-IsConserved :
      (f : RpcResponse → Bool) → IsConserved requests responses services f Session.init
  unfolding Session.init count
  init-IsConserved f = omega arith

  init-IsOrdered : IsOrdered requests responses services Session.init
  unfolding Session.init connection_established Connection.init
  init-IsOrdered =
      let (v, empty, start) = init_lem Buffer.initial_size (omega arith) in
      record { is_open = record { valid = v; open_state = refl; idle = λ h. empty }; order = empty }

  init-frames :
      let s : Session M = Session.init in
      (s.frames ≡ []) × (s.conn.input_buf ≡ Buffer.init Buffer.initial_size)
  unfolding Session.init connection_established Connection.init
  init-frames = (refl, refl)

  -- Whatever the pieces are in which a stream of frames arrives, however many workers run and in
  -- which order they are done: `on_frame` has been called with the bodies, each once and in order. As
  -- many responses that pass a test are sent, queued in the loop or with the workers as the bodies
  -- call for, for every test: none is lost, repeated or made up. And the bytes on the wire with those
  -- that wait are the frames of the responses that have been sent, in order. As long as nothing
  -- closes the connection and fewer than 2 ^ 62 bytes have arrived.
  pub session_serves :
      (es : List Event) (bodies : List (List Byte)) {rest : List Byte}
      → StaysOpen requests responses services es Session.init
      → Fits bodies
      → IsPartial rest
      → flatten (chunks es) ≡ stream bodies ++ rest
      → length (flatten (chunks es)) ≤ 2 ^ 62
      → let s = run requests responses services es Session.init in
        (s.frames ≡ bodies)
        × ((f : RpcResponse → Bool)
            → count f (answers requests services bodies)
              ≡ count f s.replied + (count f s.queued + count f (map dispatch_request s.jobs)))
        × (passed_on s.conn ≡ outgoing requests responses services s.replied)
  session_serves es bodies {rest} w fits p e small =
      let (v, empty, start) = init_lem Buffer.initial_size (omega arith) in
      let (acts, left) =
        receive-stream codec (chunks es) bodies v (subst IsPartial (sym empty) nothing-IsPartial)
          (omega arith) fits p (ap (λ x. x ++ flatten (chunks es)) empty ∙ e) in
      let got = run-Follows requests responses services es Session.init w in
      let same =
        got.0
        ∙ ap₂ (λ fs b. fs ++ delivered (receive codec (chunks es) b).0) init-frames.0 init-frames.1
        ∙ ap delivered acts
        ∙ delivered-map bodies in
      (
        same,
        λ f.
            ap (λ fs. count f (answers requests services fs)) (sym same)
            ∙ run-IsConserved requests responses services f es Session.init (init-IsConserved f),
        (run-IsOrdered requests responses services es Session.init init-IsOrdered w).order,
      )

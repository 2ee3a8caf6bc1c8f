-- ===== src/Rpc/Session/Returned.antt =====
-- From the requests on the wire to the calls of a client: a session of the server
-- (src/rpc/rpc_server.cpp) and the reader thread of a channel (src/rpc/rpc_channel.cpp).
use mathlib.Core.List.{foldl, flatten}
use rpc_framework.Base.{
  ◌^◌, ◌≤◌, ◌≡◌, refl, ap, ap₂, sym, ◌∙◌, subst, Bool, true, List, [], ◌∷◌, ◌++◌, some, none, Byte,
  length, map, if◌then◌else◌, arith, append-nil,
}
use rpc_framework.Net.Buffer
use rpc_framework.Net.Buffer.{contents, retrieve_all_as_string, retrieve_as_string}
use rpc_framework.Net.Buffer.Contents.{init_lem}
use rpc_framework.Codec
use rpc_framework.Codec.{max_body_size, send_raw}
use rpc_framework.Codec.Sending.{nothing-IsPartial, send_raw-encode}
use rpc_framework.Codec.Wire.{encode, stream, Fits, IsPartial}
use rpc_framework.Rpc.Messages.{RpcRequest, RpcResponse, Serializer, RoundTrips}
use rpc_framework.Rpc.Server.{Services, dispatch_request}
use rpc_framework.Rpc.Channel.{RpcChannel, on_response}
use rpc_framework.Rpc.Channel.Reader.{receive_frames}
use rpc_framework.Rpc.Channel.Reader.Rounds.{
  read_loop, read_loop-stream, chunk, read_of, on_message-parsed,
}
use rpc_framework.Rpc.Session
use rpc_framework.Rpc.Session.{Session, Event, run, serialized}
use rpc_framework.Rpc.Session.Replies.{count, count-nil, answers}
use rpc_framework.Rpc.Session.Ordered.{StaysOpen, outgoing, frame_bytes}
use rpc_framework.Rpc.Session.Arrived.{chunks}
use rpc_framework.Rpc.Session.Served.{session_serves}

-- Responses that protobuf gives back on the other side, and that are not too long.
abbrev pub Transmits : Serializer RpcResponse → List RpcResponse → Type 0
Transmits p [] = Unit {0}
Transmits p (r ∷ rs) =
    (RoundTrips p r × (length (p.serialize r).1 ≤ max_body_size)) × Transmits p rs

abbrev body_of : Serializer RpcResponse → RpcResponse → List Byte
body_of p r = (p.serialize r).1

Fits-Transmits :
    (p : Serializer RpcResponse) (rs : List RpcResponse)
    → Transmits p rs
    → Fits (map (body_of p) rs)
Fits-Transmits p [] t = tt
Fits-Transmits p (r ∷ rs) ((q, fits), t) = (fits, Fits-Transmits p rs t)

-- The channel after some responses.
abbrev pub receive_responses : RpcChannel → List RpcResponse → RpcChannel
receive_responses = foldl λ s r. on_response r s

receive_frames-Transmits :
    (p : Serializer RpcResponse) (rs : List RpcResponse) (s : RpcChannel)
    → Transmits p rs
    → receive_frames p s (map (body_of p) rs) ≡ receive_responses s rs
receive_frames-Transmits p [] s t = refl
receive_frames-Transmits p (r ∷ rs) s ((q, fits), t) =
    ap (λ z. receive_frames p z (map (body_of p) rs)) (on_message-parsed p (body_of p r) r s q.1)
    ∙ receive_frames-Transmits p rs (on_response r s) t

module _ {M : Type 0} (requests : Serializer RpcRequest) (responses : Serializer RpcResponse)
    (services : Services M) where
  frame_bytes-encode :
      (r : RpcResponse)
      → (responses.serialize r).0 ≡ true
      → length (responses.serialize r).1 ≤ max_body_size
      → frame_bytes (Codec.send (serialized requests responses services) r)
        ≡ encode (body_of responses r)
  unfolding Codec.send retrieve_all_as_string retrieve_as_string
  frame_bytes-encode r q fits =
      ap
        (λ (o : Bool).
          frame_bytes (Codec.send (λ m. if o then some (responses.serialize m).1 else none) r))
        q
      ∙ send_raw-encode (body_of responses r) (omega (arith, fits))

  outgoing-stream :
      (rs : List RpcResponse)
      → Transmits responses rs
      → outgoing requests responses services rs ≡ stream (map (body_of responses) rs)
  outgoing-stream [] t = refl
  outgoing-stream (r ∷ rs) ((q, fits), t) =
      ap₂ ◌++◌ (frame_bytes-encode r q.0 fits) (outgoing-stream rs t)

  -- When all work of a session is done, so that no worker has a task, no functor waits and every byte
  -- has been written, a client that reads what the server has written, cut in any way, settles its
  -- calls with exactly the responses that the requests call for, each once, in some order. As long as
  -- nothing closes the connection and fewer than 2 ^ 62 bytes go each way, and for responses that
  -- protobuf gives back on the other side and that are not too long.
  pub client_receives :
      (es : List Event) (bodies : List (List Byte)) {rest : List Byte}
      (cs : List (Byte × List Byte)) (channel : RpcChannel)
      → StaysOpen requests responses services es Session.init
      → Fits bodies
      → IsPartial rest
      → flatten (chunks es) ≡ stream bodies ++ rest
      → length (flatten (chunks es)) ≤ 2 ^ 62
      → let s = run requests responses services es Session.init in
        s.jobs ≡ []
        → s.queued ≡ []
        → contents s.conn.output_buf ≡ []
        → Transmits responses s.replied
        → flatten (map chunk cs) ≡ s.conn.wire
        → length (flatten (map chunk cs)) ≤ 2 ^ 62
        → channel.connected ≡ true
        → ((read_loop responses (map read_of cs) (Buffer.init Buffer.initial_size) channel).1
            ≡ receive_responses channel s.replied)
          × ((f : RpcResponse → Bool)
              → count f (answers requests services bodies) ≡ count f s.replied)
  client_receives es bodies {rest} cs channel w fits p e small done idle written t read few on =
      let s = run requests responses services es Session.init in
      let (frames, counted, order) =
        session_serves requests responses services es bodies w fits p e small in
      let (v, empty, start) = init_lem Buffer.initial_size (omega arith) in
      let sent : s.conn.wire ≡ stream (map (body_of responses) s.replied) =
        sym (ap (λ z. s.conn.wire ++ z) written ∙ append-nil s.conn.wire)
        ∙ order
        ∙ outgoing-stream s.replied t in
      let (got, left) =
        read_loop-stream responses cs channel (map (body_of responses) s.replied) {rest = []} on v
          (subst IsPartial (sym empty) nothing-IsPartial) (omega arith)
          (Fits-Transmits responses s.replied t) nothing-IsPartial
          (ap (λ z. z ++ flatten (map chunk cs)) empty ∙ read ∙ sent ∙ sym (append-nil _)) in
      (
        got ∙ receive_frames-Transmits responses s.replied channel t,
        λ f.
            counted f
            ∙ omega (
              arith,
              ap (count f) idle,
              ap (λ z. count f (map dispatch_request z)) done,
              count-nil f,
            ),
      )

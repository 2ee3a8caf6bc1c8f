-- ===== src/Rpc/Session/Ordered.antt =====
-- The bytes of the responses of a session on their way to the peer (src/rpc/rpc_server.cpp,
-- src/codec/codec.cpp and src/net/tcp_connection.cpp).
use rpc_framework.Base.{
  ℕ, suc, ◌+◌, ◌≤◌, ◌≡◌, refl, ap, sym, ◌∙◌, List, [], ◌∷◌, ◌++◌, Option, none, some, Byte,
  get_elem?, length, max_size, append_assoc, append-nil,
}
use rpc_framework.Net.Buffer.{Buffer, readable, retrieve_all_as_string}
use rpc_framework.Net.Buffer.ReadFd.{ReadResult, bytes, failed, read_fd, store_read}
use rpc_framework.Net.Connection.{Connection, WriteResult, message, call, handle_read}
use rpc_framework.Net.Connection.Sending.{IsOpen, passed_on, Took, send-Sent, handle_write-Sent}
use rpc_framework.Codec
use rpc_framework.Codec.{Action, deliver, report, force_close}
use rpc_framework.Rpc.Messages.{RpcRequest, RpcResponse, Serializer}
use rpc_framework.Rpc.Server.{Services, Job, FrameResult, dropped, reply, submit, on_frame}
use rpc_framework.Rpc.Session.{
  Session, Event, arrives, works, runs_functor, writable, codec, serialized, send_buffer, respond,
  on_result, perform, perform_all, read_result, on_job, run_front, step, run,
}

-- A read of at least one byte leaves the rest of an open connection as it is.
pub handle_read_bytes :
    (x : Byte) (xs : List Byte) (c : Connection)
    → handle_read (λ n. bytes (x ∷ xs)) c
      ≡ call message (record c { input_buf = store_read (x ∷ xs) c.input_buf })
unfolding handle_read read_fd
handle_read_bytes x xs c = refl

-- The bytes that are handed to the connection.
abbrev pub frame_bytes : Option Buffer → List Byte
frame_bytes none = []
frame_bytes (some b) = (retrieve_all_as_string b).0

module _ {M : Type 0} (requests : Serializer RpcRequest) (responses : Serializer RpcResponse)
    (services : Services M) where
  abbrev pub outgoing : List RpcResponse → List Byte
  outgoing [] = []
  outgoing (resp ∷ resps) =
      frame_bytes (Codec.send (serialized {M = M} requests responses services) resp)
      ++ outgoing resps

  abbrev sent_bytes : RpcResponse → List Byte
  sent_bytes resp = frame_bytes (Codec.send (serialized requests responses services) resp)

  -- The socket takes no more than it is given and does not fail, and the bytes fit the buffer.
  abbrev pub Writes : List Byte → WriteResult → Connection → Type 0
  Writes xs r c = Took r (length xs) × (c.output_buf.write_idx + length xs ≤ max_size)

  abbrev pub Responds : RpcResponse → WriteResult → Session M → Type 0
  Responds resp r s = Writes (sent_bytes resp) r s.conn

  abbrev pub Results : FrameResult M → WriteResult → Session M → Type 0
  Results dropped r s = Unit {0}
  Results (reply resp) r s = Responds resp r s
  Results (submit job) r s = Unit {0}

  -- The stream is not refused.
  abbrev pub Performs : Action → WriteResult → Session M → Type 0
  Performs (deliver frame) r s =
      Results (on_frame requests services frame) r (record s { frames = s.frames ++ (frame ∷ []) })
  Performs (report why) r s = Unit {0}
  Performs force_close r s = ⊥

  abbrev pub PerformsAll : List Action → (ℕ → WriteResult) → Session M → Type 0
  PerformsAll [] ws s = Unit {0}
  PerformsAll (a ∷ actions) ws s =
      Performs a (ws 0) s
      × PerformsAll actions (λ n. ws (suc n)) (perform requests responses services a (ws 0) s)

  -- The peer does not end the stream, and the read does not fail.
  abbrev pub Reads : ReadResult → Connection → (ℕ → WriteResult) → Session M → Type 0
  Reads (bytes []) c ws s = ⊥
  Reads (bytes (x ∷ xs)) c ws s =
      let run = Codec.on_message codec c.input_buf in
      PerformsAll run.actions ws (record s { conn = record c { input_buf = run.buffer } })
  Reads (failed e) c ws s = ⊥

  abbrev pub RunsFront : List RpcResponse → WriteResult → Session M → Type 0
  RunsFront [] r s = Unit {0}
  RunsFront (resp ∷ rest) r s = Responds resp r (record s { queued = rest })

  abbrev pub Steps : Event → Session M → Type 0
  Steps (arrives r ws) s = Reads r (handle_read (λ n. r) s.conn) ws s
  Steps (works k) s = Unit {0}
  Steps (runs_functor r) s = RunsFront s.queued r s
  Steps (writable r) s = Took r (readable s.conn.output_buf)

  -- Nothing closes the connection while the events happen.
  abbrev pub StaysOpen : List Event → Session M → Type 0
  StaysOpen [] s = Unit {0}
  StaysOpen (e ∷ es) s = Steps e s × StaysOpen es (step requests responses services e s)

  -- The connection is open, and the bytes on the wire and those that wait are the frames of the
  -- responses that have been sent, in order.
  pub record IsOrdered (s : Session M) : Type 0 where
    pub is_open : IsOpen s.conn
    pub order : passed_on s.conn ≡ outgoing s.replied

  outgoing-append :
      (xs : List RpcResponse) (resp : RpcResponse)
      → outgoing (xs ++ (resp ∷ [])) ≡ outgoing xs ++ sent_bytes resp
  outgoing-append [] resp = append-nil (sent_bytes resp)
  outgoing-append (x ∷ xs) resp =
      ap (λ t. sent_bytes x ++ t) (outgoing-append xs resp)
      ∙ sym (append_assoc (sent_bytes x) (outgoing xs) (sent_bytes resp))

  send_buffer-Sent :
      (b : Option Buffer) (r : WriteResult) (c : Connection)
      → IsOpen c
      → Writes (frame_bytes b) r c
      → IsOpen (send_buffer requests responses services b r c)
        × (passed_on (send_buffer requests responses services b r c) ≡ passed_on c ++ frame_bytes b)
  send_buffer-Sent none r c o w = (o, sym (append-nil (passed_on c)))
  send_buffer-Sent (some b) r c o (took, small) =
      let t = send-Sent (frame_bytes (some b)) r o took small in (t.is_open, t.order)

  respond-IsOrdered :
      (resp : RpcResponse) (r : WriteResult) (s : Session M)
      → IsOrdered s
      → Responds resp r s
      → IsOrdered (respond requests responses services resp r s)
  respond-IsOrdered resp r s p w =
      let (o, e) =
        send_buffer-Sent (Codec.send (serialized requests responses services) resp) r s.conn
          p.is_open w in
      record {
        is_open = o;
        order = e ∙ ap (λ t. t ++ sent_bytes resp) p.order ∙ sym (outgoing-append s.replied resp);
      }

  on_result-IsOrdered :
      (x : FrameResult M) (r : WriteResult) (s : Session M)
      → IsOrdered s
      → Results x r s
      → IsOrdered (on_result requests responses services x r s)
  on_result-IsOrdered dropped r s p w = p
  on_result-IsOrdered (reply resp) r s p w = respond-IsOrdered resp r s p w
  on_result-IsOrdered (submit job) r s p w = record { is_open = p.is_open; order = p.order }

  perform-IsOrdered :
      (a : Action) (r : WriteResult) (s : Session M)
      → IsOrdered s
      → Performs a r s
      → IsOrdered (perform requests responses services a r s)
  perform-IsOrdered (deliver frame) r s p w =
      on_result-IsOrdered (on_frame requests services frame) r
        (record s { frames = s.frames ++ (frame ∷ []) })
        (record { is_open = p.is_open; order = p.order }) w
  perform-IsOrdered (report why) r s p w = p
  perform-IsOrdered force_close r s p w = absurd w

  perform_all-IsOrdered :
      (actions : List Action) (ws : ℕ → WriteResult) (s : Session M)
      → IsOrdered s
      → PerformsAll actions ws s
      → IsOrdered (perform_all requests responses services actions ws s)
  perform_all-IsOrdered [] ws s p w = p
  perform_all-IsOrdered (a ∷ actions) ws s p (w, rest) =
      perform_all-IsOrdered actions (λ n. ws (suc n)) _ (perform-IsOrdered a (ws 0) s p w) rest

  arrives-IsOrdered :
      (r : ReadResult) (ws : ℕ → WriteResult) (s : Session M)
      → IsOrdered s
      → Reads r (handle_read (λ n. r) s.conn) ws s
      → IsOrdered (read_result requests responses services r (handle_read (λ n. r) s.conn) ws s)
  arrives-IsOrdered (bytes []) ws s p w = absurd w
  arrives-IsOrdered (failed e) ws s p w = absurd w
  arrives-IsOrdered (bytes (x ∷ xs)) ws s p w =
      let c = call message (record s.conn { input_buf = store_read (x ∷ xs) s.conn.input_buf }) in
      let run = Codec.on_message codec c.input_buf in
      rw (handle_read_bytes x xs s.conn) (
        perform_all-IsOrdered run.actions ws
          (record s { conn = record c { input_buf = run.buffer } })
          (record {
            is_open = record {
              valid = p.is_open.valid;
              open_state = p.is_open.open_state;
              idle = p.is_open.idle;
            };
            order = p.order;
          })
          (rw (handle_read_bytes x xs s.conn) at w))

  run_front-IsOrdered :
      (q : List RpcResponse) (r : WriteResult) (s : Session M)
      → IsOrdered s
      → RunsFront q r s
      → IsOrdered (run_front requests responses services q r s)
  run_front-IsOrdered [] r s p w = p
  run_front-IsOrdered (resp ∷ rest) r s p w =
      respond-IsOrdered resp r (record s { queued = rest })
        (record { is_open = p.is_open; order = p.order }) w

  on_job-IsOrdered :
      (k : ℕ) (o : Option (Job M)) (s : Session M)
      → IsOrdered s
      → IsOrdered (on_job requests responses services k o s)
  on_job-IsOrdered k none s p = p
  on_job-IsOrdered k (some job) s p = record { is_open = p.is_open; order = p.order }

  step-IsOrdered :
      (e : Event) (s : Session M)
      → IsOrdered s
      → Steps e s
      → IsOrdered (step requests responses services e s)
  unfolding step
  step-IsOrdered (arrives r ws) s p w = arrives-IsOrdered r ws s p w
  step-IsOrdered (works k) s p w = on_job-IsOrdered k (get_elem? s.jobs k) s p
  step-IsOrdered (runs_functor r) s p w = run_front-IsOrdered s.queued r s p w
  step-IsOrdered (writable r) s p w =
      let t = handle_write-Sent r p.is_open w in
      record { is_open = t.is_open; order = t.order ∙ append-nil (passed_on s.conn) ∙ p.order }

  pub run-IsOrdered :
      (es : List Event) (s : Session M)
      → IsOrdered s
      → StaysOpen es s
      → IsOrdered (run requests responses services es s)
  run-IsOrdered [] s p w = p
  run-IsOrdered (e ∷ es) s p (w, rest) = run-IsOrdered es _ (step-IsOrdered e s p w) rest

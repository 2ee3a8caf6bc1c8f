-- ===== src/Rpc/Session/Arrived.antt =====
-- The frames that `RpcServer::on_frame` is called with (src/rpc/rpc_server.cpp, src/codec/codec.cpp).
use rpc_framework.Base.{
  ℕ, suc, ◌≡◌, refl, ap, ap₂, sym, ◌∙◌, List, [], ◌∷◌, ◌++◌, Option, none, some, Byte, get_elem?,
  append_assoc, append-nil,
}
use rpc_framework.Net.Buffer.{Buffer, retrieve_all_as_string}
use rpc_framework.Net.Buffer.ReadFd.{ReadResult, bytes, failed, store_read}
use rpc_framework.Net.Connection.{Connection, WriteResult, message, call, handle_read}
use rpc_framework.Net.Connection.Input.{send-input_buf, handle_write-input_buf}
use rpc_framework.Codec
use rpc_framework.Codec.{Action, deliver, report, force_close}
use rpc_framework.Codec.Sound.{delivered}
use rpc_framework.Codec.Segments.{receive}
use rpc_framework.Rpc.Messages.{RpcRequest, RpcResponse, Serializer}
use rpc_framework.Rpc.Server.{Services, Job, FrameResult, dropped, reply, submit, on_frame}
use rpc_framework.Rpc.Session.{
  Session, Event, arrives, works, runs_functor, writable, codec, serialized, send_buffer, respond,
  on_result, perform_all, on_job, run_front, step, run,
}
use rpc_framework.Rpc.Session.Ordered.{handle_read_bytes, PerformsAll, Reads, StaysOpen}

-- What the reads return.
abbrev pub chunk : ReadResult → List (List Byte)
chunk (bytes xs) = xs ∷ []
chunk (failed e) = []

abbrev pub chunks : List Event → List (List Byte)
chunks [] = []
chunks (arrives r ws ∷ es) = chunk r ++ chunks es
chunks (works k ∷ es) = chunks es
chunks (runs_functor r ∷ es) = chunks es
chunks (writable r ∷ es) = chunks es

delivered-append : (xs ys : List Action) → delivered (xs ++ ys) ≡ delivered xs ++ delivered ys
delivered-append [] ys = refl
delivered-append (deliver body ∷ xs) ys = ap (◌∷◌ body) (delivered-append xs ys)
delivered-append (report r ∷ xs) ys = delivered-append xs ys
delivered-append (force_close ∷ xs) ys = delivered-append xs ys

module _ {M : Type 0} (requests : Serializer RpcRequest) (responses : Serializer RpcResponse)
    (services : Services M) where
  -- The input buffer is kept, and some frames are added.
  record Adds (fs : List (List Byte)) (s t : Session M) : Type 0 where
    pub same_input : t.conn.input_buf ≡ s.conn.input_buf
    pub added : t.frames ≡ s.frames ++ fs

  send_buffer-input_buf :
      (b : Option Buffer) (r : WriteResult) (c : Connection)
      → (send_buffer requests responses services b r c).input_buf ≡ c.input_buf
  send_buffer-input_buf none r c = refl
  send_buffer-input_buf (some b) r c = send-input_buf (retrieve_all_as_string b).0 r c

  respond-Adds :
      (resp : RpcResponse) (r : WriteResult) (s : Session M)
      → Adds [] s (respond requests responses services resp r s)
  respond-Adds resp r s = record {
    same_input =
        send_buffer-input_buf (Codec.send (serialized requests responses services) resp) r s.conn;
    added = sym (append-nil s.frames);
  }

  on_result-Adds :
      (x : FrameResult M) (r : WriteResult) (s : Session M)
      → Adds [] s (on_result requests responses services x r s)
  on_result-Adds dropped r s = record { same_input = refl; added = sym (append-nil s.frames) }
  on_result-Adds (reply resp) r s = respond-Adds resp r s
  on_result-Adds (submit job) r s = record { same_input = refl; added = sym (append-nil s.frames) }

  perform_all-Adds :
      (actions : List Action) (ws : ℕ → WriteResult) (s : Session M)
      → PerformsAll requests responses services actions ws s
      → Adds (delivered actions) s (perform_all requests responses services actions ws s)
  perform_all-Adds [] ws s w = record { same_input = refl; added = sym (append-nil s.frames) }
  perform_all-Adds (force_close ∷ actions) ws s (w, rest) = absurd w
  perform_all-Adds (report why ∷ actions) ws s (w, rest) =
      perform_all-Adds actions (λ n. ws (suc n)) s rest
  perform_all-Adds (deliver frame ∷ actions) ws s (w, rest) =
      let t : Session M = record s { frames = s.frames ++ (frame ∷ []) } in
      let a = on_result-Adds (on_frame requests services frame) (ws 0) t in
      let b = perform_all-Adds actions (λ n. ws (suc n)) _ rest in
      record {
        same_input = b.same_input ∙ a.same_input;
        added =
            b.added
            ∙ ap (λ fs. fs ++ delivered actions) (a.added ∙ append-nil t.frames)
            ∙ append_assoc s.frames (frame ∷ []) (delivered actions);
      }

  abbrev Follows : List (List Byte) → Session M → Session M → Type 0
  Follows cs s t =
      (t.frames ≡ s.frames ++ delivered (receive codec cs s.conn.input_buf).0)
      × (t.conn.input_buf ≡ (receive codec cs s.conn.input_buf).1)

  arrives-Follows :
      (x : Byte) (xs : List Byte) (ws : ℕ → WriteResult) (s : Session M)
      → Reads requests responses services
          (bytes (x ∷ xs))
          (handle_read (λ n. bytes (x ∷ xs)) s.conn)
          ws
          s
      → let t = step requests responses services (arrives (bytes (x ∷ xs)) ws) s in
        let r = Codec.on_message codec (store_read (x ∷ xs) s.conn.input_buf) in
        (t.frames ≡ s.frames ++ delivered r.actions) × (t.conn.input_buf ≡ r.buffer)
  unfolding step
  arrives-Follows x xs ws s w =
      let c = call message (record s.conn { input_buf = store_read (x ∷ xs) s.conn.input_buf }) in
      let r = Codec.on_message codec c.input_buf in
      rw (handle_read_bytes x xs s.conn) (
        let a =
          perform_all-Adds r.actions ws (record s { conn = record c { input_buf = r.buffer } })
            (rw (handle_read_bytes x xs s.conn) at w) in
        (a.added, a.same_input))

  abbrev Keeps : Session M → Session M → Type 0
  Keeps s t = (t.frames ≡ s.frames) × (t.conn.input_buf ≡ s.conn.input_buf)

  on_job-Keeps :
      (k : ℕ) (o : Option (Job M)) (s : Session M)
      → Keeps s (on_job requests responses services k o s)
  on_job-Keeps k none s = (refl, refl)
  on_job-Keeps k (some job) s = (refl, refl)

  run_front-Keeps :
      (q : List RpcResponse) (r : WriteResult) (s : Session M)
      → Keeps s (run_front requests responses services q r s)
  run_front-Keeps [] r s = (refl, refl)
  run_front-Keeps (resp ∷ q) r s =
      (refl, (respond-Adds resp r (record s { queued = q })).same_input)

  Follows-after :
      (cs : List (List Byte)) (s t u : Session M) → Keeps s t → Follows cs t u → Follows cs s u
  Follows-after cs s t u (f, i) (g, j) = (rw (sym f, sym i) g, rw (sym i) j)

  -- The reads of a session and the codec's calls are those of `receive`.
  pub run-Follows :
      (es : List Event) (s : Session M)
      → StaysOpen requests responses services es s
      → Follows (chunks es) s (run requests responses services es s)
  unfolding receive step
  run-Follows [] s w = (sym (append-nil s.frames), refl)
  run-Follows (arrives (bytes []) ws ∷ es) s (w, rest) = absurd w
  run-Follows (arrives (failed e) ws ∷ es) s (w, rest) = absurd w
  run-Follows (arrives (bytes (x ∷ xs)) ws ∷ es) s (w, rest) =
      let (f, i) = arrives-Follows x xs ws s w in
      let r = Codec.on_message codec (store_read (x ∷ xs) s.conn.input_buf) in
      let (g, j) =
        run-Follows es (step requests responses services (arrives (bytes (x ∷ xs)) ws) s) rest in
      (
        g
            ∙ ap₂ (λ fs b. fs ++ delivered (receive codec (chunks es) b).0) f i
            ∙ append_assoc s.frames (delivered r.actions) _
            ∙ ap (λ fs. s.frames ++ fs) (sym (delivered-append r.actions _)),
        j ∙ ap (λ b. (receive codec (chunks es) b).1) i,
      )
  run-Follows (works k ∷ es) s (w, rest) =
      let t = step requests responses services (works k) s in
      Follows-after (chunks es) s t (run requests responses services es t)
        (on_job-Keeps k (get_elem? s.jobs k) s) (run-Follows es t rest)
  run-Follows (runs_functor r ∷ es) s (w, rest) =
      let t = step requests responses services (runs_functor r) s in
      Follows-after (chunks es) s t (run requests responses services es t)
        (run_front-Keeps s.queued r s) (run-Follows es t rest)
  run-Follows (writable r ∷ es) s (w, rest) =
      let t = step requests responses services (writable r) s in
      Follows-after (chunks es) s t (run requests responses services es t)
        (refl, handle_write-input_buf r s.conn) (run-Follows es t rest)

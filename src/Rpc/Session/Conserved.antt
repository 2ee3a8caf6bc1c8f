-- ===== src/Rpc/Session/Conserved.antt =====
-- No response of a session is lost, repeated or made up (src/rpc/rpc_server.cpp with the loop and the
-- workers).
use rpc_framework.Base.{
  ℕ, ◌+◌, ◌≡◌, refl, ap, ◌∙◌, Bool, List, [], ◌∷◌, ◌++◌, Option, none, some, map, get_elem?, arith,
  map, append-nil,
}
use mathlib.Core.List.{map-append}
use rpc_framework.Net.Buffer.ReadFd.{ReadResult, bytes, failed}
use rpc_framework.Net.Connection.{Connection, WriteResult}
use rpc_framework.Codec
use rpc_framework.Codec.{Action, deliver, report, force_close}
use rpc_framework.Rpc.Messages.{RpcRequest, RpcResponse, Serializer}
use rpc_framework.Rpc.Server.{
  Services, Job, FrameResult, dropped, reply, submit, on_frame, dispatch_request, serve, answer,
}
use rpc_framework.Rpc.Session.{
  Session, Event, arrives, works, runs_functor, writable, codec, on_result, perform, perform_all,
  read_result, on_job, run_front, step, run,
}
use rpc_framework.Rpc.Session.Replies.{
  count, count-append, count-remove_at, answers, answers-append, listed,
}

module _ {M : Type 0} (requests : Serializer RpcRequest) (responses : Serializer RpcResponse)
    (services : Services M) (f : RpcResponse → Bool) where
  -- How many responses that pass the test are on their way.
  abbrev pub under_way : Session M → ℕ
  under_way s = count f s.replied + (count f s.queued + count f (map dispatch_request s.jobs))

  abbrev pub IsConserved : Session M → Type 0
  IsConserved s = count f (answers requests services s.frames) ≡ under_way s

  -- What `on_frame` makes of a frame adds the response that the frame calls for.
  on_result-under_way :
      (x : FrameResult M) (r : WriteResult) (s : Session M)
      → under_way (on_result requests responses services x r s)
        ≡ under_way s + count f (listed (answer x))
  unfolding answer count
  on_result-under_way dropped r s = omega arith
  on_result-under_way (reply resp) r s = omega (arith, count-append f s.replied (resp ∷ []))
  on_result-under_way (submit job) r s =
      rw (map-append dispatch_request s.jobs (job ∷ []))
        (omega (arith, count-append f (map dispatch_request s.jobs) (dispatch_request job ∷ [])))

  on_result-frames :
      (x : FrameResult M) (r : WriteResult) (s : Session M)
      → (on_result requests responses services x r s).frames ≡ s.frames
  on_result-frames dropped r s = refl
  on_result-frames (reply resp) r s = refl
  on_result-frames (submit job) r s = refl

  perform-IsConserved :
      (a : Action) (r : WriteResult) (s : Session M)
      → IsConserved s
      → IsConserved (perform requests responses services a r s)
  unfolding serve
  perform-IsConserved (report why) r s h = h
  perform-IsConserved force_close r s h = h
  perform-IsConserved (deliver frame) r s h =
      let t : Session M = record s { frames = s.frames ++ (frame ∷ []) } in
      let x : FrameResult M = on_frame requests services frame in
      let due : List RpcResponse = listed (answer x) in
      let before : List RpcResponse = answers requests services s.frames in
      let called : count f (answers requests services t.frames) ≡ count f before + count f due =
        ap (count f) (
          answers-append requests services s.frames (frame ∷ [])
          ∙ ap (λ z. before ++ z) (append-nil due))
        ∙ count-append f before due in
      ap (λ z. count f (answers requests services z)) (on_result-frames x r t)
      ∙ omega (arith, h, called, on_result-under_way x r t)

  perform_all-IsConserved :
      (actions : List Action) (ws : ℕ → WriteResult) (s : Session M)
      → IsConserved s
      → IsConserved (perform_all requests responses services actions ws s)
  perform_all-IsConserved [] ws s h = h
  perform_all-IsConserved (a ∷ actions) ws s h =
      perform_all-IsConserved actions _ _ (perform-IsConserved a (ws 0) s h)

  read_result-IsConserved :
      (r : ReadResult) (c : Connection) (ws : ℕ → WriteResult) (s : Session M)
      → IsConserved s
      → IsConserved (read_result requests responses services r c ws s)
  read_result-IsConserved (bytes []) c ws s h = h
  read_result-IsConserved (bytes (x ∷ xs)) c ws s h =
      let run = Codec.on_message codec c.input_buf in
      perform_all-IsConserved run.actions ws
        (record s { conn = record c { input_buf = run.buffer } }) h
  read_result-IsConserved (failed e) c ws s h = h

  on_job-IsConserved :
      (k : ℕ) (o : Option (Job M)) (s : Session M)
      → get_elem? s.jobs k ≡ o
      → IsConserved s
      → IsConserved (on_job requests responses services k o s)
  on_job-IsConserved k none s e h = h
  on_job-IsConserved k (some job) s e h = omega (
    arith,
    h,
    count-remove_at f dispatch_request k s.jobs job e,
    count-append f s.queued (dispatch_request job ∷ []),
  )

  run_front-IsConserved :
      (q : List RpcResponse) (r : WriteResult) (s : Session M)
      → s.queued ≡ q
      → IsConserved s
      → IsConserved (run_front requests responses services q r s)
  run_front-IsConserved [] r s e h = h
  run_front-IsConserved (resp ∷ rest) r s e h = omega (
    arith,
    h,
    ap (count f) e,
    count-append f (resp ∷ []) rest,
    count-append f s.replied (resp ∷ []),
  )

  pub step-IsConserved :
      (e : Event) (s : Session M)
      → IsConserved s
      → IsConserved (step requests responses services e s)
  unfolding step
  step-IsConserved (arrives r ws) s h = read_result-IsConserved r _ ws s h
  step-IsConserved (works k) s h = on_job-IsConserved k _ s refl h
  step-IsConserved (runs_functor r) s h = run_front-IsConserved s.queued r s refl h
  step-IsConserved (writable r) s h = h

  pub run-IsConserved :
      (es : List Event) (s : Session M)
      → IsConserved s
      → IsConserved (run requests responses services es s)
  run-IsConserved [] s h = h
  run-IsConserved (e ∷ es) s h = run-IsConserved es _ (step-IsConserved e s h)

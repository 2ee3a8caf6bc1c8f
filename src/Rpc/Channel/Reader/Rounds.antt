-- ===== src/Rpc/Channel/Reader/Rounds.antt =====
-- The outer loop of the reader thread of src/rpc/rpc_channel.cpp, over the reads that it makes.
use mathlib.Core.List.{foldl-append, flatten}
use rpc_framework.Base.{
  suc, ◌+◌, ◌≤◌, ◌≡◌, refl, ap, sym, ◌∙◌, subst, true, false, List, [], ◌∷◌, ◌++◌, some, Byte,
  length, map, max_size, if◌then◌else◌, arith, append_assoc, append-nil, length-append,
  Option-cases, inl, inr,
}
use rpc_framework.Base.Map.{find, nat_eq}
use rpc_framework.Net.Buffer.{Buffer, IsValid, contents, readable}
use rpc_framework.Net.Buffer.ReadFd.{ReadResult, bytes, read_fd, store_read, store_read_lem}
use rpc_framework.Codec
use rpc_framework.Codec.{Codec}
use rpc_framework.Codec.Loop.{on_message-Followed}
use rpc_framework.Codec.Segments.{Split-stream, no_frame}
use rpc_framework.Codec.Stream.{on_message-stream}
use rpc_framework.Codec.Wire.{stream, Fits, IsPartial}
use rpc_framework.Rpc.Messages.{RpcResponse, Serializer}
use rpc_framework.Rpc.Channel.{RpcChannel, on_message, on_response, stop_reading}
use rpc_framework.Rpc.Channel.Reader.{
  read_round, receive_frames, read_round-stream, reader_loop-Follows,
}

-- The thread reads while the channel is connected.
unfoldable pub read_loop :
    Serializer RpcResponse → List ReadResult → Buffer → RpcChannel → Buffer × RpcChannel
read_loop p [] b s = (b, s)
read_loop p (r ∷ rs) b s =
    let (b', s') = read_round p (λ _. r) b s in
    let rest = read_loop p rs b' s' in if s.connected then rest else (b, stop_reading s)

on_response-connected :
    (resp : RpcResponse) (s : RpcChannel) → (on_response resp s).connected ≡ s.connected
unfolding on_response
on_response-connected resp s = elim (Option-cases (find resp.request_id s.pending_calls)) [
  | inl f ↦ rw (f, on_response) refl
  | inr (k, f) ↦ rw (f, on_response) refl
]

on_message-connected :
    (p : Serializer RpcResponse) (frame : List Byte) (s : RpcChannel)
    → (on_message p frame s).connected ≡ s.connected
unfolding on_message
on_message-connected p frame s = elim (Option-cases (p.parse frame)) [
  | inl e ↦ rw (e, on_message) refl
  | inr (resp, e) ↦ rw (e, on_message) (on_response-connected resp s)
]

-- A frame that parses.
pub on_message-parsed :
    (p : Serializer RpcResponse) (frame : List Byte) (resp : RpcResponse) (s : RpcChannel)
    → p.parse frame ≡ some resp
    → on_message p frame s ≡ on_response resp s
unfolding on_message
on_message-parsed p frame resp s e = rw (e, on_message) refl

receive_frames-connected :
    (p : Serializer RpcResponse) (frames : List (List Byte)) (s : RpcChannel)
    → (receive_frames p s frames).connected ≡ s.connected
receive_frames-connected p [] s = refl
receive_frames-connected p (frame ∷ frames) s =
    receive_frames-connected p frames (on_message p frame s) ∙ on_message-connected p frame s

-- A read of at least one byte.
abbrev pub chunk : Byte × List Byte → List Byte
chunk (x, xs) = x ∷ xs

abbrev pub read_of : Byte × List Byte → ReadResult
read_of c = bytes (chunk c)

-- The buffer after a round that does not refuse the stream.
round-IsValid :
    (p : Serializer RpcResponse) (x : Byte) (xs : List Byte) {b : Buffer} (s : RpcChannel)
    (bodies : List (List Byte)) {rest : List Byte}
    → IsValid b
    → b.write_idx + length (x ∷ xs) ≤ max_size
    → Fits bodies
    → IsPartial rest
    → contents b ++ (x ∷ xs) ≡ stream bodies ++ rest
    → let b' = (read_round p (λ _. bytes (x ∷ xs)) b s).0 in
      IsValid b' × (b'.write_idx ≤ b.write_idx + length (x ∷ xs))
unfolding read_round read_fd Codec.on_message
round-IsValid p x xs {b} s bodies {rest} v small fits q e =
    let c : Codec = record { has_err_cb = false } in
    let (v1, stored, low) = store_read_lem (x ∷ xs) v small in
    let b1 = store_read (x ∷ xs) b in
    let (acts, left, ends) = on_message-stream c bodies {rest = rest} v1 fits q (stored ∙ e) in
    let same = ap (λ z. z.0) (reader_loop-Follows p c (suc (readable b1)) b1 s ends) in
    let after = on_message-Followed c v1 in
    subst (λ z. IsValid z × (z.write_idx ≤ b.write_idx + length (x ∷ xs))) (sym same)
      (after.valid, omega (arith, after.low, low))

-- However the responses of a server are cut into reads, the channel is given exactly the responses in
-- the whole frames, in order, and the beginning of the last frame is kept: on a channel that is
-- connected and a buffer that holds no whole frame. Each read returns at least one byte, they fit a
-- vector together, and the bodies are of at most the length that the codec accepts.
pub read_loop-stream :
    (p : Serializer RpcResponse) (cs : List (Byte × List Byte)) {b : Buffer} (s : RpcChannel)
    (bodies : List (List Byte)) {rest : List Byte}
    → s.connected ≡ true
    → IsValid b
    → IsPartial (contents b)
    → b.write_idx + length (flatten (map chunk cs)) ≤ max_size
    → Fits bodies
    → IsPartial rest
    → contents b ++ flatten (map chunk cs) ≡ stream bodies ++ rest
    → let (b', s') = read_loop p (map read_of cs) b s in
      (s' ≡ receive_frames p s bodies) × (contents b' ≡ rest)
unfolding read_loop flatten
read_loop-stream p [] {b} s bodies {rest} on v q small fits r e =
    let e' : contents b ≡ stream bodies ++ rest = sym (append-nil (contents b)) ∙ e in
    let none : bodies ≡ [] = no_frame bodies rest fits q e' in
    (sym (ap (receive_frames p s) none), e' ∙ ap (λ x. stream x ++ rest) none)
read_loop-stream p ((x, xs) ∷ cs) {b} s bodies {rest} on v q small fits r e =
    let more : List Byte = flatten (map chunk cs) in
    let size = length-append (x ∷ xs) more in
    let room : b.write_idx + length (x ∷ xs) ≤ max_size = omega (arith, small, size) in
    let k =
      Split-stream bodies (contents b ++ (x ∷ xs)) more fits r
        (append_assoc (contents b) (x ∷ xs) more ∙ e) in
    let (now, left) = read_round-stream p x xs s k.early v room k.early_fits k.partial k.cut in
    let (v', low) = round-IsValid p x xs s k.early v room k.early_fits k.partial k.cut in
    let t = read_round p (λ _. bytes (x ∷ xs)) b s in
    let still : t.1.connected ≡ true =
      ap (λ (z : RpcChannel). z.connected) now ∙ receive_frames-connected p k.early s ∙ on in
    let (later, kept) =
      read_loop-stream p cs {b = t.0} t.1 k.late still v' (subst IsPartial (sym left) k.partial)
        (omega (arith, low, small, size)) k.late_fits r (ap (λ z. z ++ more) left ∙ k.more) in
    simp on (
      later
          ∙ ap (λ z. receive_frames p z k.late) now
          ∙ sym (foldl-append (λ z frame. on_message p frame z) s k.early k.late)
          ∙ ap (receive_frames p s) k.all,
      kept,
    )

-- ===== src/Rpc/Channel/Reader.antt =====
-- The reader thread that `RpcChannel::connect` starts (src/rpc/rpc_channel.cpp): its own copy of the
-- frame loop of `Codec::on_message`, which lacks the limit on the length of a body.
pub mod Equivalence
pub mod Ends
pub mod Rounds
use mathlib.Core.List.{foldl}
use rpc_framework.Base.{
  ℕ, zero, suc, ◌+◌, ◌≡◌, false, refl, ap, ◌∙◌, ◌≤◌, length, max_size, ◌++◌, List, [], ◌∷◌, Byte,
  add_size, ltb, ◌==◌, if◌then◌else◌, not, arith,
}
use rpc_framework.Net.Buffer.{
  Buffer, IsValid, contents, readable, peek_at, retrieve, retrieve_as_string,
}
use rpc_framework.Net.Buffer.ReadFd.{ReadResult, bytes, failed, read_fd, store_read, store_read_lem}
use rpc_framework.Codec
use rpc_framework.Codec.{
  Codec, Action, deliver, Verdict, wait, refuse, frame_of, Reason, bad_magic, body_too_large, ntohl,
  magic_number, header_size, examine, frame_loop, Run, Ending, waiting, refusal,
}
use rpc_framework.Codec.Sound.{delivered, delivered-map}
use rpc_framework.Codec.Stream.{on_message-stream}
use rpc_framework.Codec.Wire.{stream, Fits, IsPartial}
use rpc_framework.Rpc.Messages.{RpcResponse, Serializer}
use rpc_framework.Rpc.Channel.{RpcChannel, on_message, bad_stream, connection_closed}

-- The tests at the top of the inner loop.
abbrev pub reader_judge : ℕ → ℕ → ℕ → Verdict
reader_judge size magic body_len =
    if ltb size header_size
    then wait
    else if not (magic == magic_number)
    then refuse bad_magic
    else if ltb size (add_size header_size body_len)
    then wait
    else frame_of body_len

pub reader_examine : Buffer → Verdict
reader_examine b = reader_judge (readable b) (ntohl (peek_at b 0 4)) (ntohl (peek_at b 4 4))

-- The inner loop, over the frames that are in the buffer.
pub reader_loop : Serializer RpcResponse → ℕ → Buffer → RpcChannel → Buffer × RpcChannel
reader_loop p zero b s = (b, s)
reader_loop p (suc fuel) b s = elim (reader_examine b) [
  | wait ↦ (b, s)
  | refuse r ↦ (b, bad_stream s)
  | frame_of n ↦
      let (frame, b') = retrieve_as_string n (retrieve header_size b) in
      reader_loop p fuel b' (on_message p frame s)
]

-- One round of the outer loop: a read, and the frames that it completes. A read of no bytes is the
-- end of the stream.
pub read_round :
    Serializer RpcResponse → (ℕ → ReadResult) → Buffer → RpcChannel → Buffer × RpcChannel
read_round p readv b s =
    let (r, b') = read_fd readv b in
    elim r [
      | bytes [] ↦ (b', connection_closed s)
      | bytes (x ∷ xs) ↦ reader_loop p (suc (readable b')) b' s
      | failed e ↦ (b', connection_closed s)
    ]

-- Where the codec waits or takes a frame, the reader does the same.
pub reader_examine-wait : (b : Buffer) → examine b ≡ wait → reader_examine b ≡ wait
unfolding examine reader_examine
reader_examine-wait b h = ground arith

pub reader_examine-frame_of :
    (b : Buffer) (n : ℕ) → examine b ≡ frame_of n → reader_examine b ≡ frame_of n
unfolding examine reader_examine
reader_examine-frame_of b n h = ground arith

-- The channel after the responses in some frames.
abbrev pub receive_frames : Serializer RpcResponse → RpcChannel → List (List Byte) → RpcChannel
receive_frames p = foldl λ s frame. on_message p frame s

-- Where the loop of the codec ends by waiting, that of the reader leaves the same buffer, and hands
-- over the frames that the codec delivers.
abbrev Follows : Serializer RpcResponse → Codec → ℕ → Buffer → RpcChannel → Type 0
Follows p c fuel b s =
    (frame_loop c fuel b).ending ≡ waiting
    → reader_loop p fuel b s
      ≡ ((frame_loop c fuel b).buffer, receive_frames p s (delivered (frame_loop c fuel b).actions))

reader_loop-Follows :
    (p : Serializer RpcResponse) (c : Codec) (fuel : ℕ) (b : Buffer) (s : RpcChannel)
    → Follows p c fuel b s
unfolding frame_loop reader_loop
reader_loop-Follows p c zero b s = λ h. cc
reader_loop-Follows p c (suc fuel) b s = go (examine b) refl (reader_loop-Follows p c fuel)
  where
    go :
        (v : Verdict)
        → examine b ≡ v
        → ((b' : Buffer) (s' : RpcChannel) → Follows p c fuel b' s')
        → Follows p c (suc fuel) b s
    go wait e ih = λ h. rw (e, reader_examine-wait b e, frame_loop, reader_loop)
    go (refuse r) e ih = λ h. cc (rw (e, frame_loop) at h)
    go (frame_of n) e ih = λ h.
        let (frame, b') = retrieve_as_string n (retrieve header_size b) in
        rw (e, reader_examine-frame_of b n e, frame_loop, reader_loop)
          (ih b' (on_message p frame s) (rw (e, frame_loop) at h))

-- One read that completes whole frames, whatever its bytes leave of the next one, gives the channel
-- the responses in exactly these frames, in order, and keeps the beginning of the next. The read
-- returns at least one byte, what it returns fits a vector, and the bodies are of at most the length
-- that the codec accepts.
pub read_round-stream :
    (p : Serializer RpcResponse) (x : Byte) (xs : List Byte) {b : Buffer} (s : RpcChannel)
    (bodies : List (List Byte)) {rest : List Byte}
    → IsValid b
    → b.write_idx + length (x ∷ xs) ≤ max_size
    → Fits bodies
    → IsPartial rest
    → contents b ++ (x ∷ xs) ≡ stream bodies ++ rest
    → let (b', s') = read_round p (λ _. bytes (x ∷ xs)) b s in
      (s' ≡ receive_frames p s bodies) × (contents b' ≡ rest)
unfolding read_round read_fd Codec.on_message
read_round-stream p x xs {b} s bodies {rest} v small fits q e =
    let c : Codec = record { has_err_cb = false } in
    let (v1, stored, _) = store_read_lem (x ∷ xs) v small in
    let b1 = store_read (x ∷ xs) b in
    let (acts, left, ends) = on_message-stream c bodies {rest = rest} v1 fits q (stored ∙ e) in
    let same = reader_loop-Follows p c (suc (readable b1)) b1 s ends in
    (
      ap (λ z. z.1) same
          ∙ ap (λ ys. receive_frames p s (delivered ys)) acts
          ∙ ap (receive_frames p s) (delivered-map bodies),
      ap (λ z. contents z.0) same ∙ left,
    )

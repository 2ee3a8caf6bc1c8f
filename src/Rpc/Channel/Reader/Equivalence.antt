-- ===== src/Rpc/Channel/Reader/Equivalence.antt =====
-- The loop of the reader thread (src/rpc/rpc_channel.cpp) against the loop of `Codec::on_message`
-- (src/codec/codec.cpp), of which it is a copy without the limit on the length of a body.
use rpc_framework.Base.{ℕ, zero, suc, ◌≡◌, refl, Bool, true, false, List, [], ◌∷◌, arith}
use rpc_framework.Net.Buffer.{Buffer, readable, retrieve, retrieve_as_string}
use rpc_framework.Codec
use rpc_framework.Codec.{
  Codec, Action, deliver, report, force_close, Verdict, wait, refuse, frame_of, Reason, bad_magic,
  body_too_large, header_size, examine, frame_loop, Ending, waiting, closed, out_of_fuel, refusal,
}
use rpc_framework.Codec.Sound.{delivered}
use rpc_framework.Rpc.Messages.{RpcResponse, Serializer}
use rpc_framework.Rpc.Channel.{RpcChannel, on_message, bad_stream}
use rpc_framework.Rpc.Channel.Reader.{
  reader_examine, reader_loop, reader_examine-wait, reader_examine-frame_of, receive_frames,
}

-- A codec that reports why it refuses a stream.
abbrev pub watching : Codec
watching = record { has_err_cb = true }

-- Whether a body has been reported as too long.
abbrev pub too_long : List Action → Bool
too_long [] = false
too_long (report body_too_large ∷ actions) = true
too_long (report bad_magic ∷ actions) = too_long actions
too_long (deliver body ∷ actions) = too_long actions
too_long (force_close ∷ actions) = too_long actions

-- What the reader does where the codec closes the connection.
abbrev pub concluded : Ending → RpcChannel → RpcChannel
concluded closed s = bad_stream s
concluded waiting s = s
concluded out_of_fuel s = s

reader_examine-refuse :
    (b : Buffer) → examine b ≡ refuse bad_magic → reader_examine b ≡ refuse bad_magic
unfolding examine reader_examine
reader_examine-refuse b h = ground arith

abbrev Agrees : Serializer RpcResponse → ℕ → Buffer → RpcChannel → Type 0
Agrees p fuel b s =
    too_long (frame_loop watching fuel b).actions ≡ false
    → reader_loop p fuel b s ≡ (
      (frame_loop watching fuel b).buffer,
      concluded (frame_loop watching fuel b).ending
          (receive_frames p s (delivered (frame_loop watching fuel b).actions)),
    )

reader_loop-Agrees :
    (p : Serializer RpcResponse) (fuel : ℕ) (b : Buffer) (s : RpcChannel) → Agrees p fuel b s
unfolding frame_loop reader_loop
reader_loop-Agrees p zero b s = λ h. refl
reader_loop-Agrees p (suc fuel) b s = go (examine b) refl (reader_loop-Agrees p fuel)
  where
    go :
        (v : Verdict)
        → examine b ≡ v
        → ((b' : Buffer) (s' : RpcChannel) → Agrees p fuel b' s')
        → Agrees p (suc fuel) b s
    go wait e ih = λ h. rw (e, reader_examine-wait b e, frame_loop, reader_loop)
    go (refuse bad_magic) e ih = λ h. rw (e, reader_examine-refuse b e, frame_loop, reader_loop)
    go (refuse body_too_large) e ih = λ h. cc (rw (e, frame_loop) at h)
    go (frame_of n) e ih = λ h.
        let (frame, b') = retrieve_as_string n (retrieve header_size b) in
        rw (e, reader_examine-frame_of b n e, frame_loop, reader_loop)
          (ih b' (on_message p frame s) (rw (e, frame_loop) at h))

-- Unless the codec refuses the length of a body, the two loops in the source do the same with a
-- buffer: they leave the same buffer, the reader hands over the frames that the codec delivers, in
-- order, and it ends the stream where the codec closes the connection.
pub reader_loop-on_message :
    (p : Serializer RpcResponse) (b : Buffer) (s : RpcChannel)
    → let run = Codec.on_message watching b in
      too_long run.actions ≡ false
      → reader_loop p (suc (readable b)) b s
        ≡ (run.buffer, concluded run.ending (receive_frames p s (delivered run.actions)))
unfolding Codec.on_message
reader_loop-on_message p b s = reader_loop-Agrees p (suc (readable b)) b s

-- ===== src/Tests/Codec.antt =====
-- Runs of include/codec and src/codec.
use mathlib.Core.List.{flatten}
use rpc_framework.Base.{
  ℕ, ◌+◌, ◌*◌, ◌≡◌, refl, sym, ◌∙◌, true, List, [], ◌∷◌, ◌++◌, length, map, replicate, Byte, arith,
  length-replicate, append-nil,
}
use rpc_framework.Net.Buffer
use rpc_framework.Net.Buffer.{Buffer, IsValid, contents, readable, peek}
use rpc_framework.Codec.{
  Codec, deliver, report, force_close, bad_magic, closed, on_message, htonl, send_raw,
}
use rpc_framework.Codec.Wire.{stream}
use rpc_framework.Codec.Stream.{on_message_refuses}
use rpc_framework.Codec.Segments.{receive}
use rpc_framework.Codec.Sound.{delivered, on_message_sound}
use rpc_framework.Codec.Sending.{receive-sent, sent-stream, send_raw_lem}

abbrev codec : Codec
codec = record { has_err_cb = true }

abbrev two : List (List Byte)
two = (1 ∷ 2 ∷ []) ∷ [] ∷ []

-- The array of a buffer that holds these bytes.
abbrev holding : List Byte → Buffer
holding xs = record {
  buf = 0 ∷ 0 ∷ 0 ∷ 0 ∷ 0 ∷ 0 ∷ 0 ∷ 0 ∷ xs;
  read_idx = 8;
  write_idx = 8 + length xs;
}

-- A frame, and a header that starts with another number.
abbrev garbled : List Byte
garbled = 1 ∷ 2 ∷ 3 ∷ 4 ∷ 5 ∷ 6 ∷ 7 ∷ 8 ∷ 9 ∷ []

on_message_refuses_example :
    let run = on_message codec (holding (stream ((7 ∷ []) ∷ []) ++ garbled)) in
    (run.actions ≡ deliver (7 ∷ []) ∷ report bad_magic ∷ force_close ∷ [])
    × (contents run.buffer ≡ garbled)
    × (run.ending ≡ closed)
unfolding peek readable htonl
on_message_refuses_example =
    on_message_refuses codec ((7 ∷ []) ∷ []) garbled bad_magic (omega arith) (omega arith)
      (omega arith) refl

on_message_sound_example :
    let run = on_message codec (holding (stream ((7 ∷ []) ∷ []) ++ garbled)) in
    contents (holding (stream ((7 ∷ []) ∷ []) ++ garbled))
    ≡ stream (delivered run.actions) ++ contents run.buffer
unfolding peek readable htonl
on_message_sound_example = (on_message_sound codec (omega arith) (omega arith)).0

-- `n` bytes, kept shut: the proofs below do not count them out.
pad : ℕ → List Byte
pad n = replicate n 0

length-pad : (n : ℕ) → length (pad n) ≡ n
unfolding pad
length-pad n = length-replicate n 0

abbrev huge : List Byte
huge = pad (64 * 1024 * 1024 + 1)

send_raw_lem_example : IsValid (send_raw huge)
send_raw_lem_example = (send_raw_lem huge (omega (arith, length-pad (64 * 1024 * 1024 + 1)))).0

-- What is sent for two bodies, in one read.
receive-sent_example :
    let (actions, b) = receive codec (stream two ∷ []) (Buffer.init Buffer.initial_size) in
    (actions ≡ map deliver two) × (contents b ≡ [])
unfolding flatten htonl
receive-sent_example =
    receive-sent codec two (stream two ∷ []) (omega arith)
      (append-nil (stream two) ∙ sym (sent-stream two (omega arith))) (omega arith)

-- ===== src/Codec.antt =====
-- include/codec/protocol.h, include/codec/codec.h and src/codec/codec.cpp: frames of a magic
-- number, a length and a body. What `on_message` calls on its way (the message callback, the error
-- callback, `force_close`) is recorded in order as a list of actions: none of these calls touches
-- the buffer that the loop reads. A protobuf message is a parameter with its serializer.
pub mod Wire
pub mod Loop
pub mod Stream
pub mod Segments
pub mod Sound
pub mod Sending
use rpc_framework.Base.{
  ℕ, zero, suc, ◌+◌, ◌*◌, ◌/◌, ◌%◌, ◌^◌, Bool, List, [], ◌∷◌, Option, none, some, length, Byte,
  add_size, u32_mod, ltb, ◌==◌, if◌then◌else◌, not,
}
use rpc_framework.Net.Buffer
use rpc_framework.Net.Buffer.{Buffer, readable, peek_at, retrieve, retrieve_as_string, append}

abbrev pub magic_number : ℕ
magic_number = 0xCAFEBABE

abbrev pub header_size : ℕ
header_size = 8

abbrev pub max_body_size : ℕ
max_body_size = 64 * 1024 * 1024

-- `memcpy` of four bytes into a `uint32_t`, and `ntohl`: the first byte is the highest.
abbrev pub ntohl : List Byte → ℕ
ntohl (a ∷ b ∷ c ∷ d ∷ _) = a * 2 ^ 24 + b * 2 ^ 16 + c * 2 ^ 8 + d
ntohl _ = 0

-- `htonl`, and the four bytes of the `uint32_t` as they lie in memory.
unfoldable pub htonl : ℕ → List Byte
htonl n = (n / 2 ^ 24 % 256) ∷ (n / 2 ^ 16 % 256) ∷ (n / 2 ^ 8 % 256) ∷ (n % 256) ∷ []

pub data Reason : Type 0 where
  bad_magic body_too_large : Reason

pub data Action : Type 0 where
  deliver : List Byte → Action
  report : Reason → Action
  force_close : Action

pub record Codec : Type 0 where
  pub has_err_cb : Bool

-- The checks at the top of the loop: wait for more, refuse the stream, or take a body.
pub data Verdict : Type 0 where
  wait : Verdict
  refuse : Reason → Verdict
  frame_of : ℕ → Verdict

abbrev pub judge : ℕ → ℕ → ℕ → Verdict
judge size magic body_len =
    if ltb size header_size
    then wait
    else if not (magic == magic_number)
    then refuse bad_magic
    else if ltb max_body_size body_len
    then refuse body_too_large
    else if ltb size (add_size header_size body_len)
    then wait
    else frame_of body_len

unfoldable pub examine : Buffer → Verdict
examine b = judge (readable b) (ntohl (peek_at b 0 4)) (ntohl (peek_at b 4 4))

abbrev pub refusal : Codec → Reason → List Action
refusal c r = if c.has_err_cb then report r ∷ force_close ∷ [] else force_close ∷ []

-- Why the loop ended; `out_of_fuel` stands for no end of the source's loop.
pub data Ending : Type 0 where
  waiting closed out_of_fuel : Ending

pub record Run : Type 0 where
  pub actions : List Action
  pub buffer : Buffer
  pub ending : Ending

unfoldable pub frame_loop : Codec → ℕ → Buffer → Run
frame_loop c zero b = record { actions = []; buffer = b; ending = out_of_fuel }
frame_loop c (suc fuel) b = elim (examine b) [
  | wait ↦ record { actions = []; buffer = b; ending = waiting }
  | refuse r ↦ record { actions = refusal c r; buffer = b; ending = closed }
  | frame_of n ↦
      let (frame, b') = retrieve_as_string n (retrieve header_size b) in
      let run = frame_loop c fuel b' in record run { actions = deliver frame ∷ run.actions }
]

-- Each round takes at least a header off the buffer, so the loop makes no more rounds than that.
unfoldable pub on_message : Codec → Buffer → Run
on_message c b = frame_loop c (suc (readable b)) b

-- The local buffer that `send_raw` hands to the connection. The length is cut to 32 bits.
unfoldable pub send_raw : List Byte → Buffer
send_raw body = append body (
    append (htonl (length body % u32_mod))
      (append (htonl magic_number) (Buffer.init Buffer.initial_size)))

-- Nothing is sent for a message that does not serialize.
unfoldable pub send : {M : Type 0} → (M → Option (List Byte)) → M → Option Buffer
send serialize m = elim (serialize m) [ none ↦ none | some body ↦ some (send_raw body) ]

-- ===== src/Codec/Sending.antt =====
-- `Codec::send_raw` and `Codec::send` of src/codec/codec.cpp against `Codec::on_message`.
use mathlib.Core.List.{flatten}
use rpc_framework.Base.{
  ℕ, ◌%◌, ◌^◌, ◌≤◌, ◌<◌, ◌≡◌, refl, sym, ap, ap₂, ◌∙◌, subst, List, [], ◌∷◌, ◌++◌, length, map,
  Byte, arith, append-nil, append_assoc, u32_mod,
}
use rpc_framework.Net.Buffer
use rpc_framework.Net.Buffer.{Buffer, IsValid, contents, append}
use rpc_framework.Net.Buffer.Contents.{append_lem, init_lem, write_idx-append}
use rpc_framework.Codec.{
  Codec, deliver, body_too_large, refusal, closed, on_message, max_body_size, magic_number, htonl,
  send_raw,
}
use rpc_framework.Codec.Wire.{encode, stream, Fits, IsPartial}
use rpc_framework.Codec.Stream.{IsRefused, on_message_refuses}
use rpc_framework.Codec.Segments.{receive, receive-stream}

length-htonl : (n : ℕ) → length (htonl n) ≡ 4
unfolding htonl
length-htonl n = refl

-- `send_raw` hands over one well-formed buffer that holds the magic number, the length of the body
-- modulo 2 ^ 32 and the body, each number in network order.
pub send_raw_lem :
    (body : List Byte)
    → length body ≤ 2 ^ 62
    → IsValid (send_raw body)
      × (contents (send_raw body) ≡ htonl magic_number ++ (htonl (length body % u32_mod) ++ body))
unfolding send_raw
send_raw_lem body h =
    let m = htonl magic_number in
    let n = htonl (length body % u32_mod) in
    let (v0, empty, start) = init_lem Buffer.initial_size (omega arith) in
    let l1 = length-htonl magic_number in
    let l2 = length-htonl (length body % u32_mod) in
    let (v1, c1) = append_lem m v0 (omega arith) in
    let w1 = write_idx-append m v0 in
    let (v2, c2) = append_lem n v1 (omega arith) in
    let w2 = write_idx-append n v1 in
    let (v3, c3) = append_lem body v2 (omega arith) in
    (
      v3,
      c3
          ∙ ap (λ x. x ++ body) (c2 ∙ ap (λ x. x ++ n) (c1 ∙ ap (λ x. x ++ m) empty))
          ∙ append_assoc m n body,
    )

-- A body whose length fits 32 bits goes out as its frame.
pub send_raw-encode :
    (body : List Byte) → length body < u32_mod → contents (send_raw body) ≡ encode body
send_raw-encode body h =
    let same : length body % u32_mod ≡ length body = omega arith in
    (send_raw_lem body (omega arith)).1 ∙ ap (λ n. htonl magic_number ++ (htonl n ++ body)) same

-- The bytes of several sends, one behind the other.
abbrev pub sent : List (List Byte) → List Byte
sent [] = []
sent (body ∷ bodies) = contents (send_raw body) ++ sent bodies

pub sent-stream : (bodies : List (List Byte)) → Fits bodies → sent bodies ≡ stream bodies
sent-stream [] fits = refl
sent-stream (body ∷ bodies) fits =
    ap₂ ◌++◌ (send_raw-encode body (omega arith)) (sent-stream bodies fits.1)

pub nothing-IsPartial : IsPartial []
unfolding htonl
nothing-IsPartial = record {
  body = [];
  missing = encode [];
  fits = omega arith;
  some_missing = omega arith;
  whole = refl;
}

-- What one side sends with `send_raw` is what the other side's `on_message` delivers, body by body
-- and in order, however the network cuts the bytes into reads, and nothing is left over: for bodies
-- of at most the accepted length and a new receive buffer, all of them together below 2 ^ 62 bytes.
pub receive-sent :
    (c : Codec) (bodies chunks : List (List Byte))
    → Fits bodies
    → flatten chunks ≡ sent bodies
    → length (flatten chunks) ≤ 2 ^ 62
    → let (actions, b) = receive c chunks (Buffer.init Buffer.initial_size) in
      (actions ≡ map deliver bodies) × (contents b ≡ [])
receive-sent c bodies chunks fits e small =
    let (v, empty, start) = init_lem Buffer.initial_size (omega arith) in
    receive-stream c chunks bodies v (subst IsPartial (sym empty) nothing-IsPartial) (omega arith)
      fits nothing-IsPartial
      (ap (λ x. x ++ flatten chunks) empty
        ∙ e
        ∙ sent-stream bodies fits
        ∙ sym (append-nil (stream bodies)))

encode-IsRefused :
    (body : List Byte)
    → max_body_size < length body
    → length body < u32_mod
    → IsRefused (encode body) body_too_large
unfolding htonl
encode-IsRefused body large fits = (omega arith, omega arith, omega arith)

-- `send_raw` does not check the limit that `on_message` enforces: the frame of a body above the
-- limit (and below 2 ^ 32) is sent, and the receiver delivers nothing of it and closes the
-- connection.
pub send_raw_oversize :
    (c : Codec) (body : List Byte) {b : Buffer}
    → max_body_size < length body
    → length body < u32_mod
    → IsValid b
    → contents b ≡ contents (send_raw body)
    → let run = on_message c b in
      (run.actions ≡ refusal c body_too_large)
      × (contents run.buffer ≡ contents b)
      × (run.ending ≡ closed)
send_raw_oversize c body {b} large fits v e =
    let bad : IsRefused (contents b) body_too_large =
      subst (λ s. IsRefused s body_too_large) (sym (e ∙ send_raw-encode body fits))
        (encode-IsRefused body large fits) in
    on_message_refuses c [] (contents b) body_too_large v tt bad refl

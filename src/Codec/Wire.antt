-- ===== src/Codec/Wire.antt =====
-- The wire format of include/codec/protocol.h: [Magic:4][Length:4][Body:N], and what the checks of
-- `on_message` find in a sequence of bytes.
use rpc_framework.Base.{
  ℕ, ◌+◌, ◌≤◌, ◌<◌, ◌≡◌, refl, sym, ap, ap₂, ◌∙◌, inl, inr, List, [], ◌∷◌, ◌++◌, length, take, drop,
  Byte, u32_mod, ltb, arith, Bool-cases, length-append, length-drop, take-append, append-nil,
  drop-append,
}
use rpc_framework.Net.Buffer.{Buffer, IsValid, readable, contents}
use rpc_framework.Net.Buffer.Growth.{length-contents}
use rpc_framework.Net.Buffer.Contents.{peek_at_lem}
use rpc_framework.Codec.{
  magic_number, header_size, max_body_size, ntohl, htonl, Verdict, wait, frame_of, judge, examine,
}

-- One frame on the wire.
abbrev pub encode : List Byte → List Byte
encode body = htonl magic_number ++ (htonl (length body) ++ body)

-- Frames one behind the other.
abbrev pub stream : List (List Byte) → List Byte
stream [] = []
stream (body ∷ bodies) = encode body ++ stream bodies

-- The bodies that a receiver accepts.
abbrev pub Fits : List (List Byte) → Type 0
Fits [] = Unit {0}
Fits (body ∷ bodies) = (length body ≤ max_body_size) × Fits bodies

-- The beginning of one frame, without its last byte.
pub record IsPartial (s : List Byte) : Type 0 where
  pub body : List Byte
  pub missing : List Byte
  pub fits : length body ≤ max_body_size
  pub some_missing : 0 < length missing
  pub whole : s ++ missing ≡ encode body

pub length-encode : (body : List Byte) → length (encode body) ≡ header_size + length body
unfolding htonl
length-encode body = omega arith

pub ntohl-htonl : (n : ℕ) (t : List Byte) → n < u32_mod → ntohl (htonl n ++ t) ≡ n
unfolding htonl
ntohl-htonl n t h = omega arith

ntohl-take : (s : List Byte) → ntohl (take 4 s) ≡ ntohl s
ntohl-take [] = refl
ntohl-take (a ∷ []) = refl
ntohl-take (a ∷ b ∷ []) = refl
ntohl-take (a ∷ b ∷ c ∷ []) = refl
ntohl-take (a ∷ b ∷ c ∷ d ∷ s) = refl

-- What the checks find at the front of a sequence of bytes.
abbrev pub verdict : List Byte → Verdict
verdict s = judge (length s) (ntohl s) (ntohl (drop 4 s))

-- The checks read the contents of the buffer, and only bytes that are there.
pub examine-eq-verdict : {b : Buffer} → IsValid b → examine b ≡ verdict (contents b)
unfolding examine
examine-eq-verdict {b} v = elim (Bool-cases (ltb (readable b) header_size)) [
  | inl short ↦ ground (arith, length-contents v)
  | inr long ↦
      let h : header_size ≤ readable b = ground arith in
      ap₂ (λ m n. judge (readable b) m n)
        (ap ntohl (peek_at_lem 0 4 v (omega arith)) ∙ ntohl-take (contents b))
        (ap ntohl (peek_at_lem 4 4 v (omega arith)) ∙ ntohl-take (drop 4 (contents b)))
      ∙ ap (λ k. judge k (ntohl (contents b)) (ntohl (drop 4 (contents b))))
          (sym (length-contents v))
]

-- The header of a frame with anything behind it.
encode_header :
    (body t : List Byte)
    → length body ≤ max_body_size
    → (ntohl (encode body ++ t) ≡ magic_number) × (ntohl (drop 4 (encode body ++ t)) ≡ length body)
unfolding htonl
encode_header body t h = (omega arith, omega arith)

pub verdict-encode :
    (body t : List Byte)
    → length body ≤ max_body_size
    → verdict (encode body ++ t) ≡ frame_of (length body)
verdict-encode body t h =
    let (m, n) = encode_header body t h in
    ground (arith, m, n, length-append (encode body) t, length-encode body)

ntohl-append : (s t : List Byte) → 4 ≤ length s → ntohl (s ++ t) ≡ ntohl s
ntohl-append s t h = sym (ntohl-take (s ++ t)) ∙ ap ntohl (take-append 4 s t h) ∙ ntohl-take s

-- A header that has arrived is read the same, however much has arrived behind it.
header-append :
    (s t : List Byte)
    → header_size ≤ length s
    → (ntohl (s ++ t) ≡ ntohl s) × (ntohl (drop 4 (s ++ t)) ≡ ntohl (drop 4 s))
header-append s t h = (
  ntohl-append s t (omega arith),
  ap ntohl (drop-append 4 s t (omega arith))
      ∙ ntohl-append (drop 4 s) t (omega (arith, length-drop 4 s)),
)

-- The beginning of a frame is no reason to refuse, and is not taken for a frame.
pub verdict-partial : {s : List Byte} → IsPartial s → verdict s ≡ wait
verdict-partial {s} p = elim (Bool-cases (ltb (length s) header_size)) [
  | inl short ↦ ground arith
  | inr long ↦
      let (m, n) = header-append s p.missing (ground arith) in
      let (m', n') = encode_header p.body [] p.fits in
      ground (
        arith,
        m,
        n,
        m',
        n',
        p.whole,
        append-nil (encode p.body),
        ap length p.whole,
        length-append s p.missing,
        length-encode p.body,
      )
]

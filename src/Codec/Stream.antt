-- ===== src/Codec/Stream.antt =====
-- `Codec::on_message` on a stream of frames.
use rpc_framework.Base.{
  ◌≤◌, ◌<◌, ◌≡◌, ◌≢◌, refl, sym, ap, ap₂, subst, append-nil, List, [], ◌∷◌, ◌++◌, length, take,
  drop, map, Byte, arith, append_assoc, take-append_exact, drop-append_exact,
}
use rpc_framework.Net.Buffer.{Buffer, IsValid, contents}
use rpc_framework.Codec.{
  Codec, Action, deliver, refuse, Reason, bad_magic, body_too_large, refusal, Ending, waiting,
  closed, on_message, header_size, max_body_size, magic_number, ntohl, htonl,
}
use rpc_framework.Codec.Wire.{
  verdict, encode, stream, Fits, IsPartial, verdict-encode, verdict-partial,
}
use rpc_framework.Codec.Loop.{Decodes, stop, refused, next, on_message-Followed}

body-encode : (body t : List Byte) → take (length body) (drop header_size (encode body ++ t)) ≡ body
unfolding htonl
body-encode body t = take-append_exact (length body) body t refl

rest-encode : (body t : List Byte) → drop (length body) (drop header_size (encode body ++ t)) ≡ t
unfolding htonl
rest-encode body t = drop-append_exact (length body) body t refl

module _ {c : Codec} where
  -- What is done with a rest is done with it behind frames, after these are delivered.
  Decodes-stream :
      {rest t : List Byte} {acts : List Action} {e : Ending} (bodies : List (List Byte))
      → Fits bodies
      → Decodes c rest acts t e
      → Decodes c (stream bodies ++ rest) (map deliver bodies ++ acts) t e
  Decodes-stream [] fits d = d
  Decodes-stream {rest} {t} {acts} {e} (body ∷ bodies) fits d =
      let s = encode body ++ (stream bodies ++ rest) in
      let tail : Decodes c (drop (length body) (drop header_size s)) (map deliver bodies ++ acts) t
          e =
        rw (rest-encode body (stream bodies ++ rest)) (Decodes-stream bodies fits.1 d) in
      let whole = next s (length body) (verdict-encode body (stream bodies ++ rest) fits.0) tail in
      subst (λ x. Decodes c x (deliver body ∷ map deliver bodies ++ acts) t e)
        (sym (append_assoc (encode body) (stream bodies) rest))
        (subst (λ x. Decodes c s (deliver x ∷ map deliver bodies ++ acts) t e)
          (body-encode body (stream bodies ++ rest)) whole)

  Decodes-unique :
      {s t t' : List Byte} {as' bs : List Action} {e e' : Ending}
      → Decodes c s as' t e
      → Decodes c s bs t' e'
      → (as' ≡ bs) × (t ≡ t') × (e ≡ e')
  Decodes-unique (stop s h) (stop _ k) = (refl, refl, refl)
  Decodes-unique (stop s h) (refused _ r k) = cc
  Decodes-unique (stop s h) (next _ n k d) = cc
  Decodes-unique (refused s r h) (stop _ k) = cc
  Decodes-unique (refused s r h) (refused _ r' k) =
      let same : r ≡ r' = cc in (ap (refusal c) same, refl, refl)
  Decodes-unique (refused s r h) (next _ n k d) = cc
  Decodes-unique (next s n h d) (stop _ k) = cc
  Decodes-unique (next s n h d) (refused _ r k) = cc
  Decodes-unique (next s n h d) (next _ n' k d') =
      let same : n' ≡ n = cc in
      let (p, q, u) = Decodes-unique d (rw same at d') in
      (ap₂ (λ m xs. deliver (take m (drop header_size s)) ∷ xs) (sym same) p, q, u)

  -- What a call does is fixed by the rest behind the frames that it holds.
  on_message_follows :
      {b : Buffer} {rest t : List Byte} {acts : List Action} {e : Ending}
      (bodies : List (List Byte))
      → IsValid b
      → Fits bodies
      → contents b ≡ stream bodies ++ rest
      → Decodes c rest acts t e
      → let run = on_message c b in
        (run.actions ≡ map deliver bodies ++ acts) × (contents run.buffer ≡ t) × (run.ending ≡ e)
  on_message_follows bodies v fits h d =
      Decodes-unique (rw h at (on_message-Followed c v).decodes) (Decodes-stream bodies fits d)

-- If the buffer holds whole frames and the beginning of one more, in any number and with bodies of
-- any accepted length, `on_message` delivers exactly their bodies, in order, keeps exactly the
-- beginning of the last one, and does not close the connection.
pub on_message-stream :
    (c : Codec) {b : Buffer} (bodies : List (List Byte)) {rest : List Byte}
    → IsValid b
    → Fits bodies
    → IsPartial rest
    → contents b ≡ stream bodies ++ rest
    → let run = on_message c b in
      (run.actions ≡ map deliver bodies) × (contents run.buffer ≡ rest) × (run.ending ≡ waiting)
on_message-stream c bodies {rest} v fits p h =
    rw (← append-nil (map deliver bodies))
      (on_message_follows bodies v fits h (stop rest (verdict-partial p)))

-- A header that `on_message` must refuse: the wrong magic number, or a body above the limit.
abbrev pub IsRefused : List Byte → Reason → Type 0
IsRefused s bad_magic = (header_size ≤ length s) × (ntohl s ≢ magic_number)
IsRefused s body_too_large =
    (header_size ≤ length s) × (ntohl s ≡ magic_number) × (max_body_size < ntohl (drop 4 s))

verdict-refused : (s : List Byte) (r : Reason) → IsRefused s r → verdict s ≡ refuse r
verdict-refused s bad_magic h = ground arith
verdict-refused s body_too_large h = ground arith

-- If a refused header follows whole frames, `on_message` delivers these, then reports the reason to
-- the error callback if there is one, forces the connection closed, and takes nothing of the rest.
pub on_message_refuses :
    (c : Codec) {b : Buffer} (bodies : List (List Byte)) (rest : List Byte) (r : Reason)
    → IsValid b
    → Fits bodies
    → IsRefused rest r
    → contents b ≡ stream bodies ++ rest
    → let run = on_message c b in
      (run.actions ≡ map deliver bodies ++ refusal c r)
      × (contents run.buffer ≡ rest)
      × (run.ending ≡ closed)
on_message_refuses c bodies rest r v fits bad h =
    on_message_follows bodies v fits h (refused rest r (verdict-refused rest r bad))

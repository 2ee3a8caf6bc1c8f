-- ===== src/Codec/Segments.antt =====
-- Frames that arrive in pieces: `Buffer::read_fd` and `Codec::on_message` call after call, as
-- `TcpConnection::handle_read` makes them.
use mathlib.Core.List.{map-append, flatten}
use rpc_framework.Base.{
  ◌+◌, ◌≤◌, ◌<◌, ◌≡◌, refl, sym, ap, ap₂, ◌∙◌, subst, inl, inr, List, [], ◌∷◌, ◌++◌, length, take,
  drop, map, Byte, arith, ltb, Bool-cases, max_size, append_assoc, append-nil, length-append,
  length-drop, take-append_exact, drop-append_exact, take-append, drop-append, take-append-drop,
}
use rpc_framework.Net.Buffer.{Buffer, IsValid, contents}
use rpc_framework.Net.Buffer.ReadFd.{store_read, store_read_lem}
use rpc_framework.Codec.{Codec, Action, deliver, on_message}
use rpc_framework.Codec.Wire.{
  encode, stream, Fits, IsPartial, verdict, verdict-encode, verdict-partial,
}
use rpc_framework.Codec.Loop.{on_message-Followed}
use rpc_framework.Codec.Stream.{on_message-stream}

-- The bytes of each read are stored and handed to the codec.
unfoldable pub receive : Codec → List (List Byte) → Buffer → List Action × Buffer
receive c [] b = ([], b)
receive c (chunk ∷ chunks) b =
    let run = on_message c (store_read chunk b) in
    let (actions, b') = receive c chunks run.buffer in (run.actions ++ actions, b')

-- A stream cut in two: whole frames and the beginning of one more, then what is missing.
pub record Split (bodies : List (List Byte)) (s t rest : List Byte) : Type 0 where
  pub early : List (List Byte)
  pub late : List (List Byte)
  pub left : List Byte
  pub all : early ++ late ≡ bodies
  pub early_fits : Fits early
  pub late_fits : Fits late
  pub cut : s ≡ stream early ++ left
  pub partial : IsPartial left
  pub more : left ++ t ≡ stream late ++ rest

-- The cut is inside the first frame.
cut-encode :
    (body s t u : List Byte)
    → s ++ t ≡ encode body ++ u
    → length s < length (encode body)
    → s ++ drop (length s) (encode body) ≡ encode body
cut-encode body s t u e h =
    ap (λ x. x ++ drop (length s) (encode body))
      (sym (take-append_exact (length s) s t refl)
        ∙ ap (take (length s)) e
        ∙ take-append (length s) (encode body) u (omega arith))
    ∙ take-append-drop (length s) (encode body)

-- The first frame has arrived.
past-encode :
    (body s t u : List Byte)
    → s ++ t ≡ encode body ++ u
    → length (encode body) ≤ length s
    → let s' = drop (length (encode body)) s in (s ≡ encode body ++ s') × (s' ++ t ≡ u)
past-encode body s t u e h =
    let n = length (encode body) in
    (
      sym (take-append-drop n s)
          ∙ ap (λ x. x ++ drop n s)
              (sym (take-append n s t h)
                ∙ ap (take n) e
                ∙ take-append_exact n (encode body) u refl),
      sym (drop-append n s t h) ∙ ap (drop n) e ∙ drop-append_exact n (encode body) u refl,
    )

pub Split-stream :
    (bodies : List (List Byte)) (s t : List Byte) {rest : List Byte}
    → Fits bodies
    → IsPartial rest
    → s ++ t ≡ stream bodies ++ rest
    → Split bodies s t rest
Split-stream [] s t {rest} fits p e = record {
  early = [];
  late = [];
  left = s;
  all = refl;
  early_fits = tt;
  late_fits = tt;
  cut = refl;
  partial = record {
    body = p.body;
    missing = t ++ p.missing;
    fits = p.fits;
    some_missing = omega (arith, length-append t p.missing, p.some_missing);
    whole = sym (append_assoc s t p.missing) ∙ ap (λ x. x ++ p.missing) e ∙ p.whole;
  };
  more = e;
}
Split-stream (body ∷ bodies) s t {rest} fits p e =
    let e' = e ∙ append_assoc (encode body) (stream bodies) rest in
    elim (Bool-cases (ltb (length s) (length (encode body)))) [
      | inl inside ↦ record {
        early = [];
        late = body ∷ bodies;
        left = s;
        all = refl;
        early_fits = tt;
        late_fits = fits;
        cut = refl;
        partial = record {
          body = body;
          missing = drop (length s) (encode body);
          fits = fits.0;
          some_missing = ground (arith, length-drop (length s) (encode body));
          whole = cut-encode body s t (stream bodies ++ rest) e' (ground arith);
        };
        more = e;
      }
      | inr past ↦
          let (front, back) = past-encode body s t (stream bodies ++ rest) e' (ground arith) in
          let k = Split-stream bodies (drop (length (encode body)) s) t fits.1 p back in
          record {
            early = body ∷ k.early;
            late = k.late;
            left = k.left;
            all = ap (◌∷◌ body) k.all;
            early_fits = (fits.0, k.early_fits);
            late_fits = k.late_fits;
            cut =
                front
                ∙ ap (◌++◌ (encode body)) k.cut
                ∙ sym (append_assoc (encode body) (stream k.early) k.left);
            partial = k.partial;
            more = k.more;
          }
    ]

-- The beginning of a frame holds no whole frame.
pub no_frame :
    (bodies : List (List Byte)) {s : List Byte} (rest : List Byte)
    → Fits bodies
    → IsPartial s
    → s ≡ stream bodies ++ rest
    → bodies ≡ []
no_frame [] rest fits p e = refl
no_frame (body ∷ bodies) {s} rest fits p e =
    let e' = e ∙ append_assoc (encode body) (stream bodies) rest in
    cc (ap verdict e', verdict-partial p, verdict-encode body (stream bodies ++ rest) fits.0)

-- However a stream is cut into the pieces of successive reads, the calls together deliver exactly
-- the bodies of its whole frames, in order, none twice and none lost, and leave the beginning of the
-- last frame in the buffer. The buffer holds at most the beginning of a frame before, and all that
-- is read fits a vector.
pub receive-stream :
    (c : Codec) (chunks : List (List Byte)) {b : Buffer} (bodies : List (List Byte))
    {rest : List Byte}
    → IsValid b
    → IsPartial (contents b)
    → b.write_idx + length (flatten chunks) ≤ max_size
    → Fits bodies
    → IsPartial rest
    → contents b ++ flatten chunks ≡ stream bodies ++ rest
    → let (actions, b') = receive c chunks b in
      (actions ≡ map deliver bodies) × (contents b' ≡ rest)
unfolding receive flatten
receive-stream c [] {b} bodies {rest} v q small fits p e =
    let e' : contents b ≡ stream bodies ++ rest = sym (append-nil (contents b)) ∙ e in
    let none : bodies ≡ [] = no_frame bodies rest fits q e' in
    (sym (ap (map deliver) none), e' ∙ ap (λ x. stream x ++ rest) none)
receive-stream c (chunk ∷ chunks) {b} bodies {rest} v q small fits p e =
    let room : b.write_idx + (length chunk + length (flatten chunks)) ≤ max_size =
      omega (arith, length-append chunk (flatten chunks)) in
    let (v1, stored, low) = store_read_lem chunk v (omega arith) in
    let k = Split-stream bodies (contents (store_read chunk b)) (flatten chunks) fits p (
      ap (λ x. x ++ flatten chunks) stored
      ∙ append_assoc (contents b) chunk (flatten chunks)
      ∙ e) in
    let (now, left, _) = on_message-stream c k.early v1 k.early_fits k.partial k.cut in
    let after = on_message-Followed c v1 in
    let (later, kept) =
      receive-stream c chunks {b = (on_message c (store_read chunk b)).buffer} k.late {rest = rest}
        after.valid (subst IsPartial (sym left) k.partial) (omega (arith, after.low, low))
        k.late_fits p (ap (λ x. x ++ flatten chunks) left ∙ k.more) in
    (ap₂ ◌++◌ now later ∙ sym (map-append deliver k.early k.late) ∙ ap (map deliver) k.all, kept)

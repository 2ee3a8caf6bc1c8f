-- ===== src/Codec/Sound.antt =====
-- `Codec::on_message` on any bytes: what it delivers was sent as frames, and it always ends.
use rpc_framework.Base.{
  ℕ, zero, suc, ◌/◌, ◌%◌, ◌^◌, ◌≤◌, ◌<◌, ◌≡◌, ◌≢◌, refl, sym, ap, ap₂, ◌∙◌, List, [], ◌∷◌, ◌++◌,
  length, take, drop, map, Byte, arith, length-take, take-append-drop, append_assoc,
}
use rpc_framework.Net.Buffer.{Buffer, IsValid, contents}
use rpc_framework.Codec.{
  Codec, Action, deliver, report, force_close, frame_of, Reason, refusal, Ending, waiting, closed,
  out_of_fuel, on_message, header_size, max_body_size, htonl, magic_number, ntohl,
}
use rpc_framework.Codec.Wire.{verdict, encode, stream, Fits, verdict-encode}
use rpc_framework.Codec.Loop.{Decodes, stop, refused, next, frame_of_fits, on_message-Followed}

-- A `char` has eight bits.
abbrev pub IsBytes : List Byte → Type 0
IsBytes [] = Unit {0}
IsBytes (x ∷ xs) = (x < 256) × IsBytes xs

pub IsBytes-drop : (n : ℕ) (s : List Byte) → IsBytes s → IsBytes (drop n s)
IsBytes-drop zero s h = h
IsBytes-drop (suc n) [] h = tt
IsBytes-drop (suc n) (x ∷ s) h = IsBytes-drop n s h.1

-- The bodies among the actions.
abbrev pub delivered : List Action → List (List Byte)
delivered [] = []
delivered (deliver body ∷ actions) = body ∷ delivered actions
delivered (report r ∷ actions) = delivered actions
delivered (force_close ∷ actions) = delivered actions

htonl-ntohl :
    (a b c d n : ℕ)
    → IsBytes (a ∷ b ∷ c ∷ d ∷ [])
    → ntohl (a ∷ b ∷ c ∷ d ∷ []) ≡ n
    → a ∷ b ∷ c ∷ d ∷ [] ≡ htonl n
unfolding htonl
htonl-ntohl a b c d n bytes e =
    let first : a ≡ n / 2 ^ 24 % 256 = omega arith in
    let second : b ≡ n / 2 ^ 16 % 256 = omega arith in
    let third : c ≡ n / 2 ^ 8 % 256 = omega arith in let fourth : d ≡ n % 256 = omega arith in cc

frame_of_header :
    (n : ℕ) (s : List Byte)
    → verdict s ≡ frame_of n
    → (ntohl s ≡ magic_number) × (ntohl (drop 4 s) ≡ n)
frame_of_header n s h = ground arith

-- Bytes that the checks take for a frame are its encoding.
encode-frame_of :
    (n : ℕ) (s : List Byte)
    → IsBytes s
    → verdict s ≡ frame_of n
    → s ≡ encode (take n (drop header_size s)) ++ drop n (drop header_size s)
encode-frame_of n (a ∷ b ∷ c ∷ d ∷ e ∷ f ∷ g ∷ h ∷ s) bytes v =
    let (m, k) = frame_of_header n (a ∷ b ∷ c ∷ d ∷ e ∷ f ∷ g ∷ h ∷ s) v in
    let fits = frame_of_fits (a ∷ b ∷ c ∷ d ∷ e ∷ f ∷ g ∷ h ∷ s) n v in
    let p = htonl-ntohl a b c d magic_number (omega arith) (omega arith) in
    let q =
      htonl-ntohl e f g h (length (take n s)) (omega arith) (omega (arith, length-take n s)) in
    ap (λ t. a ∷ b ∷ c ∷ d ∷ e ∷ f ∷ g ∷ h ∷ t) (sym (take-append-drop n s))
    ∙ ap₂ (λ x y. x ++ (y ++ (take n s ++ drop n s))) p q
    ∙ simp append_assoc
encode-frame_of n s bytes v = absurd (ground arith)

-- The buffer holds no whole frame at its front.
abbrev pub HoldsNoFrame : List Byte → Type 0
HoldsNoFrame s = (body t : List Byte) → length body ≤ max_body_size → s ≢ encode body ++ t

-- What else was done when the loop ended so.
abbrev pub Settled : Codec → List Action → List Byte → Ending → Type 0
Settled c actions t waiting = (actions ≡ map deliver (delivered actions)) × HoldsNoFrame t
Settled c actions t closed =
    (r : Reason) × (actions ≡ map deliver (delivered actions) ++ refusal c r)
Settled c actions t out_of_fuel = ⊥

pub delivered-map : (bodies : List (List Byte)) → delivered (map deliver bodies) ≡ bodies
delivered-map [] = refl
delivered-map (body ∷ bodies) = ap (◌∷◌ body) (delivered-map bodies)

delivered-refusal : (c : Codec) (r : Reason) → delivered (refusal c r) ≡ []
delivered-refusal c r = ground arith

Settled-deliver :
    (c : Codec) (actions : List Action) (t : List Byte) (e : Ending) (body : List Byte)
    → Settled c actions t e
    → Settled c (deliver body ∷ actions) t e
Settled-deliver c actions t waiting body (p, q) = (ap (◌∷◌ (deliver body)) p, q)
Settled-deliver c actions t closed body (r, p) = (r, ap (◌∷◌ (deliver body)) p)
Settled-deliver c actions t out_of_fuel body h = absurd h

Decodes-Settled :
    {c : Codec} {s t : List Byte} {actions : List Action} {e : Ending}
    → Decodes c s actions t e
    → Settled c actions t e
Decodes-Settled (stop s h) = (refl, λ body t fits e. cc (ap verdict e, verdict-encode body t fits))
Decodes-Settled {c} (refused s r h) =
    (r, ap (λ bodies. map deliver bodies ++ refusal c r) (sym (delivered-refusal c r)))
Decodes-Settled {c} {t} {e} (next s n {acts} h d) = Settled-deliver c acts t e _ (Decodes-Settled d)

Decodes-sound :
    {c : Codec} {s t : List Byte} {actions : List Action} {e : Ending}
    → IsBytes s
    → Decodes c s actions t e
    → (s ≡ stream (delivered actions) ++ t) × Fits (delivered actions)
Decodes-sound bytes (stop s h) = (refl, tt)
Decodes-sound {c} bytes (refused s r h) = rw (delivered-refusal c r) (refl, tt)
Decodes-sound {t} bytes (next s n {acts} h d) =
    let body = take n (drop header_size s) in
    let rest = drop n (drop header_size s) in
    let fits = frame_of_fits s n h in
    let (whole, all_fit) =
      Decodes-sound (IsBytes-drop n (drop header_size s) (IsBytes-drop header_size s bytes)) d in
    (
      encode-frame_of n s bytes h
          ∙ ap (λ x. encode body ++ x) whole
          ∙ sym (append_assoc (encode body) (stream (delivered acts)) t),
      (omega (arith, length-take n (drop header_size s)), all_fit),
    )

-- `on_message` ends on any buffer of bytes. What it takes off the buffer is exactly the encoding of
-- the bodies that it delivers, in order, each of at most the accepted length. Either it then waits,
-- has done nothing else, and no whole frame is left at the front; or it has refused a header, and
-- what it did after the deliveries is to report that and to force the connection closed.
pub on_message_sound :
    (c : Codec) {b : Buffer}
    → IsValid b
    → IsBytes (contents b)
    → let run = on_message c b in
      (contents b ≡ stream (delivered run.actions) ++ contents run.buffer)
      × Fits (delivered run.actions)
      × Settled c run.actions (contents run.buffer) run.ending
on_message_sound c v bytes =
    let f = on_message-Followed c v in
    let (whole, fits) = Decodes-sound bytes f.decodes in (whole, fits, Decodes-Settled f.decodes)

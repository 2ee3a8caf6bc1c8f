-- ===== src/Codec/Loop.antt =====
-- `Codec::on_message` of src/codec/codec.cpp, followed over the contents of the buffer.
use rpc_framework.Base.{
  ℕ, zero, suc, ◌+◌, ◌-◌, ◌≤◌, ◌<◌, ◌≡◌, refl, sym, ap, ◌∙◌, List, [], ◌∷◌, length, take, drop,
  Byte, arith, length-drop,
}
use native.Mathlib.Nat.{le_trans}
use rpc_framework.Net.Buffer.{Buffer, IsValid, readable, contents, retrieve, retrieve_as_string}
use rpc_framework.Net.Buffer.Growth.{length-contents}
use rpc_framework.Net.Buffer.Contents.{retrieve_lem, retrieve_as_string_lem, write_idx-retrieve}
use rpc_framework.Codec.{
  Codec, Action, deliver, Verdict, wait, refuse, frame_of, Reason, refusal, examine, Run, Ending,
  waiting, closed, frame_loop, on_message, header_size, max_body_size,
}
use rpc_framework.Codec.Wire.{verdict, examine-eq-verdict}

-- What the loop does with a sequence of bytes: the actions, the bytes it leaves, how it ends.
pub data Decodes (c : Codec) : List Byte → List Action → List Byte → Ending → Type 0 where
  stop : (s : List Byte) → verdict s ≡ wait → Decodes c s [] s waiting
  refused : (s : List Byte) (r : Reason) → verdict s ≡ refuse r → Decodes c s (refusal c r) s closed
  next :
      (s : List Byte) (n : ℕ) {acts : List Action} {t : List Byte} {e : Ending}
      → verdict s ≡ frame_of n
      → Decodes c (drop n (drop header_size s)) acts t e
      → Decodes c s (deliver (take n (drop header_size s)) ∷ acts) t e

-- A body is taken only if all of it has arrived and it is not too long.
pub frame_of_fits :
    (s : List Byte) (n : ℕ)
    → verdict s ≡ frame_of n
    → (n ≤ max_body_size) × (header_size + n ≤ length s)
frame_of_fits s n h = ground arith

-- The state after a round that takes a frame.
pub record Took (n : ℕ) (b c : Buffer) (frame : List Byte) : Type 0 where
  pub valid : IsValid c
  pub taken : frame ≡ take n (drop header_size (contents b))
  pub left : contents c ≡ drop n (drop header_size (contents b))
  pub shorter : readable c < readable b
  pub low : c.write_idx ≤ b.write_idx

pub take_frame-Took :
    (n : ℕ) {b : Buffer}
    → IsValid b
    → header_size + n ≤ readable b
    → let (frame, c) = retrieve_as_string n (retrieve header_size b) in Took n b c frame
unfolding retrieve_as_string
take_frame-Took n {b} v h =
    let (valid, left) = retrieve_lem header_size v (omega arith) in
    let size : length (contents (retrieve header_size b)) ≡ length (contents b) - header_size =
      ap length left ∙ length-drop header_size (contents b) in
    let room : n ≤ readable (retrieve header_size b) =
      omega (arith, size, length-contents valid, length-contents v) in
    let (taken, valid', left') = retrieve_as_string_lem n valid room in
    record {
      valid = valid';
      taken = taken ∙ ap (take n) left;
      left = left' ∙ ap (drop n) left;
      shorter = omega (
        arith,
        ap length (left' ∙ ap (drop n) left),
        length-drop n (drop header_size (contents b)),
        length-drop header_size (contents b),
        length-contents valid',
        length-contents v,
      );
      low = le_trans (write_idx-retrieve n valid) (write_idx-retrieve header_size v);
    }

-- What a run of the loop comes to.
pub record Followed (c : Codec) (b : Buffer) (run : Run) : Type 0 where
  pub valid : IsValid run.buffer
  pub low : run.buffer.write_idx ≤ b.write_idx
  pub decodes : Decodes c (contents b) run.actions (contents run.buffer) run.ending

frame_loop-Followed :
    (c : Codec) (fuel : ℕ) {b : Buffer}
    → IsValid b
    → readable b < fuel
    → Followed c b (frame_loop c fuel b)
unfolding frame_loop retrieve_as_string
frame_loop-Followed c zero v h = absurd (omega arith)
frame_loop-Followed c (suc fuel) {b} v h =
    go (examine b) refl (λ b' v' h'. frame_loop-Followed c fuel {b = b'} v' h')
  where
    go :
        (x : Verdict)
        → examine b ≡ x
        → ((b' : Buffer) → IsValid b' → readable b' < fuel → Followed c b' (frame_loop c fuel b'))
        → Followed c b (frame_loop c (suc fuel) b)
    go wait e rest =
        rw (e, frame_loop)
          (record {
            valid = v;
            low = omega arith;
            decodes = stop (contents b) (sym (examine-eq-verdict v) ∙ e);
          })
    go (refuse r) e rest =
        rw (e, frame_loop)
          (record {
            valid = v;
            low = omega arith;
            decodes = refused (contents b) r (sym (examine-eq-verdict v) ∙ e);
          })
    go (frame_of n) e rest =
        let found : verdict (contents b) ≡ frame_of n = sym (examine-eq-verdict v) ∙ e in
        let fits = frame_of_fits (contents b) n found in
        let took = take_frame-Took n v (omega (arith, fits, length-contents v)) in
        let after =
          rest (retrieve n (retrieve header_size b)) took.valid (omega (arith, took.shorter)) in
        rw (e, frame_loop)
          (record {
            valid = after.valid;
            low = le_trans after.low took.low;
            decodes = rw took.taken (next (contents b) n found (rw took.left at after.decodes));
          })

-- The fuel of `on_message` is enough for any buffer: the loop is followed to its end.
pub on_message-Followed : (c : Codec) {b : Buffer} → IsValid b → Followed c b (on_message c b)
unfolding on_message
on_message-Followed c v = frame_loop-Followed c _ v (omega arith)

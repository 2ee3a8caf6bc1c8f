-- ===== src/Net/Connection/Sending.antt =====
-- What one send or one write event does to the bytes on their way (src/net/tcp_connection.cpp).
use rpc_framework.Base.{
  ℕ, ◌+◌, ◌≤◌, ◌≡◌, refl, sym, ap, ap₂, ◌∙◌, ◌⊎◌, inl, inr, Bool, true, false, not, ◌&&◌, List, [],
  ◌∷◌, ◌++◌, length, take, drop, Byte, max_size, ◌==◌, if◌then◌else◌, arith, Bool-cases,
  append_assoc, append-nil, take-append-drop, length-drop,
}
use rpc_framework.Net.Buffer.{
  Buffer, IsValid, readable, peek, retrieve, retrieve_as_string, contents,
}
use rpc_framework.Net.Buffer.Growth.{length-contents}
use rpc_framework.Net.Buffer.Contents.{
  append_lem, write_idx-append, retrieve_as_string_lem, write_idx-retrieve,
}
use rpc_framework.Net.Connection.{
  Connection, connected, is_connected, is_disconnected, is_disconnecting, WriteResult, wrote,
  would_block, broken, keep_rest, write_now, send_in_loop, send, handle_write, drained,
}

-- An open connection. While it does not wait to write, nothing is left to write.
pub record IsOpen (s : Connection) : Type 0 where
  pub valid : IsValid s.output_buf
  pub open_state : s.state ≡ connected
  pub idle : s.writing ≡ false → contents s.output_buf ≡ []

-- What the peer has or will have: the bytes on the wire, and those that wait.
abbrev pub passed_on : Connection → List Byte
passed_on s = s.wire ++ contents s.output_buf

-- How `s` becomes `t` when `xs` is sent.
pub record Sent (xs : List Byte) (s t : Connection) : Type 0 where
  pub is_open : IsOpen t
  pub order : passed_on t ≡ passed_on s ++ xs
  pub low : t.output_buf.write_idx ≤ s.output_buf.write_idx + length xs

pub contents_nil : {b : Buffer} → IsValid b → (readable b == 0) ≡ true → contents b ≡ []
contents_nil {b} v h = length_nil (contents b) (ground (arith, length-contents v))
  where
    length_nil : (xs : List Byte) → length xs ≡ 0 → xs ≡ []
    length_nil [] e = refl
    length_nil (x ∷ xs) e = absurd (omega arith)

regroup :
    (n : ℕ) (w c xs : List Byte)
    → (n ≡ 0) ⊎ (c ≡ [])
    → (w ++ take n xs) ++ (c ++ drop n xs) ≡ (w ++ c) ++ xs
regroup n w c xs (inl z) = rw z (simp (append-nil, append_assoc))
regroup n w c xs (inr z) = rw z (
    append_assoc w (take n xs) (drop n xs)
    ∙ ap (◌++◌ w) (take-append-drop n xs)
    ∙ ap (λ y. y ++ xs) (sym (append-nil w)))

keep_rest-Sent :
    (xs : List Byte) (n : ℕ) {s : Connection}
    → IsOpen s
    → (n ≡ 0) ⊎ (contents s.output_buf ≡ [])
    → s.output_buf.write_idx + length xs ≤ max_size
    → Sent xs s (keep_rest xs n s)
keep_rest-Sent xs n {s} o h small =
    let size = length-drop n xs in
    let (v, e) = append_lem (drop n xs) o.valid (omega arith) in
    record {
      is_open = record { valid = v; open_state = o.open_state; idle = λ f. cc };
      order = ap (◌++◌ (s.wire ++ take n xs)) e ∙ regroup n s.wire (contents s.output_buf) xs h;
      low = omega (arith, write_idx-append (drop n xs) o.valid);
    }

-- The kernel takes no more than it is given, and the socket does not fail.
abbrev pub Took : WriteResult → ℕ → Type 0
Took (wrote n) offered = n ≤ offered
Took would_block offered = Unit {0}
Took broken offered = ⊥

write_now-Sent :
    (xs : List Byte) (r : WriteResult) {s : Connection}
    → IsOpen s
    → contents s.output_buf ≡ []
    → Took r (length xs)
    → s.output_buf.write_idx + length xs ≤ max_size
    → Sent xs s (write_now xs r s)
unfolding write_now
write_now-Sent xs broken o z k small = absurd k
write_now-Sent xs would_block o z k small = keep_rest-Sent xs 0 o (inl refl) small
write_now-Sent xs (wrote n) {s} o z k small = elim (Bool-cases (n == length xs)) [
  | inl all ↦ rw all (record {
    is_open = record { valid = o.valid; open_state = o.open_state; idle = λ f. z };
    order =
        ap (◌++◌ (s.wire ++ xs)) z
        ∙ append-nil _
        ∙ ap (λ y. y ++ xs) (sym (append-nil s.wire) ∙ ap (◌++◌ s.wire) (sym z));
    low = omega arith;
  })
  | inr part ↦ rw part (keep_rest-Sent xs n o (inr z) small)
]

pub send-Sent :
    (xs : List Byte) (r : WriteResult) {s : Connection}
    → IsOpen s
    → Took r (length xs)
    → s.output_buf.write_idx + length xs ≤ max_size
    → Sent xs s (send xs r s)
unfolding send send_in_loop
send-Sent xs r {s} o k small =
    rw (ap is_connected o.open_state, ap is_disconnected o.open_state)
      (elim (Bool-cases (not s.writing && (readable s.output_buf == 0))) [
        | inl now ↦ rw now (write_now-Sent xs r o (contents_nil o.valid (ground arith)) k small)
        | inr wait ↦ rw wait (keep_rest-Sent xs 0 o (inl refl) small)
      ])

-- The bytes on their way once `handle_write` has written `n` of those that wait.
abbrev out : ℕ → Connection → Connection
out n s = record s { output_buf = retrieve n s.output_buf; wire = s.wire ++ peek s.output_buf n }

out-order :
    (n : ℕ) {s : Connection}
    → IsOpen s
    → n ≤ readable s.output_buf
    → IsValid (out n s).output_buf × (passed_on (out n s) ≡ passed_on s)
unfolding retrieve_as_string
out-order n {s} o small =
    let (taken, v, left) = retrieve_as_string_lem n o.valid small in
    (
      v,
      ap₂ (λ (x y : List Byte). (s.wire ++ x) ++ y) taken left
          ∙ append_assoc s.wire _ _
          ∙ ap (◌++◌ s.wire) (take-append-drop n (contents s.output_buf)),
    )

out-Sent :
    (n : ℕ) {s : Connection}
    → IsOpen s
    → s.writing ≡ true
    → n ≤ readable s.output_buf
    → Sent [] s (if readable (out n s).output_buf == 0 then drained (out n s) else out n s)
out-Sent n {s} o w small =
    let (v, e) = out-order n o small in
    let low = write_idx-retrieve n o.valid in
    let same = e ∙ sym (append-nil (passed_on s)) in
    elim (Bool-cases (readable (out n s).output_buf == 0)) [
      | inl z ↦
          rw (z, ap is_disconnecting o.open_state)
            (record {
              is_open = record {
                valid = v;
                open_state = o.open_state;
                idle = λ f. contents_nil v z;
              };
              order = same;
              low = omega arith;
            })
      | inr more ↦ rw more (record {
        is_open = record { valid = v; open_state = o.open_state; idle = λ f. cc };
        order = same;
        low = omega arith;
      })
    ]

pub handle_write-Sent :
    (r : WriteResult) {s : Connection}
    → IsOpen s
    → Took r (readable s.output_buf)
    → Sent [] s (handle_write r s)
unfolding handle_write
handle_write-Sent r {s} o k = go s.writing refl r k
  where
    still : Sent [] s s
    still = record { is_open = o; order = sym (append-nil (passed_on s)); low = omega arith }

    go :
        (b : Bool)
        → s.writing ≡ b
        → (r : WriteResult) → Took r (readable s.output_buf)
        → Sent [] s (
            if b
            then elim r [
              | wrote n ↦
                  if n == 0
                  then s
                  else if readable (out n s).output_buf == 0
                  then drained (out n s)
                  else out n s
              | would_block ↦ s
              | broken ↦ s
            ]
            else s)
    go false w r k = still
    go true w (wrote n) k = elim (Bool-cases (n == 0)) [
      | inl z ↦ rw z still
      | inr p ↦ rw p (out-Sent n o w k)
    ]
    go true w would_block k = still
    go true w broken k = absurd k

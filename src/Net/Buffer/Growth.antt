-- ===== src/Net/Buffer/Growth.antt =====
-- `ensure_writable` and `grow` of include/net/buffer.h: room is made and no readable byte is lost.
use rpc_framework.Base.{
  ℕ, ◌+◌, ◌-◌, ◌≤◌, ◌<◌, ◌≡◌, refl, ap, ◌∙◌, inl, inr, List, ◌++◌, length, take, replicate, Byte,
  add_size, ltb, leb, max_size, arith, Bool-cases, length-append, length-take, length-replicate,
  take-eq_self, ltb→le, ltb→lt,
}
use rpc_framework.Base.Slices.{
  slice, write_at, slice-write_at, slice-append, length-slice, length-write_at,
}
use rpc_framework.Net.Buffer.{
  Buffer, IsValid, prepend_size, readable, writable, prependable, peek, resize, grow,
  ensure_writable, contents,
}

pub readable_lem : {b : Buffer} → IsValid b → readable b ≡ b.write_idx - b.read_idx
unfolding readable
readable_lem v = omega arith

pub writable_lem : {b : Buffer} → IsValid b → writable b ≡ length b.buf - b.write_idx
unfolding writable
writable_lem v = omega arith

pub length-contents : {b : Buffer} → IsValid b → length (contents b) ≡ readable b
unfolding peek
length-contents {b} v = length-slice b.read_idx (readable b) b.buf (omega (arith, readable_lem v))

-- Moving the readable bytes to the front, or making the array longer, keeps them.
pub record Keeps (len : ℕ) (b c : Buffer) : Type 0 where
  pub valid : IsValid c
  pub room : c.write_idx + len ≤ length c.buf
  pub same : contents c ≡ contents b

moved : Buffer → Buffer
moved b = record {
  buf = write_at prepend_size (peek b (readable b)) b.buf;
  read_idx = prepend_size;
  write_idx = add_size prepend_size (readable b);
}

moved-IsValid : {b : Buffer} → IsValid b → IsValid (moved b)
unfolding moved
moved-IsValid {b} v =
    omega (arith, readable_lem v, length-write_at prepend_size (peek b (readable b)) b.buf)

moved-Keeps :
    (len : ℕ) {b : Buffer}
    → IsValid b
    → len + prepend_size ≤ writable b + prependable b
    → Keeps len b (moved b)
unfolding moved peek prependable
moved-Keeps len {b} v h = record {
  valid = moved-IsValid v;
  room = omega (
    arith,
    readable_lem v,
    writable_lem v,
    length-write_at prepend_size (peek b (readable b)) b.buf,
  );
  same =
      ap (λ n. slice prepend_size n (moved b).buf)
        (omega (arith, readable_lem (moved-IsValid v), readable_lem v))
      ∙ slice-write_at prepend_size 0 prepend_size (readable b) (peek b (readable b)) b.buf refl
          (omega (arith, length-contents v)) (omega (arith, readable_lem v));
}

lengthened : ℕ → Buffer → Buffer
lengthened len b = record b { buf = resize (add_size b.write_idx len) b.buf }

resize-append :
    (n : ℕ) (a : List Byte) → length a ≤ n → resize n a ≡ a ++ replicate (n - length a) 0
unfolding resize
resize-append n a h = ap (λ xs. xs ++ replicate (n - length a) 0) (take-eq_self n a h)

pub length-resize : (n : ℕ) (a : List Byte) → length (resize n a) ≡ n
unfolding resize
length-resize n a = omega (
  arith,
  length-append (take n a) (replicate (n - length a) 0),
  length-take n a,
  length-replicate {A = Byte} (n - length a) 0,
)

lengthened-IsValid :
    (len : ℕ) {b : Buffer} → IsValid b → b.write_idx + len ≤ max_size → IsValid (lengthened len b)
unfolding lengthened
lengthened-IsValid len {b} v small = omega (arith, length-resize (add_size b.write_idx len) b.buf)

lengthened-Keeps :
    (len : ℕ) {b : Buffer}
    → IsValid b
    → writable b < len
    → b.write_idx + len ≤ max_size
    → Keeps len b (lengthened len b)
unfolding lengthened peek
lengthened-Keeps len {b} v h small = record {
  valid = lengthened-IsValid len v small;
  room = omega (arith, length-resize (add_size b.write_idx len) b.buf);
  same =
      ap (λ n. slice b.read_idx n (lengthened len b).buf)
        (omega (arith, readable_lem (lengthened-IsValid len v small), readable_lem v))
      ∙ ap (slice b.read_idx (readable b))
          (resize-append (add_size b.write_idx len) b.buf (omega (arith, writable_lem v)))
      ∙ slice-append b.read_idx (readable b) b.buf _ (omega (arith, readable_lem v));
}

grow-Keeps :
    (len : ℕ) {b : Buffer}
    → IsValid b
    → writable b < len
    → b.write_idx + len ≤ max_size
    → Keeps len b (grow len b)
unfolding grow moved lengthened prependable
grow-Keeps len {b} v h small =
    elim (Bool-cases (leb (add_size len prepend_size) (add_size (writable b) (prependable b)))) [
      | inl fits ↦ rw fits (moved-Keeps len v (ground (arith, writable_lem v)))
      | inr full ↦ rw full (lengthened-Keeps len v h small)
    ]

pub ensure_writable-Keeps :
    (len : ℕ) {b : Buffer}
    → IsValid b
    → b.write_idx + len ≤ max_size
    → Keeps len b (ensure_writable len b)
unfolding ensure_writable
ensure_writable-Keeps len {b} v small = elim (Bool-cases (ltb (writable b) len)) [
  | inl short ↦ rw short (grow-Keeps len v (ltb→lt _ _ short) small)
  | inr enough ↦
      rw enough
        (record { valid = v; room = omega (arith, ltb→le _ _ enough, writable_lem v); same = refl })
]

pub ensure_writable-le :
    (len : ℕ) {b : Buffer} → IsValid b → (ensure_writable len b).write_idx ≤ b.write_idx
unfolding ensure_writable grow
ensure_writable-le len {b} v = ground (arith, readable_lem v)

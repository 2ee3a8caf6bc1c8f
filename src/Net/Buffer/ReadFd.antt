-- ===== src/Net/Buffer/ReadFd.antt =====
-- src/net/buffer.cpp: `Buffer::read_fd`, a scatter read into the buffer and an array on the stack.
-- `readv` is the kernel's: it takes the room of both parts and returns the bytes read or an error.
-- It fills the first part before it touches the second, so the bytes come as one list.
use rpc_framework.Base.{
  ℕ, ◌+◌, ◌≤◌, ◌<◌, ◌≡◌, refl, subst, ap, ◌∙◌, inl, inr, List, ◌++◌, length, take, drop, Byte,
  add_size, ltb, leb, if◌then◌else◌, max_size, arith, Bool-cases, length-take, length-drop,
  take-eq_self, take-append-drop, append_assoc,
}
use rpc_framework.Base.Slices.{length-write_at, write_at}
use rpc_framework.Net.Buffer.{Buffer, IsValid, writable, has_written, copy_in, append, contents}
use rpc_framework.Net.Buffer.Growth.{writable_lem}
use rpc_framework.Net.Buffer.Contents.{
  append_lem, write_idx-append, has_written-le, copy_in-has_written,
}

abbrev pub extra_size : ℕ
extra_size = 65536

pub data ReadResult : Type 0 where
  bytes : List Byte → ReadResult
  failed : ℕ → ReadResult

-- The sum of `vec[i].iov_len` over the `iovcnt` parts.
unfoldable pub iov_total : Buffer → ℕ
iov_total b = if ltb (writable b) extra_size then add_size (writable b) extra_size else writable b

-- The two successful branches, after `readv` has put what fits behind `write_idx`.
unfoldable pub store_read : List Byte → Buffer → Buffer
store_read xs b =
    let w = writable b in
    let c = copy_in (take w xs) b in
    if leb (length xs) w
    then has_written (length xs) c
    else append (drop w xs) (record c { write_idx = length c.buf })

-- `n` and `*saved_errno` are the count of a `bytes` and the number of a `failed`.
unfoldable pub read_fd : (ℕ → ReadResult) → Buffer → ReadResult × Buffer
read_fd readv b = elim (readv (iov_total b)) [
  | bytes xs ↦ (bytes xs, store_read xs b)
  | failed e ↦ (failed e, b)
]

-- The write index is put at the end of the array once `readv` has filled it.
filled : List Byte → Buffer → Buffer
filled xs b = record (copy_in xs b) { write_idx = length (copy_in xs b).buf }

filled-eq-has_written :
    (xs : List Byte) {b : Buffer}
    → IsValid b
    → length xs ≡ writable b
    → has_written (length xs) (copy_in xs b) ≡ filled xs b
unfolding filled has_written copy_in
filled-eq-has_written xs {b} v e =
    ap (λ n. record b { buf = write_at b.write_idx xs b.buf; write_idx = n }) whole
  where
    whole : add_size b.write_idx (length xs) ≡ length (write_at b.write_idx xs b.buf)
    whole = omega (arith, writable_lem v, length-write_at b.write_idx xs b.buf)

-- The array is filled to its end.
filled_lem :
    (xs : List Byte) {b : Buffer}
    → IsValid b
    → length xs ≡ writable b
    → IsValid (filled xs b) × (contents (filled xs b) ≡ contents b ++ xs)
filled_lem xs {b} v e =
    subst (λ c. IsValid c × (contents c ≡ contents b ++ xs)) (filled-eq-has_written xs v e)
      (copy_in-has_written xs v (omega (arith, writable_lem v)))

write_idx-filled : (xs : List Byte) (b : Buffer) → (filled xs b).write_idx ≡ length b.buf
unfolding filled copy_in
write_idx-filled xs b = length-write_at b.write_idx xs b.buf

-- The bytes of a read are appended to the contents, whether or not they spill into the array on the
-- stack, and the layout is kept, provided that they still fit a vector.
pub store_read_lem :
    (xs : List Byte) {b : Buffer}
    → IsValid b
    → b.write_idx + length xs ≤ max_size
    → IsValid (store_read xs b)
      × (contents (store_read xs b) ≡ contents b ++ xs)
      × ((store_read xs b).write_idx ≤ b.write_idx + length xs)
unfolding store_read filled
store_read_lem xs {b} v small = elim (Bool-cases (leb (length xs) (writable b))) [
  | inl fits ↦
      rw (fits, take-eq_self (writable b) xs (ground arith))
        (let (valid, whole) = copy_in-has_written xs v (ground (arith, writable_lem v)) in
          (valid, whole, has_written-le xs b))
  | inr spills ↦ rw spills (spilled (ground arith))
]
  where
    w : ℕ
    w = writable b

    spilled :
        w < length xs
        → let c = append (drop w xs) (filled (take w xs) b) in
          IsValid c × (contents c ≡ contents b ++ xs) × (c.write_idx ≤ b.write_idx + length xs)
    spilled h =
        let (valid, whole) = filled_lem (take w xs) v (omega (arith, length-take w xs)) in
        let room : (filled (take w xs) b).write_idx + length (drop w xs) ≤ b.write_idx + length xs =
          omega (arith, write_idx-filled (take w xs) b, length-drop w xs, writable_lem v) in
        let (valid', whole') = append_lem (drop w xs) valid (omega arith) in
        (
          valid',
          whole'
              ∙ ap (λ ys. ys ++ drop w xs) whole
              ∙ append_assoc (contents b) (take w xs) (drop w xs)
              ∙ ap (λ ys. contents b ++ ys) (take-append-drop w xs),
          omega (arith, write_idx-append (drop w xs) valid),
        )

-- What a result of `readv` means for the buffer.
abbrev pub Stored : ReadResult → Buffer → Buffer → Type 0
Stored (bytes xs) b c = contents c ≡ contents b ++ xs
Stored (failed e) b c = c ≡ b

-- `read_fd` passes on what `readv` returns for the room of the two parts. If that is bytes, no more
-- than the room that was offered, then all of them, those in the array on the stack included, are
-- behind the earlier contents; if it is an error, the buffer is unchanged. The layout is kept. The
-- condition is that the room offered ends below the largest size of a vector.
pub read_fd_lem :
    (readv : ℕ → ReadResult) {b : Buffer}
    → ((n : ℕ) (xs : List Byte) → readv n ≡ bytes xs → length xs ≤ n)
    → IsValid b
    → b.write_idx + iov_total b ≤ max_size
    → let (r, c) = read_fd readv b in (r ≡ readv (iov_total b)) × IsValid c × Stored r b c
unfolding read_fd
read_fd_lem readv {b} fits v small = go (readv (iov_total b)) refl
  where
    go :
        (r : ReadResult)
        → readv (iov_total b) ≡ r
        → let (r', c) = read_fd readv b in (r' ≡ readv (iov_total b)) × IsValid c × Stored r' b c
    go (bytes xs) e =
        let h : length xs ≤ iov_total b = fits (iov_total b) xs e in
        let s = store_read_lem xs v (omega arith) in rw (e, read_fd) (refl, s.0, s.1)
    go (failed n) e = rw (e, read_fd) (refl, v, refl)

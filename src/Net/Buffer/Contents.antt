-- ===== src/Net/Buffer/Contents.antt =====
-- The buffer as a queue of bytes: what each method of include/net/buffer.h does to its contents.
use rpc_framework.Base.{
  ℕ, ◌+◌, ◌-◌, ◌^◌, ◌≤◌, ◌≡◌, refl, sym, ap, ◌∙◌, inl, inr, List, [], ◌++◌, length, take, drop,
  Byte, add_size, ◌==◌, max_size, arith, Bool-cases, length-replicate, drop-eq_nil, take-take,
}
use rpc_framework.Base.Slices.{slice, write_at, slice-write_at, drop-slice, length-write_at}
use rpc_framework.Net.Buffer.{
  Buffer, IsValid, prepend_size, readable, peek, peek_at, ensure_writable, has_written, copy_in,
  append, reset, retrieve, retrieve_as_string, retrieve_all_as_string, contents, init,
}
use rpc_framework.Net.Buffer.Growth.{
  ensure_writable-le, readable_lem, length-contents, ensure_writable-Keeps,
}

pub copy_in-has_written :
    (xs : List Byte) {c : Buffer}
    → IsValid c
    → c.write_idx + length xs ≤ length c.buf
    → IsValid (has_written (length xs) (copy_in xs c))
      × (contents (has_written (length xs) (copy_in xs c)) ≡ contents c ++ xs)
unfolding has_written copy_in peek
copy_in-has_written xs {c} v room = (valid, ap (λ n. slice c.read_idx n filled) grown ∙ extended)
  where
    filled : List Byte
    filled = write_at c.write_idx xs c.buf

    valid : IsValid (has_written (length xs) (copy_in xs c))
    valid = omega (arith, length-write_at c.write_idx xs c.buf)

    grown : readable (has_written (length xs) (copy_in xs c)) ≡ readable c + length xs
    grown = omega (arith, readable_lem valid, readable_lem v)

    extended :
        slice c.read_idx (readable c + length xs) filled ≡ slice c.read_idx (readable c) c.buf ++ xs
    extended =
        slice-write_at c.read_idx (readable c) c.write_idx _ xs c.buf
          (omega (arith, readable_lem v)) refl (omega (arith, readable_lem v))

-- `append` keeps the layout and puts its bytes behind the contents, whether or not it has to move
-- the readable bytes or to lengthen the array, provided that the bytes still fit a vector.
pub append_lem :
    (xs : List Byte) {b : Buffer}
    → IsValid b
    → b.write_idx + length xs ≤ max_size
    → IsValid (append xs b) × (contents (append xs b) ≡ contents b ++ xs)
unfolding append
append_lem xs {b} v small =
    let k = ensure_writable-Keeps (length xs) v small in
    let (valid, grown) = copy_in-has_written xs k.valid k.room in
    (valid, grown ∙ ap (λ ys. ys ++ xs) k.same)

pub has_written-le :
    (xs : List Byte) (b : Buffer)
    → (has_written (length xs) (copy_in xs b)).write_idx ≤ b.write_idx + length xs
unfolding has_written copy_in
has_written-le xs b = omega arith

-- The write index rises by no more than what is appended.
pub write_idx-append :
    (xs : List Byte) {b : Buffer} → IsValid b → (append xs b).write_idx ≤ b.write_idx + length xs
unfolding append
write_idx-append xs {b} v =
    omega
      (arith, has_written-le xs (ensure_writable (length xs) b), ensure_writable-le (length xs) v)

-- Bytes read at an offset from `peek()` are those of the contents, where these reach that far.
pub peek_at_lem :
    (off n : ℕ) {b : Buffer}
    → IsValid b
    → off + n ≤ readable b
    → peek_at b off n ≡ take n (drop off (contents b))
unfolding peek_at peek
peek_at_lem off n {b} v h =
    let m = readable b - off in
    sym (
      ap (take n) (
        drop-slice off b.read_idx (readable b) (add_size b.read_idx off) m b.buf (omega arith)
          (omega (arith, readable_lem v)))
      ∙ take-take n m (drop (add_size b.read_idx off) b.buf) (omega arith))

-- The read index moved on by `n`.
skipped : ℕ → Buffer → Buffer
skipped n b = record b { read_idx = add_size b.read_idx n }

skipped_lem :
    (n : ℕ) {b : Buffer}
    → IsValid b
    → n ≤ readable b
    → IsValid (skipped n b) × (contents (skipped n b) ≡ drop n (contents b))
unfolding skipped peek
skipped_lem n {b} v h = (valid, sym moved_on)
  where
    at : add_size b.read_idx n ≡ b.read_idx + n
    at = omega (arith, readable_lem v)

    valid : IsValid (skipped n b)
    valid = omega (arith, readable_lem v)

    moved_on :
        drop n (slice b.read_idx (readable b) b.buf)
        ≡ slice (add_size b.read_idx n) (readable (skipped n b)) b.buf
    moved_on =
        drop-slice n b.read_idx (readable b) (add_size b.read_idx n) (readable (skipped n b)) b.buf
          (omega (arith, readable_lem valid, readable_lem v)) at

reset-IsValid : {b : Buffer} → IsValid b → IsValid (reset b)
unfolding reset
reset-IsValid v = omega arith

contents-reset : {b : Buffer} → IsValid b → contents (reset b) ≡ []
unfolding reset peek
contents-reset {b} v =
    ap (λ n. slice prepend_size n b.buf) {y = 0} (omega (arith, readable_lem (reset-IsValid v)))

-- `retrieve` of no more than is readable keeps the layout and takes exactly that many bytes off the
-- front, also where it empties the buffer and resets the indices.
pub retrieve_lem :
    (n : ℕ) {b : Buffer}
    → IsValid b
    → n ≤ readable b
    → IsValid (retrieve n b) × (contents (retrieve n b) ≡ drop n (contents b))
unfolding retrieve skipped
retrieve_lem n {b} v h = elim (Bool-cases (add_size b.read_idx n == b.write_idx)) [
  | inl empty ↦ rw empty (
    reset-IsValid (skipped_lem n v h).0,
    contents-reset (skipped_lem n v h).0
        ∙ sym (drop-eq_nil n (contents b) (ground (arith, length-contents v, readable_lem v))),
  )
  | inr more ↦ rw more (skipped_lem n v h)
]

pub write_idx-retrieve : (n : ℕ) {b : Buffer} → IsValid b → (retrieve n b).write_idx ≤ b.write_idx
unfolding retrieve reset
write_idx-retrieve n {b} v = ground arith

-- `retrieve_as_string` returns the first `n` readable bytes and removes them.
pub retrieve_as_string_lem :
    (n : ℕ) {b : Buffer}
    → IsValid b
    → n ≤ readable b
    → let (s, c) = retrieve_as_string n b in
      (s ≡ take n (contents b)) × IsValid c × (contents c ≡ drop n (contents b))
unfolding retrieve_as_string peek
retrieve_as_string_lem n {b} v h = (
  sym (take-take n (readable b) (drop b.read_idx b.buf) h),
  (retrieve_lem n v h).0,
  (retrieve_lem n v h).1,
)

-- `retrieve_all_as_string` returns the contents and leaves an empty buffer.
pub retrieve_all_as_string_lem :
    {b : Buffer}
    → IsValid b
    → let (s, c) = retrieve_all_as_string b in (s ≡ contents b) × IsValid c × (contents c ≡ [])
unfolding retrieve_all_as_string retrieve_as_string
retrieve_all_as_string_lem {b} v = (
  refl,
  (retrieve_lem (readable b) v (omega arith)).0,
  (retrieve_lem (readable b) v (omega arith)).1
      ∙ drop-eq_nil (readable b) (contents b) (omega (arith, length-contents v)),
)

-- A new buffer is well formed and empty.
pub init_lem :
    (n : ℕ)
    → n ≤ 2 ^ 62
    → IsValid (init n) × (contents (init n) ≡ []) × ((init n).write_idx ≡ prepend_size)
unfolding init peek
init_lem n h = (valid, drained, refl)
  where
    valid : IsValid (init n)
    valid = omega (arith, length-replicate {A = Byte} (add_size prepend_size n) 0)

    drained : slice prepend_size (readable (init n)) (init n).buf ≡ []
    drained =
        ap (λ k. slice prepend_size k (init n).buf) {y = 0} (omega (arith, readable_lem valid))

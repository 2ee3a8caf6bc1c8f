-- ===== src/Net/Buffer/Queue/Bounded.antt =====
-- How much memory a buffer of include/net/buffer.h takes.
use rpc_framework.Base.{
  ℕ, ◌+◌, ◌*◌, ◌≤◌, ◌<◌, ◌≡◌, refl, inl, inr, List, [], ◌∷◌, ◌++◌, length, drop, Byte, arith,
  max_size, Bool-cases, ltb, leb, ltb→lt, add_size, ◌==◌, length-append,
}
use rpc_framework.Base.Slices.{length-write_at}
use rpc_framework.Net.Buffer.{
  Buffer, IsValid, append, retrieve, retrieve_as_string, retrieve_all_as_string, contents, readable,
  writable, prependable, ensure_writable, grow, copy_in, has_written, prepend_size, peek, reset,
}
use rpc_framework.Net.Buffer.Growth.{length-contents, readable_lem, writable_lem, length-resize}
use rpc_framework.Net.Buffer.Contents.{
  append_lem, write_idx-append, retrieve_lem, write_idx-retrieve, retrieve_as_string_lem,
  retrieve_all_as_string_lem,
}
use rpc_framework.Net.Buffer.Queue.{Op, put, skip, get, get_all, run, Allowed, amount}

-- The longest array of a buffer in which no more than `k` bytes wait.
abbrev pub most : ℕ → ℕ
most k = prepend_size + 2 * k

grow-most :
    (len k : ℕ) {b : Buffer}
    → IsValid b
    → writable b < len
    → b.write_idx + len ≤ max_size
    → readable b + len ≤ k
    → length b.buf ≤ most k
    → length (grow len b).buf ≤ most k
unfolding grow prependable peek
grow-most len k {b} v h small few start =
    elim (Bool-cases (leb (add_size len prepend_size) (add_size (writable b) (prependable b)))) [
      | inl fits ↦ rw fits (omega (arith, length-write_at prepend_size (peek b (readable b)) b.buf))
      | inr full ↦
          let gap : add_size (writable b) b.read_idx < add_size len prepend_size = ground arith in
          rw full (
            omega (
              arith,
              length-resize (add_size b.write_idx len) b.buf,
              readable_lem v,
              writable_lem v,
              gap,
            ))
    ]

ensure_writable-most :
    (len k : ℕ) {b : Buffer}
    → IsValid b
    → b.write_idx + len ≤ max_size
    → readable b + len ≤ k
    → length b.buf ≤ most k
    → length (ensure_writable len b).buf ≤ most k
unfolding ensure_writable
ensure_writable-most len k {b} v small few start = elim (Bool-cases (ltb (writable b) len)) [
  | inl short ↦ rw short (grow-most len k v (ltb→lt _ _ short) small few start)
  | inr enough ↦ rw enough start
]

append-most :
    (xs : List Byte) (k : ℕ) {b : Buffer}
    → IsValid b
    → b.write_idx + length xs ≤ max_size
    → readable b + length xs ≤ k
    → length b.buf ≤ most k
    → length (append xs b).buf ≤ most k
unfolding append has_written copy_in
append-most xs k {b} v small few start =
    let c = ensure_writable (length xs) b in
    omega (
      arith,
      length-write_at c.write_idx xs c.buf,
      ensure_writable-most (length xs) k v small few start,
    )

length-retrieve : (n : ℕ) (b : Buffer) → length (retrieve n b).buf ≡ length b.buf
unfolding retrieve reset
length-retrieve n b = elim (Bool-cases (add_size b.read_idx n == b.write_idx)) [
  | inl y ↦ rw y refl
  | inr z ↦ rw z refl
]

-- No more than `k` bytes wait at any time.
abbrev pub Peak : ℕ → List Byte → List Op → Type 0
Peak k q [] = Unit {0}
Peak k q (put xs ∷ ops) = (length (q ++ xs) ≤ k) × Peak k (q ++ xs) ops
Peak k q (skip n ∷ ops) = Peak k (drop n q) ops
Peak k q (get n ∷ ops) = Peak k (drop n q) ops
Peak k q (get_all ∷ ops) = Peak k [] ops

-- A buffer through which no more than `k` bytes wait at any time keeps an array of at most 2 k + 8
-- bytes, if it starts with no longer one, however many bytes pass through it: for any sequence of
-- calls that meets the asserts and appends no more than a vector can hold.
pub run_bounded :
    (ops : List Op) (k : ℕ) {b : Buffer}
    → IsValid b
    → b.write_idx + amount ops ≤ max_size
    → Allowed (contents b) ops
    → Peak k (contents b) ops
    → length b.buf ≤ most k
    → length (run b ops).1.buf ≤ most k
unfolding run retrieve_as_string retrieve_all_as_string
run_bounded [] k v small a peak start = start
run_bounded (put xs ∷ ops) k {b} v small a (few, peak) start =
    let (v', e) = append_lem xs v (omega arith) in
    let room : readable b + length xs ≤ k =
      omega (arith, few, length-append (contents b) xs, length-contents v) in
    run_bounded ops k v' (omega (arith, write_idx-append xs v)) (rw e a) (rw e peak)
      (append-most xs k v (omega arith) room start)
run_bounded (skip n ∷ ops) k {b} v small a peak start =
    let (v', e) = retrieve_lem n v (omega (arith, length-contents v, a.0)) in
    run_bounded ops k v' (omega (arith, write_idx-retrieve n v)) (rw e a.1) (rw e peak)
      (omega (arith, length-retrieve n b, start))
run_bounded (get n ∷ ops) k {b} v small a peak start =
    let (s, v', e) = retrieve_as_string_lem n v (omega (arith, length-contents v, a.0)) in
    run_bounded ops k {b = retrieve n b} v' (omega (arith, write_idx-retrieve n v)) (rw e a.1)
      (rw e peak) (omega (arith, length-retrieve n b, start))
run_bounded (get_all ∷ ops) k {b} v small a peak start =
    let (s, v', e) = retrieve_all_as_string_lem v in
    run_bounded ops k {b = retrieve (readable b) b} v'
      (omega (arith, write_idx-retrieve (readable b) v)) (rw e a) (rw e peak)
      (omega (arith, length-retrieve (readable b) b, start))

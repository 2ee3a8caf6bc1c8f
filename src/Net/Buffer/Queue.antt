-- ===== src/Net/Buffer/Queue.antt =====
-- What include/net/buffer.h promises its users: a queue of bytes. The queue knows nothing of the
-- indices and the array; the buffer is compared with it over any sequence of calls.
pub mod Bounded
use rpc_framework.Base.{
  ℕ, ◌+◌, ◌≤◌, ◌≡◌, refl, ap, ap₂, ◌∙◌, List, [], ◌∷◌, ◌++◌, length, take, drop, Byte, arith,
  max_size,
}
use rpc_framework.Net.Buffer.{
  Buffer, IsValid, append, retrieve, retrieve_as_string, retrieve_all_as_string, contents, readable,
}
use rpc_framework.Net.Buffer.Growth.{length-contents}
use rpc_framework.Net.Buffer.Contents.{
  append_lem, write_idx-append, retrieve_lem, write_idx-retrieve, retrieve_as_string_lem,
  retrieve_all_as_string_lem,
}

-- The calls: `append`, `retrieve`, `retrieve_as_string`, `retrieve_all_as_string`.
pub data Op : Type 0 where
  put : List Byte → Op
  skip : ℕ → Op
  get : ℕ → Op
  get_all : Op

-- The strings that the calls return, and the buffer after them.
pub run : Buffer → List Op → List (List Byte) × Buffer
run b [] = ([], b)
run b (put xs ∷ ops) = run (append xs b) ops
run b (skip n ∷ ops) = run (retrieve n b) ops
run b (get n ∷ ops) =
    let (s, b') = retrieve_as_string n b in let (ss, c) = run b' ops in (s ∷ ss, c)
run b (get_all ∷ ops) =
    let (s, b') = retrieve_all_as_string b in let (ss, c) = run b' ops in (s ∷ ss, c)

pub queue_run : List Byte → List Op → List (List Byte) × List Byte
queue_run q [] = ([], q)
queue_run q (put xs ∷ ops) = queue_run (q ++ xs) ops
queue_run q (skip n ∷ ops) = queue_run (drop n q) ops
queue_run q (get n ∷ ops) = let (ss, r) = queue_run (drop n q) ops in (take n q ∷ ss, r)
queue_run q (get_all ∷ ops) = let (ss, r) = queue_run [] ops in (q ∷ ss, r)

-- The asserts of `retrieve` and `retrieve_as_string`, over the queue: no call asks for more bytes
-- than there are.
abbrev pub Allowed : List Byte → List Op → Type 0
Allowed q [] = Unit {0}
Allowed q (put xs ∷ ops) = Allowed (q ++ xs) ops
Allowed q (skip n ∷ ops) = (n ≤ length q) × Allowed (drop n q) ops
Allowed q (get n ∷ ops) = (n ≤ length q) × Allowed (drop n q) ops
Allowed q (get_all ∷ ops) = Allowed [] ops

-- How many bytes the calls append.
abbrev pub amount : List Op → ℕ
amount [] = 0
amount (put xs ∷ ops) = length xs + amount ops
amount (skip n ∷ ops) = amount ops
amount (get n ∷ ops) = amount ops
amount (get_all ∷ ops) = amount ops

run-queue_run :
    (ops : List Op) {b : Buffer} (q : List Byte)
    → IsValid b
    → b.write_idx + amount ops ≤ max_size
    → contents b ≡ q
    → Allowed q ops
    → let (ss, c) = run b ops in let (ss', r) = queue_run q ops in (ss ≡ ss') × (contents c ≡ r)
unfolding run queue_run retrieve_as_string retrieve_all_as_string
run-queue_run [] q v small e a = (refl, e)
run-queue_run (put xs ∷ ops) q v small e a =
    let (v', e') = append_lem xs v (omega arith) in
    run-queue_run ops (q ++ xs) v' (omega (arith, write_idx-append xs v)) (e' ∙ ap (λ x. x ++ xs) e)
      a
run-queue_run (skip n ∷ ops) q v small e a =
    let (v', e') = retrieve_lem n v (omega (arith, length-contents v, ap length e)) in
    run-queue_run ops (drop n q) v' (omega (arith, write_idx-retrieve n v)) (e' ∙ ap (drop n) e) a.1
run-queue_run (get n ∷ ops) {b} q v small e a =
    let (s, v', e') = retrieve_as_string_lem n v (omega (arith, length-contents v, ap length e)) in
    let (p, r) =
      run-queue_run ops {b = retrieve n b} (drop n q) v' (omega (arith, write_idx-retrieve n v))
        (e' ∙ ap (drop n) e) a.1 in
    (ap₂ ◌∷◌ (s ∙ ap (take n) e) p, r)
run-queue_run (get_all ∷ ops) {b} q v small e a =
    let (s, v', e') = retrieve_all_as_string_lem v in
    let (p, r) =
      run-queue_run ops {b = retrieve (readable b) b} [] v'
        (omega (arith, write_idx-retrieve (readable b) v)) e' a in
    (ap₂ ◌∷◌ (s ∙ e) p, r)

-- Any sequence of calls that meets the asserts, and that appends no more than a vector can hold,
-- returns the strings that the queue of bytes returns and leaves its bytes, however often the buffer
-- moves its bytes, grows or resets its indices on the way.
pub run_refines :
    (ops : List Op) {b : Buffer}
    → IsValid b
    → b.write_idx + amount ops ≤ max_size
    → Allowed (contents b) ops
    → let (ss, c) = run b ops in
      let (ss', r) = queue_run (contents b) ops in (ss ≡ ss') × (contents c ≡ r)
run_refines ops {b} v small a = run-queue_run ops (contents b) v small refl a

-- ===== src/Tests/Net.antt =====
-- Runs of the parts of src/net and include/net.
use rpc_framework.Base.{ℕ, ◌≤◌, ◌≡◌, refl, List, [], ◌∷◌, length, take, arith}
use rpc_framework.Net.Buffer.{Buffer, IsValid, retrieve_as_string, contents, readable, peek}
use rpc_framework.Net.Buffer.Contents.{retrieve_as_string_lem}
use rpc_framework.Net.Buffer.ReadFd.{ReadResult, bytes}
use rpc_framework.Net.Buffer.Queue.Bounded.{run_bounded, most}
use rpc_framework.Net.Buffer.Queue.{Op, put, skip, get, get_all, run, queue_run, run_refines}

-- Two bytes are readable, one more fits.
abbrev small : Buffer
small = record {
  buf = 0 ∷ 0 ∷ 0 ∷ 0 ∷ 0 ∷ 0 ∷ 0 ∷ 0 ∷ 0 ∷ 5 ∷ 6 ∷ 0 ∷ [];
  read_idx = 9;
  write_idx = 11;
}

small-IsValid : IsValid small
small-IsValid = omega arith

contents-small : contents small ≡ 5 ∷ 6 ∷ []
unfolding peek readable
contents-small = refl

retrieve_as_string_lem_example :
    let (s, c) = retrieve_as_string 1 small in (s ≡ 5 ∷ []) × IsValid c × (contents c ≡ 6 ∷ [])
unfolding peek readable
retrieve_as_string_lem_example = retrieve_as_string_lem 1 small-IsValid (omega arith)

-- A kernel that has three bytes.
abbrev three : ℕ → ReadResult
three n = bytes (take n (1 ∷ 2 ∷ 3 ∷ []))

abbrev calls : List Op
calls = put (7 ∷ 8 ∷ []) ∷ skip 1 ∷ get 2 ∷ put (9 ∷ []) ∷ get_all ∷ []

run_refines_example :
    let (ss, c) = run small calls in
    let (ss', r) = queue_run (contents small) calls in (ss ≡ ss') × (contents c ≡ r)
unfolding peek readable
run_refines_example = run_refines calls small-IsValid (omega arith) (omega arith)

-- No more than four bytes wait in it at any time.
run_bounded_example : length (run small calls).1.buf ≤ most 4
unfolding peek readable
run_bounded_example =
    run_bounded calls 4 small-IsValid (omega arith) (omega arith) (omega arith) (omega arith)

-- ===== src/Net/Buffer.antt =====
-- include/net/buffer.h and src/net/buffer.cpp: the contiguous byte buffer.
-- A method that changes the buffer returns the new one. The asserts of `retrieve` do not run
-- in a release build (README.md), so they are preconditions of the theorems here.
-- The exceptions of `std::vector::resize` are not modelled: the theorems bound the sizes instead.
pub mod Growth
pub mod Contents
pub mod ReadFd
pub mod Queue
use rpc_framework.Base.{
  ℕ, ◌-◌, ◌≤◌, List, ◌++◌, length, take, replicate, Byte, add_size, sub_size, ltb, leb,
  if◌then◌else◌, ◌==◌, max_size,
}
use rpc_framework.Base.Slices.{slice, write_at}

abbrev pub prepend_size : ℕ
prepend_size = 8

abbrev pub initial_size : ℕ
initial_size = 4096

pub record Buffer : Type 0 where
  pub buf : List Byte
  pub read_idx : ℕ
  pub write_idx : ℕ

unfoldable pub init : ℕ → Buffer
init n = record {
  buf = replicate (add_size prepend_size n) 0;
  read_idx = prepend_size;
  write_idx = prepend_size;
}

unfoldable pub readable : Buffer → ℕ
readable b = sub_size b.write_idx b.read_idx

unfoldable pub writable : Buffer → ℕ
writable b = sub_size (length b.buf) b.write_idx

pub prependable : Buffer → ℕ
prependable b = b.read_idx

-- The first `n` bytes at `peek()`.
unfoldable pub peek : Buffer → ℕ → List Byte
peek b n = slice b.read_idx n b.buf

-- `n` bytes at `peek() + off`.
unfoldable pub peek_at : Buffer → ℕ → ℕ → List Byte
peek_at b off n = slice (add_size b.read_idx off) n b.buf

-- `std::vector::resize`: new elements are zero.
unfoldable pub resize : ℕ → List Byte → List Byte
resize n a = take n a ++ replicate (n - length a) 0

unfoldable pub grow : ℕ → Buffer → Buffer
grow len b =
    if leb (add_size len prepend_size) (add_size (writable b) (prependable b))
    then record {
      buf = write_at prepend_size (peek b (readable b)) b.buf;
      read_idx = prepend_size;
      write_idx = add_size prepend_size (readable b);
    }
    else record b { buf = resize (add_size b.write_idx len) b.buf }

unfoldable pub ensure_writable : ℕ → Buffer → Buffer
ensure_writable len b = if ltb (writable b) len then grow len b else b

unfoldable pub has_written : ℕ → Buffer → Buffer
has_written len b = record b { write_idx = add_size b.write_idx len }

-- `memcpy(begin_write(), xs)`.
unfoldable pub copy_in : List Byte → Buffer → Buffer
copy_in xs b = record b { buf = write_at b.write_idx xs b.buf }

unfoldable pub append : List Byte → Buffer → Buffer
append xs b = has_written (length xs) (copy_in xs (ensure_writable (length xs) b))

unfoldable pub reset : Buffer → Buffer
reset b = record b { read_idx = prepend_size; write_idx = prepend_size }

unfoldable pub retrieve : ℕ → Buffer → Buffer
retrieve len b =
    let b' : Buffer = record b { read_idx = add_size b.read_idx len } in
    if b'.read_idx == b'.write_idx then reset b' else b'

unfoldable pub retrieve_as_string : ℕ → Buffer → List Byte × Buffer
retrieve_as_string len b = (peek b len, retrieve len b)

unfoldable pub retrieve_all_as_string : Buffer → List Byte × Buffer
retrieve_all_as_string b = retrieve_as_string (readable b) b

-- What a reader of the buffer still has to come.
abbrev pub contents : Buffer → List Byte
contents b = peek b (readable b)

-- The layout [prependable | readable | writable] of the class comment.
pub record IsValid (b : Buffer) : Type 0 where
  pub prepend_kept : prepend_size ≤ b.read_idx
  pub ordered : b.read_idx ≤ b.write_idx
  pub in_array : b.write_idx ≤ length b.buf
  pub small : length b.buf ≤ max_size

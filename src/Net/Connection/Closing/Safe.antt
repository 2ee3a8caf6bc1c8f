-- ===== src/Net/Connection/Closing/Safe.antt =====
-- What the operations of src/net/tcp_connection.cpp keep of the state of a connection.
use rpc_framework.Base.{
  ℕ, zero, suc, ◌+◌, ◌-◌, ◌≤◌, ◌≡◌, refl, sym, ap, ◌∙◌, inl, inr, Bool, true, false, not, ◌&&◌,
  ◌||◌, List, [], ◌∷◌, length, drop, Byte, max_size, ◌==◌, if◌then◌else◌, arith, Bool-cases,
  length-drop,
}
use rpc_framework.Net.Buffer.{Buffer, IsValid, readable, contents}
use rpc_framework.Net.Buffer.Contents.{append_lem, write_idx-append}
use rpc_framework.Net.Buffer.ReadFd.{ReadResult, bytes, failed, read_fd}
use rpc_framework.Net.Connection.{
  State, Connection, connecting, connected, disconnecting, disconnected, is_connected,
  is_disconnected, is_disconnecting, message, WriteResult, wrote, would_block, broken, call,
  keep_rest, write_now, send_in_loop, send, shutdown_in_loop, shutdown, force_close, run_queued,
  handle_close, handle_error, handle_read, connection_destroyed,
}
use rpc_framework.Net.Connection.Sending.{contents_nil}

-- What holds of a connection from its start. An open one that does not wait to write has nothing
-- left to write, and the end of the stream has been announced only if nothing is left either.
pub record IsSafe (s : Connection) : Type 0 where
  pub valid : IsValid s.output_buf
  pub idle : is_disconnected s.state ≡ false → s.writing ≡ false → contents s.output_buf ≡ []
  pub ended : s.shut ≡ true → (contents s.output_buf ≡ []) × (is_connected s.state ≡ false)
  pub silent : is_disconnected s.state ≡ true → s.writing ≡ false

pub drop-nil : (n : ℕ) → drop {A = Byte} n [] ≡ []
drop-nil zero = refl
drop-nil (suc n) = refl

-- An operation that may add `n` bytes to the output.
pub record Keeps (n : ℕ) (s t : Connection) : Type 0 where
  pub is_safe : IsSafe t
  pub low : t.output_buf.write_idx ≤ s.output_buf.write_idx + n

pub stays : (n : ℕ) (s : Connection) → IsSafe s → Keeps n s s
stays n s p = record { is_safe = p; low = omega arith }

pub connected_open : (t : State) → is_connected t ≡ true → is_disconnected t ≡ false
connected_open connected h = refl
connected_open connecting h = refl
connected_open disconnecting h = refl
connected_open disconnected h = cc

pub disconnecting_open :
    (t : State) → is_disconnecting t ≡ true → (is_disconnected t ≡ false) × (is_connected t ≡ false)
disconnecting_open connected h = cc
disconnecting_open connecting h = cc
disconnecting_open disconnecting h = (refl, refl)
disconnecting_open disconnected h = cc

-- `s` with any input buffer, count of queued closes or callbacks.
pub handle_close-Keeps :
    (n : ℕ) (s t : Connection)
    → IsSafe s
    → t.output_buf ≡ s.output_buf
    → t.shut ≡ s.shut
    → Keeps n s (handle_close t)
unfolding handle_close connection_destroyed
handle_close-Keeps n s t p o h = record {
  is_safe = record {
    valid = rw o p.valid;
    idle = λ c w. cc;
    ended = λ e. (ap contents o ∙ (p.ended (sym h ∙ e)).0, refl);
    silent = λ c. refl;
  };
  low = omega (arith, ap (λ (b : Buffer). b.write_idx) o);
}

keep_rest-Keeps :
    (xs : List Byte) (n : ℕ) (s : Connection)
    → IsSafe s
    → is_connected s.state ≡ true
    → s.output_buf.write_idx + length xs ≤ max_size
    → Keeps (length xs) s (keep_rest xs n s)
keep_rest-Keeps xs n s p c small =
    let size = length-drop n xs in
    let (v, e) = append_lem (drop n xs) p.valid (omega arith) in
    let up = connected_open s.state c in
    record {
      is_safe = record {
        valid = v;
        idle = λ f w. cc;
        ended = λ e. absurd (let no = (p.ended e).1 in cc);
        silent = λ d. absurd cc;
      };
      low = omega (arith, write_idx-append (drop n xs) p.valid);
    }

write_now-Keeps :
    (xs : List Byte) (r : WriteResult) (s : Connection)
    → IsSafe s
    → is_connected s.state ≡ true
    → contents s.output_buf ≡ []
    → s.output_buf.write_idx + length xs ≤ max_size
    → Keeps (length xs) s (write_now xs r s)
unfolding write_now handle_error
write_now-Keeps xs broken s p c z small = handle_close-Keeps (length xs) s s p refl refl
write_now-Keeps xs would_block s p c z small = keep_rest-Keeps xs 0 s p c small
write_now-Keeps xs (wrote n) s p c z small = elim (Bool-cases (n == length xs)) [
  | inl all ↦ rw all (record {
    is_safe = record { valid = p.valid; idle = λ f w. z; ended = p.ended; silent = p.silent };
    low = omega arith;
  })
  | inr part ↦ rw part (keep_rest-Keeps xs n s p c small)
]

pub send-Keeps :
    (xs : List Byte) (r : WriteResult) (s : Connection)
    → IsSafe s
    → s.output_buf.write_idx + length xs ≤ max_size
    → Keeps (length xs) s (send xs r s)
unfolding send send_in_loop
send-Keeps xs r s p small = elim (Bool-cases (is_connected s.state)) [
  | inr n ↦ rw n (stays (length xs) s p)
  | inl c ↦
      rw (c, connected_open s.state c)
        (elim (Bool-cases (not s.writing && (readable s.output_buf == 0))) [
          | inl now ↦
              rw now (write_now-Keeps xs r s p c (contents_nil p.valid (ground arith)) small)
          | inr wait ↦ rw wait (keep_rest-Keeps xs 0 s p c small)
        ])
]

pub shutdown_in_loop-Keeps :
    (n : ℕ) (s t : Connection)
    → IsSafe t
    → is_connected t.state ≡ false
    → is_disconnected t.state ≡ false
    → t.output_buf.write_idx ≤ s.output_buf.write_idx + n
    → Keeps n s (shutdown_in_loop t)
unfolding shutdown_in_loop
shutdown_in_loop-Keeps n s t p c d low = go t.writing refl
  where
    go : (w : Bool) → t.writing ≡ w → Keeps n s (if w then t else record t { shut = true })
    go true w = record { is_safe = p; low = low }
    go false w = record {
      is_safe = record {
        valid = p.valid;
        idle = p.idle;
        ended = λ e. (p.idle d w, c);
        silent = p.silent;
      };
      low = low;
    }

pub shutdown-Keeps : (s : Connection) → IsSafe s → Keeps 0 s (shutdown s)
unfolding shutdown
shutdown-Keeps s p = elim (Bool-cases (is_connected s.state)) [
  | inr n ↦ rw n (stays 0 s p)
  | inl c ↦ rw c (
      shutdown_in_loop-Keeps 0 s (record s { state = disconnecting })
        (record {
          valid = p.valid;
          idle = λ f w. p.idle (connected_open s.state c) w;
          ended = λ e. ((p.ended e).0, refl);
          silent = λ e. cc;
        })
        refl refl (omega arith))
]

pub force_close-Keeps : (s : Connection) → IsSafe s → Keeps 0 s (force_close s)
unfolding force_close
force_close-Keeps s p = elim (Bool-cases (is_connected s.state || is_disconnecting s.state)) [
  | inr n ↦ rw n (stays 0 s p)
  | inl c ↦ rw c (record {
    is_safe = record {
      valid = p.valid;
      idle = λ f w. p.idle (open_state s.state c) w;
      ended = λ e. ((p.ended e).0, refl);
      silent = λ e. cc;
    };
    low = omega arith;
  })
]
  where
    open_state :
        (t : State) → (is_connected t || is_disconnecting t) ≡ true → is_disconnected t ≡ false
    open_state t h = ground (arith, connected_open t, disconnecting_open t)

pub run_queued-Keeps : (s : Connection) → IsSafe s → Keeps 0 s (run_queued s)
unfolding run_queued
run_queued-Keeps s p = elim (Bool-cases (s.queued_closes == 0)) [
  | inl z ↦ rw z (stays 0 s p)
  | inr q ↦
      rw q (handle_close-Keeps 0 s (record s { queued_closes = s.queued_closes - 1 }) p refl refl)
]

pub handle_read-Keeps :
    (readv : ℕ → ReadResult) (s : Connection) → IsSafe s → Keeps 0 s (handle_read readv s)
unfolding handle_read handle_error
handle_read-Keeps readv s p = go (read_fd readv s.input_buf).0 (read_fd readv s.input_buf).1
  where
    go :
        (r : ReadResult) (b : Buffer)
        → Keeps 0 s (elim r [
          | bytes [] ↦ handle_close (record s { input_buf = b })
          | bytes (x ∷ xs) ↦ call message (record s { input_buf = b })
          | failed e ↦ handle_close (record s { input_buf = b })
        ])
    go (bytes []) b = handle_close-Keeps 0 s (record s { input_buf = b }) p refl refl
    go (bytes (x ∷ xs)) b = record {
      is_safe = record { valid = p.valid; idle = p.idle; ended = p.ended; silent = p.silent };
      low = omega arith;
    }
    go (failed e) b = handle_close-Keeps 0 s (record s { input_buf = b }) p refl refl

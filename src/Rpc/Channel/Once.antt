-- ===== src/Rpc/Channel/Once.antt =====
-- How often the closure of a call runs (src/rpc/rpc_channel.cpp).
use rpc_framework.Base.{
  ℕ, ◌+◌, ◌≤◌, ◌≡◌, ◌≢◌, subst, some, get_elem?, arith, if◌then◌else◌, if_cases,
}
use rpc_framework.Base.Map.{find, nat_eq}
use rpc_framework.Base.Text.{codes}
use rpc_framework.Rpc.Channel.{
  Call, RpcChannel, connect, refuse_call, take_id, register, write_failed, take_call, finish_call,
  connection_closed, bad_stream, stop_reading, disconnect, run_done, fail, new_call,
}
use rpc_framework.Rpc.Channel.Calls.{
  unsent, Threads, start, Step, refuses, takes_id, registers, writes, fails_write, takes_call,
  finishes, closes, garbles, stops, disconnects, connects, Reach, here, later,
}
use rpc_framework.Rpc.Channel.Registered.{failures, Own, Inv, lose_all-Inv}
use rpc_framework.Rpc.Channel.Registered.Responses.{take_call-Inv, finish_call-Inv}
use rpc_framework.Rpc.Channel.Registered.Callers.{writes-Inv, register-Inv, write_failed-Inv}
use rpc_framework.Rpc.Channel.Registered.Made.{refuse-Inv, take_id-Inv}

abbrev IsFine : Threads → Type 0
IsFine s = Inv s.channel.pending_calls s.channel.calls s.callers s.answers

Step-IsFine : {s t : Threads} → Step s t → IsFine s → IsFine t
unfolding refuse_call take_id register write_failed take_call finish_call connection_closed
    bad_stream stop_reading connect disconnect
Step-IsFine (refuses has_done e) v =
    refuse-Inv (run_done (fail (codes "not connected") (new_call has_done))) (λ p. ground arith) v
Step-IsFine {s} (takes_id has_done) v = take_id-Inv s.channel.next_request_id has_done v
Step-IsFine (registers id k h) v = register-Inv id k h v
Step-IsFine (writes id k h) v = writes-Inv id k h v
Step-IsFine (fails_write id k h) v = write_failed-Inv id k (codes "write failed") h v
Step-IsFine (takes_call resp k h) v = take_call-Inv _ k resp h v
Step-IsFine (finishes resp k h) v = finish_call-Inv resp k h v
Step-IsFine {s} closes v = lose_all-Inv s.channel.pending_calls s.channel.calls v
Step-IsFine garbles v = v
Step-IsFine stops v = v
Step-IsFine {s} disconnects v =
    if_cases (λ (c : RpcChannel). IsFine (record s { channel = c })) s.channel.connected v v
Step-IsFine connects v = v

Reach-IsFine : {s t : Threads} → Reach s t → IsFine s → IsFine t
Reach-IsFine here v = v
Reach-IsFine (later r st) v = Step-IsFine st (Reach-IsFine r v)

init-IsFine : IsFine start
unfolding find
init-IsFine = record {
  below = λ id k h. cc;
  below_number = λ id k h. cc;
  below_answer = λ resp k h. cc;
  own = λ id k h. absurd cc;
  unrun = λ id k c h e. cc;
  unrun_number = λ id k c h e. cc;
  once = λ k c e. cc;
}

-- However the callers and the reader threads of a channel interleave, whatever responses come (to
-- unknown ids, repeated, before the request is written, or after an id has been taken again at 2 ^ 32),
-- whichever writes fail, and however often the channel is connected and disconnected: the closure of
-- each call has been run at most once, or, where the write of its request failed, at most twice, and
-- that of a call without one never.
pub runs_once :
    {s : Threads} (k : ℕ) (c : Call)
    → Reach start s
    → get_elem? s.channel.calls k ≡ some c
    → c.runs ≤ (if c.has_done then 1 + failures (s.callers k) else 0)
runs_once {s} k c r e = let b = (Reach-IsFine r init-IsFine).once k c e in omega (arith, b)

-- However the threads interleave, a call whose write has failed is no longer registered: no response
-- that comes then can run its closure.
pub unsent_unregistered :
    {s : Threads} (id k : ℕ)
    → Reach start s
    → s.callers k ≡ unsent
    → find id s.channel.pending_calls ≢ some k
unsent_unregistered {s} id k r h e =
    subst (λ p. Own p id) h ((Reach-IsFine r init-IsFine).own id k e)

-- ===== src/Rpc/Channel/Routing.antt =====
-- Which call a response reaches, and which ids calls get (src/rpc/rpc_channel.cpp).
pub mod Given
use native.Mathlib.Decide.{ℕ_discrete}
use rpc_framework.Base.{
  ℕ, ◌+◌, ◌%◌, ◌≤◌, ◌<◌, ◌≡◌, ◌≢◌, refl, sym, ◌∙◌, inl, inr, Bool, List, [], ◌∷◌, none, some, subst,
  length, get_elem?, Byte, u32_mod, arith, if_cases, Option-cases, length-append,
}
use rpc_framework.Base.Map.{find, find-put, find-erase, nat_eq}
use rpc_framework.Base.Update.{
  modify, length-modify, get_elem?-modify_self, get_elem?-modify_ne, get_elem?-append_last,
}
use rpc_framework.Rpc.Messages.{RpcResponse, Serializer}
use rpc_framework.Rpc.Channel.{
  Call, RpcChannel, init, connect, refuse_call, take_id, register, begin_call, write_failed,
  take_call, finish_call, on_response, on_message, connection_closed, bad_stream, stop_reading,
  disconnect, lose_all, lose, settle, new_call,
}
use rpc_framework.Rpc.Channel.Calls.{
  Threads, start, Place, numbered, registered, sent, unsent, Step, refuses, takes_id, registers,
  writes, fails_write, takes_call, finishes, closes, garbles, stops, disconnects, connects, Reach,
  here, later,
}
use rpc_framework.Rpc.Channel.Calls.Places.{moved, moved_inv}
use rpc_framework.Rpc.Channel.Routing.Given.{Earlier, Issued, Reach-Issued}

-- A new call is registered under the next id.
pub begin_call_lem :
    (s : RpcChannel) (has_done : Bool)
    → let t = begin_call has_done s in
      (find s.next_request_id t.pending_calls ≡ some (length s.calls))
      × (get_elem? t.calls (length s.calls) ≡ some (new_call has_done))
unfolding begin_call
begin_call_lem s has_done = (
  ground (arith, find-put s.next_request_id s.next_request_id (length s.calls) s.pending_calls),
  get_elem?-append_last s.calls (new_call has_done) (length s.calls) refl,
)

-- The response to a registered id settles the one call that is registered under it, and takes that
-- id alone out of the map; every other call and every other id is as before.
pub on_message_routes :
    (p : Serializer RpcResponse) (frame : List Byte) (resp : RpcResponse) (s : RpcChannel) (k : ℕ)
    (c : Call)
    → p.parse frame ≡ some resp
    → find resp.request_id s.pending_calls ≡ some k
    → get_elem? s.calls k ≡ some c
    → let t = on_message p frame s in
      (get_elem? t.calls k ≡ some (settle resp c))
      × ((j : ℕ) → j ≢ k → get_elem? t.calls j ≡ get_elem? s.calls j)
      × (find resp.request_id t.pending_calls ≡ none)
      × ((i : ℕ) → i ≢ resp.request_id → find i t.pending_calls ≡ find i s.pending_calls)
unfolding on_message on_response
on_message_routes p frame resp s k c parsed found e =
    rw (parsed, on_message, found, on_response)
      (
        get_elem?-modify_self k (settle resp) s.calls c e,
        λ j ne. get_elem?-modify_ne k j (settle resp) s.calls (λ q. ne (sym q)),
        ground (arith, find-erase resp.request_id resp.request_id s.pending_calls),
        λ i ne. ground (arith, find-erase resp.request_id i s.pending_calls),
      )

-- A frame that does not parse, and a response to an id that is not registered, change nothing.
pub on_message_ignores :
    (p : Serializer RpcResponse) (frame : List Byte) (s : RpcChannel)
    → ((resp : RpcResponse)
        → p.parse frame ≡ some resp
        → find resp.request_id s.pending_calls ≡ none)
    → on_message p frame s ≡ s
unfolding on_message on_response
on_message_ignores p frame s h = elim (Option-cases (p.parse frame)) [
  | inl e ↦ rw (e, on_message)
  | inr (resp, e) ↦ rw (e, on_message, h resp e, on_response)
]

-- Until 2 ^ 32 - 1 calls have been made on a channel, a new call is never registered under the id of
-- one that still waits, nor is it that of a call on the way to its registration, whatever the threads
-- have done.
pub next_request_id_fresh :
    {s : Threads} (k : ℕ)
    → Reach start s
    → length s.channel.calls < u32_mod
    → (find s.channel.next_request_id s.channel.pending_calls ≡ none)
      × (s.callers k ≢ numbered s.channel.next_request_id)
next_request_id_fresh {s} k r h = (
  elim (Option-cases (find s.channel.next_request_id s.channel.pending_calls)) [
    | inl e ↦ e
    | inr (m, e) ↦ absurd (old (v.given s.channel.next_request_id m e))
  ],
  λ e. old (v.taken s.channel.next_request_id k e),
)
  where
    b : ℕ
    b = (Reach-Issued r).0

    v : Issued b s
    v = (Reach-Issued r).1

    old : Earlier b s.channel.next_request_id → ⊥
    old (j, lt, same) = omega (arith, v.next, v.few)

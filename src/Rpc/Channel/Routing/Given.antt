-- ===== src/Rpc/Channel/Routing/Given.antt =====
-- Which ids the callers of src/rpc/rpc_channel.cpp have been given.
use native.Mathlib.Decide.{ℕ_discrete}
use rpc_framework.Base.{
  ℕ, ◌+◌, ◌%◌, ◌≤◌, ◌<◌, ◌≡◌, ◌≢◌, refl, ◌∙◌, inl, inr, Bool, List, [], ◌∷◌, some, subst, length,
  u32_mod, arith, if_cases, length-append,
}
use rpc_framework.Base.Map.{find, find-put, find-erase, nat_eq}
use rpc_framework.Base.Update.{modify, length-modify}
use rpc_framework.Rpc.Channel.{
  Call, RpcChannel, connect, refuse_call, take_id, register, write_failed, take_call, finish_call,
  connection_closed, bad_stream, stop_reading, disconnect, lose_all, lose, settle, new_call,
}
use rpc_framework.Rpc.Channel.Calls.{
  Threads, start, Place, numbered, registered, sent, unsent, Step, refuses, takes_id, registers,
  writes, fails_write, takes_call, finishes, closes, garbles, stops, disconnects, connects, Reach,
  here, later,
}
use rpc_framework.Rpc.Channel.Calls.Places.{moved, moved_inv}

-- One of the first `b` ids that are given out.
abbrev pub Earlier : ℕ → ℕ → Type 0
Earlier b id = (j : ℕ) × (j < b) × (id ≡ (1 + j) % u32_mod)

-- The first `b` ids have been given out, in order and modulo 2 ^ 32.
pub record Issued (b : ℕ) (s : Threads) : Type 0 where
  pub next : s.channel.next_request_id ≡ (1 + b) % u32_mod
  pub few : b ≤ length s.channel.calls
  pub given : (id k : ℕ) → find id s.channel.pending_calls ≡ some k → Earlier b id
  pub taken : (id k : ℕ) → s.callers k ≡ numbered id → Earlier b id

length-lose_all :
    (lost : List (ℕ × ℕ)) (calls : List Call) → length (lose_all lost calls) ≡ length calls
unfolding lose_all
length-lose_all [] calls = refl
length-lose_all ((id, k) ∷ lost) calls =
    length-lose_all lost (modify k lose calls) ∙ length-modify k lose calls

-- A caller that moves on has taken no other id.
moved-Earlier :
    {b : ℕ} {s : Threads} (k : ℕ) (p : Place)
    → ((id : ℕ) → p ≢ numbered id)
    → Issued b s
    → (id m : ℕ) → moved k p s.callers m ≡ numbered id
    → Earlier b id
moved-Earlier {s = s} k p other v id m e = elim (moved_inv k m p (numbered id) s.callers e) [
  | inl (_, q) ↦ absurd (other id q)
  | inr (_, old) ↦ v.taken id m old
]

later_Earlier : (b id : ℕ) → Earlier b id → Earlier (b + 1) id
later_Earlier b id (j, lt, e) = (j, omega arith, e)

take_id-Issued :
    (b : ℕ) (has_done : Bool) (s : Threads)
    → Issued b s
    → Issued (b + 1) (record s {
      channel = take_id has_done s.channel;
      callers = moved (length s.channel.calls) (numbered s.channel.next_request_id) s.callers;
    })
unfolding take_id
take_id-Issued b has_done s v = record {
  next = omega (arith, v.next);
  few = omega (arith, v.few, length-append s.channel.calls (new_call has_done ∷ []));
  given = λ i m h. later_Earlier b i (v.given i m h);
  taken = λ i m h.
      elim (moved_inv (length s.channel.calls) m (numbered s.channel.next_request_id) (numbered i)
        s.callers h) [
          | inl (_, q) ↦
              let same : s.channel.next_request_id ≡ i = cc q in
              (b, omega arith, omega (arith, v.next, same))
          | inr (_, old) ↦ later_Earlier b i (v.taken i m old)
        ];
}

register-Issued :
    (b id k : ℕ) (s : Threads)
    → s.callers k ≡ numbered id
    → Issued b s
    → Issued b (record s {
      channel = register id k s.channel;
      callers = moved k (registered id) s.callers;
    })
unfolding register
register-Issued b id k s h v = record {
  next = v.next;
  few = v.few;
  given = λ i m e. elim (ℕ_discrete id i) [
    | yes same ↦ subst (Earlier b) same (v.taken id k h)
    | no other ↦ v.given i m (ground (arith, find-put id i k s.channel.pending_calls))
  ];
  taken = moved-Earlier k (registered id) (λ j q. cc q) v;
}

Step-Issued : {s t : Threads} {b : ℕ} → Step s t → Issued b s → (b' : ℕ) × Issued b' t
unfolding refuse_call write_failed take_call finish_call connection_closed bad_stream stop_reading
    disconnect connect
Step-Issued {s} {b} (refuses has_done e) v = (
  b,
  record {
    next = v.next;
    few = omega (arith, v.few, length-append {A = Call} s.channel.calls (_ ∷ []));
    given = v.given;
    taken = v.taken;
  },
)
Step-Issued {s} {b} (takes_id has_done) v = (b + 1, take_id-Issued b has_done s v)
Step-Issued {s} {b} (registers id k h) v = (b, register-Issued b id k s h v)
Step-Issued {s} {b} (writes id k h) v = (
  b,
  record {
    next = v.next;
    few = v.few;
    given = v.given;
    taken = moved-Earlier k (sent id) (λ j q. cc q) v;
  },
)
Step-Issued {s} {b} (fails_write id k h) v = (
  b,
  record {
    next = v.next;
    few = omega (arith, v.few, length-modify {A = Call} k _ s.channel.calls);
    given = λ i m e. v.given i m (ground (arith, find-erase id i s.channel.pending_calls));
    taken = moved-Earlier k unsent (λ j q. cc q) v;
  },
)
Step-Issued {s} {b} (takes_call resp k h) v = (
  b,
  record {
    next = v.next;
    few = v.few;
    given =
        λ i m e. v.given i m (ground (arith, find-erase resp.request_id i s.channel.pending_calls));
    taken = v.taken;
  },
)
Step-Issued {s} {b} (finishes resp k h) v = (
  b,
  record {
    next = v.next;
    few = omega (arith, v.few, length-modify k (settle resp) s.channel.calls);
    given = v.given;
    taken = v.taken;
  },
)
Step-Issued {s} {b} closes v = (
  b,
  record {
    next = v.next;
    few = omega (arith, v.few, length-lose_all s.channel.pending_calls s.channel.calls);
    given = v.given;
    taken = v.taken;
  },
)
Step-Issued {b} garbles v =
    (b, record { next = v.next; few = v.few; given = v.given; taken = v.taken })
Step-Issued {b} stops v =
    (b, record { next = v.next; few = v.few; given = v.given; taken = v.taken })
Step-Issued {s} {b} disconnects v = (
  b,
  if_cases (λ (c : RpcChannel). Issued b (record s { channel = c })) s.channel.connected
      (record { next = v.next; few = v.few; given = v.given; taken = v.taken }) v,
)
Step-Issued {b} connects v =
    (b, record { next = v.next; few = v.few; given = v.given; taken = v.taken })

pub Reach-Issued : {s : Threads} → Reach start s → (b : ℕ) × Issued b s
unfolding find
Reach-Issued here =
    (0, record { next = omega arith; few = omega arith; given = λ i k h. cc; taken = λ i k h. cc })
Reach-Issued (later r st) = Step-Issued st (Reach-Issued r).1

-- ===== src/Rpc/Channel/Registered.antt =====
-- What holds of the registered calls of src/rpc/rpc_channel.cpp, and is kept by each change of them.
pub mod Responses
pub mod Callers
pub mod Made
use native.Mathlib.Decide.{ℕ_discrete}
use rpc_framework.Base.{
  ℕ, ◌≤◌, ◌<◌, ◌≡◌, ◌≢◌, refl, ap, ◌∙◌, ◌⊎◌, inl, inr, Bool, List, [], ◌∷◌, ◌++◌, some, length,
  get_elem?, arith, if◌then◌else◌, ◌+◌, Option, none, sym, subst,
}
use rpc_framework.Base.Map.{find, erase, find-erase, nat_eq}
use rpc_framework.Rpc.Messages.{RpcResponse}
use rpc_framework.Base.Update.{modify, length-modify, get_elem?-modify_inv}
use rpc_framework.Rpc.Channel.{Call, lose, lose_all}
use rpc_framework.Rpc.Channel.Calls.{Place, outside, numbered, registered, sent, unsent}
use rpc_framework.Rpc.Channel.Calls.Places.{moved, moved_same, moved_ne}

-- How often a caller has run the closure itself, since its write failed.
abbrev pub failures : Place → ℕ
failures unsent = 1
failures _ = 0

abbrev pub owed : Option RpcResponse → ℕ
owed none = 0
owed (some resp) = 1

-- How often the closure of a call has been run or will be for the response in hand.
abbrev pub Bounded : Place → Option RpcResponse → Call → Type 0
Bounded p a c =
    c.runs + (if c.has_done then owed a else 0) ≤ (if c.has_done then 1 + failures p else 0)

-- The place is that of the caller whose call is registered under the id.
abbrev pub Own : Place → ℕ → Type 0
Own (registered i) id = i ≡ id
Own (sent i) id = i ≡ id
Own _ id = ⊥

pub same_owner : (p : Place) (i j : ℕ) → Own p i → Own p j → i ≡ j
same_owner (registered id) i j h h' = omega arith
same_owner (sent id) i j h h' = omega arith
same_owner outside i j h h' = absurd h
same_owner (numbered id) i j h h' = absurd h
same_owner unsent i j h h' = absurd h

pub owner_moved :
    (q : Place) (callers : ℕ → Place) (k m id : ℕ)
    → Own (callers m) id
    → (m ≡ k → Own q id)
    → Own (moved k q callers m) id
owner_moved q callers k m id o h = elim (ℕ_discrete m k) [
  | yes e ↦ subst (λ p. Own p id) (sym (ap (moved k q callers) e ∙ moved_same k q callers)) (h e)
  | no ne ↦ subst (λ p. Own p id) (sym (moved_ne k m q callers ne)) o
]

-- Nothing has run the closure of the call, and no reader thread is about to.
abbrev pub Unrun : Call → Option RpcResponse → Type 0
Unrun c a = (c.runs ≡ 0) × (a ≡ none)

-- Each registered id is that of the caller whose call it stands for; a call that is registered, or not yet
-- so, has not been completed.
pub record Inv (pending : List (ℕ × ℕ)) (calls : List Call) (callers : ℕ → Place)
    (answers : ℕ → Option RpcResponse) : Type 0 where
  pub below : (id k : ℕ) → find id pending ≡ some k → k < length calls
  pub below_number : (id k : ℕ) → callers k ≡ numbered id → k < length calls
  pub below_answer : (resp : RpcResponse) (k : ℕ) → answers k ≡ some resp → k < length calls
  pub own : (id k : ℕ) → find id pending ≡ some k → Own (callers k) id
  pub unrun :
      (id k : ℕ) (c : Call)
      → find id pending ≡ some k
      → get_elem? calls k ≡ some c
      → Unrun c (answers k)
  pub unrun_number :
      (id k : ℕ) (c : Call)
      → callers k ≡ numbered id
      → get_elem? calls k ≡ some c
      → Unrun c (answers k)
  pub once : (k : ℕ) (c : Call) → get_elem? calls k ≡ some c → Bounded (callers k) (answers k) c

-- Calls that have been run as often.
record SameRuns (calls calls' : List Call) : Type 0 where
  pub same_length : length calls' ≡ length calls
  pub same :
      (k : ℕ) (c' : Call)
      → get_elem? calls' k ≡ some c'
      → (c : Call) × (get_elem? calls k ≡ some c) × (c'.runs ≡ c.runs) × (c'.has_done ≡ c.has_done)

lose-SameRuns : (k : ℕ) (calls : List Call) → SameRuns calls (modify k lose calls)
lose-SameRuns k calls = record {
  same_length = length-modify k lose calls;
  same = λ j c' h.
      let (c, e, from) = get_elem?-modify_inv k j lose calls h in
      (c, e, ground (arith, from), ground (arith, from));
}

SameRuns-Inv :
    {pending : List (ℕ × ℕ)} {calls calls' : List Call} {callers : ℕ → Place}
    {answers : ℕ → Option RpcResponse}
    → SameRuns calls calls'
    → Inv pending calls callers answers
    → Inv pending calls' callers answers
SameRuns-Inv q v = record {
  below = λ id k h. omega (arith, v.below id k h, q.same_length);
  below_number = λ id k h. omega (arith, v.below_number id k h, q.same_length);
  below_answer = λ resp k h. omega (arith, v.below_answer resp k h, q.same_length);
  own = v.own;
  unrun = λ id k c' h e.
      let (c, e', r, d) = q.same k c' e in let (z, n) = v.unrun id k c h e' in (r ∙ z, n);
  unrun_number = λ id k c' h e.
      let (c, e', r, d) = q.same k c' e in let (z, n) = v.unrun_number id k c h e' in (r ∙ z, n);
  once = λ k c' e. let (c, e', r, d) = q.same k c' e in let b = v.once k c e' in rw (r, d) b;
}

pub lose_all-Inv :
    {pending : List (ℕ × ℕ)} {callers : ℕ → Place} {answers : ℕ → Option RpcResponse}
    (lost : List (ℕ × ℕ)) (calls : List Call)
    → Inv pending calls callers answers
    → Inv pending (lose_all lost calls) callers answers
unfolding lose_all
lose_all-Inv [] calls v = v
lose_all-Inv ((id, k) ∷ lost) calls v =
    lose_all-Inv lost (modify k lose calls) (SameRuns-Inv (lose-SameRuns k calls) v)

pub erase_inv :
    (id j : ℕ) {k : ℕ} (pending : List (ℕ × ℕ))
    → find j (erase id pending) ≡ some k
    → (find j pending ≡ some k) × (id ≢ j)
erase_inv id j pending h = ground (arith, find-erase id j pending)

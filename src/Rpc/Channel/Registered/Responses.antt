-- ===== src/Rpc/Channel/Registered/Responses.antt =====
-- A response in src/rpc/rpc_channel.cpp takes a call out of the map, and then completes it.
use native.Mathlib.Decide.{ℕ_discrete}
use rpc_framework.Base.{
  ℕ, ◌<◌, ◌≡◌, ◌≢◌, sym, ap, ◌∙◌, ◌⊎◌, inl, inr, List, Option, none, some, length, arith, subst,
}
use rpc_framework.Base.Map.{find, erase, nat_eq}
use rpc_framework.Base.Update.{modify, length-modify, get_elem?-modify_inv}
use rpc_framework.Rpc.Messages.{RpcResponse}
use rpc_framework.Rpc.Channel.{Call, settle}
use rpc_framework.Rpc.Channel.Calls.{Place}
use rpc_framework.Rpc.Channel.Calls.Places.{moved, moved_same, moved_ne, moved_inv}
use rpc_framework.Rpc.Channel.Registered.{Bounded, Own, same_owner, Unrun, Inv, erase_inv}

-- What is so of a call that the response is not for stays so.
other_Unrun :
    (answers : ℕ → Option RpcResponse) (k m : ℕ) (a : Option RpcResponse) (c : Call)
    → m ≢ k
    → Unrun c (answers m)
    → Unrun c (moved k a answers m)
other_Unrun answers k m a c ne (z, n) = (z, moved_ne k m a answers ne ∙ n)

settle-Bounded :
    (p : Place) (resp r : RpcResponse) (c : Call)
    → Bounded p (some r) c
    → Bounded p none (settle resp c)
settle-Bounded p resp r c b = ground (arith, b)

-- The call with the response in hand is not the one that is said to have none.
finish_Unrun :
    (answers : ℕ → Option RpcResponse) (resp : RpcResponse) (k m : ℕ) (c c' : Call)
    → answers k ≡ some resp
    → Unrun c (answers m)
    → ((k ≡ m) × (c' ≡ settle resp c)) ⊎ ((k ≢ m) × (c' ≡ c))
    → Unrun c' (moved k none answers m)
finish_Unrun answers resp k m c c' h (z, n) (inl (same, _)) =
    absurd (taken (sym (ap answers same ∙ n) ∙ h))
  where
    taken : none ≡ some resp → ⊥
    taken e = cc
finish_Unrun answers resp k m c c' h (z, n) (inr (other, same)) =
    (ap (λ (x : Call). x.runs) same ∙ z, moved_ne k m none answers (λ e. other (sym e)) ∙ n)

module _ {pending : List (ℕ × ℕ)} {calls : List Call} {callers : ℕ → Place}
    {answers : ℕ → Option RpcResponse} where
  pub take_call-Inv :
      (id k : ℕ) (resp : RpcResponse)
      → find id pending ≡ some k
      → Inv pending calls callers answers
      → Inv (erase id pending) calls callers (moved k (some resp) answers)
  take_call-Inv id k resp h v = record {
    below = λ j m e. v.below j m (erase_inv id j pending e).0;
    below_number = v.below_number;
    below_answer = λ r m e. elim (moved_inv k m (some resp) (some r) answers e) [
      | inl (same, _) ↦ subst (λ i. i < length calls) (sym same) (v.below id k h)
      | inr (_, old) ↦ v.below_answer r m old
    ];
    own = λ j m e. v.own j m (erase_inv id j pending e).0;
    unrun = λ j m c e g.
        let (e', ne) = erase_inv id j pending e in
        elim (ℕ_discrete m k) [
          | yes same ↦ absurd (
              ne (
                same_owner (callers k) id j (v.own id k h)
                  (subst (λ i. Own (callers i) j) same (v.own j m e'))))
          | no other ↦ other_Unrun answers k m (some resp) c other (v.unrun j m c e' g)
        ];
    unrun_number = λ j m c e g. elim (ℕ_discrete m k) [
      | yes same ↦ absurd (subst (λ p. Own p id) (sym (ap callers same) ∙ e) (v.own id k h))
      | no other ↦ other_Unrun answers k m (some resp) c other (v.unrun_number j m c e g)
    ];
    once = λ m c g. elim (ℕ_discrete m k) [
      | yes same ↦
          let (z, n) = v.unrun id m c (h ∙ ap some (sym same)) g in
          subst (λ a. Bounded (callers m) a c)
            (sym (ap (moved k (some resp) answers) same ∙ moved_same k (some resp) answers))
            (ground (arith, z))
      | no other ↦
          subst (λ a. Bounded (callers m) a c) (sym (moved_ne k m (some resp) answers other))
            (v.once m c g)
    ];
  }

  pub finish_call-Inv :
      (resp : RpcResponse) (k : ℕ)
      → answers k ≡ some resp
      → Inv pending calls callers answers
      → Inv pending (modify k (settle resp) calls) callers (moved k none answers)
  finish_call-Inv resp k h v = record {
    below = λ j m e. omega (arith, v.below j m e, length-modify k (settle resp) calls);
    below_number =
        λ j m e. omega (arith, v.below_number j m e, length-modify k (settle resp) calls);
    below_answer = λ r m e. elim (moved_inv k m none (some r) answers e) [
      | inl (_, q) ↦ cc q
      | inr (_, old) ↦ omega (arith, v.below_answer r m old, length-modify k (settle resp) calls)
    ];
    own = v.own;
    unrun = λ j m c' e g.
        let (c, was, from) = get_elem?-modify_inv k m (settle resp) calls g in
        finish_Unrun answers resp k m c c' h (v.unrun j m c e was) from;
    unrun_number = λ j m c' e g.
        let (c, was, from) = get_elem?-modify_inv k m (settle resp) calls g in
        finish_Unrun answers resp k m c c' h (v.unrun_number j m c e was) from;
    once = λ m c' g.
        let (c, was, from) = get_elem?-modify_inv k m (settle resp) calls g in
        finished m c c' (v.once m c was) from;
  }
    where
      finished :
          (m : ℕ) (c c' : Call)
          → Bounded (callers m) (answers m) c
          → ((k ≡ m) × (c' ≡ settle resp c)) ⊎ ((k ≢ m) × (c' ≡ c))
          → Bounded (callers m) (moved k none answers m) c'
      finished m c c' b (inl (same, e)) =
          subst (λ a. Bounded (callers m) a c')
            (sym (ap (moved k none answers) (sym same) ∙ moved_same k none answers))
            (subst (λ x. Bounded (callers m) none x) (sym e)
              (settle-Bounded (callers m) resp resp c
                (subst (λ a. Bounded (callers m) a c) (ap answers (sym same) ∙ h) b)))
      finished m c c' b (inr (other, e)) =
          subst (λ a. Bounded (callers m) a c')
            (sym (moved_ne k m none answers (λ q. other (sym q))))
            (subst (λ x. Bounded (callers m) (answers m) x) (sym e) b)

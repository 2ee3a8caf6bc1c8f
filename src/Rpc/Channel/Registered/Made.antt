-- ===== src/Rpc/Channel/Registered/Made.antt =====
-- The calls that `CallMethod` of src/rpc/rpc_channel.cpp adds: refused ones, and those that take an id.
use rpc_framework.Base.{
  ℕ, ◌≡◌, sym, ap, ◌∙◌, inl, inr, Bool, List, [], ◌∷◌, ◌++◌, Option, none, length, arith,
  Option-cases, length-append, subst,
}
use rpc_framework.Base.Map.{nat_eq}
use rpc_framework.Base.Update.{get_elem?-append_inv, get_elem?-lt}
use rpc_framework.Rpc.Messages.{RpcResponse}
use rpc_framework.Rpc.Channel.{Call, new_call}
use rpc_framework.Rpc.Channel.Calls.{Place, numbered}
use rpc_framework.Rpc.Channel.Calls.Places.{moved, moved_ne, moved_inv}
use rpc_framework.Rpc.Channel.Registered.{Bounded, owner_moved, Inv}

new_call-Bounded : (p : Place) (has_done : Bool) → Bounded p none (new_call has_done)
new_call-Bounded p has_done = ground arith

module _ {pending : List (ℕ × ℕ)} {calls : List Call} {callers : ℕ → Place}
    {answers : ℕ → Option RpcResponse} where
  -- No reader thread has a response to a call that has not been made.
  unanswered : Inv pending calls callers answers → answers (length calls) ≡ none
  unanswered v = elim (Option-cases (answers (length calls))) [
    | inl e ↦ e
    | inr (resp, e) ↦ absurd (omega (arith, v.below_answer resp (length calls) e))
  ]

  -- A call is added that is not registered.
  pub refuse-Inv :
      (c : Call)
      → ((p : Place) → Bounded p none c)
      → Inv pending calls callers answers
      → Inv pending (calls ++ (c ∷ [])) callers answers
  refuse-Inv c b v = record {
    below = λ id k h. omega (arith, v.below id k h, length-append calls (c ∷ []));
    below_number = λ id k h. omega (arith, v.below_number id k h, length-append calls (c ∷ []));
    below_answer = λ r k h. omega (arith, v.below_answer r k h, length-append calls (c ∷ []));
    own = v.own;
    unrun = λ id k c' h g. elim (get_elem?-append_inv calls c k g) [
      | inl old ↦ v.unrun id k c' h old
      | inr (new, _) ↦ absurd (omega (arith, v.below id k h))
    ];
    unrun_number = λ id k c' h g. elim (get_elem?-append_inv calls c k g) [
      | inl old ↦ v.unrun_number id k c' h old
      | inr (new, _) ↦ absurd (omega (arith, v.below_number id k h))
    ];
    once = λ k c' g. elim (get_elem?-append_inv calls c k g) [
      | inl old ↦ v.once k c' old
      | inr (new, e) ↦
          subst (λ x. Bounded (callers k) (answers k) x) (sym e)
            (subst (λ a. Bounded (callers k) a c) (sym (ap answers new ∙ unanswered v))
              (b (callers k)))
    ];
  }

  pub take_id-Inv :
      (id : ℕ) (has_done : Bool)
      → Inv pending calls callers answers
      → Inv pending
          (calls ++ (new_call has_done ∷ []))
          (moved (length calls) (numbered id) callers)
          answers
  take_id-Inv id has_done v = record {
    below = λ j k h. omega (arith, v.below j k h, length-append calls (new_call has_done ∷ []));
    below_number = λ j k h.
        let size = length-append calls (new_call has_done ∷ []) in
        elim (moved_inv (length calls) k (numbered id) (numbered j) callers h) [
          | inl (new, _) ↦ omega (arith, size)
          | inr (_, old) ↦ omega (arith, size, v.below_number j k old)
        ];
    below_answer =
        λ r k h. omega (arith, v.below_answer r k h, length-append calls (new_call has_done ∷ []));
    own = λ j k h.
        owner_moved (numbered id) callers (length calls) k j (v.own j k h)
          (λ new. absurd (omega (arith, v.below j k h)));
    unrun = λ j k c' h g. elim (get_elem?-append_inv calls (new_call has_done) k g) [
      | inl old ↦ v.unrun j k c' h old
      | inr (new, _) ↦ absurd (omega (arith, v.below j k h))
    ];
    unrun_number = λ j k c' h g. elim (get_elem?-append_inv calls (new_call has_done) k g) [
      | inl old ↦ elim (moved_inv (length calls) k (numbered id) (numbered j) callers h) [
        | inl (new, _) ↦ absurd (omega (arith, get_elem?-lt calls k c' old))
        | inr (_, h') ↦ v.unrun_number j k c' h' old
      ]
      | inr (new, e) ↦ (ap (λ (x : Call). x.runs) e, ap answers new ∙ unanswered v)
    ];
    once = λ k c' g. elim (get_elem?-append_inv calls (new_call has_done) k g) [
      | inl old ↦
          subst (λ p. Bounded p (answers k) c')
            (sym (
              moved_ne (length calls) k (numbered id) callers
                (λ new. absurd (omega (arith, get_elem?-lt calls k c' old)))))
            (v.once k c' old)
      | inr (new, e) ↦
          subst (λ x. Bounded (moved (length calls) (numbered id) callers k) (answers k) x) (sym e)
            (subst
              (λ a. Bounded (moved (length calls) (numbered id) callers k) a (new_call has_done))
              (sym (ap answers new ∙ unanswered v))
              (new_call-Bounded (moved (length calls) (numbered id) callers k) has_done))
    ];
  }

-- ===== src/Rpc/Channel/Registered/Callers.antt =====
-- The steps of a caller in `CallMethod` of src/rpc/rpc_channel.cpp.
use native.Mathlib.Decide.{ℕ_discrete}
use rpc_framework.Base.{
  ℕ, ◌<◌, ◌≡◌, ◌≢◌, sym, ap, ◌∙◌, ◌⊎◌, inl, inr, List, Option, some, Byte, length, arith, subst,
}
use rpc_framework.Base.Map.{find, put, erase, find-put, nat_eq}
use rpc_framework.Base.Update.{modify, length-modify, get_elem?-modify_inv}
use rpc_framework.Rpc.Messages.{RpcResponse}
use rpc_framework.Rpc.Channel.{Call, run_done, fail}
use rpc_framework.Rpc.Channel.Calls.{Place, numbered, registered, sent, unsent}
use rpc_framework.Rpc.Channel.Calls.Places.{moved, moved_same, moved_ne, moved_inv}
use rpc_framework.Rpc.Channel.Registered.{Bounded, Own, owner_moved, Inv, erase_inv}

-- The caller of a call stands at a place.
at_place :
    (callers : ℕ → Place) (k m id : ℕ) (p : Place)
    → callers k ≡ p
    → m ≡ k
    → Own (callers m) id
    → Own p id
at_place callers k m id p h same o = subst (λ q. Own q id) (ap callers same ∙ h) o

-- It moves on from there.
place_Bounded :
    (callers : ℕ → Place) (k m : ℕ) (p q : Place) (a : Option RpcResponse) (c : Call)
    → callers k ≡ p
    → (Bounded p a c → Bounded q a c)
    → Bounded (callers m) a c
    → Bounded (moved k q callers m) a c
place_Bounded callers k m p q a c h go b = elim (ℕ_discrete m k) [
  | yes same ↦
      subst (λ x. Bounded x a c) (sym (ap (moved k q callers) same ∙ moved_same k q callers))
        (go (subst (λ x. Bounded x a c) (ap callers same ∙ h) b))
  | no other ↦ subst (λ x. Bounded x a c) (sym (moved_ne k m q callers other)) b
]

put_inv :
    (id j m : ℕ) {k : ℕ} (pending : List (ℕ × ℕ))
    → find j (put id m pending) ≡ some k
    → ((id ≡ j) × (k ≡ m)) ⊎ (find j pending ≡ some k)
put_inv id j m pending h = ground (arith, find-put id j m pending)

abbrev lost_write : List Byte → Call → Call
lost_write reason c = run_done (fail reason c)

lost_write-Bounded :
    (id : ℕ) (reason : List Byte) (a : Option RpcResponse) (c : Call)
    → Bounded (registered id) a c
    → Bounded unsent a (lost_write reason c)
lost_write-Bounded id reason a c b = ground (arith, b)

module _ {pending : List (ℕ × ℕ)} {calls : List Call} {callers : ℕ → Place}
    {answers : ℕ → Option RpcResponse} where
  -- The caller's write has succeeded.
  pub writes-Inv :
      (id k : ℕ)
      → callers k ≡ registered id
      → Inv pending calls callers answers
      → Inv pending calls (moved k (sent id) callers) answers
  writes-Inv id k h v = record {
    below = v.below;
    below_number = λ j m e. elim (moved_inv k m (sent id) (numbered j) callers e) [
      | inl (_, q) ↦ cc q
      | inr (_, old) ↦ v.below_number j m old
    ];
    below_answer = v.below_answer;
    own = λ j m e.
        owner_moved (sent id) callers k m j (v.own j m e)
          (λ same. at_place callers k m j (registered id) h same (v.own j m e));
    unrun = v.unrun;
    unrun_number = λ j m c e g. elim (moved_inv k m (sent id) (numbered j) callers e) [
      | inl (_, q) ↦ cc q
      | inr (_, old) ↦ v.unrun_number j m c old g
    ];
    once = λ m c g.
        place_Bounded callers k m (registered id) (sent id) (answers m) c h (λ b. b) (v.once m c g);
  }

  pub register-Inv :
      (id k : ℕ)
      → callers k ≡ numbered id
      → Inv pending calls callers answers
      → Inv (put id k pending) calls (moved k (registered id) callers) answers
  register-Inv id k h v = record {
    below = λ j m e. elim (put_inv id j k pending e) [
      | inl (_, q) ↦ subst (λ i. i < length calls) (sym q) (v.below_number id k h)
      | inr old ↦ v.below j m old
    ];
    below_number = λ j m e. elim (moved_inv k m (registered id) (numbered j) callers e) [
      | inl (_, q) ↦ cc q
      | inr (_, old) ↦ v.below_number j m old
    ];
    below_answer = v.below_answer;
    own = λ j m e. elim (put_inv id j k pending e) [
      | inl (q, same) ↦
          subst (λ p. Own p j)
            (sym (ap (moved k (registered id) callers) same ∙ moved_same k (registered id) callers))
            q
      | inr old ↦
          owner_moved (registered id) callers k m j (v.own j m old)
            (λ same. absurd (at_place callers k m j (numbered id) h same (v.own j m old)))
    ];
    unrun = λ j m c e g. elim (put_inv id j k pending e) [
      | inl (_, same) ↦ v.unrun_number id m c (ap callers same ∙ h) g
      | inr old ↦ v.unrun j m c old g
    ];
    unrun_number = λ j m c e g. elim (moved_inv k m (registered id) (numbered j) callers e) [
      | inl (_, q) ↦ cc q
      | inr (_, old) ↦ v.unrun_number j m c old g
    ];
    once = λ m c g.
        place_Bounded callers k m (numbered id) (registered id) (answers m) c h (λ b. b)
          (v.once m c g);
  }

  -- The caller's write has failed, whether or not a response has come.
  pub write_failed-Inv :
      (id k : ℕ) (reason : List Byte)
      → callers k ≡ registered id
      → Inv pending calls callers answers
      → Inv (erase id pending) (modify k (lost_write reason) calls) (moved k unsent callers) answers
  write_failed-Inv id k reason h v = record {
    below = λ j m e. omega (
      arith,
      v.below j m (erase_inv id j pending e).0,
      length-modify k (lost_write reason) calls,
    );
    below_number = λ j m e. elim (moved_inv k m unsent (numbered j) callers e) [
      | inl (_, q) ↦ cc q
      | inr (_, old) ↦
          omega (arith, v.below_number j m old, length-modify k (lost_write reason) calls)
    ];
    below_answer =
        λ r m e. omega (arith, v.below_answer r m e, length-modify k (lost_write reason) calls);
    own = λ j m e.
        let (e', ne) = erase_inv id j pending e in
        owner_moved unsent callers k m j (v.own j m e')
          (λ same. absurd (ne (at_place callers k m j (registered id) h same (v.own j m e'))));
    unrun = λ j m c' e g.
        let (e', ne) = erase_inv id j pending e in
        let (c, was, from) = get_elem?-modify_inv k m (lost_write reason) calls g in
        elim from [
          | inl (same, _) ↦
              absurd (ne (at_place callers k m j (registered id) h (sym same) (v.own j m e')))
          | inr (_, same) ↦
              let (z, n) = v.unrun j m c e' was in (ap (λ (x : Call). x.runs) same ∙ z, n)
        ];
    unrun_number = λ j m c' e g.
        let (c, was, from) = get_elem?-modify_inv k m (lost_write reason) calls g in
        elim (moved_inv k m unsent (numbered j) callers e) [
          | inl (_, q) ↦ cc q
          | inr (other, old) ↦ elim from [
            | inl (same, _) ↦ absurd (other (sym same))
            | inr (_, same) ↦
                let (z, n) = v.unrun_number j m c old was in (ap (λ (x : Call). x.runs) same ∙ z, n)
          ]
        ];
    once = λ m c' g.
        let (c, was, from) = get_elem?-modify_inv k m (lost_write reason) calls g in
        failed m c c' (v.once m c was) from;
  }
    where
      failed :
          (m : ℕ) (c c' : Call)
          → Bounded (callers m) (answers m) c
          → ((k ≡ m) × (c' ≡ lost_write reason c)) ⊎ ((k ≢ m) × (c' ≡ c))
          → Bounded (moved k unsent callers m) (answers m) c'
      failed m c c' b (inl (same, e)) =
          subst (λ p. Bounded p (answers m) c')
            (sym (ap (moved k unsent callers) (sym same) ∙ moved_same k unsent callers))
            (subst (λ x. Bounded unsent (answers m) x) (sym e)
              (lost_write-Bounded id reason (answers m) c
                (subst (λ p. Bounded p (answers m) c) (ap callers (sym same) ∙ h) b)))
      failed m c c' b (inr (other, e)) =
          subst (λ p. Bounded p (answers m) c')
            (sym (moved_ne k m unsent callers (λ q. other (sym q))))
            (subst (λ x. Bounded (callers m) (answers m) x) (sym e) b)

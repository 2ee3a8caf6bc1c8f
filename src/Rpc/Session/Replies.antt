-- ===== src/Rpc/Session/Replies.antt =====
-- The responses that the frames of a session call for.
use rpc_framework.Base.{
  ℕ, zero, suc, ◌+◌, ◌≡◌, refl, Bool, List, [], ◌∷◌, ◌++◌, Option, none, some, Byte, map, get_elem?,
  arith, if◌then◌else◌, append_assoc, ap, sym, ◌∙◌,
}
use rpc_framework.Base.Update.{remove_at}
use rpc_framework.Rpc.Messages.{RpcRequest, RpcResponse, Serializer}
use rpc_framework.Rpc.Server.{Services, serve}

-- How many elements pass a test.
unfoldable pub count {ℓ} : {A : Type ℓ} → (A → Bool) → List A → ℕ
count f [] = 0
count f (x ∷ xs) = if f x then suc (count f xs) else count f xs

pub count-nil {ℓ} : {A : Type ℓ} (f : A → Bool) → count f [] ≡ 0
unfolding count
count-nil f = refl

pub count-append {ℓ} :
    {A : Type ℓ} (f : A → Bool) (xs ys : List A) → count f (xs ++ ys) ≡ count f xs + count f ys
unfolding count
count-append f [] ys = omega arith
count-append f (x ∷ xs) ys = ground (arith, count-append f xs ys)

pub count-remove_at {ℓ κ} :
    {A : Type ℓ} {B : Type κ} (f : B → Bool) (g : A → B) (k : ℕ) (xs : List A) (x : A)
    → get_elem? xs k ≡ some x
    → count f (map g xs) ≡ count f (g x ∷ []) + count f (map g (remove_at k xs))
unfolding count
count-remove_at f g k [] x h = cc
count-remove_at f g zero (y ∷ xs) x h = let same : y ≡ x = cc in rw same (ground arith)
count-remove_at f g (suc k) (y ∷ xs) x h = ground (arith, count-remove_at f g k xs x h)

abbrev pub listed {ℓ} : {A : Type ℓ} → Option A → List A
listed none = []
listed (some x) = x ∷ []

module _ {M : Type 0} (requests : Serializer RpcRequest) (services : Services M) where
  abbrev pub answers : List (List Byte) → List RpcResponse
  answers [] = []
  answers (frame ∷ frames) = listed (serve requests services frame) ++ answers frames

  pub answers-append : (xs ys : List (List Byte)) → answers (xs ++ ys) ≡ answers xs ++ answers ys
  answers-append [] ys = refl
  answers-append (x ∷ xs) ys =
      ap (λ t. listed (serve requests services x) ++ t) (answers-append xs ys)
      ∙ sym (append_assoc (listed (serve requests services x)) (answers xs) (answers ys))

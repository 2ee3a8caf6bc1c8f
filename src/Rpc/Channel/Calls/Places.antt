-- ===== src/Rpc/Channel/Calls/Places.antt =====
-- What each thread of src/rpc/rpc_channel.cpp has in hand, changed for one call.
use native.Mathlib.Decide.{ℕ_discrete}
use rpc_framework.Base.{ℕ, ◌≡◌, ◌≢◌, sym, ap, ◌∙◌, ◌⊎◌, inl, inr, ◌==◌, if◌then◌else◌, arith}

module _ {ℓ} {A : Type ℓ} where
  unfoldable pub moved : ℕ → A → (ℕ → A) → ℕ → A
  moved k x f j = if j == k then x else f j

  pub moved_same : (k : ℕ) (x : A) (f : ℕ → A) → moved k x f k ≡ x
  unfolding moved
  moved_same k x f = ground arith

  pub moved_ne : (k j : ℕ) (x : A) (f : ℕ → A) → j ≢ k → moved k x f j ≡ f j
  unfolding moved
  moved_ne k j x f ne = ground arith

  pub moved_inv :
      (k j : ℕ) (x y : A) (f : ℕ → A)
      → moved k x f j ≡ y
      → ((j ≡ k) × (x ≡ y)) ⊎ ((j ≢ k) × (f j ≡ y))
  moved_inv k j x y f h = elim (ℕ_discrete j k) [
    | yes e ↦ inl (e, sym (ap (moved k x f) e ∙ moved_same k x f) ∙ h)
    | no ne ↦ inr (ne, sym (moved_ne k j x f ne) ∙ h)
  ]

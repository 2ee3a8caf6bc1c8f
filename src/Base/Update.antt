-- ===== src/Base/Update.antt =====
-- Elements of a list changed at an index.
use Prim.Native.Nat.{ℕ, zero, suc, ◌<◌}
use mathlib.Core.Path.{◌≡◌, refl, ap}
use mathlib.Core.Logic.{◌≢◌, ◌⊎◌, inl, inr}
use mathlib.Core.List.{List, [], ◌∷◌, ◌++◌}
use mathlib.Core.Option.{some}
use native.Mathlib.Omega.{arith}
use rpc_framework.Base.Lists.{length, get_elem?}

module _ {ℓ} {A : Type ℓ} where
  -- Out of range nothing is changed.
  unfoldable pub modify : ℕ → (A → A) → List A → List A
  modify i f [] = []
  modify zero f (x ∷ xs) = f x ∷ xs
  modify (suc i) f (x ∷ xs) = x ∷ modify i f xs

  pub length-modify : (i : ℕ) (f : A → A) (xs : List A) → length (modify i f xs) ≡ length xs
  unfolding modify
  length-modify i f [] = refl
  length-modify zero f (x ∷ xs) = refl
  length-modify (suc i) f (x ∷ xs) = ap suc (length-modify i f xs)

  pub get_elem?-modify_self :
      (i : ℕ) (f : A → A) (xs : List A) (x : A)
      → get_elem? xs i ≡ some x
      → get_elem? (modify i f xs) i ≡ some (f x)
  unfolding modify
  get_elem?-modify_self i f [] x h = cc
  get_elem?-modify_self zero f (y ∷ xs) x h = cc
  get_elem?-modify_self (suc i) f (y ∷ xs) x h = get_elem?-modify_self i f xs x h

  pub get_elem?-modify_ne :
      (i j : ℕ) (f : A → A) (xs : List A) → i ≢ j → get_elem? (modify i f xs) j ≡ get_elem? xs j
  unfolding modify
  get_elem?-modify_ne i j f [] h = refl
  get_elem?-modify_ne zero zero f (y ∷ xs) h = absurd (h refl)
  get_elem?-modify_ne zero (suc j) f (y ∷ xs) h = refl
  get_elem?-modify_ne (suc i) zero f (y ∷ xs) h = refl
  get_elem?-modify_ne (suc i) (suc j) f (y ∷ xs) h =
      get_elem?-modify_ne i j f xs (λ e. h (ap suc e))

  pub get_elem?-append_left :
      (xs ys : List A) (i : ℕ) (x : A) → get_elem? xs i ≡ some x → get_elem? (xs ++ ys) i ≡ some x
  get_elem?-append_left [] ys i x h = cc
  get_elem?-append_left (y ∷ xs) ys zero x h = h
  get_elem?-append_left (y ∷ xs) ys (suc i) x h = get_elem?-append_left xs ys i x h

  pub get_elem?-append_last :
      (xs : List A) (y : A) (i : ℕ) → i ≡ length xs → get_elem? (xs ++ (y ∷ [])) i ≡ some y
  get_elem?-append_last [] y zero h = refl
  get_elem?-append_last [] y (suc i) h = absurd (omega arith)
  get_elem?-append_last (x ∷ xs) y zero h = absurd (omega arith)
  get_elem?-append_last (x ∷ xs) y (suc i) h = get_elem?-append_last xs y i (omega arith)

  pub get_elem?-lt : (xs : List A) (i : ℕ) (x : A) → get_elem? xs i ≡ some x → i < length xs
  get_elem?-lt [] i x h = cc
  get_elem?-lt (y ∷ xs) zero x h = omega arith
  get_elem?-lt (y ∷ xs) (suc i) x h = omega (arith, get_elem?-lt xs i x h)

  -- Where an element of the changed list comes from.
  pub get_elem?-modify_inv :
      (i j : ℕ) (f : A → A) (xs : List A) {y : A}
      → get_elem? (modify i f xs) j ≡ some y
      → (x : A) × (get_elem? xs j ≡ some x) × (((i ≡ j) × (y ≡ f x)) ⊎ ((i ≢ j) × (y ≡ x)))
  unfolding modify
  get_elem?-modify_inv i j f [] h = cc
  get_elem?-modify_inv zero zero f (x ∷ xs) h = (x, refl, inl (refl, cc))
  get_elem?-modify_inv zero (suc j) f (x ∷ xs) {y} h = (y, h, inr (omega arith, refl))
  get_elem?-modify_inv (suc i) zero f (x ∷ xs) h = (x, refl, inr (omega arith, cc))
  get_elem?-modify_inv (suc i) (suc j) f (x ∷ xs) h =
      let (x', e, from) = get_elem?-modify_inv i j f xs h in (x', e, ground (arith, from))

  pub get_elem?-append_inv :
      (xs : List A) (z : A) (j : ℕ) {y : A}
      → get_elem? (xs ++ (z ∷ [])) j ≡ some y
      → (get_elem? xs j ≡ some y) ⊎ ((j ≡ length xs) × (y ≡ z))
  get_elem?-append_inv [] z zero h = inr (refl, cc)
  get_elem?-append_inv [] z (suc j) h = cc
  get_elem?-append_inv (x ∷ xs) z zero h = inl h
  get_elem?-append_inv (x ∷ xs) z (suc j) h =
      let from = get_elem?-append_inv xs z j h in ground (arith, from)

  abbrev pub remove_at : ℕ → List A → List A
  remove_at k [] = []
  remove_at zero (x ∷ xs) = xs
  remove_at (suc k) (x ∷ xs) = x ∷ remove_at k xs

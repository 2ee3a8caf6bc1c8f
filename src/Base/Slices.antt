-- ===== src/Base/Slices.antt =====
-- Arrays as lists: the `n` elements from index `i` on, and a `memcpy` onto an array.
use Prim.Native.Nat.{ℕ, zero, suc, ◌+◌, ◌≤◌}
use mathlib.Core.Path.{◌≡◌, refl, ap, ◌∙◌}
use mathlib.Core.List.{List, [], ◌∷◌, ◌++◌}
use native.Mathlib.Omega.{arith}
use rpc_framework.Base.Lists.{
  length, take, drop, take-append, drop-append, drop-drop, drop-take, length-drop, length-take,
}

module _ {ℓ} {A : Type ℓ} where
  -- The bytes `a[i] .. a[i + n - 1]`.
  abbrev pub slice : ℕ → ℕ → List A → List A
  slice i n a = take n (drop i a)

  -- `memcpy(a + i, xs)`. What would fall behind the end of the array is dropped.
  unfoldable pub write_at : ℕ → List A → List A → List A
  write_at zero [] a = a
  write_at zero (x ∷ xs) [] = []
  write_at zero (x ∷ xs) (y ∷ a) = x ∷ write_at zero xs a
  write_at (suc i) xs [] = []
  write_at (suc i) xs (y ∷ a) = y ∷ write_at i xs a

  pub length-write_at : (i : ℕ) (xs a : List A) → length (write_at i xs a) ≡ length a
  unfolding write_at
  length-write_at zero [] a = refl
  length-write_at zero (x ∷ xs) [] = refl
  length-write_at zero (x ∷ xs) (y ∷ a) = ap suc (length-write_at zero xs a)
  length-write_at (suc i) xs [] = refl
  length-write_at (suc i) xs (y ∷ a) = ap suc (length-write_at i xs a)

  take-write_at :
      (i m : ℕ) (xs a : List A)
      → m ≡ i + length xs
      → m ≤ length a
      → take m (write_at i xs a) ≡ take i a ++ xs
  unfolding write_at
  take-write_at zero zero [] a e h = refl
  take-write_at zero (suc m) [] a e h = absurd (omega arith)
  take-write_at zero zero (x ∷ xs) a e h = absurd (omega arith)
  take-write_at zero (suc m) (x ∷ xs) [] e h = absurd (omega arith)
  take-write_at zero (suc m) (x ∷ xs) (y ∷ a) e h =
      ap (◌∷◌ x) (take-write_at zero m xs a (omega arith) (omega arith))
  take-write_at (suc i) zero xs a e h = absurd (omega arith)
  take-write_at (suc i) (suc m) xs [] e h = absurd (omega arith)
  take-write_at (suc i) (suc m) xs (y ∷ a) e h =
      ap (◌∷◌ y) (take-write_at i m xs a (omega arith) (omega arith))

  drop-write_at :
      (r i j : ℕ) (xs a : List A)
      → i ≡ r + j
      → i + length xs ≤ length a
      → drop r (write_at i xs a) ≡ write_at j xs (drop r a)
  unfolding write_at
  drop-write_at zero i j xs a e h = ap (λ (k : ℕ). write_at k xs a) (omega arith)
  drop-write_at (suc r) zero j xs a e h = absurd (omega arith)
  drop-write_at (suc r) (suc i) j xs [] e h = absurd (omega arith)
  drop-write_at (suc r) (suc i) j xs (y ∷ a) e h =
      drop-write_at r i j xs a (omega arith) (omega arith)

  -- A copy to the end of a slice extends the slice by what is copied.
  pub slice-write_at :
      (r k i m : ℕ) (xs a : List A)
      → i ≡ r + k
      → m ≡ k + length xs
      → r + m ≤ length a
      → slice r m (write_at i xs a) ≡ slice r k a ++ xs
  slice-write_at r k i m xs a e f h =
      ap (take m) (drop-write_at r i k xs a e (omega arith))
      ∙ take-write_at k m xs (drop r a) f (omega (arith, length-drop r a))

  pub slice-append : (r k : ℕ) (a b : List A) → r + k ≤ length a → slice r k (a ++ b) ≡ slice r k a
  slice-append r k a b h =
      ap (take k) (drop-append r a b (omega arith))
      ∙ take-append k (drop r a) b (omega (arith, length-drop r a))

  pub drop-slice :
      (n r k s m : ℕ) (a : List A) → k ≡ n + m → s ≡ r + n → drop n (slice r k a) ≡ slice s m a
  drop-slice n r k s m a e f = drop-take n k m (drop r a) e ∙ ap (take m) (drop-drop r n s a f)

  pub length-slice : (r k : ℕ) (a : List A) → r + k ≤ length a → length (slice r k a) ≡ k
  length-slice r k a h = omega (arith, length-take k (drop r a), length-drop r a)

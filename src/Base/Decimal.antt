-- ===== src/Base/Decimal.antt =====
-- `std::to_string` and `std::stoi` of the standard library.
use Prim.Native.Nat.{ℕ, zero, suc, ◌+◌, ◌-◌, ◌*◌, ◌/◌, ◌%◌, ◌^◌, ◌<◌}
use mathlib.Core.Path.{◌≡◌, refl, ap, ◌∙◌}
use mathlib.Core.Logic.{inl, inr}
use mathlib.Core.Bool.{Bool, true, false, ◌&&◌, ◌||◌}
use mathlib.Core.Option.{Option, none, some}
use mathlib.Core.List.{List, [], ◌∷◌, ◌++◌}
use native.Mathlib.Omega.{arith}
use rpc_framework.Base.Tests.{ltb, leb, ◌==◌, if◌then◌else◌, Bool-cases}
use rpc_framework.Base.Int.{ℤ, pos, negsuc}

-- The digits of `n`, of which `fuel` are enough.
unfoldable pub digits : ℕ → ℕ → List ℕ
digits zero n = []
digits (suc fuel) n =
    let front = digits fuel (n / 10) in
    if ltb n 10 then (48 + n) ∷ [] else front ++ ((48 + n % 10) ∷ [])

-- A number of 64 bits has at most twenty digits.
unfoldable pub to_string_ℕ : ℕ → List ℕ
unfolding digits
to_string_ℕ n = digits 20 n

unfoldable pub to_string : ℤ → List ℕ
unfolding to_string_ℕ
to_string (pos n) = to_string_ℕ n
to_string (negsuc n) = 45 ∷ to_string_ℕ (suc n)

abbrev pub is_digit : ℕ → Bool
is_digit c = leb 48 c && leb c 57

abbrev is_space : ℕ → Bool
is_space c = c == 32 || (leb 9 c && leb c 13)

-- The value of the digits at the front, behind `acc`; `seen` tells whether there has been one.
unfoldable pub scan : Bool → ℕ → List ℕ → Option ℕ
scan seen acc [] = if seen then some acc else none
scan seen acc (c ∷ cs) =
    let rest = scan true (acc * 10 + (c - 48)) cs in
    if is_digit c then rest else if seen then some acc else none

abbrev positive : Option ℕ → Option ℤ
positive none = none
positive (some n) = if ltb n (2 ^ 31) then some (pos n) else none

abbrev negative : Option ℕ → Option ℤ
negative none = none
negative (some zero) = some (pos 0)
negative (some (suc n)) = if ltb n (2 ^ 31) then some (negsuc n) else none

abbrev signed : List ℕ → Option ℤ
signed [] = none
signed (c ∷ cs) =
    if c == 45
    then negative (scan false 0 cs)
    else if c == 43
    then positive (scan false 0 cs)
    else positive (scan false 0 (c ∷ cs))

abbrev skip_spaces : List ℕ → List ℕ
skip_spaces [] = []
skip_spaces (c ∷ cs) = let rest = skip_spaces cs in if is_space c then rest else c ∷ cs

-- `none` are the exceptions: no digits, or a number that is no `int`.
unfoldable pub stoi : List ℕ → Option ℤ
unfolding scan
stoi s = signed (skip_spaces s)

abbrev pub AllDigits : List ℕ → Type 0
AllDigits [] = Unit {0}
AllDigits (c ∷ cs) = (is_digit c ≡ true) × AllDigits cs

AllDigits-append : (s t : List ℕ) → AllDigits s → AllDigits t → AllDigits (s ++ t)
AllDigits-append [] t h k = k
AllDigits-append (c ∷ s) t (d, h) k = (d, AllDigits-append s t h k)

-- One more digit behind digits.
scan-append :
    (s : List ℕ) (seen : Bool) (acc v c : ℕ)
    → AllDigits s
    → is_digit c ≡ true
    → scan seen acc s ≡ some v
    → scan seen acc (s ++ (c ∷ [])) ≡ some (v * 10 + (c - 48))
unfolding scan
scan-append [] seen acc v c h d e = ground arith
scan-append (b ∷ s) seen acc v c (k, h) d e =
    let from : scan true (acc * 10 + (b - 48)) s ≡ some v = rw k at e in
    rw k (scan-append s true (acc * 10 + (b - 48)) v c h d from)

-- `fuel` digits are enough for `n`.
abbrev Enough : ℕ → ℕ → Type 0
Enough zero n = n ≡ 0
Enough (suc fuel) n = Enough fuel (n / 10)

digits_lem :
    (fuel n : ℕ)
    → Enough fuel n
    → 0 < fuel
    → AllDigits (digits fuel n) × (scan false 0 (digits fuel n) ≡ some n)
unfolding digits scan
digits_lem zero n e h = absurd (omega arith)
digits_lem (suc fuel) n e h = elim (Bool-cases (ltb n 10)) [
  | inl one ↦ rw one ((ground arith, tt), ground arith)
  | inr more ↦
      let (d, v) = digits_lem fuel (n / 10) e (more_fuel fuel (n / 10) e (ground arith)) in
      let last : is_digit (48 + n % 10) ≡ true = ground arith in
      rw more (
        AllDigits-append (digits fuel (n / 10)) ((48 + n % 10) ∷ []) d (last, tt),
        scan-append (digits fuel (n / 10)) false 0 (n / 10) (48 + n % 10) d last v
            ∙ ap (λ (i : ℕ). some i) (omega arith),
      )
]
  where
    more_fuel : (fuel m : ℕ) → Enough fuel m → 0 < m → 0 < fuel
    more_fuel zero m e h = absurd (omega arith)
    more_fuel (suc fuel) m e h = omega arith

pub to_string_ℕ-AllDigits : (n : ℕ) → n < 2 ^ 64 → AllDigits (to_string_ℕ n)
unfolding to_string_ℕ
to_string_ℕ-AllDigits n h = (digits_lem 20 n (omega arith) (omega arith)).0

stoi-digits :
    (s : List ℕ) (n : ℕ)
    → AllDigits s
    → scan false 0 s ≡ some n
    → n < 2 ^ 31
    → stoi s ≡ some (pos n)
unfolding stoi
stoi-digits [] n d e h = cc
stoi-digits (c ∷ cs) n (d, ds) e h =
    let no_space : is_space c ≡ false = ground arith in
    let no_minus : (c == 45) ≡ false = ground arith in
    let no_plus : (c == 43) ≡ false = ground arith in
    let small : ltb n (2 ^ 31) ≡ true = ground arith in
    rw (no_space, no_minus, no_plus, e, small) refl

stoi-minus :
    (s : List ℕ) (n : ℕ)
    → scan false 0 s ≡ some (suc n)
    → n < 2 ^ 31
    → stoi (45 ∷ s) ≡ some (negsuc n)
unfolding stoi
stoi-minus s n e h = let small : ltb n (2 ^ 31) ≡ true = ground arith in rw (e, small) refl

-- The range of `int`.
abbrev pub IsInt : ℤ → Type 0
IsInt (pos n) = n < 2 ^ 31
IsInt (negsuc n) = n < 2 ^ 31

-- What is printed as an `int` is read as the same `int`.
pub stoi-to_string : (i : ℤ) → IsInt i → stoi (to_string i) ≡ some i
unfolding to_string to_string_ℕ
stoi-to_string (pos n) h =
    let (d, v) = digits_lem 20 n (omega arith) (omega arith) in stoi-digits (to_string_ℕ n) n d v h
stoi-to_string (negsuc n) h =
    let (d, v) = digits_lem 20 (suc n) (omega arith) (omega arith) in
    stoi-minus (to_string_ℕ (suc n)) n v h

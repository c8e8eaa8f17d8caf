-- ===== src/Base/Lists.antt =====
-- Lists measured by native numbers, predicates on all their elements, and membership of texts.
use Prim.Native.Nat.{ℕ, zero, suc, ◌+◌, ◌≤◌}
use Prim.Native.String.{String}
use mathlib.Core.Path.{◌≡◌, refl, ap}
use mathlib.Core.Logic.{◌≢◌}
use mathlib.Core.Bool.{Bool, true, false, ◌||◌}
use mathlib.Core.List.{List, [], ◌∷◌, ◌++◌}
use native.Mathlib.Omega.{arith}
use text.Mathlib.Text.{◌==◌}
use text.Mathlib.TextEquality.{eq_iff}
use locai_link.Base.Tests.{if◌then◌else◌}

module _ {ℓ} {A : Type ℓ} where
  abbrev pub length : List A → ℕ
  length [] = 0
  length (x ∷ xs) = suc (length xs)

  abbrev pub take : ℕ → List A → List A
  take zero xs = []
  take (suc n) [] = []
  take (suc n) (x ∷ xs) = x ∷ take n xs

  abbrev pub All {κ} : (A → Type κ) → List A → Type κ
  All P [] = Unit
  All P (x ∷ xs) = P x × All P xs

  pub length-append : (xs ys : List A) → length (xs ++ ys) ≡ length xs + length ys
  length-append [] ys = omega arith
  length-append (x ∷ xs) ys = omega (arith, length-append xs ys)

  pub length-take_le : (n : ℕ) (xs : List A) → length (take n xs) ≤ n
  length-take_le zero xs = omega arith
  length-take_le (suc n) [] = omega arith
  length-take_le (suc n) (x ∷ xs) = omega (arith, length-take_le n xs)

  pub take-take : (n m : ℕ) (xs : List A) → n ≤ m → take n (take m xs) ≡ take n xs
  take-take zero m xs h = refl
  take-take (suc n) zero xs h = absurd (omega arith)
  take-take (suc n) (suc m) [] h = refl
  take-take (suc n) (suc m) (x ∷ xs) h = ap (◌∷◌ x) (take-take n m xs (omega arith))

-- `x in xs`
abbrev pub elem : String → List String → Bool
elem k [] = false
elem k (x ∷ xs) = x == k || elem k xs

-- The list with every occurrence of a text taken out.
unfoldable pub without : String → List String → List String
without x [] = []
without x (y ∷ ys) = let rest = without x ys in if y == x then rest else y ∷ rest

pub elem-take :
    (k : String) (n : ℕ) (xs : List String) → elem k (take n xs) ≡ true → elem k xs ≡ true
elem-take k zero xs h = ground arith
elem-take k (suc n) [] h = h
elem-take k (suc n) (x ∷ xs) h = ground (arith, elem-take k n xs)

pub elem-take-suc :
    (k : String) (n : ℕ) (xs : List String)
    → elem k (take n xs) ≡ true
    → elem k (take (suc n) xs) ≡ true
elem-take-suc k zero xs h = ground arith
elem-take-suc k (suc n) [] h = h
elem-take-suc k (suc n) (x ∷ xs) h = ground (arith, elem-take-suc k n xs)

pub elem-without_ne : (x y : String) (ys : List String) → x ≢ y → elem x (without y ys) ≡ elem x ys
unfolding without
elem-without_ne x y [] n = refl
elem-without_ne x y (z ∷ zs) n = ground (arith, elem-without_ne x y zs n, eq_iff z y, eq_iff z x, n)

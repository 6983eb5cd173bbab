-- ===== src/Base/Lists.antt =====
-- Lists measured by native numbers, and Python's `set` of integers as a list without repeats.
use Prim.Native.Nat.{ℕ, suc, ◌+◌}
use mathlib.Core.Path.{◌≡◌, refl}
use mathlib.Core.Bool.{Bool, true, false, ◌||◌}
use mathlib.Core.Option.{Option, none, some}
use mathlib.Core.List.{List, [], ◌∷◌, ◌++◌}
use native.Mathlib.Omega.{arith}
use luthien_proxy.Base.Tests.{if◌then◌else◌}
use luthien_proxy.Base.Int.{ℤ, ◌==ℤ◌, ==ℤ_iff, ==ℤ_refl}

module _ {ℓ} {A : Type ℓ} where
  abbrev pub length : List A → ℕ
  length [] = 0
  length (x ∷ xs) = suc (length xs)

  -- `not xs`
  abbrev pub is_nil : List A → Bool
  is_nil [] = true
  is_nil (x ∷ xs) = false

  -- `o is not None`
  abbrev pub is_some : Option A → Bool
  is_some none = false
  is_some (some a) = true

  -- `any(test(x) for x in xs)`
  abbrev pub any_of : (A → Bool) → List A → Bool
  any_of test [] = false
  any_of test (x ∷ xs) = test x || any_of test xs

  pub length-append : (xs ys : List A) → length (xs ++ ys) ≡ length xs + length ys
  length-append [] ys = omega arith
  length-append (x ∷ xs) ys = omega (arith, length-append xs ys)

-- `i in s`
unfoldable pub contains : ℤ → List ℤ → Bool
contains i [] = false
contains i (j ∷ s) = if j ==ℤ i then true else contains i s

-- `s.add(i)`
unfoldable pub add : ℤ → List ℤ → List ℤ
unfolding contains
add i s = if contains i s then s else i ∷ s

-- `s - t`
unfoldable pub difference : List ℤ → List ℤ → List ℤ
difference [] t = []
difference (i ∷ s) t = let rest = difference s t in if contains i t then rest else i ∷ rest

pub contains-nil : (i : ℤ) → contains i [] ≡ false
unfolding contains
contains-nil i = refl

pub contains-add :
    (i j : ℤ) (s : List ℤ) → contains j (add i s) ≡ (if i ==ℤ j then true else contains j s)
unfolding contains add
contains-add i j s = ground (arith, ==ℤ_iff i j)

-- `s - t` is empty exactly when every member of `s` is one of `t`.
pub contains_of_difference-eq-nil :
    (s t : List ℤ) (i : ℤ) → difference s t ≡ [] → contains i s ≡ true → contains i t ≡ true
unfolding difference contains
contains_of_difference-eq-nil [] t i h m = ground arith
contains_of_difference-eq-nil (j ∷ s) t i h m =
    ground (arith, ==ℤ_iff j i, contains_of_difference-eq-nil s t i)

pub difference-eq-nil :
    (s t : List ℤ) → ((i : ℤ) → contains i s ≡ true → contains i t ≡ true) → difference s t ≡ []
unfolding difference contains
difference-eq-nil [] t h = refl
difference-eq-nil (j ∷ s) t h =
    let here = h j (rw ==ℤ_refl) in
    let rest = difference-eq-nil s t (λ i m. h i (ground arith)) in ground (arith, here, rest)

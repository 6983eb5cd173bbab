-- ===== src/Base/Int.antt =====
-- Python's `int`, as far as the code compares it: block indices of a stream may be negative.
use Prim.Native.Nat.{ℕ}
use mathlib.Core.Path.{◌≡◌, refl}
use mathlib.Core.Logic.{◌↔◌}
use mathlib.Core.Bool.{Bool, true, false}
use native.Mathlib.Omega.{arith}
use luthien_proxy.Base.Tests.{leb, ◌==◌, ==_iff}

-- `negsuc n` is -(n + 1).
pub data ℤ : Type 0 where
  pos : ℕ → ℤ
  negsuc : ℕ → ℤ

infix 50 ◌==ℤ◌ ◌≤ℤ◌
abbrev pub ◌==ℤ◌ : ℤ → ℤ → Bool
pos a ==ℤ pos b = a == b
pos a ==ℤ negsuc b = false
negsuc a ==ℤ pos b = false
negsuc a ==ℤ negsuc b = a == b

-- a <= b
abbrev pub ◌≤ℤ◌ : ℤ → ℤ → Bool
pos a ≤ℤ pos b = leb a b
pos a ≤ℤ negsuc b = false
negsuc a ≤ℤ pos b = true
negsuc a ≤ℤ negsuc b = leb b a

-- a < 0
abbrev pub is_negative : ℤ → Bool
is_negative (pos a) = false
is_negative (negsuc a) = true

pub ==ℤ_iff : (a b : ℤ) → ((a ==ℤ b) ≡ true) ↔ (a ≡ b)
==ℤ_iff (pos a) (pos b) = ground (arith, ==_iff a b)
==ℤ_iff (pos a) (negsuc b) = ground arith
==ℤ_iff (negsuc a) (pos b) = ground arith
==ℤ_iff (negsuc a) (negsuc b) = ground (arith, ==_iff a b)

pub ==ℤ_refl : (a : ℤ) → (a ==ℤ a) ≡ true
==ℤ_refl a = (==ℤ_iff a a).1 refl

pub ≤ℤ_refl : (a : ℤ) → (a ≤ℤ a) ≡ true
≤ℤ_refl (pos a) = ground arith
≤ℤ_refl (negsuc a) = ground arith

-- From a <= b and not c <= b follows a <= c.
pub ≤ℤ_trans_total : (a b c : ℤ) → (a ≤ℤ b) ≡ true → (c ≤ℤ b) ≡ false → (a ≤ℤ c) ≡ true
≤ℤ_trans_total (pos a) (pos b) (pos c) h k = ground arith
≤ℤ_trans_total (pos a) (pos b) (negsuc c) h k = ground arith
≤ℤ_trans_total (pos a) (negsuc b) c h k = cc
≤ℤ_trans_total (negsuc a) (pos b) (pos c) h k = refl
≤ℤ_trans_total (negsuc a) (pos b) (negsuc c) h k = cc
≤ℤ_trans_total (negsuc a) (negsuc b) (pos c) h k = refl
≤ℤ_trans_total (negsuc a) (negsuc b) (negsuc c) h k = ground arith

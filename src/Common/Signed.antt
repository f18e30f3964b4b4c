-- ===== src/Common/Signed.antt =====
-- Signed integers, for ticks: `negsuc n` is -(n + 1).
use Prim.Native.Nat.{ℕ, suc, ◌+◌, ◌%◌}
use mathlib.Core.Bool.{Bool, false}
use funi.Common.Tests.{ltb, leb, ◌==◌}

pub data ℤ : Type 0 where
  pos : ℕ → ℤ
  negsuc : ℕ → ℤ

abbrev pub above : ℤ → ℕ
above (pos n) = n
above (negsuc n) = 0

abbrev pub below : ℤ → ℕ
below (pos n) = 0
below (negsuc n) = suc n

abbrev pub magnitude : ℤ → ℕ
magnitude (pos n) = n
magnitude (negsuc n) = suc n

abbrev pub is_positive : ℤ → Bool
is_positive (pos n) = ltb 0 n
is_positive (negsuc n) = false

abbrev pub ltb_ℤ : ℤ → ℤ → Bool
ltb_ℤ a b = ltb (above a + below b) (above b + below a)

abbrev pub leb_ℤ : ℤ → ℤ → Bool
leb_ℤ a b = leb (above a + below b) (above b + below a)

-- `a % n === 0`, whose sign does not matter.
abbrev pub is_multiple : ℤ → ℕ → Bool
is_multiple a n = magnitude a % n == 0

abbrev pub eq_ℤ : ℤ → ℤ → Bool
eq_ℤ a b = above a + below b == above b + below a

-- ===== src/Base/BitOr.antt =====
-- `bit_or` of a number whose low bits are clear with a number below them is their sum.
use Prim.Native.Nat.{
  ℕ, zero, suc, ◌+◌, ◌*◌, ◌/◌, ◌%◌, ◌≤◌, ◌<◌, ◌^◌, max, bit_or, digits, bit_or-bitwise,
}
use mathlib.Core.Path.{◌≡◌, refl, ap, ◌∙◌}
use native.Mathlib.Nat.{pow-suc}
use native.Mathlib.Omega.{arith}

abbrev or_run : ℕ → ℕ → ℕ → ℕ
or_run = digits (λ b. b) max

or_run_stable : (n m a b : ℕ) → a ≤ n → a ≤ m → or_run n a b ≡ or_run m a b
or_run_stable zero zero a b p q = refl
or_run_stable zero (suc m) zero b p q = refl
or_run_stable (suc n) zero zero b p q = refl
or_run_stable (suc n) (suc m) zero b p q = refl
or_run_stable zero m (suc a) b p q = absurd (omega arith)
or_run_stable (suc n) zero (suc a) b p q = absurd (omega arith)
or_run_stable (suc n) (suc m) (suc a) b p q =
    omega (arith, or_run_stable n m (suc a / 2) (b / 2) (omega arith) (omega arith))

-- The law for the lowest bit.
pub bit_or-halves : (a b : ℕ) → bit_or a b ≡ bit_or (a / 2) (b / 2) * 2 + max (a % 2) (b % 2)
bit_or-halves zero b = omega (arith, bit_or-bitwise 0 b, bit_or-bitwise 0 (b / 2))
bit_or-halves (suc a) b = omega (
  arith,
  bit_or-bitwise (suc a) b,
  bit_or-bitwise (suc a / 2) (b / 2),
  or_run_stable a (suc a / 2) (suc a / 2) (b / 2) (omega arith) (omega arith),
)

bit_or-zero_below : (n a : ℕ) → a ≤ n → bit_or a 0 ≡ a
bit_or-zero_below n zero h = refl
bit_or-zero_below zero (suc a) h = absurd (omega arith)
bit_or-zero_below (suc n) (suc a) h =
    omega (arith, bit_or-halves (suc a) 0, bit_or-zero_below n (suc a / 2) (omega arith))

pub bit_or-zero : (a : ℕ) → bit_or a 0 ≡ a
bit_or-zero a = bit_or-zero_below a a (omega arith)

shift-suc : (c w : ℕ) → c * 2 ^ suc w ≡ c * 2 ^ w * 2
shift-suc c w = rw pow-suc (omega arith)

bit_or-double : (q b : ℕ) → bit_or (q * 2) b ≡ bit_or q (b / 2) * 2 + b % 2
bit_or-double q b =
    let e : q * 2 / 2 ≡ q = omega arith in
    bit_or-halves (q * 2) b
    ∙ ap (λ t. bit_or t (b / 2) * 2 + max (q * 2 % 2) (b % 2)) e
    ∙ ap (λ t. bit_or q (b / 2) * 2 + t) (omega arith)

-- `(c << w) | b` where `b` fits in the bits that the shift clears.
pub bit_or-disjoint : (w c b : ℕ) → b < 2 ^ w → bit_or (c * 2 ^ w) b ≡ c * 2 ^ w + b
bit_or-disjoint zero c b fits =
    let z : b ≡ 0 = omega arith in
    let e : c * 2 ^ 0 ≡ c = omega arith in rw (z, e) (omega (arith, bit_or-zero c))
bit_or-disjoint (suc w) c b fits =
    let fits' : b < 2 ^ w * 2 = rw (← pow-suc 2 w) fits in
    rw (shift-suc c w)
      (bit_or-double (c * 2 ^ w) b ∙ omega (arith, bit_or-disjoint w c (b / 2) (omega arith)))

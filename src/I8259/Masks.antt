-- ===== src/I8259/Masks.antt =====
-- What enabling and disabling an interrupt does to the masks, bit by bit.
use Prim.Native.Nat.{bit_and, bit_or}
use ece391_mp.Base.{
  ℕ, ◌-◌, ◌/◌, ◌%◌, ◌^◌, ◌<◌, ◌≡◌, refl, Bool, true, Returns, ltb, all_below, all_below-true, ◌==◌,
  if◌then◌else◌, arith, ==_iff,
}
use ece391_mp.Kernel.{Kernel}
use ece391_mp.I8259.{all_but, one_bit, enable_irq, disable_irq}

-- Whether interrupt line `n` of a controller is masked: bit `n` of its mask.
abbrev pub masked : ℕ → ℕ → ℕ
masked mask n = mask / 2 ^ n % 2

abbrev enable_test : ℕ → ℕ → ℕ → Bool
enable_test mask i j = masked (bit_and mask (all_but i)) j == (if i == j then 0 else masked mask j)

abbrev disable_test : ℕ → ℕ → ℕ → Bool
disable_test mask i j = masked (bit_or mask (one_bit i)) j == (if i == j then 1 else masked mask j)

abbrev every : (ℕ → ℕ → ℕ → Bool) → Bool
every t = all_below 256 (λ m. all_below 8 (λ i. all_below 8 (λ j. t m i j)))

every_sound :
    (t : ℕ → ℕ → ℕ → Bool) (m i j : ℕ) → every t ≡ true → m < 256 → i < 8 → j < 8 → t m i j ≡ true
every_sound t m i j e hm hi hj =
    all_below-true 8 (λ j'. t m i j') j
      (all_below-true 8 (λ i'. all_below 8 (λ j'. t m i' j')) i
        (all_below-true 256 (λ m'. all_below 8 (λ i'. all_below 8 (λ j'. t m' i' j'))) m e hm) hi)
      hj

enable_table : every enable_test ≡ true
unfolding all_below
enable_table = refl

disable_table : every disable_test ≡ true
unfolding all_below
disable_table = refl

masked-bit_and :
    (m i j : ℕ)
    → m < 256
    → i < 8
    → j < 8
    → masked (bit_and m (all_but i)) j ≡ (if i == j then 0 else masked m j)
masked-bit_and m i j hm hi hj = (==_iff _ _).0 (every_sound enable_test m i j enable_table hm hi hj)

masked-bit_or :
    (m i j : ℕ)
    → m < 256
    → i < 8
    → j < 8
    → masked (bit_or m (one_bit i)) j ≡ (if i == j then 1 else masked m j)
masked-bit_or m i j hm hi hj =
    (==_iff _ _).0 (every_sound disable_test m i j disable_table hm hi hj)

-- The mask bit of an interrupt of either controller, 0 to 15.
abbrev pub is_masked : Kernel → ℕ → ℕ
is_masked k n = if ltb n 8 then masked k.master_mask n else masked k.slave_mask (n - 8)

is_masked-enable_irq :
    (k : Kernel) (irq n : ℕ)
    → k.master_mask < 256
    → k.slave_mask < 256
    → irq < 16
    → n < 16
    → Returns (enable_irq k irq) (λ k'. is_masked k' n ≡ (if irq == n then 0 else is_masked k n))
unfolding enable_irq
is_masked-enable_irq k irq n hm hs hi hn =
    ground (
      arith,
      masked-bit_and k.master_mask irq n hm,
      masked-bit_and k.slave_mask (irq - 8) (n - 8) hs,
    )

is_masked-disable_irq :
    (k : Kernel) (irq n : ℕ)
    → k.master_mask < 256
    → k.slave_mask < 256
    → irq < 16
    → n < 16
    → Returns (disable_irq k irq) (λ k'. is_masked k' n ≡ (if irq == n then 1 else is_masked k n))
unfolding disable_irq
is_masked-disable_irq k irq n hm hs hi hn =
    ground
      (arith, masked-bit_or k.master_mask irq n hm, masked-bit_or k.slave_mask (irq - 8) (n - 8) hs)

-- For byte masks and interrupts 0 to 15, `enable_irq` and `disable_irq` return; the first unmasks its
-- interrupt, the second masks it, and both leave the mask bit of every other interrupt of both
-- controllers as it was.
pub is_masked-irq :
    (k : Kernel) (irq n : ℕ)
    → k.master_mask < 256
    → k.slave_mask < 256
    → irq < 16
    → n < 16
    → Returns (enable_irq k irq) (λ k'. is_masked k' n ≡ (if irq == n then 0 else is_masked k n))
      × Returns (disable_irq k irq) (λ k'. is_masked k' n ≡ (if irq == n then 1 else is_masked k n))
is_masked-irq k irq n hm hs hi hn =
    (is_masked-enable_irq k irq n hm hs hi hn, is_masked-disable_irq k irq n hm hs hi hn)

-- ===== src/Rtc/Freq.antt =====
-- Which frequencies `set_virtual_freq_rtc` accepts.
use ece391_mp.Base.{ℕ, zero, suc, ◌^◌, Bool, ◌||◌, ◌==◌}
use ece391_mp.Kernel.{Kernel}

-- Whether `f` is one of 2^0 to 2^n.
is_power : ℕ → ℕ → Bool
is_power zero f = f == 1
is_power (suc n) f = f == 2 ^ suc n || is_power n f

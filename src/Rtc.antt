-- ===== src/Rtc.antt =====
-- student-distrib/rtc.c: the real-time clock, and its virtual frequency for each terminal. What the
-- port `inb` reads is an argument.
pub mod Freq
pub mod Wait
use Prim.Native.Nat.{bit_and, bit_or}
use ece391_mp.Base.{
  ℕ, zero, suc, ◌+◌, ◌-◌, ◌*◌, ◌/◌, ◌%◌, ◌^◌, Bool, not, ◌||◌, List, Option, none, some, Result, ok,
  ◌>>=◌, ltb, leb, ◌==◌, if◌then◌else◌, ℤ, pos, minus_one, eqb_ℤ,
}
use ece391_mp.Kernel.{Kernel, Terminal, VirtualRtc, set_terminal, outb}
use ece391_mp.Kernel.Running.{get_terminal_from_pid, get_running_terminal}
use ece391_mp.Kernel.Spin.{Interrupt, spin}
use ece391_mp.I8259.{enable_irq, send_eoi}

-- The constants of rtc.h.
abbrev pub rtc_irq : ℕ
rtc_irq = 8

abbrev pub pid_count : ℕ
pid_count = 8

abbrev rtc_sel_port : ℕ
rtc_sel_port = 0x70

abbrev rtc_data_port : ℕ
rtc_data_port = 0x71

-- `freq & (freq - 1)` on `u32`.
abbrev pub below_top_bit : ℕ → ℕ
below_top_bit freq = bit_and freq ((freq + 2 ^ 32 - 1) % 2 ^ 32)

-- `set_virtual_freq_rtc` once the terminal is known.
unfoldable pub set_virtual_freq : Kernel → ℕ → ℕ → Kernel × ℤ
set_virtual_freq k i freq =
    let t = k.terminals i in
    if freq == 0 || ltb t.rtc.real_freq freq || not (below_top_bit freq == 0)
    then (k, minus_one)
    else (
      set_terminal k i (record t { rtc = record (t.rtc) { int_count = 0; virt_freq = freq } }),
      pos 0,
    )

-- `set_virtual_freq_rtc`
unfoldable pub set_virtual_freq_rtc : Kernel → ℕ → Result (Kernel × ℤ)
unfolding set_virtual_freq
set_virtual_freq_rtc k freq = do
  term ← get_running_terminal k
  elim term [ none ↦ ok (k, minus_one) | some i ↦ ok (set_virtual_freq k i freq) ]

-- The update of one terminal's clock by `irqh_rtc`.
unfoldable pub tick : VirtualRtc → VirtualRtc
tick r =
    let count = (r.int_count + 1) % 2 ^ 32 in
    record r {
      int_count = count;
      flag = if leb r.real_freq (r.virt_freq * count % 2 ^ 32) then 1 else 0;
    }

-- The body of the loop of `irqh_rtc`.
unfoldable pub tick_terminal : Kernel → ℕ → Kernel
tick_terminal k pid = elim (get_terminal_from_pid k pid) [
  | none ↦ k
  | some i ↦ set_terminal k i (record (k.terminals i) { rtc = tick (k.terminals i).rtc })
]

-- The loop of `irqh_rtc` over the process ids, with the rounds that are left.
unfoldable pub tick_terminals : Kernel → ℕ → ℕ → Kernel
unfolding tick_terminal
tick_terminals k zero pid = k
tick_terminals k (suc rounds) pid = tick_terminals (tick_terminal k pid) rounds (pid + 1)

-- `ack_rtc_int`: the write that selects register C. (The value read is not used.)
abbrev pub ack_rtc_int : Kernel → Kernel
ack_rtc_int k = outb 0xC rtc_sel_port k

-- `irqh_rtc`
unfoldable pub irqh_rtc : Interrupt
unfolding tick_terminals
irqh_rtc k = ok (send_eoi (tick_terminals (ack_rtc_int k) pid_count 0) rtc_irq)

abbrev pub flag_raised : ℕ → Kernel → Bool
flag_raised i k = not ((k.terminals i).rtc.flag == 0)

abbrev pub reset_rtc : Kernel → ℕ → Kernel
reset_rtc k i =
    set_terminal k i
      (record (k.terminals i) { rtc = record ((k.terminals i).rtc) { flag = 0; int_count = 0 } })

-- `rtc_read`; `none` means that it still spins after the interrupts given.
unfoldable pub rtc_read : Kernel → List Interrupt → Result (Option (Kernel × ℤ))
rtc_read k irqs = do
  term ← get_running_terminal k
  elim term [
    | none ↦ ok (some (k, minus_one))
    | some i ↦ do
      waited ← spin (flag_raised i) irqs (reset_rtc k i)
      elim waited [ none ↦ ok none | some k' ↦ ok (some (k', pos 0)) ]
  ]

-- `rtc_write`; `buf` is the `u32` at the pointer, or `none` for a null pointer.
unfoldable pub rtc_write : Kernel → Option ℕ → ℤ → Result (Kernel × ℤ)
unfolding set_virtual_freq_rtc
rtc_write k none nbytes = ok (k, minus_one)
rtc_write k (some freq) nbytes =
    if not (eqb_ℤ nbytes (pos 4))
    then ok (k, minus_one)
    else (set_virtual_freq_rtc k freq >>= λ r.
        ok (r.0, if eqb_ℤ r.1 (pos 0) then pos 4 else minus_one))

-- `rtc_open` and `rtc_close`
unfoldable pub rtc_open : Kernel → Result (Kernel × ℤ)
unfolding set_virtual_freq_rtc
rtc_open k = do r ← set_virtual_freq_rtc k 2; ok (r.0, pos 0)

unfoldable pub rtc_close : Kernel → Kernel × ℤ
rtc_close k = (k, pos 0)

-- `set_real_freq_rtc`; `prev` is what register A held. The shift is defined for 1 ≤ rate ≤ 32.
unfoldable pub set_real_freq_rtc : Kernel → ℕ → ℕ → Result Kernel
set_real_freq_rtc k prev rate = do
  let k' =
      outb (bit_or (bit_and prev 0xF0) rate) rtc_data_port
        (outb (bit_or 0xA 0x80) rtc_sel_port (outb (bit_or 0xA 0x80) rtc_sel_port k))
  term ← get_running_terminal k'
  elim term [
    | none ↦ ok k'
    | some i ↦ ok (
        set_terminal k' i (record (k'.terminals i) {
          rtc = record ((k'.terminals i).rtc) { real_freq = 32768 / 2 ^ (rate - 1) };
        }))
  ]

-- `init_rtc`; `prev_b` and `prev_a` are what registers B and A held.
unfoldable pub init_rtc : Kernel → ℕ → ℕ → Result Kernel
unfolding set_real_freq_rtc
init_rtc k prev_b prev_a = do
  k1 ← enable_irq k rtc_irq
  set_real_freq_rtc
      (outb (bit_or prev_b 0x40) rtc_data_port
        (outb (bit_or 0xB 0x80) rtc_sel_port (outb (bit_or 0xB 0x80) rtc_sel_port k1)))
      prev_a 6

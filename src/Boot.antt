-- ===== src/Boot.antt =====
-- student-distrib/kernel.c: `entry`, from where the devices are set up. What comes before it prints
-- what the boot loader left, and fills the descriptors of x86_desc.h.
pub mod Lines
use ece391_mp.Base.{ℕ, not, List, [], ◌∷◌, some, none, Result, ok, ◌>>=◌, eqb_ℤ, pos, if◌then◌else◌}
use ece391_mp.Fs.{FsImage}
use ece391_mp.Kernel.{Kernel}
use ece391_mp.I8259.{init_i8259}
use ece391_mp.Keyboard.{init_keyboard}
use ece391_mp.Rtc.{init_rtc}
use ece391_mp.Paging.{init_paging}
use ece391_mp.Idt.{Handler, IdtDesc, init_idt}
use ece391_mp.Pit.{init_pit}
use ece391_mp.Files.{open_fs}
use ece391_mp.Printf.{printf}
use ece391_mp.Screen.{clear}
use ece391_mp.Task.{Execution, Stack}
use ece391_mp.Task.InitTerminals.{init_terminals}

-- What the machine and the linker give to `entry`: the registers of the clock, the addresses of the
-- stubs, and the first module of the boot loader.
pub record Machine : Type 0 where
  pub register_b : ℕ
  pub register_a : ℕ
  pub address : Handler → ℕ
  pub mod_start : ℕ
  pub image : FsImage

-- The calls of `entry` from `init_i8259` to `init_pit`.
unfoldable pub start_devices : Machine → Kernel → (ℕ → IdtDesc) → Result (Kernel × (ℕ → IdtDesc))
unfolding init_i8259 init_keyboard init_rtc init_paging init_idt init_pit
start_devices m k idt = do
  k1 ← init_i8259 k
  k2 ← init_keyboard k1
  k3 ← init_rtc k2 m.register_b m.register_a
  let k4 = record k3 { paging = init_paging k3.paging }
  k5 ← init_pit k4
  ok (k5, init_idt m.address idt)

-- How `entry` ends: it stays in its loop, or it has started the first program.
pub data Booted : Type 0 where
  looping : Kernel → Booted
  executed : Execution → Booted

-- "Failed to open filesystem!\n"
abbrev pub failed_to_open : List ℕ
failed_to_open =
    70 ∷ 97 ∷ 105 ∷ 108 ∷ 101 ∷ 100 ∷ 32 ∷ 116 ∷ 111 ∷ 32 ∷ 111 ∷ 112 ∷ 101 ∷ 110 ∷ 32 ∷ 102 ∷ 105
    ∷ 108 ∷ 101 ∷ 115 ∷ 121 ∷ 115 ∷ 116 ∷ 101 ∷ 109 ∷ 33 ∷ 10 ∷ 0 ∷ []

-- The rest of `entry`; `junk` is what the local buffers of `printf` hold.
unfoldable pub start_programs : Machine → (ℕ → ℕ) → Kernel → Stack → Result Booted
unfolding open_fs printf clear init_terminals
start_programs m junk k stack =
    let opened = open_fs k m.mod_start m.image in
    let fail = printf junk opened.0 failed_to_open [] >>= λ r. ok (looping r.0) in
    let go_on = clear opened.0 >>= λ k1. (init_terminals k1 stack >>= λ e. ok (executed e)) in
    if not (eqb_ℤ opened.1 (pos 0)) then fail else go_on

-- `entry` from `init_i8259` on.
unfoldable pub entry : Machine → (ℕ → ℕ) → Kernel → (ℕ → IdtDesc) → Stack → Result Booted
unfolding start_devices start_programs
entry m junk k idt stack = start_devices m k idt >>= λ r. start_programs m junk r.0 stack

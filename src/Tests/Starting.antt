-- ===== src/Tests/Starting.antt =====
-- The start of the machine.
use ece391_mp.Base.{ℕ, ◌<◌, ◌≡◌, ◌≢◌, refl, ok}
use ece391_mp.Kernel.{Kernel}
use ece391_mp.Idt.{Handler, IdtDesc}
use ece391_mp.Idt.Gates.{vector, InterruptGate}
use ece391_mp.I8259.Masks.{is_masked}
use ece391_mp.Boot.{Machine, start_devices}
use ece391_mp.Boot.Lines.{line_mask, line_vector, start_devices-InterruptGate}
use ece391_mp.Tests.Machine.{machine, image}
use ece391_mp.Tests.Text.{address, no_gate, address_small}

abbrev board : Machine
board = record {
  register_b = 2;
  register_a = 0x26;
  address = address;
  mod_start = 0x400000;
  image = image;
}

start_devices_example :
    (k' : Kernel) × (idt' : ℕ → IdtDesc) × (start_devices board machine no_gate ≡ ok (k', idt'))
    × ((n : ℕ) → n < 16 → is_masked k' n ≡ line_mask n)
    × ((n : ℕ)
        → n < 16
        → n ≢ 2
        → is_masked k' n ≡ 0
        → (h : Handler) × (vector h ≡ line_vector n)
          × InterruptGate (idt' (line_vector n)) (address h) 0)
start_devices_example =
    start_devices-InterruptGate board machine no_gate refl refl refl address_small

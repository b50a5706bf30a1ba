-- ===== src/I8259.antt =====
-- student-distrib/i8259.c: the two interrupt controllers. The masks are the globals of that file, and
-- each write to a controller is an entry of `ports`.
pub mod Masks
use Prim.Native.Nat.{bit_and, bit_or}
use ece391_mp.Base.{ℕ, ◌+◌, ◌-◌, ◌%◌, ◌^◌, Result, ok, ◌>>=◌, ◌>>◌, in_bounds, ltb, if◌then◌else◌}
use ece391_mp.Kernel.{Kernel, outb}

-- The ports and the end-of-interrupt byte of i8259.h.
abbrev pub master_8259_port : ℕ
master_8259_port = 0x20

abbrev pub slave_8259_port : ℕ
slave_8259_port = 0xA0

abbrev pub slave_irq : ℕ
slave_irq = 2

abbrev pub eoi : ℕ
eoi = 0x60

-- `(u8)(1U << n)` and `(u8)~(1U << n)`, for n < 32.
abbrev pub one_bit : ℕ → ℕ
one_bit n = 2 ^ n % 256

abbrev pub all_but : ℕ → ℕ
all_but n = 255 - one_bit n

-- `enable_irq`. `ASSERT` does nothing in a build without `DEBUG`; a shift by 32 or more is a fault.
unfoldable pub enable_irq : Kernel → ℕ → Result Kernel
enable_irq k irq_num = do
  in_bounds (ltb irq_num 40)
  let master = bit_and k.master_mask (all_but irq_num)
  let slave = bit_and k.slave_mask (all_but (irq_num - 8))
  if ltb irq_num 8
      then ok (outb master (master_8259_port + 1) (record k { master_mask = master }))
      else ok (outb slave (slave_8259_port + 1) (record k { slave_mask = slave }))

-- `disable_irq`
unfoldable pub disable_irq : Kernel → ℕ → Result Kernel
disable_irq k irq_num = do
  in_bounds (ltb irq_num 40)
  let master = bit_or k.master_mask (one_bit irq_num)
  let slave = bit_or k.slave_mask (one_bit (irq_num - 8))
  if ltb irq_num 8
      then ok (outb master (master_8259_port + 1) (record k { master_mask = master }))
      else ok (outb slave (slave_8259_port + 1) (record k { slave_mask = slave }))

-- `send_eoi`
unfoldable pub send_eoi : Kernel → ℕ → Kernel
send_eoi k irq_num =
    if ltb irq_num 8
    then outb (bit_or irq_num eoi) master_8259_port k
    else outb (bit_or eoi slave_irq) master_8259_port
        (outb (bit_or (irq_num - 8) eoi) slave_8259_port k)

-- `init_i8259`
unfoldable pub init_i8259 : Kernel → Result Kernel
unfolding enable_irq
init_i8259 k =
    enable_irq
      (outb k.slave_mask (slave_8259_port + 1) (
        outb 0x01 (slave_8259_port + 1) (
          outb 0x01 (master_8259_port + 1) (
            outb 0x02 (slave_8259_port + 1) (
              outb 0x04 (master_8259_port + 1) (
                outb 0x28 (slave_8259_port + 1) (
                  outb 0x20 (master_8259_port + 1)
                    (outb 0x11 slave_8259_port (outb 0x11 master_8259_port k)))))))))
      slave_irq

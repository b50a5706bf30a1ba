-- ===== src/Paging.antt =====
-- student-distrib/paging.c: page directories and tables. An address of the linker's choice is a field of
-- `Paging`, and a write of CR3 loads the directory of a process.
pub mod Mmu
pub mod Map
pub mod Identity
use Prim.Native.Nat.{bit_and, bit_or}
use ece391_mp.Base.{
  ℕ, zero, suc, ◌+◌, ◌-◌, ◌*◌, ◌/◌, ◌%◌, ◌^◌, ltb, leb, if◌then◌else◌, ℤ, pos, minus_one, update,
  Result, ok, ◌>>◌, in_bounds,
}
use ece391_mp.Kernel.{Kernel, Paging, get_current_pcb, cli, sti}

-- The constants of paging.h, video.h and syscall.h.
abbrev pub num_proc : ℕ
num_proc = 8

abbrev pub pgtbl_len : ℕ
pgtbl_len = 1024

abbrev pub kb4 : ℕ
kb4 = 0x1000

abbrev pub mb4 : ℕ
mb4 = 0x400000

abbrev pub elf_load_pg : ℕ
elf_load_pg = 0x20

-- PG_PRESENT, PG_RW, PG_USPACE and PG_SIZE, combined by `|` as the code does.
abbrev pub kernel_flags : ℕ
kernel_flags = bit_or 2 1

abbrev pub user_flags : ℕ
user_flags = bit_or (bit_or 4 2) 1

-- for (; rounds; ++i, --rounds) table[i] = (i * size) | flags
unfoldable pub fill_table : (ℕ → ℕ) → ℕ → ℕ → ℕ → ℕ → ℕ → ℕ
fill_table table size flags zero i = table
fill_table table size flags (suc rounds) i =
    fill_table (update table i (bit_or (i * size) flags)) size flags rounds (i + 1)

-- `init_paging`
unfoldable pub init_paging : Paging → Paging
init_paging p = record p {
  pgtbl = fill_table (update p.pgtbl 0 2) kb4 kernel_flags 1023 1;
  pgdir = update p.pgdir 0 (
      fill_table
        (update (update (p.pgdir 0) 0 (bit_or p.pgtbl_addr kernel_flags)) 1
          (bit_or mb4 (bit_or 2 (bit_or 0x80 1))))
        mb4 (bit_or 2 (bit_or 4 0x80)) 1022 2);
  cr3 = 0;
}

-- The writes of `make_task_pgdir` for a process in range.
unfoldable pub task_tables : Paging → ℕ → Paging
task_tables p proc = record p {
  pgtbl_proc =
      update p.pgtbl_proc proc
        (fill_table (update (p.pgtbl_proc proc) 0 (bit_or 4 2)) kb4 user_flags 1023 1);
  pgdir = update p.pgdir proc (
      update
        (update (update (p.pgdir proc) 0 (bit_or (p.pgtbl_proc_addr proc) user_flags)) 1
          (bit_or (bit_or mb4 4) (bit_or 2 (bit_or 0x80 1))))
        elf_load_pg (bit_or ((proc + 2) * mb4) (bit_or 0x80 user_flags)));
  cr3 = proc;
}

-- `make_task_pgdir`
unfoldable pub make_task_pgdir : Paging → ℕ → Paging × ℤ
make_task_pgdir p proc = if leb num_proc proc then (p, minus_one) else (task_tables p proc, pos 0)

-- `remove_task_pgdir`; a process id outside the array is a fault.
unfoldable pub remove_task_pgdir : Paging → ℕ → Result Paging
remove_task_pgdir p proc =
    in_bounds (ltb proc num_proc)
    >> ok (record p {
      pgdir =
          update p.pgdir proc
            (update (p.pgdir proc) elf_load_pg (bit_and (p.pgdir proc elf_load_pg) (2 ^ 32 - 2)));
      cr3 = proc;
    })

-- The writes of `map_vid_mem` for a process in range.
unfoldable pub map_page : Paging → ℕ → ℕ → ℕ → Paging
map_page p proc virtual_address physical_address = record p {
  pgdir =
      update p.pgdir proc (
        update (p.pgdir proc) (virtual_address / mb4) (bit_or (p.pgtbl_proc_addr proc) user_flags));
  pgtbl_proc = update p.pgtbl_proc proc (
      update (p.pgtbl_proc proc) (virtual_address % mb4 / kb4)
        (bit_or physical_address user_flags));
  cr3 = proc;
}

-- `map_vid_mem`; the process id is converted to a `u8`. On failure interrupts stay off.
unfoldable pub map_vid_mem : Kernel → ℕ → ℕ → ℕ → Kernel × ℤ
unfolding map_page
map_vid_mem k pid virtual_address physical_address =
    let proc = pid % 256 in
    if leb num_proc proc then (cli k, minus_one) else (
      sti (record (cli k) { paging = map_page k.paging proc virtual_address physical_address }),
      pos 0,
    )

-- `flush_tlb`; a process id outside the array is a fault.
unfoldable pub flush_tlb : Kernel → Result Kernel
flush_tlb k =
    in_bounds (ltb (get_current_pcb k).pid num_proc)
    >> ok (record k { paging = record (k.paging) { cr3 = (get_current_pcb k).pid } })

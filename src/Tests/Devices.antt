-- ===== src/Tests/Devices.antt =====
-- The interrupt controller, the clock and the page tables.
use ece391_mp.Base.{◌<◌, ℕ, ◌≡◌, refl, true, arith, ◌*◌, Returns, leb, is_some, some, none, ◌+◌}
use ece391_mp.I8259.{enable_irq, disable_irq}
use ece391_mp.I8259.Masks.{is_masked, is_masked-irq}
use ece391_mp.Rtc.{rtc_read}
use ece391_mp.Rtc.Wait.{rtc_read-waits, clock_irqs}
use ece391_mp.Kernel.Running.{get_running_terminal, get_terminal_from_pid}
use ece391_mp.Paging.{map_page, make_task_pgdir, mb4, elf_load_pg}
use ece391_mp.Paging.Mmu.{translate_in}
use ece391_mp.Paging.Map.{Placed, null_page-vidmap, vidmap_addr}
use ece391_mp.TerminalDriver.Pages.{OwnPages, make_task_pgdir-pages}
use ece391_mp.Tests.Machine.{machine, tables}

irq_example :
    Returns (enable_irq machine 8) (λ k'. is_masked k' 9 ≡ 1)
    × Returns (disable_irq machine 8) (λ k'. is_masked k' 9 ≡ 1)
irq_example = is_masked-irq machine 8 9 (omega arith) (omega arith) (omega arith) (omega arith)

rtc_read_example : Returns (rtc_read machine (clock_irqs 3)) (λ r. is_some r ≡ leb 1024 6)
unfolding get_running_terminal get_terminal_from_pid
rtc_read_example =
    rtc_read-waits machine 0 3 refl refl (omega arith) (omega arith) (omega arith) (omega arith)

pub tables-Placed : Placed tables
tables-Placed = record { aligned = λ q h. omega arith; distinct = λ a b h h' e. omega arith }

make_task_pgdir_example :
    ((off : ℕ)
      → off < mb4
      → translate_in (make_task_pgdir tables 1).0 1 (elf_load_pg * mb4 + off)
        ≡ some (3 * mb4 + off, true))
    × OwnPages (make_task_pgdir tables 1).0 1
make_task_pgdir_example = make_task_pgdir-pages tables 1 (omega arith)

null_page_example :
    (translate_in (make_task_pgdir tables 1).0 1 4 ≡ none)
    × (translate_in (map_page (make_task_pgdir tables 1).0 1 vidmap_addr (0xB8 * 4096)) 1 4
        ≡ some (0xB8 * 4096 + 4, true))
null_page_example = null_page-vidmap tables 1 0xB8 4 tables-Placed (omega arith) (omega arith)

-- ===== src/Paging/Mmu.antt =====
-- The processor's address translation, as the page tables of paging.c are read by it.
use ece391_mp.Base.{
  ℕ, zero, suc, ◌+◌, ◌*◌, ◌/◌, ◌%◌, Bool, ◌&&◌, Option, none, some, ◌==◌, if◌then◌else◌,
}
use ece391_mp.Kernel.{Paging}

-- The table that starts at a page frame: the kernel's, or one of the processes' with rounds left.
unfoldable pub find_table : Paging → ℕ → ℕ → ℕ → Option (ℕ → ℕ)
find_table p frame zero proc = if p.pgtbl_addr / 4096 == frame then some p.pgtbl else none
find_table p frame (suc rounds) proc =
    if p.pgtbl_proc_addr proc / 4096 == frame
    then some (p.pgtbl_proc proc)
    else find_table p frame rounds (proc + 1)

-- The bits of an entry: present, writable, for user code; and of a directory entry: a 4 MB page.
abbrev pub present : ℕ → Bool
present entry = entry % 2 == 1

abbrev pub for_user : ℕ → Bool
for_user entry = entry / 4 % 2 == 1

abbrev pub is_large : ℕ → Bool
is_large entry = entry / 128 % 2 == 1

-- The physical address behind a virtual one under a directory, with the `user` bit of both levels;
-- `none` is a page fault.
unfoldable pub translate_in : Paging → ℕ → ℕ → Option (ℕ × Bool)
unfolding find_table
translate_in p dir va =
    let pde = p.pgdir dir (va / 0x400000) in
    if present pde
    then if is_large pde
      then some (pde / 0x400000 * 0x400000 + va % 0x400000, for_user pde)
      else elim (find_table p (pde / 4096) 8 0) [
        | none ↦ none
        | some table ↦
            let pte = table (va % 0x400000 / 4096) in
            if present pte
            then some (pte / 4096 * 4096 + va % 4096, for_user pde && for_user pte)
            else none
      ]
    else none

-- Under the directory that CR3 holds.
unfoldable pub translate : Paging → ℕ → Option (ℕ × Bool)
unfolding translate_in
translate p va = translate_in p p.cr3 va

-- ===== src/Paging/Map.antt =====
-- What the processor reads from the tables that `make_task_pgdir` and `map_vid_mem` write.
use Prim.Native.Nat.{bit_or}
use ece391_mp.Base.{
  ℕ, zero, suc, ◌+◌, ◌*◌, ◌/◌, ◌%◌, ◌≤◌, ◌<◌, ◌≡◌, refl, sym, ap, ◌∙◌, true, none, some, ◌==◌,
  update, arith, Bool-cases, inl, inr, ==_iff, ==_refl, bit_or-disjoint, leb_of_lt,
}
use ece391_mp.Kernel.{Paging}
use ece391_mp.Paging.{
  fill_table, make_task_pgdir, task_tables, map_page, user_flags, num_proc, kb4, mb4, elf_load_pg,
}
use ece391_mp.Paging.Mmu.{find_table, translate_in}

-- Where the linker puts the tables of the processes: on pages of their own.
pub record Placed (p : Paging) : Type 0 where
  pub aligned : (q : ℕ) → q < num_proc → p.pgtbl_proc_addr q ≡ p.pgtbl_proc_addr q / 4096 * 4096
  pub distinct :
      (a b : ℕ) → a < num_proc → b < num_proc → p.pgtbl_proc_addr a ≡ p.pgtbl_proc_addr b → a ≡ b

-- `table | PG_USPACE | PG_RW | PG_PRESENT` is the sum, for an aligned address.
pub user_entry : (f : ℕ) → bit_or (f * 4096) user_flags ≡ f * 4096 + 7
user_entry f = bit_or-disjoint 12 f 7 (omega arith)

pub entry_of : (a : ℕ) → a ≡ a / 4096 * 4096 → bit_or a user_flags ≡ a + 7
entry_of a e = ap (λ t. bit_or t user_flags) e ∙ user_entry (a / 4096) ∙ ap (λ t. t + 7) (sym e)

user_page : (f : ℕ) → bit_or (f * mb4) (bit_or 0x80 user_flags) ≡ f * mb4 + 135
user_page f = bit_or-disjoint 22 f 135 (omega arith)

-- `fill_table` leaves the entries below its start.
pub fill_table-below :
    (t : ℕ → ℕ) (size flags rounds i j : ℕ) → j < i → fill_table t size flags rounds i j ≡ t j
unfolding fill_table
fill_table-below t size flags zero i j h = refl
fill_table-below t size flags (suc rounds) i j h =
    fill_table-below (update t i (bit_or (i * size) flags)) size flags rounds (i + 1) j
      (omega arith)
    ∙ ground arith

module _ (p : Paging) (placed : Placed p) where
  same_frame :
      (a b : ℕ)
      → a < num_proc
      → b < num_proc
      → p.pgtbl_proc_addr a / 4096 ≡ p.pgtbl_proc_addr b / 4096
      → a ≡ b
  same_frame a b ha hb e =
      placed.distinct a b ha hb (omega (arith, placed.aligned a ha, placed.aligned b hb))

  -- The table at the address of a process's table is that table.
  pub find_table-proc :
      (rounds i proc : ℕ)
      → i + rounds ≡ num_proc
      → i ≤ proc
      → proc < num_proc
      → find_table p (p.pgtbl_proc_addr proc / 4096) rounds i ≡ some (p.pgtbl_proc proc)
  unfolding find_table
  find_table-proc zero i proc e le lt = absurd (omega arith)
  find_table-proc (suc rounds) i proc e le lt = elim (Bool-cases (i == proc)) [
    | inl here ↦ rw ((==_iff i proc).0 here, ==_refl)
    | inr other ↦ ground (
      arith,
      same_frame i proc (omega arith) lt,
      find_table-proc rounds (i + 1) proc (omega arith) (ground arith) lt,
    )
  ]

update_self {ℓ} : {A : Type ℓ} (a : ℕ → A) (i : ℕ) (v : A) → update a i v i ≡ v
update_self a i v = rw ==_refl

pub update_twice : (a : ℕ → ℕ → ℕ) (i j v : ℕ) → update a i (update (a i) j v) i j ≡ v
update_twice a i j v = ap (λ t. t j) (update_self a i _) ∙ update_self (a i) j v

-- The entries that a small page's translation reads.
pub translate_in-small :
    (p : Paging) (dir va pde pte : ℕ) (table : ℕ → ℕ)
    → p.pgdir dir (va / 0x400000) ≡ pde
    → (pde % 2 ≡ 1) × (pde / 128 % 2 ≡ 0) × (pde / 4 % 2 ≡ 1)
    → find_table p (pde / 4096) 8 0 ≡ some table
    → table (va % 0x400000 / 4096) ≡ pte
    → (pte % 2 ≡ 1) × (pte / 4 % 2 ≡ 1)
    → translate_in p dir va ≡ some (pte / 4096 * 4096 + va % 4096, true)
unfolding translate_in
translate_in-small p dir va pde pte table e bits found e' bits' = ground arith

translate_in-large :
    (p : Paging) (dir va pde : ℕ)
    → p.pgdir dir (va / 0x400000) ≡ pde
    → (pde % 2 ≡ 1) × (pde / 128 % 2 ≡ 1) × (pde / 4 % 2 ≡ 1)
    → translate_in p dir va ≡ some (pde / 0x400000 * 0x400000 + va % 0x400000, true)
unfolding translate_in
translate_in-large p dir va pde e bits = rw (e, bits.0, bits.1, bits.2)

translate_in-absent :
    (p : Paging) (dir va pde pte : ℕ) (table : ℕ → ℕ)
    → p.pgdir dir (va / 0x400000) ≡ pde
    → (pde % 2 ≡ 1) × (pde / 128 % 2 ≡ 0)
    → find_table p (pde / 4096) 8 0 ≡ some table
    → table (va % 0x400000 / 4096) ≡ pte
    → pte % 2 ≡ 0
    → translate_in p dir va ≡ none
unfolding translate_in
translate_in-absent p dir va pde pte table e bits found e' bits' = ground arith

-- After `map_vid_mem` has written its entries, the process reads the physical page at the virtual
-- one: for tables on pages of their own, a process id in range and a page-aligned physical address,
-- every address of the virtual page translates to the same place of the physical page, for user code.
pub translate_in-map_page :
    (p : Paging) (proc va frame : ℕ)
    → Placed p
    → proc < num_proc
    → translate_in (map_page p proc va (frame * 4096)) proc va
      ≡ some (frame * 4096 + va % 4096, true)
unfolding map_page
translate_in-map_page p proc va frame placed lt =
    let e = placed.aligned proc lt in
    let q = map_page p proc va (frame * 4096) in
    let found : find_table q (p.pgtbl_proc_addr proc / 4096) 8 0 ≡ some (q.pgtbl_proc proc) =
      find_table-proc q (record { aligned = placed.aligned; distinct = placed.distinct }) 8 0 proc
        refl (omega arith) lt in
    let here : (p.pgtbl_proc_addr proc + 7) / 4096 ≡ p.pgtbl_proc_addr proc / 4096 = omega arith in
    translate_in-small q proc va (p.pgtbl_proc_addr proc + 7) (frame * 4096 + 7) (q.pgtbl_proc proc)
      (update_twice p.pgdir proc (va / mb4) _ ∙ entry_of _ e)
      (omega arith, omega arith, omega arith) (ap (λ f. find_table q f 8 0) here ∙ found)
      (update_twice p.pgtbl_proc proc (va % mb4 / kb4) _ ∙ user_entry frame)
      (omega arith, omega arith)
    ∙ ap (λ t. some (t + va % 4096, true)) (omega arith)

pub make_task_pgdir-tables :
    (p : Paging) (proc : ℕ) → proc < num_proc → (make_task_pgdir p proc).0 ≡ task_tables p proc
unfolding make_task_pgdir
make_task_pgdir-tables p proc lt = rw (leb_of_lt _ _ lt)

-- The three entries of a new process's tables that the theorems below read.
task_tables-load :
    (p : Paging) (proc : ℕ) → (task_tables p proc).pgdir proc elf_load_pg ≡ (proc + 2) * mb4 + 135
unfolding task_tables
task_tables-load p proc = rw (==_refl proc) (user_page (proc + 2))

task_tables-low :
    (p : Paging) (proc : ℕ)
    → Placed p
    → proc < num_proc
    → (task_tables p proc).pgdir proc 0 ≡ p.pgtbl_proc_addr proc + 7
unfolding task_tables
task_tables-low p proc placed lt = rw (==_refl proc) (entry_of _ (placed.aligned proc lt))

task_tables-null : (p : Paging) (proc : ℕ) → (task_tables p proc).pgtbl_proc proc 0 ≡ 6
unfolding task_tables
task_tables-null p proc =
    rw (==_refl proc)
      (fill_table-below (update (p.pgtbl_proc proc) 0 6) kb4 user_flags 1023 1 0 (omega arith))

task_tables-Placed : (p : Paging) (proc : ℕ) → Placed p → Placed (task_tables p proc)
unfolding task_tables
task_tables-Placed p proc placed = record { aligned = placed.aligned; distinct = placed.distinct }

task_tables-addr :
    (p : Paging) (proc : ℕ) → (task_tables p proc).pgtbl_proc_addr ≡ p.pgtbl_proc_addr
unfolding task_tables
task_tables-addr p proc = refl

-- The program's page behind a new directory.
pub translate_in-make_task_pgdir :
    (p : Paging) (proc off : ℕ)
    → proc < num_proc
    → off < mb4
    → translate_in (make_task_pgdir p proc).0 proc (elf_load_pg * mb4 + off)
      ≡ some ((proc + 2) * mb4 + off, true)
translate_in-make_task_pgdir p proc off lt small =
    let idx : (elf_load_pg * mb4 + off) / 0x400000 ≡ elf_load_pg = omega arith in
    rw (make_task_pgdir-tables p proc lt) (
      translate_in-large (task_tables p proc) proc (elf_load_pg * mb4 + off)
        ((proc + 2) * mb4 + 135)
        (ap ((task_tables p proc).pgdir proc) idx ∙ task_tables-load p proc)
        (omega arith, omega arith, omega arith)
      ∙ ap (λ t. some (t, true)) (omega arith))

-- The virtual address that `vidmap` hands to the program.
abbrev pub vidmap_addr : ℕ
vidmap_addr = mb4 * (elf_load_pg + num_proc)

-- `make_task_pgdir` leaves the first page of a process absent, so that the null pointer faults; a
-- `map_vid_mem` at the address of `vidmap` writes the same entry of the process's only table, and
-- from then on user code that follows the null pointer reaches the video page.
pub null_page-vidmap :
    (p : Paging) (proc frame off : ℕ)
    → Placed p
    → proc < num_proc
    → off < 4096
    → let q = (make_task_pgdir p proc).0 in
      (translate_in q proc off ≡ none)
      × (translate_in (map_page q proc vidmap_addr (frame * 4096)) proc off
          ≡ some (frame * 4096 + off, true))
unfolding map_page
null_page-vidmap p proc frame off placed lt small =
    rw (make_task_pgdir-tables p proc lt) (before, after)
  where
    q : Paging
    q = task_tables p proc

    mapped : Paging
    mapped = map_page q proc vidmap_addr (frame * 4096)

    e : p.pgtbl_proc_addr proc ≡ p.pgtbl_proc_addr proc / 4096 * 4096
    e = placed.aligned proc lt

    same : q.pgtbl_proc_addr proc ≡ p.pgtbl_proc_addr proc
    same = ap (λ f. f proc) (task_tables-addr p proc)

    at : (p.pgtbl_proc_addr proc + 7) / 4096 ≡ q.pgtbl_proc_addr proc / 4096
    at = omega (arith, same, e)

    low : off / 0x400000 ≡ 0
    low = omega arith

    low' : off % 0x400000 / 4096 ≡ 0
    low' = omega arith

    before : translate_in q proc off ≡ none
    before =
        translate_in-absent q proc off (p.pgtbl_proc_addr proc + 7) 6 (q.pgtbl_proc proc)
          (ap (q.pgdir proc) low ∙ task_tables-low p proc placed lt) (omega arith, omega (arith, e))
          (ap (λ f. find_table q f 8 0) at
            ∙ find_table-proc q (task_tables-Placed p proc placed) 8 0 proc refl (omega arith) lt)
          (ap (q.pgtbl_proc proc) low' ∙ task_tables-null p proc) (omega arith)

    placed' : Placed mapped
    placed' =
        let w = task_tables-Placed p proc placed in
        record { aligned = w.aligned; distinct = w.distinct }

    after : translate_in mapped proc off ≡ some (frame * 4096 + off, true)
    after =
        translate_in-small mapped proc off (p.pgtbl_proc_addr proc + 7) (frame * 4096 + 7)
          (mapped.pgtbl_proc proc)
          (ap (mapped.pgdir proc) low ∙ rw (==_refl proc) (task_tables-low p proc placed lt))
          (omega arith, omega (arith, e), omega (arith, e))
          (ap (λ f. find_table mapped f 8 0) at
            ∙ find_table-proc mapped placed' 8 0 proc refl (omega arith) lt)
          (ap (mapped.pgtbl_proc proc) low' ∙ rw (==_refl proc) (user_entry frame))
          (omega arith, omega arith)
        ∙ ap (λ t. some (t, true)) (omega arith)

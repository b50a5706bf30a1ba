-- ===== src/TerminalDriver/Pages.antt =====
-- The pages that a switch of the terminal copies between, as the running process has them mapped.
use ece391_mp.Base.{
  update, ℕ, ◌+◌, ◌-◌, ◌*◌, ◌/◌, ◌%◌, ◌≤◌, ◌<◌, ◌≡◌, refl, ap, ◌∙◌, Bool, true, false, ◌&&◌, Option,
  some, none, Result, ok, fault, ltb, leb, ◌==◌, if◌then◌else◌, arith, ◌⊎◌, ==_refl,
}
use ece391_mp.Kernel.{Kernel, Paging}
use ece391_mp.Paging.{
  map_page, make_task_pgdir, task_tables, user_flags, elf_load_pg, num_proc, mb4, kb4,
}
use ece391_mp.Paging.Mmu.{translate, translate_in, find_table}
use ece391_mp.Paging.Map.{
  Placed, translate_in-map_page, translate_in-small, find_table-proc, user_entry, entry_of,
  update_twice, make_task_pgdir-tables, translate_in-make_task_pgdir,
}
use ece391_mp.Paging.Identity.{fill_table-inside}
use ece391_mp.Screen.{video, move_bytes, set_video, on_video}

-- The page of terminal `i`, which is the one behind the screen's page and the pages before it.
abbrev pub page_of : ℕ → ℕ
page_of i = video + 4096 * (i + 1)

-- The screen's page is mapped to `frame`, and the pages of the terminals to themselves.
pub record Mapped (p : Paging) (frame : ℕ) : Type 0 where
  pub screen : translate p video ≡ some (frame * 4096, true)
  pub pages : (i : ℕ) → i < 3 → translate p (page_of i) ≡ some (page_of i, true)

-- The entries for the terminals' pages in the page table of a process.
abbrev pub OwnPages : Paging → ℕ → Type 0
OwnPages p proc = (i : ℕ) → i < 3 → p.pgtbl_proc proc (0xB9 + i) ≡ (0xB9 + i) * 4096 + 7

pub OwnPages-map_page :
    (p : Paging) (proc frame : ℕ) → OwnPages p proc → OwnPages (map_page p proc video frame) proc
unfolding map_page
OwnPages-map_page p proc frame own i lt =
    let apart : (0xB8 == 0xB9 + i) ≡ false = ground arith in
    let here : (proc == proc) ≡ true = ==_refl proc in rw (here, apart) (own i lt)

translate-map_page :
    (p : Paging) (proc va frame : ℕ)
    → translate (map_page p proc video (frame * 4096)) va
      ≡ translate_in (map_page p proc video (frame * 4096)) proc va
unfolding translate map_page
translate-map_page p proc va frame = refl

-- A terminal's page through the table of the process.
translate_in-page_of :
    (p : Paging) (proc frame i : ℕ)
    → Placed p
    → proc < num_proc
    → OwnPages p proc
    → i < 3
    → translate_in (map_page p proc video (frame * 4096)) proc (page_of i) ≡ some (page_of i, true)
unfolding map_page
translate_in-page_of p proc frame i placed lt own small =
    let q = map_page p proc video (frame * 4096) in
    let e = placed.aligned proc lt in
    let found : find_table q (p.pgtbl_proc_addr proc / 4096) 8 0 ≡ some (q.pgtbl_proc proc) =
      find_table-proc q (record { aligned = placed.aligned; distinct = placed.distinct }) 8 0 proc
        refl (omega arith) lt in
    let frame_of : (p.pgtbl_proc_addr proc + 7) / 4096 ≡ p.pgtbl_proc_addr proc / 4096 =
      omega arith in
    let low : page_of i / 0x400000 ≡ 0 = omega arith in
    let entry : page_of i % 0x400000 / 4096 ≡ 0xB9 + i = omega arith in
    translate_in-small q proc (page_of i) (p.pgtbl_proc_addr proc + 7) ((0xB9 + i) * 4096 + 7)
      (q.pgtbl_proc proc)
      (ap (λ j. q.pgdir proc j) low ∙ update_twice p.pgdir proc 0 _ ∙ entry_of _ e)
      (omega arith, omega arith, omega arith) (ap (λ f. find_table q f 8 0) frame_of ∙ found)
      (ap (q.pgtbl_proc proc) entry ∙ OwnPages-map_page p proc (frame * 4096) own i small)
      (omega arith, omega arith)
    ∙ ap (λ t. some (t, true)) (omega arith)

pub map_page-Mapped :
    (p : Paging) (proc frame : ℕ)
    → Placed p
    → proc < num_proc
    → OwnPages p proc
    → Mapped (map_page p proc video (frame * 4096)) frame
map_page-Mapped p proc frame placed lt own = record {
  screen =
      translate-map_page p proc video frame
      ∙ translate_in-map_page p proc video frame placed lt
      ∙ ap (λ t. some (t, true)) (omega arith);
  pages = λ i small.
      translate-map_page p proc (page_of i) frame
      ∙ translate_in-page_of p proc frame i placed lt own small;
}

-- Video memory once a screen's bytes have been copied from the page at `s` to the page at `d`.
unfoldable pub copied : (ℕ → ℕ) → ℕ → ℕ → ℕ → ℕ
copied v d s a = if leb d a && ltb a (d + 4000) then v (a - d + s) else v a

pub copied-inside : (v : ℕ → ℕ) (d s off : ℕ) → off < 4000 → copied v d s (d + off) ≡ v (s + off)
unfolding copied
copied-inside v d s off lt =
    let inside : (leb d (d + off) && ltb (d + off) (d + 4000)) ≡ true = ground arith in
    let at : d + off - d + s ≡ s + off = omega arith in rw inside (ap v at)

pub copied-outside : (v : ℕ → ℕ) (d s a : ℕ) → (a < d) ⊎ (d + 4096 ≤ a) → copied v d s a ≡ v a
unfolding copied
copied-outside v d s a out = ground (arith, out)

-- What `move_bytes` does with the two physical addresses.
between : Kernel → ℕ → ℕ → ℕ → Option (ℕ × Bool) → Option (ℕ × Bool) → Result Kernel
between k dest src n o o' = elim o as (λ x. Result Kernel) [
  | none ↦ fault
  | some (d, user) ↦ elim o' as (λ x. Result Kernel) [
    | none ↦ fault
    | some (s, user') ↦
        if on_video d && on_video s && leb (dest % 4096 + n) 4096 && leb (src % 4096 + n) 4096
        then ok (
            set_video k (λ a.
              if leb d a && ltb a (d + n) then k.screen.video (a - d + s) else k.screen.video a))
        else fault
  ]
]

between-copied :
    (k : Kernel) (dest src d s : ℕ)
    → dest % 4096 ≡ 0
    → src % 4096 ≡ 0
    → on_video d ≡ true
    → on_video s ≡ true
    → between k dest src 4000 (some (d, true)) (some (s, true))
      ≡ ok (set_video k (copied k.screen.video d s))
unfolding between copied
between-copied k dest src d s e e' there here = rw (there, here, e, e') refl

-- The copy between two mapped pages succeeds.
pub move_bytes-copied :
    (k : Kernel) (dest src d s : ℕ)
    → dest % 4096 ≡ 0
    → src % 4096 ≡ 0
    → translate k.paging dest ≡ some (d, true)
    → translate k.paging src ≡ some (s, true)
    → on_video d ≡ true
    → on_video s ≡ true
    → move_bytes k dest src 4000 ≡ ok (set_video k (copied k.screen.video d s))
unfolding move_bytes between
move_bytes-copied k dest src d s e e' to from there here =
    ap (λ o. between k dest src 4000 o (translate k.paging src)) to
    ∙ ap (between k dest src 4000 (some (d, true))) from
    ∙ between-copied k dest src d s e e' there here

make_task_pgdir-OwnPages :
    (p : Paging) (proc : ℕ) → proc < num_proc → OwnPages (make_task_pgdir p proc).0 proc
unfolding task_tables
make_task_pgdir-OwnPages p proc lt i small =
    rw (make_task_pgdir-tables p proc lt, ==_refl proc)
      (fill_table-inside (update (p.pgtbl_proc proc) 0 6) kb4 user_flags 1023 1 (0xB9 + i)
          (omega arith) (omega arith)
        ∙ user_entry (0xB9 + i))

-- After `make_task_pgdir` for a process id in range, the program's page at 128 MB is, for user code,
-- the 4 MB of physical memory at 8 MB plus 4 MB for each lower process id, and the entries for the
-- terminals' pages lead to these pages, which is what a switch of the terminal needs.
pub make_task_pgdir-pages :
    (p : Paging) (proc : ℕ)
    → proc < num_proc
    → ((off : ℕ)
        → off < mb4
        → translate_in (make_task_pgdir p proc).0 proc (elf_load_pg * mb4 + off)
          ≡ some ((proc + 2) * mb4 + off, true))
      × OwnPages (make_task_pgdir p proc).0 proc
make_task_pgdir-pages p proc lt = (
  λ off small. translate_in-make_task_pgdir p proc off lt small,
  make_task_pgdir-OwnPages p proc lt,
)

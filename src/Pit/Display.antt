-- ===== src/Pit/Display.antt =====
-- Where a process that the scheduler switches to draws.
use ece391_mp.Base.{
  ℕ, ◌+◌, ◌*◌, ◌/◌, ◌%◌, ◌<◌, ◌≡◌, refl, ap, sym, ◌∙◌, inl, inr, true, some, ok, ◌>>=◌, ◌==◌,
  if◌then◌else◌, arith, Bool-cases, leb_of_lt, lt→ltb,
}
use ece391_mp.Kernel.{Kernel, Paging}
use ece391_mp.I8259.{send_eoi}
use ece391_mp.Paging.{map_page, map_vid_mem, flush_tlb, mb4, kb4, elf_load_pg, num_proc}
use ece391_mp.Paging.Mmu.{translate, translate_in, find_table}
use ece391_mp.Paging.Map.{Placed, translate_in-map_page}
use ece391_mp.Screen.{video}
use ece391_mp.Task.{kernel_stack, set_pid}
use ece391_mp.Pit.{scheduler_vidmap, switch_task, screen_of}
use ece391_mp.Pit.Scheduled.{switched}

-- Mapping a page at one of its addresses or at its start writes the same entries.
map_page-video :
    (p : Paging) (proc off frame : ℕ)
    → off < kb4
    → map_page p proc (video + off) frame ≡ map_page p proc video frame
unfolding map_page
map_page-video p proc off frame lt =
    let dir : (video + off) / mb4 ≡ 0 = omega arith in
    let entry : (video + off) % mb4 / kb4 ≡ video % mb4 / kb4 = omega arith in rw (dir, entry) refl

-- The two states agree but for the page tables and the interrupt flag.
record Same (k k' : Kernel) : Type 0 where
  pcbs : k'.pcbs ≡ k.pcbs
  running : k'.running_pid ≡ k.running_pid
  terminals : k'.terminals ≡ k.terminals
  current : k'.current_terminal ≡ k.current_terminal
  stack : k'.esp0 ≡ k.esp0

-- `map_vid_mem` writes only the tables, for a process id in range.
map_vid_mem-tables :
    (k : Kernel) (pid va pa : ℕ)
    → pid < num_proc
    → ((map_vid_mem k pid va pa).0.paging ≡ map_page k.paging pid va pa)
      × Same k (map_vid_mem k pid va pa).0
unfolding map_vid_mem
map_vid_mem-tables k pid va pa lt =
    let small : pid % 256 ≡ pid = omega arith in
    rw (small, leb_of_lt num_proc pid lt)
      (refl, record { pcbs = refl; running = refl; terminals = refl; current = refl; stack = refl })

pub map_page-Placed : (p : Paging) (pid va pa : ℕ) → Placed p → Placed (map_page p pid va pa)
unfolding map_page
map_page-Placed p pid va pa placed = record { aligned = placed.aligned; distinct = placed.distinct }

map_vid_mem-Placed :
    (k : Kernel) (pid va pa : ℕ)
    → pid < num_proc
    → Placed k.paging
    → Placed (map_vid_mem k pid va pa).0.paging × Same k (map_vid_mem k pid va pa).0
map_vid_mem-Placed k pid va pa lt placed =
    let (tables, same) = map_vid_mem-tables k pid va pa lt in
    (rw tables (map_page-Placed k.paging pid va pa placed), same)

-- The mapping for `vidmap` before the switch, if the terminal has one.
with_vidmap : Kernel → ℕ → ℕ → Kernel
with_vidmap k i pid = if (k.terminals i).vidmap == 0 then k else scheduler_vidmap k i pid

with_vidmap-Same :
    (k : Kernel) (i pid : ℕ)
    → pid < num_proc
    → Placed k.paging
    → Placed (with_vidmap k i pid).paging × Same k (with_vidmap k i pid)
unfolding with_vidmap scheduler_vidmap
with_vidmap-Same k i pid lt placed = elim (Bool-cases ((k.terminals i).vidmap == 0)) [
  | inl none' ↦ rw none' (
    placed,
    record { pcbs = refl; running = refl; terminals = refl; current = refl; stack = refl },
  )
  | inr mapped ↦ rw mapped (map_vid_mem-Placed k pid (mb4 * (elf_load_pg + num_proc)) _ lt placed)
]

-- `send_eoi` leaves all but the ports.
send_eoi-keeps :
    (k : Kernel) (irq : ℕ)
    → ((send_eoi k irq).paging ≡ k.paging)
      × ((send_eoi k irq).running_pid ≡ k.running_pid)
      × ((send_eoi k irq).esp0 ≡ k.esp0)
unfolding send_eoi
send_eoi-keeps k irq = ground arith

-- The translation under a directory does not depend on CR3.
translate-cr3 : (p : Paging) (c va : ℕ) → translate (record p { cr3 = c }) va ≡ translate_in p c va
unfolding translate translate_in find_table
translate-cr3 p c va = refl

flush_tlb-loads :
    (k : Kernel) (pid : ℕ)
    → k.running_pid ≡ pid
    → (k.pcbs pid).pid ≡ pid
    → pid < num_proc
    → flush_tlb k ≡ ok (record k { paging = record (k.paging) { cr3 = pid } })
unfolding flush_tlb
flush_tlb-loads k pid running block lt = rw (running, block, lt→ltb pid num_proc lt) refl

-- The last writes of `switch_task`, from a state whose running process is `pid`.
show_screen-maps :
    (k : Kernel) (pid frame : ℕ)
    → Placed k.paging
    → pid < num_proc
    → k.running_pid ≡ pid
    → (k.pcbs pid).pid ≡ pid
    → let k' = (map_vid_mem k pid video (frame * 4096)).0 in
      (k'' : Kernel) × (flush_tlb k' ≡ ok k'')
      × (k''.running_pid ≡ pid)
      × (k''.esp0 ≡ k.esp0)
      × ((off : ℕ)
          → off < kb4
          → translate k''.paging (video + off) ≡ some (frame * 4096 + off, true))
show_screen-maps k pid frame placed lt running block =
    let k' = (map_vid_mem k pid video (frame * 4096)).0 in
    let (tables, same) = map_vid_mem-tables k pid video (frame * 4096) lt in
    let running' : k'.running_pid ≡ pid = same.running ∙ running in
    let block' : (k'.pcbs pid).pid ≡ pid = ap (λ f. (f pid).pid) (same.pcbs) ∙ block in
    (
      record k' { paging = record (k'.paging) { cr3 = pid } },
      flush_tlb-loads k' pid running' block' lt,
      running',
      same.stack,
      λ off small.
          let low : (video + off) % 4096 ≡ off = omega arith in
          translate-cr3 k'.paging pid (video + off)
          ∙ ap (λ p. translate_in p pid (video + off))
              (tables ∙ sym (map_page-video k.paging pid off (frame * 4096) small))
          ∙ translate_in-map_page k.paging pid (video + off) frame placed lt
          ∙ ap (λ t. some (frame * 4096 + t, true)) low,
    )

-- The state before the screen is mapped, for the process id `pid`.
entering : Kernel → ℕ → ℕ → Kernel
entering k i pid = with_vidmap (set_pid (record k { esp0 = kernel_stack pid }) pid) i pid

switch_task-steps :
    (k : Kernel) (i next pid address : ℕ) (k' : Kernel)
    → (k.pcbs next).pid ≡ pid
    → screen_of (entering k i pid) i (entering k i pid).current_terminal ≡ address
    → flush_tlb (map_vid_mem (entering k i pid) pid video address).0 ≡ ok k'
    → switch_task k i next ≡ ok (switched (send_eoi k' 0) next)
unfolding switch_task entering with_vidmap
switch_task-steps k i next pid address k' block shown flushed =
    let from = λ (p a : ℕ). flush_tlb (map_vid_mem (entering k i p) p video a).0 >>= λ k4.
    ok (switched (send_eoi k4 0) next) in
    ap (λ p. from p (screen_of (entering k i p) i (entering k i p).current_terminal)) block
    ∙ ap (from pid) shown
    ∙ ap (λ r. r >>= λ k4. ok (switched (send_eoi k4 0) next)) flushed

-- A switch to process `next` of terminal `i` succeeds: `next` runs, with its own kernel stack, and user
-- code that writes to the screen's page reaches video memory if terminal `i` is on the screen, and the
-- page of terminal `i` otherwise. This is for a process id in range that stands in its own control
-- block, for tables on pages of their own, and for a terminal's page that is aligned.
pub switch_task-screen :
    (k : Kernel) (i next frame : ℕ)
    → Placed k.paging
    → next < num_proc
    → (k.pcbs next).pid ≡ next
    → screen_of k i k.current_terminal ≡ frame * 4096
    → (k' : Kernel) × (switch_task k i next ≡ ok (switched k' next))
      × (k'.running_pid ≡ next)
      × (k'.esp0 ≡ kernel_stack next)
      × ((off : ℕ)
          → off < kb4
          → translate k'.paging (video + off) ≡ some (frame * 4096 + off, true))
unfolding set_pid entering
switch_task-screen k i next frame placed lt block shown =
    let k1 : Kernel = set_pid (record k { esp0 = kernel_stack next }) next in
    let (placed', same) = with_vidmap-Same k1 i next lt placed in
    let k2 = entering k i next in
    let small : next % 256 ≡ next = omega arith in
    let block' : (k2.pcbs next).pid ≡ next = ap (λ f. (f next).pid) (same.pcbs) ∙ block in
    let shown' : screen_of k2 i k2.current_terminal ≡ frame * 4096 =
      rw (same.terminals, same.current) shown in
    let (k4, flushed, running, stack, maps) =
      show_screen-maps k2 next frame placed' lt (same.running ∙ small) block' in
    let (paging', running', stack') = send_eoi-keeps k4 0 in
    (
      send_eoi k4 0,
      switch_task-steps k i next next (frame * 4096) k4 block shown' flushed,
      running' ∙ running,
      stack' ∙ stack ∙ same.stack,
      λ off h. ap (λ p. translate p (video + off)) paging' ∙ maps off h,
    )

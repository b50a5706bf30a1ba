-- ===== src/Pit.antt =====
-- student-distrib/pit.c: the scheduler. The switch of stacks at the end of the handler is the
-- environment's: the handler returns the process that goes on, or that a shell is to be started.
pub mod RoundRobin
pub mod Display
pub mod Handler
use Prim.Native.Nat.{bit_or}
use ece391_mp.Base.{
  ℕ, zero, suc, ◌+◌, ◌*◌, ◌/◌, ◌%◌, ◌^◌, Bool, not, Option, none, some, Result, ok, fault, ◌>>=◌,
  eqb_ℤ, ◌==◌, if◌then◌else◌, update, ℤ, pos_part, minus_one,
}
use ece391_mp.Kernel.{
  Kernel, Pcb, Terminal, get_current_pcb, set_pcb, outb, terminal_num, task_running, max_pid_count,
}
use ece391_mp.I8259.{enable_irq, send_eoi}
use ece391_mp.Paging.{map_vid_mem, flush_tlb, mb4, elf_load_pg, num_proc}
use ece391_mp.Screen.{video}
use ece391_mp.TerminalDriver.{switch_terminal}
use ece391_mp.Task.{Stack, kernel_stack, set_pid}

abbrev pit_irq : ℕ
pit_irq = 0

-- `init_pit`
unfoldable pub init_pit : Kernel → Result Kernel
init_pit k = do
  let frequency = 1193182 * 10 / 1000 % 2 ^ 16
  k1 ← enable_irq k pit_irq
  ok
      (record (outb (frequency / 256) 0x40
        (outb (frequency % 256) 0x40 (outb (bit_or (bit_or 0 0x30) (bit_or 0x04 0)) 0x43 k1))) {
          current_schedule = 0;
          schedule_counter = 0;
        })

-- The `do` loop of `irqh_pit`, on fuel: the next terminal whose status is running. `none` means that
-- the fuel ran out.
unfoldable pub next_running : Kernel → ℕ → ℕ → Option ℕ
next_running k zero counter = none
next_running k (suc fuel) counter =
    let c = (counter + 1) % 256 % terminal_num in
    let rest = next_running k fuel c in
    if (k.terminals c).status == task_running then some c else rest

-- The `while` loop of `irqh_pit`, on fuel: the last of the chain of child processes.
unfoldable pub lowest_child : Kernel → ℕ → ℕ → Option ℕ
lowest_child k zero p = none
lowest_child k (suc fuel) p = elim (k.pcbs p).child_pcb [
  | none ↦ some p
  | some child ↦ lowest_child k fuel child
]

-- The address that `scheduler_vidmap` and the handler map the screen of terminal `i` to.
abbrev pub screen_of : Kernel → ℕ → ℕ → ℕ
screen_of k i shown = if i == shown then video else (k.terminals i).vid_mem_buf

-- `scheduler_vidmap`
unfoldable pub scheduler_vidmap : Kernel → ℕ → ℕ → Kernel
unfolding map_vid_mem
scheduler_vidmap k num_term pid =
    let t = k.terminals num_term in
    let address = if t.id == k.current_terminal then video else t.vid_mem_buf in
    (map_vid_mem k pid (mb4 * (elf_load_pg + num_proc)) address).0

-- What the handler does last: it returns to the process that it interrupted, goes on with another
-- process, or starts a shell.
pub data Scheduled : Type 0 where
  same : Kernel → Scheduled
  switched : Kernel → ℕ → Scheduled
  shell : Kernel → Scheduled

-- The switch to process `next`, the last child of terminal `i`.
unfoldable pub switch_task : Kernel → ℕ → ℕ → Result Scheduled
unfolding set_pid scheduler_vidmap
switch_task k i next = do
  let pid = (k.pcbs next).pid
  let k1 = set_pid (record k { esp0 = kernel_stack pid }) pid
  let k2 = if (k1.terminals i).vidmap == 0 then k1 else scheduler_vidmap k1 i pid
  let k3 = (map_vid_mem k2 pid video (screen_of k2 i k2.current_terminal)).0
  k4 ← flush_tlb k3
  ok (switched (send_eoi k4 pit_irq) next)

-- `irqh_pit` from where the next terminal is known.
unfoldable pub schedule : Kernel → ℕ → Stack → Result Scheduled
unfolding switch_task lowest_child
schedule k i stack =
    let prev = k.running_pid in
    let k1 = record k { schedule_counter = i; current_schedule = i } in
    let k2 = set_pcb k1 prev (record (k1.pcbs prev) { ksp = stack.esp; kbp = stack.ebp }) in
    let switch : Result Scheduled = elim (lowest_child k2 max_pid_count (k2.terminals i).pid) [
      | none ↦ fault
      | some next ↦ switch_task k2 i next
    ] in
    if i == k.current_schedule
    then ok (same (send_eoi (record k { schedule_counter = i }) pit_irq))
    else if (k2.terminals i).running == 1
    then switch
    else ok (shell (send_eoi k2 pit_irq))

-- The switch of terminals that the keyboard asked for.
unfoldable pub serve_keyboard : Kernel → Result Kernel
serve_keyboard k =
    let asked = k.keys.terminal_to_switch_to in
    let switched_to = switch_terminal k (pos_part asked % 256) >>= λ k1.
    ok (record k1 { keys = record (k1.keys) { terminal_to_switch_to = minus_one } }) in
    if eqb_ℤ asked minus_one then ok k else switched_to

-- `irqh_pit`
unfoldable pub irqh_pit : Kernel → Stack → Result Scheduled
unfolding serve_keyboard next_running schedule
irqh_pit k stack = do
  k1 ← serve_keyboard k
  elim (next_running k1 terminal_num k1.schedule_counter) [
    | none ↦ fault
    | some i ↦ schedule k1 i stack
  ]

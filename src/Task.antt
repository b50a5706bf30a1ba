-- ===== src/Task.antt =====
-- student-distrib/syscall.c: `execute` and `halt`, as transitions of the process table. The copy of stack
-- pointers and the jump to user code are the environment's: `execute` returns the new state and the
-- entry point, and `halt` the state in which the parent or a new shell goes on. Loading the program's text is
-- the call of `file_read_name`.
pub mod Pids
pub mod InitTerminals
pub mod Release
pub mod Failed
pub mod Resume
pub mod Status
pub mod CommandLine
use Prim.Native.Nat.{bit_and, bit_or}
use ece391_mp.Base.{
  ℕ, zero, suc, ◌+◌, ◌-◌, ◌*◌, ◌/◌, ◌%◌, ◌^◌, Bool, true, false, not, ◌&&◌, ◌||◌, List, [], ◌∷◌,
  ◌++◌, Option, none, some, Result, ok, fault, ◌>>=◌, ◌>>◌, in_bounds, ltb, leb, eqb_ℤ, ◌==◌,
  if◌then◌else◌, update, ℤ, pos, negsuc, pos_part, minus_one, length, get_or, take, to_u32,
}
use ece391_mp.Str.{strlen}
use ece391_mp.Fs.{FsImage, DirEntry, Filled, read_dentry_by_name, read_data, file_read_name}
use ece391_mp.Kernel.{
  Kernel, FileDesc, FileOps, Pcb, Terminal, get_current_pcb, set_pcb, set_terminal, cli, sti,
  max_pid_count, fd_cnt,
}
use ece391_mp.Kernel.FileOps.{std_in_fops, std_out_fops}
use ece391_mp.Kernel.Running.{get_running_terminal}
use ece391_mp.Paging.{make_task_pgdir, remove_task_pgdir, flush_tlb}
use ece391_mp.TerminalDriver.{new_terminal}
use ece391_mp.Syscall.{close, closed_fd}
use CommandLine.{Command, split_command, args_size}

-- The stack of a process in kernel mode: MB8 - KB8 * (pid + 1) - ADDRESS_SIZE.
abbrev pub kernel_stack : ℕ → ℕ
kernel_stack pid = 0x800000 - 0x2000 * (pid + 1) - 4

-- `FIRST_PID >> pid`
abbrev pub pid_mask : ℕ → ℕ
pid_mask pid = 0x80 / 2 ^ pid

-- The loop of `execute` over the process ids: the first whose bit is clear, with the rounds left.
unfoldable pub find_pid : ℕ → ℕ → ℕ → Option ℕ
find_pid procs zero i = none
find_pid procs (suc rounds) i =
    if bit_and (pid_mask i) procs == 0 then some i else find_pid procs rounds (i + 1)

-- The descriptors of a new process.
unfoldable pub initial_fds : ℕ → FileDesc
initial_fds i =
    if i == 0
    then record { jumptable = some std_in_fops; inode = 0; file_position = 0; flags = 1 }
    else if i == 1
    then record { jumptable = some std_out_fops; inode = 0; file_position = 0; flags = 1 }
    else closed_fd

-- `sizeof` of the header and of the entry point, and where the entry point stands in a file.
abbrev pub elf_header : List ℕ
elf_header = 0x7F ∷ b'E' ∷ b'L' ∷ b'F' ∷ []

-- `header[i] != elf_header[i]` for some i.
unfoldable pub same_bytes : List ℕ → List ℕ → Bool
same_bytes [] [] = true
same_bytes [] (b ∷ bs) = false
same_bytes (a ∷ as') [] = false
same_bytes (a ∷ as') (b ∷ bs) = a == b && same_bytes as' bs

-- Whether the file of a command is an executable: the entry exists, and its first four bytes can be
-- read and are the header.
unfoldable pub is_executable : FsImage → List ℕ → Result Bool
unfolding same_bytes
is_executable fs cmd = do
  found ← read_dentry_by_name fs cmd true
  elim found [
    | none ↦ ok false
    | some d ↦ read_data fs d.inode_idx 0 true 4 >>= λ r.
        ok (eqb_ℤ r.1 (pos 4) && same_bytes r.0 elf_header)
  ]

abbrev pub word_of : List ℕ → ℕ
word_of bs = get_or bs 0 0 + 256 * get_or bs 1 0 + 65536 * get_or bs 2 0 + 16777216 * get_or bs 3 0

-- The stack pointers at the call, which the assembly code reads.
pub record Stack : Type 0 where
  pub esp : ℕ
  pub ebp : ℕ

-- What `execute` returns: -1 with the state, or the program's entry point with the state in which
-- user code starts.
pub data Execution : Type 0 where
  failed : Kernel → Execution
  started : Kernel → ℕ → Execution

-- The terminal of a new process: the current one if it runs a process, else a new one. The null
-- pointer that `new_terminal` may return is read, which is a fault.
unfoldable pub task_terminal : Kernel → ℕ → Result (Kernel × ℕ)
task_terminal k pid =
    if (k.terminals k.current_terminal).running == 1
    then ok (k, k.current_terminal)
    else (let (k', o) = new_terminal k pid in elim o [ none ↦ fault | some i ↦ ok (k', i) ])

-- The new process's control block but for the fields that name its parent.
unfoldable pub fresh_pcb : Pcb → ℕ → Command → Stack → Pcb
fresh_pcb old pid cmd stack = record old {
  fds = λ i. if ltb i fd_cnt then initial_fds i else old.fds i;
  raw_argv = cmd.bytes;
  argv1 = cmd.args;
  pid = pid;
  parent_ksp = stack.esp;
  parent_kbp = stack.ebp;
  child_pcb = none;
}

-- The new process's parent, and the parent's child; a terminal's first process has no parent.
unfoldable pub link_parent : Kernel → ℕ → ℕ → ℕ → Kernel
link_parent k parent pid i =
    let is_root = pid == (k.terminals i).pid in
    let parent_pid = (k.pcbs parent).pid in
    let k1 = set_pcb k pid (record (k.pcbs pid) {
      parent_pid = if is_root then minus_one else pos parent_pid;
      parent_pcb = if is_root then none else some parent;
    }) in
    if is_root then k1 else set_pcb k1 parent (record (k1.pcbs parent) { child_pcb = some pid })

-- The end of `execute`, from where the program is loaded: `parent` is the process that calls.
unfoldable pub enter_task : Kernel → ℕ → ℕ → Command → Stack → Result Kernel
unfolding task_terminal fresh_pcb initial_fds link_parent
enter_task k parent pid cmd stack = do
  (k1, i) ← task_terminal (set_pcb k pid (fresh_pcb (k.pcbs pid) pid cmd stack)) pid
  ok (sti (record (link_parent k1 parent pid i) { esp0 = kernel_stack pid }))

-- `execute` from where the page tables are made: load the program, and enter it at `entry`.
unfoldable pub load_text : Kernel → ℕ → ℕ → Command → Stack → ℕ → Result Execution
unfolding enter_task
load_text k parent pid cmd stack entry = do
  text ← file_read_name k.fs (some cmd.bytes) true 0 0
  let enter = enter_task k parent pid cmd stack >>= λ k'. ok (started k' entry)
  if eqb_ℤ text.1 minus_one then ok (failed (sti k)) else enter

-- `execute` from where a process id is chosen: load the entry point, the page tables and the program.
unfoldable pub load_task : Kernel → ℕ → ℕ → Command → Stack → Result Execution
unfolding load_text
load_task k parent pid cmd stack = do
  let k1 = record k { procs = bit_or k.procs (pid_mask pid); running_pid = pid }
  entry ← file_read_name k1.fs (some cmd.bytes) true 24 4
  let made = make_task_pgdir k1.paging pid
  let k2 = record k1 { paging = made.0 }
  let load = load_text k2 parent pid cmd stack (word_of entry.0)
  if not (eqb_ℤ entry.1 (pos 4))
      then ok (failed (sti k1))
      else if not (eqb_ℤ made.1 (pos 0))
      then ok (failed (sti k2))
      else load

-- `execute`; `ucmd` is `none` for a null pointer.
unfoldable pub execute : Kernel → Option (List ℕ) → Stack → Result Execution
unfolding load_task find_pid is_executable
execute k none stack = ok (failed (sti (cli k)))
execute k (some ucmd) stack = do
  let k0 = cli k
  cmd ← split_command ucmd
  good ← is_executable k0.fs cmd.bytes
  if not good then ok (failed (sti k0)) else elim (find_pid k0.procs max_pid_count 0) [
    | none ↦ ok (failed (sti k0))
    | some pid ↦ load_task k0 k0.running_pid pid cmd stack
  ]

-- The loop of `halt` that closes the descriptors, with the rounds that are left.
unfoldable pub close_all : Kernel → ℕ → ℕ → Kernel
close_all k zero i = k
close_all k (suc rounds) i = close_all (close k (pos i)).0 rounds (i + 1)

-- What `halt` does: it goes back to the parent, or the shell that it has started on a terminal whose
-- first process has ended is entered, at its entry point.
pub data Halted : Type 0 where
  resumes : Kernel → Halted
  restarts : Kernel → ℕ → Halted

-- The part of `halt` that every process goes through. `pcb` is read again after the calls.
unfoldable pub release_task : Kernel → Kernel
unfolding close_all
release_task k =
    let pcb = get_current_pcb k in
    let k1 = elim pcb.parent_pcb as (λ x. Kernel) [
      | none ↦ k
      | some parent ↦ set_pcb k parent (record (k.pcbs parent) { child_pcb = none })
    ] in
    let k2 = close_all k1 fd_cnt 0 in
    record k2 { procs = bit_and k2.procs (255 - pid_mask (get_current_pcb k2).pid) }

-- The stack of the kernel for a parent: MB8 - KB8 * (parent_pid + 1) - ADDRESS_SIZE. Without a parent
-- the id is -1.
unfoldable pub parent_stack : ℤ → ℕ
parent_stack (pos pid) = kernel_stack pid
parent_stack (negsuc n) = 0x800000 + 0x2000 * n - 4

-- The way back to the parent of the process `self`, whose control block `pcb` points to, from the
-- terminal `i`.
unfoldable pub resume_parent : Kernel → ℕ → ℕ → ℕ → Result Halted
unfolding parent_stack
resume_parent k1 self status i = do
  let pcb = k1.pcbs self
  let code = if k1.program_exception == 0 then status else 256
  let k2 = record (set_pcb k1 self (record pcb { child_return = code })) {
    program_exception = 0;
    esp0 = parent_stack pcb.parent_pid;
    running_pid = to_u32 pcb.parent_pid % 256;
  }
  p ← remove_task_pgdir k2.paging (pcb.pid % 256)
  k3 ← flush_tlb (record k2 { paging = p })
  ok (resumes (set_terminal k3 i (record (k3.terminals i) { vidmap = 0 })))

-- The name of the shell, with its NUL.
abbrev pub shell_name : List ℕ
shell_name = b's' ∷ b'h' ∷ b'e' ∷ b'l' ∷ b'l' ∷ 0 ∷ []

-- The state in which `halt` starts a new shell, once the first process of a terminal has ended.
abbrev pub without_root : Kernel → ℕ → Kernel
without_root k i =
    set_terminal (record k { esp0 = kernel_stack (k.terminals i).pid }) k.current_terminal
      (record (k.terminals k.current_terminal) { running = 0 })

-- What follows the call of `execute` in `halt`: a shell that starts is entered and does not come back,
-- and without one the code goes on to the parent's part, with the old control block.
unfoldable pub after_shell : ℕ → ℕ → ℕ → Execution → Result Halted
unfolding resume_parent
after_shell self status i (started k' entry) = ok (restarts k' entry)
after_shell self status i (failed k') = resume_parent k' self status i

-- The end of a terminal's first process.
unfoldable pub halt_root : Kernel → ℕ → Stack → ℕ → Result Halted
unfolding after_shell execute
halt_root k1 status stack i =
    execute (without_root k1 i) (some shell_name) stack >>= after_shell k1.running_pid status i

-- `halt` with the running terminal. A null terminal is read through on both ways on, which is a fault.
unfoldable pub halt_on : Kernel → ℕ → Stack → Option ℕ → Result Halted
unfolding resume_parent halt_root
halt_on k1 status stack none = fault
halt_on k1 status stack (some i) =
    let root = halt_root k1 status stack i in
    let child = resume_parent k1 k1.running_pid status i in
    if eqb_ℤ (get_current_pcb k1).parent_pid minus_one then root else child

-- `halt`; `stack` has the stack pointers at its call of `execute`. The code looks the running terminal up
-- before it clears the process's bit, which that search does not read.
unfoldable pub halt : Kernel → ℕ → Stack → Result Halted
unfolding release_task halt_on
halt k status stack = do
  let k1 = release_task k
  term ← get_running_terminal k1
  halt_on k1 status stack term

-- `set_program_exception` and `set_pid`
unfoldable pub set_program_exception : Kernel → ℕ → Kernel
set_program_exception k val = record k { program_exception = val }

unfoldable pub set_pid : Kernel → ℕ → Kernel
set_pid k pid = record k { running_pid = pid % 256 }

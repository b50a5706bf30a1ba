-- ===== src/Task/Pids.antt =====
-- The process table under `execute` and `halt`: the bitmap of process ids, the control block of a
-- new process, and what `halt` gives back.
use Prim.Native.Nat.{bit_and, bit_or}
use ece391_mp.Base.{
  ℕ, zero, suc, ◌+◌, ◌≤◌, ◌<◌, ◌≡◌, ◌≢◌, refl, sym, ap, ◌∙◌, Bool, true, false, not, List, Option,
  none, some, Result, ok, fault, ◌>>=◌, if◌then◌else◌, arith, bind_returned, ok-inj, pos, ℤ, eqb_ℤ,
  minus_one,
}
use ece391_mp.Kernel.{Kernel, Paging, set_pcb, max_pid_count, terminal_num, fd_cnt, cli, sti}
use ece391_mp.TerminalDriver.{new_terminal, take_terminal}
use ece391_mp.Fs.{Filled, file_read_name}
use ece391_mp.Paging.{make_task_pgdir}
use ece391_mp.Task.{
  find_pid, pid_mask, kernel_stack, initial_fds, task_terminal, fresh_pcb, link_parent, enter_task,
  load_text, load_task, word_of, execute, Execution, Stack, is_executable,
}
use ece391_mp.Task.Execution.{failed, started}
use ece391_mp.Task.CommandLine.{Command, split_command}

-- The id found is in range and its bit is clear, and the bits of all lower ids are set.
find_pid-free :
    (procs rounds i p : ℕ)
    → find_pid procs rounds i ≡ some p
    → (i ≤ p) × (p < i + rounds) × (bit_and (pid_mask p) procs ≡ 0)
unfolding find_pid
find_pid-free procs zero i p e = cc
find_pid-free procs (suc rounds) i p e = ground (arith, find_pid-free procs rounds (i + 1) p)

find_pid-below :
    (procs rounds i p q : ℕ)
    → find_pid procs rounds i ≡ some p
    → i ≤ q
    → q < p
    → bit_and (pid_mask q) procs ≢ 0
unfolding find_pid
find_pid-below procs zero i p q e lo hi = cc
find_pid-below procs (suc rounds) i p q e lo hi =
    ground (arith, find_pid-below procs rounds (i + 1) p q)

-- The choice of a terminal changes nothing but the terminals.
take_terminal-keeps :
    (k : Kernel) (pid rounds i : ℕ)
    → let r = take_terminal k pid rounds i in
      (r.0.pcbs ≡ k.pcbs) × (r.0.running_pid ≡ k.running_pid) × (r.0.procs ≡ k.procs)
unfolding take_terminal
take_terminal-keeps k pid zero i = (refl, refl, refl)
take_terminal-keeps k pid (suc rounds) i = ground (arith, take_terminal-keeps k pid rounds (i + 1))

task_terminal-keeps :
    (k : Kernel) (pid : ℕ) (r : Kernel × ℕ)
    → task_terminal k pid ≡ ok r
    → (r.0.pcbs ≡ k.pcbs) × (r.0.running_pid ≡ k.running_pid) × (r.0.procs ≡ k.procs)
unfolding task_terminal new_terminal
task_terminal-keeps k pid r e = ground (arith, take_terminal-keeps k pid terminal_num 0)

-- What holds in the state in which a process that `execute` has started enters user code: it is the
-- running one, its id is taken, its control block has its id and the descriptors of a new process, its
-- kernel stack is the one that a system call goes to, and interrupts are on.
pub record Entered (k : Kernel) (pid : ℕ) (procs : ℕ) : Type 0 where
  pub runs : k.running_pid ≡ pid
  pub taken : k.procs ≡ procs
  pub block : (k.pcbs pid).pid ≡ pid
  pub fds : (i : ℕ) → i < fd_cnt → (k.pcbs pid).fds i ≡ initial_fds i
  pub stack : k.esp0 ≡ kernel_stack pid
  pub interrupts : k.interrupts_on ≡ true

link_parent-keeps :
    (k : Kernel) (parent pid i : ℕ)
    → let k' = link_parent k parent pid i in
      (k'.running_pid ≡ k.running_pid)
      × (k'.procs ≡ k.procs)
      × ((k'.pcbs pid).pid ≡ (k.pcbs pid).pid)
      × ((k'.pcbs pid).fds ≡ (k.pcbs pid).fds)
unfolding link_parent
link_parent-keeps k parent pid i = ground arith

fresh_pcb-new :
    (k : Kernel) (pid : ℕ) (cmd : Command) (stack : Stack)
    → let p = (set_pcb k pid (fresh_pcb (k.pcbs pid) pid cmd stack)).pcbs pid in
      (p.pid ≡ pid) × ((i : ℕ) → i < fd_cnt → p.fds i ≡ initial_fds i)
unfolding fresh_pcb
fresh_pcb-new k pid cmd stack = (ground arith, λ i lt. ground arith)

enter_task-Entered :
    (k : Kernel) (parent pid : ℕ) (cmd : Command) (stack : Stack) (k' : Kernel)
    → enter_task k parent pid cmd stack ≡ ok k'
    → k.running_pid ≡ pid
    → Entered k' pid k.procs
unfolding enter_task
enter_task-Entered k parent pid cmd stack k' e runs = go (task_terminal k1 pid) refl e
  where
    k1 : Kernel
    k1 = set_pcb k pid (fresh_pcb (k.pcbs pid) pid cmd stack)

    go :
        (o : Result (Kernel × ℕ))
        → task_terminal k1 pid ≡ o
        → (o >>= λ r.
            ok (sti (record (link_parent r.0 parent pid r.1) { esp0 = kernel_stack pid })))
          ≡ ok k'
        → Entered k' pid k.procs
    go fault chosen e' = cc
    go (ok (k2, i)) chosen e' =
        let (pcbs, running, procs) = task_terminal-keeps k1 pid (k2, i) chosen in
        let (running', procs', same_pid, same_fds) = link_parent-keeps k2 parent pid i in
        let (new_pid, new_fds) = fresh_pcb-new k pid cmd stack in
        let block : (k2.pcbs pid) ≡ k1.pcbs pid = ap (λ f. f pid) pcbs in
        let same : k' ≡ sti (record (link_parent k2 parent pid i) { esp0 = kernel_stack pid }) =
          sym (ok-inj _ _ e') in
        rw same (record {
          runs = running' ∙ running ∙ runs;
          taken = procs' ∙ procs;
          block = same_pid ∙ ap (λ p. p.pid) block ∙ new_pid;
          fds = λ j lt. ap (λ f. f j) same_fds ∙ ap (λ p. p.fds j) block ∙ new_fds j lt;
          stack = refl;
          interrupts = refl;
        })

load_text-Entered :
    (k : Kernel) (parent pid : ℕ) (cmd : Command) (stack : Stack) (entry : ℕ) (k' : Kernel) (e' : ℕ)
    → load_text k parent pid cmd stack entry ≡ ok (started k' e')
    → k.running_pid ≡ pid
    → Entered k' pid k.procs
unfolding load_text
load_text-Entered k parent pid cmd stack entry k' e' e runs =
    go (file_read_name k.fs (some cmd.bytes) true 0 0) (enter_task k parent pid cmd stack) refl e
  where
    go :
        (text : Result Filled) (o : Result Kernel)
        → enter_task k parent pid cmd stack ≡ o
        → (text >>= λ t.
            if eqb_ℤ t.1 minus_one
            then ok (failed (sti k))
            else (o >>= λ k''. ok (started k'' entry)))
          ≡ ok (started k' e')
        → Entered k' pid k.procs
    go fault o entered h = cc
    go (ok t) fault entered h = ground arith
    go (ok t) (ok k'') entered h =
        let same : k'' ≡ k' = ground arith in
        enter_task-Entered k parent pid cmd stack k' (entered ∙ ap ok same) runs

load_task-Entered :
    (k : Kernel) (parent pid : ℕ) (cmd : Command) (stack : Stack) (k' : Kernel) (entry : ℕ)
    → load_task k parent pid cmd stack ≡ ok (started k' entry)
    → Entered k' pid (bit_or k.procs (pid_mask pid))
unfolding load_task
load_task-Entered k parent pid cmd stack k' entry e =
    let k1 = record k { procs = bit_or k.procs (pid_mask pid); running_pid = pid } in
    go (file_read_name k.fs (some cmd.bytes) true 24 4) (make_task_pgdir k.paging pid) e
  where
    go :
        (read : Result Filled) (made : Paging × ℤ)
        → (read >>= λ r.
            let k1 = record k { procs = bit_or k.procs (pid_mask pid); running_pid = pid } in
            let k2 = record k1 { paging = made.0 } in
            if not (eqb_ℤ r.1 (pos 4))
            then ok (failed (sti k1))
            else if not (eqb_ℤ made.1 (pos 0))
            then ok (failed (sti k2))
            else load_text k2 parent pid cmd stack (word_of r.0))
          ≡ ok (started k' entry)
        → Entered k' pid (bit_or k.procs (pid_mask pid))
    go fault made h = cc
    go (ok r) made h =
        let k2 : Kernel = record k {
          procs = bit_or k.procs (pid_mask pid);
          running_pid = pid;
          paging = made.0;
        } in
        let loaded : load_text k2 parent pid cmd stack (word_of r.0) ≡ ok (started k' entry) =
          ground arith in
        load_text-Entered k2 parent pid cmd stack (word_of r.0) k' entry loaded refl

-- Whenever `execute` starts a program, the new process has the lowest id whose bit in `procs` was
-- clear, that bit is now set and no other bit has changed, and the state is the one described by
-- `Entered`: the process runs, with standard input and output open and every other descriptor closed.
pub execute-Entered :
    (k : Kernel) (ucmd : List ℕ) (stack : Stack) (k' : Kernel) (entry : ℕ)
    → execute k (some ucmd) stack ≡ ok (started k' entry)
    → (pid : ℕ) × (pid < max_pid_count)
      × (bit_and (pid_mask pid) k.procs ≡ 0)
      × ((q : ℕ) → q < pid → bit_and (pid_mask q) k.procs ≢ 0)
      × Entered k' pid (bit_or k.procs (pid_mask pid))
unfolding execute
execute-Entered k ucmd stack k' entry e =
    let (cmd, _, e1) = bind_returned (split_command ucmd) _ e in
    let (good, _, e2) = bind_returned (is_executable k.fs cmd.bytes) _ e1 in
    go cmd good (find_pid k.procs max_pid_count 0) refl e2
  where
    go :
        (cmd : Command) (good : Bool) (o : Option ℕ)
        → find_pid k.procs max_pid_count 0 ≡ o
        → (if not good then ok (failed (sti (cli k))) else elim o as (λ x. Result Execution) [
          | none ↦ ok (failed (sti (cli k)))
          | some pid ↦ load_task (cli k) k.running_pid pid cmd stack
        ])
          ≡ ok (started k' entry)
        → (pid : ℕ) × (pid < max_pid_count)
          × (bit_and (pid_mask pid) k.procs ≡ 0)
          × ((q : ℕ) → q < pid → bit_and (pid_mask q) k.procs ≢ 0)
          × Entered k' pid (bit_or k.procs (pid_mask pid))
    go cmd false o found h = cc
    go cmd true none found h = cc
    go cmd true (some pid) found h =
        let (_, lt, clear) = find_pid-free k.procs max_pid_count 0 pid found in
        (
          pid,
          lt,
          clear,
          λ q below. find_pid-below k.procs max_pid_count 0 pid q found (omega arith) below,
          load_task-Entered (cli k) k.running_pid pid cmd stack k' entry h,
        )

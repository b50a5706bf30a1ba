-- ===== src/Task/Status.antt =====
-- What comes of a process that ends: its parent goes on, or a shell takes its place.
use Prim.Native.Nat.{bit_and, bit_or}
use ece391_mp.Base.{
  ℕ, ◌-◌, ◌≤◌, ◌<◌, ◌≡◌, ◌≢◌, sym, ap, subst, arith, ◌∙◌, true, false, Option, none, some, ok,
  bind_returned, ok-inj, minus_one, eqb_ℤ, ℤ, inl, inr, Bool-cases,
}
use ece391_mp.Kernel.{Kernel, get_current_pcb, fd_cnt, fd_start, max_pid_count}
use ece391_mp.Kernel.Running.{get_running_terminal}
use ece391_mp.Syscall.{is_open}
use ece391_mp.Task.{
  Halted, Stack, Execution, release_task, halt, halt_on, halt_root, after_shell, resume_parent,
  without_root, shell_name, execute, pid_mask,
}
use ece391_mp.Task.Halted.{resumes, restarts}
use ece391_mp.Task.Execution.{failed, started}
use ece391_mp.Task.Release.{release_task-frees}
use ece391_mp.Task.Pids.{Entered, execute-Entered}
use ece391_mp.Task.Failed.{execute-SameBlocks}
use ece391_mp.Task.Resume.{
  Ended, EndedFrom, child_status, release_task-SameRest, resume_parent-EndedFrom,
}

-- The ids that are taken once the running process has given its own back.
abbrev pub left_procs : Kernel → ℕ
left_procs k = bit_and k.procs (255 - pid_mask (get_current_pcb k).pid)

-- What the parent gets from the process that runs in `k`.
abbrev pub EndedHere : Kernel → ℕ → Kernel → Type 0
EndedHere k status k' =
    Ended k' k.running_pid (child_status k.program_exception status) (get_current_pcb k).parent_pid

-- The state in which a shell is started in place of the first process of a terminal: its id is free, and
-- so is the terminal on the screen.
pub record Vacated (k root : Kernel) : Type 0 where
  pub procs : root.procs ≡ left_procs k
  pub terminal : (root.terminals k.current_terminal).running ≡ 0

-- A process that has the lowest free id has been started.
abbrev pub NewProcess : ℕ → Kernel → Type 0
NewProcess procs k' =
    (pid : ℕ) × (pid < max_pid_count)
    × (bit_and (pid_mask pid) procs ≡ 0)
    × ((q : ℕ) → q < pid → bit_and (pid_mask q) procs ≢ 0)
    × Entered k' pid (bit_or procs (pid_mask pid))

-- The ways in which a process ends.
pub data Ending (k : Kernel) (status : ℕ) (stack : Stack) : Halted → Type 0 where
  to_parent :
      (k' : Kernel)
      → (get_current_pcb k).parent_pid ≢ minus_one
      → EndedHere k status k'
      → k'.procs ≡ left_procs k
      → ((m : ℕ) → fd_start ≤ m → m < fd_cnt → is_open ((k'.pcbs k.running_pid).fds m) ≡ false)
      → Ending k status stack (resumes k')
  to_shell :
      (root k' : Kernel) (entry : ℕ)
      → (get_current_pcb k).parent_pid ≡ minus_one
      → Vacated k root
      → execute root (some shell_name) stack ≡ ok (started k' entry)
      → NewProcess (left_procs k) k'
      → Ending k status stack (restarts k' entry)
  no_shell :
      (root back k' : Kernel)
      → (get_current_pcb k).parent_pid ≡ minus_one
      → Vacated k root
      → execute root (some shell_name) stack ≡ ok (failed back)
      → EndedHere k status k'
      → Ending k status stack (resumes k')

eqb_ℤ-minus_one : (z : ℤ) → eqb_ℤ z minus_one ≡ true → z ≡ minus_one
eqb_ℤ-minus_one z e = ground arith

eqb_ℤ-other : (z : ℤ) → eqb_ℤ z minus_one ≡ false → z ≢ minus_one
eqb_ℤ-other z e = λ same. cc

-- The state before the end, once the process is released.
module _ (k : Kernel) (status : ℕ) (stack : Stack) where
  -- What the way back from `k1` means for the process that runs in `k`.
  here :
      (k1 k' : Kernel)
      → (k1.pcbs k.running_pid).parent_pid ≡ (get_current_pcb k).parent_pid
      → k1.program_exception ≡ k.program_exception
      → EndedFrom k1 k' k.running_pid
          (child_status k1.program_exception status)
          (k1.pcbs k.running_pid).parent_pid
      → EndedHere k status k'
  here k1 k' parent flag h =
      subst (λ f. Ended k' k.running_pid (child_status f status) (get_current_pcb k).parent_pid)
        flag
        (subst (λ p. Ended k' k.running_pid (child_status k1.program_exception status) p) parent
          (h.ended))

  release_task-running : (release_task k).running_pid ≡ k.running_pid
  release_task-running = let (procs, running, others, closed) = release_task-frees k in running

  release_task-parent :
      (get_current_pcb (release_task k)).parent_pid ≡ (get_current_pcb k).parent_pid
  release_task-parent =
      ap (λ p. ((release_task k).pcbs p).parent_pid) release_task-running
      ∙ (release_task-SameRest k).parents k.running_pid

  child-Ending :
      (i : ℕ) (h : Halted)
      → (get_current_pcb k).parent_pid ≢ minus_one
      → resume_parent (release_task k) k.running_pid status i ≡ ok h
      → Ending k status stack h
  child-Ending i h child e =
      let rest = release_task-SameRest k in
      let (procs, running, others, closed) = release_task-frees k in
      let (k', same, ended) = resume_parent-EndedFrom (release_task k) k.running_pid status i h e in
      subst (Ending k status stack) (sym same) (
        to_parent k' child (here (release_task k) k' (rest.parents k.running_pid) (rest.flag) ended)
          (ended.procs ∙ procs)
          (λ m lo hi.
            ap (λ f. is_open (f m)) (ended.fds)
            ∙ ap (λ p. is_open (((release_task k).pcbs p).fds m)) (sym running)
            ∙ closed m lo hi))

  Vacated-root : (i : ℕ) → Vacated k (without_root (release_task k) i)
  Vacated-root i =
      let rest = release_task-SameRest k in
      let (procs, running, others, closed) = release_task-frees k in
      record { procs = procs; terminal = let current = rest.current in ground (arith, current) }

  root-Ending :
      (i : ℕ) (h : Halted) (x : Execution)
      → (get_current_pcb k).parent_pid ≡ minus_one
      → execute (without_root (release_task k) i) (some shell_name) stack ≡ ok x
      → after_shell k.running_pid status i x ≡ ok h
      → Ending k status stack h
  unfolding after_shell
  root-Ending i h (started k' entry) root starts e =
      let vacated = Vacated-root i in
      let new =
        execute-Entered (without_root (release_task k) i) shell_name stack k' entry starts in
      subst (Ending k status stack) (ok-inj _ _ e) (
        to_shell (without_root (release_task k) i) k' entry root vacated starts
          (subst (λ procs. NewProcess procs k') (vacated.procs) new))
  root-Ending i h (failed back) root fails e =
      let rest = release_task-SameRest k in
      let blocks =
        execute-SameBlocks (without_root (release_task k) i) shell_name stack back fails in
      let (k', same, ended) = resume_parent-EndedFrom back k.running_pid status i h e in
      subst (Ending k status stack) (sym same) (
        no_shell (without_root (release_task k) i) back k' root (Vacated-root i) fails (
          here back k'
            (ap (λ f. (f k.running_pid).parent_pid) (blocks.blocks) ∙ rest.parents k.running_pid)
            (blocks.flag ∙ rest.flag) ended))

  halt_root-Ending :
      (i : ℕ) (h : Halted)
      → (get_current_pcb k).parent_pid ≡ minus_one
      → halt_root (release_task k) status stack i ≡ ok h
      → Ending k status stack h
  unfolding halt_root
  halt_root-Ending i h root e =
      let (x, executed, e') =
        bind_returned (execute (without_root (release_task k) i) (some shell_name) stack) _ e in
      root-Ending i h x root executed
        (subst (λ p. after_shell p status i x ≡ ok h) release_task-running e')

  halt_on-Ending :
      (term : Option ℕ) (h : Halted)
      → halt_on (release_task k) status stack term ≡ ok h
      → Ending k status stack h
  unfolding halt_on
  halt_on-Ending none h e = cc
  halt_on-Ending (some i) h e =
      elim (Bool-cases (eqb_ℤ (get_current_pcb (release_task k)).parent_pid minus_one)) [
        | inl root ↦
            halt_root-Ending i h (sym release_task-parent ∙ eqb_ℤ-minus_one _ root) (rw root at e)
        | inr child ↦
            child-Ending i h (λ same. eqb_ℤ-other _ child (release_task-parent ∙ same))
              (subst (λ p. resume_parent (release_task k) p status i ≡ ok h) release_task-running
                (rw child at e))
      ]

-- Every call of `halt` that leaves the process does so in one of three ways, and the process's own parent
-- decides which. With a parent, the parent runs again on its own stack, finds the status in the control
-- block of the process, or 256 after an exception, and the flag of the exception is clear; the process's
-- id is free, and its files from 2 on are closed. The first process of a terminal has no parent: the
-- terminal on the screen and the id are given back, and `shell` is executed; if it starts, it has the
-- lowest free id, and else the code goes on as if -1 were the id of a parent.
pub halt-Ended :
    (k : Kernel) (status : ℕ) (stack : Stack) (h : Halted)
    → halt k status stack ≡ ok h
    → Ending k status stack h
unfolding halt
halt-Ended k status stack h e =
    let (term, e1, e2) = bind_returned (get_running_terminal (release_task k)) _ e in
    halt_on-Ending k status stack term h e2

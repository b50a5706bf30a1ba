-- ===== src/Pit/Handler.antt =====
-- What `irqh_pit` does from the choice of a terminal on.
use ece391_mp.Base.{ℕ, ◌+◌, ◌*◌, ◌≡◌, ◌≢◌, ◌<◌, ◌∙◌, true, false, some, Result, ok, ◌==◌, arith}
use ece391_mp.Kernel.{Kernel, set_pcb, max_pid_count}
use ece391_mp.Paging.{kb4, num_proc}
use ece391_mp.Paging.Map.{Placed}
use ece391_mp.Paging.Mmu.{translate}
use ece391_mp.Screen.{video}
use ece391_mp.Task.{Stack, kernel_stack}
use ece391_mp.Pit.{Scheduled, lowest_child, schedule, switch_task, screen_of}
use ece391_mp.Pit.Scheduled.{switched}
use ece391_mp.Pit.RoundRobin.{Descends, lowest_child-Descends}
use ece391_mp.Pit.Display.{switch_task-screen}

-- The processes: each id below 8 stands in its own control block, and the chains of children have no
-- cycle and stay below 8.
pub record TreeOk (k : Kernel) (rank : ℕ → ℕ) : Type 0 where
  pub own : (p : ℕ) → p < num_proc → (k.pcbs p).pid ≡ p
  pub falls : (q c : ℕ) → (k.pcbs q).child_pcb ≡ some c → rank c < rank q
  pub below : (q c : ℕ) → (k.pcbs q).child_pcb ≡ some c → c < num_proc

-- The state once the interrupted process's stack is saved.
saved : Kernel → ℕ → Stack → Kernel
saved k i stack =
    set_pcb (record k { schedule_counter = i; current_schedule = i }) k.running_pid
      (record (k.pcbs k.running_pid) { ksp = stack.esp; kbp = stack.ebp })

saved-pcb :
    (k : Kernel) (i : ℕ) (stack : Stack) (p : ℕ)
    → (((saved k i stack).pcbs p).pid ≡ (k.pcbs p).pid)
      × (((saved k i stack).pcbs p).child_pcb ≡ (k.pcbs p).child_pcb)
unfolding saved
saved-pcb k i stack p = ground arith

saved-TreeOk :
    (k : Kernel) (i : ℕ) (stack : Stack) (rank : ℕ → ℕ)
    → TreeOk k rank
    → TreeOk (saved k i stack) rank
saved-TreeOk k i stack rank tree = record {
  own = λ p lt. (saved-pcb k i stack p).0 ∙ tree.own p lt;
  falls = λ q c e. tree.falls q c (rw (← (saved-pcb k i stack q).1) e);
  below = λ q c e. tree.below q c (rw (← (saved-pcb k i stack q).1) e);
}

-- The last process of a chain from below 8 is below 8.
Descends-below :
    (k : Kernel) (rank : ℕ → ℕ) (p q : ℕ)
    → TreeOk k rank
    → Descends k p q
    → p < num_proc
    → q < num_proc
Descends-below k rank _ _ tree (Descends.ends p e) lt = lt
Descends-below k rank _ _ tree (Descends.child p c q e rest) lt =
    Descends-below k rank c q tree rest (tree.below p c e)

Descends-saved :
    (k : Kernel) (i : ℕ) (stack : Stack) (p q : ℕ) → Descends (saved k i stack) p q → Descends k p q
Descends-saved k i stack _ _ (Descends.ends p e) =
    Descends.ends p (rw (← (saved-pcb k i stack p).1) e)
Descends-saved k i stack _ _ (Descends.child p c q e rest) =
    Descends.child p c q (rw (← (saved-pcb k i stack p).1) e) (Descends-saved k i stack c q rest)

schedule-steps :
    (k : Kernel) (i next : ℕ) (stack : Stack) (r : Result Scheduled)
    → i ≢ k.current_schedule
    → (k.terminals i).running ≡ 1
    → lowest_child (saved k i stack) max_pid_count (k.terminals i).pid ≡ some next
    → switch_task (saved k i stack) i next ≡ r
    → schedule k i stack ≡ r
unfolding schedule saved
schedule-steps k i next stack r other runs found step =
    let differs : (i == k.current_schedule) ≡ false = ground arith in rw (differs, runs, found) step

-- Once the scheduler has chosen a terminal `i` other than the scheduled one, whose first process runs,
-- the handler goes on with the last process `q` of the chain of children of that process: it runs, on
-- its own kernel stack, and its writes to the screen's page reach video memory if terminal `i` is on
-- the screen and the page of terminal `i` otherwise. This is for processes as `TreeOk` says, whose
-- ranks are below 8, for page tables on pages of their own, and for a terminal's page that is aligned.
pub schedule-switches :
    (k : Kernel) (i frame : ℕ) (stack : Stack) (rank : ℕ → ℕ)
    → TreeOk k rank
    → Placed k.paging
    → i ≢ k.current_schedule
    → (k.terminals i).running ≡ 1
    → (k.terminals i).pid < num_proc
    → rank (k.terminals i).pid < max_pid_count
    → screen_of k i k.current_terminal ≡ frame * 4096
    → (q : ℕ) × (k' : Kernel) × Descends k (k.terminals i).pid q
      × (schedule k i stack ≡ ok (switched k' q))
      × (k'.running_pid ≡ q)
      × (k'.esp0 ≡ kernel_stack q)
      × ((off : ℕ)
          → off < kb4
          → translate k'.paging (video + off) ≡ some (frame * 4096 + off, true))
unfolding saved
schedule-switches k i frame stack rank tree placed other runs lt ranked shown =
    let p = (k.terminals i).pid in
    let k2 = saved k i stack in
    let tree2 = saved-TreeOk k i stack rank tree in
    let (q, found, chain) = lowest_child-Descends k2 rank max_pid_count p (tree2.falls) ranked in
    let small = Descends-below k2 rank p q tree2 chain lt in
    let (k', step, running, esp0, maps) =
      switch_task-screen k2 i q frame placed small (tree2.own q small) shown in
    (
      q,
      k',
      Descends-saved k i stack p q chain,
      schedule-steps k i q stack (ok (switched k' q)) other runs found step,
      running,
      esp0,
      maps,
    )

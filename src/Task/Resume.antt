-- ===== src/Task/Resume.antt =====
-- The way of `halt` back to the parent, and what the release of a process leaves alone.
use ece391_mp.Base.{
  ℕ, zero, suc, ◌+◌, ◌%◌, ◌≡◌, refl, sym, ap, subst, arith, ◌∙◌, Option, none, some, ok, in_bounds,
  ltb, ◌==◌, if◌then◌else◌, bind_returned, ok-inj, pos, ℤ, to_u32,
}
use ece391_mp.Kernel.{Kernel, Terminal, get_current_pcb, set_pcb, set_terminal, fd_cnt}
use ece391_mp.Paging.{remove_task_pgdir, flush_tlb, num_proc}
use ece391_mp.Syscall.{close}
use ece391_mp.Task.{Halted, close_all, release_task, resume_parent, parent_stack}
use ece391_mp.Task.Halted.{resumes, restarts}

-- What the release of a process leaves alone.
pub record SameRest (k k' : Kernel) : Type 0 where
  pub parents : (p : ℕ) → (k'.pcbs p).parent_pid ≡ (k.pcbs p).parent_pid
  pub flag : k'.program_exception ≡ k.program_exception
  pub current : k'.current_terminal ≡ k.current_terminal

SameRest-trans : (k k1 k2 : Kernel) → SameRest k k1 → SameRest k1 k2 → SameRest k k2
SameRest-trans k k1 k2 a b = record {
  parents = λ p. b.parents p ∙ a.parents p;
  flag = b.flag ∙ a.flag;
  current = b.current ∙ a.current;
}

close-SameRest : (k : Kernel) (fd : ℤ) → SameRest k (close k fd).0
unfolding close
close-SameRest k fd = record {
  parents = λ p. ground arith;
  flag = ground arith;
  current = ground arith;
}

close_all-SameRest : (k : Kernel) (rounds i : ℕ) → SameRest k (close_all k rounds i)
unfolding close_all
close_all-SameRest k zero i = record { parents = λ p. refl; flag = refl; current = refl }
close_all-SameRest k (suc rounds) i =
    SameRest-trans k (close k (pos i)).0 _ (close-SameRest k (pos i))
      (close_all-SameRest (close k (pos i)).0 rounds (i + 1))

unlink : Kernel → Option ℕ → Kernel
unlink k o = elim o as (λ x. Kernel) [
  | none ↦ k
  | some parent ↦ set_pcb k parent (record (k.pcbs parent) { child_pcb = none })
]

unlink-SameRest : (k : Kernel) (o : Option ℕ) → SameRest k (unlink k o)
unfolding unlink
unlink-SameRest k none = record { parents = λ p. refl; flag = refl; current = refl }
unlink-SameRest k (some parent) = record {
  parents = λ p. ground arith;
  flag = refl;
  current = refl;
}

pub release_task-SameRest : (k : Kernel) → SameRest k (release_task k)
unfolding release_task unlink
release_task-SameRest k =
    let first = unlink-SameRest k (get_current_pcb k).parent_pcb in
    let all = close_all-SameRest (unlink k (get_current_pcb k).parent_pcb) fd_cnt 0 in
    let both =
      SameRest-trans k (unlink k (get_current_pcb k).parent_pcb)
        (close_all (unlink k (get_current_pcb k).parent_pcb) fd_cnt 0) first all in
    record { parents = both.parents; flag = both.flag; current = both.current }

-- What `halt` stores for the parent.
abbrev pub child_status : ℕ → ℕ → ℕ
child_status flag status = if flag == 0 then status else 256

-- The end of a process in the state that `halt` goes back to the parent with: the status for the parent
-- in the control block, the flag cleared, and the parent running on its stack.
pub record Ended (k' : Kernel) (pid status : ℕ) (parent : ℤ) : Type 0 where
  pub child_return : (k'.pcbs pid).child_return ≡ status
  pub flag : k'.program_exception ≡ 0
  pub running : k'.running_pid ≡ to_u32 parent % 256
  pub stack : k'.esp0 ≡ parent_stack parent

-- With the process's id and its open files, which the way back leaves alone.
pub record EndedFrom (k k' : Kernel) (pid status : ℕ) (parent : ℤ) : Type 0 where
  pub ended : Ended k' pid status parent
  pub procs : k'.procs ≡ k.procs
  pub fds : (k'.pcbs pid).fds ≡ (k.pcbs pid).fds

flush_tlb-EndedFrom :
    (k0 k k' : Kernel) (pid status : ℕ) (parent : ℤ)
    → flush_tlb k ≡ ok k'
    → EndedFrom k0 k pid status parent
    → EndedFrom k0 k' pid status parent
unfolding flush_tlb
flush_tlb-EndedFrom k0 k k' pid status parent e h =
    let (u, e1, e2) = bind_returned (in_bounds (ltb (get_current_pcb k).pid num_proc)) _ e in
    let same = ok-inj _ _ e2 in
    subst (λ q. EndedFrom k0 q pid status parent) same
      (record {
        ended = record {
          child_return = h.ended.child_return;
          flag = h.ended.flag;
          running = h.ended.running;
          stack = h.ended.stack;
        };
        procs = h.procs;
        fds = h.fds;
      })

state_of : Halted → Kernel
state_of (resumes k) = k
state_of (restarts k entry) = k

resumes-EndedFrom :
    (k0 k k' : Kernel) (i : ℕ) (t : Terminal) (pid status : ℕ) (parent : ℤ)
    → resumes (set_terminal k i t) ≡ resumes k'
    → EndedFrom k0 k pid status parent
    → EndedFrom k0 k' pid status parent
unfolding state_of
resumes-EndedFrom k0 k k' i t pid status parent e h =
    subst (λ q. EndedFrom k0 q pid status parent) (ap state_of e)
      (record {
        ended = record {
          child_return = h.ended.child_return;
          flag = h.ended.flag;
          running = h.ended.running;
          stack = h.ended.stack;
        };
        procs = h.procs;
        fds = h.fds;
      })

-- Where the way back to the parent ends.
pub resume_parent-EndedFrom :
    (k : Kernel) (self status i : ℕ) (h : Halted)
    → resume_parent k self status i ≡ ok h
    → (k' : Kernel) × (h ≡ resumes k')
      × EndedFrom k k' self (child_status k.program_exception status) (k.pcbs self).parent_pid
unfolding resume_parent
resume_parent-EndedFrom k self status i h e =
    let pcb = k.pcbs self in
    let code = child_status k.program_exception status in
    let k2 = record (set_pcb k self (record pcb { child_return = code })) {
      program_exception = 0;
      esp0 = parent_stack pcb.parent_pid;
      running_pid = to_u32 pcb.parent_pid % 256;
    } in
    let (p, e1, e2) = bind_returned (remove_task_pgdir k2.paging (pcb.pid % 256)) _ e in
    let (k3, e3, e4) = bind_returned (flush_tlb (record k2 { paging = p })) _ e2 in
    let h2 : EndedFrom k (record k2 { paging = p }) self code pcb.parent_pid = record {
      ended = record { child_return = ground arith; flag = refl; running = refl; stack = refl };
      procs = refl;
      fds = ground arith;
    } in
    let h3 = flush_tlb-EndedFrom k (record k2 { paging = p }) k3 self code pcb.parent_pid e3 h2 in
    let last : Kernel = set_terminal k3 i (record (k3.terminals i) { vidmap = 0 }) in
    (last, sym (ok-inj _ _ e4), resumes-EndedFrom k k3 last i _ self code pcb.parent_pid refl h3)

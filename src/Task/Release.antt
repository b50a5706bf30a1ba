-- ===== src/Task/Release.antt =====
-- What `halt` gives back before it returns to the parent: the descriptors and the process id.
use Prim.Native.Nat.{bit_and, bit_or}
use ece391_mp.Base.{
  ℕ, zero, suc, ◌+◌, ◌-◌, ◌≤◌, ◌<◌, ◌≡◌, ◌≢◌, refl, sym, ap, ◌∙◌, inl, inr, Bool, true, false, not,
  ◌&&◌, ◌||◌, List, ok, Option, none, some, ltb, leb, ◌==◌, arith, Bool-cases, all_below,
  all_below-true, pos,
}
use ece391_mp.Kernel.{Kernel, get_current_pcb, set_pcb, max_pid_count, fd_cnt, fd_start}
use ece391_mp.Syscall.{close, is_open}
use ece391_mp.Syscall.Fds.{fds_of, close-pos}
use ece391_mp.Task.{pid_mask, close_all, release_task, execute, Stack}
use ece391_mp.Task.Execution.{started}
use ece391_mp.Task.Pids.{execute-Entered}

-- `close` changes only the descriptor that it closes, which is not open afterwards.
close-closes :
    (k : Kernel) (n : ℕ)
    → let k' = (close k (pos n)).0 in
      (k'.procs ≡ k.procs)
      × (k'.running_pid ≡ k.running_pid)
      × ((get_current_pcb k').pid ≡ (get_current_pcb k).pid)
      × ((m : ℕ) → m ≢ n → fds_of k' m ≡ fds_of k m)
      × (fd_start ≤ n → n < fd_cnt → is_open (fds_of k' n) ≡ false)
close-closes k n = elim (Bool-cases (leb fd_start n && ltb n fd_cnt && is_open (fds_of k n))) [
  | inl accepts ↦
      rw (close-pos k n, accepts)
        (refl, refl, ground arith, λ m other. ground arith, λ lo hi. ground arith)
  | inr refuses ↦
      rw (close-pos k n, refuses) (refl, refl, refl, λ m other. refl, λ lo hi. ground arith)
]

close_all-closes :
    (k : Kernel) (rounds i : ℕ)
    → let k' = close_all k rounds i in
      (k'.procs ≡ k.procs)
      × (k'.running_pid ≡ k.running_pid)
      × ((get_current_pcb k').pid ≡ (get_current_pcb k).pid)
      × ((m : ℕ) → m < i → fds_of k' m ≡ fds_of k m)
      × ((m : ℕ)
          → i ≤ m
          → m < i + rounds
          → fd_start ≤ m
          → m < fd_cnt
          → is_open (fds_of k' m) ≡ false)
unfolding close_all
close_all-closes k zero i = (refl, refl, refl, λ m lt. refl, λ m lo hi a b. absurd (omega arith))
close_all-closes k (suc rounds) i =
    let (procs, running, pid, others, closed) = close-closes k i in
    let (procs', running', pid', others', closed') =
      close_all-closes (close k (pos i)).0 rounds (i + 1) in
    (
      procs' ∙ procs,
      running' ∙ running,
      pid' ∙ pid,
      λ m lt. others' m (omega arith) ∙ others m (omega arith),
      λ m lo hi a b. elim (Bool-cases (i == m)) [
        | inl here ↦
            let same : i ≡ m = ground arith in
            ap is_open (others' m (omega arith))
            ∙ ap (λ j. is_open (fds_of (close k (pos i)).0 j)) (sym same)
            ∙ closed (omega arith) (omega arith)
        | inr later ↦ let after : i + 1 ≤ m = ground arith in closed' m after (omega arith) a b
      ],
    )

-- Standard input and output cannot be closed.
close_all-from_start : (k : Kernel) → close_all k fd_cnt 0 ≡ close_all k 6 2
unfolding close_all close
close_all-from_start k = refl

-- The write to the parent's control block leaves the running process's alone, but for `child_pcb`.
unlinked-keeps :
    (k : Kernel) (o : Option ℕ)
    → let k1 = elim o as (λ x. Kernel) [
      | none ↦ k
      | some parent ↦ set_pcb k parent (record (k.pcbs parent) { child_pcb = none })
    ] in
      (k1.procs ≡ k.procs)
      × (k1.running_pid ≡ k.running_pid)
      × ((get_current_pcb k1).pid ≡ (get_current_pcb k).pid)
      × (fds_of k1 ≡ fds_of k)
unlinked-keeps k none = (refl, refl, refl, refl)
unlinked-keeps k (some parent) = ground arith

-- The part of `halt` that every process goes through closes all of the process's files from
-- descriptor 2 on, leaves standard input and output alone, and clears the bit of its id in `procs`.
pub release_task-frees :
    (k : Kernel)
    → let k' = release_task k in
      (k'.procs ≡ bit_and k.procs (255 - pid_mask (get_current_pcb k).pid))
      × (k'.running_pid ≡ k.running_pid)
      × ((m : ℕ) → m < fd_start → fds_of k' m ≡ fds_of k m)
      × ((m : ℕ) → fd_start ≤ m → m < fd_cnt → is_open (fds_of k' m) ≡ false)
unfolding release_task
release_task-frees k =
    let k1 : Kernel = elim (get_current_pcb k).parent_pcb as (λ x. Kernel) [
      | none ↦ k
      | some parent ↦ set_pcb k parent (record (k.pcbs parent) { child_pcb = none })
    ] in
    let (procs, running, pid, fds) = unlinked-keeps k (get_current_pcb k).parent_pcb in
    let (procs', running', pid', others, closed) = close_all-closes k1 6 2 in
    rw (close_all-from_start k1) (
      ap (λ p. bit_and (close_all k1 6 2).procs (255 - pid_mask p)) (pid' ∙ pid)
          ∙ ap (λ q. bit_and q (255 - pid_mask (get_current_pcb k).pid)) (procs' ∙ procs),
      running' ∙ running,
      λ m lt. others m lt ∙ ap (λ f. f m) fds,
      λ m lo hi. closed m lo hi lo hi,
    )

-- The bit that is set when a process starts is the only one that is cleared when it ends.
freed : ℕ → ℕ → Bool
freed procs p =
    not (bit_and (pid_mask p) procs == 0)
    || (bit_and (bit_or procs (pid_mask p)) (255 - pid_mask p) == procs)

all_freed : all_below 256 (λ procs. all_below max_pid_count (freed procs)) ≡ true
unfolding all_below freed
all_freed = refl

bit_and-freed :
    (procs p : ℕ)
    → procs < 256
    → p < max_pid_count
    → bit_and (pid_mask p) procs ≡ 0
    → bit_and (bit_or procs (pid_mask p)) (255 - pid_mask p) ≡ procs
unfolding freed
bit_and-freed procs p lt lt' clear =
    let at_procs = all_below-true 256 (λ q. all_below max_pid_count (freed q)) procs all_freed lt in
    let both = all_below-true max_pid_count (freed procs) p at_procs lt' in
    ground (arith, both, clear)

-- What a program that `execute` has started gives back when it ends: if `procs`, which has 8 bits, and
-- the id in its control block are then what they were when it entered user code, the bitmap is what it
-- was before the call of `execute`.
pub release_task-execute :
    (k : Kernel) (ucmd : List ℕ) (stack : Stack) (k' : Kernel) (entry : ℕ) (k2 : Kernel)
    → k.procs < 256
    → execute k (some ucmd) stack ≡ ok (started k' entry)
    → k2.procs ≡ k'.procs
    → (get_current_pcb k2).pid ≡ (get_current_pcb k').pid
    → (release_task k2).procs ≡ k.procs
release_task-execute k ucmd stack k' entry k2 lt e same same_pid =
    let (pid, lt', clear, _, entered) = execute-Entered k ucmd stack k' entry e in
    let (procs, _, _, _) = release_task-frees k2 in
    let id : (get_current_pcb k2).pid ≡ pid =
      same_pid ∙ ap (λ p. (k'.pcbs p).pid) (entered.runs) ∙ entered.block in
    procs
    ∙ ap (λ p. bit_and k2.procs (255 - pid_mask p)) id
    ∙ ap (λ q. bit_and q (255 - pid_mask pid)) (same ∙ entered.taken)
    ∙ bit_and-freed k.procs pid lt lt' clear
